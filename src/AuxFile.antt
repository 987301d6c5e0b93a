-- ===== src/AuxFile.antt =====
-- util.c: the auxiliary files, which hold one 8-byte date for each chunk of the stream file:
-- `GetAuxFile`, `LookupAuxFile`, `CheckFileSizes` and `GetDirFile`.
-- A file is the list of its bytes, and `none` a file that cannot be opened, sized or mapped.
pub mod Lookup
pub mod Sizes
pub mod Names
use multicat_supervisor.Base.{
  ℕ, zero, suc, ◌+◌, ◌-◌, ◌*◌, ◌/◌, ◌%◌, Bool, true, false, not, Option, none, some, List, [], ◌∷◌,
  ◌++◌, ltb, leb, ◌==◌, if◌then◌else◌, length, take, drop, Bytes, codes, add64, i64_min,
}
use multicat_supervisor.Stc.{from_stc}

abbrev pub default_payload_size : ℕ
default_payload_size = 1316

abbrev pub default_rotate_size : ℕ
default_rotate_size = 97200000000

-- `FromSTC( p_aux + i * sizeof(uint64_t) )`; `none` is a read past the mapping.
unfoldable pub stc_at : Bytes → ℕ → Option ℕ
stc_at aux i = from_stc (drop (i * 8) aux)

-- `failed` is -1, `fault` a read past the mapping, `out_of_fuel` no value of the code.
pub data Found : Type 0 where
  found : ℕ → Found
  failed fault out_of_fuel : Found

-- The binary search of `LookupAuxFile`.
unfoldable pub lookup_loop : ℕ → Bytes → ℕ → ℕ → ℕ → Found
lookup_loop zero aux wanted offset1 offset2 = out_of_fuel
lookup_loop (suc fuel) aux wanted offset1 offset2 =
    let mid = (offset1 + offset2) / 2 in
    elim (stc_at aux mid) [
      | none ↦ fault
      | some stc ↦ elim (offset1 == mid) [
        | true ↦ found offset2
        | false ↦ elim (leb wanted stc) [
          | true ↦ lookup_loop fuel aux wanted offset1 mid
          | false ↦ lookup_loop fuel aux wanted mid offset2
        ]
      ]
    ]

abbrev pub is_negative : ℕ → Bool
is_negative w = leb i64_min w

-- `i_wanted` made absolute: from the end if it is negative, else from the first date.
unfoldable pub lookup_target : Bytes → ℕ → Bool → Option ℕ
lookup_target aux wanted absolute =
    if is_negative wanted
    then elim (stc_at aux (length aux / 8 - 1)) [ none ↦ none | some stc ↦ some (add64 wanted stc) ]
    else if not absolute
    then elim (stc_at aux 0) [ none ↦ none | some stc ↦ some (add64 wanted stc) ]
    else some wanted

lookup_mapped : Bytes → ℕ → Bool → Found
lookup_mapped aux wanted absolute =
    if ltb (length aux) 8 then failed else elim (lookup_target aux wanted absolute) [
      | none ↦ fault
      | some target ↦
          if is_negative target
          then failed
          else lookup_loop (length aux / 8) aux target 0 (length aux / 8)
    ]

-- `LookupAuxFile`; the loop's fuel is the number of dates.
unfoldable pub lookup_aux_file : Option Bytes → ℕ → Bool → Found
unfolding lookup_mapped
lookup_aux_file none wanted absolute = failed
lookup_aux_file (some aux) wanted absolute = lookup_mapped aux wanted absolute

-- `strrchr`: where the byte stands for the last time.
unfoldable pub strrchr : ℕ → Bytes → Option ℕ
strrchr c [] = none
strrchr c (x ∷ xs) = elim (strrchr c xs) [
  | some i ↦ some (i + 1)
  | none ↦ if x == c then some 0 else none
]

-- `%u` and `%zu`: the decimal digits in front of the text `rest`; there are at most `fuel`.
unfoldable pub decimal_onto : ℕ → ℕ → Bytes → Bytes
decimal_onto zero n rest = rest
decimal_onto (suc fuel) n rest =
    let more = decimal_onto fuel (n / 10) ((n % 10 + b'0') ∷ rest) in
    if ltb n 10 then (n + b'0') ∷ rest else more

-- Twenty digits hold every 64-bit number.
unfoldable pub decimal : ℕ → Bytes
unfolding decimal_onto
decimal n = decimal_onto 20 n []

-- Where the search for the extension begins.
abbrev pub after_slash : Option ℕ → ℕ
after_slash none = 1
after_slash (some i) = i + 1

abbrev pub strip_at : Bytes → ℕ → Option ℕ → Bytes
strip_at arg token none = arg
strip_at arg token (some j) = take (token + j) arg

strip_extension : Bytes → Bytes
strip_extension arg =
    let base = after_slash (strrchr b'/' arg) in
    let token = if ltb base (length arg) then base + 1 else base in
    strip_at arg token (strrchr b'.' (drop token arg))

-- `GetAuxFile`
unfoldable pub get_aux_file : Bytes → ℕ → Bytes
unfolding strip_extension
get_aux_file arg payload_size =
    strip_extension arg
    ++ (codes ".aux" ++ (if payload_size == default_payload_size then [] else decimal payload_size))

-- the `sprintf` of `OpenDirFile` and `LookupDirAuxFile`
unfoldable pub dir_file_name : Bytes → ℕ → Bytes
dir_file_name dir file = dir ++ (b'/' ∷ (decimal file ++ codes ".ts"))

-- `LookupDirAuxFile`, on a file system from names to contents
unfoldable pub lookup_dir_aux_file : (Bytes → Option Bytes) → Bytes → ℕ → ℕ → ℕ → Found
lookup_dir_aux_file files dir file wanted payload_size =
    lookup_aux_file (files (get_aux_file (dir_file_name dir file) payload_size)) wanted true

-- The sizes of a stream file and its auxiliary file, `none` if the file does not exist.
pub record FileSizes : Type 0 where
  pub file : Option ℕ
  pub aux : Option ℕ

abbrev pub packets : Option ℕ → ℕ → ℕ
packets none unit = 0
packets (some size) unit = size / unit

-- `truncate`, which fails on a file that is not there.
abbrev pub truncate : Option ℕ → ℕ → Option ℕ
truncate none size = none
truncate (some old) size = some size

-- Which of the calls of `truncate` in `CheckFileSizes` succeed: that of the file and that of the
-- auxiliary file to whole packets, and the last one.
pub record Truncations : Type 0 where
  pub file : Bool
  pub aux : Bool
  pub last : Bool

abbrev pub all_succeed : Truncations
all_succeed = record { file = true; aux = true; last = true }

-- One that fails gives a message, and the file stays as it was.
abbrev pub truncate_if : Bool → Option ℕ → ℕ → Option ℕ
truncate_if true old size = truncate old size
truncate_if false old size = old

whole_packets : Bool → Option ℕ → ℕ → Option ℕ
whole_packets succeeds none unit = none
whole_packets succeeds (some size) unit =
    if size % unit == 0 then some size else truncate_if succeeds (some size) (size / unit * unit)

-- `CheckFileSizes`, with a payload size that is not 0.
unfoldable pub check_file_sizes : Truncations → FileSizes → ℕ → FileSizes
unfolding whole_packets
check_file_sizes t s payload_size =
    let file_packets = packets s.file payload_size in
    let aux_packets = packets s.aux 8 in
    let file = whole_packets t.file s.file payload_size in
    let aux = whole_packets t.aux s.aux 8 in
    if ltb file_packets aux_packets
    then record { file = file; aux = truncate_if t.last aux (file_packets * 8) }
    else if ltb aux_packets file_packets
    then record { file = truncate_if t.last file (aux_packets * payload_size); aux = aux }
    else record { file = file; aux = aux }

abbrev is_not_positive : ℕ → Bool
is_not_positive w = if w == 0 then true else is_negative w

dir_file_of : ℕ → ℕ → ℕ
dir_file_of rotate_size wanted = if is_not_positive wanted then 0 else wanted / rotate_size

-- `GetDirFile`, at the date `now` that `real_Date` gives
unfoldable pub get_dir_file : ℕ → ℕ → ℕ → ℕ
unfolding dir_file_of
get_dir_file now rotate_size wanted =
    dir_file_of rotate_size (if is_not_positive wanted then add64 wanted now else wanted)
