-- ===== src/Multicat/Directories.antt =====
-- multicat.c, the handlers of directories: `dir_Write`, `dir_Read`, `dir_Delay` and `dir_InitRead`. A
-- directory holds a stream file together with its auxiliary file for some of the numbers.
use multicat_supervisor.Base.{
  ℕ, zero, suc, ◌*◌, ◌-◌, Bool, true, false, ◌||◌, Option, none, some, [], ◌∷◌, leb, ltb, ◌==◌,
  if◌then◌else◌, length, take, Bytes, add64, sub64, u64, i64_min,
}
use multicat_supervisor.Io.{Outcome, ok, exit_failure}
use multicat_supervisor.AuxFile.{
  Found, found, lookup_aux_file, get_dir_file, all_succeed, check_file_sizes,
}
use multicat_supervisor.Multicat.{Stored, Input, Output}
use multicat_supervisor.Multicat.Files.{max_lateness, file_read, file_write}

abbrev pub Directory : Type 0
Directory = ℕ → Option Stored

abbrev pub put_file : Directory → ℕ → Stored → Directory
put_file dir k s i = if i == k then some s else dir i

-- What is left of a part of a file after CheckFileSizes.
abbrev pub cut : Option ℕ → Bytes → Bytes
cut none s = []
cut (some size) s = take size s

-- `OpenDirFile` for writing: the sizes are checked, where each truncation succeeds, and the files are made, or appended to.
unfoldable pub open_for_writing : ℕ → Option Stored → Stored
open_for_writing len none = record { content = []; dates = [] }
open_for_writing len (some s) =
    let sizes =
      check_file_sizes all_succeed
        (record { file = some (length s.content); aux = some (length s.dates) }) len in
    record { content = cut sizes.file s.content; dates = cut sizes.aux s.dates }

-- `i_output_dir_file` while a file is open, and that file.
pub record DirOutput : Type 0 where
  pub dir : Directory
  pub current : Option ℕ
  pub out : Output

abbrev pub is_open : Option ℕ → ℕ → Bool
is_open none k = false
is_open (some j) k = j == k

-- `dir_Write` with the rotation `rotate` and the size `len`, at the date `stc`; `now` is what `real_Date`
-- gives, and the rest is as for `file_Write`.
unfoldable pub dir_write :
    ℕ → ℕ → ℕ → ℕ → Bytes → Option ℕ → Bool → DirOutput → Option ℕ × DirOutput
dir_write now rotate len stc packet written aux_ok st =
    let k = get_dir_file now rotate stc in
    let opened : Stored = open_for_writing len (st.dir k) in
    let out : Output =
      if is_open st.current k
      then st.out
      else record st.out { file = opened; flushed = length opened.dates } in
    let (n, out') = file_write stc packet written aux_ok out in
    (n, record { dir = put_file st.dir k out'.file; current = some k; out = out' })

-- The file that is read, by its number, and the reading of it.
pub record DirInput : Type 0 where
  pub dir : Directory
  pub file_no : ℕ
  pub input : Input

-- `dir_Read`: at the end of a file the next one is opened, and `OpenFile` ends the process if there is
-- none. The fuel counts the files, and `again` the calls of `file_Read` by itself.
unfoldable pub dir_read : ℕ → ℕ → Bool → ℕ → Bool → DirInput → Option (Outcome (Bytes × DirInput))
dir_read zero again loop len broken st = none
dir_read (suc fuel) again loop len broken st = elim (file_read again loop len broken st.input) [
  | none ↦ none
  | some ([], input) ↦ elim (st.dir (add64 st.file_no 1)) [
    | none ↦ some exit_failure
    | some file ↦ dir_read fuel again loop len broken (record st {
      file_no = add64 st.file_no 1;
      input = record input { file = file; at = 0; aux_at = 0; die = false };
    })
  ]
  | some (b ∷ bs, input) ↦ some (ok (b ∷ bs, record st { input = input }))
]

-- `dir_Delay`, with the delay that `dir_InitRead` set, at the clock's date: how long it sleeps; `none` is
-- that the packet is dropped.
unfoldable pub dir_delay : ℕ → ℕ → ℕ → Option ℕ
dir_delay input_delay stc now =
    let delay = sub64 stc (sub64 now input_delay) in
    if leb delay 0
    then some 0
    else if ltb delay i64_min
    then some delay
    else if ltb delay (u64 - max_lateness)
    then none
    else some 0

abbrev is_not_positive : ℕ → Bool
is_not_positive w = w == 0 || leb i64_min w

-- The chunk where the date stands, in this file or else in the next one.
abbrev pub dir_lookup : Directory → ℕ → ℕ → Found
dir_lookup dir k pos = elim (dir k) [
  | none ↦ lookup_aux_file none pos true
  | some s ↦ lookup_aux_file (some s.dates) pos true
]

abbrev pub dir_opened : Directory → ℕ → ℕ → ℕ → ℕ → Option DirInput
dir_opened dir len pos k n = elim (dir k) [
  | none ↦ none
  | some s ↦ some (record {
    dir = dir;
    file_no = k;
    input = record {
      file = s;
      at = len * n;
      aux_at = 8 * n;
      stc = pos;
      first_stc = pos;
      die = false;
    };
  })
]

-- `dir_InitRead` at the dates that `real_Date` gives in turn: the reading, and `i_input_dir_delay`;
-- `none` is -1, or the end of the process.
unfoldable pub dir_init_read : ℕ → ℕ → ℕ → Directory → ℕ → ℕ → ℕ → ℕ → Option (DirInput × ℕ)
dir_init_read now now' now'' dir rotate len skipped wanted =
    let pos = if is_not_positive wanted then add64 wanted now else wanted in
    let k = get_dir_file now'' rotate pos in
    let with_delay : Option DirInput → Option (DirInput × ℕ) =
      λ r. elim r [ none ↦ none | some st ↦ some (st, sub64 now' pos) ] in
    if ltb 0 skipped || is_not_positive pos then none else elim (dir_lookup dir k pos) [
      | found n ↦ with_delay (dir_opened dir len pos k n)
      | _ ↦ elim (dir_lookup dir (add64 k 1) pos) [
        | found n ↦ with_delay (dir_opened dir len pos (add64 k 1) n)
        | _ ↦ none
      ]
    ]
