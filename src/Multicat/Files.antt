-- ===== src/Multicat/Files.antt =====
-- multicat.c, the handlers of files: `file_Read`, `file_Write`, `file_Delay` and `file_InitRead`.
use multicat_supervisor.Base.{
  ℕ, zero, suc, ◌+◌, ◌*◌, Bool, true, false, Option, none, some, [], ◌∷◌, ◌++◌, leb, ltb, ◌==◌, ◌-◌,
  if◌then◌else◌, length, take, drop, Bytes, add64, sub64, u64, i64_min,
}
use multicat_supervisor.Stc.{from_stc, to_stc}
use multicat_supervisor.AuxFile.{found, lookup_aux_file}
use multicat_supervisor.Multicat.{Stored, Input, Output}

-- FILE_FLUSH and MAX_LATENESS
abbrev pub file_flush : ℕ
file_flush = 2700000

abbrev pub max_lateness : ℕ
max_lateness = 27000000

-- What `file_Read` does with what it has read: `fread` of the date.
unfoldable pub dated : Input → Bytes → Bytes × Input
dated st packet = elim (from_stc (take 8 (drop st.aux_at st.file.dates))) [
  | none ↦ ([], record st { aux_at = length st.file.dates; die = true })
  | some stc ↦ (
    packet,
    record st {
      aux_at = st.aux_at + 8;
      stc = stc;
      first_stc = if st.first_stc == 0 then stc else st.first_stc;
    },
  )
]

-- `file_Read` with the size `len`, under -l if `loop`; the flag `broken` is that `read` gives an error.
-- An empty result is 0. At the end -l calls it again from the beginning; `none` is that the fuel ran out.
unfoldable pub file_read : ℕ → Bool → ℕ → Bool → Input → Option (Bytes × Input)
file_read zero loop len broken st = none
file_read (suc fuel) loop len broken st =
    let again = file_read fuel loop len broken (record st { at = 0; aux_at = 0 }) in
    if broken
    then some ([], record st { die = true })
    else elim (take len (drop st.at st.file.content)) [
      | [] ↦ if loop then again else some ([], record st { die = true })
      | b ∷ bs ↦ some (dated (record st { at = st.at + length (b ∷ bs) }) (b ∷ bs))
    ]

-- `file_Write` at the date `stc`: `written` is the number of bytes that `write` takes, or an error, and
-- `aux_ok` is that `fwrite` of the date succeeds. The result is what `write` gave.
unfoldable pub file_write : ℕ → Bytes → Option ℕ → Bool → Output → Option ℕ × Output
file_write stc packet none aux_ok st = (none, record st { die = true })
file_write stc packet (some n) aux_ok st =
    let file : Stored = record {
      content = st.file.content ++ take n packet;
      dates = if aux_ok then st.file.dates ++ to_stc stc else st.file.dates;
    } in
    let dated : Output = record st { file = file; die = if aux_ok then st.die else true } in
    let next = add64 stc file_flush in
    (
      some n,
      if st.next_flush == 0
          then record dated { next_flush = next }
          else if leb st.next_flush stc
          then record dated { next_flush = next; flushed = length file.dates }
          else dated,
    )

-- The static variables of `file_Delay`.
pub record Pace : Type 0 where
  pub first_stc : ℕ
  pub first_wall : ℕ

-- `file_Delay` at the clock's date `wall`: how long it sleeps, and its variables; numbers from 2 ^ 63 on
-- are negative.
unfoldable pub file_delay : ℕ → ℕ → Pace → ℕ × Pace
file_delay stc wall p =
    let delay = sub64 (sub64 stc p.first_stc) (sub64 wall p.first_wall) in
    let now : Pace = record { first_stc = stc; first_wall = wall } in
    if p.first_wall == 0
    then (0, now)
    else if leb delay 0
    then (0, p)
    else if ltb delay i64_min
    then (delay, p)
    else if ltb delay (u64 - max_lateness)
    then (0, now)
    else (0, p)

-- `file_InitRead`: where the reading of a file starts, by a number of chunks or a date; `none` is -1.
unfoldable pub file_init_read : Stored → ℕ → ℕ → ℕ → Option Input
file_init_read file len skipped pos =
    let opened : ℕ → Input = λ n. record {
      file = file;
      at = len * n;
      aux_at = 8 * n;
      stc = 0;
      first_stc = 0;
      die = false;
    } in
    if pos == 0
    then some (opened skipped)
    else elim (lookup_aux_file (some file.dates) pos false) [ found n ↦ some (opened n) | _ ↦ none ]
