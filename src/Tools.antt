-- ===== src/Tools.antt =====
-- lasts.c, offsets.c and ingests_debug.c, small tools over auxiliary files, and logs.c, the log of the
-- supervisor.
pub mod Dates
use multicat_supervisor.Base.{
  ℕ, zero, suc, ◌+◌, ◌-◌, ◌/◌, Bool, true, false, not, ◌&&◌, Option, none, some, List, [], ◌∷◌, ltb,
  leb, ◌==◌, if◌then◌else◌, length, drop, take, Bytes, codes, same_text, sub64,
}
use multicat_supervisor.Stc.{from_stc}
use multicat_supervisor.AuxFile.{Found, found, lookup_aux_file}

abbrev pub minus : Option ℕ → Option ℕ → Option ℕ
minus (some a) (some b) = some (sub64 a b)
minus (some a) none = none
minus none b = none

-- lasts.c: what is printed, the last date less the first; `none` is EXIT_FAILURE. Below eight bytes the
-- first read fails.
unfoldable pub lasts : Option Bytes → Option ℕ
lasts none = none
lasts (some aux) = minus (from_stc (drop (length aux - 8) aux)) (from_stc aux)

-- offsets.c: what is printed, or a failure.
unfoldable pub offsets : Option Bytes → ℕ → Found
offsets aux wanted = if wanted == 0 then found 0 else lookup_aux_file aux wanted false

-- MAX_DIFF and MIN_DIFF of ingests_debug.c
abbrev pub max_diff : ℕ
max_diff = 270000

abbrev pub min_diff : ℕ
min_diff = 27000

-- A line of ingests_debug.c: the date from the first one and the difference, in milliseconds.
pub data Report : Type 0 where
  exceeded too_low : ℕ → ℕ → Report

unfoldable pub report : ℕ → ℕ → ℕ → List Report → List Report
report first last stc rest =
    if ltb max_diff (sub64 stc last)
    then exceeded (sub64 stc first / 27000) (sub64 stc last / 27000) ∷ rest
    else if ltb (sub64 stc last) min_diff
    then too_low (sub64 stc first / 27000) (sub64 stc last / 27000) ∷ rest
    else rest

abbrev or_zero : Option ℕ → ℕ
or_zero none = 0
or_zero (some v) = v

-- The loop of ingests_debug.c, over eight bytes at a time; a shorter rest ends it.
unfoldable pub debug_loop : ℕ → ℕ → Bytes → List Report
debug_loop first last (b0 ∷ b1 ∷ b2 ∷ b3 ∷ b4 ∷ b5 ∷ b6 ∷ b7 ∷ bs) =
    let stc = or_zero (from_stc (b0 ∷ b1 ∷ b2 ∷ b3 ∷ b4 ∷ b5 ∷ b6 ∷ b7 ∷ [])) in
    let first' = if first == 0 then stc else first in
    report first' last stc (debug_loop first' stc bs)
debug_loop first last _ = []

-- `main` of ingests_debug.c
unfoldable pub ingests_debug : Bytes → List Report
ingests_debug aux = debug_loop 0 0 aux

-- The static variables of logs.c.
pub record Log : Type 0 where
  pub file : Bytes
  pub level : ℕ
  pub is_file : Bool

abbrev pub set_file : Log → Bytes → Log
set_file log [] = record log { is_file = false }
set_file log (c ∷ cs) = record log { file = take 255 (c ∷ cs); is_file = true }

-- `setLogFile`; `none` is NULL.
unfoldable pub set_log_file : Log → ℕ → Option Bytes → Log
set_log_file log level name =
    let cleared = record log { file = []; level = level } in
    if level == 0
    then cleared
    else elim name [ none ↦ record cleared { is_file = false } | some text ↦ set_file cleared text ]

-- Where `Logs` writes a line, if it does and the file opens.
pub data Written : Type 0 where
  to_stdout : Written
  to_file : Bytes → Written

unfoldable pub logs : Log → ℕ → Option Written
logs log level =
    if ltb level 1 && ltb 5 level
    then none
    else if ltb log.level level
    then none
    else some (if log.is_file then to_file log.file else to_stdout)

-- `logLevelToString`
unfoldable pub log_level_to_string : ℕ → Bytes
log_level_to_string level =
    if level == 1
    then codes "CRITICAL"
    else if level == 2
    then codes "ERROR"
    else if level == 3
    then codes "WARNING"
    else if level == 4
    then codes "INFO"
    else if level == 5
    then codes "DEBUG"
    else codes "NONE"

-- `stringToLogLevel`
unfoldable pub string_to_log_level : Bytes → ℕ
string_to_log_level text =
    if same_text text (codes "CRITICAL")
    then 1
    else if same_text text (codes "ERROR")
    then 2
    else if same_text text (codes "WARNING")
    then 3
    else if same_text text (codes "INFO")
    then 4
    else if same_text text (codes "DEBUG")
    then 5
    else 0
