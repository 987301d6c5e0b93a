-- ===== src/Validate.antt =====
-- multicat_validate.c: it follows the dates of the files of a directory, and prints 1 while they come in
-- time and 0 while the next one is further off than a tolerance.
pub mod Waiting
pub mod Following
pub mod Alternation
pub mod Dates
use multicat_supervisor.Base.{
  ℕ, zero, suc, ◌+◌, ◌*◌, Bool, true, false, Option, none, some, List, [], ◌∷◌, ◌++◌, ◌==◌, ◌||◌,
  if◌then◌else◌, Bytes, sub64, leb, i64_min,
}
use multicat_supervisor.Io.{Outcome, ok, exit_failure, undefined}
use multicat_supervisor.AuxFile.{
  Found, found, failed, fault, out_of_fuel, get_dir_file, lookup_dir_aux_file,
}
use multicat_supervisor.Reordertp.{lt_i64, neg64}

pub data Event : Type 0 where
  print sleep : ℕ → Event

-- What `HandleSTC` leaves: `b_status`, how often the clock was read, and what was done.
pub record Handled : Type 0 where
  pub status : Bool
  pub readings : ℕ
  pub events : List Event

abbrev pub after : List Event → Option Handled → Option Handled
after events none = none
after events (some h) = some (record h { events = events ++ h.events })

-- The end of `HandleSTC`, with the time to wait.
abbrev pub in_time : Bool → ℕ → ℕ → Handled
in_time status n wait = record {
  status = true;
  readings = n;
  events = (if status then [] else print 1 ∷ []) ++ (if lt_i64 0 wait then sleep wait ∷ [] else []);
}

-- `HandleSTC`, on fuel; `real n` is the `n`th reading of `real_Date`. Dates are patterns of `int64_t`.
unfoldable pub handle_stc : ℕ → (ℕ → ℕ) → ℕ → ℕ → Bool → ℕ → ℕ → Option Handled
handle_stc zero real delay tolerance status n stc = none
handle_stc (suc fuel) real delay tolerance status n stc =
    let wait = sub64 stc (sub64 (real n) delay) in
    if lt_i64 tolerance wait
    then after ((if status then print 0 ∷ [] else []) ++ (sleep (sub64 wait tolerance) ∷ []))
        (handle_stc fuel real delay tolerance false (n + 1) stc)
    else some (in_time status (n + 1) wait)

-- The date to begin at, and `i_delay`, from the option -k; `now` is what `real_Date` gives.
unfoldable pub start_position : ℕ → ℕ → ℕ × ℕ
start_position delay now =
    if delay == 0 || leb i64_min delay
    then (sub64 now (neg64 delay), neg64 delay)
    else (delay, sub64 now delay)

abbrev pub next_file : ℕ → Found → Outcome (ℕ × ℕ)
next_file file (found chunk) = ok (file, chunk)
next_file file failed = exit_failure
next_file file fault = undefined
next_file file out_of_fuel = undefined

-- The file and the chunk to begin at: in the file of the date, or else in the next one, or the
-- process ends, "position not found".
unfoldable pub find_position : (Bytes → Option Bytes) → Bytes → ℕ → ℕ → ℕ → ℕ → Outcome (ℕ × ℕ)
find_position files dir now rotate_size payload_size stc =
    let file = get_dir_file now rotate_size stc in
    elim (lookup_dir_aux_file files dir file stc payload_size) [
      | found chunk ↦ ok (file, chunk)
      | failed ↦ next_file (file + 1) (lookup_dir_aux_file files dir (file + 1) stc payload_size)
      | fault ↦ undefined
      | out_of_fuel ↦ undefined
    ]
