-- ===== src/Examples/Files.antt =====
-- util.h and util.c at concrete inputs.
use multicat_supervisor.Base.{
  zero, ◌*◌, suc, ◌≡◌, refl, arith, true, false, some, [], ◌∷◌, min, Bytes,
}
use multicat_supervisor.Stc.{from_stc, RetxHeader, retx_init, retx_set_seqnum, retx_set_num}
use multicat_supervisor.AuxFile.{
  lookup_aux_file, stc_at, FileSizes, Truncations, all_succeed, packets, truncate, check_file_sizes,
}
use multicat_supervisor.AuxFile.Lookup.{
  lookup_aux_file-Locates, Finds, Locates, IsSorted, target, date,
}
use multicat_supervisor.AuxFile.Sizes.{Kept, check_file_sizes_lem}

from_stc_run : from_stc (0 ∷ 0 ∷ 0 ∷ 0 ∷ 0 ∷ 0 ∷ 1 ∷ 2 ∷ []) ≡ some 258
unfolding from_stc
from_stc_run = refl

abbrev blank : RetxHeader
blank = record { b0 = 9; b1 = 9; b2 = 9; b3 = 9; b4 = 9; b5 = 9; b6 = 9; b7 = 9 }

abbrev header : RetxHeader
header = retx_set_num (retx_set_seqnum (retx_init blank) 65535) 3

-- The dates 10, 20 and 30.
abbrev three_dates : Bytes
three_dates =
    0 ∷ 0 ∷ 0 ∷ 0 ∷ 0 ∷ 0 ∷ 0 ∷ 10 ∷ 0 ∷ 0 ∷ 0 ∷ 0 ∷ 0 ∷ 0 ∷ 0 ∷ 20 ∷ 0 ∷ 0 ∷ 0 ∷ 0 ∷ 0 ∷ 0 ∷ 0 ∷ 30
    ∷ []

three_dates-IsSorted : IsSorted three_dates
unfolding stc_at from_stc
three_dates-IsSorted zero zero h k = omega arith
three_dates-IsSorted zero (suc zero) h k = omega arith
three_dates-IsSorted zero (suc (suc zero)) h k = omega arith
three_dates-IsSorted (suc zero) zero h k = absurd (omega arith)
three_dates-IsSorted (suc zero) (suc zero) h k = omega arith
three_dates-IsSorted (suc zero) (suc (suc zero)) h k = omega arith
three_dates-IsSorted (suc (suc zero)) zero h k = absurd (omega arith)
three_dates-IsSorted (suc (suc zero)) (suc zero) h k = absurd (omega arith)
three_dates-IsSorted (suc (suc zero)) (suc (suc zero)) h k = omega arith
three_dates-IsSorted (suc (suc (suc i))) j h k = absurd (omega arith)
three_dates-IsSorted i (suc (suc (suc j))) h k = absurd (omega arith)

first_date : date three_dates 0 ≡ 10
unfolding stc_at from_stc
first_date = refl

last_date : date three_dates 2 ≡ 30
unfolding stc_at from_stc
last_date = refl

lookup_aux_file-Locates_example :
    Finds
      (Locates three_dates (target three_dates 15 true))
      (lookup_aux_file (some three_dates) 15 true)
lookup_aux_file-Locates_example =
    lookup_aux_file-Locates three_dates 15 true (omega arith) (omega arith) three_dates-IsSorted

abbrev sizes : FileSizes
sizes = record { file = some 4000; aux = some 17 }

-- A truncation that fails.
abbrev last_fails : Truncations
last_fails = record { file = true; aux = true; last = false }

check_file_sizes_lem_example :
    let n = min (packets sizes.file 1316) (packets sizes.aux 8) in
    let s' = check_file_sizes last_fails sizes 1316 in
    Kept (n * 1316) sizes.file s'.file
    × Kept (n * 8) sizes.aux s'.aux
    × (last_fails ≡ all_succeed
        → (s'.file ≡ truncate sizes.file (n * 1316)) × (s'.aux ≡ truncate sizes.aux (n * 8)))
check_file_sizes_lem_example = check_file_sizes_lem last_fails sizes 1316 (omega arith)
