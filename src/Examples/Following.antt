-- ===== src/Examples/Following.antt =====
-- Directories that multicat_validate follows.
use multicat_supervisor.Base.{
  ℕ, ◌*◌, ◌<◌, inl, refl, true, false, ◌||◌, Option, none, some, [], ◌∷◌, arith, if◌then◌else◌,
  Bytes, codes, same_text,
}
use multicat_supervisor.AuxFile.{decimal, decimal_onto, get_aux_file, strrchr, dir_file_name}
use multicat_supervisor.Validate.Following.{open_dir_file, follow, validate}
use multicat_supervisor.Validate.Alternation.{Alternates, validate-Alternates}
use multicat_supervisor.Validate.Dates.{
  aux_bytes, IsDate, Settles, Stored, in_file, Handles, follow-with_repeats,
}

-- Every file has the same two dates.
abbrev same_files : Bytes → Option Bytes
same_files name = some (aux_bytes (100 ∷ 200000000 ∷ []))

validate-Alternates_example :
    Alternates true
      (validate same_files (codes "d") 1316 (λ n. 1000 * n) 27000000 20 10 50 97200000000).events
validate-Alternates_example =
    validate-Alternates same_files (codes "d") 1316 (λ n. 1000 * n) 27000000 20 10 50 97200000000

-- The second of two files, with one date.
abbrev second_file : Bytes → Option Bytes
second_file name =
    if same_text name (codes "d/1.ts") || same_text name (codes "d/1.aux")
    then some (aux_bytes (300 ∷ []))
    else none

abbrev late : ℕ → ℕ
late n = 1000

second_file-Stored : Stored late 0 27 second_file (codes "d") 1316 3 0 ((300 ∷ []) ∷ [])
unfolding open_dir_file same_text dir_file_name decimal decimal_onto get_aux_file strrchr
second_file-Stored = (refl, refl)

IsDate-Settles : (x : ℕ) → x < 1000 → IsDate x × ((m : ℕ) → Settles late 0 27 3 m x)
IsDate-Settles x h = (omega arith, λ m. inl (ground arith))

follow-with_repeats_example : Handles (100 ∷ 200 ∷ 200 ∷ 300 ∷ []) (
    follow second_file
      (codes "d")
      1316
      late
      0
      27
      3
      9
      (in_file 0 (aux_bytes (100 ∷ 200 ∷ [])) none false 1))
follow-with_repeats_example =
    follow-with_repeats late 0 27 second_file (codes "d") 1316 3 9 100 (200 ∷ []) ((300 ∷ []) ∷ [])
      0 false 1 (omega arith) second_file-Stored
      (
        IsDate-Settles 100 (omega arith),
        (
          IsDate-Settles 200 (omega arith),
          (IsDate-Settles 200 (omega arith), (IsDate-Settles 300 (omega arith), tt)),
        ),
      )
