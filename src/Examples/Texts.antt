-- ===== src/Examples/Texts.antt =====
-- The other programs at concrete inputs.
use multicat_supervisor.Base.{
  ℕ, ◌+◌, ◌≡◌, arith, refl, map, some, List, [], ◌∷◌, length, Bytes, zero, suc, codes, false,
}
use multicat_supervisor.Latin9.{utf8_to_latin9}
use multicat_supervisor.Latin9.Decode.{utf8_text, character, with_bytes, utf8_to_latin9-utf8_text}
use multicat_supervisor.Supervisor.{EitInfo}
use multicat_supervisor.SharedMemory.{Memory, slot}
use multicat_supervisor.SharedMemory.Answers.{
  Operation, put, take, peek, look, View, Shows, all_after, all_expected, perform_all,
  perform_all-expected,
}
use multicat_supervisor.Ingests.{dates}
use multicat_supervisor.Ingests.Dates.{Ascend, last, dates-Ascend}

-- é, the euro sign, a Greek letter that is left out, and x.
abbrev code_points : List ℕ
code_points = 233 ∷ 8364 ∷ 945 ∷ 120 ∷ []

utf8_to_latin9-utf8_text_example :
    (out : Bytes) × (utf8_to_latin9 (utf8_text code_points) ≡ some out)
    × (map character out ≡ with_bytes code_points)
utf8_to_latin9-utf8_text_example = utf8_to_latin9-utf8_text code_points (
  (omega arith, omega arith, refl),
  (
    (omega arith, omega arith, refl),
    ((omega arith, omega arith, refl), ((omega arith, omega arith, refl), tt)),
  ),
)

dates-Ascend_example :
    Ascend 1000 (1000 + 945000) (dates 1000 945000 4 0 4)
    × (length (dates 1000 945000 4 0 4) ≡ 4)
    × (last 1000 (dates 1000 945000 4 0 4) ≡ 1000 + 945000)
dates-Ascend_example = dates-Ascend 1000 945000 4 (omega arith) (omega arith) (omega arith)

abbrev tables : Bytes → EitInfo
tables section = record {
  initialized = false;
  updated = false;
  tsid = 1;
  sid = 2;
  onid = 3;
  section0 = section;
  section1 = [];
}

abbrev two_slots : Memory
two_slots = tables [] ∷ tables (codes "old") ∷ []

abbrev shown : View
shown zero = tables []
shown (suc zero) = tables []
shown (suc (suc p)) = tables (codes "old")

two_slots-Shows : Shows 2 two_slots shown
unfolding slot
two_slots-Shows zero h l = absurd (omega arith)
two_slots-Shows (suc zero) h l = refl
two_slots-Shows (suc (suc zero)) h l = refl
two_slots-Shows (suc (suc (suc p))) h l = absurd (omega arith)

-- The supervisor writes for the second provider, the first one looks, and the second one looks, reads,
-- looks again and prints.
abbrev operations : List Operation
operations = put 2 (tables (codes "new")) ∷ look 1 ∷ look 2 ∷ take 2 ∷ look 2 ∷ peek 2 ∷ []

perform_all-expected_example :
    (m' : Memory) × (perform_all operations two_slots ≡ some (m', all_expected operations shown))
    × Shows 2 m' (all_after operations shown)
perform_all-expected_example =
    perform_all-expected 2 operations two_slots shown (omega arith) two_slots-Shows
