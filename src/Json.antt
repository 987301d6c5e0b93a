-- ===== src/Json.antt =====
-- json_parsing.c: a section of the table of events out of a JSON object, and back.
-- json-c is not part of the repository: its objects and its functions are a record.
pub mod Reading
pub mod Parsing
pub mod Building
pub mod Kept
pub mod Descriptors
pub mod RoundTrip
pub mod Ensures
pub mod Updates
pub mod Members
pub mod Bounds
use multicat_supervisor.Base.{
  ℕ, ◌+◌, ◌≤◌, ◌<◌, ◌^◌, ◌≡◌, Bool, true, false, not, ◌&&◌, Option, none, some, List, [], ◌∷◌, ◌==◌,
  if◌then◌else◌, Bytes, same_text,
}

-- `enum json_type`
pub data Kind : Type 0 where
  null boolean double int object array string : Kind

-- No key is there twice.
abbrev pub key_free {ℓ} : {V : Type ℓ} → Bytes → List (Bytes × V) → Bool
key_free key [] = true
key_free key ((k, v) ∷ ms) = let rest = key_free key ms in not (same_text key k) && rest

abbrev pub keys_distinct {ℓ} : {V : Type ℓ} → List (Bytes × V) → Bool
keys_distinct [] = true
keys_distinct ((k, v) ∷ ms) = let rest = keys_distinct ms in key_free k ms && rest

-- json-c. A null pointer is the value of type `null`. `new_object` and `new_array` are a new object
-- and the additions to it, in their order; members and elements are visited in that order.
-- A text ends in front of its NUL, and an integer is the pattern of its bits.
pub record JsonC : Type 1 where
  pub Value : Type 0
  pub get_type : Value → Kind
  pub elements : Value → List Value
  pub members : Value → List (Bytes × Value)
  pub get_string : Value → Bytes
  pub get_int : Value → ℕ
  pub get_int64 : Value → ℕ
  pub new_int : ℕ → Value
  pub new_string : Bytes → Value
  pub new_array : List Value → Value
  pub new_object : List (Bytes × Value) → Value
  pub get_type-new_int : (n : ℕ) → get_type (new_int n) ≡ int
  pub get_type-new_string : (s : Bytes) → get_type (new_string s) ≡ string
  pub get_type-new_array : (vs : List Value) → get_type (new_array vs) ≡ array
  pub get_type-new_object : (ms : List (Bytes × Value)) → get_type (new_object ms) ≡ object
  pub get_int-new_int : (n : ℕ) → n < 2 ^ 32 → get_int (new_int n) ≡ n
  pub get_string-new_string : (s : Bytes) → get_string (new_string s) ≡ s
  pub elements-new_array : (vs : List Value) → elements (new_array vs) ≡ vs
  pub members-new_object :
      (ms : List (Bytes × Value)) → keys_distinct ms ≡ true → members (new_object ms) ≡ ms
