-- ===== src/AuxFile/Names.antt =====
-- util.c, `GetAuxFile` on the names that `OpenDirFile` and `LookupDirAuxFile` build.
use multicat_supervisor.Base.{
  ℕ, zero, suc, ◌+◌, ◌/◌, ◌%◌, ◌≤◌, ◌≡◌, ◌≢◌, refl, ap, ◌∙◌, none, some, [], ◌∷◌, ◌++◌, inl, inr,
  arith, ltb, ◌==◌, if◌then◌else◌, Bool-cases, length, length-append, take, drop, All, All-append,
  Bytes, codes,
}
use mathlib.Core.List.{append-nil}
use native.Mathlib.Nat.{zero-add}
use multicat_supervisor.AuxFile.{
  strrchr, decimal_onto, decimal, get_aux_file, dir_file_name, default_payload_size,
}

abbrev Lacks : ℕ → Bytes → Type 0
Lacks c = All (λ x. x ≢ c)

strrchr-Lacks : (c : ℕ) (xs : Bytes) → Lacks c xs → strrchr c xs ≡ none
unfolding strrchr
strrchr-Lacks c [] h = refl
strrchr-Lacks c (x ∷ xs) h = ground (arith, strrchr-Lacks c xs h.1)

strrchr-append : (c : ℕ) (xs ys : Bytes) → Lacks c ys → strrchr c (xs ++ c ∷ ys) ≡ some (length xs)
unfolding strrchr
strrchr-append c [] ys h = ground (arith, strrchr-Lacks c ys h)
strrchr-append c (x ∷ xs) ys h = ground (arith, strrchr-append c xs ys h)

drop-append : (xs ys : Bytes) (k : ℕ) → drop (length xs + k) (xs ++ ys) ≡ drop k ys
drop-append [] ys k = rw zero-add
drop-append (x ∷ xs) ys k =
    let e : suc (length xs) + k ≡ suc (length xs + k) = omega arith in rw e (drop-append xs ys k)

take-append : (xs ys : Bytes) (k : ℕ) → take (length xs + k) (xs ++ ys) ≡ xs ++ take k ys
take-append [] ys k = rw zero-add
take-append (x ∷ xs) ys k =
    let e : suc (length xs) + k ≡ suc (length xs + k) = omega arith in
    rw e (ap (λ l. x ∷ l) (take-append xs ys k))

-- What `GetAuxFile` appends.
abbrev pub aux_extension : ℕ → Bytes
aux_extension payload_size =
    codes ".aux" ++ (if payload_size == default_payload_size then [] else decimal payload_size)

-- A file whose base name is `d` and `ds` and the extension `.ts`, in a directory.
abbrev pub ts_name : Bytes → ℕ → Bytes → Bytes
ts_name dir d ds = dir ++ (b'/' ∷ d ∷ (ds ++ codes ".ts"))

module _ (dir : Bytes) (d : ℕ) (ds : Bytes) where
  token_lem :
      (if ltb (length dir + 1) (length (ts_name dir d ds))
        then length dir + 1 + 1
        else length dir + 1)
      ≡ length dir + 2
  token_lem = ground (arith, length-append dir (b'/' ∷ d ∷ (ds ++ codes ".ts")))

  base_lem : drop (length dir + 2) (ts_name dir d ds) ≡ ds ++ codes ".ts"
  base_lem = drop-append dir (b'/' ∷ d ∷ (ds ++ codes ".ts")) 2

  stripped_lem : take (length dir + 2 + length ds) (ts_name dir d ds) ≡ dir ++ (b'/' ∷ d ∷ ds)
  stripped_lem =
      let e : length dir + 2 + length ds ≡ length dir + suc (suc (length ds + 0)) = omega arith in
      rw e (
        take-append dir (b'/' ∷ d ∷ (ds ++ codes ".ts")) (suc (suc (length ds + 0)))
        ∙ ap (λ l. dir ++ (b'/' ∷ d ∷ l)) (take-append ds (codes ".ts") 0 ∙ append-nil ds))

  -- For a base name whose bytes hold no slash, the extension `.ts` gives way to `.aux`, followed by
  -- the payload size unless that is the default one.
  pub get_aux_file-ts_name :
      (payload_size : ℕ)
      → d ≢ b'/'
      → Lacks b'/' ds
      → get_aux_file (ts_name dir d ds) payload_size
        ≡ (dir ++ (b'/' ∷ d ∷ ds)) ++ aux_extension payload_size
  unfolding get_aux_file
  get_aux_file-ts_name payload_size h no_slash =
      rw
        (
          strrchr-append b'/' dir (d ∷ (ds ++ codes ".ts"))
              (h, All-append (λ x. x ≢ b'/') ds (codes ".ts") no_slash (omega arith)),
          token_lem,
          base_lem,
          strrchr-append b'.' ds (codes "ts") (omega arith),
          stripped_lem,
        )
        refl

abbrev pub IsDigit : ℕ → Type 0
IsDigit c = (b'0' ≤ c) × (c ≤ b'9')

-- A text of at least one digit.
pub record IsNumber (text : Bytes) : Type 0 where
  pub first : ℕ
  pub others : Bytes
  pub splits : text ≡ first ∷ others
  pub digits : All IsDigit (first ∷ others)

decimal_onto-IsNumber :
    (fuel n : ℕ) (c : ℕ) (rest : Bytes)
    → All IsDigit (c ∷ rest)
    → IsNumber (decimal_onto fuel n (c ∷ rest))
unfolding decimal_onto
decimal_onto-IsNumber zero n c rest h = record {
  first = c;
  others = rest;
  splits = refl;
  digits = h;
}
decimal_onto-IsNumber (suc fuel) n c rest h = elim (Bool-cases (ltb n 10)) [
  | inl small ↦
      rw small
        (record { first = n + b'0'; others = c ∷ rest; splits = refl; digits = (ground arith, h) })
  | inr large ↦
      rw large (decimal_onto-IsNumber fuel (n / 10) (n % 10 + b'0') (c ∷ rest) (omega arith, h))
]

pub decimal-IsNumber : (n : ℕ) → IsNumber (decimal n)
unfolding decimal decimal_onto
decimal-IsNumber n = elim (Bool-cases (ltb n 10)) [
  | inl small ↦
      rw small (record { first = n + b'0'; others = []; splits = refl; digits = ground arith })
  | inr large ↦ rw large (decimal_onto-IsNumber 19 (n / 10) (n % 10 + b'0') [] (omega arith))
]

IsDigit-Lacks : (text : Bytes) → All IsDigit text → Lacks b'/' text
IsDigit-Lacks [] h = tt
IsDigit-Lacks (c ∷ text) h = (omega arith, IsDigit-Lacks text h.1)

-- The auxiliary file of a file of a directory has the same number for its name, and the extension
-- .aux, followed by the payload size unless that is the default one.
pub get_aux_file-dir_file_name :
    (dir : Bytes) (file payload_size : ℕ)
    → get_aux_file (dir_file_name dir file) payload_size
      ≡ (dir ++ (b'/' ∷ decimal file)) ++ aux_extension payload_size
unfolding dir_file_name
get_aux_file-dir_file_name dir file payload_size =
    let n = decimal-IsNumber file in
    rw n.splits (
      get_aux_file-ts_name dir n.first n.others payload_size (omega arith)
        (IsDigit-Lacks n.others n.digits.1))
