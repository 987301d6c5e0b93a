-- ===== src/AuxFile/Lookup.antt =====
-- util.c, `LookupAuxFile`: the binary search in the mapping of an auxiliary file.
use multicat_supervisor.Base.{
  ℕ, zero, suc, ◌+◌, ◌-◌, ◌*◌, ◌/◌, ◌≤◌, ◌<◌, ◌≡◌, refl, Bool, Option, none, some, ◌∷◌, ◌⊎◌, inl,
  arith, length, drop, length-drop, Bytes, i64_min, add64, ap, if◌then◌else◌,
}
use multicat_supervisor.Stc.{from_stc}
use multicat_supervisor.AuxFile.{
  is_negative, stc_at, Found, found, failed, lookup_loop, lookup_target, lookup_aux_file,
}

-- The number of dates in the file, and the date at an index below it.
abbrev pub dates : Bytes → ℕ
dates aux = length aux / 8

abbrev value : Option ℕ → ℕ
value none = 0
value (some v) = v

abbrev pub date : Bytes → ℕ → ℕ
date aux i = value (stc_at aux i)

abbrev pub IsSorted : Bytes → Type 0
IsSorted aux = (i j : ℕ) → i ≤ j → j < dates aux → date aux i ≤ date aux j

from_stc-total : (xs : Bytes) → 8 ≤ length xs → from_stc xs ≡ some (value (from_stc xs))
unfolding from_stc
from_stc-total (b0 ∷ b1 ∷ b2 ∷ b3 ∷ b4 ∷ b5 ∷ b6 ∷ b7 ∷ xs) h = refl
from_stc-total _ h = absurd (omega arith)

stc_at-total : (aux : Bytes) (i : ℕ) → i < dates aux → stc_at aux i ≡ some (date aux i)
unfolding stc_at
stc_at-total aux i h = from_stc-total (drop (i * 8) aux) (omega (arith, length-drop (i * 8) aux))

-- The search has ended with an offset that satisfies `P`.
abbrev pub Finds : (ℕ → Type 0) → Found → Type 0
Finds P (found r) = P r
Finds P _ = ⊥

-- What holds of the two offsets all along: dates before the first are below the target.
record Splits (aux : Bytes) (target offset1 offset2 : ℕ) : Type 0 where
  below : (offset1 ≡ 0) ⊎ (date aux offset1 < target)
  above : (offset2 ≡ dates aux) ⊎ (target ≤ date aux offset2)

abbrev Ends : Bytes → ℕ → ℕ → Type 0
Ends aux target r = (1 ≤ r) × (r ≤ dates aux) × Splits aux target (r - 1) r

lookup_loop-Ends :
    (fuel : ℕ) (aux : Bytes) (target offset1 offset2 : ℕ)
    → offset1 < offset2
    → offset2 ≤ dates aux
    → offset2 - offset1 ≤ fuel
    → Splits aux target offset1 offset2
    → Finds (Ends aux target) (lookup_loop fuel aux target offset1 offset2)
unfolding lookup_loop
lookup_loop-Ends zero aux target o1 o2 lt le enough s = absurd (omega arith)
lookup_loop-Ends (suc fuel) aux target o1 o2 lt le enough s =
    let mid : ℕ = (o1 + o2) / 2 in
    ground (
      arith,
      stc_at-total aux mid (omega arith),
      lookup_loop-Ends fuel aux target o1 mid,
      lookup_loop-Ends fuel aux target mid o2,
    )

-- Where the dates ascend, the offset has all dates before it below the target, and none after.
abbrev pub Locates : Bytes → ℕ → ℕ → Type 0
Locates aux target r =
    (1 ≤ r)
    × (r ≤ dates aux)
    × ((i : ℕ) → 1 ≤ i → i < r → date aux i < target)
    × ((i : ℕ) → r ≤ i → i < dates aux → target ≤ date aux i)

Ends→Locates :
    (aux : Bytes) (target r : ℕ) → IsSorted aux → Ends aux target r → Locates aux target r
Ends→Locates aux target r sorted (ge, le, s) = (
  ge,
  le,
  λ i h k. ground (arith, s.below, sorted i (r - 1)),
  λ i h k. ground (arith, s.above, sorted r i),
)

lookup_loop-Locates :
    (aux : Bytes) (target : ℕ)
    → 1 ≤ dates aux
    → IsSorted aux
    → (result : Found) → Finds (Ends aux target) result
    → Finds (Locates aux target) result
lookup_loop-Locates aux target h sorted (found r) e = Ends→Locates aux target r sorted e
lookup_loop-Locates aux target h sorted _ e = elim e [ ]

-- The date looked for: `wanted` counts from the last date if it is negative, else from the first,
-- unless it is absolute.
abbrev pub target : Bytes → ℕ → Bool → ℕ
target aux wanted absolute =
    if is_negative wanted
    then add64 wanted (date aux (dates aux - 1))
    else if absolute
    then wanted
    else add64 wanted (date aux 0)

lookup_target_lem :
    (aux : Bytes) (wanted : ℕ) (absolute : Bool)
    → 8 ≤ length aux
    → lookup_target aux wanted absolute ≡ some (target aux wanted absolute)
unfolding lookup_target
lookup_target_lem aux wanted absolute h =
    ground (arith, stc_at-total aux (dates aux - 1) (omega arith), stc_at-total aux 0 (omega arith))

module _ (aux : Bytes) (wanted : ℕ) (absolute : Bool) (one : 8 ≤ length aux) where
  -- For a file of at least one date, a target that turns out negative is refused.
  pub lookup_aux_file_invalid :
      i64_min ≤ target aux wanted absolute → lookup_aux_file (some aux) wanted absolute ≡ failed
  unfolding lookup_aux_file
  lookup_aux_file_invalid h = ground (arith, lookup_target_lem aux wanted absolute one)

  lookup-Ends :
      target aux wanted absolute < i64_min
      → Finds (Ends aux (target aux wanted absolute)) (lookup_aux_file (some aux) wanted absolute)
  unfolding lookup_aux_file
  lookup-Ends valid = ground (
    arith,
    lookup_target_lem aux wanted absolute one,
    lookup_loop-Ends (dates aux) aux (target aux wanted absolute) 0 (dates aux) (omega arith)
        (omega arith) (omega arith) (record { below = inl refl; above = inl refl }),
  )

  -- For a file of at least one date, whose dates ascend, and a target that is not negative, the
  -- search ends with an offset, without reading past the file. The offset is at least 1 and at
  -- most the number of dates, the dates from index 1 up to it are below the target, and those
  -- from it on are not.
  pub lookup_aux_file-Locates :
      target aux wanted absolute < i64_min
      → IsSorted aux
      → Finds
          (Locates aux (target aux wanted absolute))
          (lookup_aux_file (some aux) wanted absolute)
  lookup_aux_file-Locates valid sorted =
      lookup_loop-Locates aux (target aux wanted absolute) (omega arith) sorted _
        (lookup-Ends valid)

Locates-first :
    (aux : Bytes) (target : ℕ)
    → IsSorted aux
    → target ≤ date aux 0
    → (result : Found) → Finds (Locates aux target) result
    → result ≡ found 1
Locates-first aux target sorted h (found r) (ge, le, below, above) =
    ap found (ground (arith, below 1, sorted 0 1))
Locates-first aux target sorted h _ e = elim e [ ]

-- For a file of at least one date, whose dates ascend, where the target is not negative and not
-- above the first date, the result is offset 1: the search never answers 0, so the first chunk is
-- skipped.
pub lookup_aux_file_first :
    (aux : Bytes) (wanted : ℕ) (absolute : Bool)
    → 8 ≤ length aux
    → target aux wanted absolute < i64_min
    → IsSorted aux
    → target aux wanted absolute ≤ date aux 0
    → lookup_aux_file (some aux) wanted absolute ≡ found 1
lookup_aux_file_first aux wanted absolute one valid sorted h =
    Locates-first aux (target aux wanted absolute) sorted h _
      (lookup_aux_file-Locates aux wanted absolute one valid sorted)
