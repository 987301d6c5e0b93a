-- ===== src/Aggregartp/Fairness.antt =====
-- aggregartp.c, `NextOutput` and the accounts of `main`: sizes by weight and bytes sent.
use multicat_supervisor.Base.{
  ℕ, zero, suc, ◌+◌, ◌*◌, ◌/◌, ◌%◌, ◌≤◌, ◌<◌, ◌≡◌, refl, some, List, [], ◌∷◌, arith, ltb, ◌==◌,
  if◌then◌else◌, get_elem?, set, u32, ◌⊎◌, inl, inr, ◌-◌, sub32, add32, lt_or_le, Bool-cases, ap,
  sym,
}
use native.Mathlib.Nat.{div-add-mod, div-lt_iff_lt-mul, mod-lt}
use multicat_supervisor.Aggregartp.{Output, select_loop, reduce, account}

-- Every output has a weight and holds less than it in its remainder, its size is at most `m`, and
-- its sizes account for the bytes sent to it, where `base` was taken off all sizes so far.
abbrev pub Balanced : ℕ → ℕ → List Output → List ℕ → Type 0
Balanced m base [] [] = Unit
Balanced m base [] (t ∷ ts) = ⊥
Balanced m base (o ∷ os) [] = ⊥
Balanced m base (o ∷ os) (t ∷ ts) =
    (0 < o.weight)
    × (o.remainder < o.weight)
    × (o.weighted_size ≤ m)
    × (o.weight * (o.weighted_size + base) + o.remainder ≡ t)
    × Balanced m base os ts

-- No output has a size below `n`.
abbrev pub AtLeast : ℕ → List Output → Type 0
AtLeast n [] = Unit
AtLeast n (o ∷ os) = (n ≤ o.weighted_size) × AtLeast n os

pub AtLeast-le : (n k : ℕ) (os : List Output) → n ≤ k → AtLeast k os → AtLeast n os
AtLeast-le n k [] h a = tt
AtLeast-le n k (o ∷ os) h a = (omega arith, AtLeast-le n k os h a.1)

-- The least size is below all others, and is not above the one that the loop starts with.
pub select_loop-AtLeast :
    (m base : ℕ) (os : List Output) (ts : List ℕ) (i least output : ℕ)
    → Balanced m base os ts
    → AtLeast (select_loop os i least output).0 os × ((select_loop os i least output).0 ≤ least)
unfolding select_loop
select_loop-AtLeast m base [] ts i least output b = (tt, omega arith)
select_loop-AtLeast m base (o ∷ os) [] i least output b = elim b [ ]
select_loop-AtLeast m base (o ∷ os) (t ∷ ts) i least output b = ground (
  arith,
  select_loop-AtLeast m base os ts (i + 1)
      (if ltb o.weighted_size least then o.weighted_size else least)
      (if ltb o.weighted_size least then i else output) b.4,
)

-- Where the selection stands: at the output that the loop started with, or at one of the list.
abbrev Selected : List Output → ℕ → ℕ → ℕ → ℕ × ℕ → Type 0
Selected os i least output r =
    ((r.0 ≡ least) × (r.1 ≡ output))
    ⊎ ((o : Output) × (i ≤ r.1) × (get_elem? os (r.1 - i) ≡ some o) × (o.weighted_size ≡ r.0))

Selected-cons :
    (o : Output) (os : List Output) (i least output : ℕ) (r : ℕ × ℕ)
    → Selected os
        (i + 1)
        (if ltb o.weighted_size least then o.weighted_size else least)
        (if ltb o.weighted_size least then i else output)
        r
    → Selected (o ∷ os) i least output r
Selected-cons o os i least output r (inr (o', h, e, z)) =
    let shift : r.1 - i ≡ suc (r.1 - (i + 1)) = omega arith in inr (o', omega arith, rw shift e, z)
Selected-cons o os i least output r (inl (p, q)) = elim (lt_or_le o.weighted_size least) [
  | inl lt ↦
      let here : r.1 - i ≡ 0 = ground arith in inr (o, ground arith, rw here refl, ground arith)
  | inr le ↦ inl (ground arith)
]

select_loop-Selected :
    (os : List Output) (i least output : ℕ)
    → Selected os i least output (select_loop os i least output)
unfolding select_loop
select_loop-Selected [] i least output = inl (refl, refl)
select_loop-Selected (o ∷ os) i least output = elim (Bool-cases (o.weight == 0)) [
  | inl stop ↦ rw stop (inl (refl, refl))
  | inr go ↦ rw go (
      Selected-cons o os i least output _ (
        select_loop-Selected os (i + 1)
          (if ltb o.weighted_size least then o.weighted_size else least)
          (if ltb o.weighted_size least then i else output)))
]

pub sub32_exact : (a n : ℕ) → n ≤ a → a < u32 → sub32 a n ≡ a - n
sub32_exact a n h k = omega arith

pub reduce-Balanced :
    (m base n : ℕ) (os : List Output) (ts : List ℕ)
    → m < u32
    → Balanced m base os ts
    → AtLeast n os
    → Balanced m (base + n) (reduce n os) ts
unfolding reduce
reduce-Balanced m base n [] [] small b a = tt
reduce-Balanced m base n [] (t ∷ ts) small b a = elim b [ ]
reduce-Balanced m base n (o ∷ os) [] small b a = elim b [ ]
reduce-Balanced m base n (o ∷ os) (t ∷ ts) small b a =
    let same : o.weighted_size - n + (base + n) ≡ o.weighted_size + base = omega arith in
    ground (
      arith,
      reduce-Balanced m base n os ts small b.4 a.1,
      sub32_exact o.weighted_size n a.0 (omega arith),
      same,
      ap (λ (x : ℕ). o.weight * x) same,
    )

pub get_elem?-reduce :
    (m base n : ℕ) (os : List Output) (ts : List ℕ) (k : ℕ) (o : Output)
    → Balanced m base os ts
    → get_elem? os k ≡ some o
    → get_elem? (reduce n os) k ≡ some (record o { weighted_size = sub32 o.weighted_size n })
unfolding reduce
get_elem?-reduce m base n [] ts k o b e = cc
get_elem?-reduce m base n (p ∷ os) [] k o b e = elim b [ ]
get_elem?-reduce m base n (p ∷ os) (t ∷ ts) zero o b e = ground arith
get_elem?-reduce m base n (p ∷ os) (t ∷ ts) (suc k) o b e =
    ground (arith, get_elem?-reduce m base n os ts k o b.4 e)

-- The totals after `size` bytes more went to output `i`.
abbrev pub add_at : List ℕ → ℕ → ℕ → List ℕ
add_at [] i size = []
add_at (t ∷ ts) zero size = (t + size) ∷ ts
add_at (t ∷ ts) (suc i) size = t ∷ add_at ts i size

quotient_bound : (m w r size : ℕ) → 0 < w → r < w → size ≤ m → (size + r) / w ≤ m
quotient_bound m w r size hw hr hs =
    omega (arith, (div-lt_iff_lt-mul {x = size + r} {y = suc m} hw).1 (grind arith))

module _ (m : ℕ) (small : m < u32) where
  -- What the account of a packet does to an output that has just been brought down to 0.
  account_lem :
      (base size t : ℕ) (o : Output)
      → 0 < o.weight
      → o.remainder < o.weight
      → o.weighted_size ≡ 0
      → size ≤ m
      → o.weight * (o.weighted_size + base) + o.remainder ≡ t
      → (o' : Output) × (account o size ≡ some o')
        × (0 < o'.weight)
        × (o'.remainder < o'.weight)
        × (o'.weighted_size ≤ m)
        × (o'.weight * (o'.weighted_size + base) + o'.remainder ≡ t + size)
  unfolding account
  account_lem base size t o hw hr z hs e =
      let q : ℕ = (size + o.remainder) / o.weight in
      let bound : q ≤ m = quotient_bound m o.weight o.remainder size hw hr hs in
      let exact : add32 o.weighted_size q ≡ q = omega arith in
      (
        record o {
          weighted_size = add32 o.weighted_size q;
          remainder = (size + o.remainder) % o.weight;
        },
        ground arith,
        hw,
        mod-lt (size + o.remainder) hw,
        omega arith,
        rw exact (
            omega
              (arith, div-add-mod (size + o.remainder) o.weight, ap (λ (x : ℕ). o.weight * x) z)),
      )

  pub Balanced-set :
      (base size k : ℕ) (os : List Output) (ts : List ℕ) (o : Output)
      → Balanced m base os ts
      → get_elem? os k ≡ some o
      → o.weighted_size ≡ 0
      → size ≤ m
      → (o' : Output) × (account o size ≡ some o')
        × Balanced m base (set os k o') (add_at ts k size)
  Balanced-set base size k [] ts o b e z hs = cc
  Balanced-set base size k (p ∷ os) [] o b e z hs = elim b [ ]
  Balanced-set base size zero (p ∷ os) (t ∷ ts) o b e z hs =
      let same : p ≡ o = cc in
      let z' : p.weighted_size ≡ 0 = rw same z in
      let (o', at, h0, h1, h2, h3) = account_lem base size t p b.0 b.1 z' hs b.3 in
      (o', rw (← same) at, (h0, h1, h2, h3, b.4))
  Balanced-set base size (suc k) (p ∷ os) (t ∷ ts) o b e z hs =
      let (o', at, h) = Balanced-set base size k os ts o b.4 e z hs in
      (o', at, (b.0, b.1, b.2, b.3, h))

  pub selected_index :
      (o : Output) (os : List Output)
      → (p : Output) × (get_elem? (o ∷ os) (select_loop os 1 o.weighted_size 0).1 ≡ some p)
        × (p.weighted_size ≡ (select_loop os 1 o.weighted_size 0).0)
  selected_index o os = elim (select_loop-Selected os 1 o.weighted_size 0) [
    | inl (p, q) ↦ (o, rw q refl, sym p)
    | inr (p, h, e, z) ↦
        let r : ℕ = (select_loop os 1 o.weighted_size 0).1 in
        let shift : r ≡ suc (r - 1) = omega arith in (p, rw shift e, z)
  ]
