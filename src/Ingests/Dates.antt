-- ===== src/Ingests/Dates.antt =====
-- ingests.c: the dates that `OutputAux` writes.
use native.Mathlib.Nat.{
  div-le_of_le-mul, div-mul-le_self, le-div_iff_mul-le, mul-div_cancel, zero-div,
}
use multicat_supervisor.Base.{
  ℕ, zero, suc, ◌+◌, ◌*◌, ◌/◌, ◌%◌, ◌≤◌, ◌<◌, ◌≡◌, refl, ap, arith, List, [], ◌∷◌, length, add64,
  u64,
}
use multicat_supervisor.Ingests.{dates}

-- Every date is in the interval, and none is before the one in front of it.
abbrev pub Ascend : ℕ → ℕ → List ℕ → Type 0
Ascend low high [] = Unit
Ascend low high (d ∷ ds) = (low ≤ d) × (d ≤ high) × Ascend d high ds

mul_mono : (k : ℕ) {a b : ℕ} → a ≤ b → k * a ≤ k * b
mul_mono k h = grind arith

share_le : (duration nb i : ℕ) → i ≤ nb → duration * i / nb ≤ duration
share_le duration nb i h =
    let m : duration * i ≤ duration * nb = mul_mono duration h in div-le_of_le-mul nb (omega arith)

share_mono : (duration nb i : ℕ) → 0 < nb → duration * i / nb ≤ duration * (i + 1) / nb
share_mono duration nb i p =
    let m : duration * i ≤ duration * (i + 1) = mul_mono duration (omega arith) in
    let d = div-mul-le_self (duration * i) nb in (le-div_iff_mul-le p).1 (omega arith)

-- The last of the dates, or the one before them.
abbrev pub last : ℕ → List ℕ → ℕ
last low [] = low
last low (d ∷ ds) = last d ds

module _ (last_stc duration nb : ℕ) (positive : 0 < nb) (fits : last_stc + duration < u64)
    (small : duration * nb < u64) where
  date_lem :
      (i : ℕ)
      → i < nb
      → add64 last_stc (duration * (i + 1) % u64 / nb) ≡ last_stc + duration * (i + 1) / nb
  date_lem i h =
      let m : duration * (i + 1) ≤ duration * nb = mul_mono duration (omega arith) in
      let e : duration * (i + 1) % u64 ≡ duration * (i + 1) = omega arith in
      let l = share_le duration nb (i + 1) (omega arith) in rw e (omega arith)

  whole : (i : ℕ) → i + 0 ≡ nb → duration * i / nb ≡ duration
  whole i e = let q : i ≡ nb = omega arith in rw q (mul-div_cancel duration positive)

  none_yet : duration * 0 / nb ≡ 0
  none_yet = let q : duration * 0 ≡ 0 = omega arith in rw q (zero-div nb)

  dates-loop :
      (n i low : ℕ)
      → i + n ≡ nb
      → low ≡ last_stc + duration * i / nb
      → Ascend low (last_stc + duration) (dates last_stc duration nb i n)
        × (length (dates last_stc duration nb i n) ≡ n)
        × (last low (dates last_stc duration nb i n) ≡ last_stc + duration)
  unfolding dates
  dates-loop zero i low e q = (tt, refl, omega (arith, q, whole i e))
  dates-loop (suc n) i low e q =
      let d = date_lem i (omega arith) in
      let r =
        dates-loop n (i + 1) (add64 last_stc (duration * (i + 1) % u64 / nb)) (omega arith) d in
      let l = share_le duration nb (i + 1) (omega arith) in
      let m = share_mono duration nb i positive in
      ((omega arith, omega arith, r.0), ap suc r.1, r.2)

  -- Where the interval and its multiple by the positive number of payloads fit in 64 bits,
  -- OutputAux writes one date for each payload; they ascend from the last date, and the last of
  -- them is that date plus the interval.
  pub dates-Ascend :
      Ascend last_stc (last_stc + duration) (dates last_stc duration nb 0 nb)
      × (length (dates last_stc duration nb 0 nb) ≡ nb)
      × (last last_stc (dates last_stc duration nb 0 nb) ≡ last_stc + duration)
  dates-Ascend = dates-loop nb 0 last_stc (omega arith) (omega (arith, none_yet))
