-- ===== src/Validate/Waiting.antt =====
-- multicat_validate.c, `HandleSTC`: the wait for a date that is too far off.
use multicat_supervisor.Base.{
  ℕ, ◌+◌, ◌-◌, ◌≤◌, ◌<◌, ◌≡◌, refl, arith, Bool, true, false, some, [], ◌∷◌, ◌++◌, if◌then◌else◌,
  sub64, i64_min,
}
use multicat_supervisor.Reordertp.{lt_i64}
use multicat_supervisor.Validate.{print, sleep, in_time, handle_stc}

-- A date that lies ahead of the stream's clock by more than the tolerance.
abbrev pub IsEarly : ℕ → ℕ → ℕ → ℕ → Type 0
IsEarly real delay tolerance stc = real - delay + tolerance < stc

early_lem :
    (real delay tolerance stc : ℕ)
    → delay ≤ real
    → real < i64_min
    → stc < i64_min
    → tolerance < i64_min
    → IsEarly real delay tolerance stc
    → lt_i64 tolerance (sub64 stc (sub64 real delay)) ≡ true
early_lem real delay tolerance stc d r s t h = ground arith

in_time_lem :
    (real delay tolerance stc : ℕ)
    → delay ≤ real
    → real < i64_min
    → stc < i64_min
    → tolerance < i64_min
    → stc ≤ real - delay + tolerance
    → lt_i64 tolerance (sub64 stc (sub64 real delay)) ≡ false
in_time_lem real delay tolerance stc d r s t h = ground arith

wait_lem :
    (real delay tolerance stc : ℕ)
    → delay ≤ real
    → real < i64_min
    → stc < i64_min
    → tolerance < i64_min
    → IsEarly real delay tolerance stc
    → sub64 (sub64 stc (sub64 real delay)) tolerance ≡ stc - (real - delay) - tolerance
wait_lem real delay tolerance stc d r s t h = omega arith

module _ (real : ℕ → ℕ) (delay tolerance stc : ℕ) (status : Bool) (begun : delay ≤ real 0)
    (small : real 1 < i64_min) (date : stc < i64_min) (tolerated : tolerance < i64_min)
    (early : IsEarly (real 0) delay tolerance stc)
    (slept : real 0 + (stc - (real 0 - delay) - tolerance) ≤ real 1) where
  -- For a date that lies ahead of the stream's clock by more than the tolerance, all numbers
  -- being below 2 ^ 63 and the delay not above the first reading of the clock, where the second
  -- reading of the clock comes after the sleep, HandleSTC reads the clock twice: it prints 0 if
  -- the status was 1, sleeps until the date comes within the tolerance, then prints 1, and sleeps
  -- for what is left, if anything; the status is 1.
  pub handle_stc_lem :
      handle_stc 2 real delay tolerance status 0 stc
      ≡ some (record {
        status = true;
        readings = 2;
        events =
            ((if status then print 0 ∷ [] else [])
              ++ (sleep (stc - (real 0 - delay) - tolerance) ∷ []))
            ++ (in_time false 2 (sub64 stc (sub64 (real 1) delay))).events;
      })
  unfolding handle_stc
  handle_stc_lem =
      let e = early_lem (real 0) delay tolerance stc begun (omega arith) date tolerated early in
      let w = wait_lem (real 0) delay tolerance stc begun (omega arith) date tolerated early in
      let i =
        in_time_lem (real 1) delay tolerance stc (omega arith) small date tolerated (omega arith) in
      rw (e, i, w) refl
