-- ===== src/Reordertp/Timestamps.antt =====
-- reordertp.c: what `BuildTimestamp` and the clock recovery compute.
use multicat_supervisor.Io.{Outcome, ok, ◌>>=◌}
use multicat_supervisor.Base.{
  ◌≢◌, ◌==◌, false, List, [], ◌∷◌, ◌++◌, ℕ, ◌+◌, ◌%◌, ◌≤◌, ◌<◌, ◌≡◌, ◌⊎◌, inl, inr, refl, arith,
  ltb, Bool-cases, add64, sub64, u64, u32,
}
use multicat_supervisor.Reordertp.{
  InputClock, Config, clock_to_wall, restart, beyond, max_space_packets, smoothed, clock_new_ref,
  build_timestamp,
}

-- A timestamp of 32 bits is continued to 64 bits: where the last one leaves room of 2 ^ 31 on
-- both sides, the result has the timestamp for its low 32 bits, and lies at most 2 ^ 31 before or
-- less than 2 ^ 31 behind the last one.
pub build_timestamp_near :
    (last timestamp : ℕ)
    → timestamp < u32
    → 2147483648 ≤ last
    → last + 2147483648 < u64
    → let next = build_timestamp last timestamp in
      (next % u32 ≡ timestamp) × (last ≤ next + 2147483648) × (next < last + 2147483648)
unfolding build_timestamp
build_timestamp_near last timestamp h lo hi = omega arith

-- Where the last timestamp leaves room of 2 ^ 31 on both sides, a number that has the 32-bit
-- timestamp for its low 32 bits, and lies at most 2 ^ 31 before or less than 2 ^ 31 behind the
-- last one, is the result of BuildTimestamp.
pub build_timestamp_unique :
    (last timestamp other : ℕ)
    → timestamp < u32
    → 2147483648 ≤ last
    → last + 2147483648 < u64
    → other % u32 ≡ timestamp
    → last ≤ other + 2147483648
    → other < last + 2147483648
    → other ≡ build_timestamp last timestamp
unfolding build_timestamp
build_timestamp_unique last timestamp other h lo hi e p q = omega arith

-- After a restart the clock maps its reference to the wall date given with it.
pub restart-clock_to_wall :
    (clock wall : ℕ) → clock < u64 → wall < u64 → clock_to_wall (restart clock wall) clock ≡ wall
unfolding clock_to_wall
restart-clock_to_wall clock wall h k = omega arith

-- What became of the clock: the packet was taken as the last reference, or it was passed over and
-- only the count of such packets went up.
abbrev pub Followed : InputClock → InputClock → ℕ → Type 0
Followed k k' clock = (k'.last_cr ≡ clock) ⊎ (k' ≡ record k { space_packets = k.space_packets + 1 })

few_max :
    (k : InputClock)
    → k.space_packets ≡ max_space_packets
    → ltb max_space_packets (k.space_packets + 1) ≡ false
    → ⊥
few_max k e f = ground arith

pub clock_new_ref-ok :
    (cfg : Config) (k : InputClock) (clock wall : ℕ)
    → cfg.cr_average ≢ 0
    → (k' : InputClock) × (clock_new_ref cfg k clock wall ≡ ok k')
      × Followed k k' clock
      × (k.space_packets ≡ max_space_packets → k'.last_cr ≡ clock)
unfolding clock_new_ref
clock_new_ref-ok cfg k clock wall h =
    let nonzero : (cfg.cr_average == 0) ≡ false = ground arith in
    elim (Bool-cases (beyond cfg.cr_max_gap (sub64 clock k.last_cr))) [
      | inl far ↦ (restart clock wall, rw far refl, inl refl, λ _. refl)
      | inr near ↦
          elim (Bool-cases (
            beyond cfg.cr_max_jitter
              (sub64 (sub64 (sub64 (add64 k.cr_ref wall) k.wall_ref) clock) k.delta_cr))) [
                | inl outside ↦ elim (Bool-cases (ltb max_space_packets (k.space_packets + 1))) [
                  | inl many ↦
                      (restart clock wall, rw (near, outside, many) refl, inl refl, λ _. refl)
                  | inr few ↦ (
                    record k { space_packets = k.space_packets + 1 },
                    rw (near, outside, few) refl,
                    inr refl,
                    λ e. elim (few_max k e few) [ ],
                  )
                ]
                | inr inside ↦ (
                  record k {
                    space_packets = 0;
                    last_cr = clock;
                    delta_cr =
                        smoothed cfg k.delta_cr
                          (sub64 (sub64 (add64 k.cr_ref wall) k.wall_ref) clock);
                  },
                  rw (near, inside, nonzero) refl,
                  inl refl,
                  λ _. refl,
                )
              ]
    ]

-- The clock over some packets, each with its clock and the date of its arrival.
abbrev pub follow_clock : Config → List (ℕ × ℕ) → InputClock → Outcome InputClock
follow_clock cfg [] k = ok k
follow_clock cfg ((clock, wall) ∷ packets) k =
    clock_new_ref cfg k clock wall >>= follow_clock cfg packets

-- Up to one of the packets, which has become the last reference.
pub record Taken (cfg : Config) (packets : List (ℕ × ℕ)) (k : InputClock) : Type 0 where
  pub before : List (ℕ × ℕ)
  pub clock : ℕ
  pub wall : ℕ
  pub later : List (ℕ × ℕ)
  pub k' : InputClock
  pub splits : packets ≡ before ++ (clock, wall) ∷ later
  pub runs : follow_clock cfg (before ++ (clock, wall) ∷ []) k ≡ ok k'
  pub last : k'.last_cr ≡ clock
