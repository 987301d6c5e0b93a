-- ===== src/Reordertp/Round/Due.antt =====
-- reordertp.c, `main`: the loop that sends what is due.
use multicat_supervisor.Base.{
  ℕ, zero, suc, ◌+◌, ◌<◌, ◌≡◌, ◌≢◌, refl, ap, true, false, Bool-cases, inl, inr, Option, none, some,
  List, [], ◌∷◌, arith, length, Bytes,
}
use multicat_supervisor.Io.{Sent, Outcome, ok, exit_failure, undefined}
use multicat_supervisor.Rtp.{Rtp}
use multicat_supervisor.Reordertp.{Block, Config, State, packet_send}
use multicat_supervisor.Reordertp.Round.{consed, is_due, send_due}
use multicat_supervisor.Reordertp.Links.{Valid}
use multicat_supervisor.Reordertp.Invariant.{SendOk, packet_send-SendOk}

due_NotEmpty : (bs : List Block) (now : ℕ) → is_due bs now ≡ true → bs ≢ []
due_NotEmpty [] now e q = cc
due_NotEmpty (b ∷ bs) now e q = cc

module _ (rtp : Rtp) (cfg : Config) (wall : ℕ → ℕ) (net : ℕ → Sent) where
  -- What the loop must return, from the `n`th reading of the clock on: the process ends, or the state
  -- is valid, its first block is not due at the reading after the last packet, and the packets sent
  -- are as many as the blocks that went.
  abbrev pub DueOk : ℕ → State → Option (Outcome (State × List Bytes)) → Type 0
  DueOk n st (some (ok (st', packets))) =
      Valid st'
      × (length st'.queue + length packets ≡ length st.queue)
      × (is_due st'.queue (wall (n + length packets)) ≡ false)
  DueOk n st (some exit_failure) = Unit
  DueOk n st (some undefined) = ⊥
  DueOk n st none = ⊥

  not_due :
      (st : State) (n : ℕ)
      → is_due st.queue (wall n) ≡ false
      → is_due st.queue (wall (n + 0)) ≡ false
  not_due st n d = let e : n + 0 ≡ n = omega arith in rw e d

  consed-DueOk :
      (n : ℕ) (st st' : State) (packet : Bytes) (r : Option (Outcome (State × List Bytes)))
      → suc (length st'.queue) ≡ length st.queue
      → DueOk (n + 1) st' r
      → DueOk n st (consed packet r)
  consed-DueOk n st st' packet none l h = elim h [ ]
  consed-DueOk n st st' packet (some (ok (st'', packets))) l (v, c, d) =
      let e : n + suc (length packets) ≡ n + 1 + length packets = omega arith in
      (v, omega (arith, c, l), rw e d)
  consed-DueOk n st st' packet (some exit_failure) l h = tt
  consed-DueOk n st st' packet (some undefined) l h = elim h [ ]

  sent-DueOk :
      (fuel n : ℕ) (st : State) (r : Outcome (State × Bytes))
      → packet_send rtp cfg st (net n) ≡ r
      → is_due st.queue (wall n) ≡ true
      → SendOk rtp cfg st r
      → length st.queue < suc fuel
      → ((st' : State)
          → Valid st'
          → length st'.queue < fuel
          → DueOk (n + 1) st' (send_due rtp cfg fuel wall net (n + 1) st'))
      → DueOk n st (send_due rtp cfg (suc fuel) wall net n st)
  unfolding send_due
  sent-DueOk fuel n st exit_failure e d s l k = rw (DueOk, d, e) tt
  sent-DueOk fuel n st undefined e d s l k = elim s [ ]
  sent-DueOk fuel n st (ok (st', packet)) e d (v, (b, q), c) l k =
      rw (DueOk, d, e)
        (consed-DueOk n st st' packet (send_due rtp cfg fuel wall net (n + 1) st')
          (omega (arith, ap length q)) (k st' v (omega (arith, ap length q))))

  due-loop :
      (fuel n : ℕ) (st : State)
      → Valid st
      → length st.queue < fuel
      → DueOk n st (send_due rtp cfg fuel wall net n st)
  unfolding send_due
  due-loop zero n st v l = absurd (omega arith)
  due-loop (suc fuel) n st v l = elim (Bool-cases (is_due st.queue (wall n))) [
    | inl d ↦
        sent-DueOk fuel n st (packet_send rtp cfg st (net n)) refl d
          (packet_send-SendOk rtp cfg st (net n) v (due_NotEmpty st.queue (wall n) d)) l
          (λ st' v' l'. due-loop fuel (n + 1) st' v' l')
    | inr d ↦ rw (DueOk, d) (v, omega arith, not_due st n d)
  ]

  -- From a state where the addresses are distinct and no cursor dangles, and with more fuel than
  -- there are blocks, the loop that sends what is due ends. It ends the process, or has sent one
  -- packet for each block gone from the list, until the first block left is not due at the
  -- reading of the clock after the last packet; the state is such a one again.
  pub send_due-DueOk :
      (st : State) → Valid st → DueOk 0 st (send_due rtp cfg (suc (length st.queue)) wall net 0 st)
  send_due-DueOk st v = due-loop (suc (length st.queue)) 0 st v (omega arith)
