-- ===== src/Aggregartp/Queue.antt =====
-- aggregartp.c, `RetxQueue`: what is kept to be sent again.
use multicat_supervisor.Base.{
  ℕ, ◌-◌, ◌≤◌, ◌<◌, ◌≡◌, refl, List, [], ◌∷◌, ◌++◌, arith, ltb, if◌then◌else◌, Bytes, u64, sub64,
  ◌∙◌, Bool-cases, inl, inr,
}
use multicat_supervisor.Rtp.{Rtp}
use multicat_supervisor.Aggregartp.{Block, purge, retx_queue}

-- The dates ascend up to the date `now`.
abbrev pub Ascends : ℕ → List Block → Type 0
Ascends now [] = Unit
Ascends now (b ∷ []) = b.date ≤ now
Ascends now (b ∷ c ∷ bs) = (b.date ≤ c.date) × Ascends now (c ∷ bs)

Ascends-head : (now : ℕ) (b : Block) (bs : List Block) → Ascends now (b ∷ bs) → b.date ≤ now
Ascends-head now b [] h = h
Ascends-head now b (c ∷ bs) h = omega (arith, Ascends-head now c bs h.1, h.0)

Ascends-append :
    (before now : ℕ) (bs : List Block) (b : Block)
    → Ascends before bs
    → before ≤ now
    → b.date ≡ now
    → Ascends now (bs ++ (b ∷ []))
Ascends-append before now [] b h le e = omega arith
Ascends-append before now (c ∷ []) b h le e = omega arith
Ascends-append before now (c ∷ d ∷ bs) b h le e =
    (h.0, Ascends-append before now (d ∷ bs) b h.1 le e)

-- The blocks that are not older than a date, in their order.
abbrev pub recent : ℕ → List Block → List Block
recent limit [] = []
recent limit (b ∷ bs) = if ltb b.date limit then recent limit bs else b ∷ recent limit bs

recent_all :
    (now limit : ℕ) (b : Block) (bs : List Block)
    → Ascends now (b ∷ bs)
    → limit ≤ b.date
    → recent limit (b ∷ bs) ≡ b ∷ bs
recent_all now limit b [] h le = ground arith
recent_all now limit b (c ∷ bs) h le = ground (arith, recent_all now limit c bs h.1)

Ascends-tail : (now : ℕ) (b : Block) (bs : List Block) → Ascends now (b ∷ bs) → Ascends now bs
Ascends-tail now b [] h = tt
Ascends-tail now b (c ∷ bs) h = h.1

purge-recent : (now limit : ℕ) (bs : List Block) → Ascends now bs → purge limit bs ≡ recent limit bs
unfolding purge
purge-recent now limit [] h = refl
purge-recent now limit (b ∷ bs) h =
    ground (arith, purge-recent now limit bs (Ascends-tail now b bs h), recent_all now limit b bs h)

purge-Ascends : (now limit : ℕ) (bs : List Block) → Ascends now bs → Ascends now (purge limit bs)
unfolding purge
purge-Ascends now limit [] h = tt
purge-Ascends now limit (b ∷ bs) h = elim (Bool-cases (ltb b.date limit)) [
  | inl old ↦ rw old (purge-Ascends now limit bs (Ascends-tail now b bs h))
  | inr new ↦ rw new h
]

recent-append :
    (limit : ℕ) (bs : List Block) (b : Block)
    → limit ≤ b.date
    → recent limit (bs ++ (b ∷ [])) ≡ recent limit bs ++ (b ∷ [])
recent-append limit [] b h = ground arith
recent-append limit (c ∷ bs) b h = ground (arith, recent-append limit bs b h)

purge_none : (now limit : ℕ) (bs : List Block) → Ascends now bs → now < limit → purge limit bs ≡ []
unfolding purge
purge_none now limit [] h lt = refl
purge_none now limit (b ∷ bs) h lt =
    ground (arith, Ascends-head now b bs h, purge_none now limit bs (Ascends-tail now b bs h))

module _ (rtp : Rtp) (retx_buffer : ℕ) (queue : List Block) (packet : Bytes) (before now : ℕ)
    (ascends : Ascends before queue) (later : before ≤ now) (fits : now < u64) where
  abbrev queued : Block
  queued = record { packet = rtp.set_marker packet; date = now }

  -- If the dates of the queue ascend up to a date not past the current one, and the current date
  -- is a 64-bit number not below the length of the buffer, then the queue keeps exactly the
  -- blocks that are not older than that length, in their order, and the new packet with its
  -- marker set as the last one; the dates ascend again.
  pub retx_queue-recent :
      retx_buffer ≤ now
      → (retx_queue rtp retx_buffer queue packet now
          ≡ recent (now - retx_buffer) queue ++ (queued ∷ []))
        × Ascends now (retx_queue rtp retx_buffer queue packet now)
  unfolding retx_queue
  retx_queue-recent h =
      let limit : sub64 now retx_buffer ≡ now - retx_buffer = omega arith in
      let all = Ascends-append before now queue queued ascends later refl in
      rw limit (
        purge-recent now (now - retx_buffer) (queue ++ (queued ∷ [])) all
            ∙ recent-append (now - retx_buffer) queue queued (omega arith),
        purge-Ascends now (now - retx_buffer) (queue ++ (queued ∷ [])) all,
      )

  -- If the dates of the queue ascend up to a date not past the current one, and the current date
  -- is below the length of the buffer, both 64-bit numbers, the subtraction wraps and the queue
  -- is emptied, the new packet included.
  pub retx_queue_early :
      now < retx_buffer → retx_buffer < u64 → retx_queue rtp retx_buffer queue packet now ≡ []
  unfolding retx_queue
  retx_queue_early h k =
      purge_none now (sub64 now retx_buffer) (queue ++ (queued ∷ []))
        (Ascends-append before now queue queued ascends later refl) (omega arith)
