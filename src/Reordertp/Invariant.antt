-- ===== src/Reordertp/Invariant.antt =====
-- reordertp.c: `PacketRecv` and `PacketSend`, and the cursors of `pp_retx` on the blocks of the list.
use mathlib.Core.Path.{subst}
use multicat_supervisor.Base.{
  ℕ, ◌≡◌, ◌≢◌, refl, sym, Option, none, some, List, [], ◌∷◌, inl, inr, map, Bool-cases,
  if◌then◌else◌, ◌==◌, length, length-map, All, Bytes,
}
use multicat_supervisor.Io.{Sent, sent, transient, broken, Outcome, ok, exit_failure, undefined}
use multicat_supervisor.Rtp.{Rtp}
use multicat_supervisor.Reordertp.{
  Block, Config, InputClock, State, is_ahead, place, insert, clock_after, scaled_timestamp,
  build_timestamp, enlisted, packet_recv, forget, packet_send,
}
use multicat_supervisor.Reordertp.Timestamps.{clock_new_ref-ok}
use multicat_supervisor.Reordertp.Links.{InQueue, Fresh, Distinct, CursorOk, Valid, other_addr}

-- The new list has all the old blocks, and no address that neither the old list nor the block has.
abbrev Kept : Block → List Block → List Block → Type 0
Kept y bs bs' =
    ((a : ℕ) → InQueue a bs → InQueue a bs')
    × ((a : ℕ) → y.addr ≢ a → Fresh a bs → Fresh a bs')
    × (Fresh y.addr bs → Distinct bs → Distinct bs')

abbrev PlaceKept : Block → List Block → Option (List Block) → Type 0
PlaceKept y bs none = Unit
PlaceKept y bs (some bs') = Kept y bs bs'

cons-InQueue :
    (a : ℕ) (b : Block) (bs bs' : List Block)
    → (InQueue a bs → InQueue a bs')
    → InQueue a (b ∷ bs)
    → InQueue a (b ∷ bs')
cons-InQueue a b bs bs' f (inl e) = inl e
cons-InQueue a b bs bs' f (inr h) = inr (f h)

cons-Kept : (y b : Block) (bs bs' : List Block) → Kept y bs bs' → Kept y (b ∷ bs) (b ∷ bs')
cons-Kept y b bs bs' (i, f, d) = (
  λ a h. cons-InQueue a b bs bs' (i a) h,
  λ a n h. (h.0, f a n h.1),
  λ n h. (f b.addr (λ e. n.0 (sym e)) h.0, d n.1 h.1),
)

first-Kept : (y : Block) (bs : List Block) → Kept y bs (y ∷ bs)
first-Kept y bs = (λ a h. inr h, λ a n h. (n, h), λ n h. (n, h))

place-cons :
    (y b : Block) (bs : List Block) (found : Option (List Block))
    → place y bs ≡ found
    → PlaceKept y bs found
    → PlaceKept y (b ∷ bs) (place y (b ∷ bs))
unfolding place
place-cons y b bs (some bs') e k = rw (PlaceKept, e) (cons-Kept y b bs bs' k)
place-cons y b bs none e k = elim (Bool-cases (is_ahead b y)) [
  | inl h ↦ rw (PlaceKept, e, h) tt
  | inr h ↦ rw (PlaceKept, e, h) (cons-Kept y b bs (y ∷ bs) (first-Kept y bs))
]

place-Kept : (y : Block) (bs : List Block) → PlaceKept y bs (place y bs)
unfolding place
place-Kept y [] = tt
place-Kept y (b ∷ bs) = place-cons y b bs (place y bs) refl (place-Kept y bs)

insert-found :
    (y : Block) (bs : List Block) (found : Option (List Block))
    → PlaceKept y bs found
    → Kept y bs (elim found [ some bs' ↦ bs' | none ↦ y ∷ bs ])
insert-found y bs none k = first-Kept y bs
insert-found y bs (some bs') k = k

insert-Kept : (y : Block) (bs : List Block) → Kept y bs (insert y bs)
unfolding insert
insert-Kept y bs = insert-found y bs (place y bs) (place-Kept y bs)

Cursors-map :
    (bs bs' : List Block) (curs : List (Option ℕ))
    → ((a : ℕ) → InQueue a bs → InQueue a bs')
    → All (CursorOk bs) curs
    → All (CursorOk bs') curs
Cursors-map bs bs' [] f h = tt
Cursors-map bs bs' (none ∷ xs) f h = (tt, Cursors-map bs bs' xs f h.1)
Cursors-map bs bs' (some a ∷ xs) f h = (f a h.0, Cursors-map bs bs' xs f h.1)

insert-Valid :
    (y : Block) (bs : List Block) (curs : List (Option ℕ))
    → Distinct bs × All (CursorOk bs) curs
    → Fresh y.addr bs
    → Distinct (insert y bs) × All (CursorOk (insert y bs)) curs
insert-Valid y bs curs h f =
    let k = insert-Kept y bs in (k.2 f h.0, Cursors-map bs (insert y bs) curs k.0 h.1)

forget-CursorOk :
    (b : Block) (bs : List Block) (a : ℕ)
    → InQueue a (b ∷ bs)
    → CursorOk bs (forget b.addr (some a))
forget-CursorOk b bs a h = elim (Bool-cases (a == b.addr)) [
  | inl e ↦ rw e tt
  | inr e ↦ rw e (elim h [ inl q ↦ elim (other_addr a b.addr e (sym q)) [ ] | inr i ↦ i ])
]

forget-Cursors :
    (b : Block) (bs : List Block) (curs : List (Option ℕ))
    → All (CursorOk (b ∷ bs)) curs
    → All (CursorOk bs) (map (forget b.addr) curs)
forget-Cursors b bs [] h = tt
forget-Cursors b bs (none ∷ xs) h = (tt, forget-Cursors b bs xs h.1)
forget-Cursors b bs (some a ∷ xs) h = (forget-CursorOk b bs a h.0, forget-Cursors b bs xs h.1)

module _ (rtp : Rtp) (cfg : Config) where
  clock_after-ok :
      (k : InputClock) (scaled date : ℕ)
      → cfg.cr_average ≢ 0
      → (k' : InputClock) × (clock_after rtp cfg k scaled date ≡ ok k')
  clock_after-ok k scaled date h = elim (Bool-cases (date == 0)) [
    | inl e ↦ rw e (k, refl)
    | inr e ↦ let (k', q, _, _) = clock_new_ref-ok cfg k scaled date h in rw e (k', q)
  ]

  -- Where -r is not 0, a packet received in a block at a new address is handled to the end, and
  -- leaves a state where the addresses are distinct and no cursor dangles, if it was one before.
  pub packet_recv-Valid :
      (st : State) (addr : ℕ) (packet : Bytes) (date : ℕ)
      → cfg.cr_average ≢ 0
      → Valid st
      → Fresh addr st.queue
      → (st' : State) × (packet_recv rtp cfg st addr packet date ≡ ok st') × Valid st'
  unfolding packet_recv enlisted
  packet_recv-Valid st addr packet date nonzero h f = elim (Bool-cases (rtp.check_hdr packet)) [
    | inl e ↦
        let scaled =
          scaled_timestamp rtp cfg packet
            (build_timestamp st.last_timestamp (rtp.get_timestamp packet)) in
        let (k, q) =
          clock_after-ok st.clock scaled (if rtp.check_marker packet then 0 else date) nonzero in
        let marked = rtp.check_marker packet in
        let packet' = if marked then rtp.clear_marker packet else packet in
        (
          enlisted rtp cfg st addr packet'
              (build_timestamp st.last_timestamp (rtp.get_timestamp packet)) scaled k,
          rw (e, q) refl,
          insert-Valid _ st.queue st.cursors h f,
        )
    | inr e ↦ (st, rw e refl, h)
  ]

  -- The process ends, or the first block is gone and the state is valid.
  abbrev pub SendOk : State → Outcome (State × Bytes) → Type 0
  SendOk st (ok (st', bytes)) =
      Valid st'
      × ((b : Block) × (st.queue ≡ b ∷ st'.queue))
      × (length st'.cursors ≡ length st.cursors)
  SendOk st exit_failure = Unit
  SendOk st undefined = ⊥

  sent-ok :
      (st : State) (b : Block) (bs : List Block)
      → st.queue ≡ b ∷ bs
      → Valid st
      → Valid (record st { queue = bs; cursors = map (forget b.addr) st.cursors })
        × ((c : Block) × (st.queue ≡ c ∷ bs))
        × (length (map (forget b.addr) st.cursors) ≡ length st.cursors)
  sent-ok st b bs e h = (
    (
      (subst Distinct e h.0).1,
      forget-Cursors b bs st.cursors (subst (λ q. All (CursorOk q) st.cursors) e h.1),
    ),
    (b, e),
    length-map (forget b.addr) st.cursors,
  )

  send-queue :
      (st : State) (net : Sent) (bs : List Block)
      → st.queue ≡ bs
      → Valid st
      → st.queue ≢ []
      → SendOk st (packet_send rtp cfg st net)
  unfolding packet_send
  send-queue st net [] e h n = elim (n e) [ ]
  send-queue st broken (b ∷ bs) e h n = rw (SendOk, e) tt
  send-queue st sent (b ∷ bs) e h n = rw (SendOk, e) (sent-ok st b bs e h)
  send-queue st transient (b ∷ bs) e h n = rw (SendOk, e) (sent-ok st b bs e h)

  -- PacketSend on a list that is not empty, in a state where the addresses are distinct and no
  -- cursor dangles, ends the process, or takes the first block off the list and leaves such a
  -- state with as many passes: no cursor is left on the freed block.
  pub packet_send-SendOk :
      (st : State) (net : Sent) → Valid st → st.queue ≢ [] → SendOk st (packet_send rtp cfg st net)
  unfolding packet_send
  packet_send-SendOk st net h n = send-queue st net st.queue refl h n
