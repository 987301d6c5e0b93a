-- ===== src/Aggregartp/Forwarding.antt =====
-- aggregartp.c: a run of the input over UDP without -U, -w and -o, and the bytes that each output gets.
use multicat_supervisor.Base.{
  ℕ, zero, suc, ◌+◌, ◌-◌, ◌*◌, ◌≤◌, ◌<◌, ◌≡◌, refl, ap, false, Option-cases, inl, inr, none, some,
  List, [], ◌∷◌, ◌++◌, map, arith, length, get_elem?, All, Bytes, u32, take,
}
use multicat_supervisor.Rtp.{Rtp}
use multicat_supervisor.Io.{sent, Outcome, ok, bytes, ◌>>=◌}
use multicat_supervisor.Aggregartp.{Output, next_output, send_block, retx_queue}
use multicat_supervisor.Aggregartp.Input.{Config, State, dispatch, stamp, finish, input_ready}
use multicat_supervisor.Aggregartp.Fairness.{add_at}
use multicat_supervisor.Aggregartp.Spread.{spread, weights, zeros, IsFresh, spread_fair}

-- A packet that arrives at a date, and what the memory of its new block holds.
pub record Datagram : Type 0 where
  pub packet : Bytes
  pub date : ℕ
  pub header : Bytes

-- The bytes that each output has got, after those sends.
abbrev pub totals : List (ℕ × Bytes) → List ℕ → List ℕ
totals [] ts = ts
totals ((i, packet) ∷ sends) ts = totals sends (add_at ts i (length packet))

take_all {ℓ} : {A : Type ℓ} → (n : ℕ) (xs : List A) → length xs ≤ n → take n xs ≡ xs
take_all zero [] h = refl
take_all (suc n) [] h = refl
take_all zero (x ∷ xs) h = absurd (omega arith)
take_all (suc n) (x ∷ xs) h = ap (λ l. x ∷ l) (take_all n xs (omega arith))

dispatch-next_output :
    (os os' : List Output) (size i : ℕ)
    → dispatch os size ≡ some (i, os')
    → (r : ℕ × List Output) × (next_output os ≡ some r)
unfolding dispatch
dispatch-next_output os os' size i e = elim (Option-cases (next_output os)) [
  | inl q ↦ ground (arith, e, q)
  | inr q ↦ q
]

-- Over UDP, and without the options -U, -w and -o, whatever the other ones.
abbrev pub plain : Config → Config
plain cfg = record cfg {
  udp = false;
  input_tcp = false;
  overwrite_timestamps = false;
  overwrite_ssrc = false;
}

module _ (rtp : Rtp) (cfg : Config) where
  -- The loop of `main` over datagrams, each of which can be sent at once.
  abbrev pub forward : State → List Datagram → Outcome (State × List (ℕ × Bytes))
  forward st [] = ok (st, [])
  forward st (a ∷ datagrams) =
      input_ready rtp (plain cfg) st a.date a.header sent (bytes a.packet) >>= λ turn.
      forward turn.0 datagrams >>= λ rest. ok (rest.0, turn.1 ++ rest.1)

  abbrev pub IsWhole : Datagram → Type 0
  IsWhole a = (0 < length a.packet) × (length a.packet ≤ cfg.payload_size + cfg.rtp_header_size)

  -- The state with those outputs, when no block is begun.
  abbrev pub idle : State → List Output → State
  idle st os = record st { outputs = os; input_block = none }

  finish-dispatch :
      (st : State) (packet : Bytes) (date i : ℕ) (os os' : List Output)
      → dispatch os (length packet) ≡ some (i, os')
      → finish rtp (plain cfg) (idle st os) date sent (length packet) packet
        ≡ ok (
          idle (record st { queue = retx_queue rtp cfg.retx_buffer st.queue packet date }) os',
          (i, packet) ∷ [],
        )
  unfolding finish send_block
  finish-dispatch st packet date i os os' d =
      let (r, n) = dispatch-next_output os os' (length packet) i d in rw (finish, n, d) refl

  input_ready-dispatch :
      (st : State) (packet : Bytes) (date : ℕ) (header : Bytes) (i : ℕ) (os os' : List Output)
      → 0 < length packet
      → length packet ≤ cfg.payload_size + cfg.rtp_header_size
      → dispatch os (length packet) ≡ some (i, os')
      → input_ready rtp (plain cfg) (idle st os) date header sent (bytes packet)
        ≡ ok (
          idle (record st { queue = retx_queue rtp cfg.retx_buffer st.queue packet date }) os',
          (i, packet) ∷ [],
        )
  unfolding input_ready stamp
  input_ready-dispatch st [] date header i os os' p l d = absurd (omega arith)
  input_ready-dispatch st (b ∷ bs) date header i os os' p l d =
      let size : ℕ = cfg.payload_size + cfg.rtp_header_size in
      let none_yet : size - 0 ≡ size = omega arith in
      rw (none_yet, take_all size (b ∷ bs) l) (finish-dispatch st (b ∷ bs) date i os os' d)

  -- A run whose sizes can be spread sends every packet, and the bytes that each output gets are the
  -- sizes it is charged with.
  record Forwarded (st : State) (os : List Output) (ts : List ℕ) (datagrams : List Datagram)
      (os' : List Output) (ts' : List ℕ) : Type 0 where
    st' : State
    sends : List (ℕ × Bytes)
    runs : forward (idle st os) datagrams ≡ ok (idle st' os', sends)
    in_order : map (λ (s : ℕ × Bytes). s.1) sends ≡ map (λ (a : Datagram). a.packet) datagrams
    charged : totals sends ts ≡ ts'

  forward-spread :
      (st : State) (os : List Output) (ts : List ℕ) (datagrams : List Datagram) (os' : List Output)
      (ts' : List ℕ)
      → All IsWhole datagrams
      → spread os ts (map (λ (a : Datagram). length a.packet) datagrams) ≡ some (os', ts')
      → Forwarded st os ts datagrams os' ts'
  forward-spread st os ts [] os' ts' h e = record {
    st' = st;
    sends = [];
    runs = let same : os ≡ os' = cc in ap (λ (l : List Output). ok (idle st l, [])) same;
    in_order = refl;
    charged = cc;
  }
  forward-spread st os ts (a ∷ datagrams) os'' ts'' (h, hs) e =
      elim (Option-cases (dispatch os (length a.packet))) [
        | inl q ↦ ground (arith, rw (spread, q) at e)
        | inr ((i, os'), q) ↦
            let rest : spread os' (add_at ts i (length a.packet))
                  (map (λ (a : Datagram). length a.packet) datagrams)
                ≡ some (os'', ts'') =
              rw (spread, q) at e in
            let f =
              forward-spread
                (record st { queue = retx_queue rtp cfg.retx_buffer st.queue a.packet a.date }) os'
                (add_at ts i (length a.packet)) datagrams os'' ts'' hs rest in
            record {
              st' = f.st';
              sends = (i, a.packet) ∷ f.sends;
              runs =
                  rw (input_ready-dispatch st a.packet a.date a.header i os os' h.0 h.1 q, f.runs)
                    refl;
              in_order = ap (λ l. a.packet ∷ l) f.in_order;
              charged = f.charged;
            }
      ]

  sizes-small :
      (datagrams : List Datagram)
      → All IsWhole datagrams
      → All
          (λ size. size ≤ cfg.payload_size + cfg.rtp_header_size)
          (map (λ (a : Datagram). length a.packet) datagrams)
  sizes-small [] h = tt
  sizes-small (a ∷ datagrams) (h, hs) = (h.1, sizes-small datagrams hs)

  -- Over UDP and without -U, -w and -o, any number of packets, none empty or above the size that
  -- is read, at dates in any order, through outputs of positive weight that start with empty
  -- accounts, while every send succeeds: each packet is sent once, unchanged, in the order of
  -- arrival, and the bytes sent to two outputs, measured by their weights, differ by at most the
  -- size that is read and 1, however long the run is.
  pub forward_fair :
      (st : State) (o : Output) (os : List Output) (datagrams : List Datagram)
      → cfg.payload_size + cfg.rtp_header_size < u32
      → IsFresh (o ∷ os)
      → All IsWhole datagrams
      → (st' : State) × (sends : List (ℕ × Bytes)) × (forward (idle st (o ∷ os)) datagrams
          ≡ ok (st', sends))
        × (map (λ (s : ℕ × Bytes). s.1) sends ≡ map (λ (a : Datagram). a.packet) datagrams)
        × ((j k wj wk tj tk : ℕ)
            → get_elem? (weights (o ∷ os)) j ≡ some wj
            → get_elem? (weights (o ∷ os)) k ≡ some wk
            → get_elem? (totals sends (zeros (o ∷ os))) j ≡ some tj
            → get_elem? (totals sends (zeros (o ∷ os))) k ≡ some tk
            → tj * wk ≤ tk * wj + (cfg.payload_size + cfg.rtp_header_size + 1) * (wj * wk))
  forward_fair st o os datagrams small fresh h =
      let m : ℕ = cfg.payload_size + cfg.rtp_header_size in
      let (os', ts, e, fair) = spread_fair m o os _ small fresh (sizes-small datagrams h) in
      let f = forward-spread st (o ∷ os) (zeros (o ∷ os)) datagrams os' ts h e in
      (idle f.st' os', f.sends, f.runs, f.in_order, rw f.charged fair)
