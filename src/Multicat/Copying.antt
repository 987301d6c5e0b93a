-- ===== src/Multicat/Copying.antt =====
-- multicat.c: the loop of `main` over what arrives in turn, where nothing has to be replaced.
use multicat_supervisor.Base.{
  ℕ, zero, suc, ◌+◌, ◌-◌, ◌*◌, ◌/◌, ◌%◌, ◌≤◌, ◌<◌, ◌≡◌, refl, ap, true, false, Option, none, some,
  List, [], ◌∷◌, ◌++◌, joined, map, arith, leb, ◌==◌, length, length-append, take, All, Bytes,
}
use multicat_supervisor.Io.{Outcome, ok, ◌>>=◌}
use multicat_supervisor.Rtp.{Rtp}
use multicat_supervisor.Ingests.{Ts}
use multicat_supervisor.Eit.Packets.{Psi, ts_size, packets_in, has_eit, latest, add_eit}
use multicat_supervisor.Multicat.Loop.{
  Settings, State, Arrival, Turn, goes_on, ends, pads, merge_eit, fit_payload, prepare, count_chunk,
  turn,
}

abbrev pub with_written : Option Bytes → List Bytes → List Bytes
with_written none ws = ws
with_written (some w) ws = w ∷ ws

-- How many of them -n lets through; one is always written.
abbrev pub limit {ℓ} : {A : Type ℓ} → Option ℕ → List A → List A
limit none xs = xs
limit (some zero) xs = take 1 xs
limit (some (suc n)) xs = take (suc n) xs

length-pads : (n : ℕ) (pad : Bytes) → length pad ≡ ts_size → length (pads n pad) ≡ n * ts_size
unfolding pads
length-pads zero pad h = refl
length-pads (suc n) pad h = omega (arith, length-append pad (pads n pad), length-pads n pad h)

length-take : (n : ℕ) (xs : Bytes) → n ≤ length xs → length (take n xs) ≡ n
length-take zero xs h = refl
length-take (suc n) [] h = absurd (omega arith)
length-take (suc n) (x ∷ xs) h = ap suc (length-take n xs (omega arith))

abbrev pub copies : ℕ → Bytes → List Bytes
copies zero pad = []
copies (suc n) pad = pad ∷ copies n pad

pads-copies : (n : ℕ) (pad : Bytes) → pads n pad ≡ joined (copies n pad)
unfolding pads
pads-copies zero pad = refl
pads-copies (suc n) pad = ap (λ l. pad ++ l) (pads-copies n pad)

-- What is written of a payload: all whole packets that it begins with, and padding packets behind
-- them, so many that no other one fits in the asked size, and that it is not passed if the payload
-- does not pass it.
pub record IsPadded (asked : ℕ) (pad payload written : Bytes) : Type 0 where
  pub packets : ℕ
  pub padding : ℕ
  pub whole : written ≡ take (packets * ts_size) payload ++ joined (copies padding pad)
  pub there : packets * ts_size ≤ length payload
  pub all : length payload < (packets + 1) * ts_size
  pub filled : asked < length written + ts_size
  pub within : length payload ≤ asked → length written ≤ asked

-- The chunks of some arrivals, in turn.
abbrev pub ArePadded : ℕ → Bytes → List Arrival → List Bytes → Type 0
ArePadded asked pad [] [] = Unit {0}
ArePadded asked pad [] (w ∷ ws) = ⊥
ArePadded asked pad (a ∷ arrivals) [] = ⊥
ArePadded asked pad (a ∷ arrivals) (w ∷ ws) =
    IsPadded asked pad a.bytes w × ArePadded asked pad arrivals ws

-- Nothing is left over, and that many chunks are asked for.
abbrev pub ready : Option ℕ → State → State
ready n st = record st { shift = []; nb_chunks = n }

module _ (rtp : Rtp) (ts : Ts) (psi : Psi) (cfg : Settings) where
  abbrev pub after_turn : Turn → (State → Outcome (List Bytes)) → Outcome (List Bytes)
  after_turn (ends st w) next = ok (with_written w [])
  after_turn (goes_on st w) next = next st >>= λ ws. ok (with_written w ws)

  -- The loop: what it writes in turn.
  unfoldable pub run : List Arrival → State → Outcome (List Bytes)
  run [] st = ok []
  run (a ∷ later) st = turn rtp ts psi cfg a st >>= λ t. after_turn t (run later)

  -- Something that arrives in time and holds no table.
  abbrev pub IsPlain : Arrival → Type 0
  IsPlain a =
      (0 < length a.bytes)
      × (a.in_time ≡ true)
      × (has_eit psi (packets_in psi (length a.bytes / ts_size) a.bytes) ≡ false)

  -- With a padding of one packet, what is written of a payload is whole packets of 188 bytes, so
  -- many that no other one fits in the asked size, and at most the asked size if the payload is.
  pub length-fit_payload :
      (payload : Bytes)
      → length cfg.pad ≡ ts_size
      → let n = length (fit_payload rtp ts psi cfg payload) in
        (n % ts_size ≡ 0)
        × (cfg.asked_payload_size < n + ts_size)
        × (length payload ≤ cfg.asked_payload_size → n ≤ cfg.asked_payload_size)
  unfolding fit_payload
  length-fit_payload payload h =
      let l : length payload / ts_size * ts_size ≤ length payload = omega arith in
      let k = (cfg.asked_payload_size - length payload / ts_size * ts_size) / ts_size in
      rw (length-append, length-take _ payload l, length-pads k cfg.pad h) (omega arith)

  fit_payload-IsPadded :
      (payload : Bytes)
      → length cfg.pad ≡ ts_size
      → IsPadded cfg.asked_payload_size cfg.pad payload (fit_payload rtp ts psi cfg payload)
  unfolding fit_payload
  fit_payload-IsPadded payload h =
      let (w, f, l) = length-fit_payload payload h in
      record {
        packets = length payload / ts_size;
        padding =
            (cfg.asked_payload_size - length (take (length payload / ts_size * ts_size) payload))
            / ts_size;
        whole =
            ap (λ x. take (length payload / ts_size * ts_size) payload ++ x)
              (pads-copies _ cfg.pad);
        there = omega arith;
        all = omega arith;
        filled = f;
        within = l;
      }

  fit_payload-ArePadded :
      length cfg.pad ≡ ts_size
      → (arrivals : List Arrival)
      → ArePadded cfg.asked_payload_size cfg.pad arrivals
          (map (λ (a : Arrival). fit_payload rtp ts psi cfg a.bytes) arrivals)
  fit_payload-ArePadded h [] = tt
  fit_payload-ArePadded h (a ∷ arrivals) =
      (fit_payload-IsPadded a.bytes h, fit_payload-ArePadded h arrivals)

  module _ (d : cfg.duration ≡ 0) (i : cfg.input_udp ≡ true) (o : cfg.output_udp ≡ true) where
    turn_plain :
        (a : Arrival) (st : State) (n : Option ℕ)
        → IsPlain a
        → turn rtp ts psi cfg a (ready n st)
          ≡ ok (
              count_chunk rtp ts psi cfg
                (ready n (record st { info = latest psi a.shared st.info }))
                (some (fit_payload rtp ts psi cfg a.bytes)))
    unfolding turn add_eit merge_eit prepare
    turn_plain a st n (l, t, e) =
        let full : (length a.bytes == 0) ≡ false = ground arith in rw (d, full, t, e, i, o) refl

    run-fit_payload :
        (arrivals : List Arrival) (st : State) (n : Option ℕ)
        → All IsPlain arrivals
        → run arrivals (ready n st)
          ≡ ok (map (λ (a : Arrival). fit_payload rtp ts psi cfg a.bytes) (limit n arrivals))
    unfolding run count_chunk
    run-fit_payload [] st none h = refl
    run-fit_payload [] st (some zero) h = refl
    run-fit_payload [] st (some (suc n)) h = refl
    run-fit_payload (a ∷ later) st none (h, hs) =
        rw
          (
            turn_plain a st none h,
            run-fit_payload later (record st { info = latest psi a.shared st.info }) none hs,
          )
          refl
    run-fit_payload (a ∷ later) st (some zero) (h, hs) = rw (turn_plain a st (some zero) h) refl
    run-fit_payload (a ∷ later) st (some (suc zero)) (h, hs) = rw (turn_plain a st (some 1) h) refl
    run-fit_payload (a ∷ later) st (some (suc (suc n))) (h, hs) =
        let more : leb (suc (suc n)) 1 ≡ false = ground arith in
        let less : suc (suc n) - 1 ≡ suc n = omega arith in
        rw
          (
            turn_plain a st (some (suc (suc n))) h,
            more,
            less,
            run-fit_payload later (record st { info = latest psi a.shared st.info }) (some (suc n))
                hs,
          )
          refl

    -- Where nothing is left over, the option -d is not given, neither side has RTP headers, the
    -- padding is one packet of 188 bytes, and everything that arrives is not empty, in time and
    -- without EIT packets, the loop of main writes one chunk for the payload of each arrival in
    -- turn: all its whole packets, and then the padding as often as it fits in the asked size,
    -- which no chunk passes unless the payload does; with -n only for so many of the first
    -- arrivals, then it ends, and one is always written.
    pub run-limit :
        (arrivals : List Arrival) (st : State) (n : Option ℕ)
        → length cfg.pad ≡ ts_size
        → All IsPlain arrivals
        → (ws : List Bytes) × (run arrivals (ready n st) ≡ ok ws)
          × ArePadded cfg.asked_payload_size cfg.pad (limit n arrivals) ws
    run-limit arrivals st n h plain = (
      map (λ (a : Arrival). fit_payload rtp ts psi cfg a.bytes) (limit n arrivals),
      run-fit_payload arrivals st n plain,
      fit_payload-ArePadded h (limit n arrivals),
    )
