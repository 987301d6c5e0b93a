-- ===== src/Multicat/Loop.antt =====
-- multicat.c, one turn of the loop of `main`, and `GetPCR`.
use multicat_supervisor.Base.{
  joined, ℕ, zero, suc, ◌+◌, ◌-◌, ◌*◌, ◌/◌, ◌%◌, Bool, not, ◌&&◌, ◌||◌, Option, none, some, List,
  [], ◌∷◌, ◌++◌, ltb, leb, ◌==◌, if◌then◌else◌, length, take, drop, Bytes, add64, sub64, u16, u32,
  u64,
}
use multicat_supervisor.Io.{Outcome, ok, undefined, ◌>>=◌}
use multicat_supervisor.Rtp.{Rtp}
use multicat_supervisor.Ingests.{Ts}
use multicat_supervisor.Eit.{Info, Static}
use multicat_supervisor.Eit.Packets.{Psi, ts_size, packets_in, add_eit}

-- The options. The sizes are those of a payload and of an RTP header; `pad` is what `ts_pad` writes.
pub record Settings : Type 0 where
  pub input_udp : Bool
  pub output_udp : Bool
  pub asked_payload_size : ℕ
  pub rtp_header_size : ℕ
  pub pcr_pid : ℕ
  pub overwrite_ssrc : Bool
  pub ssrc : Bytes
  pub duration : ℕ
  pub pad : Bytes

-- The variables of the loop: what is left over for the next turn, how much is read, and the static
-- variables; `nb_chunks` is `none` when it is negative.
pub record State : Type 0 where
  pub shift : Bytes
  pub read_size : ℕ
  pub rtp_seqnum : ℕ
  pub pcr : ℕ
  pub pcr_stc : ℕ
  pub nb_chunks : Option ℕ
  pub info : Info
  pub static : Static

-- What comes from outside in a turn: what `pf_Read` gives, `i_stc` and `i_first_stc` behind it, whether
-- `pf_Delay` lets it through, the time, and the tables of the shared memory if they are updated.
pub record Arrival : Type 0 where
  pub bytes : Bytes
  pub stc : ℕ
  pub first_stc : ℕ
  pub in_time : Bool
  pub now : ℕ
  pub shared : Option Info

-- The loop goes on, with what was written, if anything; or it ends.
pub data Turn : Type 0 where
  goes_on : State → Option Bytes → Turn
  ends : State → Option Bytes → Turn

-- RTP_HEADER_SIZE
abbrev pub rtp_header_length : ℕ
rtp_header_length = 12

abbrev pub zeros : ℕ → Bytes
zeros zero = []
zeros (suc n) = 0 ∷ zeros n

-- The padding to the asked size, by that many packets.
unfoldable pub pads : ℕ → Bytes → Bytes
pads zero pad = []
pads (suc n) pad = pad ++ pads n pad

module _ (rtp : Rtp) (ts : Ts) (psi : Psi) (cfg : Settings) where
  abbrev pub max_read_size : ℕ
  max_read_size = cfg.asked_payload_size + (if cfg.input_udp then 0 else cfg.rtp_header_size)

  carries_pcr : Bytes → Bool
  carries_pcr p =
      (ts.get_pid p == cfg.pcr_pid || cfg.pcr_pid == 8192)
      && ts.has_adaptation p
      && not (ts.get_adaptation p == 0)
      && ts.has_pcr p

  -- `GetPCR` on the whole packets of a payload that came at the date `stc`.
  unfoldable pub get_pcr : ℕ → List Bytes → State → State
  unfolding carries_pcr
  get_pcr stc [] st = st
  get_pcr stc (p ∷ ps) st =
      let found = record st { pcr = (ts.get_pcr p * 300 + ts.get_pcrext p) % u64; pcr_stc = stc } in
      if not (ts.validate p) then st else get_pcr stc ps (if carries_pcr p then found else st)

  pcr_of : ℕ → Bytes → State → State
  pcr_of stc payload st = get_pcr stc (packets_in psi (length payload / ts_size) payload) st

  -- What add_eit leaves for this turn, and for the next one.
  unfoldable pub merge_eit : Bytes → Option (List Bytes) → State → Outcome (Bytes × State)
  merge_eit buffer none st = ok (buffer, st)
  merge_eit buffer (some packets) st =
      let made = joined packets in
      let over = drop (length buffer) made in
      if ltb (length buffer) (length made)
      then (if ltb st.read_size (length over)
          then undefined
          else ok (
            take (length buffer) made,
            record st { shift = over; read_size = st.read_size - length over },
          ))
      else ok (made ++ zeros (length buffer - length made), st)

  -- The payload in whole packets, padded to the asked size.
  unfoldable pub fit_payload : Bytes → Bytes
  fit_payload payload =
      let whole = take (length payload / ts_size * ts_size) payload in
      whole ++ pads ((cfg.asked_payload_size - length whole) / ts_size) cfg.pad

  timestamp : ℕ → State → ℕ
  timestamp stc st = add64 st.pcr (sub64 stc st.pcr_stc) / 300 % u32

  -- The header of a payload that comes without one.
  unfoldable pub new_header : ℕ → Bytes → State → Bytes × State
  unfolding pcr_of timestamp
  new_header stc payload st =
      let set =
        rtp.set_seqnum (rtp.set_type (rtp.set_hdr (zeros rtp_header_length ++ payload)) rtp.type_ts)
          st.rtp_seqnum in
      let next = record st { rtp_seqnum = (st.rtp_seqnum + 1) % u16 } in
      let clocked = pcr_of stc payload next in
      if cfg.pcr_pid == 0
      then (rtp.set_ssrc (rtp.set_timestamp set (stc / 300 % u32)) cfg.ssrc, next)
      else (rtp.set_ssrc (rtp.set_timestamp set (timestamp stc clocked)) cfg.ssrc, clocked)

  -- The header that came with the payload.
  unfoldable pub old_header : ℕ → Bytes → Bytes → State → Bytes × State
  unfolding pcr_of timestamp
  old_header stc packet payload st =
      let clocked = if rtp.get_type packet == rtp.type_ts then pcr_of stc payload st else st in
      let stamped : Bytes × State =
        if cfg.pcr_pid == 0
        then (packet, st)
        else (rtp.set_timestamp packet (timestamp stc clocked), clocked) in
      (if cfg.overwrite_ssrc then rtp.set_ssrc stamped.0 cfg.ssrc else stamped.0, stamped.1)

  -- What is written of a buffer.
  unfoldable pub prepare : ℕ → Bytes → State → Bytes × State
  unfolding fit_payload
  prepare stc buffer st =
      let payload = if cfg.input_udp then buffer else rtp.payload buffer in
      let header = take (length buffer - length payload) buffer in
      let fit = fit_payload payload in
      if cfg.output_udp
      then (fit, st)
      else if cfg.input_udp
      then new_header stc fit st
      else old_header stc (header ++ fit) fit st

  -- `i_nb_chunks` at the end of a turn.
  unfoldable pub count_chunk : State → Option Bytes → Turn
  count_chunk st written = elim st.nb_chunks [
    | none ↦ goes_on st written
    | some n ↦
        if leb n 1
        then ends (record st { nb_chunks = some 0 }) written
        else goes_on (record st { nb_chunks = some (n - 1) }) written
  ]

  -- One turn of the loop.
  unfoldable pub turn : Arrival → State → Outcome Turn
  turn a st =
      let buffer = st.shift ++ a.bytes in
      let unshifted =
        if length st.shift == 0 then st else record st { shift = []; read_size = max_read_size } in
      if not (cfg.duration == 0) && ltb (add64 a.first_stc cfg.duration) a.stc
      then ok (ends unshifted none)
      else if length buffer == 0
      then ok (goes_on unshifted none)
      else if not a.in_time
      then ok (count_chunk unshifted none)
      else (do
        (made, info, static) ← add_eit psi a.now a.shared buffer unshifted.info unshifted.static
        (merged, st') ← merge_eit buffer made (record unshifted { info = info; static = static })
        let (written, st'') = prepare a.stc merged st'
        ok (count_chunk st'' (some written)))
