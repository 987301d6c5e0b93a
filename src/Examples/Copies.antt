-- ===== src/Examples/Copies.antt =====
-- The loop of multicat at concrete arrivals.
use multicat_supervisor.Base.{
  joined, ℕ, ◌<◌, ◌≡◌, refl, true, false, none, some, List, [], ◌∷◌, ◌++◌, arith, length, All,
  Bytes,
}
use multicat_supervisor.Io.{ok}
use multicat_supervisor.Ingests.{Ts}
use multicat_supervisor.Examples.RtpBytes.{example_rtp}
use multicat_supervisor.Examples.Tables.{psi, info, static, zeros}
use multicat_supervisor.Eit.Packets.{has_eit, packets_in}
use multicat_supervisor.Multicat.Loop.{Settings, State, Arrival}
use multicat_supervisor.Multicat.Copying.{ArePadded, run, ready, run-limit}
use multicat_supervisor.Multicat.Sockets.{Source}
use multicat_supervisor.Multicat.Reassembly.{tcp_reads, IsChunk, tcp_reads-joined}

abbrev ts : Ts
ts = record {
  get_pid = λ p. 0;
  validate = λ p. true;
  has_adaptation = λ p. false;
  get_adaptation = λ p. 0;
  has_pcr = λ p. false;
  get_pcr = λ p. 0;
  get_pcrext = λ p. 0;
}

abbrev settings : Settings
settings = record {
  input_udp = true;
  output_udp = true;
  asked_payload_size = 400;
  rtp_header_size = 12;
  pcr_pid = 0;
  overwrite_ssrc = false;
  ssrc = [];
  duration = 0;
  pad = zeros 188;
}

abbrev arrival : ℕ → Arrival
arrival first = record {
  bytes = first ∷ zeros 199;
  stc = 1;
  first_stc = 1;
  in_time = true;
  now = 0;
  shared = none;
}

abbrev state : State
state = record {
  shift = [];
  read_size = 400;
  rtp_seqnum = 0;
  pcr = 0;
  pcr_stc = 0;
  nb_chunks = none;
  info = info;
  static = static;
}

-- 200 bytes are a packet and a part of one, which is cut off; a packet is padded.
run-limit_example :
    (ws : List Bytes) × (run example_rtp ts psi settings
        (arrival 1 ∷ arrival 2 ∷ arrival 3 ∷ [])
        (ready (some 2) state)
      ≡ ok ws)
    × ArePadded settings.asked_payload_size settings.pad (arrival 1 ∷ arrival 2 ∷ []) ws
unfolding has_eit packets_in
run-limit_example =
    run-limit example_rtp ts psi settings refl refl refl (arrival 1 ∷ arrival 2 ∷ arrival 3 ∷ [])
      state (some 2) refl
      ((omega arith, refl, refl), ((omega arith, refl, refl), ((omega arith, refl, refl), tt)))

abbrev source : Source
source = record { stc = 0; first_stc = 0; nb_skips = 0; die = false; tcp_buffer = [] }

-- A chunk of three bytes out of two fragments, and a byte of the next one.
tcp_reads-joined_example :
    let fs : List Bytes = (1 ∷ []) ∷ (2 ∷ 3 ∷ []) ∷ (4 ∷ []) ∷ [] in
    let (outs, st') = tcp_reads 3 fs source in
    (joined outs ++ st'.tcp_buffer ≡ joined fs) × All (IsChunk 3) outs × (length st'.tcp_buffer < 3)
tcp_reads-joined_example =
    tcp_reads-joined 3 ((1 ∷ []) ∷ (2 ∷ 3 ∷ []) ∷ (4 ∷ []) ∷ []) source (omega arith) refl
      (omega arith)
