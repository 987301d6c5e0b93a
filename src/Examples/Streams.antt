-- ===== src/Examples/Streams.antt =====
-- aggregartp.c and reordertp.c at concrete inputs.
use mathlib.Core.List.{Perm}
use multicat_supervisor.Base.{
  ℕ, ◌+◌, ◌*◌, ◌≤◌, ◌≡◌, ◌≢◌, refl, inl, arith, true, false, none, some, List, [], ◌∷◌, map,
  get_elem?, Bytes,
}
use multicat_supervisor.Io.{Sent, sent, ok}
use multicat_supervisor.Stc.{RetxHeader}
use multicat_supervisor.Examples.RtpBytes.{example_rtp}
use multicat_supervisor.Aggregartp
use multicat_supervisor.Aggregartp.{Output, retx_queue}
use multicat_supervisor.Aggregartp.Spread.{zeros, weights}
use multicat_supervisor.Aggregartp.Forwarding.{Datagram, totals, forward, idle, forward_fair}
use multicat_supervisor.Aggregartp.Input as Input
use multicat_supervisor.Reordertp.{
  Block, Config, InputClock, State, clock_init, insert, packet_recv, packet_send,
}
use multicat_supervisor.Reordertp.Order.{Ascends, insert_sorted}
use multicat_supervisor.Reordertp.Retx as Retx
use multicat_supervisor.Reordertp.Retx.{retx_check, compare_blocks}
use multicat_supervisor.Reordertp.Requests.{AskOk, compare_blocks-AskOk}
use multicat_supervisor.Reordertp.Links.{Valid}
use multicat_supervisor.Reordertp.Passes.{PassOk, retx_check-PassOk}
use multicat_supervisor.Reordertp.Round.{send_due}
use multicat_supervisor.Reordertp.Round.Due.{DueOk, send_due-DueOk}
use multicat_supervisor.Reordertp.Invariant.{SendOk, packet_recv-Valid, packet_send-SendOk}

abbrev output : ℕ → ℕ → Output
output fd weight = record { fd = fd; weight = weight; weighted_size = 0; remainder = 0 }

abbrev two_outputs : List Output
two_outputs = output 4 1 ∷ output 5 2 ∷ []

-- Packets with the sequence numbers 7 and 8.
abbrev seven : Bytes
seven = 128 ∷ 33 ∷ 0 ∷ 7 ∷ 0 ∷ 0 ∷ 0 ∷ 1 ∷ 0 ∷ 0 ∷ 0 ∷ 0 ∷ []

abbrev eight : Bytes
eight = 128 ∷ 33 ∷ 0 ∷ 8 ∷ 0 ∷ 0 ∷ 0 ∷ 2 ∷ 0 ∷ 0 ∷ 0 ∷ 0 ∷ []

abbrev kept : ℕ → Bytes → Aggregartp.Block
kept date packet = record { packet = packet; date = date }

abbrev agg_config : Input.Config
agg_config = record {
  udp = false;
  payload_size = 1316;
  rtp_header_size = 12;
  input_tcp = false;
  overwrite_timestamps = false;
  overwrite_ssrc = false;
  ssrc = [];
  retx_buffer = 13500000;
  retx_fd = false;
  retx_tcp = false;
}

abbrev agg_state : Input.State
agg_state = record {
  outputs = two_outputs;
  queue = kept 40 seven ∷ kept 60 eight ∷ [];
  input_block = none;
  retx_block = some [];
  rtp_seqnum = 0;
}

abbrev buffer : RetxHeader
buffer = record { b0 = 0; b1 = 0; b2 = 0; b3 = 0; b4 = 0; b5 = 0; b6 = 0; b7 = 0 }

abbrev no_error : Bytes → Sent
no_error p = sent

abbrev datagram : Bytes → ℕ → Datagram
datagram packet date = record { packet = packet; date = date; header = [] }

abbrev datagrams : List Datagram
datagrams = datagram seven 2700000 ∷ datagram eight 5400000 ∷ datagram seven 8100000 ∷ []

forward_fair_example :
    (st' : Input.State) × (sends : List (ℕ × Bytes)) × (forward example_rtp agg_config
        (idle example_rtp agg_config agg_state two_outputs)
        datagrams
      ≡ ok (st', sends))
    × (map (λ (s : ℕ × Bytes). s.1) sends ≡ map (λ (a : Datagram). a.packet) datagrams)
    × ((j k wj wk tj tk : ℕ)
        → get_elem? (weights two_outputs) j ≡ some wj
        → get_elem? (weights two_outputs) k ≡ some wk
        → get_elem? (totals sends (zeros two_outputs)) j ≡ some tj
        → get_elem? (totals sends (zeros two_outputs)) k ≡ some tk
        → tj * wk
          ≤ tk * wj + (agg_config.payload_size + agg_config.rtp_header_size + 1) * (wj * wk))
forward_fair_example =
    forward_fair example_rtp agg_config agg_state (output 4 1) (output 5 2 ∷ []) datagrams
      (omega arith) (omega arith) (omega arith)

abbrev config : Config
config = record {
  buffer_length = 10800000;
  cr_max_gap = 8100000;
  cr_max_jitter = 4050000;
  cr_average = 500;
  retx_delay = 5400000;
  retx_fd = none;
  max_retx_burst = 15;
  udp = true;
}

-- Ten packets have been passed over.
abbrev clock_lost : InputClock
clock_lost = record clock_init { space_packets = 10 }

abbrev block : ℕ → ℕ → Block
block addr seqnum = record { addr = addr; packet = seven; date = 100; seqnum = seqnum }

-- 65534, 65535 and 1 are in the list, and 0 comes late.
abbrev blocks : List Block
blocks = block 16 65534 ∷ block 32 65535 ∷ block 48 1 ∷ []

insert_sorted_example :
    Ascends 65534 (insert (block 64 0) blocks)
    × Perm (insert (block 64 0) blocks) (block 64 0 ∷ blocks)
insert_sorted_example =
    insert_sorted 65534 (block 64 0) (omega arith) (omega arith) blocks (omega arith)

-- A pass that stands on the first block, another at NULL, and a duplicate of the first block.
abbrev state : State
state = record {
  queue = block 16 65534 ∷ block 32 65534 ∷ block 48 1 ∷ [];
  cursors = some 16 ∷ none ∷ [];
  clock = clock_init;
  last_timestamp = 4294967296;
  last_retx_input = 0;
}

state-Valid : Valid state
state-Valid = (omega arith, (inl refl, (tt, tt)))

abbrev inputs : List Retx.Input
inputs = record { fd = 3; peer = none } ∷ record { fd = 4; peer = some [] } ∷ []

retx_check-PassOk_example :
    PassOk inputs config (omega arith) state (retx_check inputs config state 50)
retx_check-PassOk_example =
    retx_check-PassOk inputs config (omega arith) state 50 (state-Valid, omega arith)

packet_recv-Valid_example :
    (st' : State) × (packet_recv example_rtp config state 64 eight 150 ≡ ok st') × Valid st'
packet_recv-Valid_example =
    packet_recv-Valid example_rtp config state 64 eight 150 (λ e. absurd cc) state-Valid
      (omega arith)

state-NotEmpty : state.queue ≢ []
state-NotEmpty e = cc

packet_send-SendOk_example :
    SendOk example_rtp config state (packet_send example_rtp config state sent)
packet_send-SendOk_example =
    packet_send-SendOk example_rtp config state sent state-Valid state-NotEmpty

-- The clock goes on by 10 ticks at each reading.
send_due-DueOk_example :
    DueOk example_rtp config
      (λ n. 10 * n)
      (λ n. sent)
      0
      state
      (send_due example_rtp config 4 (λ n. 10 * n) (λ n. sent) 0 state)
send_due-DueOk_example =
    send_due-DueOk example_rtp config (λ n. 10 * n) (λ n. sent) state state-Valid

-- 65535 and 0 are missing between 65534 and 1.
compare_blocks-AskOk_example :
    AskOk config
      (block 16 65534)
      (block 48 1)
      (compare_blocks inputs config (block 16 65534) (block 48 1) state)
compare_blocks-AskOk_example =
    compare_blocks-AskOk inputs config (omega arith) state (block 16 65534) (block 48 1)
      (omega arith) (omega arith) (omega arith) (omega arith)
