-- ===== src/Reordertp.antt =====
-- reordertp.c: RTP packets from several inputs are put in order, dated, and sent on; missing ones are
-- asked for. The doubly linked list from `p_first` to `p_last` is the list of its blocks: `p_next`
-- is the block behind, `p_prev` the block before. A block is known by its address.
pub mod Timestamps
pub mod Order
pub mod Retx
pub mod Links
pub mod Safety
pub mod Passes
pub mod Invariant
pub mod Round
pub mod Requests
use multicat_supervisor.Base.{
  u32, ℕ, ◌+◌, ◌-◌, ◌*◌, ◌/◌, ◌%◌, Bool, true, false, not, ◌||◌, Option, none, some, List, [], ◌∷◌,
  ◌++◌, map, ltb, leb, ◌==◌, if◌then◌else◌, Bytes, add64, sub64, u64, i64_min,
}
use multicat_supervisor.Io.{
  ◌>>=◌, Sent, sent, transient, broken, Outcome, ok, exit_failure, undefined,
}
use multicat_supervisor.Rtp.{Rtp}

pub record Block : Type 0 where
  pub addr : ℕ
  pub packet : Bytes
  pub date : ℕ
  pub seqnum : ℕ

-- `input_clock_t`; `delta_cr` is the pattern of an `int64_t`.
pub record InputClock : Type 0 where
  pub delta_cr : ℕ
  pub cr_ref : ℕ
  pub wall_ref : ℕ
  pub last_cr : ℕ
  pub space_packets : ℕ

-- The options of the command line, in ticks of 27 MHz. `i_retx_fd` is given by -X.
pub record Config : Type 0 where
  pub buffer_length : ℕ
  pub cr_max_gap : ℕ
  pub cr_max_jitter : ℕ
  pub cr_average : ℕ
  pub retx_delay : ℕ
  pub retx_fd : Option ℕ
  pub max_retx_burst : ℕ
  pub udp : Bool

-- `pp_retx` holds for each pass the last block that it has seen; `none` is NULL.
pub record State : Type 0 where
  pub queue : List Block
  pub cursors : List (Option ℕ)
  pub clock : InputClock
  pub last_timestamp : ℕ
  pub last_retx_input : ℕ

-- a < b for patterns of `int64_t`
abbrev pub lt_i64 : ℕ → ℕ → Bool
lt_i64 a b = ltb ((a + i64_min) % u64) ((b + i64_min) % u64)

abbrev pub neg64 : ℕ → ℕ
neg64 a = sub64 0 a

-- Division of an `int64_t` by a positive number rounds towards zero.
abbrev pub div_i64 : ℕ → ℕ → ℕ
div_i64 a n = if leb i64_min a then neg64 (neg64 a / n) else a / n

abbrev pub clock_init : InputClock
clock_init = record { delta_cr = 0; cr_ref = 0; wall_ref = 0; last_cr = 0; space_packets = 0 }

-- `clock_ToWall`
unfoldable pub clock_to_wall : InputClock → ℕ → ℕ
clock_to_wall k clock = add64 k.wall_ref (sub64 (add64 clock k.delta_cr) k.cr_ref)

-- Both resets of `clock_NewRef`.
abbrev pub restart : ℕ → ℕ → InputClock
restart clock wall = record clock_init { cr_ref = clock; last_cr = clock; wall_ref = wall }

-- The tests of `clock_NewRef`: further off than the limit, on either side.
abbrev pub beyond : ℕ → ℕ → Bool
beyond limit diff = lt_i64 limit diff || lt_i64 diff (neg64 limit)

-- CR_MAX_SPACE_PACKETS
abbrev pub max_space_packets : ℕ
max_space_packets = 10

-- An `int` as an `int64_t`.
abbrev pub widened : ℕ → ℕ
widened n = if ltb n 2147483648 then n else n + (u64 - u32)

-- Division of an `int64_t` by an `int` that is not 0.
abbrev pub div_int : ℕ → ℕ → ℕ
div_int a n = if ltb n 2147483648 then div_i64 a n else neg64 (div_i64 a (u32 - n))

-- The smoothed difference; `i_cr_average`, an `int` that the option -r sets to any number, divides it.
unfoldable pub smoothed : Config → ℕ → ℕ → ℕ
smoothed cfg delta diff =
    div_int (add64 (delta * sub64 (widened cfg.cr_average) 1 % u64) diff) cfg.cr_average

clock_jitter : Config → InputClock → ℕ → ℕ → ℕ → Outcome InputClock
unfolding smoothed
clock_jitter cfg k clock wall diff =
    if beyond cfg.cr_max_jitter (sub64 diff k.delta_cr)
    then (if ltb max_space_packets (k.space_packets + 1)
        then ok (restart clock wall)
        else ok (record k { space_packets = k.space_packets + 1 }))
    else if cfg.cr_average == 0
    then undefined
    else ok
        (record k { space_packets = 0; last_cr = clock; delta_cr = smoothed cfg k.delta_cr diff })

-- `clock_NewRef`
unfoldable pub clock_new_ref : Config → InputClock → ℕ → ℕ → Outcome InputClock
unfolding clock_jitter
clock_new_ref cfg k clock wall =
    if beyond cfg.cr_max_gap (sub64 clock k.last_cr)
    then ok (restart clock wall)
    else clock_jitter cfg k clock wall (sub64 (sub64 (add64 k.cr_ref wall) k.wall_ref) clock)

-- `BuildTimestamp`: the 64-bit timestamp that goes on from the last one.
unfoldable pub build_timestamp : ℕ → ℕ → ℕ
build_timestamp last timestamp =
    add64 last (sub64 ((6442450944 + timestamp - last % 4294967296) % 4294967296) 2147483648)

-- The test of `PacketRecv` whether a block of the list comes behind the new one.
abbrev pub is_ahead : Block → Block → Bool
is_ahead prev block = ltb 32768 ((98304 + prev.seqnum - block.seqnum) % 65536)

-- The search back from `p_last`: the new block goes behind the last block that is not ahead of it.
-- `none` is the end of the search at NULL.
unfoldable pub place : Block → List Block → Option (List Block)
place block [] = none
place block (b ∷ bs) = elim (place block bs) [
  | some bs' ↦ some (b ∷ bs')
  | none ↦ if is_ahead b block then none else some (b ∷ block ∷ bs)
]

unfoldable pub insert : Block → List Block → List Block
insert block bs = elim (place block bs) [ some bs' ↦ bs' | none ↦ block ∷ bs ]

-- `RetxPacketSent`
abbrev pub forget : ℕ → Option ℕ → Option ℕ
forget addr none = none
forget addr (some a) = if a == addr then none else some a

module _ (rtp : Rtp) (cfg : Config) where
  -- The clock after a packet, which a date of 0 leaves alone.
  abbrev pub clock_after : InputClock → ℕ → ℕ → Outcome InputClock
  clock_after k scaled date = if date == 0 then ok k else clock_new_ref cfg k scaled date

  -- `i_scaled_timestamp`: 90 kHz for a transport stream, else milliseconds.
  abbrev pub scaled_timestamp : Bytes → ℕ → ℕ
  scaled_timestamp packet timestamp =
      timestamp * (if rtp.get_type packet == rtp.type_ts then 300 else 27000) % u64

  -- The block in the list, with the clock as it is.
  unfoldable pub enlisted : State → ℕ → Bytes → ℕ → ℕ → InputClock → State
  enlisted st addr packet timestamp scaled k = record st {
    last_timestamp = timestamp;
    clock = k;
    queue =
        insert
          (record {
            addr = addr;
            packet = packet;
            date = add64 (clock_to_wall k scaled) cfg.buffer_length;
            seqnum = rtp.get_seqnum packet;
          })
          st.queue;
  }

  received : State → ℕ → Bytes → ℕ → ℕ → Outcome State
  unfolding enlisted
  received st addr packet date timestamp =
      let scaled = scaled_timestamp packet timestamp in
      let marked = rtp.check_marker packet in
      let packet' = if marked then rtp.clear_marker packet else packet in
      clock_after st.clock scaled (if marked then 0 else date) >>= λ k.
      ok (enlisted st addr packet' timestamp scaled k)

  -- `PacketRecv` of a packet in a block at the address `addr`
  unfoldable pub packet_recv : State → ℕ → Bytes → ℕ → Outcome State
  unfolding received
  packet_recv st addr packet date =
      if rtp.check_hdr packet
      then received st addr packet date
          (build_timestamp st.last_timestamp (rtp.get_timestamp packet))
      else ok st

  -- `PacketSend`: the new state, and the bytes sent.
  unfoldable pub packet_send : State → Sent → Outcome (State × Bytes)
  packet_send st net = elim st.queue [
    | [] ↦ undefined
    | b ∷ bs ↦ elim net [
      | broken ↦ exit_failure
      | _ ↦ ok (
        record st { queue = bs; cursors = map (forget b.addr) st.cursors },
        if cfg.udp then rtp.payload b.packet else b.packet,
      )
    ]
  ]
