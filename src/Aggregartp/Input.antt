-- ===== src/Aggregartp/Input.antt =====
-- aggregartp.c: `RetxHandle`, and a round of the loop of `main`.
use multicat_supervisor.Base.{
  ℕ, ◌+◌, ◌-◌, ◌/◌, ◌%◌, Bool, not, ◌&&◌, Option, none, some, List, [], ◌∷◌, ◌++◌, ◌==◌,
  if◌then◌else◌, length, get_elem?, set, take, Bytes, u16,
}
use multicat_supervisor.Stc.{
  RetxHeader, retx_header_size, retx_check, retx_get_seqnum, retx_get_num,
}
use multicat_supervisor.Rtp.{Rtp}
use multicat_supervisor.Io.{
  Sent, Outcome, ok, exit_failure, undefined, Read, bytes, nothing, failure,
}
use multicat_supervisor.Aggregartp.{
  Block, Output, next_output, account, send_block, retx_queue, find_seqnum, Target, Reply,
  reply_loop,
}

-- The options of the command line.
pub record Config : Type 0 where
  pub udp : Bool
  pub payload_size : ℕ
  pub rtp_header_size : ℕ
  pub input_tcp : Bool
  pub overwrite_timestamps : Bool
  pub overwrite_ssrc : Bool
  pub ssrc : Bytes
  pub retx_buffer : ℕ
  pub retx_fd : Bool
  pub retx_tcp : Bool

-- The variables of the program. A block that is being read is the bytes read so far; `none` is
-- NULL. `p_retx_block` is allocated by the option -x alone.
pub record State : Type 0 where
  pub outputs : List Output
  pub queue : List Block
  pub input_block : Option Bytes
  pub retx_block : Option Bytes
  pub rtp_seqnum : ℕ

header_of : Bytes → Option RetxHeader
header_of (b0 ∷ b1 ∷ b2 ∷ b3 ∷ b4 ∷ b5 ∷ b6 ∷ b7 ∷ []) =
    some (record { b0 = b0; b1 = b1; b2 = b2; b3 = b3; b4 = b4; b5 = b5; b6 = b6; b7 = b7 })
header_of _ = none

-- The part of `RetxHandle` after a whole request was read.
module _ (rtp : Rtp) (cfg : Config) (net : Bytes → Sent) where
  abbrev answered : State → Outcome Reply → Outcome (State × List (Target × Bytes))
  answered st (ok r) = ok (record st { outputs = r.outputs; retx_block = some [] }, r.sends)
  answered st exit_failure = exit_failure
  answered st undefined = undefined

  unfoldable pub retx_answer : State → RetxHeader → Outcome (State × List (Target × Bytes))
  retx_answer st h =
      if retx_check h
      then answered st (
          reply_loop cfg.retx_fd net (find_seqnum rtp (retx_get_seqnum h) st.queue) (retx_get_num h)
            st.outputs)
      else exit_failure

  retx_read : State → Bytes → Outcome (State × List (Target × Bytes))
  retx_read st buffer = elim (header_of buffer) [
    | some h ↦ retx_answer st h
    | none ↦ if cfg.retx_tcp then ok (record st { retx_block = some buffer }, []) else exit_failure
  ]

  retx_receive : State → Bytes → Read → Outcome (State × List (Target × Bytes))
  retx_receive st have failure = exit_failure
  retx_receive st have nothing = ok (st, [])
  retx_receive st have (bytes []) = ok (st, [])
  retx_receive st have (bytes (b ∷ bs)) =
      retx_read st (have ++ take (retx_header_size - length have) (b ∷ bs))

  -- `RetxHandle`; the receive gives at most the bytes that are still missing.
  unfoldable pub retx_handle : State → Read → Outcome (State × List (Target × Bytes))
  unfolding header_of retx_read retx_receive
  retx_handle st read = elim st.retx_block [
    | none ↦ undefined
    | some have ↦ retx_receive st have read
  ]

-- The choice of an output for a packet, and its account: NextOutput and what follows the send.
unfoldable pub dispatch : List Output → ℕ → Option (ℕ × List Output)
dispatch outputs size = elim (next_output outputs) [
  | none ↦ none
  | some (i, os) ↦ elim (get_elem? os i) [
    | none ↦ none
    | some o ↦ elim (account o size) [ none ↦ none | some o' ↦ some (i, set os i o') ]
  ]
]

module _ (rtp : Rtp) (cfg : Config) where
  -- The headers that `main` writes into a packet read at the date `now`.
  unfoldable pub stamp : State → ℕ → Bytes → Bytes
  stamp st now packet =
      if cfg.udp
      then rtp.set_timestamp
          (rtp.set_ssrc
            (rtp.set_seqnum (rtp.set_type (rtp.set_hdr packet) rtp.type_ts) st.rtp_seqnum) cfg.ssrc)
          (now / 300 % 4294967296)
      else (let p = if cfg.overwrite_ssrc then rtp.set_ssrc packet cfg.ssrc else packet in
          if cfg.overwrite_timestamps then rtp.set_timestamp p (now / 300 % 4294967296) else p)

  -- What follows a whole packet: it is sent to the next output, whose account is charged, and kept.
  unfoldable pub finish : State → ℕ → Sent → ℕ → Bytes → Outcome (State × List (ℕ × Bytes))
  finish st now net size packet = elim (next_output st.outputs) [
    | none ↦ undefined
    | some _ ↦ elim (send_block net) [
      | ok _ ↦ elim (dispatch st.outputs size) [
        | some (i, os) ↦ ok (
          record st {
            outputs = os;
            queue = retx_queue rtp cfg.retx_buffer st.queue packet now;
            input_block = none;
            rtp_seqnum = if cfg.udp then (st.rtp_seqnum + 1) % u16 else st.rtp_seqnum;
          },
          (i, packet) ∷ [],
        )
        | none ↦ undefined
      ]
      | exit_failure ↦ exit_failure
      | undefined ↦ undefined
    ]
  ]

  -- The size of a whole packet, and the block that is filled: with -U the header's bytes come first.
  abbrev pub packet_size : ℕ
  packet_size = cfg.payload_size + (if cfg.udp then 12 else cfg.rtp_header_size)

  abbrev block_of : Option Bytes → Bytes → Bytes
  block_of (some have) header = have
  block_of none header = if cfg.udp then header else []

  input_receive : State → ℕ → Sent → Bytes → Read → Outcome (State × List (ℕ × Bytes))
  input_receive st now net have failure = exit_failure
  input_receive st now net have nothing = ok (record st { input_block = some have }, [])
  input_receive st now net have (bytes []) = ok (record st { input_block = some have }, [])
  input_receive st now net have (bytes (b ∷ bs)) =
      let got = take (packet_size - length have) (b ∷ bs) in
      if cfg.input_tcp && not (length got == packet_size - length have)
      then ok (record st { input_block = some (have ++ got) }, [])
      else finish st now net (length got) (stamp st now (have ++ got))

  -- What the loop of `main` does when the input is readable, at the date `now`. `header` is what the
  -- twelve bytes in front of a new block hold.
  unfoldable pub input_ready : State → ℕ → Bytes → Sent → Read → Outcome (State × List (ℕ × Bytes))
  unfolding input_receive
  input_ready st now header net read =
      input_receive st now net (block_of st.input_block header) read
