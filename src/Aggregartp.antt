-- ===== src/Aggregartp.antt =====
-- aggregartp.c: packets are spread over several outputs by weight, and kept for a while to answer
-- requests for retransmission. The queue `p_retx_first` is the list of its blocks, the oldest first.
pub mod Fairness
pub mod Spread
pub mod Forwarding
pub mod Queue
pub mod Requests
pub mod Input
use multicat_supervisor.Base.{
  ℕ, zero, suc, ◌+◌, ◌-◌, ◌/◌, ◌%◌, Bool, true, false, ◌||◌, Option, none, some, List, [], ◌∷◌,
  ◌++◌, ltb, ◌==◌, if◌then◌else◌, length, get_elem?, set, Bytes, add32, sub32, sub64, u16,
}
use multicat_supervisor.Stc.{
  RetxHeader, retx_header_size, retx_check, retx_get_seqnum, retx_get_num,
}
use multicat_supervisor.Io.{Sent, sent, transient, broken, Outcome, ok, exit_failure, undefined}
use multicat_supervisor.Rtp.{Rtp}

-- `block_t`: `p_data` with `i_size` bytes, and the date.
pub record Block : Type 0 where
  pub packet : Bytes
  pub date : ℕ

-- `output_t`
pub record Output : Type 0 where
  pub fd : ℕ
  pub weight : ℕ
  pub weighted_size : ℕ
  pub remainder : ℕ

-- The first loop of `NextOutput`, from output `i` on: the least size so far and its output. It
-- ends at an output of weight 0.
unfoldable pub select_loop : List Output → ℕ → ℕ → ℕ → ℕ × ℕ
select_loop [] i min_size output = (min_size, output)
select_loop (o ∷ os) i min_size output =
    if o.weight == 0
    then (min_size, output)
    else select_loop os (i + 1) (if ltb o.weighted_size min_size then o.weighted_size else min_size)
        (if ltb o.weighted_size min_size then i else output)

-- The second loop of `NextOutput`.
unfoldable pub reduce : ℕ → List Output → List Output
reduce min_size [] = []
reduce min_size (o ∷ os) =
    if o.weight == 0
    then o ∷ os
    else record o { weighted_size = sub32 o.weighted_size min_size } ∷ reduce min_size os

-- `NextOutput`: the index of the output, and the outputs with their sizes reduced. It reads
-- `p_outputs[0]`, so no outputs are `none`.
unfoldable pub next_output : List Output → Option (ℕ × List Output)
next_output [] = none
next_output (o ∷ os) =
    let (min_size, output) = select_loop os 1 o.weighted_size 0 in
    some (output, reduce min_size (o ∷ os))

-- The sizes after a packet was sent; `none` is a division by a weight of 0.
unfoldable pub account : Output → ℕ → Option Output
account o size =
    if o.weight == 0
    then none
    else some (record o {
      weighted_size = add32 o.weighted_size ((size + o.remainder) / o.weight);
      remainder = (size + o.remainder) % o.weight;
    })

-- `SendBlock`
unfoldable pub send_block : Sent → Outcome (Unit {0})
send_block broken = exit_failure
send_block _ = ok tt

-- The blocks that `RetxQueue` frees are those before the first that is recent enough.
unfoldable pub purge : ℕ → List Block → List Block
purge limit [] = []
purge limit (b ∷ bs) = if ltb b.date limit then purge limit bs else b ∷ bs

module _ (rtp : Rtp) where
  -- `RetxQueue`
  unfoldable pub retx_queue : ℕ → List Block → Bytes → ℕ → List Block
  retx_queue retx_buffer queue packet now =
      purge (sub64 now retx_buffer)
        (queue ++ (record { packet = rtp.set_marker packet; date = now } ∷ []))

  -- The search of `RetxHandle` for the first packet asked for.
  unfoldable pub find_seqnum : ℕ → List Block → List Block
  find_seqnum seqnum [] = []
  find_seqnum seqnum (b ∷ bs) =
      if rtp.get_seqnum b.packet == seqnum then b ∷ bs else find_seqnum seqnum bs

-- Where a reply goes: to the next output in turn, or to the retransmission socket.
pub data Target : Type 0 where
  to_output : ℕ → Target
  to_retx : Target

pub record Reply : Type 0 where
  pub outputs : List Output
  pub sends : List (Target × Bytes)
  pub missing : ℕ

reply_onto : Target → Bytes → Outcome Reply → Outcome Reply
reply_onto target packet (ok r) = ok (record r { sends = (target, packet) ∷ r.sends })
reply_onto target packet exit_failure = exit_failure
reply_onto target packet undefined = undefined

after_send : Outcome (Unit {0}) → Target → Bytes → Outcome Reply → Outcome Reply
after_send (ok _) target packet rest = reply_onto target packet rest
after_send exit_failure target packet rest = exit_failure
after_send undefined target packet rest = undefined

-- The sending loop of `RetxHandle`. The flag says that there is a retransmission socket; how each
-- send ends is a function of the packet.
unfoldable pub reply_loop : Bool → (Bytes → Sent) → List Block → ℕ → List Output → Outcome Reply
unfolding reply_onto after_send send_block
reply_loop retx_fd net bs zero outputs = ok (record { outputs = outputs; sends = []; missing = 0 })
reply_loop retx_fd net [] num outputs = ok (record { outputs = outputs; sends = []; missing = num })
reply_loop true net (b ∷ bs) (suc num) outputs =
    after_send (send_block (net b.packet)) to_retx b.packet (reply_loop true net bs num outputs)
reply_loop false net (b ∷ bs) (suc num) outputs = elim (next_output outputs) [
  | none ↦ undefined
  | some (i, outputs') ↦
      after_send (send_block (net b.packet)) (to_output i) b.packet
        (reply_loop false net bs num outputs')
]
