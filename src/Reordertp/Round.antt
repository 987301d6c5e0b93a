-- ===== src/Reordertp/Round.antt =====
-- reordertp.c, a round of the loop of `main`: the blocks that are due are sent, and the inputs are read.
pub mod Due
use multicat_supervisor.Base.{
  ℕ, zero, suc, ◌+◌, ◌-◌, ◌/◌, ◌%◌, Bool, true, false, not, ◌&&◌, Option, none, some, List, [], ◌∷◌,
  ◌++◌, ltb, leb, ◌==◌, if◌then◌else◌, length, take, Bytes, add64, sub64, u32,
}
use multicat_supervisor.Io.{
  Sent, Outcome, ok, exit_failure, undefined, ◌>>=◌, Read, bytes, nothing, failure,
}
use multicat_supervisor.Rtp.{Rtp}
use multicat_supervisor.Reordertp.{Block, Config, State, packet_recv, packet_send}

abbrev pub consed :
    Bytes → Option (Outcome (State × List Bytes)) → Option (Outcome (State × List Bytes))
consed sent none = none
consed sent (some (ok (st, rest))) = some (ok (st, sent ∷ rest))
consed sent (some exit_failure) = some exit_failure
consed sent (some undefined) = some undefined

-- Is the first block due at a date? 26999 ticks are just below the millisecond of `poll`.
abbrev pub is_due : List Block → ℕ → Bool
is_due [] now = false
is_due (b ∷ bs) now = leb b.date (add64 now 26999)

-- What `poll` is told to wait, an `int`: -1 is for ever.
unfoldable pub poll_timeout : List Block → ℕ → ℕ
poll_timeout [] now = u32 - 1
poll_timeout (b ∷ bs) now = sub64 b.date now / 27000 % u32

-- The block that an input is filling; `none` is NULL.
pub record Reading : Type 0 where
  pub tcp : Bool
  pub block : Option Bytes

abbrev pub have : Option Bytes → Bytes
have none = []
have (some block) = block

-- What comes from the retransmission service, the input 0, has no date.
abbrev pub date_of : Option ℕ → ℕ → ℕ → ℕ
date_of none i now = now
date_of (some fd) i now = if i == 0 then 0 else now

module _ (rtp : Rtp) (cfg : Config) where
  -- The loop that sends what is due, on fuel; `wall n` is the date at the `n`th reading of the clock, and
  -- `net n` how the send after it ends. The outer `none` is fuel that has run out.
  unfoldable pub send_due :
      ℕ → (ℕ → ℕ) → (ℕ → Sent) → ℕ → State → Option (Outcome (State × List Bytes))
  send_due zero wall net n st = none
  send_due (suc fuel) wall net n st =
      if is_due st.queue (wall n)
      then (elim (packet_send rtp cfg st (net n)) [
        | ok (st', packet) ↦ consed packet (send_due fuel wall net (n + 1) st')
        | exit_failure ↦ some exit_failure
        | undefined ↦ some undefined
      ])
      else some (ok (st, []))

  -- An input that is readable: the input `i`, at the date `now`, reading into a block at the
  -- address `addr`.
  input_receive : ℕ → ℕ → ℕ → ℕ → State → Reading → Read → Outcome (State × Reading)
  input_receive size i now addr st input failure = exit_failure
  input_receive size i now addr st input nothing =
      ok (st, record input { block = some (have input.block) })
  input_receive size i now addr st input (bytes []) =
      ok (st, record input { block = some (have input.block) })
  input_receive size i now addr st input (bytes (b ∷ bs)) =
      let got = have input.block ++ take (size - length (have input.block)) (b ∷ bs) in
      if input.tcp && not (length got == size)
      then ok (st, record input { block = some got })
      else (packet_recv rtp cfg st addr got (date_of cfg.retx_fd i now) >>= λ st'.
          ok (st', record input { block = none }))

  unfoldable pub input_readable : ℕ → ℕ → ℕ → ℕ → State → Reading → Read → Outcome (State × Reading)
  unfolding input_receive
  input_readable size i now addr st input read = input_receive size i now addr st input read
