-- ===== src/Reordertp/Retx.antt =====
-- reordertp.c: `RetxCheck` walks over the list of blocks, once for each pass, drops duplicates and
-- asks for the packets that are missing between two blocks.
use multicat_supervisor.Base.{
  ℕ, zero, suc, ◌+◌, ◌-◌, ◌*◌, ◌%◌, Option, none, some, List, [], ◌∷◌, ◌++◌, map, ltb, leb, ◌==◌,
  if◌then◌else◌, Bytes, add64, u64, length, get_elem?, set,
}
use multicat_supervisor.Io.{Outcome, ok, exit_failure, undefined}
use multicat_supervisor.Reordertp.{Block, Config, State}
use multicat_supervisor.Stc.{RetxHeader, retx_init, retx_set_seqnum, retx_set_num}

-- `input_t` as far as `RetxGetFd` reads it; `none` is a peer of the family AF_UNSPEC.
pub record Input : Type 0 where
  pub fd : ℕ
  pub peer : Option Bytes

-- `send` on a connected socket, or `sendto` the peer of an input.
pub data Target : Type 0 where
  connected : ℕ → Target
  peer_of : Input → Target

pub record Request : Type 0 where
  pub target : Target
  pub header : RetxHeader

-- The buffer on the stack before `retx_init`: its contents do not matter, and all are written.
abbrev pub blank : RetxHeader
blank = record { b0 = 0; b1 = 0; b2 = 0; b3 = 0; b4 = 0; b5 = 0; b6 = 0; b7 = 0 }

-- The loop of `RetxGetFd`, with the number of tries left.
unfoldable pub next_peer : List Input → ℕ → ℕ → ℕ
next_peer inputs zero last = last
next_peer inputs (suc tries) last =
    let last' = (last + 1) % length inputs in
    let later = next_peer inputs tries last' in
    elim (get_elem? inputs last') [
      | some x ↦ elim (x.peer) [ some _ ↦ last' | none ↦ later ]
      | none ↦ later
    ]

-- `RetxGetFd`: the socket, and the new `i_last_retx_input`.
unfoldable pub get_fd : List Input → Config → ℕ → Outcome (Target × ℕ)
get_fd inputs cfg last = elim (cfg.retx_fd) [
  | some fd ↦ ok (connected fd, last)
  | none ↦
      let last' = next_peer inputs (length inputs) last in
      elim (get_elem? inputs last') [ some x ↦ ok (peer_of x, last') | none ↦ undefined ]
]

-- The block at an address, with those behind it.
unfoldable pub behind : ℕ → List Block → Option (Block × List Block)
behind a [] = none
behind a (b ∷ bs) = if b.addr == a then some (b, bs) else behind a bs

-- `p_prev` of the block at an address, NULL for the first.
unfoldable pub prev_addr : ℕ → List Block → Option ℕ
prev_addr a [] = none
prev_addr a (b ∷ []) = none
prev_addr a (b ∷ c ∷ bs) = if c.addr == a then some b.addr else prev_addr a (c ∷ bs)

-- The list without the block at an address.
unfoldable pub unlink : ℕ → List Block → List Block
unlink a [] = []
unlink a (b ∷ bs) = let rest = unlink a bs in if b.addr == a then bs else b ∷ rest

-- A cursor on the block that goes moves to the block before it.
abbrev pub retarget : ℕ → ℕ → Option ℕ → Option ℕ
retarget a p none = none
retarget a p (some x) = if x == a then some p else some x

-- `RetxDereference`, which follows `p_prev` without a test.
unfoldable pub dereference : ℕ → State → Outcome State
dereference a st = elim (prev_addr a st.queue) [
  | none ↦ undefined
  | some p ↦ ok (record st { queue = unlink a st.queue; cursors = map (retarget a p) st.cursors })
]

-- `p_prev` and `p_current` of a cursor; the inner `none` is `p_current == NULL`.
abbrev pub beyond_found : Option (Block × List Block) → Outcome (Option (Option Block × Block))
beyond_found none = undefined
beyond_found (some (p, [])) = ok none
beyond_found (some (p, c ∷ bs)) = ok (some (some p, c))

unfoldable pub current : Option ℕ → List Block → Outcome (Option (Option Block × Block))
current none [] = ok none
current none (c ∷ bs) = ok (some (none, c))
current (some a) bs = beyond_found (behind a bs)

-- How many packets are missing between two blocks, `i_nb_packets`.
abbrev pub missing : Block → Block → ℕ
missing p c = (65536 + c.seqnum - (p.seqnum + 1)) % 65536

abbrev pub request_header : Block → Block → RetxHeader
request_header p c =
    retx_set_num (retx_set_seqnum (retx_init blank) ((p.seqnum + 1) % 65536)) (missing p c)

-- How one turn of the inner loop ends: at its `break`, or for another turn.
pub data Turn : Type 0 where
  leave : Turn
  again : State → List Request → Turn

module _ (inputs : List Input) (cfg : Config) where
  abbrev pub ask : Block → Block → State → Outcome (State × List Request)
  ask p c st = elim (get_fd inputs cfg st.last_retx_input) [
    | ok (target, last) ↦ ok (
      record st { last_retx_input = last },
      record { target = target; header = request_header p c } ∷ [],
    )
    | exit_failure ↦ exit_failure
    | undefined ↦ undefined
  ]

  -- The rest of the loop's body, for the two blocks at hand.
  unfoldable pub compare_blocks : Block → Block → State → Outcome (State × List Request)
  compare_blocks p c st =
      if c.seqnum == p.seqnum
      then (elim (dereference c.addr st) [
        | ok st' ↦ ok (st', [])
        | exit_failure ↦ exit_failure
        | undefined ↦ undefined
      ])
      else if c.seqnum == (p.seqnum + 1) % 65536
      then ok (st, [])
      else if leb (missing p c) cfg.max_retx_burst
      then ask p c st
      else ok (st, [])

  abbrev pub go_on : Outcome (State × List Request) → Outcome Turn
  go_on (ok (st, rs)) = ok (again st rs)
  go_on exit_failure = exit_failure
  go_on undefined = undefined

  abbrev pub look_at : State → ℕ → ℕ → Option Block → Block → Outcome Turn
  look_at st i deadline prev c =
      if ltb deadline c.date
      then ok leave
      else (let st' = record st { cursors = set st.cursors i (some c.addr) } in
          elim prev [ none ↦ ok (again st' []) | some p ↦ go_on (compare_blocks p c st') ])

  abbrev pub turn_of : State → ℕ → ℕ → Outcome (Option (Option Block × Block)) → Outcome Turn
  turn_of st i deadline (ok none) = ok leave
  turn_of st i deadline (ok (some (prev, c))) = look_at st i deadline prev c
  turn_of st i deadline exit_failure = exit_failure
  turn_of st i deadline undefined = undefined

  -- The body of the inner `for ( ; ; )` for the pass `i`.
  unfoldable pub turn : State → ℕ → ℕ → Outcome Turn
  turn st i deadline = elim (get_elem? st.cursors i) [
    | none ↦ undefined
    | some cursor ↦ turn_of st i deadline (current cursor st.queue)
  ]

  -- The inner loop on fuel; the outer `none` is fuel that has run out.
  abbrev pub before : List Request → Outcome (State × List Request) → Outcome (State × List Request)
  before rs (ok (st, rs')) = ok (st, rs ++ rs')
  before rs exit_failure = exit_failure
  before rs undefined = undefined

  unfoldable pub retx_pass : ℕ → State → ℕ → ℕ → Option (Outcome (State × List Request))
  retx_pass zero st i deadline = none
  retx_pass (suc fuel) st i deadline = elim (turn st i deadline) [
    | ok leave ↦ some (ok (st, []))
    | ok (again st' rs) ↦ elim (retx_pass fuel st' i deadline) [
      | none ↦ none
      | some r ↦ some (before rs r)
    ]
    | exit_failure ↦ some exit_failure
    | undefined ↦ some undefined
  ]

  abbrev pub and_then :
      Option (Outcome (State × List Request))
      → (State → Option (Outcome (State × List Request)))
      → Option (Outcome (State × List Request))
  and_then none next = none
  and_then (some (ok (st, rs))) next = elim (next st) [ none ↦ none | some r ↦ some (before rs r) ]
  and_then (some exit_failure) next = some exit_failure
  and_then (some undefined) next = some undefined

  -- The outer loop from the pass `i` on, with `n` passes left.
  unfoldable pub retx_passes : ℕ → State → ℕ → ℕ → ℕ → Option (Outcome (State × List Request))
  retx_passes fuel st i zero date = some (ok (st, []))
  retx_passes fuel st i (suc n) date =
      and_then (retx_pass fuel st i (add64 date ((i + 1) * cfg.retx_delay % u64)))
        (λ st'. retx_passes fuel st' (i + 1) n date)

  -- `RetxCheck`: every turn of the inner loop leaves one block less in front of the cursor.
  unfoldable pub retx_check : State → ℕ → Option (Outcome (State × List Request))
  retx_check st date = retx_passes (suc (length st.queue)) st 0 (length st.cursors) date
