-- ===== src/Reordertp/Requests.antt =====
-- reordertp.c: which packets `RetxCheck` asks for between two blocks.
use multicat_supervisor.Base.{
  ℕ, ◌+◌, ◌%◌, ◌≤◌, ◌<◌, ◌≡◌, ◌≢◌, refl, arith, Bool, true, false, not, ◌&&◌, Bool-cases, List, [],
  inl, inr, leb, ◌==◌, if◌then◌else◌, length, All, u16,
}
use multicat_supervisor.Io.{Outcome, ok, exit_failure, undefined}
use multicat_supervisor.Stc.{retx_check, retx_get_seqnum, retx_get_num}
use multicat_supervisor.Stc.RoundTrip.{retx_header}
use multicat_supervisor.Reordertp.{Block, Config, State}
use multicat_supervisor.Reordertp.Retx.{
  Input, Target, Request, blank, get_fd, missing, request_header, ask, compare_blocks,
}
use multicat_supervisor.Reordertp.Safety.{Found, get_fd-Found}

-- A request that the other side accepts, for the packets from the one after `p` up to the one before
-- `c`, and not for more than may be asked for.
abbrev pub Covers : Config → Block → Block → Request → Type 0
Covers cfg p c r =
    (retx_check r.header ≡ true)
    × (retx_get_seqnum r.header ≡ (p.seqnum + 1) % 65536)
    × ((retx_get_seqnum r.header + retx_get_num r.header) % 65536 ≡ c.seqnum)
    × (retx_get_num r.header ≤ cfg.max_retx_burst)

-- Whether packets are missing, and few enough.
abbrev pub wanted : Config → Block → Block → Bool
wanted cfg p c = not (c.seqnum == (p.seqnum + 1) % 65536) && leb (missing p c) cfg.max_retx_burst

le_burst : (m burst n : ℕ) → n ≡ m → leb m burst ≡ true → n ≤ burst
le_burst m burst n e h = ground arith

differ : (a b : ℕ) → a ≢ b → (a == b) ≡ false
differ a b h = ground arith

request_header-Covers :
    (cfg : Config) (p c : Block) (target : Target)
    → p.seqnum < u16
    → c.seqnum < u16
    → leb (missing p c) cfg.max_retx_burst ≡ true
    → Covers cfg p c (record { target = target; header = request_header p c })
request_header-Covers cfg p c target hp hc few =
    let (check, seq, num) =
      retx_header blank ((p.seqnum + 1) % 65536) (missing p c) (omega arith) (omega arith) in
    (
      check,
      seq,
      omega (arith, seq, num),
      le_burst (missing p c) cfg.max_retx_burst (retx_get_num (request_header p c)) num few,
    )

-- No more than one request, and one exactly when it is wanted.
abbrev pub AskOk : Config → Block → Block → Outcome (State × List Request) → Type 0
AskOk cfg p c (ok (st, requests)) =
    (length requests ≡ (if wanted cfg p c then 1 else 0)) × All (Covers cfg p c) requests
AskOk cfg p c exit_failure = ⊥
AskOk cfg p c undefined = ⊥

module _ (inputs : List Input) (cfg : Config) (some_input : 0 < length inputs) (st : State)
    (p c : Block) (range : st.last_retx_input < length inputs) (small_p : p.seqnum < u16)
    (small : c.seqnum < u16) where
  ask-Found :
      (found : Outcome (Target × ℕ))
      → get_fd inputs cfg st.last_retx_input ≡ found
      → Found inputs found
      → wanted cfg p c ≡ true
      → leb (missing p c) cfg.max_retx_burst ≡ true
      → AskOk cfg p c (ask inputs cfg p c st)
  ask-Found (ok (target, last)) e h w few =
      rw (AskOk, e, w) (refl, (request_header-Covers cfg p c target small_p small few, tt))
  ask-Found exit_failure e h w few = elim h [ ]
  ask-Found undefined e h w few = elim h [ ]

  nothing_asked :
      compare_blocks inputs cfg p c st ≡ ok (st, [])
      → wanted cfg p c ≡ false
      → AskOk cfg p c (compare_blocks inputs cfg p c st)
  nothing_asked e w = rw e (rw w refl, tt)

  -- Between two blocks with different sequence numbers RetxCheck sends one request if packets are
  -- missing and not more than may be asked for, and else none. The other side accepts the
  -- request, and it is for the packets from the one after the first block up to the one before
  -- the second. There is an input, the last one asked is one of them, and both numbers have 16
  -- bits.
  pub compare_blocks-AskOk : c.seqnum ≢ p.seqnum → AskOk cfg p c (compare_blocks inputs cfg p c st)
  unfolding compare_blocks
  compare_blocks-AskOk new =
      let new' = differ c.seqnum p.seqnum new in
      elim (Bool-cases (c.seqnum == (p.seqnum + 1) % 65536)) [
        | inl next ↦ nothing_asked (rw (new', next) refl) (rw next refl)
        | inr gap ↦ elim (Bool-cases (leb (missing p c) cfg.max_retx_burst)) [
          | inl few ↦
              rw (new', gap, few)
                (ask-Found (get_fd inputs cfg st.last_retx_input) refl
                  (get_fd-Found inputs cfg some_input st.last_retx_input range) (rw (gap, few) refl)
                  few)
          | inr many ↦ nothing_asked (rw (new', gap, many) refl) (rw (gap, many) refl)
        ]
      ]
