-- ===== src/Aggregartp/Requests.antt =====
-- aggregartp.c, `RetxHandle`: which packets answer a request.
use multicat_supervisor.Base.{ℕ, ◌-◌, ◌≡◌, refl, none, List, [], ◌∷◌, map, length, take, Bytes}
use multicat_supervisor.Stc.{RetxHeader, retx_init, retx_set_seqnum, retx_set_num}
use multicat_supervisor.Rtp.{Rtp}
use multicat_supervisor.Io.{Sent, Outcome, ok, undefined, Read}
use multicat_supervisor.Aggregartp.{Block, Reply}
use multicat_supervisor.Aggregartp.Input.{Config, State, retx_handle}

-- All packets were sent that the request names and the queue holds, in order; the rest is missing.
record Answers (num : ℕ) (bs : List Block) (r : Reply) : Type 0 where
  packets : map (λ s. s.1) r.sends ≡ map (λ b. b.packet) (take num bs)
  missing : r.missing ≡ num - length bs

-- What a reply owes to the rest of the queue.
abbrev Replies : ℕ → List Block → Outcome Reply → Type 0
Replies num bs out = (r : Reply) × (out ≡ ok r) × Answers num bs r

abbrev pub header_bytes : RetxHeader → Bytes
header_bytes h = h.b0 ∷ h.b1 ∷ h.b2 ∷ h.b3 ∷ h.b4 ∷ h.b5 ∷ h.b6 ∷ h.b7 ∷ []

-- The request that reordertp.c builds for `num` packets from `seqnum` on.
abbrev pub request : RetxHeader → ℕ → ℕ → RetxHeader
request h seqnum num = retx_set_num (retx_set_seqnum (retx_init h) seqnum) num

module _ (rtp : Rtp) (cfg : Config) (net : Bytes → Sent) (st : State) (h : RetxHeader)
    (seqnum num : ℕ) where
  -- With no buffer for requests, which the option -x alone allocates, every read of a request
  -- goes through a null pointer.
  pub retx_handle_null :
      (read : Read) → st.retx_block ≡ none → retx_handle rtp cfg net st read ≡ undefined
  unfolding retx_handle
  retx_handle_null read e = rw e refl
