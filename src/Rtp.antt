-- ===== src/Rtp.antt =====
-- The RTP accessors of biTStream (`bitstream/ietf/rtp.h`), which the repository only calls. They
-- are a parameter of the modules that use them, with the laws that the program relies on.
use multicat_supervisor.Base.{ℕ, ◌<◌, ◌≡◌, Bool, Bytes, u16}

pub record Rtp : Type 0 where
  pub check_hdr : Bytes → Bool
  pub set_hdr : Bytes → Bytes
  pub get_type : Bytes → ℕ
  pub set_type : Bytes → ℕ → Bytes
  pub get_seqnum : Bytes → ℕ
  pub set_seqnum : Bytes → ℕ → Bytes
  pub get_timestamp : Bytes → ℕ
  pub set_timestamp : Bytes → ℕ → Bytes
  pub set_ssrc : Bytes → Bytes → Bytes
  pub check_marker : Bytes → Bool
  pub set_marker : Bytes → Bytes
  pub clear_marker : Bytes → Bytes
  pub payload : Bytes → Bytes
  -- `RTP_TYPE_TS`
  pub type_ts : ℕ
  -- The field is a `uint16_t`.
  pub get_seqnum-lt : (packet : Bytes) → get_seqnum packet < u16
  -- The marker is another field than the sequence number.
  pub get_seqnum-set_marker : (packet : Bytes) → get_seqnum (set_marker packet) ≡ get_seqnum packet
