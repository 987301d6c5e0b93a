-- ===== src/Examples/RtpBytes.antt =====
-- The accessors of RTP on the bytes of a header, as the RFC lays them out.
use multicat_supervisor.Base.{
  ℕ, ◌+◌, ◌*◌, ◌%◌, ◌<◌, ◌≡◌, refl, arith, Bool, true, false, [], ◌∷◌, leb, drop, Bytes, u16,
}
use multicat_supervisor.Rtp.{Rtp}

abbrev seqnum : Bytes → ℕ
seqnum (b0 ∷ b1 ∷ b2 ∷ b3 ∷ _) = (b2 * 256 + b3) % 65536
seqnum _ = 0

abbrev with_marker : Bytes → Bytes
with_marker (b0 ∷ b1 ∷ bs) = b0 ∷ (128 + b1 % 128) ∷ bs
with_marker bs = bs

abbrev without_marker : Bytes → Bytes
without_marker (b0 ∷ b1 ∷ bs) = b0 ∷ (b1 % 128) ∷ bs
without_marker bs = bs

abbrev has_marker : Bytes → Bool
has_marker (b0 ∷ b1 ∷ bs) = leb 128 b1
has_marker _ = false

abbrev timestamp : Bytes → ℕ
timestamp (b0 ∷ b1 ∷ b2 ∷ b3 ∷ b4 ∷ b5 ∷ b6 ∷ b7 ∷ _) = b4 * 16777216 + b5 * 65536 + b6 * 256 + b7
timestamp _ = 0

pub seqnum-lt : (packet : Bytes) → seqnum packet < u16
seqnum-lt (b0 ∷ b1 ∷ b2 ∷ b3 ∷ _) = omega arith
seqnum-lt _ = omega arith

pub seqnum-marker : (packet : Bytes) → seqnum (with_marker packet) ≡ seqnum packet
seqnum-marker (b0 ∷ b1 ∷ b2 ∷ b3 ∷ _) = refl
seqnum-marker (b0 ∷ b1 ∷ b2 ∷ []) = refl
seqnum-marker (b0 ∷ b1 ∷ []) = refl
seqnum-marker (b0 ∷ []) = refl
seqnum-marker [] = refl

abbrev pub example_rtp : Rtp
example_rtp = record {
  check_hdr = λ p. true;
  set_hdr = λ p. p;
  get_type = λ p. 33;
  set_type = λ p t. p;
  get_seqnum = seqnum;
  set_seqnum = λ p n. p;
  get_timestamp = timestamp;
  set_timestamp = λ p n. p;
  set_ssrc = λ p s. p;
  check_marker = has_marker;
  set_marker = with_marker;
  clear_marker = without_marker;
  payload = drop 12;
  type_ts = 33;
  get_seqnum-lt = seqnum-lt;
  get_seqnum-set_marker = seqnum-marker;
}
