-- ===== src/Stc.antt =====
-- util.h: the 8-byte records of auxiliary files (`FromSTC`, `ToSTC`) and the 8-byte header of a
-- retransmission request (`retx_*`).
pub mod RoundTrip
use multicat_supervisor.Base.{
  ℕ, ◌+◌, ◌*◌, ◌/◌, ◌%◌, ◌^◌, Bool, false, ◌&&◌, Option, none, some, List, [], ◌∷◌, ◌==◌, Bytes,
}

-- `FromSTC`: eight bytes, the highest first. The bytes are disjoint fields, so `|` is a sum.
-- A read past the end of the buffer is `none`.
unfoldable pub from_stc : Bytes → Option ℕ
from_stc (b0 ∷ b1 ∷ b2 ∷ b3 ∷ b4 ∷ b5 ∷ b6 ∷ b7 ∷ _) = some (
    b0 * 2 ^ 56
    + b1 * 2 ^ 48
    + b2 * 2 ^ 40
    + b3 * 2 ^ 32
    + b4 * 2 ^ 24
    + b5 * 2 ^ 16
    + b6 * 2 ^ 8
    + b7)
from_stc _ = none

-- `ToSTC`: the stores into `uint8_t` keep the low byte.
unfoldable pub to_stc : ℕ → Bytes
to_stc stc =
    stc / 2 ^ 56 % 256
    ∷ stc / 2 ^ 48 % 256
    ∷ stc / 2 ^ 40 % 256
    ∷ stc / 2 ^ 32 % 256
    ∷ stc / 2 ^ 24 % 256
    ∷ stc / 2 ^ 16 % 256
    ∷ stc / 2 ^ 8 % 256
    ∷ stc % 256
    ∷ []

abbrev pub retx_header_size : ℕ
retx_header_size = 8

-- The header buffer, by its bytes.
pub record RetxHeader : Type 0 where
  pub b0 : ℕ
  pub b1 : ℕ
  pub b2 : ℕ
  pub b3 : ℕ
  pub b4 : ℕ
  pub b5 : ℕ
  pub b6 : ℕ
  pub b7 : ℕ

unfoldable pub retx_init : RetxHeader → RetxHeader
retx_init r = record r { b0 = b'R'; b1 = b'E'; b2 = b'T'; b3 = b'X' }

unfoldable pub retx_check : RetxHeader → Bool
retx_check r = r.b0 == b'R' && r.b1 == b'E' && r.b2 == b'T' && r.b3 == b'X'

unfoldable pub retx_set_seqnum : RetxHeader → ℕ → RetxHeader
retx_set_seqnum r seqnum = record r { b4 = seqnum / 2 ^ 8; b5 = seqnum % 256 }

unfoldable pub retx_get_seqnum : RetxHeader → ℕ
retx_get_seqnum r = r.b4 * 2 ^ 8 + r.b5

unfoldable pub retx_set_num : RetxHeader → ℕ → RetxHeader
retx_set_num r num = record r { b6 = num / 2 ^ 8; b7 = num % 256 }

unfoldable pub retx_get_num : RetxHeader → ℕ
retx_get_num r = r.b6 * 2 ^ 8 + r.b7
