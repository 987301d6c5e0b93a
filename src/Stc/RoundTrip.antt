-- ===== src/Stc/RoundTrip.antt =====
-- util.h: writing and reading of dates and of request headers.
use multicat_supervisor.Base.{
  ℕ, ◌<◌, ◌≡◌, refl, ap, true, some, [], ◌∷◌, ◌++◌, arith, length, All, Bytes, IsByte, u64, u16,
}
use multicat_supervisor.Stc.{
  from_stc, to_stc, RetxHeader, retx_init, retx_check, retx_set_seqnum, retx_get_seqnum,
  retx_set_num, retx_get_num,
}

-- A 64-bit date written by ToSTC is read back by FromSTC, whatever follows it.
pub from_stc-to_stc :
    (stc : ℕ) (rest : Bytes) → stc < u64 → from_stc (to_stc stc ++ rest) ≡ some stc
unfolding from_stc to_stc
from_stc-to_stc stc rest h = ap some (omega arith)

-- `ToSTC` writes eight bytes.
pub to_stc_bytes : (stc : ℕ) → (length (to_stc stc) ≡ 8) × All IsByte (to_stc stc)
unfolding to_stc
to_stc_bytes stc = (refl, omega arith)

-- What FromSTC reads from eight bytes is a 64-bit date, for which ToSTC writes the same bytes.
pub from_stc-lt :
    (b0 b1 b2 b3 b4 b5 b6 b7 : ℕ)
    → All IsByte (b0 ∷ b1 ∷ b2 ∷ b3 ∷ b4 ∷ b5 ∷ b6 ∷ b7 ∷ [])
    → {stc : ℕ} → from_stc (b0 ∷ b1 ∷ b2 ∷ b3 ∷ b4 ∷ b5 ∷ b6 ∷ b7 ∷ []) ≡ some stc
    → (stc < u64) × (to_stc stc ≡ b0 ∷ b1 ∷ b2 ∷ b3 ∷ b4 ∷ b5 ∷ b6 ∷ b7 ∷ [])
unfolding from_stc to_stc
from_stc-lt b0 b1 b2 b3 b4 b5 b6 b7 h e = ground arith

-- A header that is initialised and given a 16-bit sequence number and a 16-bit count passes the
-- check, and the two are read back from it.
pub retx_header :
    (r : RetxHeader) (seqnum num : ℕ)
    → seqnum < u16
    → num < u16
    → let h = retx_set_num (retx_set_seqnum (retx_init r) seqnum) num in
      (retx_check h ≡ true) × (retx_get_seqnum h ≡ seqnum) × (retx_get_num h ≡ num)
unfolding retx_init retx_check retx_set_seqnum retx_get_seqnum retx_set_num retx_get_num
retx_header r seqnum num hs hn = (refl, omega arith, omega arith)
