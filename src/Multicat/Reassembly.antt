-- ===== src/Multicat/Reassembly.antt =====
-- multicat.c, `tcp_Read`: chunks out of fragments.
use mathlib.Core.List.{append_assoc, append-nil}
use multicat_supervisor.Base.{
  joined, ℕ, zero, suc, ◌+◌, ◌-◌, ◌≤◌, ◌<◌, ◌≡◌, refl, sym, ap, ◌∙◌, true, false, List, [], ◌∷◌,
  ◌++◌, inl, inr, ◌⊎◌, arith, ◌==◌, ==_iff, Bool-cases, if◌then◌else◌, length, length-append, take,
  All, Bytes,
}
use multicat_supervisor.Io.{bytes}
use multicat_supervisor.Multicat.Sockets.{Source, tcp_filled, tcp_read}

-- What calls of `tcp_Read` give in turn, for the fragments that `recv` delivers.
unfoldable pub tcp_reads : ℕ → List Bytes → Source → List Bytes × Source
tcp_reads len [] st = ([], st)
tcp_reads len (f ∷ fs) st =
    let (out, st') = tcp_read len 0 (bytes f) st in
    let (outs, st'') = tcp_reads len fs st' in (out ∷ outs, st'')

-- A chunk of the size, or nothing yet.
abbrev pub IsChunk : ℕ → Bytes → Type 0
IsChunk len out = (out ≡ []) ⊎ (length out ≡ len)

-- `recv` gives no more than there is room for.
abbrev pub Fragments : ℕ → ℕ → List Bytes → Type 0
Fragments len have [] = Unit {0}
Fragments len have (f ∷ fs) =
    (have + length f ≤ len)
    × Fragments len (if have + length f == len then 0 else have + length f) fs

take_all : (n : ℕ) (xs : Bytes) → length xs ≤ n → take n xs ≡ xs
take_all zero [] h = refl
take_all zero (x ∷ xs) h = absurd (omega arith)
take_all (suc n) [] h = refl
take_all (suc n) (x ∷ xs) h = ap (λ l. x ∷ l) (take_all n xs (omega arith))

module _ (len : ℕ) (f : Bytes) (st : Source) (h : length st.tcp_buffer + length f ≤ len) where
  taken : take (len - length st.tcp_buffer) f ≡ f
  taken = take_all (len - length st.tcp_buffer) f (omega arith)

  tcp_filled_full :
      (length st.tcp_buffer + length f == len) ≡ true
      → tcp_filled len 0 f st ≡ (st.tcp_buffer ++ f, record st { stc = 0; tcp_buffer = [] })
  unfolding tcp_filled
  tcp_filled_full e = rw (taken, length-append st.tcp_buffer f, e) refl

  tcp_filled_part :
      (length st.tcp_buffer + length f == len) ≡ false
      → tcp_filled len 0 f st ≡ ([], record st { stc = 0; tcp_buffer = st.tcp_buffer ++ f })
  unfolding tcp_filled
  tcp_filled_part e = rw (taken, length-append st.tcp_buffer f, e) refl

tcp_reads-joined_from :
    (len : ℕ) (fs : List Bytes) (st : Source)
    → length st.tcp_buffer < len
    → Fragments len (length st.tcp_buffer) fs
    → let (outs, st') = tcp_reads len fs st in
      (joined outs ++ st'.tcp_buffer ≡ st.tcp_buffer ++ joined fs)
      × All (IsChunk len) outs
      × (length st'.tcp_buffer < len)
unfolding tcp_reads tcp_read
tcp_reads-joined_from len [] st l h = (sym (append-nil st.tcp_buffer), tt, l)
tcp_reads-joined_from len (f ∷ fs) st l (h, hs) =
    elim (Bool-cases (length st.tcp_buffer + length f == len)) [
      | inl e ↦
          let (same, chunks, short) =
            tcp_reads-joined_from len fs (record st { stc = 0; tcp_buffer = [] }) (omega arith)
              (rw e at hs) in
          rw (tcp_filled_full len f st h e) (
            append_assoc (st.tcp_buffer ++ f) _ _
                ∙ ap (λ x. (st.tcp_buffer ++ f) ++ x) same
                ∙ append_assoc st.tcp_buffer f (joined fs),
            (inr (length-append st.tcp_buffer f ∙ (==_iff _ _).0 e), chunks),
            short,
          )
      | inr e ↦
          let n : length (st.tcp_buffer ++ f) ≡ length st.tcp_buffer + length f =
            length-append st.tcp_buffer f in
          let ne : length (st.tcp_buffer ++ f) < len = ground arith in
          let (same, chunks, short) =
            tcp_reads-joined_from len fs (record st { stc = 0; tcp_buffer = st.tcp_buffer ++ f }) ne
              (rw n (rw e at hs)) in
          rw (tcp_filled_part len f st h e)
            (same ∙ append_assoc st.tcp_buffer f (joined fs), (inl refl, chunks), short)
    ]

-- With a positive chunk size and an empty buffer, whatever the fragments that recv gives, none
-- larger than the room in the buffer, each call of tcp_Read gives nothing or a chunk of exactly
-- the size, the chunks and what stays in the buffer are the bytes received in their order, and
-- less than a chunk stays.
pub tcp_reads-joined :
    (len : ℕ) (fs : List Bytes) (st : Source)
    → 0 < len
    → st.tcp_buffer ≡ []
    → Fragments len 0 fs
    → let (outs, st') = tcp_reads len fs st in
      (joined outs ++ st'.tcp_buffer ≡ joined fs)
      × All (IsChunk len) outs
      × (length st'.tcp_buffer < len)
tcp_reads-joined len fs st l e h =
    let n : length st.tcp_buffer ≡ 0 = rw e refl in
    let (same, chunks, short) = tcp_reads-joined_from len fs st (omega arith) (rw n h) in
    (same ∙ rw e refl, chunks, short)
