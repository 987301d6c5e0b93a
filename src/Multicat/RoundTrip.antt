-- ===== src/Multicat/RoundTrip.antt =====
-- multicat.c: what is written to a file and read again.
use mathlib.Core.List.{append_assoc, append-nil}
use multicat_supervisor.Base.{
  ℕ, zero, suc, ◌+◌, ◌*◌, ◌<◌, ◌≡◌, refl, sym, ap, ◌∙◌, true, false, Option, none, some, List, [],
  ◌∷◌, ◌++◌, arith, if◌then◌else◌, length, length-append, take, drop, ◌==◌, drop_front, take_front,
  take_whole, take_nil, drop-drop, All, All-split, Bytes, u64,
}
use multicat_supervisor.Stc.{from_stc, to_stc}
use multicat_supervisor.Stc.RoundTrip.{from_stc-to_stc, to_stc_bytes}
use multicat_supervisor.Multicat.{Stored, Input, Output}
use multicat_supervisor.Multicat.Files.{dated, file_read, file_write, file_init_read}

-- A packet and the date it came at.
pub record Packet : Type 0 where
  pub stc : ℕ
  pub payload : Bytes

abbrev pub content_of : List Packet → Bytes
content_of [] = []
content_of (p ∷ ps) = p.payload ++ content_of ps

abbrev pub dates_of : List Packet → Bytes
dates_of [] = []
dates_of (p ∷ ps) = to_stc p.stc ++ dates_of ps

abbrev pub stored_of : List Packet → Stored
stored_of ps = record { content = content_of ps; dates = dates_of ps }

-- A new file, and the writing of packets one after another, each whole.
abbrev pub new_output : Output
new_output = record {
  file = record { content = []; dates = [] };
  flushed = 0;
  next_flush = 0;
  die = false;
}

abbrev pub write_packet : Packet → Output → Output
write_packet p st = (file_write p.stc p.payload (some (length p.payload)) true st).1

abbrev pub write_packets : List Packet → Output → Output
write_packets [] st = st
write_packets (p ∷ ps) st = write_packets ps (write_packet p st)

-- The loop of `main` on a file, until `b_die`: the packets that it gets with their dates.
abbrev pub got : Bytes → ℕ → Option (List Packet) → Option (List Packet)
got packet stc none = none
got [] stc (some ps) = some ps
got (b ∷ bs) stc (some ps) = some (record { stc = stc; payload = b ∷ bs } ∷ ps)

unfoldable pub play : ℕ → ℕ → Input → Option (List Packet)
play zero len st = if st.die then some [] else none
play (suc fuel) len st = if st.die then some [] else elim (file_read 1 false len false st) [
  | none ↦ none
  | some (packet, st') ↦ got packet st'.stc (play fuel len st')
]

-- The packets that a chunk size can tell apart, with 64-bit dates.
abbrev pub IsPacket : ℕ → Packet → Type 0
IsPacket len p = (length p.payload ≡ len) × (p.stc < u64)

-- The offsets stand in front of these packets.
record Ahead (ps : List Packet) (st : Input) : Type 0 where
  content : drop st.at st.file.content ≡ content_of ps
  dates : drop st.aux_at st.file.dates ≡ dates_of ps
  alive : st.die ≡ false

pub file_write_file :
    (stc : ℕ) (packet : Bytes) (n : ℕ) (st : Output)
    → (file_write stc packet (some n) true st).1.file
      ≡ record { content = st.file.content ++ take n packet; dates = st.file.dates ++ to_stc stc }
unfolding file_write
file_write_file stc packet n st = ground arith

write_packets_file :
    (ps : List Packet) (st : Output)
    → (write_packets ps st).file
      ≡ record { content = st.file.content ++ content_of ps; dates = st.file.dates ++ dates_of ps }
write_packets_file [] st = rw (append-nil, append-nil) refl
write_packets_file (p ∷ ps) st =
    write_packets_file ps (write_packet p st)
    ∙ rw
        (
          file_write_file p.stc p.payload (length p.payload) st,
          take_whole p.payload,
          append_assoc st.file.content p.payload (content_of ps),
          append_assoc st.file.dates (to_stc p.stc) (dates_of ps),
        )
        refl

file_read-Ahead :
    (len stc b : ℕ) (bs : Bytes) (ps : List Packet) (st : Input)
    → suc (length bs) ≡ len
    → stc < u64
    → Ahead (record { stc = stc; payload = b ∷ bs } ∷ ps) st
    → (st' : Input) × (file_read 1 false len false st ≡ some (b ∷ bs, st'))
      × (st'.stc ≡ stc)
      × Ahead ps st'
unfolding file_read dated
file_read-Ahead len stc b bs ps st e h a =
    let taken : take len (drop st.at st.file.content) ≡ b ∷ bs =
      ap (take len) a.content ∙ rw (← e) (take_front (b ∷ bs) (content_of ps)) in
    let eight : take 8 (to_stc stc ++ dates_of ps) ≡ to_stc stc ++ [] = unfold to_stc in refl in
    let date : from_stc (take 8 (drop st.aux_at st.file.dates)) ≡ some stc =
      ap (λ d. from_stc (take 8 d)) a.dates ∙ ap from_stc eight ∙ from_stc-to_stc stc [] h in
    let st' : Input = record st {
      at = st.at + length (b ∷ bs);
      aux_at = st.aux_at + 8;
      stc = stc;
      first_stc = if st.first_stc == 0 then stc else st.first_stc;
    } in
    (
      st',
      rw (taken, dated, date) refl,
      refl,
      record {
        content =
            drop-drop st.at (length (b ∷ bs)) st.file.content
            ∙ ap (drop (length (b ∷ bs))) a.content
            ∙ drop_front (b ∷ bs) (content_of ps);
        dates = drop-drop st.aux_at 8 st.file.dates ∙ ap (drop 8) a.dates ∙ unfold to_stc in refl;
        alive = a.alive;
      },
    )

play_end : (len : ℕ) (st : Input) → Ahead [] st → play 1 len st ≡ some []
unfolding play file_read
play_end len st a = rw (a.alive, a.content, take_nil len) refl

module _ (len : ℕ) (l : 0 < len) where
  play_next :
      (stc : ℕ) (payload : Bytes) (ps : List Packet) (st : Input) (fuel : ℕ)
      → IsPacket len (record { stc = stc; payload = payload })
      → Ahead (record { stc = stc; payload = payload } ∷ ps) st
      → ((st' : Input) → Ahead ps st' → play fuel len st' ≡ some ps)
      → play (suc fuel) len st ≡ some (record { stc = stc; payload = payload } ∷ ps)
  unfolding play
  play_next stc [] ps st fuel (e, h) a k = absurd (omega arith)
  play_next stc (b ∷ bs) ps st fuel (e, h) a k =
      let (st', r, d, a') = file_read-Ahead len stc b bs ps st e h a in
      rw (r, a.alive, d, k st' a') refl

  play-Ahead :
      (ps : List Packet) (st : Input)
      → All (IsPacket len) ps
      → Ahead ps st
      → play (suc (length ps)) len st ≡ some ps
  play-Ahead [] st h a = play_end len st a
  play-Ahead (p ∷ ps) st (h, hs) a =
      play_next p.stc p.payload ps st (suc (length ps)) h a (λ st' a'. play-Ahead ps st' hs a')

  pub content_length :
      (ps : List Packet) → All (IsPacket len) ps → length (content_of ps) ≡ len * length ps
  content_length [] h = omega arith
  content_length (p ∷ ps) (h, hs) = rw (length-append, h.0, content_length ps hs) (omega arith)

pub dates_length : (ps : List Packet) → length (dates_of ps) ≡ 8 * length ps
dates_length [] = omega arith
dates_length (p ∷ ps) =
    omega
      (arith, length-append (to_stc p.stc) (dates_of ps), (to_stc_bytes p.stc).0, dates_length ps)

pub content-append : (qs ps : List Packet) → content_of (qs ++ ps) ≡ content_of qs ++ content_of ps
content-append [] ps = refl
content-append (q ∷ qs) ps =
    ap (λ x. q.payload ++ x) (content-append qs ps)
    ∙ sym (append_assoc q.payload (content_of qs) (content_of ps))

pub dates-append : (qs ps : List Packet) → dates_of (qs ++ ps) ≡ dates_of qs ++ dates_of ps
dates-append [] ps = refl
dates-append (q ∷ qs) ps =
    ap (λ x. to_stc q.stc ++ x) (dates-append qs ps)
    ∙ sym (append_assoc (to_stc q.stc) (dates_of qs) (dates_of ps))

-- Packets of one positive size with 64-bit dates, written by file_Write one after another to a
-- new file, each whole, and opened by file_InitRead behind any number of them, are read by
-- file_Read, until b_die, as the packets behind those, with their dates.
pub play-write_packets :
    (len : ℕ) (qs ps : List Packet)
    → 0 < len
    → All (IsPacket len) (qs ++ ps)
    → (st : Input) × (file_init_read (write_packets (qs ++ ps) new_output).file len (length qs) 0
        ≡ some st)
      × (play (suc (length ps)) len st ≡ some ps)
unfolding file_init_read
play-write_packets len qs ps l h =
    let e = write_packets_file (qs ++ ps) new_output in
    let (hq, hp) = All-split (IsPacket len) qs ps h in
    (
      _,
      refl,
      play-Ahead len l ps _ hp (record {
        content =
            ap (λ (s : Stored). drop (len * length qs) s.content) e
            ∙ rw (content-append qs ps, ← content_length len l qs hq)
                (drop_front (content_of qs) (content_of ps));
        dates =
            ap (λ (s : Stored). drop (8 * length qs) s.dates) e
            ∙ rw (dates-append qs ps, ← dates_length qs) (drop_front (dates_of qs) (dates_of ps));
        alive = refl;
      }),
    )
