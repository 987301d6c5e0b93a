-- ===== src/Multicat/Rotation.antt =====
-- multicat.c: the packets of a directory, file by file.
use mathlib.Core.List.{append_assoc, append-nil}
use multicat_supervisor.Base.{
  ℕ, ◌*◌, ◌/◌, min, ◌<◌, ◌≡◌, refl, sym, ap, ◌∙◌, true, false, Option, none, some, List, [], ◌∷◌,
  ◌++◌, inl, inr, arith, ◌==◌, ==_iff, Bool-cases, if◌then◌else◌, length, take_whole, All,
  All-append, i64_min,
}
use multicat_supervisor.Stc.{to_stc}
use multicat_supervisor.AuxFile.{get_dir_file}
use multicat_supervisor.AuxFile.Sizes.{check_file_sizes_whole}
use multicat_supervisor.Multicat.{Stored, Output}
use multicat_supervisor.Multicat.Files.{file_write}
use multicat_supervisor.Multicat.Directories.{
  Directory, put_file, open_for_writing, DirOutput, is_open, dir_write,
}
use multicat_supervisor.Multicat.RoundTrip.{
  Packet, stored_of, content_of, dates_of, new_output, file_write_file, content-append,
  dates-append, content_length, dates_length, IsPacket,
}

-- The packets of one file of the rotation, in their order.
abbrev pub in_file : ℕ → ℕ → List Packet → List Packet
in_file rotate k [] = []
in_file rotate k (p ∷ ps) =
    let rest = in_file rotate k ps in if p.stc / rotate == k then p ∷ rest else rest

abbrev pub stored_at : Option Stored → Stored
stored_at none = record { content = []; dates = [] }
stored_at (some s) = s

-- An empty directory, and the writing of packets one after another, each whole.
abbrev pub new_directory : DirOutput
new_directory = record { dir = λ _. none; current = none; out = new_output }

is_open_lem : (o : Option ℕ) (k : ℕ) → is_open o k ≡ true → o ≡ some k
is_open_lem none k e = cc
is_open_lem (some j) k e = ap some ((==_iff j k).0 e)

put_file_same : (dir : Directory) (k : ℕ) (s : Stored) → stored_at (put_file dir k s k) ≡ s
put_file_same dir k s = let e : (k == k) ≡ true = (==_iff k k).1 refl in rw e refl

put_file_other :
    (dir : Directory) (j k : ℕ) (s : Stored)
    → (j == k) ≡ false
    → stored_at (put_file dir j s k) ≡ stored_at (dir k)
put_file_other dir j k s e = let e' : (k == j) ≡ false = ground arith in rw e' refl

whole_sizes :
    (len m a b : ℕ)
    → 0 < len
    → a ≡ len * m
    → b ≡ 8 * m
    → (min (a / len) (b / 8) * len ≡ a) × (min (a / len) (b / 8) * 8 ≡ b)
whole_sizes len m a b l e h =
    let q : a / len ≡ m = grind arith in (rw q (grind arith), rw q (grind arith))

module _ (now rotate len : ℕ) where
  abbrev pub record_packet : Packet → DirOutput → DirOutput
  record_packet p st =
      (dir_write now rotate len p.stc p.payload (some (length p.payload)) true st).1

  abbrev pub record_packets : List Packet → DirOutput → DirOutput
  record_packets [] st = st
  record_packets (p ∷ ps) st = record_packets ps (record_packet p st)

  in_file-append :
      (k : ℕ) (qs ps : List Packet)
      → in_file rotate k (qs ++ ps) ≡ in_file rotate k qs ++ in_file rotate k ps
  in_file-append k [] ps = refl
  in_file-append k (q ∷ qs) ps = elim (Bool-cases (q.stc / rotate == k)) [
    | inl e ↦ rw e (ap (λ r. q ∷ r) (in_file-append k qs ps))
    | inr e ↦ rw e (in_file-append k qs ps)
  ]

  open_for_writing_whole :
      (ps : List Packet) (o : Option Stored)
      → 0 < len
      → All (IsPacket len) ps
      → stored_at o ≡ stored_of ps
      → open_for_writing len o ≡ stored_of ps
  unfolding open_for_writing
  open_for_writing_whole ps none l h e = e
  open_for_writing_whole ps (some s) l h e =
      let c : length s.content ≡ len * length ps =
        ap (λ (s : Stored). length s.content) e ∙ content_length len l ps h in
      let d : length s.dates ≡ 8 * length ps =
        ap (λ (s : Stored). length s.dates) e ∙ dates_length ps in
      let (x, y) =
        check_file_sizes_whole
          (record { file = some (length s.content); aux = some (length s.dates) }) len l in
      let (c', d') = whole_sizes len (length ps) (length s.content) (length s.dates) l c d in
      rw (x, y, c', d', take_whole s.content, take_whole s.dates) e

  -- The directory holds these packets, and so does the file that is open.
  record Holds (ps : List Packet) (st : DirOutput) : Type 0 where
    at : (k : ℕ) → stored_at (st.dir k) ≡ stored_of (in_file rotate k ps)
    opened : (j : ℕ) → st.current ≡ some j → st.out.file ≡ stored_of (in_file rotate j ps)

  abbrev pub IsDated : Packet → Type 0
  IsDated p = IsPacket len p × (0 < p.stc) × (p.stc < i64_min)

  All-in_file :
      (k : ℕ) (ps : List Packet) → All IsDated ps → All (IsPacket len) (in_file rotate k ps)
  All-in_file k [] h = tt
  All-in_file k (p ∷ ps) (h, hs) = elim (Bool-cases (p.stc / rotate == k)) [
    | inl e ↦ rw e (h.0, All-in_file k ps hs)
    | inr e ↦ rw e (All-in_file k ps hs)
  ]

  stored-append :
      (qs : List Packet) (p : Packet)
      → stored_of (qs ++ p ∷ [])
        ≡ record { content = content_of qs ++ p.payload; dates = dates_of qs ++ to_stc p.stc }
  stored-append qs p =
      rw (content-append qs (p ∷ []), dates-append qs (p ∷ []))
        (rw (append-nil p.payload, append-nil (to_stc p.stc)) refl)

  get_dir_file_lem :
      (stc : ℕ) → 0 < stc → stc < i64_min → get_dir_file now rotate stc ≡ stc / rotate
  unfolding get_dir_file
  get_dir_file_lem stc h l = ground arith

  -- The file that `dir_Write` goes on with.
  abbrev chosen : DirOutput → ℕ → Output
  chosen st k = if is_open st.current k then st.out else record st.out {
    file = open_for_writing len (st.dir k);
    flushed = length (open_for_writing len (st.dir k)).dates;
  }

  file_before :
      (ps : List Packet) (st : DirOutput) (k : ℕ)
      → 0 < len
      → All IsDated ps
      → Holds ps st
      → (chosen st k).file ≡ stored_of (in_file rotate k ps)
  file_before ps st k l h i = elim (Bool-cases (is_open st.current k)) [
    | inl e ↦ rw e (i.opened k (is_open_lem st.current k e))
    | inr e ↦
        rw e
          (open_for_writing_whole (in_file rotate k ps) (st.dir k) l (All-in_file k ps h) (i.at k))
  ]

  -- What the packet does to the state.
  record_packet_lem :
      (ps : List Packet) (p : Packet) (st : DirOutput)
      → 0 < len
      → All IsDated ps
      → IsDated p
      → Holds ps st
      → (out : Output) × (record_packet p st ≡ record {
        dir = put_file st.dir (p.stc / rotate) out.file;
        current = some (p.stc / rotate);
        out = out;
      })
        × (out.file ≡ stored_of (in_file rotate (p.stc / rotate) ps ++ p ∷ []))
  unfolding dir_write
  record_packet_lem ps p st l hs (h, pos, lt) i = (
    (file_write p.stc p.payload (some (length p.payload)) true (chosen st (p.stc / rotate))).1,
    rw (get_dir_file_lem p.stc pos lt) refl,
    file_write_file p.stc p.payload (length p.payload) _
        ∙ rw (file_before ps st (p.stc / rotate) l hs i, take_whole p.payload)
            (sym (stored-append (in_file rotate (p.stc / rotate) ps) p)),
  )

  in_file_same :
      (ps : List Packet) (p : Packet)
      → in_file rotate (p.stc / rotate) (ps ++ p ∷ [])
        ≡ in_file rotate (p.stc / rotate) ps ++ p ∷ []
  in_file_same ps p =
      let e : (p.stc / rotate == p.stc / rotate) ≡ true = (==_iff _ _).1 refl in
      in_file-append (p.stc / rotate) ps (p ∷ []) ∙ rw e refl

  in_file_other :
      (ps : List Packet) (p : Packet) (k : ℕ)
      → (p.stc / rotate == k) ≡ false
      → in_file rotate k (ps ++ p ∷ []) ≡ in_file rotate k ps
  in_file_other ps p k e = in_file-append k ps (p ∷ []) ∙ rw e (append-nil _)

  record_packet-Holds :
      (ps : List Packet) (p : Packet) (st : DirOutput)
      → 0 < len
      → All IsDated ps
      → IsDated p
      → Holds ps st
      → Holds (ps ++ p ∷ []) (record_packet p st)
  record_packet-Holds ps p st l hs h i =
      let (out, e, f) = record_packet_lem ps p st l hs h i in
      let now_in : out.file ≡ stored_of (in_file rotate (p.stc / rotate) (ps ++ p ∷ [])) =
        f ∙ ap stored_of (sym (in_file_same ps p)) in
      rw e (record {
        at = λ k. elim (Bool-cases (p.stc / rotate == k)) [
          | inl same ↦
              let at : p.stc / rotate ≡ k = (==_iff _ _).0 same in
              rw (← at) (put_file_same st.dir (p.stc / rotate) out.file ∙ now_in)
          | inr other ↦
              put_file_other st.dir (p.stc / rotate) k out.file other
              ∙ i.at k
              ∙ ap stored_of (sym (in_file_other ps p k other))
        ];
        opened = λ j h'. let at : p.stc / rotate ≡ j = cc in rw (← at) now_in;
      })

  record_packets-Holds :
      (ps qs : List Packet) (st : DirOutput)
      → 0 < len
      → All IsDated qs
      → All IsDated ps
      → Holds qs st
      → Holds (qs ++ ps) (record_packets ps st)
  record_packets-Holds [] qs st l hq h i = rw (append-nil qs) i
  record_packets-Holds (p ∷ ps) qs st l hq (h, hs) i =
      let next =
        record_packets-Holds ps (qs ++ p ∷ []) (record_packet p st) l
          (All-append IsDated qs (p ∷ []) hq (h, tt)) hs (record_packet-Holds qs p st l hq h i) in
      rw⁻¹ (append_assoc qs (p ∷ []) ps) next

  -- After packets of one positive size, with positive dates below 2 ^ 63 in any order, are
  -- written by dir_Write, each whole, from an empty directory, with a positive rotation, every
  -- file of the directory holds exactly the packets and dates of its interval, in their order,
  -- and nothing else is there.
  pub record_packets-in_file :
      (ps : List Packet) (k : ℕ)
      → 0 < rotate
      → 0 < len
      → All IsDated ps
      → stored_at ((record_packets ps new_directory).dir k) ≡ stored_of (in_file rotate k ps)
  record_packets-in_file ps k r l h =
      (record_packets-Holds ps [] new_directory l tt h
          (record { at = λ k. refl; opened = λ j e. cc })).at
        k
