-- ===== src/Eit/Packets.antt =====
-- eit.c, `output_psi_section` and `add_eit`, and the parts of biTStream that they call.
use multicat_supervisor.Base.{
  ℕ, zero, suc, ◌+◌, ◌/◌, ◌%◌, ◌<◌, ◌≡◌, Bool, false, ◌&&◌, ◌||◌, Option, none, some, List, [], ◌∷◌,
  ◌++◌, ltb, ◌==◌, if◌then◌else◌, length, take, drop, min, Bytes,
}
use multicat_supervisor.Io.{Outcome, ok, undefined, ◌>>=◌}
use multicat_supervisor.Eit.{Info, Table, Static, generate_table}

-- TS_SIZE, and EIT_PID, the identifier 0x12 that `add_eit` looks for.
abbrev pub ts_size : ℕ
ts_size = 188

abbrev pub eit_pid : ℕ
eit_pid = 18

-- biTStream (`bitstream/mpeg/ts.h`, `psi.h` and `dvb/si.h`), which the repository only calls. `split` is
-- `psi_split_section` on a packet of 0xff: the packet, and the offset in the section behind what it
-- takes: all there is room for, behind the header, of 4 bytes, and in the first packet the pointer.
pub record Psi : Type 0 where
  pub encode : Table → Bytes
  pub validate : Bytes → Bool
  pub get_pid : Bytes → ℕ
  pub set_pid : Bytes → ℕ → Bytes
  pub set_cc : Bytes → ℕ → Bytes
  pub split : Bytes → ℕ → Bytes × ℕ
  pub split_end : Bytes → Bytes
  pub split_offset :
      (section : Bytes) (offset : ℕ)
      → (split section offset).1
        ≡ min (length section) (offset + (if offset == 0 then 183 else 184))
  -- The identifier is another field than the counter, and in front of the payload.
  pub get_pid-set_pid : (ts : Bytes) (pid : ℕ) → pid < 8192 → get_pid (set_pid ts pid) ≡ pid
  pub get_pid-set_cc : (ts : Bytes) (cc : ℕ) → get_pid (set_cc ts cc) ≡ get_pid ts
  pub get_pid-split_end : (ts : Bytes) → get_pid (split_end ts) ≡ get_pid ts

-- The packets that the buffer of `output_psi_section` has room for.
abbrev pub nb_packet : ℕ → ℕ
nb_packet section_length =
    if section_length % ts_size == 0 then section_length / ts_size else section_length / ts_size + 1

module _ (psi : Psi) where
  -- One packet of a section that begins at the offset.
  unfoldable pub section_packet : Bytes → ℕ → ℕ → Bytes
  section_packet section offset cc =
      let (ts, offset') = psi.split section offset in
      let marked = psi.set_cc (psi.set_pid ts eit_pid) cc in
      if offset' == length section then psi.split_end marked else marked

  -- The loop of `output_psi_section`: a packet behind the end of the buffer is undefined, and so are
  -- packets of the buffer that are not filled.
  unfoldable pub split_loop : ℕ → Bytes → ℕ → ℕ → Outcome (List Bytes × ℕ)
  unfolding section_packet
  split_loop zero section offset cc = undefined
  split_loop (suc room) section offset cc =
      let ts = section_packet section offset cc in
      let cc' = (cc + 1) % 16 in
      let offset' = (psi.split section offset).1 in
      let next = split_loop room section offset' cc' in
      if ltb offset' (length section)
      then (next >>= λ r. ok (ts ∷ r.0, r.1))
      else if room == 0
      then ok (ts ∷ [], cc')
      else undefined

  -- `output_psi_section`
  unfoldable pub output_psi_section : Bytes → ℕ → Outcome (List Bytes × ℕ)
  output_psi_section section cc = split_loop (nb_packet (length section)) section 0 cc

  -- `generate_eit`
  unfoldable pub generate_eit : ℕ → Info → Static → Outcome (List Bytes × Info × Static)
  generate_eit now info st = do
    let (table, info', st') = generate_table now info st
    (packets, cc) ← output_psi_section (psi.encode table) st'.cc
    ok (packets, info', record st' { cc = cc })

  -- The whole packets of a buffer.
  unfoldable pub packets_in : ℕ → Bytes → List Bytes
  packets_in zero buffer = []
  packets_in (suc n) buffer = take ts_size buffer ∷ packets_in n (drop ts_size buffer)

  abbrev pub is_eit : Bytes → Bool
  is_eit packet = psi.validate packet && psi.get_pid packet == eit_pid

  unfoldable pub has_eit : List Bytes → Bool
  has_eit [] = false
  has_eit (p ∷ ps) = let rest = has_eit ps in is_eit p || rest

  -- Packets that are put behind those in `packetTab`, which has 20 places.
  unfoldable pub add_packets : List Bytes → List Bytes → Outcome (List Bytes)
  add_packets tab ps = if ltb 20 (length tab + length ps) then undefined else ok (tab ++ ps)

  -- The second loop of `add_eit`, at the time `now`.
  unfoldable pub replace_loop :
      ℕ → List Bytes → List Bytes → Info → Static → Outcome (List Bytes × Info × Static)
  replace_loop now [] tab info st = ok (tab, info, st)
  replace_loop now (p ∷ ps) tab info st =
      if psi.validate p
      then (if psi.get_pid p == eit_pid
          then (do
            (made, info', st') ← generate_eit now info st
            tab' ← add_packets tab made
            replace_loop now ps tab' info'
                (record st' { section = if st'.section == 0 then 1 else 0 }))
          else (do tab' ← add_packets tab (p ∷ []); replace_loop now ps tab' info st))
      else replace_loop now ps tab info st

  abbrev pub latest : Option Info → Info → Info
  latest none info = info
  latest (some shared) info = shared

  -- `add_eit` on a buffer: `shared` are the tables of the shared memory when they are updated. The
  -- result is 0, or 1 with the packets.
  unfoldable pub add_eit :
      ℕ → Option Info → Bytes → Info → Static → Outcome (Option (List Bytes) × Info × Static)
  add_eit now shared buffer info st =
      let packets = packets_in (length buffer / ts_size) buffer in
      let info' = latest shared info in
      if has_eit packets
      then (do
        (tab, info'', st') ← replace_loop now packets [] info' st
        ok (some tab, info'', st'))
      else ok (none, info', st)
