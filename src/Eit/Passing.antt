-- ===== src/Eit/Passing.antt =====
-- eit.c, `add_eit`: what it makes of the packets of a buffer.
use mathlib.Core.List.{append_assoc, append-nil}
use mathlib.Core.Path.{subst}
use multicat_supervisor.Base.{
  ℕ, zero, suc, ◌+◌, ◌*◌, ◌-◌, ◌/◌, ◌%◌, ◌≤◌, ◌<◌, ◌≡◌, refl, sym, ap, ◌∙◌, true, false, Option,
  some, List, [], ◌∷◌, ◌++◌, inl, inr, arith, ltb, ◌==◌, Bool-cases, if◌then◌else◌, length,
  length-append, All, Bytes,
}
use multicat_supervisor.Io.{Outcome, ok, exit_failure, undefined}
use multicat_supervisor.Eit.{Info, Table, Static, generate_table, set_times, InfoSection}
use multicat_supervisor.Eit.Packets.{
  Psi, ts_size, eit_pid, nb_packet, output_psi_section, generate_eit, packets_in, has_eit, is_eit,
  add_packets, replace_loop, latest, add_eit,
}
use multicat_supervisor.Eit.Splitting.{IsTablePacket, Made, output_psi_section-Made}

abbrev pub next_list : List (List Bytes) → List Bytes
next_list [] = []
next_list (m ∷ ms) = m

abbrev pub later_lists : List (List Bytes) → List (List Bytes)
later_lists [] = []
later_lists (m ∷ ms) = ms

module _ (psi : Psi) where
  -- The tables that are made for that many EIT packets: of the present event and of the one that
  -- follows in turn, each out of what the one before has left.
  abbrev pub tables : ℕ → ℕ → Info → Static → List Table
  tables now zero info st = []
  tables now (suc n) info st =
      let (table, info', st') = generate_table now info st in
      table ∷ tables now n info' (record st' { section = 1 - st.section })

  abbrev pub count_eit : List Bytes → ℕ
  count_eit [] = 0
  count_eit (p ∷ ps) = let rest = count_eit ps in if is_eit psi p then suc rest else rest

  -- The table makes at most `most` packets, for which its buffer has the exact room.
  abbrev pub FitsIn : ℕ → Table → Type 0
  FitsIn most t =
      let n = length (psi.encode t) in
      (0 < n) × ((n + 184) / 184 ≡ nb_packet n) × (nb_packet n ≤ most)

  -- The lists of packets for that many tables, each as output_psi_section makes it of the table's bytes
  -- with the counter that the one before has left, and what is left in the end.
  abbrev pub Inserted : ℕ → ℕ → Info → Static → List (List Bytes) → Info → Static → Type 0
  Inserted now zero info st [] info' st' = (info' ≡ info) × (st' ≡ st)
  Inserted now zero info st (m ∷ ms) info' st' = ⊥
  Inserted now (suc n) info st [] info' st' = ⊥
  Inserted now (suc n) info st (m ∷ ms) info'' st'' =
      let (table, info', st') = generate_table now info st in
      let next = (st'.cc + length m) % 16 in
      (output_psi_section psi (psi.encode table) st'.cc ≡ ok (m, next))
      × (length m ≡ (length (psi.encode table) + 184) / 184)
      × All (IsTablePacket psi) m
      × Inserted now n info' (record st' { cc = next; section = 1 - st.section }) ms info'' st''

  -- The valid packets in their order, with a list in the place of each EIT packet.
  abbrev pub replaced : List Bytes → List (List Bytes) → List Bytes
  replaced [] ms = []
  replaced (p ∷ ps) ms =
      if psi.validate p
      then (if psi.get_pid p == eit_pid
          then next_list ms ++ replaced ps (later_lists ms)
          else p ∷ replaced ps ms)
      else replaced ps ms

  set_times_section :
      (now : ℕ) (s : InfoSection) (st : Static) → (set_times now s st).2.section ≡ st.section
  unfolding set_times
  set_times_section now s st = ground arith

  generate_table_section :
      (now : ℕ) (info : Info) (st : Static) → (generate_table now info st).2.section ≡ st.section
  unfolding generate_table
  generate_table_section now info st = set_times_section now _ st

  -- The counter is not looked at.
  generate_table_cc :
      (now : ℕ) (info : Info) (st : Static) (cc : ℕ)
      → generate_table now info (record st { cc = cc })
        ≡ (let (t, info', st') = generate_table now info st in (t, info', record st' { cc = cc }))
  unfolding generate_table set_times
  generate_table_cc now info st counter = elim (Bool-cases (st.section == 0)) [
    | inl e ↦ rw e refl
    | inr e ↦ rw e refl
  ]

  tables_cc :
      (now n : ℕ) (info : Info) (st : Static) (cc : ℕ)
      → tables now n info (record st { cc = cc }) ≡ tables now n info st
  tables_cc now zero info st counter = refl
  tables_cc now (suc n) info st counter =
      let (t, info', st') = generate_table now info st in
      rw (generate_table_cc now info st counter)
        (ap (λ l. t ∷ l) (tables_cc now n info' (record st' { section = 1 - st.section }) counter))

  -- A table is made, and the counter goes on.
  Made-parts :
      (r : Outcome (List Bytes × ℕ)) (n counter : ℕ)
      → Made psi r n counter
      → (m : List Bytes) × (r ≡ ok (m, (counter + length m) % 16))
        × (length m ≡ n)
        × All (IsTablePacket psi) m
  Made-parts (ok (m, c)) n counter (e, hs, k) =
      (m, let q : c ≡ (counter + length m) % 16 = rw e k in ap (λ x. ok (m, x)) q, e, hs)
  Made-parts exit_failure n counter h = absurd h
  Made-parts undefined n counter h = absurd h

  generate_eit-made :
      (most now : ℕ) (info : Info) (st : Static)
      → let (table, info', st') = generate_table now info st in
        FitsIn most table
        → (m : List Bytes) × (generate_eit psi now info st
            ≡ ok (m, info', record st' { cc = (st'.cc + length m) % 16 }))
          × (output_psi_section psi (psi.encode table) st'.cc ≡ ok (m, (st'.cc + length m) % 16))
          × (length m ≡ (length (psi.encode table) + 184) / 184)
          × (length m ≤ most)
          × All (IsTablePacket psi) m
  unfolding generate_eit
  generate_eit-made most now info st (pos, room, l) =
      let (table, info', st') = generate_table now info st in
      let n = (length (psi.encode table) + 184) / 184 in
      let (m, e, h, hs) =
        Made-parts (output_psi_section psi (psi.encode table) st'.cc) n st'.cc
          ((output_psi_section-Made psi (psi.encode table) st'.cc pos).0 room) in
      (m, rw e refl, e, h, omega arith, hs)

  -- What the second loop of `add_eit` comes to behind the packets that are there.
  abbrev Replaced :
      ℕ → List Bytes → List Bytes → Info → Static → Outcome (List Bytes × Info × Static) → Type 0
  Replaced now ps tab info st r =
      (ms : List (List Bytes)) × (info' : Info) × (st' : Static) × (r
        ≡ ok (tab ++ replaced ps ms, info', st'))
      × Inserted now (count_eit ps) info st ms info' st'

  replace_table :
      (now : ℕ) (p : Bytes) (ps tab made : List Bytes) (info info' : Info) (st st' : Static)
      → psi.validate p ≡ true
      → (psi.get_pid p == eit_pid) ≡ true
      → generate_eit psi now info st ≡ ok (made, info', st')
      → ltb 20 (length tab + length made) ≡ false
      → replace_loop psi now (p ∷ ps) tab info st
        ≡ replace_loop psi now ps
            (tab ++ made)
            info'
            (record st' { section = if st'.section == 0 then 1 else 0 })
  unfolding replace_loop add_packets
  replace_table now p ps tab made info info' st st' v e g fits = rw (v, e, g, fits) refl

  count_here :
      (p : Bytes) (ps : List Bytes)
      → psi.validate p ≡ true
      → (psi.get_pid p == eit_pid) ≡ true
      → count_eit (p ∷ ps) ≡ suc (count_eit ps)
  count_here p ps v e = rw (v, e) refl

  replaced_here :
      (p : Bytes) (ps made : List Bytes) (ms : List (List Bytes))
      → psi.validate p ≡ true
      → (psi.get_pid p == eit_pid) ≡ true
      → replaced (p ∷ ps) (made ∷ ms) ≡ made ++ replaced ps ms
  replaced_here p ps made ms v e = rw (v, e) refl

  toggled : (s : ℕ) → s < 2 → (if s == 0 then 1 else 0) ≡ 1 - s
  toggled s h = ground arith

  replace_loop-Replaced :
      (most now : ℕ) (ps tab : List Bytes) (info : Info) (st : Static)
      → All (FitsIn most) (tables now (count_eit ps) info st)
      → 0 < most
      → st.section < 2
      → length tab + most * length ps ≤ 20
      → Replaced now ps tab info st (replace_loop psi now ps tab info st)
  unfolding replace_loop add_packets
  replace_loop-Replaced most now [] tab info st h o s l =
      ([], info, st, rw (append-nil tab) refl, (refl, refl))
  replace_loop-Replaced most now (p ∷ ps) tab info st h o s l = elim (Bool-cases (psi.validate p)) [
    | inl v ↦ elim (Bool-cases (psi.get_pid p == eit_pid)) [
      | inl e ↦
          let (table, info', st') = generate_table now info st in
          let all : All (FitsIn most)
              (table ∷ tables now (count_eit ps) info' (record st' { section = 1 - st.section })) =
            rw (v, e) at h in
          let (made, g, out, n, lm, hm) = generate_eit-made most now info st all.0 in
          let next = (st'.cc + length made) % 16 in
          let turned : Static = record st' { cc = next; section = 1 - st.section } in
          let fits : ltb 20 (length tab + length made) ≡ false = ground arith in
          let others : All (FitsIn most) (tables now (count_eit ps) info' turned) =
            rw (tables_cc now (count_eit ps) info' (record st' { section = 1 - st.section }) next)
              all.1 in
          let (ms, info'', st'', r, i) =
            replace_loop-Replaced most now ps (tab ++ made) info' turned others o (omega arith)
              (rw length-append (omega arith)) in
          let sec : st'.section ≡ st.section = generate_table_section now info st in
          let z : (if st'.section == 0 then 1 else 0) ≡ 1 - st.section =
            rw sec (toggled st.section s) in
          (
            made ∷ ms,
            info'',
            st'',
            replace_table now p ps tab made info info' st (record st' { cc = next }) v e g fits
                ∙ ap
                    (λ x.
                      replace_loop psi now ps (tab ++ made) info'
                        (record st' { cc = next; section = x }))
                    z
                ∙ r
                ∙ ap (λ x. ok (x, info'', st''))
                    (append_assoc tab made (replaced ps ms)
                      ∙ ap (λ x. tab ++ x) (sym (replaced_here p ps made ms v e))),
            subst (λ k. Inserted now k info st (made ∷ ms) info'' st'') (sym (count_here p ps v e))
                (out, n, hm, i),
          )
      | inr e ↦
          let fits : ltb 20 (length tab + 1) ≡ false = ground arith in
          let others : All (FitsIn most) (tables now (count_eit ps) info st) = rw (v, e) at h in
          let (ms, info'', st'', r, i) =
            replace_loop-Replaced most now ps (tab ++ p ∷ []) info st others o s
              (rw length-append (omega arith)) in
          (
            ms,
            info'',
            st'',
            rw (v, e, fits, r)
                (ap (λ x. ok (x, info'', st'')) (append_assoc tab (p ∷ []) (replaced ps ms))),
            rw (v, e) i,
          )
    ]
    | inr v ↦
        let others : All (FitsIn most) (tables now (count_eit ps) info st) = rw v at h in
        let (ms, info'', st'', r, i) =
          replace_loop-Replaced most now ps tab info st others o s (omega arith) in
        (ms, info'', st'', rw (v, r) refl, rw v i)
  ]

  -- In a buffer with an EIT packet, where each of the tables that add_eit makes for its EIT
  -- packets, one after the other, has bytes that take as many packets as their buffer has room
  -- for, at most the positive number most, and most times the packets of the buffer is at most
  -- 20, add_eit gives 1, and the buffer holds the valid packets in their order, with a list of
  -- packets in the place of each EIT packet. Each list has (n + 184) / 184 packets for n bytes,
  -- all of the EIT identifier, as output_psi_section makes them of the table of generate_table,
  -- with the counter that the one before has left; the sections are in turn.
  pub add_eit-replaced :
      (most now : ℕ) (shared : Option Info) (buffer : Bytes) (info : Info) (st : Static)
      → let ps = packets_in psi (length buffer / ts_size) buffer in
        has_eit psi ps ≡ true
        → All (FitsIn most) (tables now (count_eit ps) (latest psi shared info) st)
        → 0 < most
        → most * length ps ≤ 20
        → st.section < 2
        → (ms : List (List Bytes)) × (info' : Info) × (st' : Static) × (add_eit psi now shared
              buffer info st
            ≡ ok (some (replaced ps ms), info', st'))
          × Inserted now (count_eit ps) (latest psi shared info) st ms info' st'
  unfolding add_eit
  add_eit-replaced most now shared buffer info st e h o l s =
      let (ms, info', st', r, i) =
        replace_loop-Replaced most now (packets_in psi (length buffer / ts_size) buffer) []
          (latest psi shared info) st h o s (omega arith) in
      (ms, info', st', rw (e, r) refl, i)
