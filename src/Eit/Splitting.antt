-- ===== src/Eit/Splitting.antt =====
-- eit.c, `output_psi_section`: the packets of a section, and the room for them.
use multicat_supervisor.Base.{
  ℕ, zero, suc, ◌+◌, ◌-◌, ◌/◌, ◌%◌, ◌≤◌, ◌<◌, ◌≡◌, ◌≢◌, refl, ap, ◌∙◌, false, List, ◌∷◌, inl, inr,
  arith, ltb, ◌==◌, Bool-cases, if◌then◌else◌, length, min, All, Bytes,
}
use multicat_supervisor.Io.{Outcome, ok, exit_failure, undefined, ◌>>=◌}
use multicat_supervisor.Eit.Packets.{
  Psi, eit_pid, nb_packet, section_packet, split_loop, output_psi_section,
}

-- How many packets the bytes from an offset on need, the pointer included.
abbrev pub needed : ℕ → ℕ → ℕ
needed len offset = (len - offset + (if offset == 0 then 1 else 0) + 183) / 184

module _ (len offset offset' room : ℕ)
    (at : offset' ≡ min len (offset + (if offset == 0 then 183 else 184))) where
  needed_next : offset' < len → needed len offset ≡ suc room → needed len offset' ≡ room
  needed_next l e = ground arith

  needed_more : offset' < len → needed len offset' ≡ room → needed len offset ≡ suc room
  needed_more l e = ground arith

  needed_last : len ≤ offset' → offset < len → needed len offset ≡ 1
  needed_last l h = ground arith

module _ (psi : Psi) where
  abbrev pub IsTablePacket : Bytes → Type 0
  IsTablePacket ts = psi.get_pid ts ≡ eit_pid

  -- That many packets of the identifier, and the counter behind them.
  abbrev pub Made : Outcome (List Bytes × ℕ) → ℕ → ℕ → Type 0
  Made (ok (ps, cc')) n cc = (length ps ≡ n) × All IsTablePacket ps × (cc' ≡ (cc + n) % 16)
  Made exit_failure n cc = ⊥
  Made undefined n cc = ⊥

  pub section_packet-IsTablePacket :
      (section : Bytes) (offset cc : ℕ) → IsTablePacket (section_packet psi section offset cc)
  unfolding section_packet
  section_packet-IsTablePacket section offset cc =
      let (ts, offset') = psi.split section offset in
      let e : psi.get_pid (psi.set_cc (psi.set_pid ts eit_pid) cc) ≡ eit_pid =
        psi.get_pid-set_cc _ cc ∙ psi.get_pid-set_pid ts eit_pid (omega arith) in
      elim (Bool-cases (offset' == length section)) [
        | inl h ↦ rw h (psi.get_pid-split_end _ ∙ e)
        | inr h ↦ rw h e
      ]

  Made-suc :
      (ts : Bytes) (r : Outcome (List Bytes × ℕ)) (n cc : ℕ)
      → IsTablePacket ts
      → Made r n ((cc + 1) % 16)
      → Made (r >>= λ r. ok (ts ∷ r.0, r.1)) (suc n) cc
  Made-suc ts (ok (ps, cc')) n cc h (e, hs, c) = (ap suc e, (h, hs), omega arith)
  Made-suc ts exit_failure n cc h m = absurd m
  Made-suc ts undefined n cc h m = absurd m

  split_loop-Made :
      (room : ℕ) (section : Bytes) (offset cc : ℕ)
      → offset < length section
      → needed (length section) offset ≡ room
      → Made (split_loop psi room section offset cc) room cc
  unfolding split_loop
  split_loop-Made zero section offset cc l e = absurd (ground arith)
  split_loop-Made (suc room) section offset cc l e =
      let at = psi.split_offset section offset in
      let p = section_packet-IsTablePacket section offset cc in
      elim (Bool-cases (ltb (psi.split section offset).1 (length section))) [
        | inl h ↦
            let next =
              split_loop-Made room section (psi.split section offset).1 ((cc + 1) % 16)
                (ground arith) (needed_next _ offset _ room at (ground arith) e) in
            rw h (Made-suc _ _ room cc p next)
        | inr h ↦
            let last = needed_last _ offset _ room at (ground arith) l in
            let none : room ≡ 0 = omega arith in rw (h, none) (refl, (p, tt), refl)
      ]

  split_loop_other :
      (room : ℕ) (section : Bytes) (offset cc : ℕ)
      → offset < length section
      → needed (length section) offset ≢ room
      → split_loop psi room section offset cc ≡ undefined
  unfolding split_loop
  split_loop_other zero section offset cc l e = refl
  split_loop_other (suc room) section offset cc l e =
      let at = psi.split_offset section offset in
      elim (Bool-cases (ltb (psi.split section offset).1 (length section))) [
        | inl h ↦
            let next =
              split_loop_other room section (psi.split section offset).1 ((cc + 1) % 16)
                (ground arith) (λ n. e (needed_more _ offset _ room at (ground arith) n)) in
            rw (h, next) refl
        | inr h ↦
            let last = needed_last _ offset _ room at (ground arith) l in
            let some_left : (room == 0) ≡ false = ground arith in rw (h, some_left) refl
      ]

  -- A section that is not empty needs its length plus one, in units of 184, rounded up, as
  -- packets. If that is the number that output_psi_section allocates, the length in units of 188,
  -- rounded up, that many packets of the EIT identifier are made, and the counter goes on by as
  -- many modulo 16; otherwise memory behind the buffer is written.
  pub output_psi_section-Made :
      (section : Bytes) (cc : ℕ)
      → 0 < length section
      → let n = (length section + 184) / 184 in
        (n ≡ nb_packet (length section) → Made (output_psi_section psi section cc) n cc)
        × (n ≢ nb_packet (length section) → output_psi_section psi section cc ≡ undefined)
  unfolding output_psi_section
  output_psi_section-Made section cc l = (
    λ e. rw e (split_loop-Made _ section 0 cc l (omega (arith, e))),
    λ e. split_loop_other _ section 0 cc l (λ h. e (omega arith)),
  )
