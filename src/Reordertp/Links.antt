-- ===== src/Reordertp/Links.antt =====
-- reordertp.c: blocks known by their addresses. What the searches by address and the unlinking of a
-- block compute on a list that is split at a block.
use multicat_supervisor.Base.{
  ℕ, ◌≡◌, ◌≢◌, refl, sym, ap, Option, none, some, List, [], ◌∷◌, ◌++◌, ◌⊎◌, inl, inr, map, arith,
  true, false, Bool-cases, ◌==◌, All,
}
use multicat_supervisor.Reordertp.{Block, State}
use multicat_supervisor.Reordertp.Retx.{behind, prev_addr, unlink, retarget}

abbrev pub InQueue : ℕ → List Block → Type 0
InQueue a [] = ⊥
InQueue a (b ∷ bs) = (b.addr ≡ a) ⊎ InQueue a bs

-- No block is at the address.
abbrev pub Fresh : ℕ → List Block → Type 0
Fresh a [] = Unit
Fresh a (b ∷ bs) = (b.addr ≢ a) × Fresh a bs

abbrev pub Distinct : List Block → Type 0
Distinct [] = Unit
Distinct (b ∷ bs) = Fresh b.addr bs × Distinct bs

-- A cursor is NULL or the address of a block of the list.
abbrev pub CursorOk : List Block → Option ℕ → Type 0
CursorOk bs none = Unit
CursorOk bs (some a) = InQueue a bs

-- No two blocks have one address, and no cursor dangles.
abbrev pub Valid : State → Type 0
Valid st = Distinct st.queue × All (CursorOk st.queue) st.cursors

pub ==_self : (a : ℕ) → (a == a) ≡ true
==_self a = ground arith

pub ==_other : (a b : ℕ) → a ≢ b → (a == b) ≡ false
==_other a b h = ground arith

pub other_addr : (a b : ℕ) → (a == b) ≡ false → a ≢ b
other_addr a b e q = ground arith

-- A list split at the block of an address.
abbrev pub Split : ℕ → List Block → Type 0
Split a bs =
    (pre : List Block) × (p : Block) × (rest : List Block) × (bs ≡ pre ++ p ∷ rest) × (p.addr ≡ a)

pub InQueue-Split : (a : ℕ) (bs : List Block) → InQueue a bs → Split a bs
InQueue-Split a [] h = elim h [ ]
InQueue-Split a (b ∷ bs) (inl e) = ([], b, bs, refl, e)
InQueue-Split a (b ∷ bs) (inr h) =
    let (pre, p, rest, e, q) = InQueue-Split a bs h in (b ∷ pre, p, rest, ap (λ l. b ∷ l) e, q)

pub Fresh-at :
    (a : ℕ) (pre : List Block) (p : Block) (rest : List Block)
    → Fresh a (pre ++ p ∷ rest)
    → p.addr ≢ a
Fresh-at a [] p rest h = h.0
Fresh-at a (b ∷ pre) p rest h = Fresh-at a pre p rest h.1

pub Fresh-drop :
    (a : ℕ) (pre : List Block) (p c : Block) (post : List Block)
    → Fresh a (pre ++ p ∷ c ∷ post)
    → Fresh a (pre ++ p ∷ post)
Fresh-drop a [] p c post h = (h.0, h.1.1)
Fresh-drop a (b ∷ pre) p c post h = (h.0, Fresh-drop a pre p c post h.1)

pub Distinct-drop :
    (pre : List Block) (p c : Block) (post : List Block)
    → Distinct (pre ++ p ∷ c ∷ post)
    → Distinct (pre ++ p ∷ post)
Distinct-drop [] p c post h = (h.0.1, h.1.1)
Distinct-drop (b ∷ pre) p c post h =
    (Fresh-drop b.addr pre p c post h.0, Distinct-drop pre p c post h.1)

pub behind-append :
    (pre : List Block) (p : Block) (rest : List Block)
    → Distinct (pre ++ p ∷ rest)
    → behind p.addr (pre ++ p ∷ rest) ≡ some (p, rest)
unfolding behind
behind-append [] p rest h = rw (==_self p.addr) refl
behind-append (b ∷ pre) p rest h =
    rw (==_other b.addr p.addr (λ e. Fresh-at b.addr pre p rest h.0 (sym e)))
      (behind-append pre p rest h.1)

pub Fresh-second :
    (a : ℕ) (pre : List Block) (p c : Block) (post : List Block)
    → Fresh a (pre ++ p ∷ c ∷ post)
    → c.addr ≢ a
Fresh-second a [] p c post h = h.1.0
Fresh-second a (b ∷ pre) p c post h = Fresh-second a pre p c post h.1

pub behind-second :
    (pre : List Block) (p c : Block) (post : List Block)
    → Distinct (pre ++ p ∷ c ∷ post)
    → behind c.addr (pre ++ p ∷ c ∷ post) ≡ some (c, post)
unfolding behind
behind-second [] p c post h = rw (==_other p.addr c.addr (λ e. h.0.0 (sym e)), ==_self c.addr) refl
behind-second (b ∷ pre) p c post h =
    rw (==_other b.addr c.addr (λ e. Fresh-second b.addr pre p c post h.0 (sym e)))
      (behind-second pre p c post h.1)

pub prev_addr-second :
    (pre : List Block) (p c : Block) (post : List Block)
    → Distinct (pre ++ p ∷ c ∷ post)
    → prev_addr c.addr (pre ++ p ∷ c ∷ post) ≡ some p.addr
unfolding prev_addr
prev_addr-second [] p c post h = rw (==_self c.addr) refl
prev_addr-second (b ∷ []) p c post h =
    rw (==_other p.addr c.addr (λ e. h.1.0.0 (sym e))) (prev_addr-second [] p c post h.1)
prev_addr-second (b ∷ d ∷ pre) p c post h =
    rw (==_other d.addr c.addr (λ e. Fresh-second d.addr pre p c post h.1.0 (sym e)))
      (prev_addr-second (d ∷ pre) p c post h.1)

pub unlink-second :
    (pre : List Block) (p c : Block) (post : List Block)
    → Distinct (pre ++ p ∷ c ∷ post)
    → unlink c.addr (pre ++ p ∷ c ∷ post) ≡ pre ++ p ∷ post
unfolding unlink
unlink-second [] p c post h = rw (==_other p.addr c.addr (λ e. h.0.0 (sym e)), ==_self c.addr) refl
unlink-second (b ∷ pre) p c post h =
    rw (==_other b.addr c.addr (λ e. Fresh-second b.addr pre p c post h.0 (sym e)))
      (ap (λ l. b ∷ l) (unlink-second pre p c post h.1))

pub InQueue-first :
    (pre : List Block) (p : Block) (rest : List Block) → InQueue p.addr (pre ++ p ∷ rest)
InQueue-first [] p rest = inl refl
InQueue-first (b ∷ pre) p rest = inr (InQueue-first pre p rest)

pub InQueue-second :
    (pre : List Block) (p c : Block) (post : List Block) → InQueue c.addr (pre ++ p ∷ c ∷ post)
InQueue-second [] p c post = inr (inl refl)
InQueue-second (b ∷ pre) p c post = inr (InQueue-second pre p c post)

InQueue-drop :
    (x : ℕ) (pre : List Block) (p c : Block) (post : List Block)
    → x ≢ c.addr
    → InQueue x (pre ++ p ∷ c ∷ post)
    → InQueue x (pre ++ p ∷ post)
InQueue-drop x [] p c post n (inl e) = inl e
InQueue-drop x [] p c post n (inr (inl e)) = elim (n (sym e)) [ ]
InQueue-drop x [] p c post n (inr (inr h)) = inr h
InQueue-drop x (b ∷ pre) p c post n (inl e) = inl e
InQueue-drop x (b ∷ pre) p c post n (inr h) = inr (InQueue-drop x pre p c post n h)

pub retarget-CursorOk :
    (pre : List Block) (p c : Block) (post : List Block) (cur : Option ℕ)
    → CursorOk (pre ++ p ∷ c ∷ post) cur
    → CursorOk (pre ++ p ∷ post) (retarget c.addr p.addr cur)
retarget-CursorOk pre p c post none h = tt
retarget-CursorOk pre p c post (some x) h = elim (Bool-cases (x == c.addr)) [
  | inl e ↦ rw e (InQueue-first pre p post)
  | inr e ↦ rw e (InQueue-drop x pre p c post (other_addr x c.addr e) h)
]

pub retarget-All :
    (pre : List Block) (p c : Block) (post : List Block) (curs : List (Option ℕ))
    → All (CursorOk (pre ++ p ∷ c ∷ post)) curs
    → All (CursorOk (pre ++ p ∷ post)) (map (retarget c.addr p.addr) curs)
retarget-All pre p c post [] h = tt
retarget-All pre p c post (x ∷ xs) h =
    (retarget-CursorOk pre p c post x h.0, retarget-All pre p c post xs h.1)
