-- ===== src/Reordertp/Order.antt =====
-- reordertp.c: the place of a packet in the list of `PacketRecv`, by sequence numbers that wrap.
use mathlib.Core.List.{Perm}
use mathlib.Core.List.Perm
use multicat_supervisor.Base.{
  ℕ, ◌+◌, ◌-◌, ◌%◌, ◌≤◌, ◌<◌, ◌≡◌, refl, Option, none, some, List, [], ◌∷◌, inl, inr, true, false,
  arith, Bool-cases, u16,
}
use multicat_supervisor.Reordertp.{Block, is_ahead, place, insert}

-- How far a sequence number lies behind `base`, going up round 2 ^ 16.
abbrev pub offset : ℕ → Block → ℕ
offset base b = (b.seqnum + 65536 - base) % 65536

-- The block's number is one of the 2 ^ 15 from `base` on.
abbrev pub InWindow : ℕ → Block → Type 0
InWindow base b = (b.seqnum < u16) × (offset base b < 32768)

-- All blocks lie in the window, and their offsets ascend.
abbrev pub Ascends : ℕ → List Block → Type 0
Ascends base [] = Unit
Ascends base (b ∷ []) = InWindow base b
Ascends base (b ∷ c ∷ bs) =
    InWindow base b × (offset base b ≤ offset base c) × Ascends base (c ∷ bs)

-- In the window the test of the code compares the offsets.
is_ahead_iff_true :
    (base : ℕ) (x y : Block)
    → base < u16
    → InWindow base x
    → InWindow base y
    → is_ahead x y ≡ true
    → offset base y < offset base x
is_ahead_iff_true base x y hb hx hy e = ground arith

is_ahead_iff_false :
    (base : ℕ) (x y : Block)
    → base < u16
    → InWindow base x
    → InWindow base y
    → is_ahead x y ≡ false
    → offset base x ≤ offset base y
is_ahead_iff_false base x y hb hx hy e = ground arith

Ascends-head : (base : ℕ) (b : Block) (bs : List Block) → Ascends base (b ∷ bs) → InWindow base b
Ascends-head base b [] h = h
Ascends-head base b (c ∷ bs) h = h.0

Ascends-tail : (base : ℕ) (b : Block) (bs : List Block) → Ascends base (b ∷ bs) → Ascends base bs
Ascends-tail base b [] h = tt
Ascends-tail base b (c ∷ bs) h = h.2

-- No block comes before the offset `n`.
abbrev NotBefore : ℕ → ℕ → List Block → Type 0
NotBefore base n [] = Unit
NotBefore base n (b ∷ bs) = n ≤ offset base b

Ascends-cons :
    (base : ℕ) (b : Block) (bs : List Block)
    → InWindow base b
    → NotBefore base (offset base b) bs
    → Ascends base bs
    → Ascends base (b ∷ bs)
Ascends-cons base b [] w n h = w
Ascends-cons base b (c ∷ bs) w n h = (w, n, h)

Ascends-next :
    (base : ℕ) (b : Block) (bs : List Block)
    → Ascends base (b ∷ bs)
    → NotBefore base (offset base b) bs
Ascends-next base b [] h = tt
Ascends-next base b (c ∷ bs) h = h.1

-- What the search back says of the list: the new block goes first only if it is before the first
-- block; else the result ascends, begins with the same block, and holds the same blocks.
abbrev Placed : ℕ → Block → List Block → Option (List Block) → Type 0
Placed base y bs none = NotBefore base (offset base y) bs
Placed base y bs (some bs') =
    Ascends base bs' × Perm bs' (y ∷ bs) × ((n : ℕ) → NotBefore base n bs → NotBefore base n bs')

module _ (base : ℕ) (y : Block) (hb : base < u16) (hy : InWindow base y) where
  place-cons :
      (b : Block) (bs : List Block) (found : Option (List Block))
      → place y bs ≡ found
      → Ascends base (b ∷ bs)
      → Placed base y bs found
      → Placed base y (b ∷ bs) (place y (b ∷ bs))
  unfolding place
  place-cons b bs (some bs') e h (asc, perm, before) = rw e (
    Ascends-cons base b bs' (Ascends-head base b bs h)
        (before (offset base b) (Ascends-next base b bs h)) asc,
    Perm.trans (Perm.cons b perm) (Perm.swap y b bs),
    λ n q. q,
  )
  place-cons b bs none e h p =
      let w = Ascends-head base b bs h in
      elim (Bool-cases (is_ahead b y)) [
        | inl ahead ↦
            let lt = is_ahead_iff_true base b y hb w hy ahead in rw (e, ahead) (ground arith)
        | inr behind ↦
            rw (e, behind)
              (
                (
                  w,
                  is_ahead_iff_false base b y hb w hy behind,
                  Ascends-cons base y bs hy p (Ascends-tail base b bs h),
                ),
                Perm.swap y b bs,
                λ n q. q,
              )
      ]

  place-Placed : (bs : List Block) → Ascends base bs → Placed base y bs (place y bs)
  unfolding place
  place-Placed [] h = tt
  place-Placed (b ∷ bs) h =
      place-cons b bs (place y bs) refl h (place-Placed bs (Ascends-tail base b bs h))

  insert-none : (bs : List Block) → place y bs ≡ none → insert y bs ≡ y ∷ bs
  unfolding insert
  insert-none bs e = rw (insert, e) refl

  insert-some : (bs bs' : List Block) → place y bs ≡ some bs' → insert y bs ≡ bs'
  unfolding insert
  insert-some bs bs' e = rw (insert, e) refl

  insert-found :
      (bs : List Block) (found : Option (List Block))
      → place y bs ≡ found
      → Ascends base bs
      → Placed base y bs found
      → Ascends base (insert y bs) × Perm (insert y bs) (y ∷ bs)
  insert-found bs none e h p =
      rw (insert-none bs e) (Ascends-cons base y bs hy p h, Perm.refl (y ∷ bs))
  insert-found bs (some bs') e h (asc, perm, before) = rw (insert-some bs bs' e) (asc, perm)

  -- As long as the numbers in the list and the new one lie in the 2 ^ 15 numbers from a base on,
  -- the search back from the last block keeps the list in the order of the sequence numbers,
  -- round the wrap at 2 ^ 16, and the list has the new block and the old ones, each as often as
  -- before.
  pub insert_sorted :
      (bs : List Block) → Ascends base bs → Ascends base (insert y bs) × Perm (insert y bs) (y ∷ bs)
  insert_sorted bs h = insert-found bs (place y bs) refl h (place-Placed bs h)
