-- ===== src/Reordertp/Safety.antt =====
-- reordertp.c: one turn of the inner loop of `RetxCheck`, on a list that is split at its two blocks.
use native.Mathlib.Nat.{mod-lt}
use mathlib.Core.Path.{subst}
use multicat_supervisor.Base.{
  ℕ, zero, suc, ◌+◌, ◌%◌, ◌<◌, ◌≤◌, ◌≡◌, refl, sym, ap, ◌∙◌, Option, none, some, List, [], ◌∷◌,
  ◌++◌, inl, inr, map, arith, Bool-cases, Option-cases, leb, ◌==◌, length, length-set, length-map,
  length-append, get_elem?, set, All,
}
use multicat_supervisor.Io.{Outcome, ok, exit_failure, undefined}
use multicat_supervisor.Reordertp.{Block, Config, State}
use multicat_supervisor.Reordertp.Retx.{
  Input, Target, next_peer, get_fd, behind, retarget, dereference, missing, ask, go_on,
  compare_blocks, Turn,
}
use multicat_supervisor.Reordertp.Links.{
  Distinct, CursorOk, Valid, Distinct-drop, behind-append, behind-second, prev_addr-second,
  unlink-second, InQueue-second, retarget-All, ==_self,
}

pub not_below : (i : ℕ) → i < 0 → ⊥
not_below i h = omega arith

some_inj {ℓ} : {A : Type ℓ} (a b : A) → some a ≡ some b → b ≡ a
some_inj a b e = cc

pub get_elem?-cases {ℓ} :
    {A : Type ℓ} (xs : List A) (i : ℕ) → i < length xs → (x : A) × (get_elem? xs i ≡ some x)
get_elem?-cases [] i h = elim (not_below i h) [ ]
get_elem?-cases (x ∷ xs) zero h = (x, refl)
get_elem?-cases (x ∷ xs) (suc i) h = get_elem?-cases xs i (omega arith)

pub get_elem?-set {ℓ} :
    {A : Type ℓ} (xs : List A) (i : ℕ) (v : A) → i < length xs → get_elem? (set xs i v) i ≡ some v
get_elem?-set [] i v h = elim (not_below i h) [ ]
get_elem?-set (x ∷ xs) zero v h = refl
get_elem?-set (x ∷ xs) (suc i) v h = get_elem?-set xs i v (omega arith)

get_elem?-map {ℓ κ} :
    {A : Type ℓ} {B : Type κ} (f : A → B) (xs : List A) (i : ℕ) (v : A)
    → get_elem? xs i ≡ some v
    → get_elem? (map f xs) i ≡ some (f v)
get_elem?-map f [] i v e = cc
get_elem?-map f (x ∷ xs) zero v e = cc
get_elem?-map f (x ∷ xs) (suc i) v e = get_elem?-map f xs i v e

pub All-get {ℓ κ} :
    {A : Type ℓ} (P : A → Type κ) (xs : List A) (i : ℕ) (v : A)
    → All P xs
    → get_elem? xs i ≡ some v
    → P v
All-get P [] i v h e = cc
All-get P (x ∷ xs) zero v h e = rw (some_inj x v e) h.0
All-get P (x ∷ xs) (suc i) v h e = All-get P xs i v h.1 e

pub All-set {ℓ κ} :
    {A : Type ℓ} (P : A → Type κ) (xs : List A) (i : ℕ) (v : A)
    → All P xs
    → P v
    → All P (set xs i v)
All-set P [] i v h p = h
All-set P (x ∷ xs) zero v h p = (p, h.1)
All-set P (x ∷ xs) (suc i) v h p = (h.0, All-set P xs i v h.1 p)

-- How many blocks a cursor has in front of it.
abbrev pub count : Option (Block × List Block) → ℕ
count none = 0
count (some (p, rest)) = length rest

abbrev pub in_front : List Block → Option ℕ → ℕ
in_front bs none = length bs
in_front bs (some a) = count (behind a bs)

abbrev pub cursor : Option (Option ℕ) → Option ℕ
cursor none = none
cursor (some c) = c

abbrev pub left : State → ℕ → ℕ
left st i = in_front st.queue (cursor (get_elem? st.cursors i))

-- The state is valid, and `i_last_retx_input` is the index of an input.
abbrev pub Safe : List Input → State → Type 0
Safe inputs st = Valid st × (st.last_retx_input < length inputs)

-- What another turn leaves: a safe state with as many passes, and one block less to look at.
abbrev pub Progress : List Input → State → ℕ → State → Type 0
Progress inputs st i st' =
    Safe inputs st'
    × (length st'.cursors ≡ length st.cursors)
    × (length st'.queue ≤ length st.queue)
    × (suc (left st' i) ≡ left st i)

abbrev pub TurnOk : List Input → State → ℕ → Outcome Turn → Type 0
TurnOk inputs st i (ok Turn.leave) = Unit
TurnOk inputs st i (ok (Turn.again st' rs)) = Progress inputs st i st'
TurnOk inputs st i _ = ⊥

abbrev pub Found : List Input → Outcome (Target × ℕ) → Type 0
Found inputs (ok (target, last)) = last < length inputs
Found inputs _ = ⊥

module _ (inputs : List Input) (cfg : Config) (some_input : 0 < length inputs) where
  next-lt : (last : ℕ) → (last + 1) % length inputs < length inputs
  next-lt last = mod-lt (last + 1) some_input

  next_peer-lt :
      (tries last : ℕ) → last < length inputs → next_peer inputs tries last < length inputs
  unfolding next_peer
  next_peer-lt zero last h = h
  next_peer-lt (suc tries) last h =
      let m = next-lt last in
      let r = next_peer-lt tries ((last + 1) % length inputs) m in ground arith

  pub get_fd-Found : (last : ℕ) → last < length inputs → Found inputs (get_fd inputs cfg last)
  unfolding get_fd
  get_fd-Found last h = elim (Option-cases cfg.retx_fd) [
    | inl e ↦
        let m = next_peer-lt (length inputs) last h in
        let (x, q) = get_elem?-cases inputs (next_peer inputs (length inputs) last) m in
        rw (e, get_fd, q) m
    | inr (fd, e) ↦ rw e h
  ]

  -- The state with the cursor of the pass moved to a block.
  abbrev pub moved : State → ℕ → Block → State
  moved st i c = record st { cursors = set st.cursors i (some c.addr) }

  module _ (st : State) (i : ℕ) (pre : List Block) (p c : Block) (post : List Block)
      (eq : st.queue ≡ pre ++ p ∷ c ∷ post) (safe : Safe inputs st)
      (in_range : i < length st.cursors) where
    distinct : Distinct (pre ++ p ∷ c ∷ post)
    distinct = subst Distinct eq safe.0.0

    left-moved : left (moved st i c) i ≡ length post
    left-moved =
        rw
          (
            get_elem?-set st.cursors i (some c.addr) in_range,
            eq,
            behind-second pre p c post distinct,
          )
          refl

    pub moved-Progress : left st i ≡ suc (length post) → Progress inputs st i (moved st i c)
    moved-Progress l = (
      (
        (
          safe.0.0,
          All-set (CursorOk st.queue) st.cursors i (some c.addr) safe.0.1
              (rw eq (InQueue-second pre p c post)),
        ),
        safe.1,
      ),
      length-set st.cursors i (some c.addr),
      omega arith,
      ap suc left-moved ∙ sym l,
    )

    unlinked : State
    unlinked = record st {
      queue = pre ++ p ∷ post;
      cursors = map (retarget c.addr p.addr) (set st.cursors i (some c.addr));
    }

    dereference-ok : dereference c.addr (moved st i c) ≡ ok unlinked
    unfolding dereference unlinked
    dereference-ok =
        rw
          (
            eq,
            dereference,
            prev_addr-second pre p c post distinct,
            eq,
            unlink-second pre p c post distinct,
          )
          refl

    left-unlinked : left unlinked i ≡ length post
    unfolding unlinked
    left-unlinked =
        rw
          (
            get_elem?-map (retarget c.addr p.addr) (set st.cursors i (some c.addr)) i (some c.addr)
                (get_elem?-set st.cursors i (some c.addr) in_range),
            ==_self c.addr,
            behind-append pre p post (Distinct-drop pre p c post distinct),
          )
          refl

    unlinked-Progress : left st i ≡ suc (length post) → Progress inputs st i unlinked
    unfolding unlinked
    unlinked-Progress l = (
      (
        (
          Distinct-drop pre p c post distinct,
          retarget-All pre p c post (set st.cursors i (some c.addr)) (
              All-set (CursorOk (pre ++ p ∷ c ∷ post)) st.cursors i (some c.addr)
                (subst (λ q. All (CursorOk q) st.cursors) eq safe.0.1)
                (InQueue-second pre p c post)),
        ),
        safe.1,
      ),
      (length-map (retarget c.addr p.addr) (set st.cursors i (some c.addr))
          ∙ length-set st.cursors i (some c.addr)),
      rw (eq, length-append pre (p ∷ post), length-append pre (p ∷ c ∷ post)) (omega arith),
      ap suc left-unlinked ∙ sym l,
    )

    -- A request changes nothing of the state but the input asked last.
    asked-Progress :
        (found : Outcome (Target × ℕ))
        → get_fd inputs cfg st.last_retx_input ≡ found
        → Found inputs found
        → left st i ≡ suc (length post)
        → TurnOk inputs st i (go_on inputs cfg (ask inputs cfg p c (moved st i c)))
    asked-Progress (ok (target, last)) e h l =
        let m = moved-Progress l in rw (TurnOk, e) ((m.0.0, h), m.1, m.2, m.3)
    asked-Progress exit_failure e h l = elim h [ ]
    asked-Progress undefined e h l = elim h [ ]

    pub compare_blocks-ok :
        left st i ≡ suc (length post)
        → TurnOk inputs st i (go_on inputs cfg (compare_blocks inputs cfg p c (moved st i c)))
    unfolding compare_blocks
    compare_blocks-ok l = elim (Bool-cases (c.seqnum == p.seqnum)) [
      | inl dup ↦ rw (dup, dereference-ok) (unlinked-Progress l)
      | inr new ↦ elim (Bool-cases (c.seqnum == (p.seqnum + 1) % 65536)) [
        | inl next ↦ rw (new, next) (moved-Progress l)
        | inr gap ↦ elim (Bool-cases (leb (missing p c) cfg.max_retx_burst)) [
          | inl few ↦
              rw (new, gap, few)
                (asked-Progress (get_fd inputs cfg st.last_retx_input) refl
                  (get_fd-Found st.last_retx_input safe.1) l)
          | inr many ↦ rw (new, gap, many) (moved-Progress l)
        ]
      ]
    ]
