-- ===== src/Reordertp/Passes.antt =====
-- reordertp.c: the loops of `RetxCheck`, over the turns of a pass and over the passes.
use mathlib.Core.Path.{subst}
use multicat_supervisor.Base.{
  ℕ, zero, suc, ◌+◌, ◌*◌, ◌%◌, ◌<◌, ◌≤◌, ◌≡◌, refl, sym, ap, ◌∙◌, Option, none, some, List, [], ◌∷◌,
  ◌++◌, inl, inr, arith, Bool-cases, Option-cases, ltb, length, length-set, get_elem?, add64, u64,
}
use multicat_supervisor.Io.{Outcome, ok, exit_failure, undefined}
use multicat_supervisor.Reordertp.{Block, Config, State}
use multicat_supervisor.Reordertp.Retx.{
  Input, Request, Turn, behind, current, beyond_found, turn_of, turn, before, retx_pass, and_then,
  retx_passes, retx_check,
}
use multicat_supervisor.Reordertp.Links.{CursorOk, Distinct, InQueue-Split, behind-append}
use multicat_supervisor.Reordertp.Safety.{
  not_below, get_elem?-cases, get_elem?-set, All-get, All-set, count, cursor, left, Safe, Progress,
  TurnOk, compare_blocks-ok, moved,
}

module _ (inputs : List Input) (cfg : Config) (some_input : 0 < length inputs) where
  module _ (st : State) (i deadline : ℕ) (safe : Safe inputs st)
      (in_range : i < length st.cursors) where
    abbrev Turned : Outcome (Option (Option Block × Block)) → Type 0
    Turned found = TurnOk inputs st i (turn_of inputs cfg st i deadline found)

    first-Progress :
        (c : Block) (bs : List Block)
        → st.queue ≡ c ∷ bs
        → get_elem? st.cursors i ≡ some none
        → Progress inputs st i (moved inputs cfg some_input st i c)
    first-Progress c bs e q = (
      (
        (
          safe.0.0,
          All-set (CursorOk st.queue) st.cursors i (some c.addr) safe.0.1 (rw e (inl refl)),
        ),
        safe.1,
      ),
      length-set st.cursors i (some c.addr),
      omega arith,
      rw
          (
            q,
            get_elem?-set st.cursors i (some c.addr) in_range,
            e,
            behind-append [] c bs (subst Distinct e safe.0.0),
          )
          refl,
    )

    first-Turned :
        (bs : List Block)
        → st.queue ≡ bs
        → get_elem? st.cursors i ≡ some none
        → Turned (current none bs)
    unfolding current
    first-Turned [] e q = tt
    first-Turned (c ∷ bs) e q = elim (Bool-cases (ltb deadline c.date)) [
      | inl late ↦ rw late tt
      | inr due ↦ rw due (first-Progress c bs e q)
    ]

    current-split :
        (pre : List Block) (p : Block) (rest : List Block)
        → st.queue ≡ pre ++ p ∷ rest
        → current (some p.addr) st.queue ≡ beyond_found (some (p, rest))
    unfolding current
    current-split pre p rest e = rw (e, behind-append pre p rest (subst Distinct e safe.0.0)) refl

    left-split :
        (pre : List Block) (p : Block) (rest : List Block)
        → st.queue ≡ pre ++ p ∷ rest
        → get_elem? st.cursors i ≡ some (some p.addr)
        → left st i ≡ length rest
    left-split pre p rest e q = rw (q, e, behind-append pre p rest (subst Distinct e safe.0.0)) refl

    behind-Turned :
        (pre : List Block) (p : Block) (rest : List Block)
        → st.queue ≡ pre ++ p ∷ rest
        → get_elem? st.cursors i ≡ some (some p.addr)
        → Turned (beyond_found (some (p, rest)))
    behind-Turned pre p [] e q = tt
    behind-Turned pre p (c ∷ post) e q = elim (Bool-cases (ltb deadline c.date)) [
      | inl late ↦ rw late tt
      | inr due ↦ rw due (
          compare_blocks-ok inputs cfg some_input st i pre p c post e safe in_range
            (left-split pre p (c ∷ post) e q))
    ]

    cursor-Turned :
        (cur : Option ℕ)
        → get_elem? st.cursors i ≡ some cur
        → CursorOk st.queue cur
        → Turned (current cur st.queue)
    cursor-Turned none q h = first-Turned st.queue refl q
    cursor-Turned (some a) q h =
        let (pre, p, rest, e, ea) = InQueue-Split a st.queue h in
        rw (sym ea, current-split pre p rest e)
          (behind-Turned pre p rest e (q ∙ ap (λ x. some (some x)) (sym ea)))

    turn-ok : TurnOk inputs st i (turn inputs cfg st i deadline)
    unfolding turn
    turn-ok =
        let (cur, q) = get_elem?-cases st.cursors i in_range in
        rw (turn, q) (cursor-Turned cur q (All-get (CursorOk st.queue) st.cursors i cur safe.0.1 q))

  -- What a pass or all passes return: a safe state with as many passes, and no more blocks.
  abbrev pub PassOk : State → Option (Outcome (State × List Request)) → Type 0
  PassOk st (some (ok (st', rs))) =
      Safe inputs st'
      × (length st'.cursors ≡ length st.cursors)
      × (length st'.queue ≤ length st.queue)
  PassOk st _ = ⊥

  PassOk-before :
      (st st' : State) (rs : List Request) (r : Option (Outcome (State × List Request)))
      → length st'.cursors ≡ length st.cursors
      → length st'.queue ≤ length st.queue
      → PassOk st' r
      → PassOk st (elim r [ none ↦ none | some x ↦ some (before inputs cfg rs x) ])
  PassOk-before st st' rs none e l h = elim h [ ]
  PassOk-before st st' rs (some (ok (st'', rs''))) e l h = (h.0, h.1 ∙ e, omega (arith, h.2))
  PassOk-before st st' rs (some exit_failure) e l h = elim h [ ]
  PassOk-before st st' rs (some undefined) e l h = elim h [ ]

  module _ (i deadline : ℕ) where
    pass-turned :
        (fuel : ℕ) (st : State) (t : Outcome Turn)
        → ((st' : State) (rs : List Request)
            → t ≡ ok (Turn.again st' rs)
            → PassOk st' (retx_pass inputs cfg fuel st' i deadline))
        → turn inputs cfg st i deadline ≡ t
        → Safe inputs st
        → TurnOk inputs st i t
        → PassOk st (retx_pass inputs cfg (suc fuel) st i deadline)
    unfolding retx_pass
    pass-turned fuel st (ok Turn.leave) ih e safe h = rw (PassOk, e) (safe, refl, omega arith)
    pass-turned fuel st (ok (Turn.again st' rs)) ih e safe h =
        rw (PassOk, e)
          (PassOk-before st st' rs (retx_pass inputs cfg fuel st' i deadline) h.1 h.2
            (ih st' rs refl))
    pass-turned fuel st exit_failure ih e safe h = elim h [ ]
    pass-turned fuel st undefined ih e safe h = elim h [ ]

    pass-ok :
        (fuel : ℕ) (st : State)
        → Safe inputs st
        → i < length st.cursors
        → left st i < fuel
        → PassOk st (retx_pass inputs cfg fuel st i deadline)
    pass-ok zero st safe r l = elim (not_below (left st i) l) [ ]
    pass-ok (suc fuel) st safe r l =
        let t = turn-ok st i deadline safe r in
        pass-turned fuel st (turn inputs cfg st i deadline)
          (λ st' rs e.
            let p = subst (TurnOk inputs st i) e t in
            pass-ok fuel st' p.0 (omega (arith, p.1)) (omega (arith, p.3)))
          refl safe t

  behind-le : (a : ℕ) (bs : List Block) → count (behind a bs) ≤ length bs
  unfolding behind
  behind-le a [] = omega arith
  behind-le a (b ∷ bs) = let r = behind-le a bs in ground arith

  left-le : (st : State) (i : ℕ) → left st i ≤ length st.queue
  left-le st i = elim (Option-cases (cursor (get_elem? st.cursors i))) [
    | inl e ↦ rw e (omega arith)
    | inr (a, e) ↦ rw e (behind-le a st.queue)
  ]

  after-pass :
      (st : State) (r : Option (Outcome (State × List Request)))
      (next : State → Option (Outcome (State × List Request)))
      → PassOk st r
      → ((st' : State)
          → Safe inputs st'
          → length st'.cursors ≡ length st.cursors
          → length st'.queue ≤ length st.queue
          → PassOk st' (next st'))
      → PassOk st (and_then inputs cfg r next)
  after-pass st none next h k = elim h [ ]
  after-pass st (some (ok (st', rs))) next h k =
      PassOk-before st st' rs (next st') h.1 h.2 (k st' h.0 h.1 h.2)
  after-pass st (some exit_failure) next h k = elim h [ ]
  after-pass st (some undefined) next h k = elim h [ ]

  passes-ok :
      (fuel n i date : ℕ) (st : State)
      → Safe inputs st
      → i + n ≡ length st.cursors
      → length st.queue < fuel
      → PassOk st (retx_passes inputs cfg fuel st i n date)
  unfolding retx_passes
  passes-ok fuel zero i date st safe e l = (safe, refl, omega arith)
  passes-ok fuel (suc n) i date st safe e l =
      let deadline = add64 date ((i + 1) * cfg.retx_delay % u64) in
      let le = left-le st i in
      after-pass st (retx_pass inputs cfg fuel st i deadline)
        (λ st'. retx_passes inputs cfg fuel st' (i + 1) n date)
        (pass-ok i deadline fuel st safe (omega arith) (omega arith))
        (λ st' s c q. passes-ok fuel n (i + 1) date st' s (omega (arith, c)) (omega (arith, q)))

  -- With at least one input, from a state where the addresses in the list are distinct, every
  -- cursor is NULL or points at a block of the list and the last input asked is one, RetxCheck
  -- comes to its end with the fuel given, follows no null or dangling pointer and reads no input
  -- out of range, and leaves such a state with as many passes and no more blocks.
  pub retx_check-PassOk :
      (st : State) (date : ℕ) → Safe inputs st → PassOk st (retx_check inputs cfg st date)
  unfolding retx_check
  retx_check-PassOk st date safe =
      passes-ok (suc (length st.queue)) (length st.cursors) 0 date st safe (omega arith)
        (omega arith)
