-- ===== src/Validate/Alternation.antt =====
-- multicat_validate.c: what it prints.
use mathlib.Core.Path.{subst}
use multicat_supervisor.Base.{
  ℕ, zero, suc, ◌+◌, ◌*◌, ◌⊎◌, drop, ◌≡◌, refl, Bool, true, false, inl, inr, Bool-cases, Option,
  Option-cases, none, some, List, [], ◌∷◌, ◌++◌, if◌then◌else◌, Bytes, sub64, add64, leb, length,
  sym,
}
use multicat_supervisor.Io.{Outcome, Outcome-cases, ok, exit_failure, undefined, ◌>>=◌}
use multicat_supervisor.Reordertp.{lt_i64}
use multicat_supervisor.Validate.{
  Event, print, sleep, Handled, in_time, after, handle_stc, start_position, find_position,
}
use multicat_supervisor.Validate.Following.{
  Follower, Ending, exited, faulty, running, after_end, ended_by, handled_before, stored_date,
  read_aux, follow, follow_from, open_dir_file, validate, reads_clock,
}

-- Behind a status that was printed, each one that is printed is the other one.
abbrev pub Alternates : Bool → List Event → Type 0
Alternates status [] = Unit {0}
Alternates status (sleep n ∷ es) = Alternates status es
Alternates true (print n ∷ es) = (n ≡ 0) × Alternates false es
Alternates false (print n ∷ es) = (n ≡ 1) × Alternates true es

in_time-Alternates :
    (status : Bool) (n wait : ℕ) (es : List Event)
    → Alternates true es
    → Alternates status ((in_time status n wait).events ++ es)
in_time-Alternates true n wait es h = elim (Bool-cases (lt_i64 0 wait)) [
  | inl e ↦ rw e h
  | inr e ↦ rw e h
]
in_time-Alternates false n wait es h = elim (Bool-cases (lt_i64 0 wait)) [
  | inl e ↦ rw e (refl, h)
  | inr e ↦ rw e (refl, h)
]

-- What `HandleSTC` leaves, if it comes to its end: the status 1, printed if it was not.
abbrev Turned : Bool → Option Handled → Type 0
Turned status none = Unit
Turned status (some h) =
    (h.status ≡ true)
    × ((es : List Event) → Alternates true es → Alternates status (h.events ++ es))

after-Turned :
    (status : Bool) (wait : ℕ) (o : Option Handled)
    → Turned false o
    → Turned status (after ((if status then print 0 ∷ [] else []) ++ (sleep wait ∷ [])) o)
after-Turned status wait none t = tt
after-Turned true wait (some h) t = (t.0, λ es k. (refl, t.1 es k))
after-Turned false wait (some h) t = t

abbrev Keeps : Bool → Outcome Follower → Type 0
Keeps status (ok st) = st.status ≡ status
Keeps status exit_failure = Unit {0}
Keeps status undefined = Unit {0}

module _ (real : ℕ → ℕ) (delay tolerance : ℕ) where
  handle_stc-Turned :
      (fuel : ℕ) (status : Bool) (n stc : ℕ)
      → Turned status (handle_stc fuel real delay tolerance status n stc)
  unfolding handle_stc
  handle_stc-Turned zero status n stc = tt
  handle_stc-Turned (suc fuel) status n stc =
      let wait = sub64 stc (sub64 (real n) delay) in
      elim (Bool-cases (lt_i64 tolerance wait)) [
        | inl e ↦ rw e (
            after-Turned status (sub64 wait tolerance)
              (handle_stc fuel real delay tolerance false (n + 1) stc)
              (handle_stc-Turned fuel false (n + 1) stc))
        | inr e ↦ rw e (refl, λ es h. in_time-Alternates status (n + 1) wait es h)
      ]

  module _ (files : Bytes → Option Bytes) (dir : Bytes) (payload_size waits : ℕ) where
    opened_status :
        (st : Follower) (o : Outcome Bytes)
        → Keeps st.status (
            o >>= λ aux. ok (record st {
              file = add64 st.file 1;
              unread = aux;
              p_aux = after_end st.unread st.p_aux;
            }))
    opened_status st (ok aux) = refl
    opened_status st exit_failure = tt
    opened_status st undefined = tt

    read_aux_status : (st : Follower) → Keeps st.status (read_aux files dir payload_size st)
    unfolding read_aux
    read_aux_status st = elim (Bool-cases (leb 8 (length st.unread))) [
      | inl e ↦ rw e refl
      | inr e ↦ rw e (opened_status st (open_dir_file files dir payload_size (add64 st.file 1)))
    ]

    -- One turn of the loop: it ends, or a date is handled.
    follow-cases :
        (fuel : ℕ) (st : Follower)
        → ((x : Ending) × (follow files dir payload_size real delay tolerance waits (suc fuel) st
              ≡ ended_by x))
          ⊎ ((st' : Follower) × (stc : ℕ) × (h : Handled) × (read_aux files dir payload_size st
                ≡ ok st')
              × (handle_stc waits real delay tolerance st'.status st'.readings stc ≡ some h)
              × (follow files dir payload_size real delay tolerance waits (suc fuel) st
                  ≡ handled_before stc h.events (
                      follow files dir payload_size real delay tolerance waits fuel
                        (record st' { status = h.status; readings = h.readings }))))
    unfolding follow
    follow-cases fuel st = elim (Outcome-cases (read_aux files dir payload_size st)) [
      | inl (st', e) ↦ elim (Outcome-cases (stored_date st'.p_aux)) [
        | inl (stc, f) ↦
            elim (Option-cases
              (handle_stc waits real delay tolerance st'.status st'.readings stc)) [
                | inl g ↦ inl (running, rw (e, f, g, follow) refl)
                | inr (h, g) ↦ inr (st', stc, h, e, g, rw (e, f, g, follow) refl)
              ]
        | inr (inl f) ↦ inl (exited, rw (e, f, follow) refl)
        | inr (inr f) ↦ inl (faulty, rw (e, f, follow) refl)
      ]
      | inr (inl e) ↦ inl (exited, rw (e, follow) refl)
      | inr (inr e) ↦ inl (faulty, rw (e, follow) refl)
    ]

    turned_lem :
        (st st' : Follower) (stc : ℕ) (h : Handled) (es : List Event)
        → read_aux files dir payload_size st ≡ ok st'
        → handle_stc waits real delay tolerance st'.status st'.readings stc ≡ some h
        → Alternates h.status es
        → Alternates st.status (h.events ++ es)
    turned_lem st st' stc h es e g rest =
        let kept : st'.status ≡ st.status = subst (Keeps st.status) e (read_aux_status st) in
        let t : Turned st'.status (some h) =
          subst (Turned st'.status) g (handle_stc-Turned waits st'.status st'.readings stc) in
        subst (λ b. Alternates b (h.events ++ es)) kept
          (t.1 es (subst (λ b. Alternates b es) t.0 rest))

    follow-Alternates :
        (fuel : ℕ) (st : Follower)
        → Alternates st.status
            (follow files dir payload_size real delay tolerance waits fuel st).events
    unfolding follow
    follow-Alternates zero st = tt
    follow-Alternates (suc fuel) st = elim (follow-cases fuel st) [
      | inl (x, q) ↦ subst (λ f. Alternates st.status f.events) (sym q) tt
      | inr (st', stc, h, e, g, q) ↦
          subst (λ f. Alternates st.status f.events) (sym q)
            (turned_lem st st' stc h
              (follow files dir payload_size real delay tolerance waits fuel
                (record st' { status = h.status; readings = h.readings })).events
              e g
              (follow-Alternates fuel (record st' { status = h.status; readings = h.readings })))
    ]

module _ (files : Bytes → Option Bytes) (dir : Bytes) (payload_size : ℕ) (real : ℕ → ℕ)
    (tolerance waits fuel : ℕ) where
  follow_from-Alternates :
      (delay n : ℕ) (o : Outcome (ℕ × ℕ))
      → Alternates false
          (follow_from files dir payload_size real tolerance waits fuel delay n o).events
  follow_from-Alternates delay n exit_failure = tt
  follow_from-Alternates delay n undefined = tt
  follow_from-Alternates delay n (ok (file, chunk)) =
      elim (Outcome-cases (open_dir_file files dir payload_size file)) [
        | inl (aux, e) ↦
            rw (e, follow_from)
              (follow-Alternates real delay tolerance files dir payload_size waits fuel (record {
                file = file;
                unread = drop (8 * chunk) aux;
                p_aux = none;
                status = false;
                readings = n;
              }))
        | inr (inl e) ↦ rw (e, follow_from) tt
        | inr (inr e) ↦ rw (e, follow_from) tt
      ]

  -- Whatever the files and the clock, multicat_validate prints 0 first, and then 1 and 0 in turn,
  -- never the same status twice, until it ends or for as long as it is followed.
  pub validate-Alternates :
      (delay rotate_size : ℕ)
      → Alternates true
          (validate files dir payload_size real tolerance waits fuel delay rotate_size).events
  unfolding validate
  validate-Alternates delay rotate_size =
      let (stc, delay') = start_position delay (real 0) in
      (
        refl,
        follow_from-Alternates delay' (1 + reads_clock stc)
            (find_position files dir (real 1) rotate_size payload_size stc),
      )
