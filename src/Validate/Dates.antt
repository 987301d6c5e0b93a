-- ===== src/Validate/Dates.antt =====
-- multicat_validate.c: the dates that are handled, where the files hold whole dates.
use multicat_supervisor.Base.{
  ℕ, zero, suc, ◌+◌, ◌⊎◌, ◌<◌, ◌≡◌, refl, ap, ◌∙◌, arith, Bool, false, inl, inr, Bool-cases, Option,
  none, some, List, [], ◌∷◌, ◌++◌, if◌then◌else◌, Bytes, sub64, add64, u64, length, map, joined,
  All,
}
use multicat_supervisor.Io.{Outcome, ok, exit_failure, ◌>>=◌}
use multicat_supervisor.Stc.{to_stc, from_stc}
use multicat_supervisor.Stc.RoundTrip.{from_stc-to_stc}
use multicat_supervisor.Reordertp.{lt_i64}
use multicat_supervisor.Validate.{Event, print, sleep, Handled, after, in_time, handle_stc}
use multicat_supervisor.Validate.Following.{
  Follower, Followed, exited, ended_by, handled_before, stored_date, read_aux, follow,
  open_dir_file,
}

-- The content of an auxiliary file.
abbrev pub aux_bytes : List ℕ → Bytes
aux_bytes ds = joined (map to_stc ds)

-- The dates of the files, and at the end of each file but the last one the last date once more.
abbrev pub with_repeats : ℕ → List ℕ → List (List ℕ) → List ℕ
with_repeats last (d ∷ ds) fs = d ∷ with_repeats d ds fs
with_repeats last [] [] = []
with_repeats last [] (f ∷ fs) = last ∷ with_repeats last f fs

-- What is known of `p_aux` in front of some dates.
abbrev Knows : Option Bytes → ℕ → List ℕ → Type 0
Knows p_aux last [] = p_aux ≡ some (to_stc last)
Knows p_aux last (d ∷ ds) = Unit {0}

abbrev pub IsDate : ℕ → Type 0
IsDate d = d < u64

-- In a file, with what is unread of it.
abbrev pub in_file : ℕ → Bytes → Option Bytes → Bool → ℕ → Follower
in_file file unread p_aux status n = record {
  file = file;
  unread = unread;
  p_aux = p_aux;
  status = status;
  readings = n;
}

-- The dates were handled, and the process has ended.
abbrev pub Handles : List ℕ → Followed → Type 0
Handles ds f = (f.dates ≡ ds) × (f.ended ≡ exited)

Knows-next :
    (p_aux : Option Bytes) (last : ℕ) (f : List ℕ) → p_aux ≡ some (to_stc last) → Knows p_aux last f
Knows-next p_aux last [] e = e
Knows-next p_aux last (x ∷ f) e = tt

stored_lem : (d : ℕ) → IsDate d → stored_date (some (to_stc d)) ≡ ok d
unfolding to_stc
stored_lem d h =
    let e : from_stc (to_stc d) ≡ some d = from_stc-to_stc d [] h in rw (e, stored_date) refl

module _ (real : ℕ → ℕ) (delay tolerance : ℕ) where
  -- From a reading of the clock on, one of the next ones has the date within the tolerance.
  abbrev pub Settles : ℕ → ℕ → ℕ → Type 0
  Settles zero n stc = ⊥
  Settles (suc waits) n stc =
      (lt_i64 tolerance (sub64 stc (sub64 (real n) delay)) ≡ false) ⊎ Settles waits (n + 1) stc

  after_ends :
      (es : List Event) (o : Option Handled)
      → ((h : Handled) × (o ≡ some h))
      → (h : Handled) × (after es o ≡ some h)
  after_ends es o (h, e) = rw e (record h { events = es ++ h.events }, refl)

  handle_stc_ends :
      (waits n stc : ℕ) (status : Bool)
      → Settles waits n stc
      → (h : Handled) × (handle_stc waits real delay tolerance status n stc ≡ some h)
  unfolding handle_stc
  handle_stc_ends zero n stc status s = elim s [ ]
  handle_stc_ends (suc waits) n stc status (inl e) =
      rw e (in_time status (n + 1) (sub64 stc (sub64 (real n) delay)), refl)
  handle_stc_ends (suc waits) n stc status (inr s) =
      let wait = sub64 stc (sub64 (real n) delay) in
      elim (Bool-cases (lt_i64 tolerance wait)) [
        | inl e ↦ rw e (
            after_ends
              ((if status then print 0 ∷ [] else []) ++ (sleep (sub64 wait tolerance) ∷ []))
              (handle_stc waits real delay tolerance false (n + 1) stc)
              (handle_stc_ends waits (n + 1) stc false s))
        | inr e ↦ rw e (in_time status (n + 1) wait, refl)
      ]

  module _ (files : Bytes → Option Bytes) (dir : Bytes) (payload_size waits : ℕ) where
    -- The files behind a file: their dates, and then there is none.
    abbrev pub Stored : ℕ → List (List ℕ) → Type 0
    Stored file [] = open_dir_file files dir payload_size (add64 file 1) ≡ exit_failure
    Stored file (f ∷ fs) =
        (open_dir_file files dir payload_size (add64 file 1) ≡ ok (aux_bytes f))
        × Stored (add64 file 1) fs

    read_aux-date :
        (file : ℕ) (d : ℕ) (rest : Bytes) (p_aux : Option Bytes) (status : Bool) (n : ℕ)
        → read_aux files dir payload_size (record {
          file = file;
          unread = to_stc d ++ rest;
          p_aux = p_aux;
          status = status;
          readings = n;
        })
          ≡ ok (record {
            file = file;
            unread = rest;
            p_aux = some (to_stc d);
            status = status;
            readings = n;
          })
    unfolding read_aux to_stc
    read_aux-date file d rest p_aux status n = ground arith

    one_date :
        (fuel : ℕ) (st st' : Follower) (d : ℕ)
        → read_aux files dir payload_size st ≡ ok st'
        → st'.p_aux ≡ some (to_stc d)
        → IsDate d
        → ((n : ℕ) → Settles waits n d)
        → (h : Handled) × (follow files dir payload_size real delay tolerance waits (suc fuel) st
            ≡ handled_before d h.events (
                follow files dir payload_size real delay tolerance waits fuel
                  (record st' { status = h.status; readings = h.readings })))
    unfolding follow
    one_date fuel st st' d e f date settles =
        let (h, g) = handle_stc_ends waits st'.readings d st'.status (settles st'.readings) in
        let s : stored_date st'.p_aux ≡ ok d = ap stored_date f ∙ stored_lem d date in
        (h, rw (e, s, g, follow) refl)

    read_aux-last :
        (file : ℕ) (p_aux : Option Bytes) (status : Bool) (n : ℕ) (o : Outcome Bytes)
        → open_dir_file files dir payload_size (add64 file 1) ≡ o
        → read_aux files dir payload_size
            (record { file = file; unread = []; p_aux = p_aux; status = status; readings = n })
          ≡ (o >>= λ aux. ok (record {
            file = add64 file 1;
            unread = aux;
            p_aux = p_aux;
            status = status;
            readings = n;
          }))
    unfolding read_aux
    read_aux-last file p_aux status n o e = rw e refl

    at_end :
        (fuel : ℕ) (st : Follower)
        → read_aux files dir payload_size st ≡ exit_failure
        → follow files dir payload_size real delay tolerance waits (suc fuel) st ≡ ended_by exited
    unfolding follow
    at_end fuel st e = rw (e, follow) refl

    date_lem :
        (fuel : ℕ) (st st' : Follower) (d : ℕ) (ds : List ℕ)
        → read_aux files dir payload_size st ≡ ok st'
        → st'.p_aux ≡ some (to_stc d)
        → IsDate d × ((n : ℕ) → Settles waits n d)
        → ((status : Bool) (n : ℕ)
            → Handles ds (
                follow files dir payload_size real delay tolerance waits fuel
                  (record st' { status = status; readings = n })))
        → Handles (d ∷ ds) (follow files dir payload_size real delay tolerance waits (suc fuel) st)
    date_lem fuel st st' d ds e f date rest =
        let (h, q) = one_date fuel st st' d e f date.0 date.1 in
        let r = rest h.status h.readings in rw q (ap (λ l. d ∷ l) r.0, r.1)

    follow-dates :
        (fuel last : ℕ) (ds : List ℕ) (fs : List (List ℕ)) (file : ℕ) (p_aux : Option Bytes)
        (status : Bool) (n : ℕ)
        → length (with_repeats last ds fs) < fuel
        → Stored file fs
        → Knows p_aux last ds
        → All (λ d. IsDate d × ((m : ℕ) → Settles waits m d)) (with_repeats last ds fs)
        → Handles (with_repeats last ds fs) (
            follow files dir payload_size real delay tolerance waits fuel
              (in_file file (aux_bytes ds) p_aux status n))
    follow-dates zero last ds fs file p_aux status n h stored known dates = absurd (omega arith)
    follow-dates (suc fuel) last (d ∷ ds) fs file p_aux status n h stored known dates =
        date_lem fuel (in_file file (aux_bytes (d ∷ ds)) p_aux status n)
          (in_file file (aux_bytes ds) (some (to_stc d)) status n) d (with_repeats d ds fs)
          (read_aux-date file d (aux_bytes ds) p_aux status n) refl dates.0
          (λ s m.
            follow-dates fuel d ds fs file (some (to_stc d)) s m (omega arith) stored
              (Knows-next (some (to_stc d)) d ds refl) dates.1)
    follow-dates (suc fuel) last [] [] file p_aux status n h stored known dates =
        let e = read_aux-last file p_aux status n exit_failure stored in
        let q : follow files dir payload_size real delay tolerance waits (suc fuel)
              (in_file file [] p_aux status n)
            ≡ ended_by exited =
          at_end fuel (in_file file [] p_aux status n) e in
        rw q (refl, refl)
    follow-dates (suc fuel) last [] (f ∷ fs) file p_aux status n h stored known dates =
        date_lem fuel (in_file file [] p_aux status n)
          (in_file (add64 file 1) (aux_bytes f) p_aux status n) last (with_repeats last f fs)
          (read_aux-last file p_aux status n (ok (aux_bytes f)) stored.0) known dates.0
          (λ s m.
            follow-dates fuel last f fs (add64 file 1) p_aux s m (omega arith) stored.1
              (Knows-next p_aux last f known) dates.1)

    -- From the start of a file with at least one date, where the files behind it hold whole dates
    -- and the last one is followed by none, and where from every reading of the clock on one of
    -- the next ones has each date within the tolerance, multicat_validate handles every date of
    -- every file in order, and at the end of each file but the last one the last date once more,
    -- and then ends the process. The bytes of p_aux are those of the turn before, where nothing
    -- was read.
    pub follow-with_repeats :
        (fuel d : ℕ) (ds : List ℕ) (fs : List (List ℕ)) (file : ℕ) (status : Bool) (n : ℕ)
        → length (with_repeats d ds fs) + 1 < fuel
        → Stored file fs
        → All (λ x. IsDate x × ((m : ℕ) → Settles waits m x)) (d ∷ with_repeats d ds fs)
        → Handles (d ∷ with_repeats d ds fs) (
            follow files dir payload_size real delay tolerance waits fuel
              (in_file file (aux_bytes (d ∷ ds)) none status n))
    follow-with_repeats fuel d ds fs file status n h stored dates =
        follow-dates fuel d (d ∷ ds) fs file none status n (omega arith) stored tt dates
