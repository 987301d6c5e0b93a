-- ===== src/Validate/Following.antt =====
-- multicat_validate.c, the loop of `main` over the dates of the files, and `OpenDirFile` of util.c for reading.
-- A file is what it holds, and is not written while it is read.
use multicat_supervisor.Base.{
  ℕ, zero, suc, ◌+◌, ◌*◌, Bool, false, ◌||◌, Option, none, some, List, [], ◌∷◌, ◌++◌, ◌==◌,
  if◌then◌else◌, Bytes, leb, i64_min, add64, take, drop, length,
}
use multicat_supervisor.Io.{Outcome, ok, exit_failure, undefined, ◌>>=◌}
use multicat_supervisor.Stc.{from_stc}
use multicat_supervisor.AuxFile.{get_aux_file, dir_file_name}
use multicat_supervisor.Validate.{Event, print, handle_stc, start_position, find_position}

-- `OpenFile` and `OpenAuxFile` for reading: a file that is not there ends the process.
abbrev pub opened_to_read : Option Bytes → Outcome Bytes
opened_to_read none = exit_failure
opened_to_read (some content) = ok content

-- `OpenDirFile` for reading, with the content of the auxiliary file.
unfoldable pub open_dir_file : (Bytes → Option Bytes) → Bytes → ℕ → ℕ → Outcome Bytes
open_dir_file files dir payload_size file =
    opened_to_read (files (dir_file_name dir file)) >>= λ ts.
    opened_to_read (files (get_aux_file (dir_file_name dir file) payload_size))

-- What the loop keeps: the file and what is unread of it, `p_aux`, which is `none` while it holds no
-- bytes that are known, `b_status`, and how often the clock was read. The array `p_aux` belongs to
-- the body of the loop; it is taken to keep its place, and so its bytes, from one turn to the next.
pub record Follower : Type 0 where
  pub file : ℕ
  pub unread : Bytes
  pub p_aux : Option Bytes
  pub status : Bool
  pub readings : ℕ

pub data Ending : Type 0 where
  exited faulty running : Ending

-- The dates that were given to `HandleSTC`, what it did, and whether the process has ended.
pub record Followed : Type 0 where
  pub dates : List ℕ
  pub events : List Event
  pub ended : Ending

abbrev pub ended_by : Ending → Followed
ended_by e = record { dates = []; events = []; ended = e }

abbrev pub handled_before : ℕ → List Event → Followed → Followed
handled_before stc events f = record f { dates = stc ∷ f.dates; events = events ++ f.events }

-- `fread` on less than eight bytes: nothing is stored at the end, and a part of a date is of no use.
abbrev pub after_end : Bytes → Option Bytes → Option Bytes
after_end [] p_aux = p_aux
after_end (b ∷ bs) p_aux = none

abbrev pub stored_date : Option Bytes → Outcome ℕ
stored_date none = undefined
stored_date (some bytes) = elim (from_stc bytes) [ none ↦ undefined | some stc ↦ ok stc ]

module _ (files : Bytes → Option Bytes) (dir : Bytes) (payload_size : ℕ) where
  -- The next eight bytes, or else the next file.
  unfoldable pub read_aux : Follower → Outcome Follower
  unfolding open_dir_file
  read_aux st =
      if leb 8 (length st.unread)
      then ok (record st { unread = drop 8 st.unread; p_aux = some (take 8 st.unread) })
      else (open_dir_file files dir payload_size (add64 st.file 1) >>= λ aux. ok (record st {
        file = add64 st.file 1;
        unread = aux;
        p_aux = after_end st.unread st.p_aux;
      }))

  module _ (real : ℕ → ℕ) (delay tolerance waits : ℕ) where
    -- The loop of `main`, on fuel; `waits` is the fuel of `HandleSTC`.
    unfoldable pub follow : ℕ → Follower → Followed
    unfolding read_aux handle_stc
    follow zero st = ended_by running
    follow (suc fuel) st = elim (read_aux st) [
      | exit_failure ↦ ended_by exited
      | undefined ↦ ended_by faulty
      | ok st' ↦ elim (stored_date st'.p_aux) [
        | exit_failure ↦ ended_by exited
        | undefined ↦ ended_by faulty
        | ok stc ↦ elim (handle_stc waits real delay tolerance st'.status st'.readings stc) [
          | none ↦ ended_by running
          | some h ↦
              handled_before stc h.events
                (follow fuel (record st' { status = h.status; readings = h.readings }))
        ]
      ]
    ]

-- Whether `GetDirFile` reads the clock.
abbrev pub reads_clock : ℕ → ℕ
reads_clock stc = if stc == 0 || leb i64_min stc then 1 else 0

module _ (files : Bytes → Option Bytes) (dir : Bytes) (payload_size : ℕ) (real : ℕ → ℕ)
    (tolerance waits fuel : ℕ) where
  abbrev pub follow_from : ℕ → ℕ → Outcome (ℕ × ℕ) → Followed
  follow_from delay n exit_failure = ended_by exited
  follow_from delay n undefined = ended_by faulty
  follow_from delay n (ok (file, chunk)) = elim (open_dir_file files dir payload_size file) [
    | exit_failure ↦ ended_by exited
    | undefined ↦ ended_by faulty
    | ok aux ↦ follow files dir payload_size real delay tolerance waits fuel (record {
      file = file;
      unread = drop (8 * chunk) aux;
      p_aux = none;
      status = false;
      readings = n;
    })
  ]

  -- `main` behind its options: -k is `delay`, and -r is `rotate_size`.
  unfoldable pub validate : ℕ → ℕ → Followed
  unfolding open_dir_file follow start_position find_position
  validate delay rotate_size =
      let (stc, delay') = start_position delay (real 0) in
      let f =
        follow_from delay' (1 + reads_clock stc)
          (find_position files dir (real 1) rotate_size payload_size stc) in
      record f { events = print 0 ∷ f.events }
