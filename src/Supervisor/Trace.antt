-- ===== src/Supervisor/Trace.antt =====
-- multicat-supervisor.c: which commands `check_streaming_list_with_db` runs, and when.
use multicat_supervisor.Base.{
  ℕ, ◌+◌, ◌≡◌, refl, Bool, true, false, none, List, [], ◌∷◌, ◌⊎◌, inl, inr, ltb, if◌then◌else◌,
  Bool-cases, Option-cases, get_elem?,
}
use multicat_supervisor.Io.{Outcome, ok, exit_failure, undefined}
use multicat_supervisor.Supervisor.{
  EitMysql, Status, starting, database_failure, parsing_failure, eit_failure, Command, start, stop,
  Effect, set_status, shared_memory_set, system, Env, is_empty, search_streaming, Converted,
  converted, missing_section0, not_parsed, not_extracted, convert_strings_to_eit_struct, announce,
  stop_streaming, fail_at, update_eit, acted, check_running, then_do, check_all_running,
  start_streaming, check_row, check_rows, check_streaming_list_with_db,
}

-- The shared memory has got a table for the provider.
abbrev pub HasTable : ℕ → List Effect → Type 0
HasTable id [] = ⊥
HasTable id (shared_memory_set i info ∷ trace) = (i ≡ id) ⊎ HasTable id trace
HasTable id (set_status i s ∷ trace) = HasTable id trace
HasTable id (system c ∷ trace) = HasTable id trace

-- A streaming is started only when it does not run, has a video and an address, and its table is in
-- the shared memory; a streaming is stopped only when it is not in the database.
abbrev pub MayRun : List EitMysql → List EitMysql → Command → List Effect → Type 0
MayRun running bd_list (start row) trace =
    (search_streaming running row.id ≡ none)
    × (is_empty row.video ≡ false)
    × (is_empty row.address ≡ false)
    × HasTable row.id trace
MayRun running bd_list (stop id) trace = search_streaming bd_list id ≡ none

-- Every command of the trace was allowed by what came before it.
abbrev pub Ordered : List EitMysql → List EitMysql → List Effect → Type 0
Ordered running bd_list [] = Unit
Ordered running bd_list (system c ∷ trace) =
    MayRun running bd_list c trace × Ordered running bd_list trace
Ordered running bd_list (set_status i s ∷ trace) = Ordered running bd_list trace
Ordered running bd_list (shared_memory_set i info ∷ trace) = Ordered running bd_list trace

module _ (env : Env) (running bd_list : List EitMysql) where
  abbrev Keeps : Outcome (Bool × List Effect) → Type 0
  Keeps (ok (action, trace)) = Ordered running bd_list trace
  Keeps exit_failure = ⊥
  Keeps undefined = Unit

  fail_at-Keeps :
      (i : ℕ) (status : Status) (trace : List Effect)
      → Ordered running bd_list trace
      → Keeps (acted env (fail_at env bd_list i status trace))
  fail_at-Keeps i status trace h = elim (Option-cases (get_elem? bd_list i)) [
    | inl e ↦ rw (Keeps, e) tt
    | inr (row, e) ↦ rw (Keeps, e) h
  ]

  update_eit-Keeps :
      (i : ℕ) (ptr : EitMysql) (trace : List Effect) (c : Converted)
      → convert_strings_to_eit_struct env ptr ≡ c
      → Ordered running bd_list trace
      → Keeps (acted env (update_eit env bd_list i ptr trace))
  unfolding update_eit
  update_eit-Keeps i ptr trace (converted info) e h = rw (update_eit, e) h
  update_eit-Keeps i ptr trace missing_section0 e h =
      rw (update_eit, e) (fail_at-Keeps i database_failure trace h)
  update_eit-Keeps i ptr trace not_parsed e h =
      rw (update_eit, e) (fail_at-Keeps i parsing_failure trace h)
  update_eit-Keeps i ptr trace not_extracted e h =
      rw (update_eit, e) (fail_at-Keeps i eit_failure trace h)

  check_running-Keeps :
      (i : ℕ) (x : EitMysql) (action : Bool) (trace : List Effect)
      → Ordered running bd_list trace
      → Keeps (check_running env bd_list i x action trace)
  unfolding check_running stop_streaming
  check_running-Keeps i x action trace h = elim (Option-cases (search_streaming bd_list x.id)) [
    | inl e ↦ rw (check_running, e) (e, h)
    | inr (ptr, e) ↦ elim (Bool-cases (ltb x.timestamp ptr.timestamp)) [
      | inl newer ↦
          rw (check_running, e, newer)
            (update_eit-Keeps i ptr trace (convert_strings_to_eit_struct env ptr) refl h)
      | inr same ↦ rw (check_running, e, same) h
    ]
  ]

  then_do-Keeps :
      (r : Outcome (Bool × List Effect)) (next : Bool → List Effect → Outcome (Bool × List Effect))
      → Keeps r
      → ((action : Bool) (trace : List Effect)
          → Ordered running bd_list trace
          → Keeps (next action trace))
      → Keeps (then_do env r next)
  then_do-Keeps (ok (action, trace)) next h k = k action trace h
  then_do-Keeps exit_failure next h k = h
  then_do-Keeps undefined next h k = tt

  check_all_running-Keeps :
      (xs : List EitMysql) (i : ℕ) (action : Bool) (trace : List Effect)
      → Ordered running bd_list trace
      → Keeps (check_all_running env bd_list i xs action trace)
  unfolding check_all_running
  check_all_running-Keeps [] i action trace h = h
  check_all_running-Keeps (x ∷ xs) i action trace h =
      then_do-Keeps (check_running env bd_list i x action trace)
        (λ action' trace'. check_all_running env bd_list (i + 1) xs action' trace')
        (check_running-Keeps i x action trace h)
        (λ action' trace' k. check_all_running-Keeps xs (i + 1) action' trace' k)

  start_streaming-Ordered :
      (row : EitMysql) (action : Bool) (trace : List Effect)
      → search_streaming running row.id ≡ none
      → HasTable row.id trace
      → Ordered running bd_list trace
      → Ordered running bd_list (start_streaming env row action trace).1
  unfolding start_streaming
  start_streaming-Ordered row action trace none_runs t h = elim (Bool-cases (is_empty row.video)) [
    | inl v ↦ rw (Ordered, v) h
    | inr v ↦ elim (Bool-cases (is_empty row.address)) [
      | inl a ↦ rw (Ordered, v, a) h
      | inr a ↦ rw (v, a) ((none_runs, v, a, t), h)
    ]
  ]

  check_row-Ordered :
      (row : EitMysql) (action : Bool) (trace : List Effect) (c : Converted)
      → convert_strings_to_eit_struct env row ≡ c
      → search_streaming running row.id ≡ none
      → Ordered running bd_list trace
      → Ordered running bd_list (check_row env running row action trace).1
  unfolding check_row
  check_row-Ordered row action trace (converted info) e n h =
      rw (check_row, n, e)
        (start_streaming-Ordered row action
          (announce env row.id info ∷ set_status row.id starting ∷ trace) n (inl refl) h)
  check_row-Ordered row action trace missing_section0 e n h = rw (check_row, n, e) h
  check_row-Ordered row action trace not_parsed e n h = rw (check_row, n, e) h
  check_row-Ordered row action trace not_extracted e n h = rw (check_row, n, e) h

  any_row-Ordered :
      (row : EitMysql) (action : Bool) (trace : List Effect)
      → Ordered running bd_list trace
      → Ordered running bd_list (check_row env running row action trace).1
  unfolding check_row
  any_row-Ordered row action trace h = elim (Option-cases (search_streaming running row.id)) [
    | inl n ↦ check_row-Ordered row action trace (convert_strings_to_eit_struct env row) refl n h
    | inr (x, e) ↦ rw (check_row, e) h
  ]

  check_rows-Ordered :
      (rows : List EitMysql) (action : Bool) (trace : List Effect)
      → Ordered running bd_list trace
      → Ordered running bd_list (check_rows env running rows action trace).1
  unfolding check_rows
  check_rows-Ordered [] action trace h = h
  check_rows-Ordered (row ∷ rows) action trace h =
      let r = check_row env running row action trace in
      check_rows-Ordered rows r.0 r.1 (any_row-Ordered row action trace h)

  -- The trace of a comparison is in order, unless a status was set past the end of the list.
  abbrev pub CheckOk : Outcome (List EitMysql × List Effect) → Type 0
  CheckOk (ok (list, trace)) = Ordered running bd_list trace × ((list ≡ bd_list) ⊎ (list ≡ running))
  CheckOk exit_failure = ⊥
  CheckOk undefined = Unit

  adopted :
      (action : Bool)
      → ((if action then bd_list else running) ≡ bd_list)
        ⊎ ((if action then bd_list else running) ≡ running)
  adopted true = inl refl
  adopted false = inr refl

  rows-CheckOk :
      (r : Outcome (Bool × List Effect))
      → Keeps r
      → CheckOk (
          then_do env r (λ action trace'.
            let r = check_rows env running bd_list action trace' in
            ok (if r.0 then bd_list else running, r.1)))
  rows-CheckOk (ok (action, trace)) h = (
    check_rows-Ordered bd_list action trace h,
    adopted (check_rows env running bd_list action trace).0,
  )
  rows-CheckOk exit_failure h = h
  rows-CheckOk undefined h = tt

  -- In one comparison of the running streamings with the database, every start is of a row whose
  -- streaming does not run and that has a video and an address, after its table was put in the
  -- shared memory; every stop is of a streaming that is not in the database; the list after it is
  -- that of the database or the old one. It never ends the process, but may read past the end of
  -- the list.
  pub check-Ordered : CheckOk (check_streaming_list_with_db env running bd_list [])
  unfolding check_streaming_list_with_db
  check-Ordered =
      rows-CheckOk (check_all_running env bd_list 0 running false [])
        (check_all_running-Keeps running 0 false [] tt)
