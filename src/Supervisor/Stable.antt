-- ===== src/Supervisor/Stable.antt =====
-- multicat-supervisor.c: comparisons that change nothing, and the end of all streamings.
use multicat_supervisor.Base.{
  ℕ, ◌+◌, ◌≤◌, ◌≡◌, ◌≢◌, refl, sym, ◌⊎◌, inl, inr, Bool, true, false, Option, none, some, List, [],
  ◌∷◌, ltb, ◌==◌, if◌then◌else◌, Bool-cases, arith, All,
}
use multicat_supervisor.Io.{ok}
use multicat_supervisor.Supervisor.{
  EitMysql, Status, stopped, stop_failure, start, stop, Effect, set_status, shared_memory_set,
  system, Env, search_streaming, check_running, check_all_running, check_row, check_rows,
  check_streaming_list_with_db, stop_streaming, stop_all_streaming,
}

-- The database has a row for the streaming, whose date is not later.
abbrev pub UpToDate : List EitMysql → EitMysql → Type 0
UpToDate bd_list x =
    (ptr : EitMysql) × (search_streaming bd_list x.id ≡ some ptr) × (ptr.timestamp ≤ x.timestamp)

-- A streaming runs for the row.
abbrev pub Running : List EitMysql → EitMysql → Type 0
Running running row = (x : EitMysql) × (search_streaming running row.id ≡ some x)

not_newer : (a b : ℕ) → b ≤ a → ltb a b ≡ false
not_newer a b h = ground arith

module _ (env : Env) where
  running-unchanged :
      (bd_list xs : List EitMysql) (i : ℕ) (action : Bool) (trace : List Effect)
      → All (UpToDate bd_list) xs
      → check_all_running env bd_list i xs action trace ≡ ok (action, trace)
  unfolding check_all_running check_running
  running-unchanged bd_list [] i action trace h = refl
  running-unchanged bd_list (x ∷ xs) i action trace ((ptr, e, le), h) =
      rw (check_running, e, not_newer x.timestamp ptr.timestamp le)
        (running-unchanged bd_list xs (i + 1) action trace h)

  rows-unchanged :
      (running rows : List EitMysql) (action : Bool) (trace : List Effect)
      → All (Running running) rows
      → check_rows env running rows action trace ≡ (action, trace)
  unfolding check_rows check_row
  rows-unchanged running [] action trace h = refl
  rows-unchanged running (row ∷ rows) action trace ((x, e), h) =
      rw (check_row, e) (rows-unchanged running rows action trace h)

  -- When every running streaming has a row that is not later, and every row has its streaming,
  -- the comparison runs no command, sets no status, writes no table, and keeps the list.
  pub check-unchanged :
      (running bd_list : List EitMysql) (trace : List Effect)
      → All (UpToDate bd_list) running
      → All (Running running) bd_list
      → check_streaming_list_with_db env running bd_list trace ≡ ok (running, trace)
  unfolding check_streaming_list_with_db
  check-unchanged running bd_list trace h k =
      rw
        (
          running-unchanged bd_list running 0 false trace h,
          rows-unchanged running bd_list false trace k,
        )
        refl

-- No two rows have one id.
abbrev pub IdFresh : ℕ → List EitMysql → Type 0
IdFresh id rows = All (λ row. row.id ≢ id) rows

abbrev pub IdsDistinct : List EitMysql → Type 0
IdsDistinct [] = Unit
IdsDistinct (x ∷ xs) = IdFresh x.id xs × IdsDistinct xs

-- Every row is found by its id.
abbrev Found : List EitMysql → EitMysql → Type 0
Found rows x = search_streaming rows x.id ≡ some x

same_id : (a : ℕ) → (a == a) ≡ true
same_id a = ground arith

other_id : (a b : ℕ) → b ≢ a → (a == b) ≡ false
other_id a b h = ground arith

Found-cons :
    (x : EitMysql) (rows ys : List EitMysql)
    → IdFresh x.id ys
    → All (Found rows) ys
    → All (Found (x ∷ rows)) ys
unfolding search_streaming
Found-cons x rows [] f h = tt
Found-cons x rows (y ∷ ys) (n, f) (e, h) = (rw (other_id x.id y.id n) e, Found-cons x rows ys f h)

All-Found : (rows : List EitMysql) → IdsDistinct rows → All (Found rows) rows
unfolding search_streaming
All-Found [] h = tt
All-Found (x ∷ xs) (f, h) = (rw (same_id x.id) refl, Found-cons x xs xs f (All-Found xs h))

Found-UpToDate :
    (rows xs : List EitMysql) → All (Found rows) xs → All (UpToDate rows) xs × All (Running rows) xs
Found-UpToDate rows [] h = (tt, tt)
Found-UpToDate rows (x ∷ xs) (e, h) =
    let r = Found-UpToDate rows xs h in (((x, e, omega arith), r.0), ((x, e), r.1))

-- Once the list of the database is taken over, and its ids are distinct, a comparison with the
-- same list again runs nothing and changes nothing.
pub check-stable :
    (env : Env) (rows : List EitMysql) (trace : List Effect)
    → IdsDistinct rows
    → check_streaming_list_with_db env rows rows trace ≡ ok (rows, trace)
check-stable env rows trace h =
    let (u, r) = Found-UpToDate rows rows (All-Found rows h) in
    check-unchanged env rows rows trace u r

-- The last status set for the id.
unfoldable pub last_status : ℕ → List Effect → Option Status
last_status id [] = none
last_status id (set_status i s ∷ trace) = if i == id then some s else last_status id trace
last_status id (shared_memory_set i info ∷ trace) = last_status id trace
last_status id (system c ∷ trace) = last_status id trace

-- A stop command was run for the id.
abbrev pub StopRun : ℕ → List Effect → Type 0
StopRun id [] = ⊥
StopRun id (system (stop i) ∷ trace) = (i ≡ id) ⊎ StopRun id trace
StopRun id (system (start row) ∷ trace) = StopRun id trace
StopRun id (set_status i s ∷ trace) = StopRun id trace
StopRun id (shared_memory_set i info ∷ trace) = StopRun id trace

-- The id was stopped, and its status says how that ended.
abbrev pub Ended : List Effect → EitMysql → Type 0
Ended trace x =
    StopRun x.id trace
    × ((last_status x.id trace ≡ some stopped) ⊎ (last_status x.id trace ≡ some stop_failure))

equal_id : (a b : ℕ) → b ≡ a → (a == b) ≡ true
equal_id a b e = ground arith

id_equal : (a b : ℕ) → (a == b) ≡ true → b ≡ a
id_equal a b e = ground arith

module _ (env : Env) where
  stop-same :
      (trace : List Effect) (x y : EitMysql) → x.id ≡ y.id → Ended (stop_streaming env trace y.id) x
  unfolding stop_streaming last_status
  stop-same trace x y q = (
    inl (sym q),
    elim (Bool-cases (env.run trace (stop y.id) == 0)) [
      | inl z ↦ rw (equal_id y.id x.id q, z) (inl refl)
      | inr z ↦ rw (equal_id y.id x.id q, z) (inr refl)
    ],
  )

  stop-Ended :
      (trace : List Effect) (x y : EitMysql)
      → Ended trace x
      → Ended (stop_streaming env trace y.id) x
  unfolding stop_streaming last_status
  stop-Ended trace x y (s, l) = elim (Bool-cases (y.id == x.id)) [
    | inl q ↦ stop-same trace x y (id_equal y.id x.id q)
    | inr q ↦ (inr s, rw q l)
  ]

  all-Ended :
      (xs : List EitMysql) (trace : List Effect) (x : EitMysql)
      → Ended trace x
      → Ended (stop_all_streaming env xs trace) x
  unfolding stop_all_streaming
  all-Ended [] trace x h = h
  all-Ended (y ∷ ys) trace x h =
      all-Ended ys (stop_streaming env trace y.id) x (stop-Ended trace x y h)

  -- When the supervisor ends, it runs a stop command for every running streaming, and the last
  -- status of each is STOPPED or STOP FAILURE.
  pub stop_all_streaming-Ended :
      (xs : List EitMysql) (trace : List Effect) → All (Ended (stop_all_streaming env xs trace)) xs
  unfolding stop_all_streaming
  stop_all_streaming-Ended [] trace = tt
  stop_all_streaming-Ended (x ∷ xs) trace = (
    all-Ended xs (stop_streaming env trace x.id) x (stop-same trace x x refl),
    stop_all_streaming-Ended xs (stop_streaming env trace x.id),
  )
