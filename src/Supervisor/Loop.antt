-- ===== src/Supervisor/Loop.antt =====
-- multicat-supervisor.c: the loop of `main`, from the list of the database at each turn to the signal
-- that ends it.
use multicat_supervisor.Base.{ℕ, zero, suc, ◌≡◌, refl, List, [], ◌∷◌}
use multicat_supervisor.Io.{Outcome, ok, exit_failure, undefined}
use multicat_supervisor.Supervisor.{
  EitMysql, Effect, Env, check_streaming_list_with_db, stop_all_streaming,
}
use multicat_supervisor.Supervisor.Stable.{IdsDistinct, check-stable}

-- `lists` holds what `eit_mysql_getList` gives at each turn; when it is at its end, `b_die` is set.
unfoldable pub supervise :
    Env → List (List EitMysql) → List EitMysql → List Effect → Outcome (List Effect)
supervise env [] running trace = ok (stop_all_streaming env running trace)
supervise env (bd_list ∷ lists) running trace =
    elim (check_streaming_list_with_db env running bd_list trace) [
      | ok (running', trace') ↦ supervise env lists running' trace'
      | exit_failure ↦ exit_failure
      | undefined ↦ undefined
    ]

abbrev pub turns : ℕ → List EitMysql → List (List EitMysql)
turns zero rows = []
turns (suc n) rows = rows ∷ turns n rows

-- While the database gives the same rows, with distinct ids, as run already, for any number of
-- turns, the supervisor does nothing but stop them all at its end.
pub supervise-stable :
    (env : Env) (n : ℕ) (rows : List EitMysql) (trace : List Effect)
    → IdsDistinct rows
    → supervise env (turns n rows) rows trace ≡ ok (stop_all_streaming env rows trace)
unfolding supervise
supervise-stable env zero rows trace h = refl
supervise-stable env (suc n) rows trace h =
    rw (supervise, check-stable env rows trace h) (supervise-stable env n rows trace h)
