-- ===== src/Examples/Streamings.antt =====
-- multicat-supervisor.c at concrete inputs.
use multicat_supervisor.Base.{ℕ, ◌≡◌, refl, arith, false, some, [], ◌∷◌, All, codes}
use multicat_supervisor.Io.{ok}
use multicat_supervisor.Supervisor.{
  EitMysql, EitInfo, Env, search_streaming, check_streaming_list_with_db, stop_all_streaming,
}
use multicat_supervisor.Supervisor.Trace.{CheckOk, check-Ordered}
use multicat_supervisor.Supervisor.Stable.{check-stable, Ended, stop_all_streaming-Ended}

abbrev no_info : EitInfo
no_info = record {
  initialized = false;
  updated = false;
  tsid = 0;
  sid = 0;
  onid = 0;
  section0 = [];
  section1 = [];
}

-- Every command succeeds, and a section is its own JSON.
abbrev env : Env
env = record {
  run = λ trace c. 0;
  extract_eit_xml = λ info video. some info;
  json_tokener_parse = λ text. text;
  convert_eit_struct_to_json = λ section. section;
  json_parse = λ json. some json;
  stack = no_info;
}

abbrev streaming : ℕ → ℕ → EitMysql
streaming id timestamp = record {
  id = id;
  video = codes "a.ts";
  address = codes "239.0.0.1";
  port = 5004;
  tsid = 1;
  sid = 2;
  onid = 3;
  to_inject = 1;
  section0 = codes "{}";
  section1 = [];
  timestamp = timestamp;
}

-- Streaming 1 goes, 2 stays, 3 is new.
check-Ordered_example :
    CheckOk env (streaming 1 10 ∷ streaming 2 10 ∷ []) (streaming 2 10 ∷ streaming 3 10 ∷ []) (
      check_streaming_list_with_db env
        (streaming 1 10 ∷ streaming 2 10 ∷ [])
        (streaming 2 10 ∷ streaming 3 10 ∷ [])
        [])
check-Ordered_example =
    check-Ordered env (streaming 1 10 ∷ streaming 2 10 ∷ []) (streaming 2 10 ∷ streaming 3 10 ∷ [])

found_in_database : search_streaming (streaming 2 9 ∷ streaming 2 30 ∷ []) 2 ≡ some (streaming 2 9)
unfolding search_streaming
found_in_database = refl

found_running : search_streaming (streaming 2 10 ∷ []) 2 ≡ some (streaming 2 10)
unfolding search_streaming
found_running = refl

check-stable_example :
    check_streaming_list_with_db env
      (streaming 2 10 ∷ streaming 3 10 ∷ [])
      (streaming 2 10 ∷ streaming 3 10 ∷ [])
      []
    ≡ ok (streaming 2 10 ∷ streaming 3 10 ∷ [], [])
check-stable_example = check-stable env (streaming 2 10 ∷ streaming 3 10 ∷ []) [] (omega arith)

stop_all_streaming-Ended_example :
    All
      (Ended (stop_all_streaming env (streaming 2 10 ∷ streaming 3 10 ∷ []) []))
      (streaming 2 10 ∷ streaming 3 10 ∷ [])
stop_all_streaming-Ended_example =
    stop_all_streaming-Ended env (streaming 2 10 ∷ streaming 3 10 ∷ []) []
