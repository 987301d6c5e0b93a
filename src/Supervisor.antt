-- ===== src/Supervisor.antt =====
-- multicat-supervisor.c: the list of running streamings is compared with the list in the database;
-- streamings are started, stopped and given new EIT tables accordingly. What the program does
-- outside is a trace of effects, the latest first.
pub mod Trace
pub mod Stable
pub mod Loop
use multicat_supervisor.Base.{
  ℕ, zero, suc, ◌+◌, Bool, true, false, ◌&&◌, not, Option, none, some, List, [], ◌∷◌, ltb, ◌==◌,
  if◌then◌else◌, Bytes, get_elem?,
}
use multicat_supervisor.Io.{Outcome, ok, exit_failure, undefined}

-- `EitMysql`, a row of the database. An id and a date are not negative.
pub record EitMysql : Type 0 where
  pub id : ℕ
  pub video : Bytes
  pub address : Bytes
  pub port : ℕ
  pub tsid : ℕ
  pub sid : ℕ
  pub onid : ℕ
  pub to_inject : ℕ
  pub section0 : Bytes
  pub section1 : Bytes
  pub timestamp : ℕ

-- `struct EitInfo`; a section is the bytes of its structure.
pub record EitInfo : Type 0 where
  pub initialized : Bool
  pub updated : Bool
  pub tsid : ℕ
  pub sid : ℕ
  pub onid : ℕ
  pub section0 : Bytes
  pub section1 : Bytes

-- The texts given to `eit_mysql_setStatus`.
pub data Status : Type 0 where
  starting started start_failure stopping stopped stop_failure : Status
  database_failure parsing_failure eit_failure : Status

-- The command lines of `multicat.sh` given to `system`.
pub data Command : Type 0 where
  start : EitMysql → Command
  stop : ℕ → Command

pub data Effect : Type 0 where
  set_status : ℕ → Status → Effect
  shared_memory_set : ℕ → EitInfo → Effect
  system : Command → Effect

-- What the supervisor calls: `system`, whose result may depend on all that happened, json-c, and
-- the converters between XML, JSON and sections. `stack` is the value of `eit_info` before it is set.
pub record Env : Type 0 where
  pub run : List Effect → Command → ℕ
  pub extract_eit_xml : EitInfo → Bytes → Option EitInfo
  pub json_tokener_parse : Bytes → Bytes
  pub convert_eit_struct_to_json : Bytes → Bytes
  pub json_parse : Bytes → Option Bytes
  pub stack : EitInfo

abbrev pub is_empty : Bytes → Bool
is_empty [] = true
is_empty (b ∷ bs) = false

-- `search_streaming`: the first entry with the id; `none` is NULL.
unfoldable pub search_streaming : List EitMysql → ℕ → Option EitMysql
search_streaming [] id = none
search_streaming (x ∷ xs) id = if x.id == id then some x else search_streaming xs id

-- The results 0, -1, -2 and -3 of `convertStringsToEitStruct`.
pub data Converted : Type 0 where
  converted : EitInfo → Converted
  missing_section0 not_parsed not_extracted : Converted

module _ (env : Env) where
  abbrev parsed : EitMysql → Bytes → Bytes → Option Bytes
  parsed ptr text section = env.json_parse (
      if ptr.to_inject == 1
      then env.json_tokener_parse text
      else env.convert_eit_struct_to_json section)

  abbrev convert_section1 : EitMysql → EitInfo → Converted
  convert_section1 ptr info =
      if is_empty ptr.section1
      then converted info
      else (elim (parsed ptr ptr.section1 info.section1) [
        | some s ↦ converted (record info { section1 = s })
        | none ↦ not_parsed
      ])

  abbrev convert_sections : EitMysql → EitInfo → Converted
  convert_sections ptr info =
      if is_empty ptr.section0
      then missing_section0
      else (elim (parsed ptr ptr.section0 info.section0) [
        | some s ↦ convert_section1 ptr (record info { section0 = s })
        | none ↦ not_parsed
      ])

  -- `convertStringsToEitStruct`
  unfoldable pub convert_strings_to_eit_struct : EitMysql → Converted
  convert_strings_to_eit_struct ptr =
      let info = record env.stack { tsid = ptr.tsid; sid = ptr.sid; onid = ptr.onid } in
      if ptr.to_inject == 0
      then (elim (env.extract_eit_xml info ptr.video) [
        | some info' ↦ convert_sections ptr info'
        | none ↦ not_extracted
      ])
      else convert_sections ptr info

  -- `sharedMemory_set` marks the table before it is copied. An id above the number of slots, for which
  -- the source writes behind the mapping, is an effect like the others here.
  abbrev pub announce : ℕ → EitInfo → Effect
  announce id info = shared_memory_set id (record info { initialized = true; updated = true })

  -- `system` of a stop command, and the status after it.
  unfoldable pub stop_streaming : List Effect → ℕ → List Effect
  stop_streaming trace id =
      let after = if env.run trace (stop id) == 0 then stopped else stop_failure in
      set_status id after ∷ system (stop id) ∷ trace

  -- The first loop's body for a streaming whose row has a later date. The failures set the status
  -- of the row at the streaming's own index `i`.
  abbrev pub fail_at : List EitMysql → ℕ → Status → List Effect → Outcome (List Effect)
  fail_at bd_list i status trace = elim (get_elem? bd_list i) [
    | some row ↦ ok (set_status row.id status ∷ trace)
    | none ↦ undefined
  ]

  unfoldable pub update_eit : List EitMysql → ℕ → EitMysql → List Effect → Outcome (List Effect)
  update_eit bd_list i ptr trace = elim (convert_strings_to_eit_struct ptr) [
    | converted info ↦ ok (announce ptr.id info ∷ trace)
    | missing_section0 ↦ fail_at bd_list i database_failure trace
    | not_parsed ↦ fail_at bd_list i parsing_failure trace
    | not_extracted ↦ fail_at bd_list i eit_failure trace
  ]

  -- `action` of the code, with the trace.
  abbrev pub acted : Outcome (List Effect) → Outcome (Bool × List Effect)
  acted (ok trace) = ok (true, trace)
  acted exit_failure = exit_failure
  acted undefined = undefined

  unfoldable pub check_running :
      List EitMysql → ℕ → EitMysql → Bool → List Effect → Outcome (Bool × List Effect)
  check_running bd_list i x action trace = elim (search_streaming bd_list x.id) [
    | none ↦ ok (true, stop_streaming (set_status x.id stopping ∷ trace) x.id)
    | some ptr ↦
        if ltb x.timestamp ptr.timestamp
        then acted (update_eit bd_list i ptr trace)
        else ok (action, trace)
  ]

  abbrev pub then_do {ℓ} :
      {A : Type ℓ} → Outcome (Bool × List Effect) → (Bool → List Effect → Outcome A) → Outcome A
  then_do (ok (action, trace)) next = next action trace
  then_do exit_failure next = exit_failure
  then_do undefined next = undefined

  -- The first loop, over the running streamings from the index `i` on.
  unfoldable pub check_all_running :
      List EitMysql → ℕ → List EitMysql → Bool → List Effect → Outcome (Bool × List Effect)
  check_all_running bd_list i [] action trace = ok (action, trace)
  check_all_running bd_list i (x ∷ xs) action trace =
      then_do (check_running bd_list i x action trace)
        (λ action' trace'. check_all_running bd_list (i + 1) xs action' trace')

  -- A new streaming whose tables are in the shared memory.
  unfoldable pub start_streaming : EitMysql → Bool → List Effect → Bool × List Effect
  start_streaming row action trace =
      let after = if env.run trace (start row) == 0 then started else start_failure in
      if not (is_empty row.video) && not (is_empty row.address)
      then (true, set_status row.id after ∷ system (start row) ∷ trace)
      else (action, trace)

  -- The second loop's body.
  unfoldable pub check_row : List EitMysql → EitMysql → Bool → List Effect → Bool × List Effect
  check_row streaming_list row action trace = elim (search_streaming streaming_list row.id) [
    | some _ ↦ (action, trace)
    | none ↦
        let trace' = set_status row.id starting ∷ trace in
        elim (convert_strings_to_eit_struct row) [
          | converted info ↦ start_streaming row action (announce row.id info ∷ trace')
          | missing_section0 ↦ (action, set_status row.id database_failure ∷ trace')
          | not_parsed ↦ (action, set_status row.id parsing_failure ∷ trace')
          | not_extracted ↦ (action, set_status row.id eit_failure ∷ trace')
        ]
  ]

  -- The second loop, over the rows of the database.
  unfoldable pub check_rows :
      List EitMysql → List EitMysql → Bool → List Effect → Bool × List Effect
  check_rows streaming_list [] action trace = (action, trace)
  check_rows streaming_list (row ∷ rows) action trace =
      let r = check_row streaming_list row action trace in check_rows streaming_list rows r.0 r.1

  -- `check_streaming_list_with_db`: the new `streamingList`, and the trace.
  unfoldable pub check_streaming_list_with_db :
      List EitMysql → List EitMysql → List Effect → Outcome (List EitMysql × List Effect)
  check_streaming_list_with_db streaming_list bd_list trace =
      then_do (check_all_running bd_list 0 streaming_list false trace) (λ action trace'.
        let r = check_rows streaming_list bd_list action trace' in
        ok (if r.0 then bd_list else streaming_list, r.1))

  -- `stop_all_streaming`: the list is empty after it.
  unfoldable pub stop_all_streaming : List EitMysql → List Effect → List Effect
  stop_all_streaming [] trace = trace
  stop_all_streaming (x ∷ xs) trace = stop_all_streaming xs (stop_streaming trace x.id)
