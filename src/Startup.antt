-- ===== src/Startup.antt =====
-- The start of multicat.c's main behind its options, and multicat-viewer.c: the configuration, and the
-- tables in the shared memory. The messages of the log are left out.
pub mod Taken
use multicat_supervisor.Base.{
  ℕ, ◌+◌, ◌^◌, Bool, true, false, ◌&&◌, Option, none, some, List, [], ◌∷◌, ltb, leb, if◌then◌else◌,
  Bytes, codes,
}
use multicat_supervisor.Io.{Outcome, ok, exit_failure, undefined, ◌>>=◌}
use multicat_supervisor.Ini.{
  Code, success, open_failed, problem_memory, Ini, Context, charger_fichier_ini,
}
use multicat_supervisor.Ini.Lookup.{rechercher_valeur}
use multicat_supervisor.Eit.{InfoSection, Info}
use multicat_supervisor.Eit.Loading.{load_eit}
use multicat_supervisor.Eit.Numbers.{atoi}
use multicat_supervisor.Supervisor.{EitInfo}
use multicat_supervisor.SharedMemory.{
  Memory, Result, shared_memory_set, shared_memory_get, shared_memory_get_without_update,
}

-- The files by their names, what `sharedMemory_init` maps of a file, or that it fails, and how a section
-- lies in memory.
pub record Machine : Type 0 where
  pub file : Bytes → Option Bytes
  pub mapped : Option Bytes → ℕ → Option Memory
  pub layout : InfoSection → Bytes

-- A text that is read, where NULL is followed.
abbrev pub followed : Option Bytes → Outcome Bytes
followed none = undefined
followed (some text) = ok text

abbrev pub in_mapping : Option Result → Outcome Result
in_mapping none = undefined
in_mapping (some r) = ok r

abbrev pub or_exit : Option Memory → Outcome Memory
or_exit none = exit_failure
or_exit (some memory) = ok memory

-- The configuration, where `ChargerFichierIni` succeeds.
abbrev pub loaded : Code × Option Context → Outcome (Option Ini)
loaded (success, none) = ok none
loaded (success, some ctx) = ok (some ctx.ini)
loaded (open_failed, ctx) = exit_failure
loaded (problem_memory, ctx) = exit_failure

-- `providerNumber`, an `int`, is below 1.
abbrev pub is_below_one : ℕ → Bool
is_below_one provider = if leb 1 provider then leb (2 ^ 31) provider else true

module _ (sys : Machine) where
  open sys use {file, mapped, layout}

  -- `load_eit`, as the `struct EitInfo` that is copied to the shared memory.
  abbrev pub table_of : Info → EitInfo
  table_of info = record {
    initialized = false;
    updated = false;
    tsid = info.tsid;
    sid = info.sid;
    onid = info.onid;
    section0 = layout info.section0;
    section1 = layout info.section1;
  }

  unfoldable pub load_and_set : Option Ini → ℕ → Memory → Outcome Result
  load_and_set ini provider memory = do
    info ← load_eit ini
    in_mapping (shared_memory_set provider (table_of info) memory)

  -- The memory that the configuration names.
  unfoldable pub open_memory : Option Ini → Outcome Memory
  open_memory ini = do
    map_file ← rechercher_valeur ini (some (codes "SHARED_MEMORY")) (codes "file")
    found ← rechercher_valeur ini (some (codes "SHARED_MEMORY")) (codes "streamingProvider")
    count ← followed found
    or_exit (mapped map_file (atoi (2 ^ 32) count))

  unfoldable pub open_ini : Bytes → ℕ → Outcome (Option Ini)
  unfolding charger_fichier_ini
  open_ini name provider =
      if is_below_one provider then exit_failure else (charger_fichier_ini (file name) >>= loaded)

  -- The level and the file of the log are to be there.
  unfoldable pub open_log : Option Ini → Outcome Bytes
  open_log ini = do
    found ← rechercher_valeur ini (some (codes "MULTICAT_LOGS")) (codes "level")
    level ← followed found
    found' ← rechercher_valeur ini (some (codes "MULTICAT_LOGS")) (codes "file")
    followed found'

  -- multicat.c, up to the opening of the input: the memory, and `str_eit_info`.
  unfoldable pub start_multicat : Bytes → ℕ → Outcome Result
  unfolding open_ini open_log open_memory load_and_set
  start_multicat name provider = do
    ini ← open_ini name provider
    log ← open_log ini
    memory ← open_memory ini
    r ← in_mapping (shared_memory_get provider memory)
    if r.eit.initialized then ok r else load_and_set ini provider r.memory

-- What the viewer leaves: the memory, and what it prints, if anything.
pub record Viewed : Type 0 where
  pub memory : Memory
  pub shown : Option EitInfo

abbrev pub showing : Result → Outcome Viewed
showing r = ok (record { memory = r.memory; shown = some r.eit })

module _ (sys : Machine) where
  -- Without -l: the table of the slot, which is put there first if there is none.
  unfoldable pub view_table : Option Ini → ℕ → Result → Outcome Viewed
  unfolding load_and_set
  view_table ini provider r =
      if r.eit.initialized then showing r else (load_and_set sys ini provider r.memory >>= showing)

  abbrev pub view_or_load : Bool → Option Ini → ℕ → Memory → Outcome Viewed
  view_or_load true ini provider memory = do
    r ← load_and_set sys ini provider memory
    ok (record { memory = r.memory; shown = none })
  view_or_load false ini provider memory = do
    r ← in_mapping (shared_memory_get_without_update provider memory)
    view_table ini provider r

  -- The main function of multicat-viewer.c behind its options; `load` is the option -l.
  unfoldable pub view : Bool → Bytes → ℕ → Outcome Viewed
  unfolding open_ini open_memory load_and_set view_table
  view load name provider = do
    ini ← open_ini sys name provider
    memory ← open_memory sys ini
    view_or_load load ini provider memory
