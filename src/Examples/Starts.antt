-- ===== src/Examples/Starts.antt =====
-- Programs that start with a table that is there.
use multicat_supervisor.Base.{
  ◌≡◌, refl, true, false, none, some, [], ◌∷◌, arith, Bytes, codes, same_text,
}
use multicat_supervisor.Io.{ok}
use multicat_supervisor.Ini.{
  is_space, trim_end, charger_fichier_ini, strchr, load_lines, extraire_params_valeurs, fgets,
  c_string, est_commentaire, section_of, ajouter_un_param_value, ajouter_une_section, apr_palloc,
  apr_pstrdup, trim_start,
}
use multicat_supervisor.Ini.Config.{Config, ini_of}
use multicat_supervisor.Ini.Lookup.{
  rechercher_valeur, search_sections, is_asked, rechercher_param_value,
}
use multicat_supervisor.Eit.{Info}
use multicat_supervisor.Json.Reading.{blank_section}
use multicat_supervisor.Supervisor.{EitInfo}
use multicat_supervisor.SharedMemory.{Memory, slot, Result}
use multicat_supervisor.Startup.{
  Machine, open_ini, open_log, open_memory, start_multicat, Viewed, view,
}
use multicat_supervisor.Startup.Taken.{Started, Shown, start_multicat-Started, view-Shown}

abbrev text : Bytes
text =
    codes "[MULTICAT_LOGS]\nlevel=INFO\nfile=log\n[SHARED_MEMORY]\nfile=mem\nstreamingProvider=1\n"

abbrev config : Config
config = record {
  closed =
      record { title = none; params = [] }
      ∷ record {
        title = some (codes "MULTICAT_LOGS");
        params = (codes "level", codes "INFO") ∷ (codes "file", codes "log") ∷ [];
      }
      ∷ [];
  last = record {
    title = some (codes "SHARED_MEMORY");
    params = (codes "file", codes "mem") ∷ (codes "streamingProvider", codes "1") ∷ [];
  };
}

-- The table that the supervisor has put in the slot.
abbrev put_table : EitInfo
put_table = record {
  initialized = true;
  updated = true;
  tsid = 1;
  sid = 2;
  onid = 3;
  section0 = codes "a";
  section1 = codes "b";
}

abbrev one_slot : Memory
one_slot = put_table ∷ []

abbrev machine : Machine
machine = record {
  file = λ name. some text;
  mapped = λ name count. some one_slot;
  layout = λ section. [];
}

abbrev blank_info : Info
blank_info = record {
  tsid = 0;
  sid = 0;
  onid = 0;
  section0 = blank_section;
  section1 = blank_section;
}

text_opened : open_ini machine (codes "multicat.ini") 1 ≡ ok (some (ini_of config))
unfolding open_ini charger_fichier_ini load_lines extraire_params_valeurs fgets c_string
    est_commentaire section_of ajouter_un_param_value ajouter_une_section apr_palloc apr_pstrdup
    trim_start trim_end is_space strchr
text_opened = refl

text_logged : open_log machine (some (ini_of config)) ≡ ok (codes "log")
unfolding open_log rechercher_valeur same_text search_sections is_asked rechercher_param_value
text_logged = refl

text_mapped : open_memory machine (some (ini_of config)) ≡ ok one_slot
unfolding open_memory rechercher_valeur same_text search_sections is_asked rechercher_param_value
text_mapped = refl

table_there : slot 1 one_slot ≡ some put_table
unfolding slot
table_there = refl

start_multicat-Started_example :
    (r : Result) × (start_multicat machine (codes "multicat.ini") 1 ≡ ok r)
    × Started machine 1 one_slot put_table blank_info r
start_multicat-Started_example =
    start_multicat-Started machine (codes "multicat.ini") 0 (some (ini_of config)) (codes "log")
      one_slot put_table blank_info text_opened text_logged text_mapped (λ e. absurd cc)
      (omega arith) table_there

view-Shown_example :
    (v : Viewed) × (view machine false (codes "multicat.ini") 1 ≡ ok v)
    × Shown machine 1 one_slot put_table blank_info v
view-Shown_example =
    view-Shown machine (codes "multicat.ini") 0 (some (ini_of config)) (codes "log") one_slot
      put_table blank_info text_opened text_mapped (λ e. absurd cc) (omega arith) table_there
