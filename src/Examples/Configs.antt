-- ===== src/Examples/Configs.antt =====
-- Configuration files at concrete contents.
use multicat_supervisor.Base.{
  ◌≡◌, ◌≢◌, Option, same_text, refl, none, some, [], ◌∷◌, arith, Bytes, codes,
}
use multicat_supervisor.Io.{ok}
use multicat_supervisor.Ini.{
  success, Context, is_space, trim_end, charger_fichier_ini, strchr, load_lines,
  extraire_params_valeurs, fgets, c_string, est_commentaire, section_of, ajouter_un_param_value,
  ajouter_une_section, apr_palloc, apr_pstrdup, trim_start,
}
use multicat_supervisor.Eit.{Info}
use multicat_supervisor.Eit.Loading.{load_eit}
use multicat_supervisor.Eit.Fields.{SectionFits}
use multicat_supervisor.Eit.Loaded.{load_eit-Fits}
use multicat_supervisor.Ini.Config.{
  Block, Config, titled, untitled, entries, blocks, ini_of, context_of, first_value,
}
use multicat_supervisor.Ini.Lookup.{
  rechercher_valeur, rechercher_valeur-first_value, rechercher_valeur_unnamed, find_key,
  unnamed_result,
}
use multicat_supervisor.Ini.Loaded.{IsLoaded, charger_fichier_ini-IsLoaded}
use multicat_supervisor.Ini.Text.{write_blocks}
use multicat_supervisor.Ini.RoundTrip.{charger_fichier_ini-write_blocks}

abbrev level : Bytes × Bytes
level = (codes "level", codes "DEBUG")

abbrev file : Bytes × Bytes
file = (codes "file", codes "/tmp/a=b")

abbrev unnamed : Block
unnamed = record { title = none; params = (codes "k", []) ∷ [] }

abbrev logs_block : Block
logs_block = record { title = some (codes "MULTICAT_LOGS"); params = level ∷ file ∷ [] }

abbrev config : Config
config = record { closed = unnamed ∷ []; last = logs_block }

abbrev text : Bytes
text = codes "k=\n[MULTICAT_LOGS]\nlevel=DEBUG\nfile=/tmp/a=b\n"

text_lem : write_blocks (blocks config) ≡ text
text_lem = refl

-- Spaces, comments, and a line that is neither.
messy :
    charger_fichier_ini
      (some (codes "k=  \n# x=1\nnothing\n [MULTICAT_LOGS] \n\t level=DEBUG \n file=/tmp/a=b"))
    ≡ ok (success, some (context_of config))
unfolding charger_fichier_ini load_lines extraire_params_valeurs fgets c_string est_commentaire
    section_of ajouter_un_param_value ajouter_une_section apr_palloc apr_pstrdup trim_start trim_end
    is_space strchr
messy = refl

charger_fichier_ini-write_blocks_example :
    charger_fichier_ini (some text) ≡ ok (success, some (context_of config))
charger_fichier_ini-write_blocks_example =
    charger_fichier_ini-write_blocks config (untitled, (titled, tt))
      (unfold is_space trim_end in ground arith) (omega arith)

rechercher_valeur-first_value_example :
    rechercher_valeur (some (ini_of config)) (some (codes "MULTICAT_LOGS")) (codes "file")
    ≡ ok (first_value (codes "MULTICAT_LOGS") (codes "file") (entries (blocks config)))
rechercher_valeur-first_value_example =
    rechercher_valeur-first_value (codes "MULTICAT_LOGS") (codes "file") config

rechercher_valeur_unnamed_example :
    rechercher_valeur (some (ini_of config)) none (codes "level")
    ≡ unnamed_result (find_key (codes "level") unnamed.params) (logs_block ∷ [])
rechercher_valeur_unnamed_example =
    rechercher_valeur_unnamed unnamed (logs_block ∷ []) config (codes "level") refl
      (untitled, (titled, tt))

charger_fichier_ini-IsLoaded_example :
    (ctx : Context) × (charger_fichier_ini (some text) ≡ ok (success, some ctx)) × IsLoaded ctx
charger_fichier_ini-IsLoaded_example = charger_fichier_ini-IsLoaded text

abbrev event : Bytes → Block
event title = record {
  title = some title;
  params =
      (codes "event_name", codes "News")
      ∷ (codes "event_text", codes "At eight")
      ∷ (codes "event_lang", codes "fre")
      ∷ [];
}

abbrev more : Block
more = record {
  title = some (codes "EXTENDED_EVENT_DESCRIPTOR");
  params = (codes "text", []) ∷ (codes "lang", codes "french") ∷ [];
}

abbrev rating : Block
rating = record {
  title = some (codes "PARENTAL_RATING_DESCRIPTOR");
  params = (codes "country_code", codes "FRA") ∷ (codes "age", codes "10") ∷ [];
}

abbrev tables : Config
tables = record {
  closed =
      unnamed
      ∷ event (codes "SHORT_EVENT_DESCRIPTOR")
      ∷ event (codes "SHORT_EVENT_FOLLOWING_DESCRIPTOR")
      ∷ more
      ∷ [];
  last = rating;
}

some-present : (o : Option Bytes) (a : Bytes) → o ≡ some a → o ≢ none
some-present o a e = λ n. absurd cc

load_eit-Fits_example :
    (info : Info) × (load_eit (some (ini_of tables)) ≡ ok info)
    × SectionFits info.section0
    × SectionFits info.section1
unfolding same_text
load_eit-Fits_example = load_eit-Fits tables (
  some-present _ (codes "News") refl,
  (
    some-present _ (codes "At eight") refl,
    (
      some-present _ (codes "fre") refl,
      (
        some-present _ (codes "News") refl,
        (
          some-present _ (codes "At eight") refl,
          (
            some-present _ (codes "fre") refl,
            (
              some-present _ [] refl,
              (
                some-present _ (codes "french") refl,
                (some-present _ (codes "FRA") refl, (some-present _ (codes "10") refl, tt)),
              ),
            ),
          ),
        ),
      ),
    ),
  ),
)
