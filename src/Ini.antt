-- ===== src/Ini.antt =====
-- lib_ini.c. A string is its bytes without the final NUL, and `none` is a null pointer. The lists are
-- the chains, in order; the pointers to their last elements are the ends of the lists.
pub mod Lookup
pub mod Config
pub mod Growth
pub mod Loaded
pub mod Text
pub mod RoundTrip
use multicat_supervisor.Base.{
  ℕ, zero, suc, ◌+◌, ◌%◌, ◌≡◌, Bool, true, false, ◌&&◌, ◌||◌, Option, none, some, List, [], ◌∷◌,
  ◌++◌, ltb, leb, ◌==◌, if◌then◌else◌, length, Bytes, codes, same_text, u16,
}
use multicat_supervisor.Io.{Outcome, ok, exit_failure, undefined, ◌>>=◌}

-- INI_SUCCESS is 0, INI_OPEN_FAILED is -1, INI_PROBLEM_MEMORY is -2.
pub data Code : Type 0 where
  success open_failed problem_memory : Code

pub record Param : Type 0 where
  pub name : Option Bytes
  pub value : Option Bytes

-- The first section holds the parameters that stand in no section, and has no name.
pub record Section : Type 0 where
  pub name : Option Bytes
  pub nb_param : ℕ  -- short
  pub params : List Param

-- `stIni`: `ChargerFichierIni` makes a section before it reads anything, so there is a last one.
pub record Ini : Type 0 where
  pub nb_section : ℕ  -- short
  pub before : List Section
  pub last : Section

-- What loading works on: the pool, of which `size` counts, and the contents so far.
pub record Context : Type 0 where
  pub size : ℕ
  pub ini : Ini

-- The size of `apr_memory_create`.
abbrev pub size_max : ℕ
size_max = 1024

-- `apr_palloc`, where `malloc` gives memory: the new size, or a null pointer and a pool as it was.
unfoldable pub apr_palloc : ℕ → Option ℕ
apr_palloc size = if size == size_max then none else some (size + 1)

-- `apr_pstrdup`
unfoldable pub apr_pstrdup : ℕ → Bytes → Option Bytes × ℕ
unfolding apr_palloc
apr_pstrdup size s = elim (apr_palloc size) [ none ↦ (none, size) | some size' ↦ (some s, size') ]

-- `isspace` in the C locale
unfoldable pub is_space : ℕ → Bool
is_space c = c == 32 || (leb 9 c && leb c 13)

-- `estCommentaire`
unfoldable pub est_commentaire : Bytes → Bool
est_commentaire [] = false
est_commentaire (c ∷ cs) =
    let rest = est_commentaire cs in if c == 32 || c == 9 then rest else c == b'#'

-- `deleteSpace`: the loop from the end, which cuts the text, and the loop from the beginning.
unfoldable pub trim_end : Bytes → Bytes
trim_end [] = []
trim_end (c ∷ cs) = elim (trim_end cs) [
  | [] ↦ if is_space c then [] else c ∷ []
  | d ∷ ds ↦ c ∷ d ∷ ds
]

unfoldable pub trim_start : Bytes → Bytes
trim_start [] = []
trim_start (c ∷ cs) = let rest = trim_start cs in if is_space c then rest else c ∷ cs

abbrev pub delete_space : Bytes → Bytes
delete_space s = trim_start (trim_end s)

-- `strchr`: the text in front of the first such byte, and the text behind it.
unfoldable pub strchr : ℕ → Bytes → Option (Bytes × Bytes)
strchr c [] = none
strchr c (x ∷ xs) =
    let found = strchr c xs in
    if x == c
    then some ([], xs)
    else elim found [ none ↦ none | some (front, behind) ↦ some (x ∷ front, behind) ]

abbrev pub with_param : Section → Param → Section
with_param s p = record s { nb_param = (s.nb_param + 1) % u16; params = s.params ++ p ∷ [] }

-- `ajouterUnParamValue`
unfoldable pub ajouter_un_param_value : Context → Bytes → Outcome (Code × Context)
ajouter_un_param_value ctx buffer = elim (strchr b'=' (delete_space buffer)) [
  | none ↦ undefined
  | some (key, val) ↦ elim (apr_palloc ctx.size) [
    | none ↦ ok (problem_memory, ctx)
    | some n ↦
        let named = apr_pstrdup n key in
        let valued = apr_pstrdup named.1 val in
        ok (
          success,
          record {
            size = valued.1;
            ini = record ctx.ini {
              last = with_param ctx.ini.last (record { name = named.0; value = valued.0 });
            };
          },
        )
  ]
]

-- `ajouterUneSection`
unfoldable pub ajouter_une_section : Context → Bytes → Outcome (Code × Context)
ajouter_une_section ctx name = elim (apr_palloc ctx.size) [
  | none ↦ ok (problem_memory, ctx)
  | some n ↦
      let named = apr_pstrdup n name in
      ok (
        success,
        record {
          size = named.1;
          ini = record {
            nb_section = (ctx.ini.nb_section + 1) % u16;
            before = ctx.ini.before ++ ctx.ini.last ∷ [];
            last = record { name = named.0; nb_param = 0; params = [] };
          };
        },
      )
]

-- The name of the section that a line begins: the first `]` stands behind the first `[`.
unfoldable pub section_of : Bytes → Option Bytes
section_of buffer = elim (strchr b'[' buffer) [
  | none ↦ none
  | some (front, behind) ↦ elim (strchr b']' front) [
    | some _ ↦ none
    | none ↦ elim (strchr b']' behind) [ none ↦ none | some (name, _) ↦ some name ]
  ]
]

-- `extraireParamsValeurs`
unfoldable pub extraire_params_valeurs : Context → Bytes → Outcome (Code × Context)
extraire_params_valeurs ctx buffer =
    if est_commentaire buffer then ok (success, ctx) else elim (strchr b'=' buffer) [
      | some _ ↦ ajouter_un_param_value ctx buffer
      | none ↦ elim (section_of buffer) [
        | some name ↦ ajouter_une_section ctx name
        | none ↦ ok (success, ctx)
      ]
    ]

-- `fgets` with room for that many bytes: the line with its end, and what stays in the file.
unfoldable pub fgets : ℕ → Bytes → Bytes × Bytes
fgets zero file = ([], file)
fgets (suc room) [] = ([], [])
fgets (suc room) (c ∷ cs) =
    let (line, rest) = fgets room cs in if c == b'\n' then (c ∷ [], cs) else (c ∷ line, rest)

-- The bytes of a buffer that the string functions see.
unfoldable pub c_string : Bytes → Bytes
c_string [] = []
c_string (c ∷ cs) = let rest = c_string cs in if c == 0 then [] else c ∷ rest

-- What the loop goes on with: a result -1 would end it, and the file would be closed twice.
abbrev pub next_context : Outcome (Code × Context) → Outcome Context
next_context (ok (success, ctx)) = ok ctx
next_context (ok (problem_memory, ctx)) = ok ctx
next_context (ok (open_failed, ctx)) = undefined
next_context exit_failure = exit_failure
next_context undefined = undefined

-- The loop of `ChargerFichierIni`, with INI_BUFFER_LENGTH less one for `fgets`. More lines than fuel are undefined.
unfoldable pub load_lines : ℕ → Context → Bytes → Outcome Context
load_lines fuel ctx [] = ok ctx
load_lines zero ctx (c ∷ cs) = undefined
load_lines (suc fuel) ctx (c ∷ cs) =
    let (line, rest) = fgets 1023 (c ∷ cs) in
    next_context (extraire_params_valeurs ctx (c_string line)) >>= λ ctx'. load_lines fuel ctx' rest

-- The pool and the unnamed section, with two allocations of a new pool.
abbrev pub initial : Context
initial = record {
  size = 2;
  ini = record {
    nb_section = 1;
    before = [];
    last = record { name = none; nb_param = 0; params = [] };
  };
}

-- `ChargerFichierIni` on the file's contents, or on no file: the result, and the static variable.
unfoldable pub charger_fichier_ini : Option Bytes → Outcome (Code × Option Context)
charger_fichier_ini none = ok (open_failed, none)
charger_fichier_ini (some file) = do
  ctx ← load_lines (length file) initial file
  ok (success, some ctx)
