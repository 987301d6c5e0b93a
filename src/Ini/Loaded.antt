-- ===== src/Ini/Loaded.antt =====
-- lib_ini.c: `ChargerFichierIni` on any contents.
use multicat_supervisor.Base.{
  ℕ, zero, suc, ◌+◌, ◌≤◌, ◌<◌, ◌≡◌, ◌≢◌, refl, ap, false, none, some, List, [], ◌∷◌, ◌++◌, inl, inr,
  arith, Bool-cases, Option-cases, lt_or_le, length, All, All-append, Bytes,
}
use multicat_supervisor.Io.{Outcome, ok, undefined, exit_failure}
use multicat_supervisor.Ini.{
  Code, success, open_failed, problem_memory, Context, size_max, apr_palloc, apr_pstrdup, is_space,
  est_commentaire, trim_end, trim_start, delete_space, strchr, ajouter_un_param_value,
  ajouter_une_section, section_of, extraire_params_valeurs, fgets, c_string, load_lines,
  next_context, initial, charger_fichier_ini,
}
use multicat_supervisor.Ini.Config.{
  Block, Config, blocks, IsTitled, titled, IsUntitled, untitled, Shaped, cost, context_of,
}
use multicat_supervisor.Ini.Growth.{
  put, add_param, add_section, cost-add_param, cost-add_section, ajouter_un_param_value-add_param,
  ajouter_une_section-add_section,
}

-- The pool is within its size, and before it is full what is stored is a configuration.
abbrev pub IsLoaded : Context → Type 0
IsLoaded ctx =
    (ctx.size ≤ size_max)
    × (ctx.size < size_max → (cfg : Config) × Shaped (blocks cfg) × (ctx ≡ context_of cfg))

-- The loop goes on with such a state.
abbrev GoesOn : Outcome (Code × Context) → Type 0
GoesOn (ok (open_failed, ctx)) = ⊥
GoesOn (ok (success, ctx)) = IsLoaded ctx
GoesOn (ok (problem_memory, ctx)) = IsLoaded ctx
GoesOn exit_failure = ⊥
GoesOn undefined = ⊥

module _ (c : ℕ) (h : is_space c ≡ false) where
  strchr-trim_end : (s : Bytes) → strchr c s ≢ none → strchr c (trim_end s) ≢ none
  unfolding strchr trim_end
  strchr-trim_end [] e = e
  strchr-trim_end (x ∷ xs) e = ground (arith, strchr-trim_end xs)

  strchr-trim_start : (s : Bytes) → strchr c s ≢ none → strchr c (trim_start s) ≢ none
  unfolding strchr trim_start
  strchr-trim_start [] e = e
  strchr-trim_start (x ∷ xs) e = ground (arith, strchr-trim_start xs)

Shaped-append : (bs : List Block) (b : Block) → IsTitled b → Shaped bs → Shaped (bs ++ b ∷ [])
Shaped-append [] b t h = absurd h
Shaped-append (x ∷ xs) b t (h, hs) = (h, All-append IsTitled xs (b ∷ []) hs (t, tt))

module _ (key val : Bytes) where
  IsTitled-put : (b : Block) → IsTitled b → IsTitled (put key val b)
  IsTitled-put _ titled = titled

  IsUntitled-put : (b : Block) → IsUntitled b → IsUntitled (put key val b)
  IsUntitled-put _ untitled = untitled

  All-put :
      (bs : List Block) (b : Block)
      → All IsTitled (bs ++ b ∷ [])
      → All IsTitled (bs ++ put key val b ∷ [])
  All-put [] b (h, hs) = (IsTitled-put b h, tt)
  All-put (x ∷ xs) b (h, hs) = (h, All-put xs b hs)

  Shaped-put :
      (bs : List Block) (b : Block) → Shaped (bs ++ b ∷ []) → Shaped (bs ++ put key val b ∷ [])
  Shaped-put [] b (h, hs) = (IsUntitled-put b h, tt)
  Shaped-put (x ∷ xs) b (h, hs) = (h, All-put xs b hs)

ajouter_une_section-GoesOn :
    (ctx : Context) (name : Bytes) → IsLoaded ctx → GoesOn (ajouter_une_section ctx name)
ajouter_une_section-GoesOn ctx name (h, k) = elim (lt_or_le (ctx.size + 2) size_max) [
  | inl l ↦
      let (cfg, sh, e) = k (omega arith) in
      let s : ctx.size ≡ cost (blocks cfg) = ap (λ (c : Context). c.size) e in
      rw (e, ajouter_une_section-add_section cfg name (omega arith))
        (
          omega (arith, cost-add_section name cfg),
          λ _. (add_section name cfg, Shaped-append (blocks cfg) _ titled sh, refl),
        )
  | inr g ↦ unfold ajouter_une_section apr_pstrdup apr_palloc in ground arith
]

ajouter_un_param_value-GoesOn :
    (ctx : Context) (buffer : Bytes)
    → strchr b'=' buffer ≢ none
    → IsLoaded ctx
    → GoesOn (ajouter_un_param_value ctx buffer)
unfolding is_space
ajouter_un_param_value-GoesOn ctx buffer n (h, k) =
    elim (Option-cases (strchr b'=' (delete_space buffer))) [
      | inl e ↦ absurd (strchr-trim_start b'=' refl _ (strchr-trim_end b'=' refl buffer n) e)
      | inr ((key, val), e) ↦ elim (lt_or_le (ctx.size + 3) size_max) [
        | inl l ↦
            let (cfg, sh, e') = k (omega arith) in
            let s : ctx.size ≡ cost (blocks cfg) = ap (λ (c : Context). c.size) e' in
            rw (e', ajouter_un_param_value-add_param cfg buffer key val (omega arith) e)
              (
                omega (arith, cost-add_param key val cfg),
                λ _. (add_param key val cfg, Shaped-put key val cfg.closed cfg.last sh, refl),
              )
        | inr g ↦
            unfold ajouter_un_param_value apr_pstrdup apr_palloc in
            rw (ajouter_un_param_value, e) (ground arith)
      ]
    ]

extraire_params_valeurs-GoesOn :
    (ctx : Context) (buffer : Bytes) → IsLoaded ctx → GoesOn (extraire_params_valeurs ctx buffer)
unfolding extraire_params_valeurs
extraire_params_valeurs-GoesOn ctx buffer h = elim (Bool-cases (est_commentaire buffer)) [
  | inl e ↦ rw e h
  | inr e ↦ elim (Option-cases (strchr b'=' buffer)) [
    | inl n ↦ elim (Option-cases (section_of buffer)) [
      | inl s ↦ rw (extraire_params_valeurs, e, n, s) h
      | inr (name, s) ↦
          rw (extraire_params_valeurs, e, n, s) (ajouter_une_section-GoesOn ctx name h)
    ]
    | inr (p, n) ↦
        rw (extraire_params_valeurs, e, n) (ajouter_un_param_value-GoesOn ctx buffer (λ z. cc) h)
  ]
]

fgets_rest : (room : ℕ) (file : Bytes) → length (fgets room file).1 ≤ length file
unfolding fgets
fgets_rest zero file = omega arith
fgets_rest (suc room) [] = omega arith
fgets_rest (suc room) (c ∷ cs) = ground (arith, fgets_rest room cs)

fgets_shorter : (room : ℕ) (c : ℕ) (cs : Bytes) → length (fgets (suc room) (c ∷ cs)).1 ≤ length cs
unfolding fgets
fgets_shorter room c cs = ground (arith, fgets_rest room cs)

next_context-IsLoaded :
    (r : Outcome (Code × Context))
    → GoesOn r
    → (ctx : Context) × (next_context r ≡ ok ctx) × IsLoaded ctx
next_context-IsLoaded (ok (success, ctx)) h = (ctx, refl, h)
next_context-IsLoaded (ok (problem_memory, ctx)) h = (ctx, refl, h)
next_context-IsLoaded (ok (open_failed, ctx)) h = absurd h
next_context-IsLoaded exit_failure h = absurd h
next_context-IsLoaded undefined h = absurd h

load_lines-IsLoaded :
    (fuel : ℕ) (ctx : Context) (file : Bytes)
    → length file ≤ fuel
    → IsLoaded ctx
    → (ctx' : Context) × (load_lines fuel ctx file ≡ ok ctx') × IsLoaded ctx'
unfolding load_lines
load_lines-IsLoaded fuel ctx [] l h = (ctx, refl, h)
load_lines-IsLoaded zero ctx (c ∷ cs) l h = absurd (omega arith)
load_lines-IsLoaded (suc fuel) ctx (c ∷ cs) l h =
    let (ctx', e, h') =
      next_context-IsLoaded _
        (extraire_params_valeurs-GoesOn ctx (c_string (fgets 1023 (c ∷ cs)).0) h) in
    rw (load_lines, e)
      (load_lines-IsLoaded fuel ctx' (fgets 1023 (c ∷ cs)).1
        (omega (arith, fgets_shorter 1022 c cs)) h')

-- Whatever a file holds, ChargerFichierIni comes to its end with INI_SUCCESS, also when the pool
-- of 1024 allocations is full, which it never exceeds; and as long as it is not full, what is
-- stored is a configuration whose first section alone has no title, all counters and the number
-- of allocations being those of its contents.
pub charger_fichier_ini-IsLoaded :
    (file : Bytes)
    → (ctx : Context) × (charger_fichier_ini (some file) ≡ ok (success, some ctx)) × IsLoaded ctx
unfolding charger_fichier_ini
charger_fichier_ini-IsLoaded file =
    let (ctx, e, h) = load_lines-IsLoaded (length file) initial file (omega arith) (
      omega arith,
      λ _. (
        record { closed = []; last = record { title = none; params = [] } },
        (untitled, tt),
        refl,
      ),
    ) in
    (ctx, rw e refl, h)
