-- ===== src/Ini/Lookup.antt =====
-- lib_ini.c, the searches in what was loaded: `rechercherValeur`,
-- `nbrSection`, `nbrParametres` and `TrouverParametres`.
use multicat_supervisor.Base.{
  ℕ, ◌≡◌, refl, Bool, true, false, Option, none, some, List, [], ◌∷◌, ◌++◌, map, inl, inr, ◌==◌,
  if◌then◌else◌, Bool-cases, Option-cases, All, Bytes, same_text, ◌&&◌,
}
use mathlib.Core.List.{map-append}
use multicat_supervisor.Io.{Outcome, ok, undefined, ◌>>=◌}
use multicat_supervisor.Ini.{Param, Section, Ini, apr_palloc}
use multicat_supervisor.Ini.Config.{
  Block, Config, blocks, param_of, section_of_block, ini_of, IsTitled, titled, untitled, Shaped,
  Entry, entries_in, entries, in_section, first_value,
}

-- The chain of sections.
abbrev pub sections : Ini → List Section
sections ini = ini.before ++ ini.last ∷ []

-- `rechercherParamValue`
unfoldable pub rechercher_param_value : Bytes → List Param → Outcome (Option Bytes)
rechercher_param_value param [] = ok none
rechercher_param_value param (p ∷ ps) = elim p.name [
  | none ↦ undefined
  | some n ↦ if same_text n param then ok p.value else rechercher_param_value param ps
]

-- Whether a section is the one that is asked for; `strcmp` of a name and a null pointer is undefined.
unfoldable pub is_asked : Option Bytes → Option Bytes → Outcome Bool
is_asked none none = ok true
is_asked none (some asked) = ok false
is_asked (some n) none = undefined
is_asked (some n) (some asked) = ok (same_text n asked)

-- The loop of `rechercherValeur`.
unfoldable pub search_sections : Option Bytes → Bytes → List Section → Outcome (Option Bytes)
search_sections asked param [] = ok none
search_sections asked param (s ∷ ss) = do
  here ← is_asked s.name asked
  val ← if here then rechercher_param_value param s.params else ok none
  elim val [ none ↦ search_sections asked param ss | some v ↦ ok (some v) ]

-- `rechercherValeur`
unfoldable pub rechercher_valeur : Option Ini → Option Bytes → Bytes → Outcome (Option Bytes)
rechercher_valeur none asked param = ok none
rechercher_valeur (some ini) asked param = search_sections asked param (sections ini)

-- `nbrSection`
unfoldable pub nbr_section : Option Ini → Outcome ℕ
nbr_section none = undefined
nbr_section (some ini) = ok ini.nb_section

-- The loop of `nbrParametres`; `none` is INI_SECTION_NOT_FOUND.
unfoldable pub count_params : Option Bytes → List Section → Outcome (Option ℕ)
count_params asked [] = ok none
count_params asked (s ∷ ss) = do
  here ← is_asked s.name asked
  if here then ok (some s.nb_param) else count_params asked ss

-- `nbrParametres`
unfoldable pub nbr_parametres : Option Ini → Option Bytes → Outcome (Option ℕ)
nbr_parametres none asked = undefined
nbr_parametres (some ini) asked = count_params asked (sections ini)

-- The loop of `TrouverParametres`: the names of the parameters, with two allocations of the pool.
unfoldable pub list_params :
    ℕ → Option Bytes → List Section → Outcome (Option (List (Option Bytes)) × ℕ)
list_params size asked [] = ok (none, size)
list_params size asked (s ∷ ss) = do
  here ← is_asked s.name asked
  if here
      then (if s.nb_param == 0 then ok (none, size) else elim (apr_palloc size) [
        | none ↦ ok (none, size)
        | some n ↦ elim (apr_palloc n) [
          | none ↦ ok (none, n)
          | some m ↦ ok (some (map (λ (p : Param). p.name) s.params), m)
        ]
      ])
      else list_params size asked ss

-- `TrouverParametres`
unfoldable pub trouver_parametres :
    ℕ → Option Ini → Option Bytes → Outcome (Option (List (Option Bytes)) × ℕ)
trouver_parametres size none asked = undefined
trouver_parametres size (some ini) asked = list_params size asked (sections ini)

or_else : Option Bytes → Option Bytes → Option Bytes
or_else none o = o
or_else (some v) o = some v

module _ (asked key : Bytes) where
  first_value-append :
      (xs ys : List Entry)
      → first_value asked key (xs ++ ys)
        ≡ or_else (first_value asked key xs) (first_value asked key ys)
  unfolding or_else
  first_value-append [] ys = refl
  first_value-append (x ∷ xs) ys =
      elim (Bool-cases (in_section asked x.title && same_text x.key key)) [
        | inl h ↦ rw h refl
        | inr h ↦ rw h (first_value-append xs ys)
      ]

  rechercher_param_value-first_value :
      (title : Option Bytes) (ps : List (Bytes × Bytes))
      → in_section asked title ≡ true
      → rechercher_param_value key (map param_of ps)
        ≡ ok (first_value asked key (entries_in title ps))
  unfolding rechercher_param_value
  rechercher_param_value-first_value title [] h = refl
  rechercher_param_value-first_value title ((k, v) ∷ ps) h = elim (Bool-cases (same_text k key)) [
    | inl e ↦ rw (h, e) refl
    | inr e ↦ rw (h, e) (rechercher_param_value-first_value title ps h)
  ]

  entries_in-other :
      (title : Option Bytes) (ps : List (Bytes × Bytes))
      → in_section asked title ≡ false
      → first_value asked key (entries_in title ps) ≡ none
  entries_in-other title [] h = refl
  entries_in-other title ((k, v) ∷ ps) h = rw h (entries_in-other title ps h)

  is_asked-in_section :
      (title : Option Bytes) → is_asked title (some asked) ≡ ok (in_section asked title)
  unfolding is_asked
  is_asked-in_section none = refl
  is_asked-in_section (some t) = refl

  search_sections-first_value :
      (bs : List Block)
      → search_sections (some asked) key (map section_of_block bs)
        ≡ ok (first_value asked key (entries bs))
  unfolding search_sections or_else
  search_sections-first_value [] = refl
  search_sections-first_value (b ∷ bs) =
      rw
        (is_asked-in_section b.title, first_value-append (entries_in b.title b.params) (entries bs))
        (elim (Bool-cases (in_section asked b.title)) [
          | inl h ↦
              rw (h, rechercher_param_value-first_value b.title b.params h)
                (elim (Option-cases (first_value asked key (entries_in b.title b.params))) [
                  | inl e ↦ rw e (search_sections-first_value bs)
                  | inr (v, e) ↦ rw e refl
                ])
          | inr h ↦ rw (h, entries_in-other b.title b.params h) (search_sections-first_value bs)
        ])

  -- On a stored configuration rechercherValeur gives, for a section's title and a key, the value
  -- of the first of all entries in their order that has both, or NULL, so that sections of one
  -- title act as one; nothing undefined happens.
  pub rechercher_valeur-first_value :
      (cfg : Config)
      → rechercher_valeur (some (ini_of cfg)) (some asked) key
        ≡ ok (first_value asked key (entries (blocks cfg)))
  unfolding rechercher_valeur
  rechercher_valeur-first_value cfg =
      rw (← map-append section_of_block cfg.closed (cfg.last ∷ []))
        (search_sections-first_value (blocks cfg))

-- What a search without a section comes to: only the unnamed section is one that it can pass.
abbrev pub unnamed_result : Option Bytes → List Block → Outcome (Option Bytes)
unnamed_result (some v) bs = ok (some v)
unnamed_result none [] = ok none
unnamed_result none (b ∷ bs) = undefined

abbrev pub find_key : Bytes → List (Bytes × Bytes) → Option Bytes
find_key key [] = none
find_key key ((k, v) ∷ ps) = let rest = find_key key ps in if same_text k key then some v else rest

rechercher_param_value-find_key :
    (key : Bytes) (ps : List (Bytes × Bytes))
    → rechercher_param_value key (map param_of ps) ≡ ok (find_key key ps)
unfolding rechercher_param_value
rechercher_param_value-find_key key [] = refl
rechercher_param_value-find_key key ((k, v) ∷ ps) = elim (Bool-cases (same_text k key)) [
  | inl e ↦ rw e refl
  | inr e ↦ rw e (rechercher_param_value-find_key key ps)
]

unnamed_rest :
    (key : Bytes) (bs : List Block)
    → All IsTitled bs
    → search_sections none key (map section_of_block bs) ≡ unnamed_result none bs
unfolding search_sections is_asked
unnamed_rest key [] h = refl
unnamed_rest key (b ∷ bs) (titled, h) = refl

search_sections_unnamed :
    (key : Bytes) (b : Block) (bs : List Block)
    → Shaped (b ∷ bs)
    → search_sections none key (map section_of_block (b ∷ bs))
      ≡ unnamed_result (find_key key b.params) bs
unfolding search_sections is_asked
search_sections_unnamed key b bs (untitled, hs) =
    rw (rechercher_param_value-find_key key b.params) (elim (Option-cases (find_key key b.params)) [
      | inl e ↦ rw e (unnamed_rest key bs hs)
      | inr (v, e) ↦ rw e refl
    ])

-- A search with no section gives the first parameter with that key in front of the first title;
-- where there is none, it gives NULL if the configuration has no title, and otherwise compares a
-- title with a null pointer. The configuration has one section without a title, in front.
pub rechercher_valeur_unnamed :
    (b : Block) (bs : List Block) (cfg : Config) (key : Bytes)
    → blocks cfg ≡ b ∷ bs
    → Shaped (b ∷ bs)
    → rechercher_valeur (some (ini_of cfg)) none key ≡ unnamed_result (find_key key b.params) bs
unfolding rechercher_valeur
rechercher_valeur_unnamed b bs cfg key e h =
    rw (← map-append section_of_block cfg.closed (cfg.last ∷ []), e)
      (search_sections_unnamed key b bs h)
