-- ===== src/Ini/Text.antt =====
-- lib_ini.c: the text of a configuration, and what is done with one line of it.
use mathlib.Core.List.{append_assoc}
use multicat_supervisor.Base.{
  ℕ, zero, suc, ◌+◌, ◌≤◌, ◌<◌, ◌≡◌, ◌≢◌, refl, ap, ◌∙◌, false, Option, none, some, List, [], ◌∷◌,
  ◌++◌, arith, length, All, All-append, Bytes,
}
use multicat_supervisor.Io.{ok}
use multicat_supervisor.Ini.{
  success, Context, size_max, is_space, est_commentaire, trim_end, trim_start, delete_space, strchr,
  section_of, extraire_params_valeurs, fgets, c_string, load_lines,
}
use multicat_supervisor.Ini.Config.{Block, Config, blocks, cost, context_of}
use multicat_supervisor.Ini.Growth.{
  add_param, add_section, ajouter_un_param_value-add_param, ajouter_une_section-add_section,
}

-- The text of a configuration: a line for each title, and one for each parameter.
abbrev pub line_of : Bytes × Bytes → Bytes
line_of (key, val) = key ++ b'=' ∷ val

abbrev pub write_params : List (Bytes × Bytes) → Bytes → Bytes
write_params [] rest = rest
write_params (p ∷ ps) rest = line_of p ++ b'\n' ∷ write_params ps rest

abbrev pub write_title : Option Bytes → Bytes → Bytes
write_title none rest = rest
write_title (some title) rest = (b'[' ∷ (title ++ b']' ∷ [])) ++ b'\n' ∷ rest

abbrev pub write_blocks : List Block → Bytes
write_blocks [] = []
write_blocks (b ∷ bs) = write_title b.title (write_params b.params (write_blocks bs))

abbrev pub Lacks : ℕ → Bytes → Type 0
Lacks c = All (λ x. x ≢ c)

-- A line that `fgets` reads whole.
pub record IsLine (line : Bytes) : Type 0 where
  pub one_line : Lacks b'\n' line
  pub no_nul : Lacks 0 line
  pub short : length line < 1023

-- The first byte of a key: no space, and no mark of a comment.
abbrev pub Begins : Bytes → Type 0
Begins [] = ⊥
Begins (c ∷ cs) = (is_space c ≡ false) × (c ≢ b'#')

pub record IsParamText (p : Bytes × Bytes) : Type 0 where
  pub line : IsLine (line_of p)
  pub key_begins : Begins p.0
  pub key_lacks : Lacks b'=' p.0
  pub val_ends : trim_end p.1 ≡ p.1

abbrev pub IsTitleText : Option Bytes → Type 0
IsTitleText none = Unit {0}
IsTitleText (some title) =
    IsLine (b'[' ∷ (title ++ b']' ∷ [])) × Lacks b'=' title × Lacks b']' title

abbrev pub IsBlockText : Block → Type 0
IsBlockText b = IsTitleText b.title × All IsParamText b.params

fgets-line :
    (room : ℕ) (line rest : Bytes)
    → Lacks b'\n' line
    → length line < room
    → fgets room (line ++ b'\n' ∷ rest) ≡ (line ++ b'\n' ∷ [], rest)
unfolding fgets
fgets-line zero line rest h l = absurd (omega arith)
fgets-line (suc room) [] rest h l = refl
fgets-line (suc room) (c ∷ cs) rest h l = ground (arith, fgets-line room cs rest h.1)

c_string_lem : (s : Bytes) → Lacks 0 s → c_string s ≡ s
unfolding c_string
c_string_lem [] h = refl
c_string_lem (c ∷ cs) h = ground (arith, c_string_lem cs h.1)

strchr-Lacks : (c : ℕ) (s : Bytes) → Lacks c s → strchr c s ≡ none
unfolding strchr
strchr-Lacks c [] h = refl
strchr-Lacks c (x ∷ xs) h = ground (arith, strchr-Lacks c xs h.1)

strchr-append : (c : ℕ) (s rest : Bytes) → Lacks c s → strchr c (s ++ c ∷ rest) ≡ some (s, rest)
unfolding strchr
strchr-append c [] rest h = ground arith
strchr-append c (x ∷ xs) rest h = ground (arith, strchr-append c xs rest h.1)

trim_end_newline : (s : Bytes) → trim_end (s ++ b'\n' ∷ []) ≡ trim_end s
unfolding trim_end is_space
trim_end_newline [] = refl
trim_end_newline (c ∷ cs) = rw (trim_end, trim_end_newline cs) refl

trim_end_kept :
    (s : Bytes) (c : ℕ) (t : Bytes)
    → is_space c ≡ false
    → trim_end t ≡ t
    → trim_end (s ++ c ∷ t) ≡ s ++ c ∷ t
unfolding trim_end
trim_end_kept [] c [] h e = rw h refl
trim_end_kept [] c (d ∷ t) h e = rw (trim_end, e) refl
trim_end_kept (x ∷ []) c t h e = rw (trim_end, trim_end_kept [] c t h e) refl
trim_end_kept (x ∷ y ∷ s) c t h e = rw (trim_end, trim_end_kept (y ∷ s) c t h e) refl

trim_start_kept : (c : ℕ) (s : Bytes) → is_space c ≡ false → trim_start (c ∷ s) ≡ c ∷ s
unfolding trim_start
trim_start_kept c s h = rw h refl

est_commentaire_not : (c : ℕ) (s : Bytes) → Begins (c ∷ s) → est_commentaire (c ∷ s) ≡ false
unfolding est_commentaire is_space
est_commentaire_not c s h = ground arith

c_string_line : (line : Bytes) → IsLine line → c_string (line ++ b'\n' ∷ []) ≡ line ++ b'\n' ∷ []
c_string_line line h =
    c_string_lem _ (All-append (λ x. x ≢ 0) line _ h.no_nul ((λ z. omega arith), tt))

pub load_line :
    (fuel : ℕ) (ctx ctx' : Context) (line rest : Bytes)
    → IsLine line
    → extraire_params_valeurs ctx (line ++ b'\n' ∷ []) ≡ ok (success, ctx')
    → load_lines (suc fuel) ctx (line ++ b'\n' ∷ rest) ≡ load_lines fuel ctx' rest
unfolding load_lines
load_line fuel ctx ctx' [] rest h e =
    rw (fgets-line 1023 [] rest h.one_line h.short, c_string_line [] h, e) refl
load_line fuel ctx ctx' (c ∷ cs) rest h e =
    rw (fgets-line 1023 (c ∷ cs) rest h.one_line h.short, c_string_line (c ∷ cs) h, e) refl

pub extraire_params_valeurs-param :
    (cfg : Config) (p : Bytes × Bytes)
    → IsParamText p
    → cost (blocks cfg) + 3 ≤ size_max
    → extraire_params_valeurs (context_of cfg) (line_of p ++ b'\n' ∷ [])
      ≡ ok (success, context_of (add_param p.0 p.1 cfg))
unfolding extraire_params_valeurs is_space
extraire_params_valeurs-param cfg ([], val) h l = absurd h.key_begins
extraire_params_valeurs-param cfg (c ∷ cs, val) h l =
    let line : Bytes = line_of (c ∷ cs, val) in
    let kept : trim_end (line ++ b'\n' ∷ []) ≡ line =
      trim_end_newline line ∙ trim_end_kept (c ∷ cs) b'=' val refl h.val_ends in
    let whole : delete_space (line ++ b'\n' ∷ []) ≡ line =
      ap trim_start kept ∙ trim_start_kept c (cs ++ b'=' ∷ val) h.key_begins.0 in
    let found : strchr b'=' (line ++ b'\n' ∷ []) ≡ some (c ∷ cs, val ++ b'\n' ∷ []) =
      ap (strchr b'=') (append_assoc (c ∷ cs) (b'=' ∷ val) (b'\n' ∷ []))
      ∙ strchr-append b'=' (c ∷ cs) (val ++ b'\n' ∷ []) h.key_lacks in
    rw (est_commentaire_not c (cs ++ b'=' ∷ val ++ b'\n' ∷ []) h.key_begins, found)
      (ajouter_un_param_value-add_param cfg (line ++ b'\n' ∷ []) (c ∷ cs) val l
        (ap (strchr b'=') whole ∙ strchr-append b'=' (c ∷ cs) val h.key_lacks))

pub extraire_params_valeurs-title :
    (cfg : Config) (title : Bytes)
    → IsTitleText (some title)
    → cost (blocks cfg) + 2 ≤ size_max
    → extraire_params_valeurs (context_of cfg) ((b'[' ∷ (title ++ b']' ∷ [])) ++ b'\n' ∷ [])
      ≡ ok (success, context_of (add_section title cfg))
unfolding extraire_params_valeurs est_commentaire section_of strchr
extraire_params_valeurs-title cfg title (h, no_eq, no_end) l =
    let tail : Bytes = b']' ∷ b'\n' ∷ [] in
    let e : (title ++ b']' ∷ []) ++ b'\n' ∷ [] ≡ title ++ tail =
      append_assoc title (b']' ∷ []) (b'\n' ∷ []) in
    let no : strchr b'=' ((title ++ b']' ∷ []) ++ b'\n' ∷ []) ≡ none =
      ap (strchr b'=') e
      ∙ strchr-Lacks b'=' (title ++ tail) (
          All-append (λ x. x ≢ b'=') title tail no_eq
            ((λ z. omega arith), ((λ z. omega arith), tt))) in
    let yes : strchr b']' ((title ++ b']' ∷ []) ++ b'\n' ∷ []) ≡ some (title, b'\n' ∷ []) =
      ap (strchr b']') e ∙ strchr-append b']' title (b'\n' ∷ []) no_end in
    rw (no, yes) (ajouter_une_section-add_section cfg title l)
