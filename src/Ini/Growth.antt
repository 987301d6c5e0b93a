-- ===== src/Ini/Growth.antt =====
-- lib_ini.c: how `ajouterUnParamValue` and `ajouterUneSection` change a stored configuration while the
-- pool has room.
use mathlib.Core.List.{map-append}
use multicat_supervisor.Base.{
  suc, ◌+◌, ◌%◌, ◌≤◌, ◌<◌, ◌≡◌, refl, some, List, [], ◌∷◌, ◌++◌, map, arith, length, length-append,
  Bytes, u16,
}
use multicat_supervisor.Io.{ok}
use multicat_supervisor.Ini.{
  success, size_max, apr_palloc, apr_pstrdup, delete_space, strchr, with_param,
  ajouter_un_param_value, ajouter_une_section,
}
use multicat_supervisor.Ini.Config.{
  Block, Config, blocks, param_of, section_of_block, ini_of, cost, context_of,
}

-- One more parameter in the last section, and one more section.
abbrev pub put : Bytes → Bytes → Block → Block
put key val b = record b { params = b.params ++ (key, val) ∷ [] }

abbrev pub add_param : Bytes → Bytes → Config → Config
add_param key val cfg = record cfg { last = put key val cfg.last }

abbrev pub add_section : Bytes → Config → Config
add_section name cfg = record {
  closed = blocks cfg;
  last = record { title = some name; params = [] };
}

pub cost-append : (xs ys : List Block) → cost (xs ++ ys) ≡ cost xs + cost ys
cost-append [] ys = omega arith
cost-append (x ∷ xs) ys = omega (arith, cost-append xs ys)

cost-length : (bs : List Block) → length bs ≤ cost bs
cost-length [] = omega arith
cost-length (b ∷ bs) = omega (arith, cost-length bs)

pub cost-add_param :
    (key val : Bytes) (cfg : Config) → cost (blocks (add_param key val cfg)) ≡ cost (blocks cfg) + 3
cost-add_param key val cfg = omega (
  arith,
  cost-append cfg.closed (cfg.last ∷ []),
  cost-append cfg.closed (put key val cfg.last ∷ []),
  length-append cfg.last.params ((key, val) ∷ []),
)

pub cost-add_section :
    (name : Bytes) (cfg : Config) → cost (blocks (add_section name cfg)) ≡ cost (blocks cfg) + 2
cost-add_section name cfg =
    omega (arith, cost-append (blocks cfg) (record { title = some name; params = [] } ∷ []))

section_of_block-put :
    (key val : Bytes) (b : Block)
    → length b.params < 1024
    → with_param (section_of_block b) (param_of (key, val)) ≡ section_of_block (put key val b)
section_of_block-put key val b h =
    let e : (length b.params + 1) % u16 ≡ length (b.params ++ (key, val) ∷ []) =
      omega (arith, length-append b.params ((key, val) ∷ [])) in
    rw (e, map-append param_of b.params ((key, val) ∷ [])) refl

module _ (cfg : Config) where
  pub context_of-add_param :
      (key val : Bytes)
      → cost (blocks cfg) ≤ size_max
      → context_of (add_param key val cfg) ≡ record {
        size = cost (blocks cfg) + 3;
        ini = record (ini_of cfg) {
          last = with_param (section_of_block cfg.last) (param_of (key, val));
        };
      }
  context_of-add_param key val h =
      rw
        (
          cost-add_param key val cfg,
          section_of_block-put key val cfg.last
              (omega (arith, cost-append cfg.closed (cfg.last ∷ []))),
        )
        refl

  pub context_of-add_section :
      (name : Bytes)
      → cost (blocks cfg) ≤ size_max
      → context_of (add_section name cfg) ≡ record {
        size = cost (blocks cfg) + 2;
        ini = record {
          nb_section = (suc (length cfg.closed) + 1) % u16;
          before = map section_of_block cfg.closed ++ section_of_block cfg.last ∷ [];
          last = record { name = some name; nb_param = 0; params = [] };
        };
      }
  context_of-add_section name h =
      let e : (suc (length cfg.closed) + 1) % u16 ≡ suc (length (blocks cfg)) = omega (
        arith,
        length-append cfg.closed (cfg.last ∷ []),
        cost-append cfg.closed (cfg.last ∷ []),
        cost-length cfg.closed,
      ) in
      rw (e, cost-add_section name cfg, map-append section_of_block cfg.closed (cfg.last ∷ [])) refl

  pub ajouter_un_param_value-add_param :
      (buffer key val : Bytes)
      → cost (blocks cfg) + 3 ≤ size_max
      → strchr b'=' (delete_space buffer) ≡ some (key, val)
      → ajouter_un_param_value (context_of cfg) buffer
        ≡ ok (success, context_of (add_param key val cfg))
  unfolding ajouter_un_param_value apr_pstrdup apr_palloc
  ajouter_un_param_value-add_param buffer key val h e =
      rw (ajouter_un_param_value, e, context_of-add_param key val (omega arith)) (ground arith)

  pub ajouter_une_section-add_section :
      (name : Bytes)
      → cost (blocks cfg) + 2 ≤ size_max
      → ajouter_une_section (context_of cfg) name ≡ ok (success, context_of (add_section name cfg))
  unfolding ajouter_une_section apr_pstrdup apr_palloc
  ajouter_une_section-add_section name h =
      rw (context_of-add_section name (omega arith)) (ground arith)
