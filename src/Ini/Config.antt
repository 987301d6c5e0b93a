-- ===== src/Ini/Config.antt =====
-- lib_ini.c: what the contents of a configuration are, apart from how they are stored, and the text of
-- a configuration.
use multicat_supervisor.Base.{
  ℕ, suc, ◌+◌, ◌*◌, ◌&&◌, Bool, false, Option, none, some, List, [], ◌∷◌, ◌++◌, map, if◌then◌else◌,
  length, All, Bytes, same_text,
}
use multicat_supervisor.Ini.{Param, Section, Ini, Context}

-- A section, by its parameters; the one in front of the first title has none.
pub record Block : Type 0 where
  pub title : Option Bytes
  pub params : List (Bytes × Bytes)

pub record Config : Type 0 where
  pub closed : List Block
  pub last : Block

abbrev pub blocks : Config → List Block
blocks cfg = cfg.closed ++ cfg.last ∷ []

pub data IsTitled : Block → Type 0 where
  titled :
      {title : Bytes} {params : List (Bytes × Bytes)}
      → IsTitled (record { title = some title; params = params })

pub data IsUntitled : Block → Type 0 where
  untitled : {params : List (Bytes × Bytes)} → IsUntitled (record { title = none; params = params })

-- Only the first block has no title.
abbrev pub Shaped : List Block → Type 0
Shaped [] = ⊥
Shaped (b ∷ bs) = IsUntitled b × All IsTitled bs

-- How a configuration is stored.
abbrev pub param_of : Bytes × Bytes → Param
param_of (key, value) = record { name = some key; value = some value }

abbrev pub section_of_block : Block → Section
section_of_block b = record {
  name = b.title;
  nb_param = length b.params;
  params = map param_of b.params;
}

abbrev pub ini_of : Config → Ini
ini_of cfg = record {
  nb_section = suc (length cfg.closed);
  before = map section_of_block cfg.closed;
  last = section_of_block cfg.last;
}

-- The allocations: two for a section, or for the unnamed section and the list of sections, and three
-- for a parameter.
abbrev pub cost : List Block → ℕ
cost [] = 0
cost (b ∷ bs) = 2 + 3 * length b.params + cost bs

abbrev pub context_of : Config → Context
context_of cfg = record { size = cost (blocks cfg); ini = ini_of cfg }

-- All parameters in their order, each with its section.
pub record Entry : Type 0 where
  pub title : Option Bytes
  pub key : Bytes
  pub value : Bytes

abbrev pub entries_in : Option Bytes → List (Bytes × Bytes) → List Entry
entries_in title [] = []
entries_in title ((key, value) ∷ ps) =
    record { title = title; key = key; value = value } ∷ entries_in title ps

abbrev pub entries : List Block → List Entry
entries [] = []
entries (b ∷ bs) = entries_in b.title b.params ++ entries bs

abbrev pub in_section : Bytes → Option Bytes → Bool
in_section asked none = false
in_section asked (some title) = same_text title asked

-- The value of the first entry with that section and key.
abbrev pub first_value : Bytes → Bytes → List Entry → Option Bytes
first_value asked key [] = none
first_value asked key (e ∷ es) =
    let rest = first_value asked key es in
    if in_section asked e.title && same_text e.key key then some e.value else rest
