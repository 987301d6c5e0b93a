-- ===== src/EitXml.antt =====
-- eit_xml.c: the two events of a stream out of the XML that dvb_print_si prints of it.
-- libxml2 is not part of the repository: a document is what it finds for a path, the nodes in their
-- order, each with its attributes. An attribute without a text has no children.
pub mod Events
pub mod Sections
pub mod Bounds
pub mod Returns
pub mod Attributes
pub mod Ready
use multicat_supervisor.Base.{
  ℕ, zero, suc, ◌+◌, ◌-◌, ◌*◌, ◌%◌, ◌^◌, Bool, true, false, ◌||◌, Option, none, some, List, [], ◌∷◌,
  ◌++◌, ltb, leb, ◌==◌, if◌then◌else◌, length, take, Bytes, codes, same_text,
}
use multicat_supervisor.Io.{Outcome, ok, undefined, ◌>>=◌}
use multicat_supervisor.AuxFile.{decimal}
use multicat_supervisor.Latin9.{utf8_to_latin9}
use multicat_supervisor.Eit.{
  InfoSection, ShortEventDesc, ComponentDesc, ContentDesc, ParentalRatingDesc,
}
use multicat_supervisor.Eit.Numbers.{atoi, convert_str}
use multicat_supervisor.Eit.Loading.{blank_component, component_at}

pub record Attribute : Type 0 where
  pub name : Bytes
  pub children : Option Bytes

abbrev pub Node : Type 0
Node = List Attribute

abbrev pub Document : Type 0
Document = Bytes → List Node

-- The loop over the attributes of a node, which the first one without children ends.
abbrev pub each_attribute {ℓ} :
    {S : Type ℓ} → (Bytes → Bytes → S → Outcome S) → Node → S → Outcome S
each_attribute f [] s = ok s
each_attribute f (a ∷ as') s = elim a.children [
  | none ↦ ok s
  | some keyword ↦ f a.name keyword s >>= each_attribute f as'
]

-- `%d` of a 32-bit pattern
unfoldable pub signed_decimal : ℕ → Bytes
signed_decimal n = if ltb n (2 ^ 31) then decimal n else b'-' ∷ decimal (2 ^ 32 - n)

-- `a < b` and `a <= b` of 32-bit patterns
abbrev pub int_key : ℕ → ℕ
int_key n = (n + 2 ^ 31) % 2 ^ 32

-- An `int` as a `long`
abbrev pub widen : ℕ → ℕ
widen n = if ltb n (2 ^ 31) then n else n + 2 ^ 64 - 2 ^ 32

-- The paths that are searched.
abbrev pub events_path : ℕ → Bytes
events_path program =
    codes "/TS/EIT[@service_id=\"" ++ (signed_decimal program ++ codes "\"]/EVENT")

abbrev pub event_path : ℕ → ℕ → Bytes → Bytes
event_path program event rest =
    events_path program ++ (codes "[@id=\"" ++ (signed_decimal event ++ (codes "\"]" ++ rest)))

abbrev pub number_attribute : Bytes → Bytes → Bytes → ℕ → Outcome ℕ
number_attribute wanted name keyword n =
    ok (if same_text name wanted then atoi (2 ^ 32) keyword else n)

-- `build_program_number`; `none` is -1.
unfoldable pub build_program_number : Document → Outcome (Option ℕ)
build_program_number doc = elim (doc (codes "/TS/PAT/PROGRAM")) [
  | [] ↦ ok none
  | node ∷ nodes ↦ do
    n ← each_attribute (number_attribute (codes "number")) node 0
    ok (if n == 0 then none else some n)
]

-- The ids of the present event and of the one that follows, at one more id.
unfoldable pub next_ids : ℕ → ℕ × ℕ → ℕ × ℕ
next_ids id (a, b) =
    let a' = if a == 0 || ltb (int_key id) (int_key a) then id else a in
    (a', if b == 0 || leb (int_key id) (int_key ((a' + 1) % 2 ^ 32)) then id else b)

unfoldable pub id_attribute : Bytes → Bytes → ℕ × ℕ → Outcome (ℕ × ℕ)
unfolding next_ids
id_attribute name keyword ids =
    ok (if same_text name (codes "id") then next_ids (atoi (2 ^ 32) keyword) ids else ids)

-- The loop over the events.
unfoldable pub event_ids : List Node → ℕ × ℕ → Outcome (ℕ × ℕ)
event_ids [] ids = ok ids
event_ids (node ∷ nodes) ids = do ids' ← each_attribute id_attribute node ids; event_ids nodes ids'

-- The two ids that are found are numbers.
abbrev pub found_ids : ℕ × ℕ → Option (ℕ × ℕ)
found_ids (a, b) = if a == 0 || b == 0 then none else some (a, b)

-- `build_sections_event_id`
unfoldable pub build_sections_event_id : Document → ℕ → Outcome (Option (ℕ × ℕ))
build_sections_event_id doc program = elim (doc (events_path program)) [
  | [] ↦ ok none
  | node ∷ nodes ↦ do ids ← event_ids (node ∷ nodes) (0, 0); ok (found_ids ids)
]
