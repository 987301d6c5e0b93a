-- ===== src/Examples/Events.antt =====
-- XML documents that give the same nodes for every path.
use multicat_supervisor.Base.{
  ℕ, ◌≡◌, refl, Option, some, List, [], ◌∷◌, arith, Bytes, codes, same_text,
}
use multicat_supervisor.Io.{ok}
use multicat_supervisor.Ini.{trim_start, is_space}
use multicat_supervisor.Eit.Numbers.{signed, scan, digit}
use multicat_supervisor.Json.Reading.{blank_section}
use multicat_supervisor.EitXml.{Attribute, Node, Document, events_path, build_sections_event_id}
use multicat_supervisor.EitXml.Events.{ids_of, Chosen, build_sections_event_id-Chosen}
use multicat_supervisor.EitXml.Sections.{
  Extracted, convert_xml_to_eit_struct, extract_eti_xml_from_ts,
}
use multicat_supervisor.EitXml.Returns.{DocumentFits, MaybeAll}
use multicat_supervisor.EitXml.Ready.{IsExtracted, convert_xml_to_eit_struct-IsExtracted}
use multicat_supervisor.EitXml.Bounds.{extract_eti_xml_from_ts_lem}

abbrev attribute : Bytes → Bytes → Attribute
attribute name text = record { name = name; children = some text }

abbrev event_node : Bytes → Node
event_node id = attribute (codes "id") id ∷ []

-- The events 6, 7, 5 and 6.
abbrev four_events : Document
four_events path =
    event_node (codes "6")
    ∷ event_node (codes "7")
    ∷ event_node (codes "5")
    ∷ event_node (codes "6")
    ∷ []

four_ids : (path : Bytes) → ids_of (four_events path) ≡ 6 ∷ 7 ∷ 5 ∷ 6 ∷ []
unfolding same_text signed scan digit trim_start is_space
four_ids path = refl

build_sections_event_id-Chosen_example :
    (a : ℕ) × (b : ℕ) × (build_sections_event_id four_events 1 ≡ ok (some (a, b)))
    × Chosen (ids_of (four_events (events_path 1))) a b
build_sections_event_id-Chosen_example =
    build_sections_event_id-Chosen four_events 1 (rw (four_ids (events_path 1)) (omega arith))
      (rw (four_ids (events_path 1)) (λ e. cc))

-- One node with all attributes.
abbrev one_node : Document
one_node path =
    (attribute (codes "number") (codes "1")
      ∷ attribute (codes "id") (codes "7")
      ∷ attribute (codes "start_time") (codes "1000")
      ∷ attribute (codes "duration") (codes "60")
      ∷ attribute (codes "lang") (codes "fre")
      ∷ attribute (codes "event_name") (codes "News")
      ∷ [])
    ∷ []

one_node-DocumentFits : DocumentFits one_node
one_node-DocumentFits path = ground arith

convert_xml_to_eit_struct-IsExtracted_example :
    (o : Option Extracted) × (convert_xml_to_eit_struct one_node blank_section blank_section ≡ ok o)
    × MaybeAll (IsExtracted blank_section blank_section) o
convert_xml_to_eit_struct-IsExtracted_example =
    convert_xml_to_eit_struct-IsExtracted one_node blank_section blank_section one_node-DocumentFits

abbrev two_chunks : List Bytes
two_chunks = codes "<TS>" ∷ codes "</TS>" ∷ []

extract_eti_xml_from_ts_lem_example :
    extract_eti_xml_from_ts (some two_chunks) ≡ ok (some (codes "<TS></TS>"))
extract_eti_xml_from_ts_lem_example = extract_eti_xml_from_ts_lem two_chunks (omega arith)
