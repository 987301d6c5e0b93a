-- ===== src/Json/Building.antt =====
-- json_parsing.c, `convert_eit_struct_to_json`: the JSON object of a section.
use multicat_supervisor.Base.{List, [], ◌∷◌, ◌==◌, if◌then◌else◌, codes}
use multicat_supervisor.Eit.{
  InfoSection, ShortEventDesc, ComponentDesc, ContentDesc, ParentalRatingDesc,
}
use multicat_supervisor.Json.{JsonC}
use multicat_supervisor.Json.Reading.{blank_content, entry_at}

module _ (j : JsonC) where
  open j use {Value, new_int, new_string, new_array, new_object}

  unfoldable pub convert_component : ComponentDesc → Value
  convert_component c = new_object (
      (codes "stream_content", new_int c.stream_content)
      ∷ (codes "component_type", new_int c.component_type)
      ∷ (codes "set_component_tag", new_int c.set_component_tag)
      ∷ (codes "lang", new_string c.lang)
      ∷ (codes "text", new_string c.text)
      ∷ [])

  -- The loop over the components
  unfoldable pub convert_components : List ComponentDesc → List Value
  convert_components [] = []
  convert_components (c ∷ cs) =
      let rest = convert_components cs in
      if c.set_component_tag == 0 then rest else convert_component c ∷ rest

  unfoldable pub convert_component_desc_xml_to_json : InfoSection → Value
  unfolding convert_components
  convert_component_desc_xml_to_json s =
      new_array (convert_components (s.stereo ∷ s.audio ∷ s.subtitle ∷ []))

  unfoldable pub convert_content : ContentDesc → Value
  convert_content c = new_object (
      (codes "content_nibble_level_1", new_int c.level_1)
      ∷ (codes "content_nibble_level_2", new_int c.level_2)
      ∷ [])

  -- The first content only, if its first level is not 0.
  unfoldable pub convert_content_desc_xml_to_json : InfoSection → Value
  unfolding convert_content
  convert_content_desc_xml_to_json s =
      let c = entry_at blank_content 0 s.content_desc in
      if c.level_1 == 0 then new_array [] else new_array (convert_content c ∷ [])

  unfoldable pub convert_parental_rating_xml_to_json : ParentalRatingDesc → Value
  convert_parental_rating_xml_to_json d =
      if d.age == 0
      then new_object []
      else new_object
          ((codes "age", new_int d.age) ∷ (codes "country_code", new_string d.country_code) ∷ [])

  unfoldable pub convert_short_desc_xml_to_json : ShortEventDesc → Value
  convert_short_desc_xml_to_json d = new_object (
      (codes "event_lang", new_string d.event_lang)
      ∷ (codes "event_name", new_string d.event_name)
      ∷ (codes "event_text", new_string d.event_text)
      ∷ [])

  unfoldable pub convert_eit_struct_to_json : InfoSection → Value
  convert_eit_struct_to_json s = new_object (
      (codes "duration", new_int s.duration)
      ∷ (codes "SHORT_EVENT_DESCRIPTOR", convert_short_desc_xml_to_json s.short_event_desc)
      ∷ (
        codes "PARENTAL_RATING_DESCRIPTOR",
        convert_parental_rating_xml_to_json s.parent_rating_desc,
      )
      ∷ (codes "CONTENT_DESCRIPTOR", convert_content_desc_xml_to_json s)
      ∷ (codes "COMPONENT_DESCRIPTOR", convert_component_desc_xml_to_json s)
      ∷ [])
