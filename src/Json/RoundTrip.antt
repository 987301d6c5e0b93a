-- ===== src/Json/RoundTrip.antt =====
-- json_parsing.c: what of a section comes back from its JSON object.
use multicat_supervisor.Base.{
  ◌≡◌, refl, Bool-cases, some, inl, inr, List, [], ◌∷◌, ◌==◌, if◌then◌else◌, Bytes, codes,
  same_text,
}
use multicat_supervisor.Eit.{
  InfoSection, ShortEventDesc, ComponentDesc, ContentDesc, ParentalRatingDesc,
}
use multicat_supervisor.Json.{object, array, JsonC}
use multicat_supervisor.Json.Reading.{blank_content, blank_section, entry_at}
use multicat_supervisor.Json.Parsing.{section_member, json_parse}
use multicat_supervisor.Json.Building.{
  convert_component_desc_xml_to_json, convert_content_desc_xml_to_json,
  convert_parental_rating_xml_to_json, convert_short_desc_xml_to_json, convert_eit_struct_to_json,
}
use multicat_supervisor.Json.Kept.{tagged, kept, IsWritable, set_components_lem, length-tagged}
use multicat_supervisor.Json.Descriptors.{
  json_parse_short_event_descriptor-convert, json_parse_parental_rating_descriptor-convert,
  json_parse_component_descriptor-convert, json_parse_content_descriptor-convert,
}

module _ (j : JsonC) where
  open j use {
    Value, get_type, elements, members, get_string, get_int, get_int64, new_int, new_string,
    new_array, new_object,
  }

  get_type-short : (d : ShortEventDesc) → get_type (convert_short_desc_xml_to_json j d) ≡ object
  unfolding convert_short_desc_xml_to_json
  get_type-short d = j.get_type-new_object _

  get_type-rating :
      (d : ParentalRatingDesc) → get_type (convert_parental_rating_xml_to_json j d) ≡ object
  unfolding convert_parental_rating_xml_to_json
  get_type-rating d = elim (Bool-cases (d.age == 0)) [
    | inl e ↦ rw e (j.get_type-new_object _)
    | inr e ↦ rw e (j.get_type-new_object _)
  ]

  get_type-content : (s : InfoSection) → get_type (convert_content_desc_xml_to_json j s) ≡ array
  unfolding convert_content_desc_xml_to_json
  get_type-content s = elim (Bool-cases ((entry_at blank_content 0 s.content_desc).level_1 == 0)) [
    | inl e ↦ rw e (j.get_type-new_array _)
    | inr e ↦ rw e (j.get_type-new_array _)
  ]

  get_type-components :
      (s : InfoSection) → get_type (convert_component_desc_xml_to_json j s) ≡ array
  unfolding convert_component_desc_xml_to_json
  get_type-components s = j.get_type-new_array _

  -- A section with numbers and texts within their fields is written by convert_eit_struct_to_json
  -- as an object from which json_parse gives back the length, the names and texts, the rating if
  -- there is an age, the two levels of the first content if the first is not 0, and the
  -- components with a tag, without the gaps between them; the rest is cleared.
  pub json_parse-convert :
      (s : InfoSection)
      → IsWritable s
      → json_parse j (convert_eit_struct_to_json j s) ≡ some (kept s)
  unfolding json_parse convert_eit_struct_to_json section_member same_text
  json_parse-convert s w =
      let ms : List (Bytes × Value) =
        (codes "duration", new_int s.duration)
        ∷ (codes "SHORT_EVENT_DESCRIPTOR", convert_short_desc_xml_to_json j s.short_event_desc)
        ∷ (
          codes "PARENTAL_RATING_DESCRIPTOR",
          convert_parental_rating_xml_to_json j s.parent_rating_desc,
        )
        ∷ (codes "CONTENT_DESCRIPTOR", convert_content_desc_xml_to_json j s)
        ∷ (codes "COMPONENT_DESCRIPTOR", convert_component_desc_xml_to_json j s)
        ∷ [] in
      let s1 : InfoSection = record blank_section { duration = s.duration } in
      let s2 : InfoSection = record s1 { short_event_desc = s.short_event_desc } in
      let s3 : InfoSection = record s2 {
        parent_rating_desc =
            if s.parent_rating_desc.age == 0 then s2.parent_rating_desc else s.parent_rating_desc;
      } in
      let c : ContentDesc = entry_at blank_content 0 s.content_desc in
      let s4 : InfoSection = record s3 {
        content_desc = if c.level_1 == 0 then [] else record c { user = 0 } ∷ [];
      } in
      let cs : List ComponentDesc = s.stereo ∷ s.audio ∷ s.subtitle ∷ [] in
      rw
        (
          j.get_type-new_object ms,
          j.members-new_object ms refl,
          j.get_type-new_int s.duration,
          j.get_int-new_int s.duration w.duration,
          get_type-short s.short_event_desc,
          json_parse_short_event_descriptor-convert j s.short_event_desc s1 w.short_event,
          get_type-rating s.parent_rating_desc,
          json_parse_parental_rating_descriptor-convert j s.parent_rating_desc s2 w.country w.age,
          get_type-content s,
          json_parse_content_descriptor-convert j s s3 refl w.content,
          get_type-components s,
          json_parse_component_descriptor-convert j s s4 w.components,
          set_components_lem (tagged cs) s4 (length-tagged cs),
        )
        refl
