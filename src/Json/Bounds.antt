-- ===== src/Json/Bounds.antt =====
-- json_parsing.c: the texts and arrays of a section that `json_parse` gives are within their fields.
use multicat_supervisor.Base.{ℕ, ◌≤◌, ◌<◌, ◌≡◌, refl, Option, some, List, length, Bytes}
use multicat_supervisor.Eit.{InfoSection, ContentDesc}
use multicat_supervisor.Eit.Fields.{SectionFits, ShortFits, ComponentFits}
use multicat_supervisor.Json.{JsonC}
use multicat_supervisor.Json.Reading.{blank_section, component, set_component, each_member, ◌>>=◌}
use multicat_supervisor.Json.Parsing.{
  component_member, component_element, json_parse_component_descriptor, content_element,
  json_parse_content_descriptor, short_event_member, system_element,
  json_parse_ca_identifier_descriptor, extended_member, json_parse_extended_event_descriptor,
  rate_member, json_parse_short_smoothing_buffer_descriptor, rating_member,
  json_parse_short_event_descriptor, json_parse_parental_rating_descriptor, section_member,
  json_parse,
}
use multicat_supervisor.Json.Ensures.{
  Ensures, just, Ensures-if, Ensures-bind, Ensures-any, each_member-Ensures, each_element-Ensures,
  of_Ensures,
}
use multicat_supervisor.Json.Updates.{
  length-put_at, ExtendedFits, set_short, set_extended, set_rating, set_contents, set_systems,
  set_numbers, blank_section-Fits, component-Fits, set_component-Fits,
}
use multicat_supervisor.Json.Members.{
  component_member-Ensures, short_event_member-Ensures, rating_member-Ensures,
  extended_member-Ensures,
}

module _ (j : JsonC) where
  open j use {Value, get_string, members, elements}

  -- A member that is read into a part of the section.
  part-Ensures :
      {S : Type 0} (P : S → Type 0) (f : Bytes → Value → S → Option S) (set : S → InfoSection)
      → ((key : Bytes) (v : Value) (d : S) → P d → Ensures P (f key v d))
      → ((d : S) → P d → SectionFits (set d))
      → (v : Value) (d : S) → P d
      → Ensures SectionFits (each_member j f (members v) d >>= λ d'. some (set d'))
  part-Ensures P f set keep fits v d h =
      Ensures-bind _ (each_member-Ensures j P f keep (members v) d h) (λ d' k. just (fits d' k))

  component_element-Ensures :
      (i : ℕ) (v : Value) (s : InfoSection)
      → SectionFits s
      → Ensures SectionFits (component_element j i v s)
  unfolding component_element
  component_element-Ensures i v s h = Ensures-any _ _ (λ o.
      part-Ensures ComponentFits (component_member j) (λ c. set_component i c s)
        (component_member-Ensures j) (λ c k. set_component-Fits i c h k) o (component i s)
        (component-Fits i h))

  content_element-Ensures :
      (i : ℕ) (v : Value) (cs : List ContentDesc)
      → i < 10
      → length cs ≤ 10
      → Ensures (λ cs'. length cs' ≤ 10) (content_element j i v cs)
  unfolding content_element
  content_element-Ensures i v cs lt h = search (Ensures-any, just, length-put_at) depth 8

  system_element-Ensures :
      (i : ℕ) (v : Value) (xs : List ℕ)
      → i < 10
      → length xs ≤ 10
      → Ensures (λ xs'. length xs' ≤ 10) (system_element j i v xs)
  unfolding system_element
  system_element-Ensures i v xs lt h = Ensures-any _ _ (λ n. just (length-put_at 0 10 i n xs lt h))

  short_event-Ensures :
      (v : Value) (s : InfoSection)
      → SectionFits s
      → Ensures SectionFits (json_parse_short_event_descriptor j v s)
  unfolding json_parse_short_event_descriptor
  short_event-Ensures v s h =
      part-Ensures ShortFits (short_event_member j) (λ d. record s { short_event_desc = d })
        (short_event_member-Ensures j) (λ d k. set_short d h k) v s.short_event_desc h.short_event

  extended-Ensures :
      (v : Value) (s : InfoSection)
      → SectionFits s
      → Ensures SectionFits (json_parse_extended_event_descriptor j v s)
  unfolding json_parse_extended_event_descriptor
  extended-Ensures v s h =
      part-Ensures ExtendedFits (extended_member j) (λ d. record s { ext_event_desc = d })
        (extended_member-Ensures j) (λ d k. set_extended d h k) v s.ext_event_desc
        (h.ext_text, h.ext_lang, h.items)

  rating-Ensures :
      (v : Value) (s : InfoSection)
      → SectionFits s
      → Ensures SectionFits (json_parse_parental_rating_descriptor j v s)
  unfolding json_parse_parental_rating_descriptor
  rating-Ensures v s h =
      part-Ensures (λ d. length d.country_code ≤ 3) (rating_member j)
        (λ d. record s { parent_rating_desc = d }) (rating_member-Ensures j)
        (λ d k. set_rating d h k) v s.parent_rating_desc h.country

  components-Ensures :
      (v : Value) (s : InfoSection)
      → SectionFits s
      → Ensures SectionFits (json_parse_component_descriptor j v s)
  unfolding json_parse_component_descriptor
  components-Ensures v s h =
      each_element-Ensures j SectionFits (component_element j) 3
        (λ i w t lt k. component_element-Ensures i w t k) 3 0 (elements v) s refl h

  contents-Ensures :
      (v : Value) (s : InfoSection)
      → SectionFits s
      → Ensures SectionFits (json_parse_content_descriptor j v s)
  unfolding json_parse_content_descriptor
  contents-Ensures v s h =
      Ensures-bind _
        (each_element-Ensures j (λ (cs : List ContentDesc). length cs ≤ 10) (content_element j) 10
          content_element-Ensures 10 0 (elements v) s.content_desc refl h.most_contents)
        (λ cs k. just (set_contents cs h k))

  systems-Ensures :
      (v : Value) (s : InfoSection)
      → SectionFits s
      → Ensures SectionFits (json_parse_ca_identifier_descriptor j v s)
  unfolding json_parse_ca_identifier_descriptor
  systems-Ensures v s h =
      Ensures-bind _
        (each_element-Ensures j (λ (xs : List ℕ). length xs ≤ 10) (system_element j) 10
          system_element-Ensures 10 0 (elements v) s.ca_identifier_desc refl h.most_systems)
        (λ xs k. just (set_systems xs h k))

  rate-Ensures :
      (v : Value) (s : InfoSection)
      → SectionFits s
      → Ensures SectionFits (json_parse_short_smoothing_buffer_descriptor j v s)
  unfolding json_parse_short_smoothing_buffer_descriptor
  rate-Ensures v s h =
      Ensures-any (each_member j (rate_member j) (members v) s.sb_leak_rate) _
        (λ rate. just (set_numbers s.starttime s.duration rate h))

  section_member-Ensures :
      (key : Bytes) (v : Value) (s : InfoSection)
      → SectionFits s
      → Ensures SectionFits (section_member j key v s)
  unfolding section_member
  section_member-Ensures key v s h =
      search
        (
          Ensures-if, Ensures-any, short_event-Ensures, extended-Ensures, rating-Ensures,
          components-Ensures, contents-Ensures, systems-Ensures, rate-Ensures, just, set_numbers,
        )
        depth 24 fits 8000

  json_parse-Ensures : (v : Value) → Ensures SectionFits (json_parse j v)
  unfolding json_parse
  json_parse-Ensures v = Ensures-any _ _ (λ o.
      each_member-Ensures j SectionFits (section_member j) section_member-Ensures (members o)
        blank_section blank_section-Fits)

-- Whatever the value, if json_parse gives a section, each text of it is within its field, in
-- front of the NUL, and there are at most 3 items, 10 contents and 10 systems.
pub json_parse-Fits :
    (j : JsonC) (v : j.Value) (s : InfoSection) → json_parse j v ≡ some s → SectionFits s
json_parse-Fits j v s e = of_Ensures s (json_parse-Ensures j v) e
