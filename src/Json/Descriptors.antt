-- ===== src/Json/Descriptors.antt =====
-- json_parsing.c: each descriptor comes back from its value.
use multicat_supervisor.Base.{
  ℕ, zero, suc, ◌+◌, ◌%◌, ◌^◌, ◌≤◌, ◌<◌, ◌≡◌, refl, ap, Bool-cases, some, inl, inr, List, [], ◌∷◌,
  arith, ◌==◌, if◌then◌else◌, length, take, All, Bytes, codes, same_text,
}
use multicat_supervisor.Eit.{
  InfoSection, ShortEventDesc, ComponentDesc, ContentDesc, ParentalRatingDesc,
}
use multicat_supervisor.Eit.Fields.{ShortFits}
use multicat_supervisor.Json.{JsonC}
use multicat_supervisor.Json.Reading.{
  blank_content, entry_at, set_component, each_element, text_of, byte_of, byte_or_text, int_or_hex,
}
use multicat_supervisor.Json.Parsing.{
  component_member, component_element, json_parse_component_descriptor, content_member,
  content_element, json_parse_content_descriptor, short_event_member, rating_member,
  json_parse_short_event_descriptor, json_parse_parental_rating_descriptor,
}
use multicat_supervisor.Json.Building.{
  convert_component, convert_components, convert_component_desc_xml_to_json, convert_content,
  convert_content_desc_xml_to_json, convert_parental_rating_xml_to_json,
  convert_short_desc_xml_to_json,
}
use multicat_supervisor.Json.Kept.{ContentFits, ComponentOk, tagged, set_components}

pub take_all : (n : ℕ) (s : Bytes) → length s ≤ n → take n s ≡ s
take_all zero [] h = refl
take_all zero (x ∷ xs) h = absurd (omega arith)
take_all (suc n) [] h = refl
take_all (suc n) (x ∷ xs) h = ap (λ l. x ∷ l) (take_all n xs (omega arith))

module _ (j : JsonC) where
  open j use {
    Value, get_type, elements, members, get_string, get_int, get_int64, new_int, new_string,
    new_array, new_object,
  }

  pub text_of-new_string : (n : ℕ) (s : Bytes) → length s ≤ n → text_of j n (new_string s) ≡ some s
  unfolding text_of
  text_of-new_string n s h =
      rw (j.get_type-new_string s, text_of, j.get_string-new_string s, take_all n s h) refl

  pub byte_of-new_int : (n : ℕ) → n < 256 → byte_of j (new_int n) ≡ some n
  unfolding byte_of
  byte_of-new_int n h =
      let e : n % 256 ≡ n = omega arith in
      rw (j.get_type-new_int n, j.get_int-new_int n (omega arith), e) refl

  pub byte_or_text-new_int : (n : ℕ) → n < 256 → byte_or_text j (new_int n) ≡ some n
  unfolding byte_or_text
  byte_or_text-new_int n h =
      let e : n % 256 ≡ n = omega arith in
      rw (j.get_type-new_int n, j.get_int-new_int n (omega arith), e) refl

  pub int_or_hex-new_int : (old n : ℕ) → n < 2 ^ 32 → int_or_hex j old (new_int n) ≡ some n
  unfolding int_or_hex
  int_or_hex-new_int old n h = rw (j.get_type-new_int n, j.get_int-new_int n h) refl

  pub json_parse_short_event_descriptor-convert :
      (d : ShortEventDesc) (s : InfoSection)
      → ShortFits d
      → json_parse_short_event_descriptor j (convert_short_desc_xml_to_json j d) s
        ≡ some (record s { short_event_desc = d })
  unfolding json_parse_short_event_descriptor convert_short_desc_xml_to_json short_event_member
      same_text
  json_parse_short_event_descriptor-convert d s (n, t, l) =
      rw
        (
          j.members-new_object
              ((codes "event_lang", new_string d.event_lang)
                ∷ (codes "event_name", new_string d.event_name)
                ∷ (codes "event_text", new_string d.event_text)
                ∷ [])
              refl,
          text_of-new_string 3 d.event_lang l,
          text_of-new_string 64 d.event_name n,
          text_of-new_string 128 d.event_text t,
        )
        refl

  pub json_parse_parental_rating_descriptor-convert :
      (d : ParentalRatingDesc) (s : InfoSection)
      → length d.country_code ≤ 3
      → d.age < 256
      → json_parse_parental_rating_descriptor j (convert_parental_rating_xml_to_json j d) s
        ≡ some (record s { parent_rating_desc = if d.age == 0 then s.parent_rating_desc else d })
  unfolding json_parse_parental_rating_descriptor convert_parental_rating_xml_to_json rating_member
      same_text
  json_parse_parental_rating_descriptor-convert d s l n = elim (Bool-cases (d.age == 0)) [
    | inl e ↦ rw (e, j.members-new_object [] refl) refl
    | inr e ↦
        rw
          (
            e,
            j.members-new_object
                ((codes "age", new_int d.age)
                  ∷ (codes "country_code", new_string d.country_code)
                  ∷ [])
                refl,
            byte_of-new_int d.age n,
            text_of-new_string 3 d.country_code l,
          )
          refl
  ]

  pub content_element-convert :
      (c : ContentDesc)
      → ContentFits c
      → content_element j 0 (convert_content j c) [] ≡ some (record c { user = 0 } ∷ [])
  unfolding content_element convert_content content_member same_text
  content_element-convert c (a, b) =
      let ms : List (Bytes × Value) =
        (codes "content_nibble_level_1", new_int c.level_1)
        ∷ (codes "content_nibble_level_2", new_int c.level_2)
        ∷ [] in
      rw
        (
          j.get_type-new_object ms,
          j.members-new_object ms refl,
          int_or_hex-new_int 0 c.level_1 a,
          int_or_hex-new_int 0 c.level_2 b,
        )
        refl

  pub component_element-convert :
      (i : ℕ) (c : ComponentDesc) (s : InfoSection)
      → ComponentOk c
      → component_element j i (convert_component j c) s ≡ some (set_component i c s)
  unfolding component_element convert_component component_member same_text
  component_element-convert i c s (a, b, t, x, l) =
      let ms : List (Bytes × Value) =
        (codes "stream_content", new_int c.stream_content)
        ∷ (codes "component_type", new_int c.component_type)
        ∷ (codes "set_component_tag", new_int c.set_component_tag)
        ∷ (codes "lang", new_string c.lang)
        ∷ (codes "text", new_string c.text)
        ∷ [] in
      rw
        (
          j.get_type-new_object ms,
          j.members-new_object ms refl,
          byte_or_text-new_int c.stream_content a,
          byte_or_text-new_int c.component_type b,
          byte_of-new_int c.set_component_tag t,
          text_of-new_string 3 c.lang l,
          text_of-new_string 64 c.text x,
        )
        refl

  pub each_component :
      (n i : ℕ) (cs : List ComponentDesc) (s : InfoSection)
      → length cs ≤ n
      → All ComponentOk cs
      → each_element j (component_element j) n i (convert_components j cs) s
        ≡ some (set_components i (tagged cs) s)
  unfolding convert_components
  each_component zero i [] s h ok = refl
  each_component (suc n) i [] s h ok = refl
  each_component zero i (c ∷ cs) s h ok = absurd (omega arith)
  each_component (suc n) i (c ∷ cs) s h ok = elim (Bool-cases (c.set_component_tag == 0)) [
    | inl e ↦ rw e (each_component (suc n) i cs s (omega arith) ok.1)
    | inr e ↦
        rw (e, component_element-convert i c s ok.0)
          (each_component n (i + 1) cs (set_component i c s) (omega arith) ok.1)
  ]

  pub json_parse_component_descriptor-convert :
      (s t : InfoSection)
      → All ComponentOk (s.stereo ∷ s.audio ∷ s.subtitle ∷ [])
      → json_parse_component_descriptor j (convert_component_desc_xml_to_json j s) t
        ≡ some (set_components 0 (tagged (s.stereo ∷ s.audio ∷ s.subtitle ∷ [])) t)
  unfolding json_parse_component_descriptor convert_component_desc_xml_to_json
  json_parse_component_descriptor-convert s t ok =
      rw (j.elements-new_array (convert_components j (s.stereo ∷ s.audio ∷ s.subtitle ∷ [])))
        (each_component 3 0 (s.stereo ∷ s.audio ∷ s.subtitle ∷ []) t (omega arith) ok)

  pub json_parse_content_descriptor-convert :
      (s t : InfoSection)
      → t.content_desc ≡ []
      → ContentFits (entry_at blank_content 0 s.content_desc)
      → json_parse_content_descriptor j (convert_content_desc_xml_to_json j s) t
        ≡ some (record t {
          content_desc =
              let c = entry_at blank_content 0 s.content_desc in
              if c.level_1 == 0 then [] else record c { user = 0 } ∷ [];
        })
  unfolding json_parse_content_descriptor convert_content_desc_xml_to_json
  json_parse_content_descriptor-convert s t none_yet ok =
      let c : ContentDesc = entry_at blank_content 0 s.content_desc in
      elim (Bool-cases (c.level_1 == 0)) [
        | inl e ↦ rw (e, j.elements-new_array [], none_yet) refl
        | inr e ↦
            rw
              (
                e,
                j.elements-new_array (convert_content j c ∷ []),
                none_yet,
                content_element-convert c ok,
              )
              refl
      ]
