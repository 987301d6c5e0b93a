-- ===== src/EitXml/Ready.antt =====
-- eit_xml.c: what the sections hold that are taken from a document.
use multicat_supervisor.Base.{
  ℕ, ◌≤◌, ◌≡◌, ◌≢◌, refl, Bool-cases, ◌||◌, Option, none, some, Option-cases, inl, inr, List, [],
  ◌∷◌, arith, ◌==◌, length, All, codes,
}
use multicat_supervisor.Io.{ok}
use multicat_supervisor.Eit.{InfoSection}
use multicat_supervisor.Eit.Loading.{blank_component, component_at}
use multicat_supervisor.Eit.Fields.{ComponentFits, component_at-Fits}
use multicat_supervisor.EitXml.{
  Node, Document, event_path, events_path, number_attribute, event_ids, build_program_number,
  build_sections_event_id,
}
use multicat_supervisor.EitXml.Events.{event_ids-next_all}
use multicat_supervisor.EitXml.Sections.{
  component_attribute, content_attribute, rating_attribute, short_attribute, time_attribute,
  build_component_desc_xml, build_content_desc_xml, build_parental_rating_xml,
  build_short_event_xml, with_times, build_starttime_duration_xml, build_eit_section_xml, Extracted,
  convert_xml_to_eit_struct,
}
use multicat_supervisor.EitXml.Returns.{
  AttributeFits, DocumentFits, Returns, MaybeAll, each_attribute-Returns, each_node-Returns,
  first_node-Returns, nodes-cases, or_fail-Returns,
}
use multicat_supervisor.EitXml.Attributes.{
  component_attribute-Fits, content_attribute-any, rating_attribute-Fits, ShortOk,
  short_attribute-Fits, time_attribute-any,
}

-- A section taken from a document, out of one that was there before: its times are set, the texts of
-- its short event and its rating are within their fields, but for the language and the country, which
-- may take the byte of the NUL, and so are its contents and components; the extended event, the
-- systems and the leak rate are those that were there before.
pub record IsReady (old s : InfoSection) : Type 0 where
  pub start : s.starttime ≢ 0
  pub duration : s.duration ≢ 0
  pub event_name : length s.short_event_desc.event_name ≤ 64
  pub event_text : length s.short_event_desc.event_text ≤ 128
  pub event_lang : length s.short_event_desc.event_lang ≤ 4
  pub country : length s.parent_rating_desc.country_code ≤ 4
  pub most_contents : length s.content_desc ≤ 3
  pub components : All ComponentFits (s.stereo ∷ s.audio ∷ s.subtitle ∷ [])
  pub same_extended : s.ext_event_desc ≡ old.ext_event_desc
  pub same_systems : s.ca_identifier_desc ≡ old.ca_identifier_desc
  pub same_rate : s.sb_leak_rate ≡ old.sb_leak_rate

-- The times are set, and nothing else is.
abbrev HasTimes : InfoSection → InfoSection → Type 0
HasTimes old s =
    (s.starttime ≢ 0)
    × (s.duration ≢ 0)
    × (s.ext_event_desc ≡ old.ext_event_desc)
    × (s.ca_identifier_desc ≡ old.ca_identifier_desc)
    × (s.sb_leak_rate ≡ old.sb_leak_rate)

with_times-HasTimes :
    (s : InfoSection) (start duration : ℕ) → MaybeAll (HasTimes s) (with_times s (start, duration))
with_times-HasTimes s start duration = elim (Bool-cases (start == 0 || duration == 0)) [
  | inl e ↦ rw e tt
  | inr e ↦ rw e (ground arith, ground arith, refl, refl, refl)
]

module _ (doc : Document) (fits : DocumentFits doc) (program event : ℕ) where
  build_starttime_duration_xml-Returns :
      (s : InfoSection)
      → Returns (MaybeAll (HasTimes s)) (build_starttime_duration_xml doc program event s)
  unfolding build_starttime_duration_xml
  build_starttime_duration_xml-Returns s = elim (nodes-cases (doc (event_path program event []))) [
    | inl e ↦ rw (e, build_starttime_duration_xml) (none, refl, tt)
    | inr (x, xs, e) ↦
        let all : All (λ node. All AttributeFits node) (x ∷ xs) =
          rw e at (fits (event_path program event [])) in
        let ((start, duration), at, _) =
          each_attribute-Returns (λ _. Unit {0}) time_attribute time_attribute-any x all.0 (0, 0)
            tt in
        rw (e, build_starttime_duration_xml, at)
          (with_times s (start, duration), refl, with_times-HasTimes s start duration)
  ]

  build_eit_section_xml-Returns :
      (s : InfoSection) → Returns (MaybeAll (IsReady s)) (build_eit_section_xml doc program event s)
  unfolding build_eit_section_xml build_short_event_xml build_parental_rating_xml
      build_content_desc_xml build_component_desc_xml
  build_eit_section_xml-Returns s =
      let (timed, e, h) = build_starttime_duration_xml-Returns s in
      let (short, e1, sf) =
        first_node-Returns ShortOk (record { event_name = []; event_text = []; event_lang = [] })
          short_attribute short_attribute-Fits (omega arith)
          (doc (event_path program event (codes "/DESC/SHORT_EVENT_DESC")))
          (fits (event_path program event (codes "/DESC/SHORT_EVENT_DESC"))) in
      let (rating, e2, rf) =
        first_node-Returns (λ d. length d.country_code ≤ 4) (record { country_code = []; age = 0 })
          rating_attribute rating_attribute-Fits (omega arith)
          (doc (event_path program event (codes "/DESC/PARENTAL_RATING_DESC")))
          (fits (event_path program event (codes "/DESC/PARENTAL_RATING_DESC"))) in
      let (contents, e3, (cl, cf)) =
        each_node-Returns (λ _. Unit {0}) (record { level_1 = 0; level_2 = 0; user = 0 })
          content_attribute content_attribute-any tt 3
          (doc (event_path program event (codes "/DESC/CONTENT_DESC")))
          (fits (event_path program event (codes "/DESC/CONTENT_DESC"))) in
      let (parts, e4, (pl, pf)) =
        each_node-Returns ComponentFits blank_component component_attribute component_attribute-Fits
          (omega arith) 3 (doc (event_path program event (codes "/DESC/COMPONENT_DESC")))
          (fits (event_path program event (codes "/DESC/COMPONENT_DESC"))) in
      elim (Option-cases timed) [
        | inl n ↦ (none, rw (e, n) refl, tt)
        | inr (t, n) ↦
            let times : HasTimes s t = rw n at h in
            (
              some (record t {
                short_event_desc = short;
                parent_rating_desc = rating;
                content_desc = contents;
                stereo = component_at 0 parts;
                audio = component_at 1 parts;
                subtitle = component_at 2 parts;
              }),
              rw (e, n, e1, e2, e3, e4) refl,
              record {
                start = times.0;
                duration = times.1;
                same_extended = times.2;
                same_systems = times.3;
                same_rate = times.4;
                event_name = sf.0;
                event_text = sf.1;
                event_lang = sf.2;
                country = rf;
                most_contents = cl;
                components = (
                  component_at-Fits 0 parts pf,
                  (component_at-Fits 1 parts pf, (component_at-Fits 2 parts pf, tt)),
                );
              },
            )
      ]

build_program_number-Returns :
    (doc : Document) → DocumentFits doc → Returns (MaybeAll (λ n. n ≢ 0)) (build_program_number doc)
unfolding build_program_number
build_program_number-Returns doc fits = elim (nodes-cases (doc (codes "/TS/PAT/PROGRAM"))) [
  | inl e ↦ rw (e, build_program_number) (none, refl, tt)
  | inr (x, xs, e) ↦
      let all : All (λ node. All AttributeFits node) (x ∷ xs) =
        rw e at (fits (codes "/TS/PAT/PROGRAM")) in
      let (n, at, _) =
        each_attribute-Returns (λ _. Unit {0}) (number_attribute (codes "number"))
          (λ name keyword k fit h. (_, refl, tt)) x all.0 0 tt in
      rw (e, build_program_number, at)
        (_, refl, elim (Bool-cases (n == 0)) [ inl z ↦ rw z tt | inr z ↦ rw z (ground arith) ])
]

event_ids-Returns :
    (nodes : List Node) (ids : ℕ × ℕ) → Returns (λ _. Unit {0}) (event_ids nodes ids)
event_ids-Returns nodes ids = (_, event_ids-next_all nodes ids, tt)

build_sections_event_id-Returns :
    (doc : Document) (program : ℕ)
    → Returns
        (MaybeAll (λ (ids : ℕ × ℕ). (ids.0 ≢ 0) × (ids.1 ≢ 0)))
        (build_sections_event_id doc program)
unfolding build_sections_event_id
build_sections_event_id-Returns doc program = elim (nodes-cases (doc (events_path program))) [
  | inl e ↦ rw (e, build_sections_event_id) (none, refl, tt)
  | inr (x, xs, e) ↦
      let ((a, b), at, _) = event_ids-Returns (x ∷ xs) (0, 0) in
      rw (e, build_sections_event_id, at)
        (
          _,
          refl,
          elim (Bool-cases (a == 0 || b == 0)) [
            | inl z ↦ rw z tt
            | inr z ↦ rw z (ground arith, ground arith)
          ],
        )
]

-- Both events are there.
pub record IsExtracted (s0 s1 : InfoSection) (e : Extracted) : Type 0 where
  pub program_number : e.program_number ≢ 0
  pub event_id0 : e.event_id0 ≢ 0
  pub event_id1 : e.event_id1 ≢ 0
  pub section0 : IsReady s0 e.section0
  pub section1 : IsReady s1 e.section1

-- On a document in which no event_name is longer than 64 bytes and no text than 128,
-- convert_xml_to_eit_struct comes to its end, and if it gives two sections, the program and both
-- ids are not 0, both have a start and a length, and the texts of their short event, their
-- rating, their contents and their components are within their fields, but for the language and
-- the country, which may take the byte of the NUL; their extended event, systems and leak rate
-- are those of the sections that were given.
pub convert_xml_to_eit_struct-IsExtracted :
    (doc : Document) (s0 s1 : InfoSection)
    → DocumentFits doc
    → (o : Option Extracted) × (convert_xml_to_eit_struct doc s0 s1 ≡ ok o)
      × MaybeAll (IsExtracted s0 s1) o
unfolding convert_xml_to_eit_struct
convert_xml_to_eit_struct-IsExtracted doc s0 s1 fits =
    or_fail-Returns (λ n. n ≢ 0) (IsExtracted s0 s1) _ _ (build_program_number-Returns doc fits)
      (λ number hn.
        or_fail-Returns (λ (ids : ℕ × ℕ). (ids.0 ≢ 0) × (ids.1 ≢ 0)) (IsExtracted s0 s1) _ _
          (build_sections_event_id-Returns doc number)
          (λ ids hi.
            or_fail-Returns (IsReady s0) (IsExtracted s0 s1) _ _
              (build_eit_section_xml-Returns doc fits number ids.0 s0)
              (λ present h0.
                or_fail-Returns (IsReady s1) (IsExtracted s0 s1) _ _
                  (build_eit_section_xml-Returns doc fits number ids.1 s1)
                  (λ following h1. (
                    _,
                    refl,
                    record {
                      program_number = hn;
                      event_id0 = hi.0;
                      event_id1 = hi.1;
                      section0 = h0;
                      section1 = h1;
                    },
                  )))))
