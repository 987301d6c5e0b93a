-- ===== src/EitXml/Sections.antt =====
-- eit_xml.c: a section of the table out of the nodes of its event. `none` is -1 or -3.
use multicat_supervisor.Base.{
  ℕ, zero, suc, ◌+◌, ◌*◌, ◌^◌, leb, ◌||◌, Option, none, some, List, [], ◌∷◌, ◌++◌, ltb, ◌==◌,
  if◌then◌else◌, length, take, Bytes, codes, same_text,
}
use multicat_supervisor.Io.{Outcome, ok, undefined, ◌>>=◌}
use multicat_supervisor.Latin9.{utf8_to_latin9}
use multicat_supervisor.Eit.{
  InfoSection, ShortEventDesc, ComponentDesc, ContentDesc, ParentalRatingDesc,
}
use multicat_supervisor.Eit.Numbers.{atoi, convert_str}
use multicat_supervisor.Eit.Loading.{blank_component, component_at}
use multicat_supervisor.EitXml.{
  Node, Document, each_attribute, event_path, widen, build_program_number, build_sections_event_id,
}

unfoldable pub component_attribute : Bytes → Bytes → ComponentDesc → Outcome ComponentDesc
component_attribute name keyword c = ok (
    if same_text name (codes "stream_content")
    then record c { stream_content = convert_str 256 (some keyword) }
    else if same_text name (codes "component_type")
    then record c { component_type = convert_str 256 (some keyword) }
    else if same_text name (codes "component_tag")
    then record c { set_component_tag = atoi 256 keyword }
    else if same_text name (codes "language")
    then record c { lang = take 3 keyword }
    else if same_text name (codes "text")
    then record c { text = take 64 keyword }
    else c)

unfoldable pub content_attribute : Bytes → Bytes → ContentDesc → Outcome ContentDesc
content_attribute name keyword c = ok (
    if same_text name (codes "content_l1")
    then record c { level_1 = atoi (2 ^ 32) keyword }
    else if same_text name (codes "content_l2")
    then record c { level_2 = atoi (2 ^ 32) keyword }
    else c)

-- One byte more than the text is copied, and then there is no NUL behind it.
unfoldable pub rating_attribute : Bytes → Bytes → ParentalRatingDesc → Outcome ParentalRatingDesc
rating_attribute name keyword d = ok (
    if same_text name (codes "rating")
    then record d { age = atoi 256 keyword }
    else if same_text name (codes "country_code")
    then record d { country_code = take 4 keyword }
    else d)

-- `strncpy` into a field with that much in front of its last byte, and `utf8_to_latin9`, which needs
-- a NUL there.
unfoldable pub latin9_field : ℕ → Bytes → Outcome Bytes
latin9_field size keyword =
    if ltb size (length keyword)
    then undefined
    else (elim (utf8_to_latin9 keyword) [ none ↦ undefined | some text ↦ ok text ])

unfoldable pub short_attribute : Bytes → Bytes → ShortEventDesc → Outcome ShortEventDesc
short_attribute name keyword d =
    if same_text name (codes "lang")
    then ok (record d { event_lang = take 4 keyword })
    else if same_text name (codes "event_name")
    then latin9_field 64 keyword >>= (λ text. ok (record d { event_name = text }))
    else if same_text name (codes "text")
    then latin9_field 128 keyword >>= (λ text. ok (record d { event_text = text }))
    else ok d

-- The start and the length of an event
unfoldable pub time_attribute : Bytes → Bytes → ℕ × ℕ → Outcome (ℕ × ℕ)
time_attribute name keyword (start, duration) = ok (
    if same_text name (codes "start_time")
    then (widen (atoi (2 ^ 32) keyword), duration)
    else if same_text name (codes "duration")
    then (start, atoi (2 ^ 32) keyword)
    else (start, duration))

-- At most so many nodes, each read into an entry that was cleared.
abbrev pub each_node {ℓ} :
    {A : Type ℓ} → ℕ → A → (Bytes → Bytes → A → Outcome A) → List Node → Outcome (List A)
each_node zero blank f nodes = ok []
each_node (suc n) blank f [] = ok []
each_node (suc n) blank f (node ∷ nodes) = do
  a ← each_attribute f node blank
  as' ← each_node n blank f nodes
  ok (a ∷ as')

-- The first node, if there is one.
abbrev pub first_node {ℓ} :
    {A : Type ℓ} → A → (Bytes → Bytes → A → Outcome A) → List Node → Outcome A
first_node blank f [] = ok blank
first_node blank f (node ∷ nodes) = each_attribute f node blank

abbrev pub with_times : InfoSection → ℕ × ℕ → Option InfoSection
with_times s (start, duration) =
    if start == 0 || duration == 0
    then none
    else some (record s { starttime = start; duration = duration })

module _ (doc : Document) (program event : ℕ) where
  unfoldable pub build_component_desc_xml : InfoSection → Outcome InfoSection
  build_component_desc_xml s = do
    cs ←
        each_node 3 blank_component component_attribute
          (doc (event_path program event (codes "/DESC/COMPONENT_DESC")))
    ok (record s {
      stereo = component_at 0 cs;
      audio = component_at 1 cs;
      subtitle = component_at 2 cs;
    })

  -- As many contents as there may be components.
  unfoldable pub build_content_desc_xml : InfoSection → Outcome InfoSection
  build_content_desc_xml s = do
    cs ←
        each_node 3 (record { level_1 = 0; level_2 = 0; user = 0 }) content_attribute
          (doc (event_path program event (codes "/DESC/CONTENT_DESC")))
    ok (record s { content_desc = cs })

  unfoldable pub build_parental_rating_xml : InfoSection → Outcome InfoSection
  build_parental_rating_xml s = do
    d ←
        first_node (record { country_code = []; age = 0 }) rating_attribute
          (doc (event_path program event (codes "/DESC/PARENTAL_RATING_DESC")))
    ok (record s { parent_rating_desc = d })

  unfoldable pub build_short_event_xml : InfoSection → Outcome InfoSection
  build_short_event_xml s = do
    d ←
        first_node (record { event_name = []; event_text = []; event_lang = [] }) short_attribute
          (doc (event_path program event (codes "/DESC/SHORT_EVENT_DESC")))
    ok (record s { short_event_desc = d })

  unfoldable pub build_starttime_duration_xml : InfoSection → Outcome (Option InfoSection)
  build_starttime_duration_xml s = elim (doc (event_path program event [])) [
    | [] ↦ ok none
    | node ∷ nodes ↦ do times ← each_attribute time_attribute node (0, 0); ok (with_times s times)
  ]

  unfoldable pub build_eit_section_xml : InfoSection → Outcome (Option InfoSection)
  build_eit_section_xml s = do
    timed ← build_starttime_duration_xml s
    elim timed [
      | none ↦ ok none
      | some s1 ↦ do
        s2 ← build_short_event_xml s1
        s3 ← build_parental_rating_xml s2
        s4 ← build_content_desc_xml s3
        s5 ← build_component_desc_xml s4
        ok (some s5)
    ]

-- What `convert_xml_to_eit_struct` fills of `EitInfo`
pub record Extracted : Type 0 where
  pub program_number : ℕ
  pub event_id0 : ℕ
  pub event_id1 : ℕ
  pub section0 : InfoSection
  pub section1 : InfoSection

-- `if (0 != ...) return -3;`
abbrev pub or_fail {ℓ κ} :
    {A : Type ℓ} {B : Type κ} → Outcome (Option A) → (A → Outcome (Option B)) → Outcome (Option B)
or_fail r f = r >>= λ o. elim o [ none ↦ ok none | some a ↦ f a ]

-- `convert_xml_to_eit_struct` on the sections that are there before.
unfoldable pub convert_xml_to_eit_struct :
    Document → InfoSection → InfoSection → Outcome (Option Extracted)
convert_xml_to_eit_struct doc s0 s1 = or_fail (build_program_number doc) (λ number.
    or_fail (build_sections_event_id doc number) (λ ids.
      or_fail (build_eit_section_xml doc number ids.0 s0) (λ present.
        or_fail (build_eit_section_xml doc number ids.1 s1) (λ following. ok (
          some (record {
            program_number = number;
            event_id0 = ids.0;
            event_id1 = ids.1;
            section0 = present;
            section1 = following;
          }))))))

-- The buffer of `extract_eti_xml_from_ts`: the bytes that were read, and how many it has room for.
pub record Buffer : Type 0 where
  pub content : Bytes
  pub comalloc : ℕ

-- One turn of the loop on `fread`; more bytes than there is room for are written behind the buffer.
unfoldable pub read_chunk : Bytes → Buffer → Outcome Buffer
read_chunk chunk b =
    let size = length b.content + length chunk in
    let comalloc = if leb b.comalloc size then b.comalloc * 2 else b.comalloc in
    if leb size comalloc
    then ok (record { content = b.content ++ chunk; comalloc = comalloc })
    else undefined

-- The loop on `fread`, with what it gives each time until it gives nothing.
unfoldable pub read_chunks : List Bytes → Buffer → Outcome Bytes
read_chunks [] b = ok b.content
read_chunks (chunk ∷ chunks) b = do b' ← read_chunk chunk b; read_chunks chunks b'

-- `none` is a command that popen cannot start.
unfoldable pub extract_eti_xml_from_ts : Option (List Bytes) → Outcome (Option Bytes)
extract_eti_xml_from_ts none = ok none
extract_eti_xml_from_ts (some chunks) = do
  xml ← read_chunks chunks (record { content = []; comalloc = 256 })
  ok (some xml)

-- `extract_eit_xml_to_eit_struct`; `parse` is what libxml2 makes of the bytes.
unfoldable pub extract_eit_xml_to_eit_struct :
    (Bytes → Document)
    → Option (List Bytes)
    → InfoSection
    → InfoSection
    → Outcome (Option Extracted)
extract_eit_xml_to_eit_struct parse output s0 s1 =
    or_fail (extract_eti_xml_from_ts output) (λ xml. convert_xml_to_eit_struct (parse xml) s0 s1)
