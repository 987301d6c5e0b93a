-- ===== src/Json/Parsing.antt =====
-- json_parsing.c, `json_parse`: a section is filled from the members of an object. Memory is taken to be
-- given.
use multicat_supervisor.Base.{
  ℕ, ◌^◌, Option, none, some, List, [], if◌then◌else◌, Bytes, codes, same_text,
}
use multicat_supervisor.Eit.{
  InfoSection, ShortEventDesc, ExtEventDesc, ComponentDesc, ContentDesc, ParentalRatingDesc,
}
use multicat_supervisor.Eit.Numbers.{atoi}
use multicat_supervisor.Json.{int, object, array, string, JsonC}
use multicat_supervisor.Json.Reading.{
  ◌>>=◌, entry_at, put_at, blank_content, blank_section, component, set_component, is_number,
  each_member, each_element, only, text_of, byte_of, byte_or_text, int_or_hex,
}

module _ (j : JsonC) where
  open j use {Value, get_type, elements, members, get_string, get_int, get_int64}

  unfoldable pub component_member : Bytes → Value → ComponentDesc → Option ComponentDesc
  component_member key v c =
      if same_text key (codes "stream_content")
      then byte_or_text j v >>= (λ n. some (record c { stream_content = n }))
      else if same_text key (codes "component_type")
      then byte_or_text j v >>= (λ n. some (record c { component_type = n }))
      else if same_text key (codes "set_component_tag")
      then byte_of j v >>= (λ n. some (record c { set_component_tag = n }))
      else if same_text key (codes "text")
      then text_of j 64 v >>= (λ t. some (record c { text = t }))
      else if same_text key (codes "lang")
      then text_of j 3 v >>= (λ t. some (record c { lang = t }))
      else some c

  unfoldable pub component_element : ℕ → Value → InfoSection → Option InfoSection
  component_element i v s = do
    o ← only j object v
    c ← each_member j component_member (members o) (component i s)
    some (set_component i c s)

  unfoldable pub json_parse_component_descriptor : Value → InfoSection → Option InfoSection
  json_parse_component_descriptor v = each_element j component_element 3 0 (elements v)

  unfoldable pub content_member : Bytes → Value → ContentDesc → Option ContentDesc
  content_member key v c =
      if same_text key (codes "content_nibble_level_1")
      then int_or_hex j c.level_1 v >>= (λ n. some (record c { level_1 = n }))
      else if same_text key (codes "content_nibble_level_2")
      then int_or_hex j c.level_2 v >>= (λ n. some (record c { level_2 = n }))
      else if same_text key (codes "user")
      then int_or_hex j c.user v >>= (λ n. some (record c { user = n }))
      else some c

  unfoldable pub content_element : ℕ → Value → List ContentDesc → Option (List ContentDesc)
  content_element i v cs = do
    o ← only j object v
    c ← each_member j content_member (members o) (entry_at blank_content i cs)
    some (put_at blank_content i c cs)

  unfoldable pub json_parse_content_descriptor : Value → InfoSection → Option InfoSection
  json_parse_content_descriptor v s = do
    cs ← each_element j content_element 10 0 (elements v) s.content_desc
    some (record s { content_desc = cs })

  unfoldable pub system_element : ℕ → Value → List ℕ → Option (List ℕ)
  system_element i v xs = int_or_hex j (entry_at 0 i xs) v >>= λ n. some (put_at 0 i n xs)

  unfoldable pub json_parse_ca_identifier_descriptor : Value → InfoSection → Option InfoSection
  json_parse_ca_identifier_descriptor v s = do
    xs ← each_element j system_element 10 0 (elements v) s.ca_identifier_desc
    some (record s { ca_identifier_desc = xs })

  unfoldable pub item_member : Bytes → Value → Bytes × Bytes → Option (Bytes × Bytes)
  item_member key v (text, desc) =
      if same_text key (codes "text")
      then text_of j 32 v >>= (λ t. some (t, desc))
      else if same_text key (codes "desc")
      then text_of j 128 v >>= (λ t. some (text, t))
      else some (text, desc)

  unfoldable pub item_element : ℕ → Value → List (Bytes × Bytes) → Option (List (Bytes × Bytes))
  item_element i v xs = do
    o ← only j object v
    x ← each_member j item_member (members o) (entry_at ([], []) i xs)
    some (put_at ([], []) i x xs)

  -- `json_parse_short_event_descriptor_items`
  unfoldable pub json_parse_items : Value → List (Bytes × Bytes) → Option (List (Bytes × Bytes))
  json_parse_items v = each_element j item_element 3 0 (elements v)

  unfoldable pub short_event_member : Bytes → Value → ShortEventDesc → Option ShortEventDesc
  short_event_member key v d =
      if same_text key (codes "event_name")
      then text_of j 64 v >>= (λ t. some (record d { event_name = t }))
      else if same_text key (codes "event_text")
      then text_of j 128 v >>= (λ t. some (record d { event_text = t }))
      else if same_text key (codes "event_lang")
      then text_of j 3 v >>= (λ t. some (record d { event_lang = t }))
      else some d

  unfoldable pub extended_member : Bytes → Value → ExtEventDesc → Option ExtEventDesc
  extended_member key v d =
      if same_text key (codes "text")
      then text_of j 128 v >>= (λ t. some (record d { text = t }))
      else if same_text key (codes "lang")
      then text_of j 3 v >>= (λ t. some (record d { lang = t }))
      else if same_text key (codes "items")
      then (do a ← only j array v; xs ← json_parse_items a d.items; some (record d { items = xs }))
      else some d

  unfoldable pub rating_member : Bytes → Value → ParentalRatingDesc → Option ParentalRatingDesc
  rating_member key v d =
      if same_text key (codes "country_code")
      then text_of j 3 v >>= (λ t. some (record d { country_code = t }))
      else if same_text key (codes "age")
      then byte_of j v >>= (λ n. some (record d { age = n }))
      else some d

  -- The rate is a text of digits.
  unfoldable pub rate_member : Bytes → Value → ℕ → Option ℕ
  rate_member key v rate =
      if same_text key (codes "sb_leak_rate")
      then (only j string v >>= λ w.
          if is_number (get_string w) then some (atoi (2 ^ 32) (get_string w)) else none)
      else some rate

  unfoldable pub json_parse_short_event_descriptor : Value → InfoSection → Option InfoSection
  json_parse_short_event_descriptor v s = do
    d ← each_member j short_event_member (members v) s.short_event_desc
    some (record s { short_event_desc = d })

  unfoldable pub json_parse_extended_event_descriptor : Value → InfoSection → Option InfoSection
  json_parse_extended_event_descriptor v s = do
    d ← each_member j extended_member (members v) s.ext_event_desc
    some (record s { ext_event_desc = d })

  unfoldable pub json_parse_parental_rating_descriptor : Value → InfoSection → Option InfoSection
  json_parse_parental_rating_descriptor v s = do
    d ← each_member j rating_member (members v) s.parent_rating_desc
    some (record s { parent_rating_desc = d })

  unfoldable pub json_parse_short_smoothing_buffer_descriptor :
      Value → InfoSection → Option InfoSection
  json_parse_short_smoothing_buffer_descriptor v s = do
    rate ← each_member j rate_member (members v) s.sb_leak_rate
    some (record s { sb_leak_rate = rate })

  -- One turn of the loop of `json_parse`
  unfoldable pub section_member : Bytes → Value → InfoSection → Option InfoSection
  section_member key v s =
      if same_text key (codes "SHORT_EVENT_DESCRIPTOR")
      then only j object v >>= (λ o. json_parse_short_event_descriptor o s)
      else if same_text key (codes "EXTENDED_EVENT_DESCRIPTOR")
      then only j object v >>= (λ o. json_parse_extended_event_descriptor o s)
      else if same_text key (codes "COMPONENT_DESCRIPTOR")
      then only j array v >>= (λ a. json_parse_component_descriptor a s)
      else if same_text key (codes "PARENTAL_RATING_DESCRIPTOR")
      then only j object v >>= (λ o. json_parse_parental_rating_descriptor o s)
      else if same_text key (codes "CONTENT_DESCRIPTOR")
      then only j array v >>= (λ a. json_parse_content_descriptor a s)
      else if same_text key (codes "CA_IDENTIFIER_DESCRIPTOR")
      then only j array v >>= (λ a. json_parse_ca_identifier_descriptor a s)
      else if same_text key (codes "SHORT_SMOOTHING_BUFFER_DESCRIPTOR")
      then only j object v >>= (λ o. json_parse_short_smoothing_buffer_descriptor o s)
      else if same_text key (codes "starttime")
      then only j int v >>= (λ n. some (record s { starttime = get_int64 n }))
      else if same_text key (codes "duration")
      then only j int v >>= (λ n. some (record s { duration = get_int n }))
      else some s

  unfoldable pub json_parse : Value → Option InfoSection
  json_parse v = do o ← only j object v; each_member j section_member (members o) blank_section
