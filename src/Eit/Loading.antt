-- ===== src/Eit/Loading.antt =====
-- util.c, `load_eit`: the tables of events out of the configuration file.
use multicat_supervisor.Base.{
  ℕ, zero, suc, ◌+◌, Option, none, some, List, [], ◌∷◌, ◌++◌, take, Bytes, codes,
}
use multicat_supervisor.Io.{Outcome, ok, undefined, ◌>>=◌}
use multicat_supervisor.AuxFile.{decimal}
use multicat_supervisor.Ini.{Ini}
use multicat_supervisor.Ini.Lookup.{rechercher_valeur}
use multicat_supervisor.Eit.{
  Info, InfoSection, ShortEventDesc, ExtEventDesc, ComponentDesc, ContentDesc, ParentalRatingDesc,
}
use multicat_supervisor.Eit.Numbers.{atoi, convert_str}

abbrev pub blank_component : ComponentDesc
blank_component = record {
  stream_content = 0;
  component_type = 0;
  set_component_tag = 0;
  text = [];
  lang = [];
}

-- The component at a place of those that were read; `memset` has cleared the others.
abbrev pub component_at : ℕ → List ComponentDesc → ComponentDesc
component_at n [] = blank_component
component_at zero (c ∷ cs) = c
component_at (suc n) (c ∷ cs) = component_at n cs

-- A name with a number behind it, as `sprintf` writes it.
abbrev pub numbered : Bytes → ℕ → Bytes
numbered prefix n = prefix ++ (b'_' ∷ decimal n)

-- A loop that ends at the first number where nothing is found.
unfoldable pub load_while {ℓ} : {A : Type ℓ} → (ℕ → Outcome (Option A)) → ℕ → ℕ → Outcome (List A)
load_while f zero i = ok []
load_while f (suc n) i = do
  found ← f i
  elim found [ none ↦ ok [] | some a ↦ load_while f n (i + 1) >>= λ rest. ok (a ∷ rest) ]

-- `getValueFromIni` gives an empty text for a missing one, and the loops end at an empty text.
abbrev pub not_empty : Option Bytes → Option Bytes
not_empty none = none
not_empty (some []) = none
not_empty (some (b ∷ bs)) = some (b ∷ bs)

abbrev pub item_of : Option Bytes → Option Bytes → Option (Bytes × Bytes)
item_of (some text) (some desc) = some (take 32 text, take 128 desc)
item_of (some text) none = none
item_of none desc = none

abbrev pub component_of :
    Option Bytes → Option Bytes → Option Bytes → Option Bytes → Option Bytes → Option ComponentDesc
component_of (some content) (some type) (some tag) (some text) (some lang) = some (record {
  stream_content = convert_str 256 (some content);
  component_type = convert_str 256 (some type);
  set_component_tag = atoi 256 tag;
  text = take 64 text;
  lang = take 3 lang;
})
component_of _ _ _ _ _ = none

abbrev pub content_desc_of : Option Bytes → Option Bytes → Option Bytes → Option ContentDesc
content_desc_of (some level1) (some level2) (some user) = some (record {
  level_1 = convert_str 256 (some level1);
  level_2 = convert_str 256 (some level2);
  user = convert_str 256 (some user);
})
content_desc_of _ _ _ = none

abbrev pub system_of : Option Bytes → Option ℕ
system_of none = none
system_of (some text) = some (convert_str 256 (some text))

-- A section out of what was read.
abbrev pub section_with :
    ShortEventDesc
    → ExtEventDesc
    → List ComponentDesc
    → ParentalRatingDesc
    → List ContentDesc
    → List ℕ
    → ℕ
    → InfoSection
section_with event extended components rating contents systems rate = record {
  starttime = 0;
  duration = 0;
  short_event_desc = event;
  ext_event_desc = extended;
  stereo = component_at 0 components;
  audio = component_at 1 components;
  subtitle = component_at 2 components;
  parent_rating_desc = rating;
  content_desc = contents;
  ca_identifier_desc = systems;
  sb_leak_rate = rate;
}

-- `find` is `rechercherValeur` with a section and a key.
module _ (find : Bytes → Bytes → Outcome (Option Bytes)) where
  -- `strncpy` into a cleared field of that length, and `atoi`: a null pointer is undefined.
  unfoldable pub copied : ℕ → Bytes → Bytes → Outcome Bytes
  copied length section key = do
    v ← find section key
    elim v [ none ↦ undefined | some text ↦ ok (take length text) ]

  unfoldable pub number : Bytes → Bytes → Outcome ℕ
  number section key = do
    v ← find section key
    elim v [ none ↦ undefined | some text ↦ ok (atoi 256 text) ]

  unfoldable pub load_item : ℕ → Outcome (Option (Bytes × Bytes))
  load_item i = do
    text ← find (codes "EXTENDED_EVENT_DESCRIPTOR") (numbered (codes "text") i)
    desc ← find (codes "EXTENDED_EVENT_DESCRIPTOR") (numbered (codes "desc") i)
    ok (item_of text desc)

  unfoldable pub load_component : ℕ → Outcome (Option ComponentDesc)
  load_component i = do
    content ← find (codes "COMPONENT_DESCRIPTOR") (numbered (codes "stream_content") (i + 1))
    type ← find (codes "COMPONENT_DESCRIPTOR") (numbered (codes "component_type") (i + 1))
    tag ← find (codes "COMPONENT_DESCRIPTOR") (numbered (codes "set_component_tag") (i + 1))
    text ← find (codes "COMPONENT_DESCRIPTOR") (numbered (codes "text") (i + 1))
    lang ← find (codes "COMPONENT_DESCRIPTOR") (numbered (codes "lang") (i + 1))
    ok (
        component_of (not_empty content) (not_empty type) (not_empty tag) (not_empty text)
          (not_empty lang))

  unfoldable pub load_content : ℕ → Outcome (Option ContentDesc)
  load_content i = do
    level1 ← find (codes "CONTENT_DESCRIPTOR") (numbered (codes "level_1") (i + 1))
    level2 ← find (codes "CONTENT_DESCRIPTOR") (numbered (codes "level_2") (i + 1))
    user ← find (codes "CONTENT_DESCRIPTOR") (numbered (codes "user") (i + 1))
    ok (content_desc_of (not_empty level1) (not_empty level2) (not_empty user))

  unfoldable pub load_system : ℕ → Outcome (Option ℕ)
  load_system i = do
    text ← find (codes "CA_IDENTIFIER_DESCRIPTOR") (numbered (codes "CA_system_id") (i + 1))
    ok (system_of (not_empty text))

  unfoldable pub load_short_event : Bytes → Outcome ShortEventDesc
  load_short_event section = do
    name ← copied 64 section (codes "event_name")
    text ← copied 128 section (codes "event_text")
    lang ← copied 3 section (codes "event_lang")
    ok (record { event_name = name; event_text = text; event_lang = lang })

  unfoldable pub load_rating : Outcome ParentalRatingDesc
  load_rating = do
    country ← copied 3 (codes "PARENTAL_RATING_DESCRIPTOR") (codes "country_code")
    age ← number (codes "PARENTAL_RATING_DESCRIPTOR") (codes "age")
    ok (record { country_code = country; age = age })

  -- `load_eit`; the systems are those of the first section only.
  unfoldable pub load_with : Outcome Info
  load_with = do
    tsid ← find (codes "EIT_MAIN_DESCRIPTOR") (codes "tsid")
    sid ← find (codes "EIT_MAIN_DESCRIPTOR") (codes "sid")
    onid ← find (codes "EIT_MAIN_DESCRIPTOR") (codes "onid")
    present ← load_short_event (codes "SHORT_EVENT_DESCRIPTOR")
    following ← load_short_event (codes "SHORT_EVENT_FOLLOWING_DESCRIPTOR")
    text ← copied 128 (codes "EXTENDED_EVENT_DESCRIPTOR") (codes "text")
    lang ← copied 3 (codes "EXTENDED_EVENT_DESCRIPTOR") (codes "lang")
    items ← load_while load_item 3 0
    components ← load_while load_component 3 0
    contents ← load_while load_content 10 0
    systems ← load_while load_system 10 0
    rate ← find (codes "SHORT_SMOOTHING_BUFFER_DESCRIPTOR") (codes "sb_leak_rate")
    rating ← load_rating
    let extended : ExtEventDesc = record { text = text; lang = lang; items = items }
    let leak : ℕ = convert_str 256 rate
    ok (record {
      tsid = convert_str 65536 tsid;
      sid = convert_str 65536 sid;
      onid = convert_str 65536 onid;
      section0 = section_with present extended components rating contents systems leak;
      section1 = section_with following extended components rating contents [] leak;
    })

-- `load_eit` on the loaded configuration
unfoldable pub load_eit : Option Ini → Outcome Info
load_eit ini = load_with (λ section key. rechercher_valeur ini (some section) key)
