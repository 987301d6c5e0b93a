-- ===== src/Eit/Fields.antt =====
-- eit.h and util.c: the texts of the tables within their fields, and the loops that fill them.
use multicat_supervisor.Base.{
  ℕ, zero, suc, ◌+◌, ◌≤◌, ◌≡◌, refl, Option, none, some, inl, inr, Option-cases, List, [], ◌∷◌,
  arith, length, take, All, Bytes, codes,
}
use multicat_supervisor.Io.{Outcome, ok}
use multicat_supervisor.Eit.{
  InfoSection, ShortEventDesc, ExtEventDesc, ComponentDesc, ContentDesc, ParentalRatingDesc,
}
use multicat_supervisor.Eit.Numbers.{atoi, convert_str}
use multicat_supervisor.Eit.Loading.{section_with, component_at, load_while, item_of, component_of}

-- The entries whose absence is a null pointer that is followed.
abbrev pub required : List (Bytes × Bytes)
required =
    (codes "SHORT_EVENT_DESCRIPTOR", codes "event_name")
    ∷ (codes "SHORT_EVENT_DESCRIPTOR", codes "event_text")
    ∷ (codes "SHORT_EVENT_DESCRIPTOR", codes "event_lang")
    ∷ (codes "SHORT_EVENT_FOLLOWING_DESCRIPTOR", codes "event_name")
    ∷ (codes "SHORT_EVENT_FOLLOWING_DESCRIPTOR", codes "event_text")
    ∷ (codes "SHORT_EVENT_FOLLOWING_DESCRIPTOR", codes "event_lang")
    ∷ (codes "EXTENDED_EVENT_DESCRIPTOR", codes "text")
    ∷ (codes "EXTENDED_EVENT_DESCRIPTOR", codes "lang")
    ∷ (codes "PARENTAL_RATING_DESCRIPTOR", codes "country_code")
    ∷ (codes "PARENTAL_RATING_DESCRIPTOR", codes "age")
    ∷ []

-- Every text is within its field, in front of the NUL.
abbrev pub ShortFits : ShortEventDesc → Type 0
ShortFits d = (length d.event_name ≤ 64) × (length d.event_text ≤ 128) × (length d.event_lang ≤ 3)

abbrev pub ItemFits : Bytes × Bytes → Type 0
ItemFits (text, desc) = (length text ≤ 32) × (length desc ≤ 128)

abbrev pub ComponentFits : ComponentDesc → Type 0
ComponentFits d = (length d.text ≤ 64) × (length d.lang ≤ 3)

pub record SectionFits (s : InfoSection) : Type 0 where
  pub short_event : ShortFits s.short_event_desc
  pub ext_text : length s.ext_event_desc.text ≤ 128
  pub ext_lang : length s.ext_event_desc.lang ≤ 3
  pub items : (length s.ext_event_desc.items ≤ 3) × All ItemFits s.ext_event_desc.items
  pub stereo : ComponentFits s.stereo
  pub audio : ComponentFits s.audio
  pub subtitle : ComponentFits s.subtitle
  pub country : length s.parent_rating_desc.country_code ≤ 3
  pub most_contents : length s.content_desc ≤ 10
  pub most_systems : length s.ca_identifier_desc ≤ 10

pub length-take : (n : ℕ) (xs : Bytes) → length (take n xs) ≤ n
length-take zero xs = omega arith
length-take (suc n) [] = omega arith
length-take (suc n) (x ∷ xs) = omega (arith, length-take n xs)

-- A loop ends with at most so many things, each as its step gives it.
pub load_while-All :
    {A : Type 0} (P : A → Type 0) (f : ℕ → Outcome (Option A)) (n i : ℕ)
    → ((j : ℕ) → (o : Option A) × (f j ≡ ok o) × ((a : A) → o ≡ some a → P a))
    → (as' : List A) × (load_while f n i ≡ ok as') × (length as' ≤ n) × All P as'
unfolding load_while
load_while-All P f zero i h = ([], refl, omega arith, tt)
load_while-All P f (suc n) i h =
    let (o, e, p) = h i in
    elim (Option-cases o) [
      | inl none_left ↦ ([], rw (e, none_left) refl, omega arith, tt)
      | inr (a, there) ↦
          let (rest, e', l, q) = load_while-All P f n (i + 1) h in
          (a ∷ rest, rw (e, there, e') refl, omega arith, (p a there, q))
    ]

pub component_at-Fits :
    (n : ℕ) (cs : List ComponentDesc) → All ComponentFits cs → ComponentFits (component_at n cs)
component_at-Fits n [] h = (omega arith, omega arith)
component_at-Fits zero (c ∷ cs) h = h.0
component_at-Fits (suc n) (c ∷ cs) h = component_at-Fits n cs h.1

pub item_of-Fits :
    (text desc : Option Bytes) (a : Bytes × Bytes) → item_of text desc ≡ some a → ItemFits a
item_of-Fits (some text) (some desc) a e =
    let at : (take 32 text, take 128 desc) ≡ a = cc in
    rw (← at) (length-take 32 text, length-take 128 desc)
item_of-Fits (some text) none a e = absurd cc
item_of-Fits none desc a e = absurd cc

pub component_of-Fits :
    (content type tag text lang : Option Bytes) (a : ComponentDesc)
    → component_of content type tag text lang ≡ some a
    → ComponentFits a
component_of-Fits (some content) (some type) (some tag) (some text) (some lang) a e =
    let at : record {
      stream_content = convert_str 256 (some content);
      component_type = convert_str 256 (some type);
      set_component_tag = atoi 256 tag;
      text = take 64 text;
      lang = take 3 lang;
    }
        ≡ a =
      cc in
    rw (← at) (length-take 64 text, length-take 3 lang)
component_of-Fits none type tag text lang a e = absurd cc
component_of-Fits (some content) none tag text lang a e = absurd cc
component_of-Fits (some content) (some type) none text lang a e = absurd cc
component_of-Fits (some content) (some type) (some tag) none lang a e = absurd cc
component_of-Fits (some content) (some type) (some tag) (some text) none a e = absurd cc

pub section_with-Fits :
    (event : ShortEventDesc) (extended : ExtEventDesc) (components : List ComponentDesc)
    (rating : ParentalRatingDesc) (contents : List ContentDesc) (systems : List ℕ) (rate : ℕ)
    → ShortFits event
    → (length extended.text ≤ 128) × (length extended.lang ≤ 3)
    → (length extended.items ≤ 3) × All ItemFits extended.items
    → All ComponentFits components
    → length rating.country_code ≤ 3
    → length contents ≤ 10
    → length systems ≤ 10
    → SectionFits (section_with event extended components rating contents systems rate)
section_with-Fits event extended components rating contents systems rate e (t, l) is cs r c s =
    record {
      short_event = e;
      ext_text = t;
      ext_lang = l;
      items = is;
      stereo = component_at-Fits 0 components cs;
      audio = component_at-Fits 1 components cs;
      subtitle = component_at-Fits 2 components cs;
      country = r;
      most_contents = c;
      most_systems = s;
    }
