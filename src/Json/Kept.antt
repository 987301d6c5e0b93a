-- ===== src/Json/Kept.antt =====
-- json_parsing.c: what the object of a section tells of it.
use multicat_supervisor.Base.{
  ℕ, ◌+◌, ◌^◌, ◌≤◌, ◌<◌, ◌≡◌, refl, List, [], ◌∷◌, arith, ◌==◌, if◌then◌else◌, length, All,
}
use multicat_supervisor.Eit.{InfoSection, ComponentDesc, ContentDesc}
use multicat_supervisor.Eit.Loading.{blank_component}
use multicat_supervisor.Eit.Fields.{ShortFits}
use multicat_supervisor.Json.Reading.{blank_content, blank_section, entry_at, set_component}

abbrev pub ContentFits : ContentDesc → Type 0
ContentFits c = (c.level_1 < 2 ^ 32) × (c.level_2 < 2 ^ 32)

abbrev pub ComponentOk : ComponentDesc → Type 0
ComponentOk c =
    (c.stream_content < 256)
    × (c.component_type < 256)
    × (c.set_component_tag < 256)
    × (length c.text ≤ 64)
    × (length c.lang ≤ 3)

-- The components with a tag.
abbrev pub tagged : List ComponentDesc → List ComponentDesc
tagged [] = []
tagged (c ∷ cs) = let rest = tagged cs in if c.set_component_tag == 0 then rest else c ∷ rest

-- What a section's object tells of it: the length, the names and texts, the rating if there is an
-- age, the two levels of the first content, and the components with a tag, without a gap.
abbrev pub kept : InfoSection → InfoSection
kept s =
    let c = entry_at blank_content 0 s.content_desc in
    let cs = tagged (s.stereo ∷ s.audio ∷ s.subtitle ∷ []) in
    record blank_section {
      duration = s.duration;
      short_event_desc = s.short_event_desc;
      parent_rating_desc =
          if s.parent_rating_desc.age == 0
          then record { country_code = []; age = 0 }
          else s.parent_rating_desc;
      content_desc =
          if c.level_1 == 0
          then []
          else record { level_1 = c.level_1; level_2 = c.level_2; user = 0 } ∷ [];
      stereo = entry_at blank_component 0 cs;
      audio = entry_at blank_component 1 cs;
      subtitle = entry_at blank_component 2 cs;
    }

-- The numbers and texts of a section that are written are within their fields.
pub record IsWritable (s : InfoSection) : Type 0 where
  pub duration : s.duration < 2 ^ 32
  pub short_event : ShortFits s.short_event_desc
  pub country : length s.parent_rating_desc.country_code ≤ 3
  pub age : s.parent_rating_desc.age < 256
  pub content : ContentFits (entry_at blank_content 0 s.content_desc)
  pub components : All ComponentOk (s.stereo ∷ s.audio ∷ s.subtitle ∷ [])

abbrev pub set_components : ℕ → List ComponentDesc → InfoSection → InfoSection
set_components i [] s = s
set_components i (c ∷ cs) s = set_components (i + 1) cs (set_component i c s)

pub set_components_lem :
    (cs : List ComponentDesc) (s : InfoSection)
    → length cs ≤ 3
    → set_components 0 cs s ≡ record s {
      stereo = entry_at s.stereo 0 cs;
      audio = entry_at s.audio 1 cs;
      subtitle = entry_at s.subtitle 2 cs;
    }
set_components_lem [] s h = refl
set_components_lem (a ∷ []) s h = refl
set_components_lem (a ∷ b ∷ []) s h = refl
set_components_lem (a ∷ b ∷ c ∷ []) s h = refl
set_components_lem (a ∷ b ∷ c ∷ d ∷ cs) s h = absurd (omega arith)

pub length-tagged : (cs : List ComponentDesc) → length (tagged cs) ≤ length cs
length-tagged [] = omega arith
length-tagged (c ∷ cs) = let rest = length-tagged cs in ground arith
