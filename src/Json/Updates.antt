-- ===== src/Json/Updates.antt =====
-- json_parsing.c: a section whose fields are set one by one.
use multicat_supervisor.Base.{ℕ, zero, suc, ◌≤◌, ◌<◌, List, [], ◌∷◌, arith, length, All, Bytes}
use multicat_supervisor.Eit.{
  InfoSection, ShortEventDesc, ExtEventDesc, ComponentDesc, ContentDesc, ParentalRatingDesc,
}
use multicat_supervisor.Eit.Fields.{SectionFits, ShortFits, ItemFits, ComponentFits}
use multicat_supervisor.Json.Reading.{blank_section, entry_at, put_at, component, set_component}

pub length-put_at :
    {A : Type 0} (blank : A) (m n : ℕ) (a : A) (xs : List A)
    → n < m
    → length xs ≤ m
    → length (put_at blank n a xs) ≤ m
length-put_at blank zero n a xs h k = absurd (omega arith)
length-put_at blank (suc m) zero a [] h k = omega arith
length-put_at blank (suc m) (suc n) a [] h k =
    omega (arith, length-put_at blank m n a [] (omega arith) (omega arith))
length-put_at blank (suc m) zero a (x ∷ xs) h k = omega arith
length-put_at blank (suc m) (suc n) a (x ∷ xs) h k =
    omega (arith, length-put_at blank m n a xs (omega arith) (omega arith))

module _ {A : Type 0} (P : A → Type 0) (blank : A) (fits : P blank) where
  pub entry_at-All : (n : ℕ) (xs : List A) → All P xs → P (entry_at blank n xs)
  entry_at-All n [] h = fits
  entry_at-All zero (x ∷ xs) h = h.0
  entry_at-All (suc n) (x ∷ xs) h = entry_at-All n xs h.1

  pub put_at-All : (n : ℕ) (a : A) (xs : List A) → P a → All P xs → All P (put_at blank n a xs)
  put_at-All zero a [] p h = (p, tt)
  put_at-All (suc n) a [] p h = (fits, put_at-All n a [] p tt)
  put_at-All zero a (x ∷ xs) p h = (p, h.1)
  put_at-All (suc n) a (x ∷ xs) p h = (h.0, put_at-All n a xs p h.1)

-- The items, as many as there is room for.
abbrev pub ItemsFit : List (Bytes × Bytes) → Type 0
ItemsFit xs = (length xs ≤ 3) × All ItemFits xs

abbrev pub ExtendedFits : ExtEventDesc → Type 0
ExtendedFits d = (length d.text ≤ 128) × (length d.lang ≤ 3) × ItemsFit d.items

pub set_short :
    (d : ShortEventDesc) {s : InfoSection}
    → SectionFits s
    → ShortFits d
    → SectionFits (record s { short_event_desc = d })
set_short d h k = search

pub set_extended :
    (d : ExtEventDesc) {s : InfoSection}
    → SectionFits s
    → ExtendedFits d
    → SectionFits (record s { ext_event_desc = d })
set_extended d h k = search

pub set_rating :
    (d : ParentalRatingDesc) {s : InfoSection}
    → SectionFits s
    → length d.country_code ≤ 3
    → SectionFits (record s { parent_rating_desc = d })
set_rating d h k = search

pub set_contents :
    (cs : List ContentDesc) {s : InfoSection}
    → SectionFits s
    → length cs ≤ 10
    → SectionFits (record s { content_desc = cs })
set_contents cs h k = search

pub set_systems :
    (xs : List ℕ) {s : InfoSection}
    → SectionFits s
    → length xs ≤ 10
    → SectionFits (record s { ca_identifier_desc = xs })
set_systems xs h k = search

pub set_numbers :
    (start duration rate : ℕ) {s : InfoSection}
    → SectionFits s
    → SectionFits (record s { starttime = start; duration = duration; sb_leak_rate = rate })
set_numbers start duration rate h = search

pub blank_section-Fits : SectionFits blank_section
blank_section-Fits = ground arith

pub component-Fits : (i : ℕ) {s : InfoSection} → SectionFits s → ComponentFits (component i s)
component-Fits zero h = h.stereo
component-Fits (suc zero) h = h.audio
component-Fits (suc (suc zero)) h = h.subtitle
component-Fits (suc (suc (suc i))) h = (omega arith, omega arith)

pub set_component-Fits :
    (i : ℕ) (c : ComponentDesc) {s : InfoSection}
    → SectionFits s
    → ComponentFits c
    → SectionFits (set_component i c s)
set_component-Fits zero c h k = search
set_component-Fits (suc zero) c h k = search
set_component-Fits (suc (suc i)) c h k = search
