-- ===== src/EitXml/Attributes.antt =====
-- eit_xml.c: the attributes of a node are read into the fields of a descriptor.
use multicat_supervisor.Base.{
  ℕ, ◌≤◌, ◌≡◌, refl, false, Bool-cases, some, Option-cases, inl, inr, arith, ltb, length, Bytes,
  codes, same_text,
}
use multicat_supervisor.Latin9.{utf8_to_latin9}
use multicat_supervisor.Latin9.Decode.{FitsIn, utf8_to_latin9-FitsIn}
use multicat_supervisor.Eit.{ShortEventDesc, ComponentDesc, ContentDesc, ParentalRatingDesc}
use multicat_supervisor.Eit.Fields.{ComponentFits, length-take}
use multicat_supervisor.EitXml.Sections.{
  component_attribute, content_attribute, rating_attribute, latin9_field, short_attribute,
  time_attribute,
}
use multicat_supervisor.EitXml.Returns.{KeywordFits, Returns}

pub component_attribute-Fits :
    (name keyword : Bytes) (c : ComponentDesc)
    → KeywordFits name keyword
    → ComponentFits c
    → Returns ComponentFits (component_attribute name keyword c)
unfolding component_attribute
component_attribute-Fits name keyword c fit (t, l) =
    let a = length-take 3 keyword in let b = length-take 64 keyword in (_, refl, ground arith)

pub content_attribute-any :
    (name keyword : Bytes) (c : ContentDesc)
    → KeywordFits name keyword
    → Unit {0}
    → Returns (λ _. Unit {0}) (content_attribute name keyword c)
unfolding content_attribute
content_attribute-any name keyword c fit h = (_, refl, tt)

pub rating_attribute-Fits :
    (name keyword : Bytes) (d : ParentalRatingDesc)
    → KeywordFits name keyword
    → length d.country_code ≤ 4
    → Returns (λ d'. length d'.country_code ≤ 4) (rating_attribute name keyword d)
unfolding rating_attribute
rating_attribute-Fits name keyword d fit h =
    let a = length-take 4 keyword in (_, refl, ground arith)

abbrev pub ShortOk : ShortEventDesc → Type 0
ShortOk d = (length d.event_name ≤ 64) × (length d.event_text ≤ 128) × (length d.event_lang ≤ 4)

latin9_field-Fits :
    (n : ℕ) (keyword : Bytes)
    → length keyword ≤ n
    → Returns (λ t. length t ≤ n) (latin9_field n keyword)
unfolding latin9_field
latin9_field-Fits n keyword h =
    let short : ltb n (length keyword) ≡ false = ground arith in
    let fits = utf8_to_latin9-FitsIn keyword in
    elim (Option-cases (utf8_to_latin9 keyword)) [
      | inl e ↦ absurd (rw e at fits)
      | inr (t, e) ↦
          let within : FitsIn (length keyword) (some t) = rw e at fits in
          (t, rw (short, e) refl, omega (arith, within.0))
    ]

pub short_attribute-Fits :
    (name keyword : Bytes) (d : ShortEventDesc)
    → KeywordFits name keyword
    → ShortOk d
    → Returns ShortOk (short_attribute name keyword d)
unfolding short_attribute
short_attribute-Fits name keyword d (fn, ft) (n, t, l) =
    elim (Bool-cases (same_text name (codes "lang"))) [
      | inl e ↦ rw e (_, refl, (n, t, length-take 4 keyword))
      | inr e ↦ elim (Bool-cases (same_text name (codes "event_name"))) [
        | inl g ↦
            let (x, at, w) = latin9_field-Fits 64 keyword (fn g) in
            (record d { event_name = x }, rw (e, g, at) refl, (w, t, l))
        | inr g ↦ elim (Bool-cases (same_text name (codes "text"))) [
          | inl k ↦
              let (x, at, w) = latin9_field-Fits 128 keyword (ft k) in
              (record d { event_text = x }, rw (e, g, k, at) refl, (n, w, l))
          | inr k ↦ (d, rw (e, g, k) refl, (n, t, l))
        ]
      ]
    ]

pub time_attribute-any :
    (name keyword : Bytes) (times : ℕ × ℕ)
    → KeywordFits name keyword
    → Unit {0}
    → Returns (λ _. Unit {0}) (time_attribute name keyword times)
unfolding time_attribute
time_attribute-any name keyword (a, b) fit h = (_, refl, tt)
