-- ===== src/Eit/Loaded.antt =====
-- util.c, `load_eit` on a stored configuration: what it needs, and what it fills.
use multicat_supervisor.Base.{
  ℕ, ◌+◌, ◌≤◌, ◌≡◌, ◌≢◌, refl, Option, none, some, inl, inr, Option-cases, [], arith, length, take,
  All, Bytes, codes,
}
use multicat_supervisor.Io.{Outcome, ok}
use multicat_supervisor.Ini.Config.{Config, blocks, ini_of, entries, first_value}
use multicat_supervisor.Ini.Lookup.{rechercher_valeur, rechercher_valeur-first_value}
use multicat_supervisor.Eit.{
  Info, ShortEventDesc, ExtEventDesc, ComponentDesc, ContentDesc, ParentalRatingDesc,
}
use multicat_supervisor.Eit.Numbers.{atoi, convert_str}
use multicat_supervisor.Eit.Loading.{
  numbered, not_empty, item_of, component_of, content_desc_of, system_of, copied, number, load_item,
  section_with, load_component, load_content, load_system, load_short_event, load_rating, load_with,
  load_eit,
}
use multicat_supervisor.Eit.Fields.{
  required, ShortFits, ItemFits, ComponentFits, SectionFits, length-take, load_while-All,
  section_with-Fits, item_of-Fits, component_of-Fits,
}

module _ (find : Bytes → Bytes → Outcome (Option Bytes)) (look : Bytes → Bytes → Option Bytes)
    (found : (section key : Bytes) → find section key ≡ ok (look section key)) where
  copied-ok :
      (n : ℕ) (section key : Bytes)
      → look section key ≢ none
      → (text : Bytes) × (copied find n section key ≡ ok text) × (length text ≤ n)
  unfolding copied
  copied-ok n section key h = elim (Option-cases (look section key)) [
    | inl e ↦ absurd (h e)
    | inr (text, e) ↦ (take n text, rw (found section key, e) refl, length-take n text)
  ]

  load_short_event-ok :
      (section : Bytes)
      → look section (codes "event_name") ≢ none
      → look section (codes "event_text") ≢ none
      → look section (codes "event_lang") ≢ none
      → (d : ShortEventDesc) × (load_short_event find section ≡ ok d) × ShortFits d
  unfolding load_short_event
  load_short_event-ok section a b c =
      let (name, e, l) = copied-ok 64 section (codes "event_name") a in
      let (text, e', l') = copied-ok 128 section (codes "event_text") b in
      let (lang, e'', l'') = copied-ok 3 section (codes "event_lang") c in
      (
        record { event_name = name; event_text = text; event_lang = lang },
        rw (e, e', e'') refl,
        (l, l', l''),
      )

  load_rating-ok :
      look (codes "PARENTAL_RATING_DESCRIPTOR") (codes "country_code") ≢ none
      → look (codes "PARENTAL_RATING_DESCRIPTOR") (codes "age") ≢ none
      → (d : ParentalRatingDesc) × (load_rating find ≡ ok d) × (length d.country_code ≤ 3)
  unfolding load_rating number
  load_rating-ok a b =
      let section : Bytes = codes "PARENTAL_RATING_DESCRIPTOR" in
      let (country, e, l) = copied-ok 3 section (codes "country_code") a in
      elim (Option-cases (look section (codes "age"))) [
        | inl n ↦ absurd (b n)
        | inr (age, n) ↦ (
          record { country_code = country; age = atoi 256 age },
          rw (e, found section (codes "age"), n) refl,
          l,
        )
      ]

  load_item-ok :
      (i : ℕ)
      → (o : Option (Bytes × Bytes)) × (load_item find i ≡ ok o)
        × ((a : Bytes × Bytes) → o ≡ some a → ItemFits a)
  unfolding load_item
  load_item-ok i =
      let section : Bytes = codes "EXTENDED_EVENT_DESCRIPTOR" in
      (
        item_of (look section (numbered (codes "text") i))
            (look section (numbered (codes "desc") i)),
        rw (found section (numbered (codes "text") i), found section (numbered (codes "desc") i))
            refl,
        item_of-Fits _ _,
      )

  load_component-ok :
      (i : ℕ)
      → (o : Option ComponentDesc) × (load_component find i ≡ ok o)
        × ((a : ComponentDesc) → o ≡ some a → ComponentFits a)
  unfolding load_component
  load_component-ok i =
      let at : Bytes → Option Bytes =
        λ key. not_empty (look (codes "COMPONENT_DESCRIPTOR") (numbered key (i + 1))) in
      let e : (key : Bytes)
          → find (codes "COMPONENT_DESCRIPTOR") (numbered key (i + 1))
            ≡ ok (look (codes "COMPONENT_DESCRIPTOR") (numbered key (i + 1))) =
        λ key. found (codes "COMPONENT_DESCRIPTOR") (numbered key (i + 1)) in
      (
        component_of (at (codes "stream_content")) (at (codes "component_type"))
            (at (codes "set_component_tag")) (at (codes "text")) (at (codes "lang")),
        rw
            (
              e (codes "stream_content"),
              e (codes "component_type"),
              e (codes "set_component_tag"),
              e (codes "text"),
              e (codes "lang"),
            )
            refl,
        component_of-Fits _ _ _ _ _,
      )

  load_content-ok :
      (i : ℕ)
      → (o : Option ContentDesc) × (load_content find i ≡ ok o)
        × ((a : ContentDesc) → o ≡ some a → Unit {0})
  unfolding load_content
  load_content-ok i =
      let section : Bytes = codes "CONTENT_DESCRIPTOR" in
      (
        content_desc_of (not_empty (look section (numbered (codes "level_1") (i + 1))))
            (not_empty (look section (numbered (codes "level_2") (i + 1))))
            (not_empty (look section (numbered (codes "user") (i + 1)))),
        rw
            (
              found section (numbered (codes "level_1") (i + 1)),
              found section (numbered (codes "level_2") (i + 1)),
              found section (numbered (codes "user") (i + 1)),
            )
            refl,
        λ a e. tt,
      )

  load_system-ok :
      (i : ℕ) → (o : Option ℕ) × (load_system find i ≡ ok o) × ((a : ℕ) → o ≡ some a → Unit {0})
  unfolding load_system
  load_system-ok i =
      let key : Bytes = numbered (codes "CA_system_id") (i + 1) in
      (
        system_of (not_empty (look (codes "CA_IDENTIFIER_DESCRIPTOR") key)),
        rw (found (codes "CA_IDENTIFIER_DESCRIPTOR") key) refl,
        λ a e. tt,
      )

  load_with-Fits :
      All (λ (r : Bytes × Bytes). look r.0 r.1 ≢ none) required
      → (info : Info) × (load_with find ≡ ok info)
        × SectionFits info.section0
        × SectionFits info.section1
  unfolding load_with
  load_with-Fits (n, (t, (l, (n', (t', (l', (et, (el, (c, (a, _)))))))))) =
      let (present, p, pf) = load_short_event-ok (codes "SHORT_EVENT_DESCRIPTOR") n t l in
      let (following, f, ff) =
        load_short_event-ok (codes "SHORT_EVENT_FOLLOWING_DESCRIPTOR") n' t' l' in
      let (text, x, xf) = copied-ok 128 (codes "EXTENDED_EVENT_DESCRIPTOR") (codes "text") et in
      let (lang, g, gf) = copied-ok 3 (codes "EXTENDED_EVENT_DESCRIPTOR") (codes "lang") el in
      let (items, i, il, if') = load_while-All ItemFits (load_item find) 3 0 load_item-ok in
      let (parts, m, ml, mf) =
        load_while-All ComponentFits (load_component find) 3 0 load_component-ok in
      let (contents, o, ol, of') =
        load_while-All (λ _. Unit {0}) (load_content find) 10 0 load_content-ok in
      let (systems, s, sl, sf) =
        load_while-All (λ _. Unit {0}) (load_system find) 10 0 load_system-ok in
      let (rating, r, rf) = load_rating-ok c a in
      let main = λ (key : Bytes). found (codes "EIT_MAIN_DESCRIPTOR") key in
      let extended : ExtEventDesc = record { text = text; lang = lang; items = items } in
      let rate : ℕ =
        convert_str 256 (look (codes "SHORT_SMOOTHING_BUFFER_DESCRIPTOR") (codes "sb_leak_rate")) in
      (
        record {
          tsid = convert_str 65536 (look (codes "EIT_MAIN_DESCRIPTOR") (codes "tsid"));
          sid = convert_str 65536 (look (codes "EIT_MAIN_DESCRIPTOR") (codes "sid"));
          onid = convert_str 65536 (look (codes "EIT_MAIN_DESCRIPTOR") (codes "onid"));
          section0 = section_with present extended parts rating contents systems rate;
          section1 = section_with following extended parts rating contents [] rate;
        },
        rw
            (
              main (codes "tsid"),
              main (codes "sid"),
              main (codes "onid"),
              p,
              f,
              x,
              g,
              i,
              m,
              o,
              s,
              found (codes "SHORT_SMOOTHING_BUFFER_DESCRIPTOR") (codes "sb_leak_rate"),
              r,
            )
            refl,
        section_with-Fits present extended parts rating contents systems rate pf (xf, gf) (il, if')
            mf rf ol sl,
        section_with-Fits following extended parts rating contents [] rate ff (xf, gf) (il, if') mf
            rf ol (omega arith),
      )

-- On a stored configuration with the ten entries whose absence would be a null pointer that is
-- followed, load_eit comes to its end, each text is within its field, in front of the NUL, and in
-- each section there are at most 3 items, 10 contents and 10 systems.
pub load_eit-Fits :
    (cfg : Config)
    → All (λ (r : Bytes × Bytes). first_value r.0 r.1 (entries (blocks cfg)) ≢ none) required
    → (info : Info) × (load_eit (some (ini_of cfg)) ≡ ok info)
      × SectionFits info.section0
      × SectionFits info.section1
unfolding load_eit
load_eit-Fits cfg h =
    load_with-Fits (λ section key. rechercher_valeur (some (ini_of cfg)) (some section) key)
      (λ section key. first_value section key (entries (blocks cfg)))
      (λ section key. rechercher_valeur-first_value section key cfg) h
