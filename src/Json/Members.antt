-- ===== src/Json/Members.antt =====
-- json_parsing.c: the members of a descriptor keep its texts within their fields.
use multicat_supervisor.Base.{◌≤◌, refl, some, List, [], arith, length, Bytes, codes, same_text}
use multicat_supervisor.Eit.{ShortEventDesc, ExtEventDesc, ComponentDesc, ParentalRatingDesc}
use multicat_supervisor.Eit.Fields.{ShortFits, ItemFits, ComponentFits}
use multicat_supervisor.Json.{array, JsonC}
use multicat_supervisor.Json.Reading.{entry_at, only, ◌>>=◌}
use multicat_supervisor.Json.Parsing.{
  component_member, short_event_member, item_member, item_element, json_parse_items,
  extended_member, rating_member,
}
use multicat_supervisor.Json.Ensures.{
  Ensures, just, Ensures-if, Ensures-bind, Ensures-any, Ensures-text, each_member-Ensures,
  each_element-Ensures,
}
use multicat_supervisor.Json.Updates.{
  length-put_at, entry_at-All, put_at-All, ItemsFit, ExtendedFits,
}

module _ (j : JsonC) where
  open j use {Value, get_string, members, elements}

  pub component_member-Ensures :
      (key : Bytes) (v : Value) (c : ComponentDesc)
      → ComponentFits c
      → Ensures ComponentFits (component_member j key v c)
  unfolding component_member
  component_member-Ensures key v c (t, l) =
      search (Ensures-if, Ensures-text, Ensures-any, just) depth 14 fits 4000

  pub short_event_member-Ensures :
      (key : Bytes) (v : Value) (d : ShortEventDesc)
      → ShortFits d
      → Ensures ShortFits (short_event_member j key v d)
  unfolding short_event_member
  short_event_member-Ensures key v d (n, t, l) =
      search (Ensures-if, Ensures-text, Ensures-any, just) depth 14 fits 4000

  pub rating_member-Ensures :
      (key : Bytes) (v : Value) (d : ParentalRatingDesc)
      → length d.country_code ≤ 3
      → Ensures (λ d'. length d'.country_code ≤ 3) (rating_member j key v d)
  unfolding rating_member
  rating_member-Ensures key v d l =
      search (Ensures-if, Ensures-text, Ensures-any, just) depth 14 fits 4000

  pub item_member-Ensures :
      (key : Bytes) (v : Value) (x : Bytes × Bytes)
      → ItemFits x
      → Ensures ItemFits (item_member j key v x)
  unfolding item_member
  item_member-Ensures key v (text, desc) (t, d) =
      search (Ensures-if, Ensures-text, Ensures-any, just) depth 14 fits 4000

  pub json_parse_items-Ensures :
      (v : Value) (xs : List (Bytes × Bytes))
      → ItemsFit xs
      → Ensures ItemsFit (json_parse_items j v xs)
  unfolding json_parse_items item_element
  json_parse_items-Ensures v xs h =
      each_element-Ensures j ItemsFit (item_element j) 3
        (λ i w ys lt (n, all). Ensures-any _ _ (λ o.
          Ensures-bind _
            (each_member-Ensures j ItemFits (item_member j) item_member-Ensures (members o)
              (entry_at ([], []) i ys) (entry_at-All ItemFits ([], []) (omega arith) i ys all))
            (λ x f. just (
              length-put_at ([], []) 3 i x ys lt n,
              put_at-All ItemFits ([], []) (omega arith) i x ys f all,
            ))))
        3 0 (elements v) xs refl h

  pub extended_items-Ensures :
      (v : Value) (d : ExtEventDesc)
      → ExtendedFits d
      → Ensures ExtendedFits (
          only j array v >>= λ a.
          json_parse_items j a d.items >>= λ xs. some (record d { items = xs }))
  extended_items-Ensures v d (t, l, f) = Ensures-any (only j array v) _ (λ a.
      Ensures-bind (λ xs. some (record d { items = xs })) (json_parse_items-Ensures a d.items f)
        (λ xs g. just (t, l, g)))

  pub extended_member-Ensures :
      (key : Bytes) (v : Value) (d : ExtEventDesc)
      → ExtendedFits d
      → Ensures ExtendedFits (extended_member j key v d)
  unfolding extended_member
  extended_member-Ensures key v d (t, l, f) =
      Ensures-if (same_text key (codes "text"))
        (Ensures-text j 128 v (λ x. some (record d { text = x })) (λ x h. just (h, l, f)))
        (Ensures-if (same_text key (codes "lang"))
          (Ensures-text j 3 v (λ x. some (record d { lang = x })) (λ x h. just (t, h, f)))
          (Ensures-if (same_text key (codes "items")) (extended_items-Ensures v d (t, l, f))
            (just (t, l, f))))
