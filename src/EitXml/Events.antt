-- ===== src/EitXml/Events.antt =====
-- eit_xml.c, `build_sections_event_id`: which two events are taken.
use multicat_supervisor.Base.{
  ℕ, ◌+◌, ◌^◌, ◌≤◌, ◌<◌, ◌≡◌, ◌≢◌, ◌⊎◌, inl, inr, refl, ap, sym, ◌∙◌, Bool-cases, none, some,
  Option-cases, List, [], ◌∷◌, ◌++◌, arith, ltb, leb, if◌then◌else◌, All, codes, same_text,
}
use multicat_supervisor.Io.{ok}
use multicat_supervisor.Eit.Numbers.{atoi}
use multicat_supervisor.EitXml.{
  Node, Document, each_attribute, events_path, next_ids, id_attribute, event_ids, found_ids,
  build_sections_event_id,
}

-- The ids that a node gives, up to its first attribute without a text.
abbrev pub ids_in : Node → List ℕ
ids_in [] = []
ids_in (a ∷ as') = elim a.children [
  | none ↦ []
  | some keyword ↦
      let rest = ids_in as' in
      if same_text a.name (codes "id") then atoi (2 ^ 32) keyword ∷ rest else rest
]

abbrev pub ids_of : List Node → List ℕ
ids_of [] = []
ids_of (node ∷ nodes) = ids_in node ++ ids_of nodes

abbrev pub Among : ℕ → List ℕ → Type 0
Among a [] = ⊥
Among a (x ∷ xs) = (a ≡ x) ⊎ Among a xs

abbrev pub next_all : List ℕ → ℕ × ℕ → ℕ × ℕ
next_all [] ids = ids
next_all (x ∷ xs) ids = next_all xs (next_ids x ids)

next_all-append :
    (xs ys : List ℕ) (ids : ℕ × ℕ) → next_all (xs ++ ys) ids ≡ next_all ys (next_all xs ids)
next_all-append [] ys ids = refl
next_all-append (x ∷ xs) ys ids = next_all-append xs ys (next_ids x ids)

each_attribute-next_all :
    (node : Node) (ids : ℕ × ℕ)
    → each_attribute id_attribute node ids ≡ ok (next_all (ids_in node) ids)
unfolding id_attribute
each_attribute-next_all [] ids = refl
each_attribute-next_all (a ∷ as') ids = elim (Option-cases a.children) [
  | inl e ↦ rw e refl
  | inr (keyword, e) ↦ elim (Bool-cases (same_text a.name (codes "id"))) [
    | inl t ↦ rw (e, t) (each_attribute-next_all as' (next_ids (atoi (2 ^ 32) keyword) ids))
    | inr t ↦ rw (e, t) (each_attribute-next_all as' ids)
  ]
]

pub event_ids-next_all :
    (nodes : List Node) (ids : ℕ × ℕ) → event_ids nodes ids ≡ ok (next_all (ids_of nodes) ids)
unfolding event_ids
event_ids-next_all [] ids = refl
event_ids-next_all (node ∷ nodes) ids =
    rw (each_attribute-next_all node ids, next_all-append (ids_in node) (ids_of nodes) ids)
      (event_ids-next_all nodes (next_all (ids_in node) ids))

-- An id, behind which there is another one.
abbrev pub IsEventId : ℕ → Type 0
IsEventId n = (0 < n) × (n < 2147483647)

next_ids-first : (id : ℕ) → IsEventId id → next_ids id (0, 0) ≡ (id, id)
unfolding next_ids
next_ids-first id h = ground arith

next_ids-lower :
    (id a b : ℕ) → IsEventId id → IsEventId a → 0 < b → id < a → next_ids id (a, b) ≡ (id, id)
unfolding next_ids
next_ids-lower id a b h k p l = ground arith

next_ids-behind :
    (id a b : ℕ)
    → IsEventId id
    → IsEventId a
    → 0 < b
    → a ≤ id
    → id ≤ a + 1
    → next_ids id (a, b) ≡ (a, id)
unfolding next_ids
next_ids-behind id a b h k p l m = ground arith

next_ids-far :
    (id a b : ℕ) → IsEventId id → IsEventId a → 0 < b → a + 1 < id → next_ids id (a, b) ≡ (a, b)
unfolding next_ids
next_ids-far id a b h k p l = ground arith

next_ids-cases :
    (id a b : ℕ)
    → IsEventId id
    → IsEventId a
    → (b ≡ a) ⊎ (b ≡ a + 1)
    → ((id < a) × (next_ids id (a, b) ≡ (id, id)))
      ⊎ (((a ≤ id) × (id ≤ a + 1) × (next_ids id (a, b) ≡ (a, id)))
          ⊎ ((a + 1 < id) × (next_ids id (a, b) ≡ (a, b))))
next_ids-cases id a b h k n =
    let p : 0 < b = ground arith in
    elim (Bool-cases (ltb id a)) [
      | inl e ↦ let l : id < a = ground arith in inl (l, next_ids-lower id a b h k p l)
      | inr e ↦
          let g : a ≤ id = ground arith in
          elim (Bool-cases (leb id (a + 1))) [
            | inl f ↦
                let l : id ≤ a + 1 = ground arith in
                inr (inl (g, l, next_ids-behind id a b h k p g l))
            | inr f ↦
                let l : a + 1 < id = ground arith in inr (inr (l, next_ids-far id a b h k p l))
          ]
    ]

-- The least of the ids, and it or the next one.
abbrev pub Chosen : List ℕ → ℕ → ℕ → Type 0
Chosen ids a b = All (λ id. a ≤ id) ids × Among a ids × Among b ids × ((b ≡ a) ⊎ (b ≡ a + 1))

skip_second : (a x y : ℕ) (xs : List ℕ) → Among a (x ∷ xs) → Among a (x ∷ y ∷ xs)
skip_second a x y xs (inl e) = inl e
skip_second a x y xs (inr h) = inr (inr h)

-- Later ids behind the first ones, which have been taken.
next_all-Chosen :
    (xs : List ℕ) (a b : ℕ)
    → All IsEventId xs
    → IsEventId a
    → (b ≡ a) ⊎ (b ≡ a + 1)
    → (a' : ℕ) × (b' : ℕ) × (next_all xs (a, b) ≡ (a', b'))
      × (a' ≤ a)
      × All (λ id. a' ≤ id) xs
      × Among a' (a ∷ xs)
      × Among b' (b ∷ xs)
      × ((b' ≡ a') ⊎ (b' ≡ a' + 1))
next_all-Chosen [] a b hs h k = (a, b, refl, omega arith, tt, inl refl, inl refl, k)
next_all-Chosen (x ∷ xs) a b hs h k = elim (next_ids-cases x a b hs.0 h k) [
  | inl (l, e) ↦
      let (a', b', e', le, al, ma, mb, q) = next_all-Chosen xs x x hs.1 hs.0 (inl refl) in
      (a', b', rw e e', omega arith, (le, al), inr ma, inr mb, q)
  | inr (inl (l, m, e)) ↦
      let (a', b', e', le, al, ma, mb, q) = next_all-Chosen xs a x hs.1 h (ground arith) in
      (a', b', rw e e', le, (omega arith, al), skip_second a' a x xs ma, inr mb, q)
  | inr (inr (l, e)) ↦
      let (a', b', e', le, al, ma, mb, q) = next_all-Chosen xs a b hs.1 h k in
      (
        a',
        b',
        rw e e',
        le,
        (omega arith, al),
        skip_second a' a x xs ma,
        skip_second b' b x xs mb,
        q,
      )
]

Among-pos : (a : ℕ) (ids : List ℕ) → All IsEventId ids → Among a ids → 0 < a
Among-pos a [] h m = elim m [ ]
Among-pos a (x ∷ xs) h (inl e) = rw e h.0.0
Among-pos a (x ∷ xs) h (inr m) = Among-pos a xs h.1 m

next_all-first :
    (ids : List ℕ)
    → All IsEventId ids
    → ids ≢ []
    → (a : ℕ) × (b : ℕ) × (next_all ids (0, 0) ≡ (a, b)) × (0 < a) × Chosen ids a b
next_all-first [] hs ne = absurd (ne refl)
next_all-first (x ∷ xs) hs ne =
    let (a, b, e, le, al, ma, mb, q) = next_all-Chosen xs x x hs.1 hs.0 (inl refl) in
    (a, b, rw (next_ids-first x hs.0) e, Among-pos a (x ∷ xs) hs ma, ((le, al), ma, mb, q))

found_ids_lem : (a b : ℕ) → 0 < a → (b ≡ a) ⊎ (b ≡ a + 1) → found_ids (a, b) ≡ some (a, b)
found_ids_lem a b h k = ground arith

nodes-cases :
    (nodes : List Node) → (nodes ≡ []) ⊎ ((x : Node) × (xs : List Node) × (nodes ≡ x ∷ xs))
nodes-cases [] = inl refl
nodes-cases (x ∷ xs) = inr (x, xs, refl)

build_sections_event_id-found :
    (doc : Document) (program : ℕ) (x : Node) (xs : List Node) (a b : ℕ)
    → doc (events_path program) ≡ x ∷ xs
    → event_ids (x ∷ xs) (0, 0) ≡ ok (a, b)
    → found_ids (a, b) ≡ some (a, b)
    → build_sections_event_id doc program ≡ ok (some (a, b))
unfolding build_sections_event_id
build_sections_event_id-found doc program x xs a b there e f =
    rw (there, build_sections_event_id, e) (ap ok f)

-- Where the nodes of the events give at least one id, and all are positive and below 2 ^ 31 - 1,
-- build_sections_event_id takes the least of them for the first section, and for the second an id
-- that is there too, the same or the next one.
pub build_sections_event_id-Chosen :
    (doc : Document) (program : ℕ)
    → All IsEventId (ids_of (doc (events_path program)))
    → ids_of (doc (events_path program)) ≢ []
    → (a : ℕ) × (b : ℕ) × (build_sections_event_id doc program ≡ ok (some (a, b)))
      × Chosen (ids_of (doc (events_path program))) a b
build_sections_event_id-Chosen doc program hs ne =
    let nodes : List Node = doc (events_path program) in
    let (a, b, e, p, c) = next_all-first (ids_of nodes) hs ne in
    elim (nodes-cases nodes) [
      | inl none_there ↦ absurd (ne (ap ids_of none_there))
      | inr (x, xs, there) ↦
          let found : event_ids (x ∷ xs) (0, 0) ≡ ok (a, b) =
            event_ids-next_all (x ∷ xs) (0, 0)
            ∙ ap (λ ns. ok (next_all (ids_of ns) (0, 0))) (sym there)
            ∙ ap ok e in
          (
            a,
            b,
            build_sections_event_id-found doc program x xs a b there found
                (found_ids_lem a b p c.3),
            c,
          )
    ]
