-- ===== src/EitXml/Returns.antt =====
-- eit_xml.c: documents whose texts fit, and what holds of a result through the loops.
use multicat_supervisor.Base.{
  ℕ, zero, suc, ◌≤◌, ◌≡◌, refl, true, Option, none, some, Option-cases, inl, inr, ◌⊎◌, List, [],
  ◌∷◌, arith, length, All, Bytes, codes, same_text,
}
use multicat_supervisor.Io.{Outcome, ok, ◌>>=◌}
use multicat_supervisor.EitXml.{Attribute, Node, Document, each_attribute}
use multicat_supervisor.EitXml.Sections.{each_node, first_node, or_fail}

-- A document whose names and texts of events fit in their fields.
abbrev pub KeywordFits : Bytes → Bytes → Type 0
KeywordFits name keyword =
    (same_text name (codes "event_name") ≡ true → length keyword ≤ 64)
    × (same_text name (codes "text") ≡ true → length keyword ≤ 128)

abbrev pub AttributeFits : Attribute → Type 0
AttributeFits a = elim a.children [ none ↦ Unit {0} | some keyword ↦ KeywordFits a.name keyword ]

abbrev pub DocumentFits : Document → Type 0
DocumentFits doc = (path : Bytes) → All (λ node. All AttributeFits node) (doc path)

-- It comes to its end, with such a result.
abbrev pub Returns {ℓ} : {A : Type 0} → (A → Type ℓ) → Outcome A → Type ℓ
Returns P r = (a : _) × (r ≡ ok a) × P a

abbrev pub MaybeAll : {A : Type 0} → (A → Type 0) → Option A → Type 0
MaybeAll P none = Unit {0}
MaybeAll P (some a) = P a

pub Returns-bind :
    {A B : Type 0} (P : A → Type 0) (Q : B → Type 0) (r : Outcome A) (f : A → Outcome B)
    → Returns P r
    → ((a : A) → P a → Returns Q (f a))
    → Returns Q (r >>= f)
Returns-bind P Q r f (a, e, h) k = rw e (k a h)

pub each_attribute-Returns :
    {S : Type 0} (P : S → Type 0) (f : Bytes → Bytes → S → Outcome S)
    → ((name keyword : Bytes) (s : S)
        → KeywordFits name keyword
        → P s
        → Returns P (f name keyword s))
    → (node : Node) → All AttributeFits node
    → (s : S) → P s
    → Returns P (each_attribute f node s)
each_attribute-Returns P f keep [] fits s h = (s, refl, h)
each_attribute-Returns P f keep (a ∷ as') fits s h = elim (Option-cases a.children) [
  | inl e ↦ rw e (s, refl, h)
  | inr (keyword, e) ↦
      let fit : KeywordFits a.name keyword = rw e at (fits.0) in
      rw e (
        Returns-bind P P (f a.name keyword s) (each_attribute f as') (keep a.name keyword s fit h)
          (λ s' h'. each_attribute-Returns P f keep as' fits.1 s' h'))
]

pub each_node-Returns :
    {A : Type 0} (P : A → Type 0) (blank : A) (f : Bytes → Bytes → A → Outcome A)
    → ((name keyword : Bytes) (a : A)
        → KeywordFits name keyword
        → P a
        → Returns P (f name keyword a))
    → P blank
    → (n : ℕ) (nodes : List Node) → All (λ node. All AttributeFits node) nodes
    → Returns (λ xs. (length xs ≤ n) × All P xs) (each_node n blank f nodes)
each_node-Returns P blank f keep b zero nodes h = ([], refl, (omega arith, tt))
each_node-Returns P blank f keep b (suc n) [] h = ([], refl, (omega arith, tt))
each_node-Returns P blank f keep b (suc n) (node ∷ nodes) h =
    let (a, e, p) = each_attribute-Returns P f keep node h.0 blank b in
    let (xs, e', (l, q)) = each_node-Returns P blank f keep b n nodes h.1 in
    (a ∷ xs, rw (e, e') refl, (omega arith, (p, q)))

pub first_node-Returns :
    {A : Type 0} (P : A → Type 0) (blank : A) (f : Bytes → Bytes → A → Outcome A)
    → ((name keyword : Bytes) (a : A)
        → KeywordFits name keyword
        → P a
        → Returns P (f name keyword a))
    → P blank
    → (nodes : List Node) → All (λ node. All AttributeFits node) nodes
    → Returns P (first_node blank f nodes)
first_node-Returns P blank f keep b [] h = (blank, refl, b)
first_node-Returns P blank f keep b (node ∷ nodes) h =
    each_attribute-Returns P f keep node h.0 blank b

pub nodes-cases :
    (nodes : List Node) → (nodes ≡ []) ⊎ ((x : Node) × (xs : List Node) × (nodes ≡ x ∷ xs))
nodes-cases [] = inl refl
nodes-cases (x ∷ xs) = inr (x, xs, refl)

pub or_fail-Returns :
    {A B : Type 0} (P : A → Type 0) (Q : B → Type 0) (r : Outcome (Option A))
    (f : A → Outcome (Option B))
    → Returns (MaybeAll P) r
    → ((a : A) → P a → Returns (MaybeAll Q) (f a))
    → Returns (MaybeAll Q) (or_fail r f)
or_fail-Returns P Q r f (none, e, h) k = rw e (none, refl, tt)
or_fail-Returns P Q r f (some a, e, h) k = rw e (k a h)
