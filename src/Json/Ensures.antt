-- ===== src/Json/Ensures.antt =====
-- json_parsing.c: what holds of a result of a parser, through its loops.
use multicat_supervisor.Base.{
  ℕ, zero, suc, ◌+◌, ◌≤◌, ◌<◌, ◌≡◌, Bool, true, false, Option, none, some, List, [], ◌∷◌, arith,
  if◌then◌else◌, length, take, Bytes,
}
use multicat_supervisor.Eit.Fields.{length-take}
use multicat_supervisor.Json.{string, JsonC}
use multicat_supervisor.Json.Reading.{each_member, each_element, only, text_of, ◌>>=◌}

-- Whatever there is has the property.
pub data Ensures {A : Type 0} (P : A → Type 0) : Option A → Type 0 where
  nothing : Ensures P none
  just : {a : A} → P a → Ensures P (some a)

module _ {A : Type 0} {P : A → Type 0} where
  pub Ensures-if :
      (b : Bool) {x y : Option A} → Ensures P x → Ensures P y → Ensures P (if b then x else y)
  Ensures-if true h k = h
  Ensures-if false h k = k

  pub Ensures-bind :
      {B : Type 0} {Q : B → Type 0} {m : Option B} (f : B → Option A)
      → Ensures Q m
      → ((b : B) → Q b → Ensures P (f b))
      → Ensures P (m >>= f)
  Ensures-bind f nothing k = nothing
  Ensures-bind f (just h) k = k _ h

  pub Ensures-any :
      {B : Type 0} (m : Option B) (f : B → Option A)
      → ((b : B) → Ensures P (f b))
      → Ensures P (m >>= f)
  Ensures-any none f k = nothing
  Ensures-any (some b) f k = k b

module _ (j : JsonC) where
  open j use {Value, get_string, members, elements}

  pub each_member-Ensures :
      {S : Type 0} (P : S → Type 0) (f : Bytes → Value → S → Option S)
      → ((key : Bytes) (v : Value) (s : S) → P s → Ensures P (f key v s))
      → (ms : List (Bytes × Value)) (s : S) → P s
      → Ensures P (each_member j f ms s)
  each_member-Ensures P f keep [] s h = just h
  each_member-Ensures P f keep ((key, v) ∷ ms) s h =
      Ensures-bind (each_member j f ms) (keep key v s h)
        (λ s' h'. each_member-Ensures P f keep ms s' h')

  pub each_element-Ensures :
      {S : Type 0} (P : S → Type 0) (f : ℕ → Value → S → Option S) (m : ℕ)
      → ((i : ℕ) (v : Value) (s : S) → i < m → P s → Ensures P (f i v s))
      → (n i : ℕ) (vs : List Value) (s : S) → n + i ≡ m
      → P s
      → Ensures P (each_element j f n i vs s)
  each_element-Ensures P f m keep zero i vs s e h = just h
  each_element-Ensures P f m keep (suc n) i [] s e h = just h
  each_element-Ensures P f m keep (suc n) i (v ∷ vs) s e h =
      Ensures-bind (each_element j f n (i + 1) vs) (keep i v s (omega arith) h)
        (λ s' h'. each_element-Ensures P f m keep n (i + 1) vs s' (omega arith) h')

  pub text_of-Ensures : (n : ℕ) (v : Value) → Ensures (λ t. length t ≤ n) (text_of j n v)
  unfolding text_of
  text_of-Ensures n v =
      Ensures-any (only j string v) (λ w. some (take n (get_string w)))
        (λ w. just (length-take n (get_string w)))

  pub Ensures-text :
      {A : Type 0} {P : A → Type 0} (n : ℕ) (v : Value) (f : Bytes → Option A)
      → ((t : Bytes) → length t ≤ n → Ensures P (f t))
      → Ensures P (text_of j n v >>= f)
  Ensures-text n v f k = Ensures-bind f (text_of-Ensures n v) k

pub of_Ensures :
    {A : Type 0} {P : A → Type 0} {o : Option A} (a : A) → Ensures P o → o ≡ some a → P a
of_Ensures a nothing e = absurd cc
of_Ensures {P} a (just {a = b} h) e = let at : b ≡ a = cc in rw (← at) h
