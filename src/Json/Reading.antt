-- ===== src/Json/Reading.antt =====
-- json_parsing.c: the reading of a value, and the loops over members and elements. `none` is NULL, or
-- -1, where a value has the wrong type.
use multicat_supervisor.Base.{
  ℕ, zero, suc, ◌+◌, ◌-◌, ◌%◌, ◌^◌, Bool, true, false, ◌&&◌, ◌||◌, Option, none, some, List, [],
  ◌∷◌, ◌==◌, leb, if◌then◌else◌, take, Bytes,
}
use multicat_supervisor.Ini.{trim_start}
use multicat_supervisor.Eit.{InfoSection, ComponentDesc, ContentDesc}
use multicat_supervisor.Eit.Numbers.{convert_str, digit, scan}
use multicat_supervisor.Eit.Loading.{blank_component, component_at}
use multicat_supervisor.Json.{Kind, int, object, array, string, JsonC}

infixl 5 ◌>>=◌
abbrev pub ◌>>=◌ {ℓ κ} : {A : Type ℓ} {B : Type κ} → Option A → (A → Option B) → Option B
none >>= f = none
some a >>= f = f a

-- An entry of an array that `memset` has cleared, of which the list holds those in front.
abbrev pub entry_at {ℓ} : {A : Type ℓ} → A → ℕ → List A → A
entry_at blank n [] = blank
entry_at blank zero (x ∷ xs) = x
entry_at blank (suc n) (x ∷ xs) = entry_at blank n xs

abbrev pub put_at {ℓ} : {A : Type ℓ} → A → ℕ → A → List A → List A
put_at blank zero a [] = a ∷ []
put_at blank (suc n) a [] = blank ∷ put_at blank n a []
put_at blank zero a (x ∷ xs) = a ∷ xs
put_at blank (suc n) a (x ∷ xs) = x ∷ put_at blank n a xs

abbrev pub blank_content : ContentDesc
blank_content = record { level_1 = 0; level_2 = 0; user = 0 }

abbrev pub blank_section : InfoSection
blank_section = record {
  starttime = 0;
  duration = 0;
  short_event_desc = record { event_name = []; event_text = []; event_lang = [] };
  ext_event_desc = record { text = []; lang = []; items = [] };
  stereo = blank_component;
  audio = blank_component;
  subtitle = blank_component;
  parent_rating_desc = record { country_code = []; age = 0 };
  content_desc = [];
  ca_identifier_desc = [];
  sb_leak_rate = 0;
}

-- `component_desc[i]`
abbrev pub component : ℕ → InfoSection → ComponentDesc
component i s = component_at i (s.stereo ∷ s.audio ∷ s.subtitle ∷ [])

abbrev pub set_component : ℕ → ComponentDesc → InfoSection → InfoSection
set_component zero c s = record s { stereo = c }
set_component (suc zero) c s = record s { audio = c }
set_component (suc (suc n)) c s = record s { subtitle = c }

-- The number that `sscanf` reads by `%x`; `none` leaves the variable as it is.
abbrev pub hex_digits : Bytes → Option ℕ
hex_digits [] = none
hex_digits (c ∷ cs) = elim (digit 16 c) [
  | none ↦ none
  | some d ↦ some (scan 16 0 (c ∷ cs) % 2 ^ 32)
]

abbrev pub hex_unsigned : Bytes → Option ℕ
hex_unsigned [] = none
hex_unsigned (c ∷ []) = hex_digits (c ∷ [])
hex_unsigned (c ∷ d ∷ cs) =
    if c == b'0' && (d == b'x' || d == b'X') then hex_digits cs else hex_digits (c ∷ d ∷ cs)

unfoldable pub read_hex : ℕ → Bytes → ℕ
unfolding scan digit trim_start
read_hex old text = elim (trim_start text) [
  | [] ↦ old
  | c ∷ cs ↦
      if c == b'-'
      then (elim (hex_unsigned cs) [ none ↦ old | some n ↦ (2 ^ 32 - n) % 2 ^ 32 ])
      else (elim (hex_unsigned (if c == b'+' then cs else c ∷ cs)) [ none ↦ old | some n ↦ n ])
]

-- `isNumber`, which an empty text is too
unfoldable pub is_number : Bytes → Bool
is_number [] = true
is_number (c ∷ cs) = let rest = is_number cs in leb b'0' c && leb c b'9' && rest

-- `type == json_type_string`, and so for the other types that are asked for.
abbrev pub expected : Kind → Kind → Bool
expected string string = true
expected int int = true
expected object object = true
expected array array = true
expected _ _ = false

-- The cases of `switch(type)`: a text or an integer.
abbrev pub text_or_int : Kind → ℕ → ℕ → Option ℕ
text_or_int string text number = some text
text_or_int int text number = some number
text_or_int _ text number = none

module _ (j : JsonC) where
  open j use {Value, get_type, elements, members, get_string, get_int, get_int64}

  -- `json_object_object_foreach`, which a member of the wrong type ends
  abbrev pub each_member {ℓ} :
      {S : Type ℓ} → (Bytes → Value → S → Option S) → List (Bytes × Value) → S → Option S
  each_member f [] s = some s
  each_member f ((key, v) ∷ ms) s = f key v s >>= each_member f ms

  -- The loop over the elements with their places, at most so many.
  abbrev pub each_element {ℓ} :
      {S : Type ℓ} → (ℕ → Value → S → Option S) → ℕ → ℕ → List Value → S → Option S
  each_element f zero i vs s = some s
  each_element f (suc n) i [] s = some s
  each_element f (suc n) i (v ∷ vs) s = f i v s >>= each_element f n (i + 1) vs

  abbrev pub only : Kind → Value → Option Value
  only kind v = if expected kind (get_type v) then some v else none

  -- A text for a field of that length.
  unfoldable pub text_of : ℕ → Value → Option Bytes
  text_of size v = only string v >>= λ w. some (take size (get_string w))

  unfoldable pub byte_of : Value → Option ℕ
  byte_of v = only int v >>= λ w. some (get_int w % 256)

  unfoldable pub byte_or_text : Value → Option ℕ
  byte_or_text v =
      text_or_int (get_type v) (convert_str 256 (some (get_string v))) (get_int v % 256)

  unfoldable pub int_or_hex : ℕ → Value → Option ℕ
  int_or_hex old v = text_or_int (get_type v) (read_hex old (get_string v)) (get_int v)
