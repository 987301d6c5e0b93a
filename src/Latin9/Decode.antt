-- ===== src/Latin9/Decode.antt =====
-- util.c, `utf8_to_latin9`: texts encoded in UTF-8, and any other bytes.
use multicat_supervisor.Base.{
  ℕ, zero, suc, ◌+◌, ◌*◌, ◌/◌, ◌%◌, ◌≤◌, ◌<◌, ◌≡◌, refl, Bool, true, false, ◌&&◌, Option, none,
  some, List, [], ◌∷◌, ◌++◌, arith, ltb, Bool-cases, lt_or_le, inl, inr, if◌then◌else◌, length,
  length-append, All, All-append, map, ◌==◌, ◌||◌, Bytes,
}
use multicat_supervisor.Latin9.{
  to_nul, to_latin9, is_continuation, continuations, recoded, sequence, emit, convert_loop,
  utf8_to_latin9,
}

-- What is behind a sequence is shorter than what it was in.
abbrev Shorter : ℕ → Option (Bool × ℕ × Bytes) → Type 0
Shorter n none = Unit
Shorter n (some (valid, c, rest)) = length rest ≤ n

longer : (n : ℕ) (r : Option (Bool × ℕ × Bytes)) → Shorter n r → Shorter (suc n) r
longer n none h = tt
longer n (some (valid, c, rest)) h = omega arith

continuations-Shorter :
    (n : ℕ) (valid : Bool) (code : ℕ) (bs : Bytes)
    → Shorter (length bs) (recoded (continuations n valid code bs))
unfolding continuations
continuations-Shorter zero valid code bs = omega arith
continuations-Shorter (suc n) valid code [] = tt
continuations-Shorter (suc n) valid code (b ∷ bs) =
    longer (length bs) _
      (continuations-Shorter n (valid && is_continuation b) (code * 64 + b % 64) bs)

either :
    (test : Bool) (n : ℕ) (r r' : Option (Bool × ℕ × Bytes))
    → Shorter n r
    → Shorter n r'
    → Shorter n (if test then r else r')
either true n r r' h k = h
either false n r r' h k = k

sequence-Shorter : (b : ℕ) (bs : Bytes) → Shorter (length bs) (sequence b bs)
unfolding sequence
sequence-Shorter b bs = either (ltb b 128) _ _ _ (omega arith) (
    either (ltb b 192) _ _ _ (omega arith) (
      either (ltb b 224) _ _ _ (continuations-Shorter 1 true (b % 32) bs) (
        either (ltb b 240) _ _ _ (continuations-Shorter 2 true (b % 16) bs) (
          either (ltb b 248) _ _ _ (continuations-Shorter 3 true (b % 8) bs) (
            either (ltb b 252) _ _ _ (continuations-Shorter 4 true (b % 4) bs) (
              either (ltb b 254) _ _ _ (continuations-Shorter 5 true (b % 2) bs) (omega arith)))))))

-- The tests, decided.
ltb_yes : (a b : ℕ) → a < b → ltb a b ≡ true
ltb_yes a b h = ground arith

ltb_no : (a b : ℕ) → b ≤ a → ltb a b ≡ false
ltb_no a b h = ground arith

continuation_byte : (n : ℕ) → is_continuation (128 + n % 64) ≡ true
continuation_byte n = ground arith

-- The text of a code point in UTF-8.
unfoldable pub utf8 : ℕ → Bytes
utf8 code =
    if ltb code 128
    then code ∷ []
    else if ltb code 2048
    then (192 + code / 64) ∷ (128 + code % 64) ∷ []
    else if ltb code 65536
    then (224 + code / 4096) ∷ (128 + code / 64 % 64) ∷ (128 + code % 64) ∷ []
    else (240 + code / 262144)
      ∷ (128 + code / 4096 % 64)
      ∷ (128 + code / 64 % 64)
      ∷ (128 + code % 64)
      ∷ []

abbrev pub utf8_text : List ℕ → Bytes
utf8_text [] = []
utf8_text (c ∷ cs) = utf8 c ++ utf8_text cs

-- What to_latin9 makes of code points, without those that it leaves out.
abbrev pub latin9_text : List ℕ → Bytes
latin9_text [] = []
latin9_text (c ∷ cs) = emit true (to_latin9 c) (latin9_text cs)

one_byte :
    (code : ℕ) (rest : Bytes) → code < 128 → sequence code rest ≡ some (true, to_latin9 code, rest)
unfolding sequence to_latin9
one_byte code rest h = rw (ltb_yes code 128 h, ltb_yes code 256 (omega arith)) refl

two_bytes :
    (code : ℕ) (rest : Bytes)
    → 128 ≤ code
    → code < 2048
    → sequence (192 + code / 64) ((128 + code % 64) ∷ rest) ≡ some (true, to_latin9 code, rest)
unfolding sequence continuations
two_bytes code rest l h =
    let e : (192 + code / 64) % 32 * 64 + (128 + code % 64) % 64 ≡ code = omega arith in
    rw
      (
        ltb_no (192 + code / 64) 128 (omega arith),
        ltb_no (192 + code / 64) 192 (omega arith),
        ltb_yes (192 + code / 64) 224 (omega arith),
        continuation_byte code,
        e,
      )
      refl

three_bytes :
    (code : ℕ) (rest : Bytes)
    → 2048 ≤ code
    → code < 65536
    → sequence (224 + code / 4096) ((128 + code / 64 % 64) ∷ (128 + code % 64) ∷ rest)
      ≡ some (true, to_latin9 code, rest)
unfolding sequence continuations
three_bytes code rest l h =
    let b = 224 + code / 4096 in
    let e : (b % 16 * 64 + (128 + code / 64 % 64) % 64) * 64 + (128 + code % 64) % 64 ≡ code =
      omega arith in
    rw
      (
        ltb_no b 128 (omega arith),
        ltb_no b 192 (omega arith),
        ltb_no b 224 (omega arith),
        ltb_yes b 240 (omega arith),
        continuation_byte (code / 64),
        continuation_byte code,
        e,
      )
      refl

four_bytes :
    (code : ℕ) (rest : Bytes)
    → 65536 ≤ code
    → code < 1114112
    → sequence
        (240 + code / 262144)
        ((128 + code / 4096 % 64) ∷ (128 + code / 64 % 64) ∷ (128 + code % 64) ∷ rest)
      ≡ some (true, to_latin9 code, rest)
unfolding sequence continuations
four_bytes code rest l h =
    let b = 240 + code / 262144 in
    let e : ((b % 8 * 64 + (128 + code / 4096 % 64) % 64) * 64 + (128 + code / 64 % 64) % 64) * 64
          + (128 + code % 64) % 64
        ≡ code =
      omega arith in
    rw
      (
        ltb_no b 128 (omega arith),
        ltb_no b 192 (omega arith),
        ltb_no b 224 (omega arith),
        ltb_no b 240 (omega arith),
        ltb_yes b 248 (omega arith),
        continuation_byte (code / 4096),
        continuation_byte (code / 64),
        continuation_byte code,
        e,
      )
      refl

loop-sequence :
    (fuel b c : ℕ) (bs rest out : Bytes)
    → sequence b bs ≡ some (true, c, rest)
    → convert_loop fuel rest ≡ some out
    → convert_loop (suc fuel) (b ∷ bs) ≡ some (emit true c out)
unfolding convert_loop
loop-sequence fuel b c bs rest out s e = rw (convert_loop, s, e) refl

-- With fuel for the bytes, the loop emits the character of the first code point.
loop-utf8 :
    (fuel code : ℕ) (rest out : Bytes)
    → code < 1114112
    → convert_loop fuel rest ≡ some out
    → convert_loop (suc fuel) (utf8 code ++ rest) ≡ some (emit true (to_latin9 code) out)
unfolding utf8
loop-utf8 fuel code rest out h e = elim (lt_or_le code 128) [
  | inl a ↦ rw (ltb_yes code 128 a) (loop-sequence fuel _ _ _ _ out (one_byte code rest a) e)
  | inr a ↦ elim (lt_or_le code 2048) [
    | inl b ↦
        rw (ltb_no code 128 a, ltb_yes code 2048 b)
          (loop-sequence fuel _ _ _ _ out (two_bytes code rest a b) e)
    | inr b ↦ elim (lt_or_le code 65536) [
      | inl c ↦
          rw (ltb_no code 128 a, ltb_no code 2048 b, ltb_yes code 65536 c)
            (loop-sequence fuel _ _ _ _ out (three_bytes code rest b c) e)
      | inr c ↦
          rw (ltb_no code 128 a, ltb_no code 2048 b, ltb_no code 65536 c)
            (loop-sequence fuel _ _ _ _ out (four_bytes code rest c h) e)
    ]
  ]
]

utf8-length : (code : ℕ) → 1 ≤ length (utf8 code)
unfolding utf8
utf8-length code = ground arith

text-loop :
    (cs : List ℕ) (fuel : ℕ)
    → All (λ c. c < 1114112) cs
    → length (utf8_text cs) ≤ fuel
    → convert_loop fuel (utf8_text cs) ≡ some (latin9_text cs)
unfolding convert_loop
text-loop [] zero h l = refl
text-loop [] (suc fuel) h l = refl
text-loop (c ∷ cs) zero h l =
    absurd (omega (arith, utf8-length c, length-append (utf8 c) (utf8_text cs)))
text-loop (c ∷ cs) (suc fuel) h l =
    loop-utf8 fuel c (utf8_text cs) (latin9_text cs) h.0
      (text-loop cs fuel h.1 (omega (arith, utf8-length c, length-append (utf8 c) (utf8_text cs))))

to_nul-no_nul : (bs : Bytes) → All (λ b. 0 < b) bs → to_nul bs ≡ bs
unfolding to_nul
to_nul-no_nul [] h = refl
to_nul-no_nul (b ∷ bs) h =
    let e : (b == 0) ≡ false = ground (arith, h.0) in rw (e, to_nul-no_nul bs h.1) refl

utf8_no_nul : (code : ℕ) → 0 < code → All (λ b. 0 < b) (utf8 code)
unfolding utf8
utf8_no_nul code h = ground arith

utf8_text_no_nul : (cs : List ℕ) → All (λ c. 0 < c) cs → All (λ b. 0 < b) (utf8_text cs)
utf8_text_no_nul [] h = tt
utf8_text_no_nul (c ∷ cs) h =
    All-append (λ b. 0 < b) (utf8 c) (utf8_text cs) (utf8_no_nul c h.0) (utf8_text_no_nul cs h.1)

-- The table of ISO-8859-15: the code point of a byte, which is the byte itself but for eight.
abbrev pub character : ℕ → ℕ
character b =
    if b == 0xA4
    then 0x20AC
    else if b == 0xA6
    then 0x160
    else if b == 0xA8
    then 0x161
    else if b == 0xB4
    then 0x17D
    else if b == 0xB8
    then 0x17E
    else if b == 0xBC
    then 0x152
    else if b == 0xBD
    then 0x153
    else if b == 0xBE
    then 0x178
    else b

-- The code points of Latin-1 that have no byte in ISO-8859-15.
abbrev pub is_replaced : ℕ → Bool
is_replaced c =
    c == 0xA4
    || c == 0xA6
    || c == 0xA8
    || c == 0xB4
    || c == 0xB8
    || c == 0xBC
    || c == 0xBD
    || c == 0xBE

-- Some byte has it.
abbrev pub has_byte : ℕ → Bool
has_byte c =
    ltb c 256
    || c == 0x20AC
    || c == 0x160
    || c == 0x161
    || c == 0x17D
    || c == 0x17E
    || c == 0x152
    || c == 0x153
    || c == 0x178

abbrev pub IsCode : ℕ → Type 0
IsCode c = (0 < c) × (c < 1114112) × (is_replaced c ≡ false)

abbrev pub with_bytes : List ℕ → List ℕ
with_bytes [] = []
with_bytes (c ∷ cs) = let rest = with_bytes cs in if has_byte c then c ∷ rest else rest

character-to_latin9 :
    (c : ℕ)
    → is_replaced c ≡ false
    → has_byte c ≡ true
    → (to_latin9 c < 256) × (character (to_latin9 c) ≡ c)
unfolding to_latin9
character-to_latin9 c h k = ground arith

no_byte : (c : ℕ) → has_byte c ≡ false → ltb (to_latin9 c) 256 ≡ false
unfolding to_latin9
no_byte c h = ground arith

map-latin9_text : (cs : List ℕ) → All IsCode cs → map character (latin9_text cs) ≡ with_bytes cs
map-latin9_text [] h = refl
map-latin9_text (c ∷ cs) (h, hs) = elim (Bool-cases (has_byte c)) [
  | inl e ↦
      let (l, k) = character-to_latin9 c h.2 e in
      rw (e, ltb_yes (to_latin9 c) 256 l) (rw (k, map-latin9_text cs hs) refl)
  | inr e ↦ rw (e, no_byte c e) (map-latin9_text cs hs)
]

positive_codes : (cs : List ℕ) → All IsCode cs → All (λ c. 0 < c) cs
positive_codes [] h = tt
positive_codes (c ∷ cs) (h, hs) = (h.0, positive_codes cs hs)

small_codes : (cs : List ℕ) → All IsCode cs → All (λ c. c < 1114112) cs
small_codes [] h = tt
small_codes (c ∷ cs) (h, hs) = (h.1, small_codes cs hs)

-- The UTF-8 of any code points, none of them 0 or one of the eight that ISO-8859-15 replaces (A4,
-- A6, A8, B4, B8, BC, BD, BE), is decoded without reading past its end, into bytes whose
-- characters, by the table of ISO-8859-15, are those of the code points that have a byte there,
-- in their order; the others are left out.
pub utf8_to_latin9-utf8_text :
    (cs : List ℕ)
    → All IsCode cs
    → (out : Bytes) × (utf8_to_latin9 (utf8_text cs) ≡ some out)
      × (map character out ≡ with_bytes cs)
unfolding utf8_to_latin9
utf8_to_latin9-utf8_text cs h =
    let codes : All (λ c. c < 1114112) cs = small_codes cs h in
    let no_nul : to_nul (utf8_text cs) ≡ utf8_text cs =
      to_nul-no_nul (utf8_text cs) (utf8_text_no_nul cs (positive_codes cs h)) in
    (
      latin9_text cs,
      rw no_nul (text-loop cs (length (utf8_text cs)) codes (omega arith)),
      map-latin9_text cs h,
    )

-- What the loop must return: bytes, no more than `n`.
abbrev pub FitsIn : ℕ → Option Bytes → Type 0
FitsIn n none = ⊥
FitsIn n (some out) = (length out ≤ n) × All (λ c. c < 256) out

emit-FitsIn :
    (valid : Bool) (c n : ℕ) (out : Option Bytes)
    → FitsIn n out
    → FitsIn (suc n) (elim out [ none ↦ none | some o ↦ some (emit valid c o) ])
emit-FitsIn valid c n none h = elim h [ ]
emit-FitsIn false c n (some o) (l, a) = (omega arith, a)
emit-FitsIn true c n (some o) (l, a) = elim (Bool-cases (ltb c 256)) [
  | inl e ↦ rw e (omega arith, (ground arith, a))
  | inr e ↦ rw e (omega arith, a)
]

FitsIn-le : (n k : ℕ) (out : Option Bytes) → n ≤ k → FitsIn n out → FitsIn k out
FitsIn-le n k none h f = elim f [ ]
FitsIn-le n k (some o) h (l, a) = (omega arith, a)

turn-FitsIn :
    (fuel b : ℕ) (bs : Bytes)
    → length (b ∷ bs) ≤ suc fuel
    → (r : Option (Bool × ℕ × Bytes)) → sequence b bs ≡ r
    → Shorter (length bs) r
    → ((rest : Bytes) → length rest ≤ fuel → FitsIn (length rest) (convert_loop fuel rest))
    → FitsIn (length (b ∷ bs)) (convert_loop (suc fuel) (b ∷ bs))
unfolding convert_loop
turn-FitsIn fuel b bs h none e s k = rw (convert_loop, e) (omega arith, tt)
turn-FitsIn fuel b bs h (some (valid, c, rest)) e s k =
    rw (convert_loop, e)
      (emit-FitsIn valid c (length bs) (convert_loop fuel rest)
        (FitsIn-le (length rest) (length bs) (convert_loop fuel rest) s (k rest (omega arith))))

loop-FitsIn : (fuel : ℕ) (bs : Bytes) → length bs ≤ fuel → FitsIn (length bs) (convert_loop fuel bs)
unfolding convert_loop
loop-FitsIn zero [] h = (omega arith, tt)
loop-FitsIn (suc fuel) [] h = (omega arith, tt)
loop-FitsIn zero (b ∷ bs) h = absurd (omega arith)
loop-FitsIn (suc fuel) (b ∷ bs) h =
    turn-FitsIn fuel b bs h (sequence b bs) refl (sequence-Shorter b bs)
      (λ rest l. loop-FitsIn fuel rest l)

to_nul-length : (bs : Bytes) → length (to_nul bs) ≤ length bs
unfolding to_nul
to_nul-length [] = omega arith
to_nul-length (b ∷ bs) = ground (arith, to_nul-length bs)

-- Of any text the loop comes to its end, and it writes bytes, no more than it read.
pub utf8_to_latin9-FitsIn : (input : Bytes) → FitsIn (length input) (utf8_to_latin9 input)
unfolding utf8_to_latin9
utf8_to_latin9-FitsIn input =
    FitsIn-le (length (to_nul input)) (length input)
      (convert_loop (length (to_nul input)) (to_nul input)) (to_nul-length input)
      (loop-FitsIn (length (to_nul input)) (to_nul input) (omega arith))
