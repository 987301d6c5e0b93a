-- ===== src/Latin9.antt =====
-- util.c and util.h, `utf8_to_latin9` and `to_latin9`: a text in UTF-8 is rewritten in place as
-- ISO-8859-15. The output never passes the input, so the bytes still to be read are as they were,
-- and the text before and after are two lists.
pub mod Decode
use multicat_supervisor.Base.{
  ℕ, zero, suc, ◌+◌, ◌*◌, ◌/◌, ◌%◌, Bool, true, false, ◌&&◌, Option, none, some, List, [], ◌∷◌, ltb,
  ◌==◌, if◌then◌else◌, length, Bytes,
}

-- `to_latin9`, where 256 stands for no character.
unfoldable pub to_latin9 : ℕ → ℕ
to_latin9 code =
    if ltb code 256
    then code
    else if code == 338
    then 188
    else if code == 339
    then 189
    else if code == 352
    then 166
    else if code == 353
    then 168
    else if code == 376
    then 190
    else if code == 381
    then 180
    else if code == 382
    then 184
    else if code == 8364
    then 164
    else 256

-- `(b & 192U) == 128U`
abbrev pub is_continuation : ℕ → Bool
is_continuation b = b / 64 % 4 == 2

-- The bytes of a sequence after the first, `n` of them: whether all are continuations, the code
-- point, and what follows. `none` is the end of the text before that.
unfoldable pub continuations : ℕ → Bool → ℕ → Bytes → Option (Bool × ℕ × Bytes)
continuations zero valid code rest = some (valid, code, rest)
continuations (suc n) valid code [] = none
continuations (suc n) valid code (b ∷ bs) =
    continuations n (valid && is_continuation b) (code * 64 + b % 64) bs

abbrev pub recoded : Option (Bool × ℕ × Bytes) → Option (Bool × ℕ × Bytes)
recoded none = none
recoded (some (valid, code, rest)) = some (valid, to_latin9 code, rest)

-- One turn of the loop of `utf8_to_latin9`: whether the sequence is valid, its character, and the
-- text behind it. `none` is the `break` at an incomplete sequence.
unfoldable pub sequence : ℕ → Bytes → Option (Bool × ℕ × Bytes)
sequence b bs =
    if ltb b 128
    then some (true, b, bs)
    else if ltb b 192
    then some (false, 0, bs)
    else if ltb b 224
    then recoded (continuations 1 true (b % 32) bs)
    else if ltb b 240
    then recoded (continuations 2 true (b % 16) bs)
    else if ltb b 248
    then recoded (continuations 3 true (b % 8) bs)
    else if ltb b 252
    then recoded (continuations 4 true (b % 4) bs)
    else if ltb b 254
    then recoded (continuations 5 true (b % 2) bs)
    else some (false, 0, bs)

abbrev pub emit : Bool → ℕ → Bytes → Bytes
emit valid c rest = if valid && ltb c 256 then c ∷ rest else rest

-- The loop of `utf8_to_latin9`; the outer `none` is fuel that has run out.
unfoldable pub convert_loop : ℕ → Bytes → Option Bytes
convert_loop fuel [] = some []
convert_loop zero (b ∷ bs) = none
convert_loop (suc fuel) (b ∷ bs) = elim (sequence b bs) [
  | none ↦ some []
  | some (valid, c, rest) ↦ elim (convert_loop fuel rest) [
    | none ↦ none
    | some out ↦ some (emit valid c out)
  ]
]

-- `strlen`: the text up to its NUL.
unfoldable pub to_nul : Bytes → Bytes
to_nul [] = []
to_nul (b ∷ bs) = let rest = to_nul bs in if b == 0 then [] else b ∷ rest

-- `utf8_to_latin9`: every turn takes at least one byte.
unfoldable pub utf8_to_latin9 : Bytes → Option Bytes
unfolding to_nul convert_loop
utf8_to_latin9 input = let text = to_nul input in convert_loop (length text) text
