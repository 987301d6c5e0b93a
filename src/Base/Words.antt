-- ===== src/Base/Words.antt =====
-- Byte strings, and the word sizes of C.
use Prim.Native.Nat.{ℕ, ◌+◌, ◌-◌, ◌%◌, ◌<◌}
use Prim.Native.Char.{code}
use mathlib.Core.Bool.{Bool, true, false, ◌&&◌}
use multicat_supervisor.Base.Tests.{◌==◌}
use Prim.Native.String.{String}
use mathlib.Core.List.{List, [], ◌∷◌}

abbrev pub Bytes : Type 0
Bytes = List ℕ

-- A literal text of the source as its bytes (all of them are ASCII).
abbrev pub codes : String → Bytes
codes String.[] = []
codes (String.◌∷◌ c s) = code c ∷ codes s

abbrev pub IsByte : ℕ → Type 0
IsByte b = b < 256

abbrev pub u64 : ℕ
u64 = 0x1_0000_0000_0000_0000

abbrev pub u32 : ℕ
u32 = 0x1_0000_0000

abbrev pub u16 : ℕ
u16 = 0x1_0000

-- `uint64_t` and `uint32_t` arithmetic. An `int64_t` is its bit pattern, negative from 2 ^ 63 on.
abbrev pub add64 : ℕ → ℕ → ℕ
add64 a b = (a + b) % u64

abbrev pub sub64 : ℕ → ℕ → ℕ
sub64 a b = (a + u64 - b) % u64

abbrev pub add32 : ℕ → ℕ → ℕ
add32 a b = (a + b) % u32

abbrev pub sub32 : ℕ → ℕ → ℕ
sub32 a b = (a + u32 - b) % u32

abbrev pub i64_min : ℕ
i64_min = 0x8000_0000_0000_0000

-- `strcmp(a,b) == 0`
unfoldable pub same_text : Bytes → Bytes → Bool
same_text [] [] = true
same_text [] (y ∷ ys) = false
same_text (x ∷ xs) [] = false
same_text (x ∷ xs) (y ∷ ys) = let rest = same_text xs ys in x == y && rest
