-- ===== src/Eit/Numbers.antt =====
-- util.c, `convertStrToInt` and `convertStrToLong`, and what they use of `strtol`, `atoi` and `strstr`.
-- Numbers beyond those of a `long` are not told apart from what they are modulo its size.
use multicat_supervisor.Base.{
  ℕ, ◌+◌, ◌-◌, ◌*◌, ◌%◌, Bool, false, ◌&&◌, ◌||◌, Option, none, some, [], ◌∷◌, ltb, leb, ◌==◌,
  if◌then◌else◌, Bytes,
}
use multicat_supervisor.Ini.{trim_start}

-- The value of a digit, if it is one of the base.
unfoldable pub digit : ℕ → ℕ → Option ℕ
digit base c =
    let d =
      if leb b'0' c && leb c b'9'
      then c - b'0'
      else if leb b'a' c && leb c b'z'
      then c - 87
      else if leb b'A' c && leb c b'Z'
      then c - 55
      else base in
    if ltb d base then some d else none

-- The digits up to the first byte that is none.
unfoldable pub scan : ℕ → ℕ → Bytes → ℕ
unfolding digit
scan base n [] = n
scan base n (c ∷ cs) = elim (digit base c) [ none ↦ n | some d ↦ scan base (n * base + d) cs ]

-- The base that `strtol` finds for base 0.
unfoldable pub scan_any : Bytes → ℕ
unfolding scan
scan_any [] = 0
scan_any (c ∷ []) = scan 10 0 (c ∷ [])
scan_any (c ∷ d ∷ cs) =
    if c == b'0' && (d == b'x' || d == b'X')
    then scan 16 0 cs
    else if c == b'0'
    then scan 8 0 (d ∷ cs)
    else scan 10 0 (c ∷ d ∷ cs)

-- A number of that many values behind spaces and a sign.
unfoldable pub signed : ℕ → (Bytes → ℕ) → Bytes → ℕ
signed values number s = elim (trim_start s) [
  | [] ↦ 0
  | c ∷ cs ↦
      if c == b'-'
      then (values - number cs % values) % values
      else if c == b'+'
      then number cs % values
      else number (c ∷ cs) % values
]

-- `atoi` and `atol`, in an unsigned integer of so many values
abbrev pub atoi : ℕ → Bytes → ℕ
atoi values = signed values (scan 10 0)

-- `strstr(str,"0x") != NULL`
unfoldable pub has_hex : Bytes → Bool
has_hex [] = false
has_hex (c ∷ []) = false
has_hex (c ∷ d ∷ cs) = let rest = has_hex (d ∷ cs) in c == b'0' && d == b'x' || rest

-- `convertStrToInt` (256 values) and `convertStrToLong` (65536 values)
unfoldable pub convert_str : ℕ → Option Bytes → ℕ
unfolding has_hex signed scan_any scan
convert_str values none = 0
convert_str values (some s) = if has_hex s then signed values scan_any s else atoi values s
