-- ===== src/Socket/Node.antt =====
-- util.c, `ParseNodeService` on the text of a host and a port.
use multicat_supervisor.Base.{
  ℕ, zero, suc, ◌+◌, ◌*◌, ◌/◌, ◌%◌, ◌^◌, ◌<◌, ◌≡◌, ◌⊎◌, refl, ap, ◌∙◌, inl, inr, true, false,
  Bool-cases, ◌&&◌, ◌||◌, none, some, [], ◌∷◌, ◌++◌, ◌==◌, ltb, leb, All, Bytes, arith,
}
use multicat_supervisor.Io.{ok}
use multicat_supervisor.AuxFile.{decimal, decimal_onto}
use multicat_supervisor.AuxFile.Names.{IsDigit, decimal-IsNumber}
use multicat_supervisor.Ini.{trim_start, is_space}
use multicat_supervisor.Eit.Numbers.{atoi, signed, scan, digit}
use multicat_supervisor.Socket.{
  inet, System, resolve, is_end, split_host, split_port, found_host, parse_node_service,
}

-- A number of at most so many digits
abbrev Below : ℕ → ℕ → Type 0
Below zero n = ⊥
Below (suc f) n = (n < 10) ⊎ Below f (n / 10)

digit_lem : (d : ℕ) → d < 10 → digit 10 (d + b'0') ≡ some d
unfolding digit
digit_lem d h = ground arith

scan_digit :
    (acc d : ℕ) (rest : Bytes)
    → d < 10
    → scan 10 acc ((d + b'0') ∷ rest) ≡ scan 10 (acc * 10 + d) rest
unfolding scan
scan_digit acc d rest h = let e : digit 10 (d + b'0') ≡ some d = digit_lem d h in rw (e, scan) refl

scan-decimal_onto :
    (fuel n : ℕ) (rest : Bytes)
    → Below fuel n
    → scan 10 0 (decimal_onto fuel n rest) ≡ scan 10 n rest
unfolding decimal_onto
scan-decimal_onto zero n rest h = elim h [ ]
scan-decimal_onto (suc fuel) n rest h = elim (Bool-cases (ltb n 10)) [
  | inl small ↦ rw small (
      let lt : n < 10 = ground arith in
      scan_digit 0 n rest lt ∙ ap (λ k. scan 10 k rest) (omega arith))
  | inr large ↦ rw large (elim h [
    | inl lt ↦ absurd (ground arith)
    | inr below ↦
        scan-decimal_onto fuel (n / 10) ((n % 10 + b'0') ∷ rest) below
        ∙ scan_digit (n / 10) (n % 10) rest (omega arith)
        ∙ ap (λ k. scan 10 k rest) (omega arith)
  ])
]

signed_digits :
    (values : ℕ) (number : Bytes → ℕ) (c : ℕ) (cs : Bytes)
    → IsDigit c
    → signed values number (c ∷ cs) ≡ number (c ∷ cs) % values
unfolding signed trim_start is_space
signed_digits values number c cs h =
    let space : (c == 32 || leb 9 c && leb c 13) ≡ false = ground arith in
    let minus : (c == b'-') ≡ false = ground arith in
    let plus : (c == b'+') ≡ false = ground arith in ground arith

atoi-decimal : (n : ℕ) → n < 65536 → atoi (2 ^ 16) (decimal n) ≡ n
unfolding decimal scan
atoi-decimal n h =
    let d = decimal-IsNumber n in
    let below : Below 20 n = inr (inr (inr (inr (inl (omega arith))))) in
    let value : scan 10 0 (decimal n) ≡ n = scan-decimal_onto 20 n [] below in
    let e : signed (2 ^ 16) (scan 10 0) (decimal n) ≡ scan 10 0 (decimal n) % 2 ^ 16 =
      rw d.splits (signed_digits (2 ^ 16) (scan 10 0) d.first d.others d.digits.0) in
    e ∙ ap (λ k. k % 2 ^ 16) value ∙ omega arith

-- No byte ends the text.
abbrev pub Plain : Bytes → Type 0
Plain = All (λ c. is_end c ≡ false)

-- What may stand behind a port.
abbrev pub IsBehind : Bytes → Type 0
IsBehind [] = Unit {0}
IsBehind (c ∷ cs) = is_end c ≡ true

split_host-Plain : (xs ys : Bytes) → Plain xs → IsBehind ys → split_host (xs ++ ys) ≡ (xs, ys)
unfolding split_host
split_host-Plain [] [] h k = refl
split_host-Plain [] (y ∷ ys) h k = rw k refl
split_host-Plain (x ∷ xs) ys h k = rw (h.0, split_host-Plain xs ys h.1 k) refl

IsDigit-Plain : (xs : Bytes) → All IsDigit xs → Plain xs
IsDigit-Plain [] h = tt
IsDigit-Plain (x ∷ xs) h = (ground arith, IsDigit-Plain xs h.1)

decimal-Plain : (n : ℕ) → Plain (decimal n)
decimal-Plain n =
    let d = decimal-IsNumber n in rw d.splits (IsDigit-Plain (d.first ∷ d.others) d.digits)

given_port :
    (sys : System) (a default c d : ℕ) (cs ds rest : Bytes)
    → System.inet_aton sys (c ∷ cs) ≡ some a
    → found_host sys default false (c ∷ cs) none (some (d ∷ ds), rest)
      ≡ some (record { address = inet a (atoi (2 ^ 16) (d ∷ ds)); after = rest; if_index = none })
given_port sys a zero c d cs ds rest known = rw (known, found_host, resolve) refl
given_port sys a (suc n) c d cs ds rest known = rw (known, found_host, resolve) refl

module _ (sys : System) (a default port : ℕ) (c : ℕ) (cs rest : Bytes) where
  known_host :
      System.inet_aton sys (c ∷ cs) ≡ some a
      → port < 65536
      → found_host sys default false (c ∷ cs) none (some (decimal port), rest)
        ≡ some (record { address = inet a port; after = rest; if_index = none })
  known_host known h =
      let d = decimal-IsNumber port in
      let e : found_host sys default false (c ∷ cs) none (some (decimal port), rest)
          ≡ some (record {
            address = inet a (atoi (2 ^ 16) (decimal port));
            after = rest;
            if_index = none;
          }) =
        rw d.splits (given_port sys a default c d.first cs d.others rest known) in
      e
      ∙ ap (λ n. some (record { address = inet a n; after = rest; if_index = none }))
          (atoi-decimal port h)

  split_port-decimal :
      IsBehind rest → split_port (b':' ∷ (decimal port ++ rest)) ≡ (some (decimal port), rest)
  unfolding split_port
  split_port-decimal h = rw (split_host-Plain (decimal port) rest (decimal-Plain port) h) refl

  -- A host that the system knows as an address, not in brackets and without the bytes @ : , /,
  -- followed by a colon and a port below 65536 as sprintf prints it, is read by ParseNodeService
  -- as that address and that port, whatever the default port, and what follows from one of these
  -- bytes on is left to the caller.
  pub parse_node_service-decimal :
      System.inet_aton sys (c ∷ cs) ≡ some a
      → Plain (c ∷ cs)
      → (c == b'[') ≡ false
      → port < 65536
      → IsBehind rest
      → parse_node_service sys default ((c ∷ cs) ++ (b':' ∷ (decimal port ++ rest)))
        ≡ ok (some (record { address = inet a port; after = rest; if_index = none }))
  unfolding parse_node_service
  parse_node_service-decimal known plain no_bracket h behind =
      rw
        (
          split_host-Plain (c ∷ cs) (b':' ∷ (decimal port ++ rest)) plain refl,
          no_bracket,
          split_port-decimal behind,
        )
        (ap (λ x. ok x) (known_host known h))
