-- ===== src/Socket.antt =====
-- util.c, `OpenSocket`: a socket out of an argument such as 239.1.2.3:5004@0.0.0.0:5004/ttl=3,2.
-- What the system knows of names, addresses and interfaces is a record of functions.
pub mod Options
pub mod Opening
pub mod Accepted
pub mod Node
use multicat_supervisor.Base.{
  ℕ, zero, suc, ◌+◌, ◌/◌, ◌%◌, ◌^◌, Bool, true, false, not, ◌&&◌, ◌||◌, Option, none, some, List,
  [], ◌∷◌, ◌++◌, ltb, ◌==◌, if◌then◌else◌, Bytes, codes,
}
use multicat_supervisor.Io.{Outcome, ok, exit_failure, undefined, ◌>>=◌}
use multicat_supervisor.AuxFile.{decimal}
use multicat_supervisor.Eit.Numbers.{atoi}

-- `sockaddr_t` with its family: an address in the order of the host, and a port.
pub data Address : Type 0 where
  inet inet6 : ℕ → ℕ → Address

pub record System : Type 0 where
  pub inet_aton : Bytes → Option ℕ
  pub inet_addr : Bytes → ℕ
  pub getaddrinfo : Bool → Bytes → Option Bytes → Option Address
  pub interface_index : Bytes → Option ℕ

-- `strchr`: the texts in front of a byte and behind it.
unfoldable pub split_at_byte : ℕ → Bytes → Option (Bytes × Bytes)
split_at_byte b [] = none
split_at_byte b (c ∷ cs) =
    let rest = split_at_byte b cs in
    if c == b then some ([], cs) else (elim rest [ none ↦ none | some (x, y) ↦ some (c ∷ x, y) ])

-- `strrchr`
unfoldable pub split_at_last : ℕ → Bytes → Option (Bytes × Bytes)
split_at_last b [] = none
split_at_last b (c ∷ cs) = elim (split_at_last b cs) [
  | some (x, y) ↦ some (c ∷ x, y)
  | none ↦ if c == b then some ([], cs) else none
]

-- `strpbrk` for the bytes that end a host or a port: the text in front, and from there on.
abbrev pub is_end : ℕ → Bool
is_end c = c == b'@' || c == b':' || c == b',' || c == b'/'

unfoldable pub split_host : Bytes → Bytes × Bytes
split_host [] = ([], [])
split_host (c ∷ cs) = let (x, y) = split_host cs in if is_end c then ([], c ∷ cs) else (c ∷ x, y)

-- The port behind a colon, and what follows.
unfoldable pub split_port : Bytes → Option Bytes × Bytes
unfolding split_host
split_port [] = (none, [])
split_port (c ∷ cs) =
    let (port, rest) = split_host cs in if c == b':' then (some port, rest) else (none, c ∷ cs)

abbrev pub port_or_default : ℕ → Option Bytes → Option Bytes
port_or_default zero port = port
port_or_default (suc n) none = some (decimal (suc n))
port_or_default (suc n) (some []) = some (decimal (suc n))
port_or_default (suc n) (some (c ∷ cs)) = some (c ∷ cs)

abbrev pub node_or_any : Bytes → Bytes
node_or_any [] = codes "0.0.0.0"
node_or_any (c ∷ cs) = c ∷ cs

abbrev pub port_number : Option Bytes → ℕ
port_number none = 0
port_number (some text) = atoi (2 ^ 16) text

-- The address of a host and a port, what stands behind them, and the interface if one is named.
pub record Host : Type 0 where
  pub address : Address
  pub after : Bytes
  pub if_index : Option ℕ

module _ (sys : System) where
  open sys use {inet_aton, getaddrinfo, interface_index}

  abbrev pub resolve : Bool → Bytes → Option Bytes → Option Address
  resolve true node port = getaddrinfo true node port
  resolve false node port = elim (inet_aton node) [
    | some a ↦ some (inet a (port_number port))
    | none ↦ getaddrinfo false node port
  ]

  abbrev pub found_host : ℕ → Bool → Bytes → Option ℕ → Option Bytes × Bytes → Option Host
  found_host default v6 node if_index (port, behind) =
      elim (resolve v6 (node_or_any node) (port_or_default default port)) [
        | none ↦ none
        | some a ↦ some (record { address = a; after = behind; if_index = if_index })
      ]

  -- An address in brackets, which may name an interface.
  unfoldable pub parse_brackets : ℕ → Bytes → Outcome (Option Host)
  unfolding split_at_byte split_at_last split_port
  parse_brackets default text = elim (split_at_byte b']' text) [
    | none ↦ ok none
    | some (inside, behind) ↦ elim (split_at_last b'%' inside) [
      | none ↦ ok (found_host default true inside none (split_port behind))
      | some (node, interface) ↦ elim (interface_index interface) [
        | none ↦ exit_failure
        | some i ↦ ok (found_host default true node (some i) (split_port behind))
      ]
    ]
  ]

  -- `ParseNodeService`; `none` is NULL.
  unfoldable pub parse_node_service : ℕ → Bytes → Outcome (Option Host)
  unfolding parse_brackets split_host split_port
  parse_node_service default [] = ok (found_host default false [] none (none, []))
  parse_node_service default (c ∷ cs) =
      let (node, behind) = split_host (c ∷ cs) in
      if c == b'['
      then parse_brackets default cs
      else ok (found_host default false node none (split_port behind))
