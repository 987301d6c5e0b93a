-- ===== src/Socket/Opening.antt =====
-- util.c, `OpenSocket`: the calls of the system that open and set up a socket, as a trace, the latest
-- first. `accepts` says whether a call ends well, which may depend on all that were made, and
-- `interruptions` how often a signal breaks off the accept; they are taken to be finitely many.
use multicat_supervisor.Base.{
  ℕ, zero, suc, ◌+◌, ◌/◌, ◌^◌, ◌%◌, Bool, true, false, not, ◌&&◌, Option, none, some, List, [], ◌∷◌,
  ◌==◌, if◌then◌else◌, Bytes,
}
use multicat_supervisor.Io.{Outcome, ok, exit_failure, ◌>>=◌}
use multicat_supervisor.Socket.{Address, inet, inet6, System}
use multicat_supervisor.Socket.Options.{Spec, parse_argument}

pub data Family : Type 0 where
  af_inet af_inet6 : Family

pub data SocketType : Type 0 where
  stream datagram raw : SocketType

pub data Call : Type 0 where
  socket : Family → SocketType → Call
  bind connect : Address → Call
  reuse_addr receive_buffer listen interrupted_accept accept close : Call
  multicast_if multicast_ttl multicast_hops type_of_service : ℕ → Call
  join6 : Address → ℕ → Call
  join_source : Address → ℕ → Address → Call
  join_index : Address → ℕ → ℕ → Call
  join : Address → ℕ → Call
  bind_to_device : Bytes → Call

abbrev pub family_of : Address → Family
family_of (inet a port) = af_inet
family_of (inet6 a port) = af_inet6

abbrev pub same_family : Family → Family → Bool
same_family af_inet af_inet = true
same_family af_inet6 af_inet6 = true
same_family _ _ = false

-- `IN_MULTICAST` and `IN6_IS_ADDR_MULTICAST` of an address of that family
abbrev pub in_multicast : Address → Bool
in_multicast (inet a port) = a / 2 ^ 28 == 14
in_multicast (inet6 a port) = false

abbrev pub in6_multicast : Address → Bool
in6_multicast (inet a port) = false
in6_multicast (inet6 a port) = a / 2 ^ 120 == 255

-- The wildcard address with the port.
abbrev pub any_address : Address → Address
any_address (inet a port) = inet 0 port
any_address (inet6 a port) = inet6 0 port

-- The sanity checks: the family, and the index of the interface for both addresses.
unfoldable pub common_family : Option Address → Option Address → Outcome Family
common_family none none = exit_failure
common_family (some b) none = ok (family_of b)
common_family none (some c) = ok (family_of c)
common_family (some b) (some c) =
    if same_family (family_of b) (family_of c) then ok (family_of b) else exit_failure

unfoldable pub common_index : ℕ → ℕ → Outcome ℕ
common_index zero c = ok c
common_index (suc b) zero = ok (suc b)
common_index (suc b) (suc c) = if b == c then ok (suc b) else exit_failure

-- The headers of `RawFillHeaders` that depend on the arguments; the others are constant.
pub record RawHeader : Type 0 where
  pub tos : ℕ
  pub tot_len : ℕ
  pub ttl : ℕ
  pub saddr : ℕ
  pub daddr : ℕ
  pub source : ℕ
  pub dest : ℕ
  pub len : ℕ

unfoldable pub raw_fill_headers : ℕ → ℕ → ℕ → ℕ → ℕ → ℕ → ℕ → RawHeader
raw_fill_headers ipsrc ipdst portsrc portdst ttl tos len = record {
  tos = tos % 256;
  tot_len = (28 + len) % 2 ^ 16;
  ttl = ttl % 256;
  saddr = ipsrc;
  daddr = ipdst;
  source = portsrc % 2 ^ 16;
  dest = portdst % 2 ^ 16;
  len = (8 + len) % 2 ^ 16;
}

-- The header of a socket for raw packets; only IPv4 addresses are meant here.
abbrev pub raw_header : Spec → Address → RawHeader
raw_header s (inet a port) = raw_fill_headers s.raw_src_addr a s.raw_src_port port s.ttl s.tos 0
raw_header s (inet6 a port) = raw_fill_headers s.raw_src_addr 0 s.raw_src_port port s.ttl s.tos 0

abbrev pub type_of : Bool → Bool → SocketType
type_of true tcp = raw
type_of false true = stream
type_of false false = datagram

-- The membership of a group, of one source or on an interface.
abbrev pub membership : Address → Spec → ℕ → Call
membership group s index = elim s.connect [
  | some from ↦ join_source group s.if_addr from
  | none ↦ if index == 0 then join group s.if_addr else join_index group s.if_addr index
]

abbrev pub is_given : Option ℕ → Bool
is_given none = false
is_given (some n) = true

abbrev pub is_there : Option Address → Bool
is_there none = false
is_there (some a) = true

module _ (accepts : List Call → Call → Bool) where
  -- A call that ends the program if it fails.
  unfoldable pub must : Call → List Call → Outcome (List Call)
  must c calls = if accepts calls c then ok (c ∷ calls) else exit_failure

  abbrev pub must_if : Bool → Call → List Call → Outcome (List Call)
  must_if true c calls = must c calls
  must_if false c calls = ok calls

  -- A call whose result is left aside.
  abbrev pub attempt : Call → List Call → Outcome (List Call)
  attempt c calls = ok (c ∷ calls)

  unfoldable pub bind_inet6 : Option Address → ℕ → List Call → Outcome (List Call)
  bind_inet6 none index calls = ok calls
  bind_inet6 (some a) index calls =
      if in6_multicast a
      then (must (bind (any_address a)) calls >>= must (join6 a index))
      else must (bind a) calls

  unfoldable pub bind_socket : Family → Option Address → ℕ → List Call → Outcome (List Call)
  unfolding bind_inet6
  bind_socket af_inet6 address index calls =
      must_if (not (index == 0)) (multicast_if index) calls >>= bind_inet6 address index
  bind_socket af_inet none index calls = ok calls
  bind_socket af_inet (some a) index calls = must (bind a) calls

  -- The part under `i_fd < 0`
  unfoldable pub create_socket : Spec → Bool → Family → ℕ → List Call → Outcome (List Call)
  unfolding bind_socket
  create_socket s raw_packets family index calls =
      must (socket (if raw_packets then af_inet else family) (type_of raw_packets s.tcp)) calls
      >>= must reuse_addr
      >>= bind_socket family s.bind index

  abbrev pub to_device : Option Bytes → List Call → Outcome (List Call)
  to_device none calls = ok calls
  to_device (some name) calls = must (bind_to_device name) calls

  unfoldable pub join_group : Option Address → Spec → ℕ → List Call → Outcome (List Call)
  join_group none s index calls = ok calls
  join_group (some group) s index calls =
      if in_multicast group
      then (must (membership group s index) calls >>= to_device s.if_name)
      else ok calls

  unfoldable pub set_hops : Spec → Address → List Call → Outcome (List Call)
  set_hops s to calls =
      must_if (not (s.ttl == 0) && in_multicast to) (multicast_ttl s.ttl) calls
      >>= must_if (not (s.ttl == 0) && in6_multicast to) (multicast_hops s.ttl)
      >>= must_if (not (s.tos == 0)) (type_of_service s.tos)

  -- The loop around `accept`: one that a signal breaks off, with EINTR, is made again.
  unfoldable pub accept_loop : ℕ → List Call → Outcome (List Call)
  accept_loop zero calls = must accept calls
  accept_loop (suc n) calls = accept_loop n (interrupted_accept ∷ calls)

  module _ (interruptions : ℕ) where
    unfoldable pub connect_socket : Option Address → Spec → List Call → Outcome (List Call)
    unfolding set_hops accept_loop
    connect_socket (some to) s calls =
        must (connect to) calls >>= λ made. if s.tcp then ok made else set_hops s to made
    connect_socket none s calls =
        if s.tcp
        then (must listen calls >>= accept_loop interruptions >>= attempt close)
        else ok calls

    -- `OpenSocket` behind its argument: the calls that are made. `raw_packets` is whether there is room
    -- for a raw header.
    unfoldable pub open_spec : Spec → Bool → Outcome (List Call)
    unfolding common_family common_index create_socket join_group connect_socket
    open_spec s raw_packets = do
      family ← common_family s.bind s.connect
      index ← common_index s.bind_if_index s.connect_if_index
      created ←
          if is_given s.fd
          then ok []
          else create_socket s (raw_packets && is_there s.connect) family index []
      joined ←
          if s.tcp then ok created else attempt receive_buffer created >>= join_group s.bind s index
      connect_socket s.connect s joined

    -- `OpenSocket`; `none` is -1.
    unfoldable pub open_socket :
        System → ℕ → ℕ → ℕ → Bool → Bytes → Outcome (Option (List Call) × ℕ)
    open_socket sys ttl bind_port connect_port raw_packets arg = do
      parsed ← parse_argument sys ttl bind_port connect_port arg
      let (spec, weight) = parsed
      elim spec [
        | none ↦ ok (none, weight)
        | some s ↦ do calls ← open_spec s raw_packets; ok (some calls, weight)
      ]
