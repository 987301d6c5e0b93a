-- ===== src/Socket/Options.antt =====
-- util.c, `OpenSocket`: the weight, the hosts and the options of the argument.
use multicat_supervisor.Base.{
  ℕ, ◌+◌, ◌^◌, Bool, true, false, ◌&&◌, Option, none, some, List, [], ◌∷◌, ltb, leb, ◌==◌,
  if◌then◌else◌, take, Bytes, codes,
}
use multicat_supervisor.Io.{Outcome, ok, undefined, ◌>>=◌}
use multicat_supervisor.Eit.Numbers.{signed, scan_any}
use multicat_supervisor.Socket.{
  Address, System, Host, split_at_byte, split_at_last, parse_node_service,
}

-- The variables that the options set, and the addresses. An index of 0 is none, and a descriptor is
-- one that is not negative.
pub record Spec : Type 0 where
  pub connect : Option Address
  pub bind : Option Address
  pub connect_if_index : ℕ
  pub bind_if_index : ℕ
  pub if_addr : ℕ
  pub if_name : Option Bytes
  pub ttl : ℕ
  pub tos : ℕ
  pub tcp : Bool
  pub raw_src_addr : ℕ
  pub raw_src_port : ℕ
  pub fd : Option ℕ

-- `tolower` of a letter
abbrev pub lower : ℕ → ℕ
lower c = if leb b'A' c && leb c b'Z' then c + 32 else c

-- `IS_OPTION` and `ARG_OPTION`: what stands behind the option's name, in any case.
unfoldable pub option_text : Bytes → Bytes → Option Bytes
option_text [] text = some text
option_text (n ∷ name) [] = none
option_text (n ∷ name) (c ∷ cs) =
    let rest = option_text name cs in if lower c == n then rest else none

-- The characters of `config_stropt`: up to a slash, with spaces for underscores.
unfoldable pub option_words : Bytes → Bytes
option_words [] = []
option_words (c ∷ cs) =
    let rest = option_words cs in if c == b'/' then [] else (if c == b'_' then b' ' else c) ∷ rest

-- `config_stropt`; `none` is NULL.
unfoldable pub config_stropt : Bytes → Option Bytes
config_stropt [] = none
config_stropt (c ∷ cs) = some (option_words (c ∷ cs))

-- `strtol` in base 0, as an `int`
abbrev pub strtol : Bytes → ℕ
strtol = signed (2 ^ 32) scan_any

-- A negative descriptor is none.
abbrev pub descriptor : ℕ → Option ℕ
descriptor n = if ltb n (2 ^ 31) then some n else none

module _ (sys : System) where
  open sys use {inet_addr}

  -- `inet_addr` of a text that may be a null pointer.
  abbrev pub address_of : Option Bytes → Outcome ℕ
  address_of none = undefined
  address_of (some text) = ok (inet_addr text)

  -- The name of an interface, cut to the size of `IFNAMSIZ`.
  abbrev pub name_of : Option Bytes → Outcome Bytes
  name_of none = undefined
  name_of (some text) = ok (take 15 text)

  abbrev pub or_option : Bytes → Bytes → (Bytes → Outcome Spec) → Outcome Spec → Outcome Spec
  or_option name text set other = elim (option_text name text) [
    | some argument ↦ set argument
    | none ↦ other
  ]

  -- One turn of the loop over the options. One that is not known is left out with a warning.
  unfoldable pub set_option : Bytes → Spec → Outcome Spec
  unfolding config_stropt
  set_option text s =
      or_option (codes "ifindex=") text
        (λ a. ok (record s { bind_if_index = strtol a; connect_if_index = strtol a }))
        (or_option (codes "ifaddr=") text
          (λ a. address_of (config_stropt a) >>= λ n. ok (record s { if_addr = n }))
          (or_option (codes "ifname=") text
            (λ a. name_of (config_stropt a) >>= λ n. ok (record s { if_name = some n }))
            (or_option (codes "ttl=") text (λ a. ok (record s { ttl = strtol a }))
              (or_option (codes "tos=") text (λ a. ok (record s { tos = strtol a }))
                (or_option (codes "tcp") text (λ a. ok (record s { tcp = true }))
                  (or_option (codes "srcaddr=") text
                    (λ a. address_of (config_stropt a) >>= λ n. ok (record s { raw_src_addr = n }))
                    (or_option (codes "srcport=") text
                      (λ a. ok (record s { raw_src_port = strtol a }))
                      (or_option (codes "fd=") text
                        (λ a. ok (record s { fd = descriptor (strtol a) })) (ok s)))))))))

  unfoldable pub set_options : List Bytes → Spec → Outcome Spec
  set_options [] s = ok s
  set_options (text ∷ texts) s = do s' ← set_option text s; set_options texts s'

-- The texts behind each slash, to the end of the argument.
unfoldable pub behind_slashes : Bytes → List Bytes
behind_slashes [] = []
behind_slashes (c ∷ cs) = let rest = behind_slashes cs in if c == b'/' then cs ∷ rest else rest

-- `strrchr(psz_arg, ',')`: the argument, and the weight.
abbrev pub split_weight : Option (Bytes × Bytes) → Bytes → Bytes × ℕ
split_weight none arg = (arg, 1)
split_weight (some (front, weight)) arg = (front, strtol weight)

abbrev pub hosts_text : Option (Bytes × Bytes) → Bytes → Bytes
hosts_text none arg = arg
hosts_text (some (front, options)) arg = front

-- The address behind an @, if there is one.
abbrev pub at_sign : Bytes → Option Bytes
at_sign [] = none
at_sign (c ∷ cs) = if c == b'@' then some cs else none

abbrev pub index_or : Option ℕ → ℕ
index_or none = 0
index_or (some n) = n

module _ (sys : System) (ttl bind_port connect_port : ℕ) where
  abbrev pub blank_spec : Spec
  blank_spec = record {
    connect = none;
    bind = none;
    connect_if_index = 0;
    bind_if_index = 0;
    if_addr = 0;
    if_name = none;
    ttl = ttl;
    tos = 0;
    tcp = false;
    raw_src_addr = 0;
    raw_src_port = 0;
    fd = none;
  }

  abbrev pub with_connect : Option Host → Option (Spec × Bytes)
  with_connect none = none
  with_connect (some h) = some (
    record blank_spec { connect = some h.address; connect_if_index = index_or h.if_index },
    h.after,
  )

  abbrev pub with_bind : Spec → Option Host → Option Spec
  with_bind s none = none
  with_bind s (some h) =
      some (record s { bind = some h.address; bind_if_index = index_or h.if_index })

  -- The address to connect to, in front of the @.
  abbrev pub parse_connect : Bytes → Outcome (Option (Spec × Bytes))
  parse_connect text = elim (at_sign text) [
    | some behind ↦ ok (some (blank_spec, text))
    | none ↦ do h ← parse_node_service sys connect_port text; ok (with_connect h)
  ]

  -- The address to bind to, behind the @.
  abbrev pub parse_bind : Option (Spec × Bytes) → Outcome (Option Spec)
  parse_bind none = ok none
  parse_bind (some (s, behind)) = elim (at_sign behind) [
    | none ↦ ok (some s)
    | some text ↦ do h ← parse_node_service sys bind_port text; ok (with_bind s h)
  ]

  unfoldable pub parse_hosts : Bytes → Outcome (Option Spec)
  parse_hosts [] = ok none
  parse_hosts (c ∷ cs) = do connected ← parse_connect (c ∷ cs); parse_bind connected

  -- The part of `OpenSocket` that reads the argument, with the weight; `none` is -1.
  unfoldable pub parse_argument : Bytes → Outcome (Option Spec × ℕ)
  unfolding behind_slashes parse_hosts split_at_byte split_at_last
  parse_argument arg =
      let (front, weight) = split_weight (split_at_last b',' arg) arg in
      do
        hosts ← parse_hosts (hosts_text (split_at_byte b'/' front) front)
        elim hosts [
          | none ↦ ok (none, weight)
          | some s ↦ do s' ← set_options sys (behind_slashes front) s; ok (some s', weight)
        ]
