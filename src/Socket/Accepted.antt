-- ===== src/Socket/Accepted.antt =====
-- util.c, `OpenSocket`: the calls that are made as one list.
use multicat_supervisor.Base.{
  zero, suc, ℕ, ◌≡◌, refl, sym, ap, ◌∙◌, inl, inr, Option-cases, Bool, true, false, Bool-cases, not,
  ◌&&◌, ◌||◌, Option, none, some, List, [], ◌∷◌, ◌++◌, ◌==◌, if◌then◌else◌, Bytes, arith,
}
use multicat_supervisor.Io.{Outcome, ok, exit_failure, undefined, ◌>>=◌}
use multicat_supervisor.Socket.{Address, inet, inet6}
use multicat_supervisor.Socket.Options.{Spec}
use multicat_supervisor.Socket.Opening.{
  SocketType, stream, datagram, raw, interrupted_accept, join_source, join, join_index, Family,
  af_inet, af_inet6, Call, socket, bind, connect, reuse_addr, receive_buffer, listen, accept, close,
  multicast_if, multicast_ttl, multicast_hops, type_of_service, join6, bind_to_device, in_multicast,
  in6_multicast, same_family, common_family, common_index, must, attempt, bind_inet6, bind_socket,
  type_of, create_socket, membership, accept_loop, to_device, join_group, set_hops, connect_socket,
  is_given, is_there, open_spec,
}

-- The calls whose failure does not end the program.
abbrev pub is_optional : Call → Bool
is_optional receive_buffer = true
is_optional close = true
is_optional interrupted_accept = true
is_optional _ = false

abbrev pub only_if : Bool → Call → List Call
only_if true c = c ∷ []
only_if false c = []

-- The address of no host, with the port.
abbrev pub unspecified : Address → Address
unspecified (inet a port) = inet 0 port
unspecified (inet6 a port) = inet6 0 port

abbrev pub binding : Family → Option Address → ℕ → List Call
binding family none index =
    only_if (not (same_family family af_inet) && not (index == 0)) (multicast_if index)
binding af_inet (some a) index = bind a ∷ []
binding af_inet6 (some a) index =
    only_if (not (index == 0)) (multicast_if index)
    ++ (if in6_multicast a then bind (unspecified a) ∷ join6 a index ∷ [] else bind a ∷ [])

abbrev pub device : Option Bytes → List Call
device none = []
device (some name) = bind_to_device name ∷ []

-- The group is joined for one source, or on an interface, or on any.
abbrev pub joined_as : Address → ℕ → Option Address → ℕ → Call
joined_as group if_addr (some source) index = join_source group if_addr source
joined_as group if_addr none zero = join group if_addr
joined_as group if_addr none (suc n) = join_index group if_addr (suc n)

abbrev pub joining : Option Address → Spec → ℕ → List Call
joining none s index = []
joining (some group) s index =
    if in_multicast group then joined_as group s.if_addr s.connect index ∷ device s.if_name else []

abbrev pub repeated : ℕ → Call → List Call → List Call
repeated zero c cs = cs
repeated (suc n) c cs = c ∷ repeated n c cs

abbrev pub connecting : ℕ → Option Address → Spec → List Call
connecting interruptions none s =
    if s.tcp then listen ∷ repeated interruptions interrupted_accept (accept ∷ close ∷ []) else []
connecting interruptions (some to) s =
    connect to
    ∷ (if s.tcp
        then []
        else only_if (not (s.ttl == 0) && in_multicast to) (multicast_ttl s.ttl)
          ++ (only_if (not (s.ttl == 0) && in6_multicast to) (multicast_hops s.ttl)
              ++ only_if (not (s.tos == 0)) (type_of_service s.tos)))

abbrev pub opened_as : Bool → Bool → SocketType
opened_as raw_packets tcp = if raw_packets then raw else if tcp then stream else datagram

-- The calls in their order: the socket, its address, the group, and the other side.
abbrev pub plan : ℕ → Spec → Bool → Family → ℕ → List Call
plan interruptions s raw_packets family index =
    (if is_given s.fd
      then []
      else socket (if raw_packets then af_inet else family) (opened_as raw_packets s.tcp)
        ∷ reuse_addr
        ∷ binding family s.bind index)
    ++ ((if s.tcp then [] else receive_buffer ∷ joining s.bind s index)
        ++ connecting interruptions s.connect s)

-- The calls that were made, and further ones in front of them.
abbrev pub onto : List Call → List Call → List Call
onto [] made = made
onto (c ∷ cs) made = onto cs (c ∷ made)

membership-joined_as :
    (group : Address) (s : Spec) (index : ℕ)
    → membership group s index ≡ joined_as group s.if_addr s.connect index
membership-joined_as group s zero = elim (Option-cases s.connect) [
  | inl e ↦ rw e refl
  | inr (a, e) ↦ rw e refl
]
membership-joined_as group s (suc n) = elim (Option-cases s.connect) [
  | inl e ↦ let z : (suc n == 0) ≡ false = ground arith in rw (e, z) refl
  | inr (a, e) ↦ rw e refl
]

type_of-opened_as : (raw_packets tcp : Bool) → type_of raw_packets tcp ≡ opened_as raw_packets tcp
type_of-opened_as true tcp = refl
type_of-opened_as false true = refl
type_of-opened_as false false = refl

module _ (accepts : List Call → Call → Bool) where
  -- Whether each call of a list ends well in its turn.
  abbrev pub all_accepted : List Call → List Call → Bool
  all_accepted [] made = true
  all_accepted (c ∷ cs) made =
      let rest = all_accepted cs (c ∷ made) in (is_optional c || accepts made c) && rest

  -- The calls in turn, up to the first that fails.
  abbrev pub run : List Call → List Call → Outcome (List Call)
  run [] made = ok made
  run (c ∷ cs) made =
      let rest = run cs (c ∷ made) in if is_optional c || accepts made c then rest else exit_failure

  run_lem :
      (cs made : List Call)
      → run cs made ≡ (if all_accepted cs made then ok (onto cs made) else exit_failure)
  run_lem [] made = refl
  run_lem (c ∷ cs) made = elim (Bool-cases (is_optional c || accepts made c)) [
    | inl e ↦ rw e (run_lem cs (c ∷ made))
    | inr e ↦ rw e refl
  ]

  run-append : (xs ys made : List Call) → run (xs ++ ys) made ≡ (run xs made >>= run ys)
  run-append [] ys made = refl
  run-append (c ∷ xs) ys made = elim (Bool-cases (is_optional c || accepts made c)) [
    | inl e ↦ rw e (run-append xs ys (c ∷ made))
    | inr e ↦ rw e refl
  ]

  bind_socket-run :
      (family : Family) (address : Option Address) (index : ℕ) (made : List Call)
      → bind_socket accepts family address index made ≡ run (binding family address index) made
  unfolding bind_socket bind_inet6 must
  bind_socket-run af_inet none index made = refl
  bind_socket-run af_inet (some a) index made = refl
  bind_socket-run af_inet6 none index made = ground arith
  bind_socket-run af_inet6 (some (inet a port)) index made = ground arith
  bind_socket-run af_inet6 (some (inet6 a port)) index made = elim (Bool-cases (index == 0)) [
    | inl e ↦ rw e (elim (Bool-cases (in6_multicast (inet6 a port))) [
      | inl f ↦ rw f (ground arith)
      | inr f ↦ rw f refl
    ])
    | inr e ↦ rw e (elim (Bool-cases (in6_multicast (inet6 a port))) [
      | inl f ↦ rw f (ground arith)
      | inr f ↦ rw f (ground arith)
    ])
  ]

  create_socket-run :
      (s : Spec) (raw_packets : Bool) (family : Family) (index : ℕ) (made : List Call)
      → create_socket accepts s raw_packets family index made
        ≡ run
            (socket (if raw_packets then af_inet else family) (opened_as raw_packets s.tcp)
              ∷ reuse_addr
              ∷ binding family s.bind index)
            made
  unfolding create_socket must
  create_socket-run s raw_packets family index made =
      let c : Call =
        socket (if raw_packets then af_inet else family) (opened_as raw_packets s.tcp) in
      let t = type_of-opened_as raw_packets s.tcp in
      elim (Bool-cases (accepts made c)) [
        | inl e ↦ elim (Bool-cases (accepts (c ∷ made) reuse_addr)) [
          | inl f ↦ rw (t, e, f) (bind_socket-run family s.bind index (reuse_addr ∷ c ∷ made))
          | inr f ↦ rw (t, e, f) refl
        ]
        | inr e ↦ rw (t, e) refl
      ]

  to_device-run :
      (name : Option Bytes) (made : List Call)
      → to_device accepts name made ≡ run (device name) made
  unfolding must
  to_device-run none made = refl
  to_device-run (some name) made = refl

  required_join :
      (group : Address) (if_addr : ℕ) (source : Option Address) (index : ℕ)
      → is_optional (joined_as group if_addr source index) ≡ false
  required_join group if_addr none zero = refl
  required_join group if_addr none (suc n) = refl
  required_join group if_addr (some a) index = refl

  join_group-run :
      (group : Option Address) (s : Spec) (index : ℕ) (made : List Call)
      → join_group accepts group s index made ≡ run (joining group s index) made
  unfolding join_group must
  join_group-run none s index made = refl
  join_group-run (some group) s index made = elim (Bool-cases (in_multicast group)) [
    | inl e ↦
        let c : Call = joined_as group s.if_addr s.connect index in
        elim (Bool-cases (accepts made c)) [
          | inl f ↦
              rw
                (
                  e,
                  membership-joined_as group s index,
                  required_join group s.if_addr s.connect index,
                  f,
                )
                (to_device-run s.if_name (c ∷ made))
          | inr f ↦
              rw
                (
                  e,
                  membership-joined_as group s index,
                  required_join group s.if_addr s.connect index,
                  f,
                )
                refl
        ]
    | inr e ↦ rw e refl
  ]

  set_hops-run :
      (s : Spec) (to : Address) (made : List Call)
      → set_hops accepts s to made
        ≡ run
            (only_if (not (s.ttl == 0) && in_multicast to) (multicast_ttl s.ttl)
              ++ (only_if (not (s.ttl == 0) && in6_multicast to) (multicast_hops s.ttl)
                  ++ only_if (not (s.tos == 0)) (type_of_service s.tos)))
            made
  unfolding set_hops must
  set_hops-run s to made = ground arith

  accept_loop-run :
      (n : ℕ) (made : List Call)
      → (accept_loop accepts n made >>= attempt accepts close)
        ≡ run (repeated n interrupted_accept (accept ∷ close ∷ [])) made
  unfolding accept_loop must
  accept_loop-run zero made = elim (Bool-cases (accepts made accept)) [
    | inl e ↦ rw e refl
    | inr e ↦ rw e refl
  ]
  accept_loop-run (suc n) made = accept_loop-run n (interrupted_accept ∷ made)

  connect_socket-run :
      (interruptions : ℕ) (to : Option Address) (s : Spec) (made : List Call)
      → connect_socket accepts interruptions to s made ≡ run (connecting interruptions to s) made
  unfolding connect_socket must
  connect_socket-run interruptions none s made = elim (Bool-cases s.tcp) [
    | inl e ↦ elim (Bool-cases (accepts made listen)) [
      | inl f ↦ rw (e, f) (accept_loop-run interruptions (listen ∷ made))
      | inr f ↦ rw (e, f) refl
    ]
    | inr e ↦ rw e refl
  ]
  connect_socket-run interruptions (some to) s made =
      elim (Bool-cases (accepts made (connect to))) [
        | inl e ↦ elim (Bool-cases s.tcp) [
          | inl f ↦ rw (e, f) refl
          | inr f ↦ rw (e, f) (set_hops-run s to (connect to ∷ made))
        ]
        | inr e ↦ rw e refl
      ]

  prepared-run :
      (s : Spec) (raw_packets : Bool) (family : Family) (index : ℕ)
      → (if is_given s.fd then ok [] else create_socket accepts s raw_packets family index [])
        ≡ run
            (if is_given s.fd
              then []
              else socket (if raw_packets then af_inet else family) (opened_as raw_packets s.tcp)
                ∷ reuse_addr
                ∷ binding family s.bind index)
            []
  prepared-run s raw_packets family index = elim (Bool-cases (is_given s.fd)) [
    | inl e ↦ rw e refl
    | inr e ↦ rw e (create_socket-run s raw_packets family index [])
  ]

  joined-run :
      (tcp : Bool) (s : Spec) (index : ℕ) (made : List Call)
      → (if tcp
          then ok made
          else attempt accepts receive_buffer made >>= join_group accepts s.bind s index)
        ≡ run (if tcp then [] else receive_buffer ∷ joining s.bind s index) made
  joined-run true s index made = refl
  joined-run false s index made = join_group-run s.bind s index (receive_buffer ∷ made)

  -- A last step that is a run.
  last-run :
      (r : Outcome (List Call)) (f : List Call → Outcome (List Call)) (zs : List Call)
      → ((made : List Call) → f made ≡ run zs made)
      → (r >>= f) ≡ (r >>= run zs)
  last-run (ok made) f zs h = h made
  last-run exit_failure f zs h = refl
  last-run undefined f zs h = refl

  -- Where the addresses agree in their family and the interfaces in their index, OpenSocket makes
  -- the calls of one list, in its order, which is written down from what was asked for and not
  -- from the results; it ends the program at the first call that fails, but for the size of the
  -- receive buffer, the close, and an accept that a signal breaks off, which is made again,
  -- however often that is.
  pub open_spec-plan :
      (interruptions : ℕ) (s : Spec) (raw_packets : Bool) (family : Family) (index : ℕ)
      → common_family s.bind s.connect ≡ ok family
      → common_index s.bind_if_index s.connect_if_index ≡ ok index
      → open_spec accepts interruptions s raw_packets ≡ (
          if all_accepted (plan interruptions s (raw_packets && is_there s.connect) family index) []
          then ok (onto (plan interruptions s (raw_packets && is_there s.connect) family index) [])
          else exit_failure)
  unfolding open_spec
  open_spec-plan interruptions s raw_packets family index f i =
      let raw_connected : Bool = raw_packets && is_there s.connect in
      let created : List Call =
        if is_given s.fd
        then []
        else socket (if raw_connected then af_inet else family) (opened_as raw_connected s.tcp)
          ∷ reuse_addr
          ∷ binding family s.bind index in
      let joined : List Call = if s.tcp then [] else receive_buffer ∷ joining s.bind s index in
      let connected : List Call = connecting interruptions s.connect s in
      let steps : (made : List Call)
          → ((if s.tcp
                then ok made
                else attempt accepts receive_buffer made >>= join_group accepts s.bind s index)
              >>= connect_socket accepts interruptions s.connect s)
            ≡ run (joined ++ connected) made =
        λ made.
          last-run
            (if s.tcp
              then ok made
              else attempt accepts receive_buffer made >>= join_group accepts s.bind s index)
            (connect_socket accepts interruptions s.connect s) connected
            (connect_socket-run interruptions s.connect s)
          ∙ ap (λ r. r >>= run connected) (joined-run s.tcp s index made)
          ∙ sym (run-append joined connected made) in
      rw (f, i)
        (last-run
            (if is_given s.fd then ok [] else create_socket accepts s raw_connected family index [])
            (λ made.
              (if s.tcp
                then ok made
                else attempt accepts receive_buffer made >>= join_group accepts s.bind s index)
              >>= connect_socket accepts interruptions s.connect s)
            (joined ++ connected) steps
          ∙ ap (λ r. r >>= run (joined ++ connected)) (prepared-run s raw_connected family index)
          ∙ sym (run-append created (joined ++ connected) [])
          ∙ run_lem (plan interruptions s raw_connected family index) [])
