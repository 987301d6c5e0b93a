-- ===== src/Examples/Sockets.antt =====
-- Arguments of OpenSocket.
use multicat_supervisor.Base.{
  ◌≡◌, refl, true, false, none, some, [], ◌∷◌, ◌++◌, arith, if◌then◌else◌, codes,
}
use multicat_supervisor.Io.{undefined, ok, exit_failure}
use multicat_supervisor.AuxFile.{decimal}
use multicat_supervisor.Socket.{inet, System, parse_node_service}
use multicat_supervisor.Socket.Options.{
  Spec, blank_spec, parse_argument, set_options, set_option, option_text,
}
use multicat_supervisor.Ini.{trim_start, is_space}
use multicat_supervisor.Eit.Numbers.{signed, scan, scan_any, digit}
use multicat_supervisor.Socket.Opening.{af_inet, common_family, common_index, open_spec}
use multicat_supervisor.Socket.Accepted.{plan, all_accepted, onto, open_spec-plan}
use multicat_supervisor.Socket.Node.{parse_node_service-decimal}

-- One address, whatever the text.
abbrev one_address : System
one_address = record {
  inet_aton = λ text. some 3221225985;
  inet_addr = λ text. 0;
  getaddrinfo = λ v6 node port. none;
  interface_index = λ name. none;
}

parse_node_service-decimal_example :
    parse_node_service one_address 1234 (codes "192.0.2.1" ++ (b':' ∷ (decimal 5004 ++ codes "@")))
    ≡ ok (some (record { address = inet 3221225985 5004; after = codes "@"; if_index = none }))
parse_node_service-decimal_example =
    parse_node_service-decimal one_address 3221225985 1234 5004 b'1' (codes "92.0.2.1") (codes "@")
      refl (refl, (refl, (refl, (refl, (refl, (refl, (refl, (refl, (refl, tt))))))))) refl
      (omega arith) refl

-- A group that is listened to.
abbrev group_spec : Spec
group_spec = record {
  connect = none;
  bind = some (inet 4009754625 5004);
  connect_if_index = 0;
  bind_if_index = 0;
  if_addr = 0;
  if_name = none;
  ttl = 0;
  tos = 0;
  tcp = false;
  raw_src_addr = 0;
  raw_src_port = 0;
  fd = none;
}

abbrev group_family : common_family group_spec.bind group_spec.connect ≡ ok af_inet
unfolding common_family
group_family = refl

abbrev group_index : common_index group_spec.bind_if_index group_spec.connect_if_index ≡ ok 0
unfolding common_index
group_index = refl

open_spec-plan_example : open_spec (λ made c. true) 2 group_spec false ≡ (
    if all_accepted (λ made c. true) (plan 2 group_spec false af_inet 0) []
    then ok (onto (plan 2 group_spec false af_inet 0) [])
    else exit_failure)
open_spec-plan_example =
    open_spec-plan (λ made c. true) 2 group_spec false af_inet 0 group_family group_index

-- A weight behind the options, and an option without its text.
weighted_argument :
    parse_argument one_address 0 0 1234 (codes "192.0.2.1:5004/TTL=3,2")
    ≡ ok (
      some (record (blank_spec one_address 3 0 1234) { connect = some (inet 3221225985 5004) }),
      2,
    )
unfolding parse_argument parse_node_service set_options set_option option_text signed trim_start
    is_space scan scan_any digit
weighted_argument = refl

null_option : set_option one_address (codes "ifaddr=") group_spec ≡ undefined
unfolding set_option option_text
null_option = refl
