-- ===== src/Tests/Unit/Config.antt =====
-- The unit tests of src/config.rs.
use sqlite_server_rs.Prelude.{
  ◌≡◌, refl, Bool, true, false, not, ◌&&◌, ◌==◌, Option, none, some, List, [], ◌∷◌, ◌++◌, Text,
  bytes, text_eq, ok, err,
}
use sqlite_server_rs.Rust.Ip.{v4}
use sqlite_server_rs.Rust.Str.{split_once, parse_u8}
use sqlite_server_rs.Rust.Decimal.{decimal}
use sqlite_server_rs.Rust.IpParse.{parse_ip}
use sqlite_server_rs.Rust.IpDisplay.{display_ip}
use sqlite_server_rs.Cidr.{
  Cidr, canonicalize, mask, mask_from, masked_eq, contains, to_string, parse,
}
use sqlite_server_rs.Config.{SocketAddr, Host, is_ipv4, find_ipv4, resolve_endpoint}

-- `assert!`, where a panic or an error fails
abbrev holds : Option Bool → Bool
holds (some b) = b
holds none = false

-- the test of an address, given as a text
abbrev matches : Cidr → Text → Option Bool
matches net s = elim (parse_ip s) [ none ↦ none | some ip ↦ contains net ip ]

abbrev rejects : Cidr → Text → Bool
rejects net s = elim (matches net s) [ none ↦ false | some b ↦ not b ]

-- `Cidr::parse(entry).unwrap()`, and an assertion on it
abbrev with_cidr : Text → (Cidr → Bool) → Bool
with_cidr entry check = elim (parse entry) [ ok net ↦ check net | err e ↦ false ]

abbrev is_err : Text → Bool
is_err entry = elim (parse entry) [ ok net ↦ false | err e ↦ true ]

abbrev cidr_parse_and_contains_ipv4 : Bool
cidr_parse_and_contains_ipv4 =
    with_cidr (bytes "10.0.0.0/8")
      (λ net. holds (matches net (bytes "10.1.2.3")) && rejects net (bytes "11.0.0.1"))
    && with_cidr (bytes "10.1.2.3/8") (λ net. text_eq (to_string net) (bytes "10.0.0.0/8"))

abbrev cidr_bare_address_is_single_host : Bool
cidr_bare_address_is_single_host = with_cidr (bytes "127.0.0.1") (λ net.
    text_eq (to_string net) (bytes "127.0.0.1/32")
    && holds (matches net (bytes "127.0.0.1"))
    && rejects net (bytes "127.0.0.2"))

abbrev cidr_ipv6_and_cross_family : Bool
cidr_ipv6_and_cross_family = with_cidr (bytes "2001:db8::/32") (λ net.
    holds (matches net (bytes "2001:db8::1"))
    && rejects net (bytes "2001:dead::1")
    && rejects net (bytes "10.0.0.1"))

abbrev cidr_rejects_invalid : Bool
cidr_rejects_invalid =
    is_err (bytes "not.an.ip/8") && is_err (bytes "10.0.0.0/33") && is_err (bytes "::1/129")

cidr_tests :
    (cidr_parse_and_contains_ipv4 ≡ true)
    × (cidr_bare_address_is_single_host ≡ true)
    × (cidr_ipv6_and_cross_family ≡ true)
    × (cidr_rejects_invalid ≡ true)
unfolding parse split_once parse_u8 parse_ip canonicalize mask mask_from contains masked_eq
    to_string display_ip decimal
cidr_tests = (refl, refl, refl, refl)

-- a machine with no files, where a name resolves to these addresses
abbrev machine : Option (List SocketAddr) → Host
machine addrs = record {
  exists = λ path. false;
  read_to_string = λ path. err (bytes "no such file");
  current_dir = ok (bytes "/tmp");
  to_socket_addrs = λ ip port. addrs;
  available_parallelism = none;
}

abbrev local : SocketAddr
local = record { ip = v4 (127 ∷ 0 ∷ 0 ∷ 1 ∷ []); port = 3333 }

abbrev resolve_endpoint_prefers_ipv4_numeric : Bool
resolve_endpoint_prefers_ipv4_numeric =
    let addr = resolve_endpoint (machine (some (local ∷ []))) (bytes "127.0.0.1") 3333 in
    is_ipv4 addr && addr.port == 3333

resolves : resolve_endpoint_prefers_ipv4_numeric ≡ true
unfolding resolve_endpoint find_ipv4
resolves = refl

abbrev resolve_endpoint_falls_back_when_unresolvable : SocketAddr
resolve_endpoint_falls_back_when_unresolvable =
    resolve_endpoint (machine none) (bytes "bad" ++ (0 ∷ bytes "host")) 1234

falls_back : resolve_endpoint_falls_back_when_unresolvable ≡ local
unfolding resolve_endpoint
falls_back = refl
