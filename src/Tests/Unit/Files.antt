-- ===== src/Tests/Unit/Files.antt =====
-- The unit tests of src/config.rs on configuration files, in a temporary folder "/tmp/d". The text of a
-- file stands with what serde_json reads in it.
use sqlite_server_rs.Prelude.{
  ℕ, ◌≡◌, refl, pos, Bool, true, false, not, ◌&&◌, ◌||◌, ◌==◌, Option, none, some, [], ◌∷◌, Text,
  bytes, text_eq, is_empty, Result, ok, err, if◌then◌else◌,
}
use sqlite_server_rs.Rust.Ip.{v4}
use sqlite_server_rs.Rust.Str.{split_once, parse_u8}
use sqlite_server_rs.Rust.FilePath.{is_absolute, join}
use sqlite_server_rs.Rust.IpParse.{parse_ip}
use sqlite_server_rs.Rust.Utf8.{from_utf8_lossy}
use sqlite_server_rs.Cidr.{canonicalize, mask, mask_from, masked_eq, contains, parse as parse_cidr}
use sqlite_server_rs.Config.{
  Config, Host, default_busy_timeout_ms, is_ipv4, find_ipv4, resolve_endpoint,
  resolve_database_path, from_file, from_json, require_str, require_u64, parse_whitelist_json,
  whitelist_item, optional_busy_timeout, optional_auth, any_contains, is_ip_allowed,
  ip_whitelist_repr,
}
use sqlite_server_rs.Tests.Values.{
  Value, string, number, field, empty_object, item, empty_array, json,
}

abbrev prefixed : Text → Text → Bool
prefixed [] s = true
prefixed (x ∷ t) [] = false
prefixed (x ∷ t) (y ∷ s) = x == y && prefixed t s

-- `contains` of `str`
abbrev has_text : Text → Text → Bool
has_text t [] = prefixed t []
has_text t (y ∷ s) = prefixed t (y ∷ s) || has_text t s

abbrev dir : Text
dir = bytes "/tmp/d"

abbrev path : Text
path = bytes "/tmp/d/config.json"

abbrev machine : Text → Host
machine body = record {
  exists = λ p. text_eq p dir || text_eq p path;
  read_to_string = λ p. ok body;
  current_dir = ok (bytes "/tmp");
  to_socket_addrs = λ ip port. some (record { ip = v4 (127 ∷ 0 ∷ 0 ∷ 1 ∷ []); port = port } ∷ []);
  available_parallelism = none;
}

-- `from_file` of a file with this text, in which serde_json reads this
abbrev load : Text → Result Value Text → Result Config Text
load body value =
    from_file
      (record json { from_str = λ s. if text_eq s body then value else err (bytes "other text") })
      (machine body) path

-- `unwrap`, and an assertion
abbrev loads : Result Config Text → (Config → Bool) → Bool
loads (ok config) check = check config
loads (err e) check = false

-- `unwrap_err`, and an assertion on the message
abbrev fails_with : Result Config Text → Text → Bool
fails_with (ok config) text = false
fails_with (err e) text = has_text text e

abbrev allows : Config → Text → Option Bool
allows config s = elim (parse_ip s) [ none ↦ none | some ip ↦ is_ip_allowed config ip ]

abbrev is_some_true : Option Bool → Bool
is_some_true (some b) = b
is_some_true none = false

abbrev is_some_false : Option Bool → Bool
is_some_false (some b) = not b
is_some_false none = false

-- the keys in front of the others, with the folder
abbrev with_folder : Value → Value
with_folder fields = field (bytes "databases_folder") (string dir) fields

abbrev minimal : ℕ → Value → Value
minimal size fields = field (bytes "client_max_packet_size") (number (pos size)) (
    field (bytes "workers") (number (pos 1)) (
      field (bytes "listen_ip") (string (bytes "127.0.0.1"))
        (field (bytes "listen_port") (number (pos 3333)) (with_folder fields))))

abbrev all_keys : Value
all_keys = field (bytes "client_max_packet_size") (number (pos 1024)) (
    field (bytes "workers") (number (pos 3)) (
      field (bytes "listen_ip") (string (bytes "127.0.0.1")) (
        field (bytes "listen_port") (number (pos 4567))
          (field (bytes "busy_timeout_ms") (number (pos 1234)) (with_folder empty_object)))))

abbrev from_file_parses_all_keys : Bool
from_file_parses_all_keys =
    loads
      (load
        (bytes
          "{\"client_max_packet_size\":1024,\"workers\":3,\"listen_ip\":\"127.0.0.1\",\"listen_port\":4567,\"busy_timeout_ms\":1234,\"databases_folder\":\"/tmp/d\"}")
        (ok all_keys))
      λ config.
        config.client_max_packet_size == 1024
        && config.workers == 3
        && config.listen_addr.port == 4567
        && is_ipv4 config.listen_addr
        && is_absolute config.databases_folder
        && config.busy_timeout_ms == 1234

abbrev is_ip_allowed_empty_allows_all : Bool
is_ip_allowed_empty_allows_all =
    loads
      (load
        (bytes
          "{\"client_max_packet_size\":1,\"workers\":1,\"listen_ip\":\"127.0.0.1\",\"listen_port\":3333,\"databases_folder\":\"/tmp/d\"}")
        (ok (minimal 1 empty_object)))
      λ config.
        is_empty config.auth
        && is_some_true (allows config (bytes "8.8.8.8"))
        && text_eq (ip_whitelist_repr config) (bytes "(any)")

abbrev from_file_parses_auth_and_whitelist : Bool
from_file_parses_auth_and_whitelist =
    loads
      (load
        (bytes
          "{\"client_max_packet_size\":1,\"workers\":1,\"listen_ip\":\"127.0.0.1\",\"listen_port\":3333,\"auth\":\"s3cret\",\"ip_whitelist\":[\"127.0.0.1\",\"10.0.0.0/8\"],\"databases_folder\":\"/tmp/d\"}")
        (ok (
          minimal 1 (
            field (bytes "auth") (string (bytes "s3cret")) (
              field (bytes "ip_whitelist")
                (item (string (bytes "127.0.0.1")) (item (string (bytes "10.0.0.0/8")) empty_array))
                empty_object)))))
      λ config.
        text_eq config.auth (bytes "s3cret")
        && is_some_true (allows config (bytes "127.0.0.1"))
        && is_some_true (allows config (bytes "10.9.9.9"))
        && is_some_false (allows config (bytes "192.168.0.1"))

abbrev from_file_rejects_bad_whitelist : Bool
from_file_rejects_bad_whitelist =
    fails_with
      (load
        (bytes
          "{\"client_max_packet_size\":1,\"workers\":1,\"listen_ip\":\"127.0.0.1\",\"listen_port\":3333,\"ip_whitelist\":\"127.0.0.1\",\"databases_folder\":\"/tmp/d\"}")
        (ok (minimal 1 (field (bytes "ip_whitelist") (string (bytes "127.0.0.1")) empty_object))))
      (bytes "must be an array")
    && fails_with
        (load
          (bytes
            "{\"client_max_packet_size\":1,\"workers\":1,\"listen_ip\":\"127.0.0.1\",\"listen_port\":3333,\"ip_whitelist\":[\"nope/8\"],\"databases_folder\":\"/tmp/d\"}")
          (ok (
            minimal 1 (
              field (bytes "ip_whitelist") (item (string (bytes "nope/8")) empty_array)
                empty_object))))
        (bytes "Invalid ip_whitelist entry")

abbrev from_file_busy_timeout_defaults_when_absent : Bool
from_file_busy_timeout_defaults_when_absent =
    loads
      (load
        (bytes
          "{\"client_max_packet_size\":1024,\"workers\":1,\"listen_ip\":\"127.0.0.1\",\"listen_port\":3333,\"databases_folder\":\"/tmp/d\"}")
        (ok (minimal 1024 empty_object)))
      λ config. config.busy_timeout_ms == default_busy_timeout_ms

abbrev from_file_missing_file : Bool
from_file_missing_file =
    fails_with (from_file json (machine []) (bytes "/no/such/path/ssrs-config.json"))
      (bytes "Config file does not exist")

abbrev from_file_invalid_json : Bool
from_file_invalid_json =
    fails_with (load (bytes "{ this is not json") (err (bytes "key must be a string")))
      (bytes "Config parse error")

abbrev from_file_missing_key : Bool
from_file_missing_key =
    fails_with
      (load (bytes "{\"workers\":1}") (ok (field (bytes "workers") (number (pos 1)) empty_object)))
      (bytes "Missing key")

abbrev from_file_wrong_value_type : Bool
from_file_wrong_value_type =
    fails_with
      (load
        (bytes
          "{\"client_max_packet_size\":1024,\"workers\":\"three\",\"listen_ip\":\"127.0.0.1\",\"listen_port\":4567,\"databases_folder\":\"/tmp/d\"}")
        (ok (
          field (bytes "client_max_packet_size") (number (pos 1024)) (
            field (bytes "workers") (string (bytes "three")) (
              field (bytes "listen_ip") (string (bytes "127.0.0.1"))
                (field (bytes "listen_port") (number (pos 4567)) (with_folder empty_object)))))))
      (bytes "must be a non-negative number")

abbrev resolve_database_path_makes_absolute_when_existing : Bool
resolve_database_path_makes_absolute_when_existing = elim (resolve_database_path (machine []) dir) [
  | ok p ↦ is_absolute p
  | err e ↦ false
]

abbrev resolve_database_path_errors_when_missing : Bool
resolve_database_path_errors_when_missing =
    elim (resolve_database_path (machine []) (bytes "/no/such/folder/ssrs-xyz")) [
      | ok p ↦ false
      | err e ↦ has_text (bytes "does not exist") e
    ]

file_tests :
    (from_file_parses_all_keys ≡ true)
    × (is_ip_allowed_empty_allows_all ≡ true)
    × (from_file_parses_auth_and_whitelist ≡ true)
    × (from_file_rejects_bad_whitelist ≡ true)
    × (from_file_busy_timeout_defaults_when_absent ≡ true)
unfolding from_file from_json require_str require_u64 parse_whitelist_json whitelist_item
    optional_busy_timeout optional_auth resolve_endpoint find_ipv4 resolve_database_path is_absolute
    join parse_cidr split_once parse_u8 parse_ip canonicalize mask mask_from contains masked_eq
    any_contains is_ip_allowed ip_whitelist_repr
file_tests = (refl, refl, refl, refl, refl)

error_tests :
    (from_file_missing_file ≡ true)
    × (from_file_invalid_json ≡ true)
    × (from_file_missing_key ≡ true)
    × (from_file_wrong_value_type ≡ true)
    × (resolve_database_path_makes_absolute_when_existing ≡ true)
    × (resolve_database_path_errors_when_missing ≡ true)
unfolding from_file from_json require_str require_u64 parse_whitelist_json optional_busy_timeout
    optional_auth resolve_database_path is_absolute join from_utf8_lossy
error_tests = (refl, refl, refl, refl, refl, refl)
