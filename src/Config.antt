-- ===== src/Config.antt =====
-- src/config.rs: the configuration, from the command line or from a JSON file, and the whitelist.
-- The machine that the program starts on is a parameter.
pub mod Whitelist
pub mod Usable
pub mod Endpoint
pub mod File
pub mod Logged
use mathlib.Core.Option
use sqlite_server_rs.Prelude.{
  first, or_else, ℕ, ◌%◌, ◌^◌, Bool, true, false, not, Option, none, some, List, [], ◌∷◌, ◌++◌,
  Text, bytes, is_empty, Result, ok, err, ok_or, map_err, collect, ◌>>=◌, if◌then◌else◌,
}
use sqlite_server_rs.Json.{Json}
use sqlite_server_rs.Rust.Ip.{IpAddr, v4, v6}
use sqlite_server_rs.Rust.Str.{split, trim}
use sqlite_server_rs.Rust.Utf8.{from_utf8_lossy}
use sqlite_server_rs.Rust.FilePath.{is_absolute, join}
use sqlite_server_rs.Cidr.{Cidr, contains, to_string, parse as parse_cidr}

pub record SocketAddr : Type 0 where
  pub ip : IpAddr
  pub port : ℕ

pub record Config : Type 0 where
  pub listen_addr : SocketAddr
  pub workers : ℕ
  pub databases_folder : Text
  pub client_max_packet_size : ℕ
  pub busy_timeout_ms : ℕ
  pub auth : Text
  pub ip_whitelist : List Cidr

-- What is read of the machine: its files, the current directory, the name resolver and the cores.
-- A failure is `none`, or the text of the error where the program reports it.
pub record Host : Type 0 where
  pub exists : Text → Bool
  pub read_to_string : Text → Result Text Text
  pub current_dir : Result Text Text
  pub to_socket_addrs : Text → ℕ → Option (List SocketAddr)
  pub available_parallelism : Option ℕ

abbrev pub default_busy_timeout_ms : ℕ
default_busy_timeout_ms = 5000

-- `iter().any(|net| net.contains(ip))`; `none` is a panic in `contains`.
unfoldable pub any_contains : List Cidr → IpAddr → Option Bool
any_contains [] ip = some false
any_contains (net ∷ nets) ip = elim (contains net ip) [
  | none ↦ none
  | some true ↦ some true
  | some false ↦ any_contains nets ip
]

unfoldable pub is_ip_allowed : Config → IpAddr → Option Bool
unfolding any_contains
is_ip_allowed config ip = elim config.ip_whitelist [
  | [] ↦ some true
  | net ∷ nets ↦ any_contains (net ∷ nets) ip
]

-- `join(", ")` of the networks
unfoldable pub display_all : List Cidr → Text
display_all [] = []
display_all (net ∷ []) = to_string net
display_all (net ∷ next ∷ nets) = to_string net ++ (bytes ", " ++ display_all (next ∷ nets))

unfoldable pub ip_whitelist_repr : Config → Text
unfolding display_all
ip_whitelist_repr config = elim config.ip_whitelist [
  | [] ↦ bytes "(any)"
  | net ∷ nets ↦ display_all (net ∷ nets)
]

-- the entries of the list that are not empty once trimmed
unfoldable pub entries : List Text → List Text
entries [] = []
entries (piece ∷ pieces) =
    let entry = trim piece in if is_empty entry then entries pieces else entry ∷ entries pieces

unfoldable pub parse_whitelist_csv : Text → Result (List Cidr) Text
unfolding entries
parse_whitelist_csv s = collect parse_cidr (entries (split b',' s))

abbrev pub is_ipv4 : SocketAddr → Bool
is_ipv4 addr = elim addr.ip [ v4 a ↦ true | v6 a ↦ false ]

-- `iter().find(|a| a.is_ipv4())`
unfoldable pub find_ipv4 : List SocketAddr → Option SocketAddr
find_ipv4 [] = none
find_ipv4 (addr ∷ addrs) = let later = find_ipv4 addrs in if is_ipv4 addr then some addr else later

abbrev pub fallback : SocketAddr
fallback = record { ip = v4 (127 ∷ 0 ∷ 0 ∷ 1 ∷ []); port = 3333 }

module _ (host : Host) where
  open host use {exists, current_dir, to_socket_addrs, available_parallelism}

  unfoldable pub resolve_endpoint : Text → ℕ → SocketAddr
  unfolding find_ipv4
  resolve_endpoint ip port = elim (to_socket_addrs ip port) [
    | some addrs ↦ Option.get_or (or_else (find_ipv4 addrs) (first addrs)) fallback
    | none ↦ fallback
  ]

  make_absolute : Text → Result Text Text
  make_absolute path = if is_absolute path then ok path else (do
    dir ← map_err (λ e. bytes "Cannot resolve current directory: " ++ e) current_dir
    ok (join dir path))

  unfoldable pub resolve_database_path : Text → Result Text Text
  unfolding make_absolute
  resolve_database_path path = do
    absolute ← make_absolute path
    if not (exists absolute)
        then err (bytes "Databases folder does not exist in: " ++ from_utf8_lossy absolute)
        else ok absolute

  unfoldable pub default_workers : ℕ
  default_workers = Option.get_or available_parallelism 1

-- `Args`, as clap fills it: the command line itself is read there.
pub record Args : Type 0 where
  pub version : Bool
  pub config : Option Text
  pub ip : Text
  pub port : ℕ
  pub auth : Text
  pub ip_whitelist : Text
  pub databases_folder : Text
  pub workers : Option ℕ
  pub client_max_packet_size : ℕ
  pub busy_timeout_ms : ℕ

module _ (j : Json) where
  open j use {Value, get, as_str, as_u64, as_array}

  abbrev missing_key : Text → Text
  missing_key key = bytes "Missing key: " ++ (key ++ bytes " in config")

  unfoldable pub require_str : Value → Text → Result Text Text
  require_str json key = do
    value ← ok_or (get json key) (missing_key key)
    ok_or (as_str value) (bytes "Key " ++ (key ++ bytes " must be a string"))

  unfoldable pub require_u64 : Value → Text → Result ℕ Text
  require_u64 json key = do
    value ← ok_or (get json key) (missing_key key)
    ok_or (as_u64 value) (bytes "Key " ++ (key ++ bytes " must be a non-negative number"))

  unfoldable pub whitelist_item : Value → Result Cidr Text
  whitelist_item item = do
    s ← ok_or (as_str item) (bytes "Config key ip_whitelist must contain only strings")
    parse_cidr s

  unfoldable pub parse_whitelist_json : Value → Result (List Cidr) Text
  unfolding whitelist_item
  parse_whitelist_json json = elim (get json (bytes "ip_whitelist")) [
    | none ↦ ok []
    | some value ↦ elim (as_array value) [
      | some items ↦ collect whitelist_item items
      | none ↦ err (bytes "Config key ip_whitelist must be an array of CIDR strings")
    ]
  ]

  -- the optional keys, with their defaults
  unfoldable pub optional_busy_timeout : Value → Result ℕ Text
  optional_busy_timeout json = elim (get json (bytes "busy_timeout_ms")) [
    | some v ↦ ok_or (as_u64 v) (bytes "Key busy_timeout_ms must be a non-negative number")
    | none ↦ ok default_busy_timeout_ms
  ]

  unfoldable pub optional_auth : Value → Result Text Text
  optional_auth json = elim (get json (bytes "auth")) [
    | some v ↦ ok_or (as_str v) (bytes "Key auth must be a string")
    | none ↦ ok []
  ]

module _ (j : Json) (host : Host) where
  open j use {Value, from_str}
  open host use {exists, read_to_string}

  -- the file's keys; `as u16`, `as u32` keep the low bits, and a `usize` has 64
  unfoldable pub from_json : Value → Result Config Text
  unfolding require_str require_u64 parse_whitelist_json optional_busy_timeout optional_auth
      resolve_endpoint resolve_database_path
  from_json json = do
    listen_ip ← require_str j json (bytes "listen_ip")
    listen_port ← require_u64 j json (bytes "listen_port")
    busy_timeout_ms ← optional_busy_timeout j json
    auth ← optional_auth j json
    ip_whitelist ← parse_whitelist_json j json
    workers ← require_u64 j json (bytes "workers")
    folder ← require_str j json (bytes "databases_folder")
    databases_folder ← resolve_database_path host folder
    client_max_packet_size ← require_u64 j json (bytes "client_max_packet_size")
    ok (record {
      listen_addr = resolve_endpoint host listen_ip (listen_port % 2 ^ 16);
      workers = workers % 2 ^ 64;
      databases_folder = databases_folder;
      client_max_packet_size = client_max_packet_size % 2 ^ 32;
      busy_timeout_ms = busy_timeout_ms;
      auth = auth;
      ip_whitelist = ip_whitelist;
    })

  unfoldable pub from_file : Text → Result Config Text
  unfolding from_json
  from_file path =
      if not (exists path) then err (bytes "Config file does not exist in: " ++ path) else (do
        text ← map_err (λ e. bytes "Config read error: " ++ e) (read_to_string path)
        json ← map_err (λ e. bytes "Config parse error: " ++ e) (from_str text)
        from_json json)

  from_args : Args → Result Config Text
  unfolding resolve_endpoint resolve_database_path parse_whitelist_csv default_workers
  from_args args = do
    databases_folder ← resolve_database_path host args.databases_folder
    ip_whitelist ← parse_whitelist_csv args.ip_whitelist
    ok (record {
      listen_addr = resolve_endpoint host args.ip args.port;
      workers = Option.get_or args.workers (default_workers host);
      databases_folder = databases_folder;
      client_max_packet_size = args.client_max_packet_size;
      busy_timeout_ms = args.busy_timeout_ms;
      auth = args.auth;
      ip_whitelist = ip_whitelist;
    })

  -- `config::parse`, after the command line has been read; `none` is a printed version
  unfoldable pub parse : Args → Result (Option Config) Text
  unfolding from_file from_args
  parse args = if args.version then ok none else elim args.config [
    | some path ↦ (do config ← from_file path; ok (some config))
    | none ↦ (do config ← from_args args; ok (some config))
  ]
