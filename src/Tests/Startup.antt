-- ===== src/Tests/Startup.antt =====
-- The configuration that the program starts with.
use sqlite_server_rs.Prelude.{
  if◌then◌else◌, ℕ, pos, ◌↔◌, All, arith, replicate, ◌++◌, true, ◌≡◌, refl, Bool, some, none, List,
  [], ◌∷◌, bytes, text_eq, ok, err,
}
use sqlite_server_rs.Rust.Ip.{IpAddr, IsAddr, v4, v6}
use sqlite_server_rs.Rust.FilePath.{is_absolute, join}
use sqlite_server_rs.Rust.Str.{split, trim, split_once, parse_u8}
use sqlite_server_rs.Rust.IpParse.{parse_ip}
use sqlite_server_rs.Cidr.{
  Cidr, canonicalize, mask, mask_from, parse as parse_cidr, contains, masked_eq,
}
use sqlite_server_rs.Cidr.Parse.{parse-IsCidr}
use sqlite_server_rs.Config.{
  SocketAddr, resolve_endpoint, Config, Host, Args, parse, is_ip_allowed, resolve_database_path,
  parse_whitelist_csv, default_workers, ip_whitelist_repr, from_json, require_str, require_u64,
  parse_whitelist_json, optional_busy_timeout, optional_auth,
}
use sqlite_server_rs.Config.File.Accepted.{Gives, from_json_iff}
use sqlite_server_rs.Config.Logged.{parse_whitelist_csv-ip_whitelist_repr}
use mathlib.Core.List.{Memᴰ}
use sqlite_server_rs.Config.Usable.{HasAbsoluteDir, IsUsable, parse-IsUsable}
use sqlite_server_rs.Program.{
  Event, exited, serving, accepted, accept_error, shutdown, Network, accept_loop, run, serve, main,
}
use sqlite_server_rs.Program.Accepting.{
  offered, shuts_down, IsLetIn, Chosen, IsSeen, main-IsLetIn, accept_loop-Chosen,
}
use sqlite_server_rs.Tests.Values.{Value, json}

abbrev loopback : ℕ → SocketAddr
loopback port = record { ip = v4 (127 ∷ 0 ∷ 0 ∷ 1 ∷ []); port = port }

-- the name "localhost", by an IPv6 address and an IPv4 address
abbrev addrs : ℕ → List SocketAddr
addrs port = record { ip = v6 (replicate 15 0 ++ 1 ∷ []); port = port } ∷ loopback port ∷ []

-- started in "/srv", where there is a folder "sqlite"
abbrev host : Host
host = record {
  exists = λ path. text_eq path (bytes "/srv/sqlite");
  read_to_string = λ path. err (bytes "no such file");
  current_dir = ok (bytes "/srv");
  to_socket_addrs = λ ip port. some (addrs port);
  available_parallelism = some 4;
}

abbrev args : Args
args = record {
  version = Bool.false;
  config = none;
  ip = bytes "localhost";
  port = 3333;
  auth = bytes "pw";
  ip_whitelist = bytes "10.1.2.3/8";
  databases_folder = bytes "sqlite";
  workers = none;
  client_max_packet_size = 16777216;
  busy_timeout_ms = 5000;
}

abbrev started : Config
started = record {
  listen_addr = record { ip = v4 (127 ∷ 0 ∷ 0 ∷ 1 ∷ []); port = 3333 };
  workers = 4;
  databases_folder = bytes "/srv/sqlite";
  client_max_packet_size = 16777216;
  busy_timeout_ms = 5000;
  auth = bytes "pw";
  ip_whitelist = record { network = v4 (10 ∷ 0 ∷ 0 ∷ 0 ∷ []); prefix = 8 } ∷ [];
}

args_parsed : parse json host args ≡ ok (some started)
unfolding parse resolve_endpoint resolve_database_path parse_whitelist_csv default_workers join
    is_absolute split trim parse_cidr split_once parse_u8 parse_ip canonicalize mask mask_from
args_parsed = refl

srv_is_absolute : HasAbsoluteDir host
unfolding is_absolute
srv_is_absolute dir e = let same : bytes "/srv" ≡ dir = cc e in rw (← same) refl

-- a client of the network that is let in
abbrev near : IpAddr
near = v4 (10 ∷ 9 ∷ 8 ∷ 7 ∷ [])

abbrev far : IpAddr
far = v4 (11 ∷ 0 ∷ 0 ∷ 1 ∷ [])

abbrev seen : List Event
seen = accepted far ∷ accept_error (bytes "too many files") ∷ accepted near ∷ shutdown ∷ []

abbrev net : Network
net = record {
  Listener = SocketAddr;
  bind = λ addr. ok addr;
  local_addr = λ addr. ok addr;
  events = λ addr. seen;
  runtime_builds = true;
}

far-IsAddr : IsAddr far
far-IsAddr = (refl, (omega arith, (omega arith, (omega arith, (omega arith, tt)))))

near-IsAddr : IsAddr near
near-IsAddr = (refl, (omega arith, (omega arith, (omega arith, (omega arith, tt)))))

seen-IsAddr : All IsAddr (offered seen)
unfolding offered
seen-IsAddr = (far-IsAddr, (near-IsAddr, tt))

near_is_served : Memᴰ near (accept_loop started seen).spawned
unfolding accept_loop is_ip_allowed contains masked_eq
near_is_served = Memᴰ.head refl

near_is_spawned : Memᴰ near (main net json host (bytes "main") (bytes "0a1b") args).spawned
unfolding main serve run
near_is_spawned = rw (args_parsed, main) near_is_served

main-IsLetIn_example :
    (config : Config) × (events : List Event) × (parse json host args ≡ ok (some config))
    × IsUsable host config
    × IsSeen net config events
    × Memᴰ near (offered events)
    × IsLetIn config near
main-IsLetIn_example =
    main-IsLetIn net json host (bytes "main") (bytes "0a1b") args near srv_is_absolute
      (λ listener. seen-IsAddr) near_is_spawned

started-IsUsable : IsUsable host started
started-IsUsable = parse-IsUsable host json args started srv_is_absolute args_parsed

accept_loop-Chosen_example :
    Chosen started (offered seen) (accept_loop started seen).spawned
    × ((accept_loop started seen).status ≡ (if shuts_down seen then exited 0 else serving))
accept_loop-Chosen_example = accept_loop-Chosen started seen started-IsUsable.whitelist seen-IsAddr

abbrev documentation : Cidr
documentation = record { network = v6 (32 ∷ 1 ∷ 13 ∷ 184 ∷ replicate 12 0); prefix = 32 }

documentation_read : parse_cidr (bytes "2001:db8::/32") ≡ ok documentation
unfolding parse_cidr canonicalize mask mask_from split_once parse_u8 parse_ip
documentation_read = refl

-- the whitelist with an IPv6 network before the IPv4 network
abbrev both : Config
both = record started { ip_whitelist = documentation ∷ started.ip_whitelist }

parse_whitelist_csv-ip_whitelist_repr_example :
    parse_whitelist_csv (ip_whitelist_repr both) ≡ ok both.ip_whitelist
parse_whitelist_csv-ip_whitelist_repr_example =
    parse_whitelist_csv-ip_whitelist_repr both (λ e. cc e)
      (
        parse-IsCidr (bytes "2001:db8::/32") documentation documentation_read,
        started-IsUsable.whitelist,
      )

-- a configuration file with the keys that it has to have
abbrev file : Value
file = json.object (
    (bytes "listen_ip", json.string (bytes "localhost"))
    ∷ (bytes "listen_port", json.number (pos 3333))
    ∷ (bytes "workers", json.number (pos 4))
    ∷ (bytes "databases_folder", json.string (bytes "sqlite"))
    ∷ (bytes "client_max_packet_size", json.number (pos 16777216))
    ∷ [])

abbrev from_the_file : Config
from_the_file = record started { auth = []; ip_whitelist = [] }

file_accepted : from_json json host file ≡ ok from_the_file
unfolding from_json require_str require_u64 parse_whitelist_json optional_busy_timeout optional_auth
    resolve_endpoint resolve_database_path join is_absolute
file_accepted = refl

from_json_iff_example :
    (from_json json host file ≡ ok from_the_file) ↔ Gives json host file from_the_file
from_json_iff_example = from_json_iff json host file from_the_file
