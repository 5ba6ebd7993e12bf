-- ===== src/Program.antt =====
-- `main` of src/main.rs and `run` of src/server.rs, with what they print and the status that the
-- process ends with. The network and the signals are a parameter.
pub mod Accepting
use sqlite_server_rs.Prelude.{
  ℕ, Bool, true, false, not, Option, none, some, List, [], ◌∷◌, ◌++◌, Text, bytes, is_empty, Result,
  ok, err, if◌then◌else◌,
}
use sqlite_server_rs.Json.{Json}
use sqlite_server_rs.Rust.Decimal.{decimal}
use sqlite_server_rs.Rust.Ip.{IpAddr, v4, v6}
use sqlite_server_rs.Rust.IpDisplay.{display_ip}
use sqlite_server_rs.Rust.Utf8.{from_utf8_lossy}
use sqlite_server_rs.Config.{
  SocketAddr, Config, Host, Args, is_ip_allowed, ip_whitelist_repr, parse,
}

-- what the `select!` of the loop sees
pub data Event : Type 0 where
  accepted : IpAddr → Event
  accept_error : Text → Event
  shutdown : Event

pub data Status : Type 0 where
  serving panicked : Status
  exited : ℕ → Status

-- the lines on the standard output and on the standard error, the peers that got a task, in order, and
-- how the process stands
pub record Process : Type 0 where
  pub out : List Text
  pub errors : List Text
  pub spawned : List IpAddr
  pub status : Status

pub record Network : Type 1 where
  pub Listener : Type 0
  pub bind : SocketAddr → Result Listener Text
  pub local_addr : Listener → Result SocketAddr Text
  -- what happens at the listener, and the signals, up to now
  pub events : Listener → List Event
  -- the runtime of tokio can be built
  pub runtime_builds : Bool

-- `Display` of a socket address
abbrev display_addr : SocketAddr → Text
display_addr addr = elim addr.ip [
  | v4 a ↦ display_ip (v4 a) ++ (b':' ∷ decimal addr.port)
  | v6 a ↦ b'[' ∷ (display_ip (v6 a) ++ (bytes "]:" ++ decimal addr.port))
]

abbrev pub listening : Config → SocketAddr → Text
listening config local_addr =
    bytes "sqlite-server listening on "
    ++ (display_addr local_addr
        ++ (bytes " (workers: "
            ++ (decimal config.workers
                ++ (bytes ", databases: "
                    ++ (from_utf8_lossy config.databases_folder
                        ++ (bytes ", max packet: "
                            ++ (decimal config.client_max_packet_size
                                ++ (bytes " bytes, auth: "
                                    ++ ((if is_empty config.auth
                                          then bytes "disabled"
                                          else bytes "enabled")
                                        ++ (bytes ", ip whitelist: "
                                            ++ (ip_whitelist_repr config ++ bytes ")")))))))))))

abbrev rejection : IpAddr → Text
rejection ip = bytes "Connection rejected, not in ip whitelist: " ++ display_ip ip

-- the process at a status, with nothing printed
abbrev quiet : Status → Process
quiet status = record { out = []; errors = []; spawned = []; status = status }

-- the loop of `run`
unfoldable pub accept_loop : Config → List Event → Process
accept_loop config [] = quiet serving
accept_loop config (accepted ip ∷ events) =
    let later = accept_loop config events in
    elim (is_ip_allowed config ip) [
      | none ↦ quiet panicked
      | some true ↦ record later { spawned = ip ∷ later.spawned }
      | some false ↦ record later { errors = rejection ip ∷ later.errors }
    ]
accept_loop config (accept_error e ∷ events) =
    let later = accept_loop config events in
    record later { errors = (bytes "Accept error: " ++ e) ∷ later.errors }
accept_loop config (shutdown ∷ events) = record (quiet (exited 0)) {
  out = bytes "Server shutdown..." ∷ [];
}

-- a line on the standard error, and the exit status 1
abbrev failed : Text → Process
failed message = record (quiet (exited 1)) { errors = message ∷ [] }

module _ (net : Network) where
  open net use {Listener, bind, local_addr, events, runtime_builds}

  unfoldable pub run : Config → Result Process Text
  unfolding accept_loop
  run config = elim (bind config.listen_addr) [
    | err e ↦ err e
    | ok listener ↦ elim (local_addr listener) [
      | err e ↦ err e
      | ok addr ↦
          let p = accept_loop config (events listener) in
          ok (record p { out = listening config addr ∷ p.out })
    ]
  ]

  -- `main`, once there is a configuration
  unfoldable pub serve : Config → Process
  unfolding run
  serve config =
      if not runtime_builds
      then quiet panicked
      else elim (run config) [ ok p ↦ p | err e ↦ failed (bytes "Server error: " ++ e) ]

  module _ (j : Json) (host : Host) (branch commit : Text) where
    -- the text of `--version`
    abbrev version : Text
    version = bytes "GIT Branch: " ++ (branch ++ ((10 ∷ bytes "GIT Commit hash: ") ++ commit))

    unfoldable pub main : Args → Process
    unfolding serve
    main args = elim (parse j host args) [
      | err e ↦ failed (bytes "Config error:" ++ (10 ∷ 9 ∷ e))
      | ok none ↦ record (quiet (exited 0)) { out = version ∷ [] }
      | ok (some config) ↦ serve config
    ]
