-- ===== src/Config/File/Accepted.antt =====
-- The configuration files that `from_json` of src/config.rs accepts.
use sqlite_server_rs.Prelude.{
  ℕ, ◌%◌, ◌^◌, ◌≡◌, sym, ap, ◌∙◌, ◌↔◌, ◌⊎◌, none, [], Text, bytes, Result, ok, >>=-eq-ok,
}
use sqlite_server_rs.Json.{Json}
use sqlite_server_rs.Config.{
  Config, Host, default_busy_timeout_ms, require_str, require_u64, parse_whitelist_json,
  optional_busy_timeout, optional_auth, resolve_endpoint, resolve_database_path, from_json,
}
use sqlite_server_rs.Config.File.{
  StrAt, NumberAt, NetworksAt, require_str_iff, require_u64_iff, optional_busy_timeout_iff,
  optional_auth_iff, parse_whitelist_json_iff,
}

ok-eq-ok : (a b : Config) → ◌≡◌ {A = Result Config Text} (ok a) (ok b) → a ≡ b
ok-eq-ok a b h = cc h

module _ (j : Json) (host : Host) where
  -- The keys that the file has to have, with the types that they have to have, those that it may have,
  -- and what the configuration takes from each. Numbers keep their low 16, 32 or 64 bits.
  pub record Gives (json : j.Value) (c : Config) : Type 0 where
    pub listen_ip : Text
    pub listen_port : ℕ
    pub workers : ℕ
    pub folder : Text
    pub max_packet_size : ℕ
    pub ip_given : StrAt j json (bytes "listen_ip") listen_ip
    pub port_given : NumberAt j json (bytes "listen_port") listen_port
    pub workers_given : NumberAt j json (bytes "workers") workers
    pub folder_given : StrAt j json (bytes "databases_folder") folder
    pub size_given : NumberAt j json (bytes "client_max_packet_size") max_packet_size
    pub busy_timeout :
        ((j.get json (bytes "busy_timeout_ms") ≡ none)
          × (c.busy_timeout_ms ≡ default_busy_timeout_ms))
        ⊎ NumberAt j json (bytes "busy_timeout_ms") c.busy_timeout_ms
    pub auth :
        ((j.get json (bytes "auth") ≡ none) × (c.auth ≡ [])) ⊎ StrAt j json (bytes "auth") c.auth
    pub ip_whitelist :
        ((j.get json (bytes "ip_whitelist") ≡ none) × (c.ip_whitelist ≡ []))
        ⊎ NetworksAt j json c.ip_whitelist
    pub resolved : resolve_database_path host folder ≡ ok c.databases_folder
    pub address : c.listen_addr ≡ resolve_endpoint host listen_ip (listen_port % 2 ^ 16)
    pub worker_count : c.workers ≡ workers % 2 ^ 64
    pub size : c.client_max_packet_size ≡ max_packet_size % 2 ^ 32

  from_json_sound : (json : j.Value) (c : Config) → from_json j host json ≡ ok c → Gives json c
  unfolding from_json
  from_json_sound json c h =
      let (ip, e0, h0) = >>=-eq-ok (require_str j json (bytes "listen_ip")) _ h in
      let (port, e1, h1) = >>=-eq-ok (require_u64 j json (bytes "listen_port")) _ h0 in
      let (busy, e2, h2) = >>=-eq-ok (optional_busy_timeout j json) _ h1 in
      let (auth, e3, h3) = >>=-eq-ok (optional_auth j json) _ h2 in
      let (nets, e4, h4) = >>=-eq-ok (parse_whitelist_json j json) _ h3 in
      let (workers, e5, h5) = >>=-eq-ok (require_u64 j json (bytes "workers")) _ h4 in
      let (path, e6, h6) = >>=-eq-ok (require_str j json (bytes "databases_folder")) _ h5 in
      let (folder, e7, h7) = >>=-eq-ok (resolve_database_path host path) _ h6 in
      let (size, e8, h8) = >>=-eq-ok (require_u64 j json (bytes "client_max_packet_size")) _ h7 in
      let same = ok-eq-ok _ c h8 in
      record {
        listen_ip = ip;
        listen_port = port;
        workers = workers;
        folder = path;
        max_packet_size = size;
        ip_given = (require_str_iff j json (bytes "listen_ip") ip).0 e0;
        port_given = (require_u64_iff j json (bytes "listen_port") port).0 e1;
        workers_given = (require_u64_iff j json (bytes "workers") workers).0 e5;
        folder_given = (require_str_iff j json (bytes "databases_folder") path).0 e6;
        size_given = (require_u64_iff j json (bytes "client_max_packet_size") size).0 e8;
        busy_timeout =
            (optional_busy_timeout_iff j json c.busy_timeout_ms).0
              (e2 ∙ ap (λ (k : Config). ok k.busy_timeout_ms) same);
        auth = (optional_auth_iff j json c.auth).0 (e3 ∙ ap (λ (k : Config). ok k.auth) same);
        ip_whitelist =
            (parse_whitelist_json_iff j json c.ip_whitelist).0
              (e4 ∙ ap (λ (k : Config). ok k.ip_whitelist) same);
        resolved = e7 ∙ ap (λ (k : Config). ok k.databases_folder) same;
        address = ap (λ (k : Config). k.listen_addr) (sym same);
        worker_count = ap (λ (k : Config). k.workers) (sym same);
        size = ap (λ (k : Config). k.client_max_packet_size) (sym same);
      }

  from_json_complete : (json : j.Value) (c : Config) → Gives json c → from_json j host json ≡ ok c
  unfolding from_json
  from_json_complete json c g =
      rw
        (
          (require_str_iff j json (bytes "listen_ip") g.listen_ip).1 g.ip_given,
          (require_u64_iff j json (bytes "listen_port") g.listen_port).1 g.port_given,
          (optional_busy_timeout_iff j json c.busy_timeout_ms).1 g.busy_timeout,
          (optional_auth_iff j json c.auth).1 g.auth,
          (parse_whitelist_json_iff j json c.ip_whitelist).1 g.ip_whitelist,
          (require_u64_iff j json (bytes "workers") g.workers).1 g.workers_given,
          (require_str_iff j json (bytes "databases_folder") g.folder).1 g.folder_given,
          g.resolved,
          (require_u64_iff j json (bytes "client_max_packet_size") g.max_packet_size).1
              g.size_given,
        )
        (λ i. ok (record {
          listen_addr = sym g.address i;
          workers = sym g.worker_count i;
          databases_folder = c.databases_folder;
          client_max_packet_size = sym g.size i;
          busy_timeout_ms = c.busy_timeout_ms;
          auth = c.auth;
          ip_whitelist = c.ip_whitelist;
        }))

  -- A configuration file is accepted, and gives a configuration, exactly when it has each of the
  -- required keys with the type it has to have, the optional ones absent or of their type, and a folder
  -- that is there; numbers out of range are not refused, but taken modulo 2^16, 2^32 or 2^64.
  pub from_json_iff : (json : j.Value) (c : Config) → (from_json j host json ≡ ok c) ↔ Gives json c
  from_json_iff json c = (from_json_sound json c, from_json_complete json c)
