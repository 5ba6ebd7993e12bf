-- ===== src/Config/Usable.antt =====
-- The databases folder and the whitelist of a configuration that src/config.rs gives.
use sqlite_server_rs.Prelude.{
  ◌≡◌, sym, ap, ◌∙◌, true, some, [], ◌∷◌, arith, Text, bytes, Result, ok, map_err, >>=-eq-ok,
  Result-cases, Bool-cases, Option-cases, inl, inr, All,
}
use sqlite_server_rs.Json.{Json}
use sqlite_server_rs.Rust.FilePath.{is_absolute, join}
use sqlite_server_rs.Cidr.Contains.{IsCidr}
use sqlite_server_rs.Config.{
  Config, Host, Args, make_absolute, resolve_database_path, require_str, require_u64,
  optional_busy_timeout, optional_auth, parse_whitelist_json, parse_whitelist_csv, from_json,
  from_file, from_args, parse,
}
use sqlite_server_rs.Config.Whitelist.{parse_whitelist_csv-IsCidr, parse_whitelist_json-IsCidr}

ok-eq-ok : (a b : Config) → ◌≡◌ {A = Result Config Text} (ok a) (ok b) → a ≡ b
ok-eq-ok a b h = cc h

-- A path joined to an absolute one is absolute.
is_absolute-join : (dir path : Text) → is_absolute dir ≡ true → is_absolute (join dir path) ≡ true
unfolding is_absolute join
is_absolute-join [] path h = cc h
is_absolute-join (x ∷ dir) path h = ground arith

module _ (host : Host) where
  -- The current directory is reported as an absolute path.
  abbrev pub HasAbsoluteDir : Type 0
  HasAbsoluteDir = (dir : Text) → host.current_dir ≡ ok dir → is_absolute dir ≡ true

  -- The databases folder is absolute and is there, and the whitelist is well formed.
  pub record IsUsable (config : Config) : Type 0 where
    pub absolute : is_absolute config.databases_folder ≡ true
    pub there : host.exists config.databases_folder ≡ true
    pub whitelist : All IsCidr config.ip_whitelist

  make_absolute-is_absolute :
      (path folder : Text)
      → HasAbsoluteDir
      → make_absolute host path ≡ ok folder
      → is_absolute folder ≡ true
  unfolding make_absolute
  make_absolute-is_absolute path folder dirs h = elim (Bool-cases (is_absolute path)) [
    | inl is_abs ↦ let e : path ≡ folder = cc (rw is_abs at h) in ap is_absolute (sym e) ∙ is_abs
    | inr is_rel ↦ elim (Result-cases host.current_dir) [
      | inl (dir, e) ↦
          let same : join dir path ≡ folder = cc (rw (is_rel, e) at h) in
          ap is_absolute (sym same) ∙ is_absolute-join dir path (dirs dir e)
      | inr (failure, e) ↦ cc (rw (is_rel, e) at h)
    ]
  ]

  resolved_folder :
      (path folder : Text)
      → HasAbsoluteDir
      → resolve_database_path host path ≡ ok folder
      → (is_absolute folder ≡ true) × (host.exists folder ≡ true)
  unfolding resolve_database_path
  resolved_folder path folder dirs h =
      let (absolute, e, h1) = >>=-eq-ok (make_absolute host path) _ h in
      elim (Bool-cases (host.exists absolute)) [
        | inl there ↦
            let same : absolute ≡ folder = cc (rw there at h1) in
            (
              make_absolute-is_absolute path folder dirs (e ∙ ap ok same),
              ap host.exists (sym same) ∙ there,
            )
        | inr missing ↦ cc (rw missing at h1)
      ]

  from_args-IsUsable :
      (j : Json) (args : Args) (c : Config)
      → HasAbsoluteDir
      → from_args j host args ≡ ok c
      → IsUsable c
  unfolding from_args
  from_args-IsUsable j args c dirs h =
      let (folder, e, h1) = >>=-eq-ok (resolve_database_path host args.databases_folder) _ h in
      let (nets, e', h2) = >>=-eq-ok (parse_whitelist_csv args.ip_whitelist) _ h1 in
      let found = resolved_folder args.databases_folder folder dirs e in
      let same_folder : folder ≡ c.databases_folder =
        ap (λ (k : Config). k.databases_folder) (ok-eq-ok _ c h2) in
      let same_nets : nets ≡ c.ip_whitelist =
        ap (λ (k : Config). k.ip_whitelist) (ok-eq-ok _ c h2) in
      record {
        absolute = rw (← same_folder) found.0;
        there = rw (← same_folder) found.1;
        whitelist = rw (← same_nets) (parse_whitelist_csv-IsCidr args.ip_whitelist nets e');
      }

  from_json-IsUsable :
      (j : Json) (json : j.Value) (c : Config)
      → HasAbsoluteDir
      → from_json j host json ≡ ok c
      → IsUsable c
  unfolding from_json
  from_json-IsUsable j json c dirs h =
      let (ip, e0, h0) = >>=-eq-ok (require_str j json (bytes "listen_ip")) _ h in
      let (port, e1, h1) = >>=-eq-ok (require_u64 j json (bytes "listen_port")) _ h0 in
      let (busy, e2, h2) = >>=-eq-ok (optional_busy_timeout j json) _ h1 in
      let (auth, e3, h3) = >>=-eq-ok (optional_auth j json) _ h2 in
      let (nets, e4, h4) = >>=-eq-ok (parse_whitelist_json j json) _ h3 in
      let (workers, e5, h5) = >>=-eq-ok (require_u64 j json (bytes "workers")) _ h4 in
      let (path, e6, h6) = >>=-eq-ok (require_str j json (bytes "databases_folder")) _ h5 in
      let (folder, e7, h7) = >>=-eq-ok (resolve_database_path host path) _ h6 in
      let (size, e8, h8) = >>=-eq-ok (require_u64 j json (bytes "client_max_packet_size")) _ h7 in
      let found = resolved_folder path folder dirs e7 in
      let same_folder : folder ≡ c.databases_folder =
        ap (λ (k : Config). k.databases_folder) (ok-eq-ok _ c h8) in
      let same_nets : nets ≡ c.ip_whitelist =
        ap (λ (k : Config). k.ip_whitelist) (ok-eq-ok _ c h8) in
      record {
        absolute = rw (← same_folder) found.0;
        there = rw (← same_folder) found.1;
        whitelist = rw (← same_nets) (parse_whitelist_json-IsCidr j json nets e4);
      }

  from_file-IsUsable :
      (j : Json) (path : Text) (c : Config)
      → HasAbsoluteDir
      → from_file j host path ≡ ok c
      → IsUsable c
  unfolding from_file
  from_file-IsUsable j path c dirs h = elim (Bool-cases (host.exists path)) [
    | inl there ↦
        let (text, e, h1) = >>=-eq-ok (map_err _ (host.read_to_string path)) _ (rw there at h) in
        let (json, e', h2) = >>=-eq-ok (map_err _ (j.from_str text)) _ h1 in
        from_json-IsUsable j json c dirs h2
    | inr missing ↦ cc (rw missing at h)
  ]

  -- If the current directory is absolute, every configuration that the program starts with, from the
  -- command line or from a file, has a databases folder that is absolute and is there, and a
  -- whitelist of well-formed networks.
  pub parse-IsUsable :
      (j : Json) (args : Args) (c : Config)
      → HasAbsoluteDir
      → parse j host args ≡ ok (some c)
      → IsUsable c
  unfolding parse
  parse-IsUsable j args c dirs h = elim (Bool-cases args.version) [
    | inl version ↦ cc (rw version at h)
    | inr start ↦ elim (Option-cases args.config) [
      | inl flags ↦
          let (config, e, h1) = >>=-eq-ok (from_args j host args) _ (rw (start, flags) at h) in
          from_args-IsUsable j args c dirs (e ∙ ap ok (cc h1))
      | inr (path, given) ↦
          let (config, e, h1) = >>=-eq-ok (from_file j host path) _ (rw (start, given) at h) in
          from_file-IsUsable j path c dirs (e ∙ ap ok (cc h1))
    ]
  ]
