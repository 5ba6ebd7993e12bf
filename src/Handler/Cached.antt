-- ===== src/Handler/Cached.antt =====
-- The cache of connections of src/handler.rs, over the requests of a connection.
use mathlib.Core.Path.{subst}
use sqlite_server_rs.Prelude.{
  ◌≡◌, ◌∙◌, ap, inl, inr, List, [], ◌∷◌, Text, ok, some, Bool-cases, Option-cases, Result-cases,
  is_empty, text_eq, text_eq_iff, All, refl,
}
use sqlite_server_rs.Dict.{lookup}
use sqlite_server_rs.Store.{Deps}
use sqlite_server_rs.Config.{Config}
use sqlite_server_rs.Session.{Session, new}
use sqlite_server_rs.DatabaseName.Plain.{IsPlainName, safe-IsPlainName}
use sqlite_server_rs.Query.{get_connection}
use sqlite_server_rs.Query.Cache.{IsTuned}
use sqlite_server_rs.Query.Reuse.{open_connection-IsTuned}
use sqlite_server_rs.Handler.{parse_request, carries_password, answer, handle_request}
use sqlite_server_rs.Handler.Commands.{CacheOf, run_command-Keeps}
use sqlite_server_rs.Handler.Auth.{after, request-authenticated}

module _ (d : Deps) where
  -- What holds of each connection that a request may cache holds of all that are cached.
  module _ (P : Text → d.Connection → Type 0) (config : Config)
      (cached : (world : d.World) (db : Text) (conn : d.Connection)
        → IsPlainName db
        → IsTuned d config db conn
        → P db conn) where
    answer-CacheOf :
        (req : Text) (request : d.Value) (s : Session d)
        → s.config ≡ config
        → CacheOf d P s
        → CacheOf d P (answer d req request s).1
    unfolding answer
    answer-CacheOf req request s same h =
        let kept =
          run_command-Keeps d P s
            (λ db conn ok t.
              cached s.world db conn (safe-IsPlainName d s.world s.config.databases_folder db ok)
                (subst (λ k. IsTuned d k db conn) same t))
            req request in
        elim (Bool-cases (is_empty s.config.auth)) [
          | inl unset ↦ simp unset (kept.cached h)
          | inr set ↦ elim (Bool-cases (carries_password d s.config.auth request)) [
            | inl given ↦ simp (set, given) h
            | inr missing ↦ elim (Bool-cases s.authenticated) [
              | inl inside ↦ simp (set, missing, inside) (kept.cached h)
              | inr out ↦ simp (set, missing, out) h
            ]
          ]
        ]

    pub handle_request-CacheOf :
        (req : Text) (s : Session d)
        → s.config ≡ config
        → CacheOf d P s
        → CacheOf d P (handle_request d req s).1
    unfolding handle_request
    handle_request-CacheOf req s same h = elim (Result-cases (parse_request d req)) [
      | inl (request, e) ↦ rw (e, handle_request) (answer-CacheOf req request s same h)
      | inr (message, e) ↦ rw (e, handle_request) h
    ]

    after-CacheOf :
        (reqs : List Text) (s : Session d)
        → s.config ≡ config
        → CacheOf d P s
        → CacheOf d P (after d reqs s) × ((after d reqs s).config ≡ config)
    unfolding after
    after-CacheOf [] s same h = (h, same)
    after-CacheOf (req ∷ reqs) s same h =
        after-CacheOf reqs (handle_request d req s).1 ((request-authenticated d req s).1 ∙ same)
          (handle_request-CacheOf req s same h)

  abbrev pub PlainCache : Session d → Type 0
  PlainCache = CacheOf d (λ db conn. IsPlainName db)

  -- Whatever requests a connection has answered, every name in its cache is a relative path of one
  -- component that is a file name.
  pub cache_is_plain :
      (config : Config) (world : d.World) (reqs : List Text)
      → PlainCache (after d reqs (new d config world))
  cache_is_plain config world reqs =
      (after-CacheOf (λ db conn. IsPlainName db) config (λ w db conn p t. p) reqs
        (new d config world) refl tt).0

  lookup-All :
      (P : Text → d.Connection → Type 0) (db : Text) (conn : d.Connection)
      (entries : List (Text × d.Connection))
      → All (λ e. P e.0 e.1) entries
      → lookup db entries ≡ some conn
      → P db conn
  unfolding lookup
  lookup-All P db conn [] h e = cc e
  lookup-All P db conn ((k, c) ∷ entries) h e = elim (Bool-cases (text_eq k db)) [
    | inl same ↦
        let at_key : k ≡ db = (text_eq_iff k db).0 same in
        let this : c ≡ conn = cc (rw (same, lookup) at e) in
        subst (λ q. P q conn) at_key (subst (P k) this h.0)
    | inr other ↦ lookup-All P db conn entries h.1 (rw (other, lookup) at e)
  ]

  -- A connection that a client gets, cached or new, is tuned where those in the cache are.
  pub get_connection-cached_or_new :
      (config : Config) (s : Session d) (db : Text) (conn : d.Connection)
      → s.config ≡ config
      → CacheOf d (IsTuned d config) s
      → (get_connection d db s).0 ≡ ok conn
      → IsTuned d config db conn
  unfolding get_connection
  get_connection-cached_or_new config s db conn same tuned got =
      elim (Option-cases (lookup db s.databases)) [
        | inl absent ↦
            subst (λ k. IsTuned d k db conn) same
              (open_connection-IsTuned d db s conn (rw (absent, get_connection) at got))
        | inr (c, found) ↦
            lookup-All (IsTuned d config) db conn s.databases tuned
              (found ∙ ap some (cc (rw (found, get_connection) at got)))
      ]
