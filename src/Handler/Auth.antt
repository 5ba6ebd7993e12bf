-- ===== src/Handler/Auth.antt =====
-- The authentication in `handle_request` of src/handler.rs, over a list of requests.
use sqlite_server_rs.Prelude.{
  ◌≡◌, refl, ◌∙◌, ◌⊎◌, inl, inr, Bool, true, false, not, ◌&&◌, ◌||◌, List, [], ◌∷◌, Text, is_empty,
  ok, err, arith, Result-cases,
}
use sqlite_server_rs.Store.{Deps}
use sqlite_server_rs.Config.{Config}
use sqlite_server_rs.Session.{Session, new}
use sqlite_server_rs.Handler.{
  result_ok, result_error, invalid_request, parse_request, carries_password, answer, handle_request,
}
use sqlite_server_rs.Handler.Commands.{run_command-Keeps}

pub or_and_law :
    (a empty b c : Bool)
    → ((a || (not empty && b)) || (not empty && c)) ≡ (a || (not empty && (b || c)))
or_and_law a empty b c = ground arith

pub or-eq-false : (a b : Bool) → (a || b) ≡ false → (a ≡ false) × (b ≡ false)
or-eq-false a b h = ground arith

module _ (d : Deps) where
  -- the request is well formed and carries the password
  unfoldable pub carried : Text → Text → Bool
  carried password req = elim (parse_request d req) [
    | ok request ↦ carries_password d password request
    | err e ↦ false
  ]

  unfoldable pub any_carried : Text → List Text → Bool
  any_carried password [] = false
  any_carried password (req ∷ reqs) = carried password req || any_carried password reqs

  -- the session after a list of requests
  unfoldable pub after : List Text → Session d → Session d
  after [] s = s
  after (req ∷ reqs) s = after reqs (handle_request d req s).1

  unfoldable pub replies : List Text → Session d → List d.Value
  replies [] s = []
  replies (req ∷ reqs) s = (handle_request d req s).0 ∷ replies reqs (handle_request d req s).1

  -- the replies to a client that has not authenticated
  abbrev pub IsRefusal : Text → d.Value → Type 0
  IsRefusal req reply =
      (reply ≡ result_error d) ⊎ ((message : Text) × (reply ≡ invalid_request d message req))

  -- A password is set and the client has not given it.
  abbrev pub IsLocked : Session d → Type 0
  IsLocked s = (is_empty s.config.auth ≡ false) × (s.authenticated ≡ false)

  abbrev pub AllRefused : List Text → List d.Value → Type 0
  AllRefused [] answers = Unit
  AllRefused (req ∷ reqs) [] = ⊥
  AllRefused (req ∷ reqs) (answer ∷ answers) = IsRefusal req answer × AllRefused reqs answers

  pub locked_request :
      (req : Text) (s : Session d)
      → IsLocked s
      → carried s.config.auth req ≡ false
      → IsRefusal req (handle_request d req s).0 × ((handle_request d req s).1 ≡ s)
  unfolding carried handle_request answer
  locked_request req s (set, locked) h = elim (Result-cases (parse_request d req)) [
    | inl (request, e) ↦
        let no_password : carries_password d s.config.auth request ≡ false = ground arith in
        (inl (ground arith), ground arith)
    | inr (message, e) ↦ (inr (message, ground arith), ground arith)
  ]

  pub request-authenticated :
      (req : Text) (s : Session d)
      → ((handle_request d req s).1.authenticated
          ≡ (s.authenticated || (not (is_empty s.config.auth) && carried s.config.auth req)))
        × ((handle_request d req s).1.config ≡ s.config)
  unfolding carried handle_request answer
  request-authenticated req s = elim (Result-cases (parse_request d req)) [
    | inl (request, e) ↦
        let kept = run_command-Keeps d (λ _ _. Unit {0}) s (λ _ _ _ _. tt) req request in
        (ground (arith, kept.config, kept.authenticated), ground (arith, kept.config))
    | inr (message, e) ↦ (ground arith, ground arith)
  ]

  after-authenticated :
      (reqs : List Text) (s : Session d)
      → (after reqs s).authenticated
        ≡ (s.authenticated || (not (is_empty s.config.auth) && any_carried s.config.auth reqs))
  unfolding after any_carried
  after-authenticated [] s = ground arith
  after-authenticated (req ∷ reqs) s =
      let (a, c) = request-authenticated req s in
      let ih = after-authenticated reqs (handle_request d req s).1 in
      (rw (a, c) at ih)
      ∙ or_and_law s.authenticated (is_empty s.config.auth) (carried s.config.auth req)
          (any_carried s.config.auth reqs)

  -- A connection is authenticated exactly when a password is set and one of its requests so far
  -- carried it, whatever the other requests were.
  pub authenticated_exactly :
      (config : Config) (world : d.World) (reqs : List Text)
      → (after reqs (new d config world)).authenticated
        ≡ (not (is_empty config.auth) && any_carried config.auth reqs)
  authenticated_exactly config world reqs = after-authenticated reqs (new d config world)

  -- While a password is set and none of the requests carries it, every reply is a refusal and the
  -- session stays as it was: no command reaches the files, the databases or the cache.
  pub locked_requests :
      (reqs : List Text) (s : Session d)
      → IsLocked s
      → any_carried s.config.auth reqs ≡ false
      → AllRefused reqs (replies reqs s) × (after reqs s ≡ s)
  unfolding after replies any_carried
  locked_requests [] s locked h = (tt, refl)
  locked_requests (req ∷ reqs) s locked h =
      let parts = or-eq-false _ _ h in
      let (refused, same) = locked_request req s locked parts.0 in
      let (later, end) = locked_requests reqs s locked parts.1 in
      ((refused, rw same later), rw same end)

  -- A request that carries the password is answered "ok" and authenticates the connection, whatever
  -- else it holds: a command in it is not run.
  pub password_unlocks :
      (req : Text) (s : Session d)
      → is_empty s.config.auth ≡ false
      → carried s.config.auth req ≡ true
      → handle_request d req s ≡ (result_ok d, record s { authenticated = true })
  unfolding carried handle_request answer
  password_unlocks req s set h = elim (Result-cases (parse_request d req)) [
    | inl (request, e) ↦
        let given : carries_password d s.config.auth request ≡ true = ground arith in ground arith
    | inr (message, e) ↦ absurd (ground arith)
  ]
