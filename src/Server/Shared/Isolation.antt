-- ===== src/Server/Shared/Isolation.antt =====
-- The connections of src/server.rs beside each other: the password that one of them gives does not let
-- another one in.
use sqlite_server_rs.Prelude.{
  ℕ, suc, ◌≡◌, refl, sym, ap, ◌∙◌, inl, inr, Bool, true, false, not, ◌&&◌, ◌||◌, some, List, [],
  ◌∷◌, Text, is_empty, arith, get_elem?, All, if◌then◌else◌, ◌==◌, Bool-cases, zero,
}
use sqlite_server_rs.Config.{Config}
use sqlite_server_rs.Store.{Deps}
use sqlite_server_rs.Session.{Session}
use sqlite_server_rs.Handler.{handle_request}
use sqlite_server_rs.Handler.Auth.{
  any_carried, carried, or-eq-false, request-authenticated, locked_request,
}
use sqlite_server_rs.Server.Shared.{Handler, Shared, session_of, handler_of, handle_at, handle_all}

-- the requests of task `i`, in their order
unfoldable pub requests_of : ℕ → List (ℕ × Text) → List Text
requests_of i [] = []
requests_of i ((j, req) ∷ schedule) =
    let later = requests_of i schedule in if i == j then req ∷ later else later

-- the requests of all tasks
unfoldable pub all_requests : List (ℕ × Text) → List Text
all_requests [] = []
all_requests ((j, req) ∷ schedule) = req ∷ all_requests schedule

module _ (d : Deps) (config : Config) where
  -- task `i` stands, and it is authenticated or not
  pub record IsAuth (st : Shared d) (i : ℕ) (authenticated : Bool) : Type 0 where
    pub handler : Handler d
    pub stands : get_elem? st.handlers i ≡ some handler
    pub answer : handler.authenticated ≡ authenticated

  pub handle_at-own :
      (i : ℕ) (req : Text) (handlers : List (Handler d)) (world : d.World) (h : Handler d)
      → get_elem? handlers i ≡ some h
      → get_elem? (handle_at d config i req handlers world).handlers i
        ≡ some (handler_of d config (handle_request d req (session_of d config h world)).1)
  unfolding handle_at
  handle_at-own i req [] world h e = cc
  handle_at-own zero req (h' ∷ handlers) world h e = let same : h' ≡ h = cc e in rw same refl
  handle_at-own (suc i) req (h' ∷ handlers) world h e = handle_at-own i req handlers world h e

  pub handle_at-other :
      (i j : ℕ) (req : Text) (handlers : List (Handler d)) (world : d.World)
      → (i == j) ≡ false
      → get_elem? (handle_at d config j req handlers world).handlers i ≡ get_elem? handlers i
  unfolding handle_at
  handle_at-other i j req [] world e = refl
  handle_at-other zero zero req (h ∷ handlers) world e = absurd (ground (arith, e))
  handle_at-other zero (suc j) req (h ∷ handlers) world e = refl
  handle_at-other (suc i) zero req (h ∷ handlers) world e = refl
  handle_at-other (suc i) (suc j) req (h ∷ handlers) world e =
      handle_at-other i j req handlers world (ground (arith, e))

  one_request :
      (i j : ℕ) (b : Bool) (req : Text) (st : Shared d)
      → IsAuth st i b
      → IsAuth
          (handle_at d config j req st.handlers st.world)
          i
          (b || (not (is_empty config.auth) && (i == j && carried d config.auth req)))
  one_request i j b req st a = elim (Bool-cases (i == j)) [
    | inl own ↦
        let same : i ≡ j = ground (arith, own) in
        let (given, kept) = request-authenticated d req (session_of d config a.handler st.world) in
        record {
          handler =
              handler_of d config (handle_request d req (session_of d config a.handler st.world)).1;
          stands = rw (sym same) (handle_at-own i req st.handlers st.world a.handler a.stands);
          answer = rw (own, sym a.answer) given;
        }
    | inr other ↦ record {
      handler = a.handler;
      stands = handle_at-other i j req st.handlers st.world other ∙ a.stands;
      answer = rw (other, a.answer) (ground arith);
    }
  ]

  or_and_if :
      (b set own c : Bool) (req : Text) (reqs : List Text)
      → carried d config.auth req ≡ c
      → ((b || (set && (own && c))) || (set && any_carried d config.auth reqs))
        ≡ (b || (set && any_carried d config.auth (if own then req ∷ reqs else reqs)))
  unfolding any_carried
  or_and_if b set true c req reqs h = rw h (ground arith)
  or_and_if b set false c req reqs h = ground arith

  -- In a server whose connections take turns in any order, a connection is authenticated exactly when
  -- it was before, or a password is set and one of its own requests carried it, whatever the other
  -- connections sent.
  pub own_password_only :
      (i : ℕ) (schedule : List (ℕ × Text)) (b : Bool) (st : Shared d)
      → IsAuth st i b
      → IsAuth
          (handle_all d config schedule st)
          i
          (b || (not (is_empty config.auth) && any_carried d config.auth (requests_of i schedule)))
  unfolding handle_all requests_of any_carried
  own_password_only i [] b st a = record {
    handler = a.handler;
    stands = a.stands;
    answer = ground (arith, a.answer);
  }
  own_password_only i ((j, req) ∷ schedule) b st a =
      rw
        (sym (
          or_and_if b (not (is_empty config.auth)) (i == j) (carried d config.auth req) req
            (requests_of i schedule) refl))
        (own_password_only i schedule _ (handle_at d config j req st.handlers st.world)
          (one_request i j b req st a))

  abbrev pub AllOut : List (Handler d) → Type 0
  AllOut handlers = All (λ (h : Handler d). h.authenticated ≡ false) handlers

  handle_at-out :
      (i : ℕ) (req : Text) (handlers : List (Handler d)) (world : d.World)
      → is_empty config.auth ≡ false
      → carried d config.auth req ≡ false
      → AllOut handlers
      → handle_at d config i req handlers world ≡ record { handlers = handlers; world = world }
  unfolding handle_at
  handle_at-out i req [] world set missing out = refl
  handle_at-out zero req (h ∷ handlers) world set missing (out, outs) =
      let (refused, same) = locked_request d req (session_of d config h world) (set, out) missing in
      ap
        (λ (s : Session d). record { handlers = handler_of d config s ∷ handlers; world = s.world })
        same
  handle_at-out (suc i) req (h ∷ handlers) world set missing (out, outs) =
      ap (λ (st : Shared d). record { handlers = h ∷ st.handlers; world = st.world })
        (handle_at-out i req handlers world set missing outs)

  -- While a password is set, no connection is authenticated and none of their requests carries it, the
  -- requests of all connections, in any order, leave the files, the databases and every connection as
  -- they were.
  pub outsiders_change_nothing :
      (schedule : List (ℕ × Text)) (st : Shared d)
      → is_empty config.auth ≡ false
      → AllOut st.handlers
      → any_carried d config.auth (all_requests schedule) ≡ false
      → handle_all d config schedule st ≡ st
  unfolding handle_all all_requests any_carried
  outsiders_change_nothing [] st set out missing = refl
  outsiders_change_nothing ((i, req) ∷ schedule) st set out missing =
      let parts = or-eq-false _ _ missing in
      rw (handle_at-out i req st.handlers st.world set parts.0 out)
        (outsiders_change_nothing schedule st set out parts.1)
