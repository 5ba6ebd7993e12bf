-- ===== src/Connection/Refinement.antt =====
-- The loop of `handle` of src/connection.rs, against a list of requests answered one after the other.
use mathlib.Core.Path.{ap₂}
use sqlite_server_rs.Prelude.{
  ℕ, zero, suc, ◌+◌, ◌<◌, ◌≡◌, ◌≢◌, refl, sym, ap, ◌∙◌, Bool, List, [], ◌∷◌, ◌++◌, append_assoc,
  append-nil, map, arith, Text, length, inl, inr, ◌⊎◌,
}
use sqlite_server_rs.Config.{Config}
use sqlite_server_rs.Frame.{frame}
use sqlite_server_rs.Store.{Deps}
use sqlite_server_rs.Session.{Session, new}
use sqlite_server_rs.Handler.{handle_request}
use sqlite_server_rs.Handler.Auth.{after, replies}
use sqlite_server_rs.Connection.{Exit, Outcome, response_body, round, handle_loop, handle}
use sqlite_server_rs.Connection.Rounds.{
  Round-cases, Handled, Ended, nothing_done, unwritten, round-RoundDoes,
}

abbrev pub frames : List Text → Text
frames [] = []
frames (body ∷ bodies) = frame body ++ frames bodies

module _ (d : Deps) (write_ok : ℕ → Bool) where
  -- The bodies of the responses to a list of requests.
  abbrev pub bodies : List Text → Session d → List Text
  bodies requests s = map (response_body d write_ok) (replies d requests s)

  -- What a connection has done: it has answered a list of requests in turn, and handled one more if
  -- the write of its response failed.
  pub record Ran (sent : Text) (s : Session d) (o : Outcome d) : Type 0 where
    pub answered : List Text
    pub unwritten : List Text
    pub session : o.session ≡ after d (answered ++ unwritten) s
    pub output : o.output ≡ sent ++ frames (bodies answered s)
    pub last :
        ((unwritten ≡ []) × (o.exit ≢ Exit.write_failed))
        ⊎ ((length unwritten ≡ 1) × (o.exit ≡ Exit.write_failed))
    pub no_fuel_out : o.exit ≢ Exit.out_of_fuel

  Ended-Ran :
      {output : Text} {s : Session d} {o : Outcome d} → Ended d write_ok output s o → Ran output s o
  unfolding after replies
  Ended-Ran {output} {s} (nothing_done exit fuel written e) = record {
    answered = [];
    unwritten = [];
    session = ap (λ (o : Outcome d). o.session) e;
    output = ap (λ (o : Outcome d). o.output) e ∙ sym (append-nil output);
    last = inl (refl, λ p. written (sym (ap (λ (o : Outcome d). o.exit) e) ∙ p));
    no_fuel_out = λ p. fuel (sym (ap (λ (o : Outcome d). o.exit) e) ∙ p);
  }
  Ended-Ran {output} {s} (unwritten request e) = record {
    answered = [];
    unwritten = request ∷ [];
    session = ap (λ (o : Outcome d). o.session) e;
    output = ap (λ (o : Outcome d). o.output) e ∙ sym (append-nil output);
    last = inr (refl, ap (λ (o : Outcome d). o.exit) e);
    no_fuel_out = λ p. cc (p, ap (λ (o : Outcome d). o.exit) e);
  }

  Handled-Ran :
      {input output input' output' : Text} {s s' : Session d} {o : Outcome d}
      → Handled d write_ok input output s input' output' s'
      → Ran output' s' o
      → Ran output s o
  unfolding after replies
  Handled-Ran {output} {output'} {s} {o} h r = record {
    answered = h.request ∷ r.answered;
    unwritten = r.unwritten;
    session = r.session ∙ ap (after d (r.answered ++ r.unwritten)) h.session;
    output =
        r.output
        ∙ ap₂ (λ front t. front ++ frames (bodies r.answered t)) h.written h.session
        ∙ append_assoc output (frame (response_body d write_ok (handle_request d h.request s).0))
            (frames (bodies r.answered (handle_request d h.request s).1));
    last = r.last;
    no_fuel_out = r.no_fuel_out;
  }

  handle_loop-Ran :
      (fuel n : ℕ) (input output : Text) (s : Session d)
      → length input < fuel
      → Ran output s (handle_loop d write_ok fuel n input output s)
  unfolding handle_loop
  handle_loop-Ran zero n input output s h = absurd (omega arith)
  handle_loop-Ran (suc fuel) n input output s h =
      let does = round-RoundDoes d write_ok n input output s in
      elim (Round-cases d write_ok (round d write_ok n input output s)) [
        | inl (o, e) ↦ rw (e, handle_loop) (Ended-Ran (rw e at does))
        | inr (input', output', s', e) ↦
            let done : Handled d write_ok input output s input' output' s' = (rw e at does) in
            rw (e, handle_loop)
              (Handled-Ran done
                (handle_loop-Ran fuel (n + 1) input' output' s' (omega (arith, done.shorter))))
      ]

  -- Whatever the client sends and whichever writes fail, a connection ends, and all that it has done
  -- is to answer a list of requests one after the other: the session is the one after them, and the
  -- bytes that were written are the frames of the responses to them, in order. If a write failed, one
  -- more request was handled, the last.
  pub handle-Ran :
      (input : Text) (config : Config) (world : d.World)
      → Ran [] (new d config world) (handle d write_ok input config world)
  unfolding handle
  handle-Ran input config world =
      handle_loop-Ran (suc (length input)) 0 input [] (new d config world) (omega arith)
