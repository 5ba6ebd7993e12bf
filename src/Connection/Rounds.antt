-- ===== src/Connection/Rounds.antt =====
-- One round of `handle` of src/connection.rs.
use sqlite_server_rs.Prelude.{
  ℕ, ◌-◌, ◌≤◌, ◌<◌, ◌≡◌, ◌≢◌, refl, sym, ap, ◌∙◌, Bool, some, ◌++◌, arith, Text, ltb, leb, leb→le,
  length, drop, length-drop, Bool-cases, Option-cases, inl, inr, ◌⊎◌,
}
use sqlite_server_rs.Frame.{frame, from_le_bytes, read_exact}
use sqlite_server_rs.Rust.Utf8.{from_utf8_lossy}
use sqlite_server_rs.Store.{Deps}
use sqlite_server_rs.Session.{Session}
use sqlite_server_rs.Handler.{handle_request}
use sqlite_server_rs.Connection.{
  Exit, Outcome, Round, ended, went_on, response_body, stop, respond, read_body, round,
}

-- What a successful read takes and leaves.
length-rest :
    (n : ℕ) (input a rest : Text)
    → read_exact n input ≡ some (a, rest)
    → (n ≤ length input) × (length rest ≡ length input - n)
unfolding read_exact
length-rest n input a rest h = elim (Bool-cases (leb n (length input))) [
  | inl fits ↦
      let same : drop n input ≡ rest = ground arith in
      (leb→le _ _ fits, ap length (sym same) ∙ length-drop n input)
  | inr short ↦ absurd (ground arith)
]

module _ (d : Deps) (write_ok : ℕ → Bool) where
  pub Round-cases :
      (r : Round d write_ok)
      → ((o : Outcome d) × (r ≡ ended o))
        ⊎ ((input : Text) × (output : Text) × (s : Session d) × (r ≡ went_on input output s))
  Round-cases (ended o) = inl (o, refl)
  Round-cases (went_on input output s) = inr (input, output, s, refl)

  -- A round that goes on has read a whole message: it has handled the request in it and written the
  -- response, and fewer bytes are left.
  pub record Handled (input output : Text) (s : Session d) (input' output' : Text) (s' : Session d)
      : Type 0 where
    pub request : Text
    pub session : s' ≡ (handle_request d request s).1
    pub written :
        output' ≡ output ++ frame (response_body d write_ok (handle_request d request s).0)
    pub shorter : length input' < length input

  -- How a round ends the loop: at the end of the stream or a large packet with nothing done, or after
  -- a request whose response cannot be written.
  pub data Ended (output : Text) (s : Session d) (o : Outcome d) : Type 0 where
    nothing_done :
        (exit : Exit)
        → exit ≢ Exit.out_of_fuel
        → exit ≢ Exit.write_failed
        → o ≡ stop d write_ok exit s output
        → Ended output s o
    unwritten :
        (request : Text)
        → o ≡ stop d write_ok Exit.write_failed (handle_request d request s).1 output
        → Ended output s o

  -- What a round does, by its result.
  abbrev pub RoundDoes : Text → Text → Session d → Round d write_ok → Type 0
  RoundDoes input output s (ended o) = Ended output s o
  RoundDoes input output s (went_on input' output' s') = Handled input output s input' output' s'

  respond-RoundDoes :
      (n : ℕ) (input buf rest output : Text) (s : Session d)
      → length rest < length input
      → RoundDoes input output s (respond d write_ok n buf rest output s)
  unfolding respond
  respond-RoundDoes n input buf rest output s h = elim (Bool-cases (write_ok n)) [
    | inl written ↦
        rw written
          (record { request = from_utf8_lossy buf; session = refl; written = refl; shorter = h })
    | inr failed ↦ rw failed (unwritten (from_utf8_lossy buf) refl)
  ]

  pub round-RoundDoes :
      (n : ℕ) (input output : Text) (s : Session d)
      → RoundDoes input output s (round d write_ok n input output s)
  unfolding round read_body
  round-RoundDoes n input output s = elim (Option-cases (read_exact 4 input)) [
    | inl e ↦ rw (e, round) (nothing_done Exit.closed (λ p. cc p) (λ p. cc p) refl)
    | inr ((header, rest), e) ↦
        let size = from_le_bytes header in
        let (a, b) = length-rest 4 input header rest e in
        elim (Bool-cases (ltb s.config.client_max_packet_size size)) [
          | inl large ↦
              rw (e, round, large) (nothing_done Exit.too_large (λ p. cc p) (λ p. cc p) refl)
          | inr small ↦ elim (Option-cases (read_exact size rest)) [
            | inl e' ↦
                rw (e, round, small, e', read_body)
                  (nothing_done Exit.closed (λ p. cc p) (λ p. cc p) refl)
            | inr ((buf, rest'), e') ↦
                let (a', b') = length-rest size rest buf rest' e' in
                rw (e, round, small, e', read_body)
                  (respond-RoundDoes n input buf rest' output s (omega arith))
          ]
        ]
  ]
