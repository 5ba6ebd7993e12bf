-- ===== src/Tests/Library.antt =====
-- A stand-in for what the client calls: objects are lists, the only number that is not an integer is
-- 1.5, and a scanner finds the placeholders.
use sqlite_server_rs.Prelude.{
  ℕ, ◌≡◌, refl, true, false, ◌==◌, ◌&&◌, leb, Option, none, some, List, [], ◌∷◌, ◌++◌, ap, ◌∙◌, map,
  Text, bytes, ok, if◌then◌else◌, Bool-cases, inl, inr, arith,
}
use sqlite_server_rs.Json.{last_value}
use sqlite_server_rs.Client.{
  ClientDeps, ClientLaws, Piece, plain, numbered, bare, piece_text, pieces_text,
}
use sqlite_server_rs.Tests.Values.{Value, null, number, field, empty_object, object, print, json}

abbrev as_object : Value → Option (List (Text × Value))
as_object empty_object = some []
as_object (field k v fields) = elim (as_object fields) [
  | none ↦ none
  | some later ↦ some ((k, v) ∷ later)
]
as_object _ = none

abbrev push : ℕ → List Piece → List Piece
push x (plain s ∷ pieces) = plain (x ∷ s) ∷ pieces
push x pieces = plain (x ∷ []) ∷ pieces

abbrev placeholder : Text → Piece
placeholder [] = bare
placeholder (x ∷ digits) = numbered (x ∷ digits)

abbrev with_text : Text → List Piece → List Piece
with_text [] pieces = pieces
with_text (x ∷ s) pieces = push x (with_text s pieces)

-- the digits in front, and the pieces after them
unfoldable scan : Text → Text × List Piece
scan [] = ([], [])
scan (x ∷ s) =
    let (digits, pieces) = scan s in
    if x == b'?'
    then ([], placeholder digits ∷ pieces)
    else if leb b'0' x && leb x b'9'
    then (x ∷ digits, pieces)
    else ([], push x (with_text digits pieces))

unfoldable pub captures : Text → List Piece
unfolding scan
captures sql = with_text (scan sql).0 (scan sql).1

with_text-joined :
    (s : Text) (pieces : List Piece) → pieces_text (with_text s pieces) ≡ s ++ pieces_text pieces
with_text-joined [] pieces = refl
with_text-joined (x ∷ s) pieces =
    push-joined x (with_text s pieces) ∙ ap (λ t. x ∷ t) (with_text-joined s pieces)
  where
    push-joined :
        (x : ℕ) (pieces : List Piece) → pieces_text (push x pieces) ≡ x ∷ pieces_text pieces
    push-joined x [] = refl
    push-joined x (plain s ∷ pieces) = refl
    push-joined x (numbered s ∷ pieces) = refl
    push-joined x (bare ∷ pieces) = refl

placeholder-text : (digits : Text) → piece_text (placeholder digits) ≡ b'?' ∷ digits
placeholder-text [] = refl
placeholder-text (x ∷ digits) = refl

scan-joined : (s : Text) → (scan s).0 ++ pieces_text (scan s).1 ≡ s
unfolding scan
scan-joined [] = refl
scan-joined (x ∷ s) =
    let ih = scan-joined s in
    elim (Bool-cases (x == b'?')) [
      | inl mark ↦
          let same : x ≡ b'?' = ground (arith, mark) in
          rw (mark, placeholder-text (scan s).0, ih, same) refl
      | inr other ↦ elim (Bool-cases (leb b'0' x && leb x b'9')) [
        | inl digit ↦ rw (other, digit) (ap (λ t. x ∷ t) ih)
        | inr char ↦
            rw (other, char) (with_text-joined (x ∷ (scan s).0) (scan s).1 ∙ ap (λ t. x ∷ t) ih)
      ]
    ]

abbrev pub library : ClientDeps json
library = record {
  Map = List (Text × Value);
  Float = Unit {0};
  as_object = as_object;
  map_get = λ m key. last_value key m;
  map_keys = map (λ (kv : Text × Value). kv.0);
  is_null = λ v. elim v [ null ↦ true | _ ↦ false ];
  as_i64 = λ v. elim v [ number n ↦ some n | _ ↦ none ];
  as_f64 = λ v. none;
  display = print;
  to_vec = λ v. ok (print v);
  from_slice = json.from_str;
  is_nan = λ f. false;
  is_infinite = λ f. false;
  is_positive = λ f. true;
  float_to_string = λ f. bytes "1.5";
  captures = captures;
}

as_object-object : (fields : List (Text × Value)) → as_object (object fields) ≡ some fields
as_object-object [] = refl
as_object-object ((k, v) ∷ fields) = rw (as_object-object fields) refl

pub library_laws : ClientLaws json library
unfolding captures
library_laws = record {
  as_object-object = λ fields. (fields, as_object-object fields, λ key. refl);
  captures_joined = λ sql. with_text-joined (scan sql).0 (scan sql).1 ∙ scan-joined sql;
}
