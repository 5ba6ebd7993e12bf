-- ===== src/Client/Binding/Literal.antt =====
-- `serialize_sql_value` of examples/rust/client.rs, against the string literals of SQL.
use sqlite_server_rs.Prelude.{
  ℕ, ◌≡◌, refl, Bool, true, false, not, ◌&&◌, Option, none, some, [], ◌∷◌, ◌++◌, append_assoc, Text,
  bytes, ◌==◌, if◌then◌else◌, arith, Bool-cases, inl, inr, ==_iff,
}
use sqlite_server_rs.Json.{Json}
use sqlite_server_rs.Client.{ClientDeps}
use sqlite_server_rs.Client.Binding.{text, double_quotes, serialize_sql_value}

abbrev push_front : ℕ → Option (Text × Text) → Option (Text × Text)
push_front x none = none
push_front x (some (s, rest)) = some (x ∷ s, rest)

-- The rest of a string literal of SQL, in which a quote is written twice: what it holds, and the text
-- after it. The flag says that a quote has been read, which ends the literal unless it is doubled.
unfoldable pub read_quoted : Bool → Text → Option (Text × Text)
read_quoted ending [] = if ending then some ([], []) else none
read_quoted ending (x ∷ s) =
    let later = read_quoted (not ending && x == b'\'') s in
    if ending
    then (if x == b'\'' then push_front x later else some ([], x ∷ s))
    else (if x == b'\'' then later else push_front x later)

unfoldable pub read_literal : Text → Option (Text × Text)
unfolding read_quoted
read_literal [] = none
read_literal (x ∷ s) = if x == b'\'' then read_quoted false s else none

-- The text does not start with a quote.
abbrev pub IsUnquoted : Text → Type 0
IsUnquoted [] = Unit
IsUnquoted (x ∷ s) = (x == b'\'') ≡ false

read_quoted-ending : (rest : Text) → IsUnquoted rest → read_quoted true rest ≡ some ([], rest)
unfolding read_quoted
read_quoted-ending [] h = refl
read_quoted-ending (x ∷ s) h = ground arith

read_quoted-double_quotes :
    (s rest : Text)
    → IsUnquoted rest
    → read_quoted false (double_quotes s ++ (b'\'' ∷ rest)) ≡ some (s, rest)
unfolding read_quoted double_quotes
read_quoted-double_quotes [] rest h = read_quoted-ending rest h
read_quoted-double_quotes (x ∷ s) rest h = elim (Bool-cases (x == b'\'')) [
  | inl quote ↦ ground (arith, read_quoted-double_quotes s rest h, ==_iff x 39)
  | inr other ↦ ground (arith, read_quoted-double_quotes s rest h)
]

module _ {j : Json} (c : ClientDeps j) where
  -- SQL reads the literal of a text value back as that text, and reads on after it, if no quote follows.
  pub read_literal-text :
      (s rest : Text)
      → IsUnquoted rest
      → read_literal (serialize_sql_value c (text s) ++ rest) ≡ some (s, rest)
  unfolding read_literal serialize_sql_value
  read_literal-text s rest h =
      rw (append_assoc (double_quotes s) (bytes "'") rest) (read_quoted-double_quotes s rest h)
