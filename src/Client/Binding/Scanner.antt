-- ===== src/Client/Binding/Scanner.antt =====
-- Where the characters of a statement stand when SQLite reads it: in a string literal, a quoted name, a
-- comment, or in none of them. A doubled quote leaves its literal and enters it again. SQLite also
-- reads a variable such as `$a(b)` up to its parenthesis, whatever is in it: from such a variable on,
-- the scanner knows nothing of the rest.
use sqlite_server_rs.Prelude.{
  ℕ, ◌≡◌, refl, ap, ◌∙◌, Bool, true, false, ◌||◌, [], ◌∷◌, ◌++◌, Text, bytes, ◌==◌, if◌then◌else◌,
  Bool-cases, inl, inr,
}
use mathlib.Core.Path.{ap₂}
use sqlite_server_rs.Client.Binding.{double_quotes}

-- `minus` and `slash` stand after a `-` and a `/` that may begin a comment, and `star` after a `*` that
-- may end one.
pub data Mode : Type 0 where
  code minus slash in_string in_name in_backticks in_brackets line_comment block_comment star
        after_variable :
      Mode

abbrev from_code : ℕ → Mode
from_code x =
    if x == b'\''
    then in_string
    else if x == b'"'
    then in_name
    else if x == b'`'
    then in_backticks
    else if x == b'['
    then in_brackets
    else if x == b'-'
    then minus
    else if x == b'/'
    then slash
    else if x == b'$' || x == b'@' || x == b'#' || x == b':'
    then after_variable
    else code

unfoldable pub step : Mode → ℕ → Mode
step code x = from_code x
step minus x = if x == b'-' then line_comment else from_code x
step slash x = if x == b'*' then block_comment else from_code x
step in_string x = if x == b'\'' then code else in_string
step in_name x = if x == b'"' then code else in_name
step in_backticks x = if x == b'`' then code else in_backticks
step in_brackets x = if x == b']' then code else in_brackets
step line_comment x = if x == 10 then code else line_comment
step block_comment x = if x == b'*' then star else block_comment
step star x = if x == b'/' then code else if x == b'*' then star else block_comment
step after_variable x = after_variable

-- where the end of a text stands, from where its start does
unfoldable pub scan : Mode → Text → Mode
unfolding step
scan m [] = m
scan m (x ∷ s) = scan (step m x) s

abbrev pub is_string : Mode → Bool
is_string in_string = true
is_string _ = false

-- the characters of a text that stand outside of string literals, without the quotes of those
unfoldable pub unquoted : Mode → Text → Text
unfolding step
unquoted m [] = []
unquoted m (x ∷ s) =
    let rest = unquoted (step m x) s in
    if is_string m || is_string (step m x) then rest else x ∷ rest

-- outside of literals, quoted names and comments
abbrev pub is_code : Mode → Bool
is_code code = true
is_code minus = true
is_code slash = true
is_code _ = false

pub scan-append : (m : Mode) (s t : Text) → scan m (s ++ t) ≡ scan (scan m s) t
unfolding scan
scan-append m [] t = refl
scan-append m (x ∷ s) t = scan-append (step m x) s t

pub unquoted-append :
    (m : Mode) (s t : Text) → unquoted m (s ++ t) ≡ unquoted m s ++ unquoted (scan m s) t
unfolding unquoted scan
unquoted-append m [] t = refl
unquoted-append m (x ∷ s) t =
    unquoted-if (is_string m || is_string (step m x)) _ _ _ (unquoted-append (step m x) s t)
  where
    unquoted-if :
        (b : Bool) (whole front back : Text)
        → whole ≡ front ++ back
        → (if b then whole else x ∷ whole) ≡ (if b then front else x ∷ front) ++ back
    unquoted-if true whole front back e = e
    unquoted-if false whole front back e = ap (λ l. x ∷ l) e

stays : (x : ℕ) → (x == b'\'') ≡ false → step in_string x ≡ in_string
unfolding step
stays x other = rw other refl

scan-double_quotes : (s : Text) → scan in_string (double_quotes s) ≡ in_string
unfolding scan double_quotes
scan-double_quotes [] = refl
scan-double_quotes (x ∷ s) = elim (Bool-cases (x == b'\'')) [
  | inl quote ↦ rw quote (scan-double_quotes s)
  | inr other ↦ rw other (ap (λ m. scan m (double_quotes s)) (stays x other) ∙ scan-double_quotes s)
]

unquoted-double_quotes : (s : Text) → unquoted in_string (double_quotes s) ≡ []
unfolding unquoted double_quotes
unquoted-double_quotes [] = refl
unquoted-double_quotes (x ∷ s) = elim (Bool-cases (x == b'\'')) [
  | inl quote ↦ rw quote (unquoted-double_quotes s)
  | inr other ↦
      rw other (ap (λ m. unquoted m (double_quotes s)) (stays x other) ∙ unquoted-double_quotes s)
]

abbrev pub literal : Text → Text
literal s = bytes "'" ++ (double_quotes s ++ bytes "'")

literal_tail :
    (s : Text)
    → (scan in_string (double_quotes s ++ bytes "'") ≡ code)
      × (unquoted in_string (double_quotes s ++ bytes "'") ≡ [])
unfolding scan unquoted
literal_tail s = (
  scan-append in_string (double_quotes s) (bytes "'")
      ∙ ap (λ m. scan m (bytes "'")) (scan-double_quotes s),
  unquoted-append in_string (double_quotes s) (bytes "'")
      ∙ ap₂ (λ t m. t ++ unquoted m (bytes "'")) (unquoted-double_quotes s) (scan-double_quotes s),
)

-- The literal of a text, where code stands, is read as a whole.
pub literal_is_whole :
    (m : Mode) (s : Text)
    → is_code m ≡ true
    → (scan m (literal s) ≡ code) × (unquoted m (literal s) ≡ [])
unfolding scan unquoted step
literal_is_whole code s h = literal_tail s
literal_is_whole minus s h = literal_tail s
literal_is_whole slash s h = literal_tail s
literal_is_whole in_string s h = cc h
literal_is_whole in_name s h = cc h
literal_is_whole in_backticks s h = cc h
literal_is_whole in_brackets s h = cc h
literal_is_whole line_comment s h = cc h
literal_is_whole block_comment s h = cc h
literal_is_whole star s h = cc h
literal_is_whole after_variable s h = cc h
