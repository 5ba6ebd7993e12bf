-- ===== src/Rust/Str.antt =====
-- Methods of `str` on UTF-8 bytes: `trim`, `split`, `split_once`, `ends_with`,
-- `eq_ignore_ascii_case`, `parse::<u8>` and `parse::<usize>`.
pub mod Split
pub mod Visible
use mathlib.Core.List.{reverse}
use sqlite_server_rs.Prelude.{
  ℕ, ◌+◌, ◌-◌, ◌*◌, ◌^◌, Bool, true, false, ◌&&◌, ◌||◌, Option, none, some, List, [], ◌∷◌, Text,
  text_eq, ltb, leb, ◌==◌, if◌then◌else◌,
}

-- the characters with the White_Space property, by the length of their UTF-8 encoding
abbrev white_1 : ℕ → Bool
white_1 a = leb 9 a && leb a 13 || a == 32

abbrev white_2 : ℕ → ℕ → Bool
white_2 a b = a == 194 && (b == 133 || b == 160)

abbrev white_3 : ℕ → ℕ → ℕ → Bool
white_3 a b c =
    a == 225 && b == 154 && c == 128
    || a == 226 && b == 128 && (leb 128 c && leb c 138 || c == 168 || c == 169 || c == 175)
    || a == 226 && b == 129 && c == 159
    || a == 227 && b == 128 && c == 128

-- the text without the white space character that it begins with
unfoldable pub strip_white : Text → Option Text
strip_white [] = none
strip_white (a ∷ []) = if white_1 a then some [] else none
strip_white (a ∷ b ∷ []) =
    if white_1 a then some (b ∷ []) else if white_2 a b then some [] else none
strip_white (a ∷ b ∷ c ∷ s) =
    if white_1 a
    then some (b ∷ c ∷ s)
    else if white_2 a b
    then some (c ∷ s)
    else if white_3 a b c
    then some s
    else none

-- the same at the end, of the bytes in reverse order
unfoldable pub strip_white_back : Text → Option Text
strip_white_back [] = none
strip_white_back (c ∷ []) = if white_1 c then some [] else none
strip_white_back (c ∷ b ∷ []) =
    if white_1 c then some (b ∷ []) else if white_2 b c then some [] else none
strip_white_back (c ∷ b ∷ a ∷ s) =
    if white_1 c
    then some (b ∷ a ∷ s)
    else if white_2 b c
    then some (a ∷ s)
    else if white_3 a b c
    then some s
    else none

-- A round takes at least a byte, so as many rounds as there are bytes are enough.
unfoldable pub strip_all : (Text → Option Text) → Text → Text → Text
strip_all strip [] s = s
strip_all strip (_ ∷ fuel) s = elim (strip s) [ none ↦ s | some rest ↦ strip_all strip fuel rest ]

unfoldable pub trim_start : Text → Text
unfolding strip_all strip_white
trim_start s = strip_all strip_white s s

unfoldable pub trim_end : Text → Text
unfolding strip_all strip_white_back
trim_end s = reverse (strip_all strip_white_back (reverse s) (reverse s))

unfoldable pub trim : Text → Text
unfolding trim_start trim_end
trim s = trim_end (trim_start s)

-- `s.split_once(sep)`, at an ASCII separator
unfoldable pub split_once : ℕ → Text → Option (Text × Text)
split_once sep [] = none
split_once sep (x ∷ s) =
    let later = split_once sep s in
    if x == sep then some ([], s) else elim later [ none ↦ none | some (a, b) ↦ some (x ∷ a, b) ]

abbrev pub longer_head : ℕ → List Text → List Text
longer_head x [] = (x ∷ []) ∷ []
longer_head x (piece ∷ pieces) = (x ∷ piece) ∷ pieces

-- `s.split(sep)`, at an ASCII separator
unfoldable pub split : ℕ → Text → List Text
split sep [] = [] ∷ []
split sep (x ∷ s) = let later = split sep s in if x == sep then [] ∷ later else longer_head x later

unfoldable pub ends_with : Text → Text → Bool
ends_with [] suffix = text_eq [] suffix
ends_with (x ∷ s) suffix = text_eq (x ∷ s) suffix || ends_with s suffix

abbrev pub to_ascii_lowercase : ℕ → ℕ
to_ascii_lowercase c = if leb 65 c && leb c 90 then c + 32 else c

unfoldable pub eq_ignore_ascii_case : Text → Text → Bool
eq_ignore_ascii_case [] [] = true
eq_ignore_ascii_case (x ∷ s) (y ∷ t) =
    to_ascii_lowercase x == to_ascii_lowercase y && eq_ignore_ascii_case s t
eq_ignore_ascii_case _ _ = false

-- the digits of `parse` to an unsigned integer of at most `max`, with its checks for overflow
unfoldable pub digits_up_to : ℕ → ℕ → Text → Option ℕ
digits_up_to max n [] = some n
digits_up_to max n (c ∷ s) =
    let d = c - 48 in
    let later = digits_up_to max (n * 10 + d) s in
    if leb 48 c && leb c 57 then (if ltb max (n * 10 + d) then none else later) else none

-- a leading `+` is accepted, no digits at all are not
unfoldable pub parse_up_to : ℕ → Text → Option ℕ
unfolding digits_up_to
parse_up_to max [] = none
parse_up_to max (c ∷ []) = digits_up_to max 0 (c ∷ [])
parse_up_to max (c ∷ d ∷ s) =
    if c == b'+' then digits_up_to max 0 (d ∷ s) else digits_up_to max 0 (c ∷ d ∷ s)

-- `parse::<u8>()`
unfoldable pub parse_u8 : Text → Option ℕ
unfolding parse_up_to
parse_u8 s = parse_up_to 255 s

-- `parse::<usize>()`, of 64 bits
unfoldable pub parse_usize : Text → Option ℕ
unfolding parse_up_to
parse_usize s = parse_up_to (2 ^ 64 - 1) s
