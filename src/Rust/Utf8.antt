-- ===== src/Rust/Utf8.antt =====
-- `String::from_utf8_lossy`: each maximal part of an ill-formed sequence becomes U+FFFD. The
-- decoder reads a byte at a time; its mode holds the bytes of an unfinished character.
use sqlite_server_rs.Prelude.{
  ℕ, zero, suc, ◌≡◌, refl, ◌&&◌, [], ◌∷◌, ◌++◌, Text, bytes, ltb, leb, ◌==◌, if◌then◌else◌,
}

-- `more pending lo hi left`: the next byte has to be in `lo ..= hi`, and `left` continuation bytes
-- follow it.
pub data Mode : Type 0 where
  start : Mode
  more : Text → ℕ → ℕ → ℕ → Mode

abbrev pub replacement : Text
replacement = 239 ∷ 191 ∷ 189 ∷ []

-- a first byte: what is put out, and the mode after it
unfoldable pub lead : ℕ → Text × Mode
lead b =
    if ltb b 128
    then (b ∷ [], start)
    else if ltb b 194
    then (replacement, start)
    else if ltb b 224
    then ([], more (b ∷ []) 128 191 0)
    else if b == 224
    then ([], more (b ∷ []) 160 191 1)
    else if b == 237
    then ([], more (b ∷ []) 128 159 1)
    else if ltb b 240
    then ([], more (b ∷ []) 128 191 1)
    else if b == 240
    then ([], more (b ∷ []) 144 191 2)
    else if ltb b 244
    then ([], more (b ∷ []) 128 191 2)
    else if b == 244
    then ([], more (b ∷ []) 128 143 2)
    else (replacement, start)

-- a continuation byte in its range
unfoldable pub continued : Text → ℕ → Text × Mode
continued pending zero = (pending, start)
continued pending (suc left) = ([], more pending 128 191 left)

unfoldable pub step : Mode → ℕ → Text × Mode
unfolding lead continued
step start b = lead b
step (more pending lo hi left) b =
    if leb lo b && leb b hi
    then continued (pending ++ b ∷ []) left
    else (replacement ++ (lead b).0, (lead b).1)

unfoldable pub decode : Mode → Text → Text
unfolding step
decode start [] = []
decode (more pending lo hi left) [] = replacement
decode mode (b ∷ s) = (step mode b).0 ++ decode (step mode b).1 s

unfoldable pub from_utf8_lossy : Text → Text
unfolding decode
from_utf8_lossy s = decode start s

tests :
    (from_utf8_lossy (bytes "plain") ≡ bytes "plain")
    × (from_utf8_lossy (195 ∷ 169 ∷ []) ≡ 195 ∷ 169 ∷ [])
    × (from_utf8_lossy (b'a' ∷ 255 ∷ b'b' ∷ []) ≡ b'a' ∷ replacement ++ b'b' ∷ [])
    × (from_utf8_lossy (240 ∷ 144 ∷ b'b' ∷ []) ≡ replacement ++ b'b' ∷ [])
    × (from_utf8_lossy (237 ∷ 160 ∷ []) ≡ replacement ++ replacement)
unfolding from_utf8_lossy
tests = (refl, refl, refl, refl, refl)
