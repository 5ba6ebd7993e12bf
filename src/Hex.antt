-- ===== src/Hex.antt =====
-- src/handler.rs: `to_hex`. examples/rust/client.rs: `decode_blob_literal` and `hex_val`.
use Prim.Native.Nat.{bit_or}
use sqlite_server_rs.Prelude.{
  ℕ, suc, le→ltb, ◌+◌, ◌-◌, ◌*◌, ◌/◌, ◌%◌, ◌^◌, ◌<◌, bit_and, ◌≡◌, refl, Bool, true, false, ◌&&◌,
  ◌||◌, not, Option, none, some, List, [], ◌∷◌, ◌++◌, arith, Text, bytes, IsBytes, ltb, leb, ◌==◌,
  if◌then◌else◌, all_below, all_below_sound, length, take, drop, get_or, length-append,
  take-append_length,
}

abbrev pub hex : List ℕ
hex = bytes "0123456789abcdef"

-- Every byte is below 256, so neither index is out of range.
unfoldable pub to_hex : List ℕ → Text
to_hex [] = []
to_hex (b ∷ s) = get_or hex (b / 2 ^ 4) 0 ∷ get_or hex (bit_and b 15) 0 ∷ to_hex s

unfoldable pub hex_val : ℕ → Option ℕ
hex_val c =
    if leb 48 c && leb c 57
    then some (c - 48)
    else if leb 97 c && leb c 102
    then some (c - 97 + 10)
    else if leb 65 c && leb c 70
    then some (c - 65 + 10)
    else none

abbrev hex_pair : ℕ → ℕ → Option ℕ
hex_pair a b = elim (hex_val a) [
  | none ↦ none
  | some high ↦ elim (hex_val b) [ none ↦ none | some low ↦ some (bit_or (high * 2 ^ 4 % 256) low) ]
]

-- the loop over pairs of digits; the count of digits has been found to be even
unfoldable pub hex_pairs : Text → Option (List ℕ)
unfolding hex_val
hex_pairs [] = some []
hex_pairs (a ∷ []) = none
hex_pairs (a ∷ b ∷ h) =
    let later = hex_pairs h in
    elim (hex_pair a b) [
      | none ↦ none
      | some byte ↦ elim later [ none ↦ none | some out ↦ some (byte ∷ out) ]
    ]

abbrev starts_literal : Text → Bool
starts_literal (x ∷ q ∷ rest) = (x == b'X' || x == b'x') && q == b'\''
starts_literal _ = false

unfoldable pub decode_blob_literal : Text → Option (List ℕ)
unfolding hex_pairs
decode_blob_literal literal =
    if ltb (length literal) 3 || not (starts_literal literal)
    then none
    else if not (get_or literal (length literal - 1) 0 == b'\'')
    then none
    else let h = take (length literal - 1 - 2) (drop 2 literal) in
      if not (length h % 2 == 0) then none else hex_pairs h

-- the text of a BLOB in a response
abbrev pub blob_literal : List ℕ → Text
blob_literal s = bytes "X'" ++ (to_hex s ++ bytes "'")

abbrev pair_back : ℕ → Bool
pair_back b = elim (hex_pair (get_or hex (b / 2 ^ 4) 0) (get_or hex (bit_and b 15) 0)) [
  | none ↦ false
  | some byte ↦ byte == b
]

pair_table : all_below 256 pair_back ≡ true
unfolding all_below hex_val
pair_table = refl

hex_pair-digits :
    (b : ℕ) → b < 256 → hex_pair (get_or hex (b / 2 ^ 4) 0) (get_or hex (bit_and b 15) 0) ≡ some b
hex_pair-digits b h = ground (arith, all_below_sound 256 pair_back b pair_table h)

hex_pairs-to_hex : (s : List ℕ) → IsBytes s → hex_pairs (to_hex s) ≡ some s
unfolding hex_pairs to_hex
hex_pairs-to_hex [] h = refl
hex_pairs-to_hex (b ∷ s) h = ground (arith, hex_pair-digits b h.0, hex_pairs-to_hex s h.1)

-- Two digits for a byte.
pub length-to_hex : (s : List ℕ) → length (to_hex s) ≡ 2 * length s
unfolding to_hex
length-to_hex [] = refl
length-to_hex (b ∷ s) = omega (arith, length-to_hex s)

get_or-last : (s : Text) (x : ℕ) → get_or (s ++ x ∷ []) (length s) 0 ≡ x
get_or-last [] x = refl
get_or-last (y ∷ s) x = get_or-last s x

-- The client reads back the bytes of a BLOB from the text that the server puts in a response.
pub decode-blob_literal : (s : List ℕ) → IsBytes s → decode_blob_literal (blob_literal s) ≡ some s
unfolding decode_blob_literal
decode-blob_literal s h =
    let n : length (to_hex s ++ bytes "'") ≡ length (to_hex s) + 1 =
      length-append (to_hex s) (bytes "'") in
    let digits : ℕ = length (to_hex s) in
    let last = get_or-last (to_hex s) b'\'' in
    let front = take-append_length (to_hex s) (bytes "'") in
    let even = length-to_hex s in
    let e1 : suc (suc (digits + 1)) - 1 ≡ suc (suc digits) = omega arith in
    let e2 : suc (suc digits) - 2 ≡ digits = omega arith in
    let e3 : digits % 2 ≡ 0 = omega arith in
    let e4 : ltb (suc (suc (digits + 1))) 3 ≡ false = le→ltb _ _ (omega arith) in
    rw (n, e1, e2, last, front, e3, e4) (hex_pairs-to_hex s h)
