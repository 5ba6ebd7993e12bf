-- ===== src/Rust/Decimal.antt =====
-- The decimal `Display` of unsigned integers.
pub mod Bytes
use sqlite_server_rs.Prelude.{
  ℕ, zero, suc, ◌+◌, ◌/◌, ◌%◌, ◌≡◌, refl, [], ◌∷◌, ◌++◌, Text, bytes, ltb, if◌then◌else◌,
}

-- A round takes a digit, and `suc n` rounds are enough for `n`.
unfoldable pub digits : ℕ → ℕ → Text
digits zero n = []
digits (suc fuel) n =
    let front = digits fuel (n / 10) in
    if ltb n 10 then (48 + n) ∷ [] else front ++ (48 + n % 10) ∷ []

unfoldable pub decimal : ℕ → Text
unfolding digits
decimal n = digits (suc n) n

tests : (decimal 0 ≡ bytes "0") × (decimal 5000 ≡ bytes "5000") × (decimal 255 ≡ bytes "255")
unfolding decimal
tests = (refl, refl, refl)
