-- ===== src/Rust/Decimal/Bytes.antt =====
-- The decimal text of a number below 256, and its reading.
use sqlite_server_rs.Prelude.{
  ℕ, zero, suc, ◌+◌, ◌*◌, ◌/◌, ◌%◌, ◌≡◌, ◌≤◌, ◌<◌, refl, ap, ◌∙◌, [], ◌∷◌, ◌++◌, Text, ltb, arith,
  lt→ltb, le→ltb, Bool-cases, inl, inr, ltb→lt, ltb→le,
}
use sqlite_server_rs.Rust.Decimal.{digits, decimal}

-- the texts of one, two and three digits, with no zero in front of another digit
pub data IsText (n : ℕ) (s : Text) : Type 0 where
  one : n < 10 → s ≡ (48 + n) ∷ [] → IsText n s
  two :
      (a b : ℕ)
      → 1 ≤ a
      → a < 10
      → b < 10
      → n ≡ a * 10 + b
      → s ≡ (48 + a) ∷ (48 + b) ∷ []
      → IsText n s
  three :
      (a b c : ℕ)
      → 1 ≤ a
      → a < 10
      → b < 10
      → c < 10
      → n ≡ (a * 10 + b) * 10 + c
      → s ≡ (48 + a) ∷ (48 + b) ∷ (48 + c) ∷ []
      → IsText n s

digits-digit : (fuel n : ℕ) → n < 10 → digits (suc fuel) n ≡ (48 + n) ∷ []
unfolding digits
digits-digit fuel n h = rw (lt→ltb n 10 h) refl

digits-more :
    (fuel n : ℕ) → 10 ≤ n → digits (suc fuel) n ≡ digits fuel (n / 10) ++ (48 + n % 10) ∷ []
unfolding digits
digits-more fuel n h = rw (le→ltb n 10 h) refl

decimal-two : (n : ℕ) → 10 ≤ n → n < 100 → decimal n ≡ (48 + n / 10) ∷ (48 + n % 10) ∷ []
unfolding decimal
decimal-two zero low high = absurd (omega arith)
decimal-two (suc m) low high =
    digits-more (suc m) (suc m) low
    ∙ ap (λ s. s ++ (48 + suc m % 10) ∷ []) (digits-digit m (suc m / 10) (omega arith))

decimal-three :
    (n : ℕ)
    → 100 ≤ n
    → n < 1000
    → decimal n ≡ (48 + n / 10 / 10) ∷ (48 + n / 10 % 10) ∷ (48 + n % 10) ∷ []
unfolding decimal
decimal-three zero low high = absurd (omega arith)
decimal-three (suc zero) low high = absurd (omega arith)
decimal-three (suc (suc m)) low high =
    let n = suc (suc m) in
    digits-more n n (omega arith)
    ∙ ap (λ s. s ++ (48 + n % 10) ∷ [])
        (digits-more (suc m) (n / 10) (omega arith)
          ∙ ap (λ s. s ++ (48 + n / 10 % 10) ∷ []) (digits-digit m (n / 10 / 10) (omega arith)))

-- The decimal text of a number below 256 has up to three digits.
pub decimal-IsText : (n : ℕ) → n < 256 → IsText n (decimal n)
unfolding decimal
decimal-IsText n h = elim (Bool-cases (ltb n 10)) [
  | inl small ↦ one (ltb→lt n 10 small) (digits-digit n n (ltb→lt n 10 small))
  | inr more ↦ elim (Bool-cases (ltb n 100)) [
    | inl small ↦
        two (n / 10) (n % 10) (omega (arith, ltb→le n 10 more)) (omega (arith, ltb→lt n 100 small))
          (omega arith) (omega arith) (decimal-two n (ltb→le n 10 more) (ltb→lt n 100 small))
    | inr large ↦
        three (n / 10 / 10) (n / 10 % 10) (n % 10) (omega (arith, ltb→le n 100 large)) (omega arith)
          (omega arith) (omega arith) (omega arith)
          (decimal-three n (ltb→le n 100 large) (omega arith))
  ]
]
