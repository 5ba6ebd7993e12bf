-- ===== src/Rust/IpDisplay/Dots.antt =====
-- A text without a dot, and the IPv4 parser of `core::net`.
use mathlib.Core.Path.{subst}
use sqlite_server_rs.Prelude.{
  ℕ, ◌+◌, ◌*◌, ◌≡◌, refl, ap, ◌∙◌, inl, inr, false, Option, none, some, [], ◌∷◌, Text, ltb, ◌==◌,
  Bool-cases, Option-cases, All, arith,
}
use sqlite_server_rs.Rust.IpParse.{
  Parser, ◌>>=◌, to_digit, number_loop, read_number, v4_number, given_char, read_ipv4,
}
use sqlite_server_rs.Rust.IpParse.Display.{>>=-some}

abbrev pub NoDot : ℕ → Type 0
NoDot x = (x == b'.') ≡ false

>>=-none :
    {A : Type 0} {B : Type 0} (p : Parser A) (f : A → Parser B) (s : Text)
    → p s ≡ none
    → (p >>= f) s ≡ none
>>=-none {A} {B} p f s e =
    ap
      (λ (o : Option (A × Text)). elim o as (λ _. Option (B × Text)) [
        | none ↦ none
        | some (x, s') ↦ f x s'
      ])
      e

number_loop-rest :
    (n k : ℕ) (s : Text) (r : ℕ × ℕ) (rest : Text)
    → number_loop 10 3 n k s ≡ some (r, rest)
    → All NoDot s
    → All NoDot rest
unfolding number_loop
number_loop-rest n k [] r rest e h = let same : [] ≡ rest = cc e in subst (All NoDot) same tt
number_loop-rest n k (c ∷ s) r rest e h = elim (Option-cases (to_digit 10 c)) [
  | inl stop ↦
      let same : c ∷ s ≡ rest = cc (rw (stop, number_loop) at e) in subst (All NoDot) same h
  | inr (d, digit) ↦ elim (Bool-cases (ltb 3 (k + 1))) [
    | inl full ↦ cc (rw (digit, number_loop, full) at e)
    | inr room ↦
        number_loop-rest (n * 10 + d) (k + 1) s r rest (rw (digit, number_loop, room) at e) h.1
  ]
]

v4_number-rest :
    (s : Text) (n : ℕ) (rest : Text) → v4_number s ≡ some (n, rest) → All NoDot s → All NoDot rest
unfolding read_number
v4_number-rest s n rest e h = elim (Option-cases (number_loop 10 3 0 0 s)) [
  | inl stop ↦ cc (rw (stop, read_number) at e)
  | inr (((m, k), rest'), found) ↦
      let same : rest' ≡ rest = ground arith in
      subst (All NoDot) same (number_loop-rest 0 0 s (m, k) rest' found h)
]

given_char-dot : (s : Text) → All NoDot s → given_char b'.' s ≡ none
unfolding given_char
given_char-dot [] h = refl
given_char-dot (x ∷ s) h = rw (h.0, given_char) refl

-- A text without a dot is not the text of an IPv4 address.
pub read_ipv4-none : (s : Text) → All NoDot s → read_ipv4 s ≡ none
unfolding read_ipv4
read_ipv4-none s h = elim (Option-cases (v4_number s)) [
  | inl stop ↦ >>=-none v4_number _ s stop
  | inr ((a, rest), e) ↦
      >>=-some v4_number _ s rest a e
      ∙ >>=-none (given_char b'.') _ rest (given_char-dot rest (v4_number-rest s a rest e h))
]
