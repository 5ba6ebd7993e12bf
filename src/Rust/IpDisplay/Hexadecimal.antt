-- ===== src/Rust/IpDisplay/Hexadecimal.antt =====
-- The groups of an IPv6 address in hexadecimal, and what the parser of `core::net` reads in them.
use sqlite_server_rs.Prelude.{
  ℕ, ◌+◌, ◌*◌, ◌/◌, ◌%◌, ◌≡◌, ◌≤◌, ◌<◌, refl, ◌∙◌, inl, inr, none, some, [], ◌∷◌, ◌++◌, Text, ltb,
  Bool-cases, ltb→lt, All, arith,
}
use sqlite_server_rs.Rust.IpParse.{to_digit, number_loop, read_number, v6_group}
use sqlite_server_rs.Rust.IpDisplay.{hex_digit, hexadecimal}

-- no hexadecimal digit comes next
abbrev pub StopsHex : Text → Type 0
StopsHex [] = Unit
StopsHex (c ∷ s) = to_digit 16 c ≡ none

-- the texts of one to four digits
pub data IsHex (n : ℕ) (s : Text) : Type 0 where
  one : n < 16 → s ≡ hex_digit n ∷ [] → IsHex n s
  two :
      (a b : ℕ) → a < 16 → b < 16 → n ≡ a * 16 + b → s ≡ hex_digit a ∷ hex_digit b ∷ [] → IsHex n s
  three :
      (a b c : ℕ)
      → a < 16
      → b < 16
      → c < 16
      → n ≡ (a * 16 + b) * 16 + c
      → s ≡ hex_digit a ∷ hex_digit b ∷ hex_digit c ∷ []
      → IsHex n s
  four :
      (a b c e : ℕ)
      → a < 16
      → b < 16
      → c < 16
      → e < 16
      → n ≡ ((a * 16 + b) * 16 + c) * 16 + e
      → s ≡ hex_digit a ∷ hex_digit b ∷ hex_digit c ∷ hex_digit e ∷ []
      → IsHex n s

pub hexadecimal-IsHex : (n : ℕ) → n < 65536 → IsHex n (hexadecimal n)
unfolding hexadecimal
hexadecimal-IsHex n h = elim (Bool-cases (ltb n 16)) [
  | inl s1 ↦ one (ltb→lt n 16 s1) (rw s1 refl)
  | inr m1 ↦ elim (Bool-cases (ltb n 256)) [
    | inl s2 ↦
        two (n / 16) (n % 16) (omega (arith, ltb→lt n 256 s2)) (omega arith) (omega arith)
          (rw (m1, s2) refl)
    | inr m2 ↦ elim (Bool-cases (ltb n 4096)) [
      | inl s3 ↦
          three (n / 256) (n / 16 % 16) (n % 16) (omega (arith, ltb→lt n 4096 s3)) (omega arith)
            (omega arith) (omega arith) (rw (m1, m2, s3) refl)
      | inr m3 ↦
          four (n / 4096) (n / 256 % 16) (n / 16 % 16) (n % 16) (omega arith) (omega arith)
            (omega arith) (omega arith) (omega arith) (rw (m1, m2, m3) refl)
    ]
  ]
]

to_digit-hex_digit : (d : ℕ) → d < 16 → to_digit 16 (hex_digit d) ≡ some d
unfolding to_digit hex_digit
to_digit-hex_digit d h = ground arith

number_loop-stop :
    (n k : ℕ) (rest : Text) → StopsHex rest → number_loop 16 4 n k rest ≡ some ((n, k), rest)
unfolding number_loop
number_loop-stop n k [] h = refl
number_loop-stop n k (c ∷ s) h = rw (h, number_loop) refl

number_loop-digit :
    (result count d n k : ℕ) (s : Text)
    → d < 16
    → count < 4
    → n ≡ result * 16 + d
    → k ≡ count + 1
    → number_loop 16 4 result count (hex_digit d ∷ s) ≡ number_loop 16 4 n k s
unfolding number_loop
number_loop-digit result count d n k s h room e e' =
    rw (to_digit-hex_digit d h, number_loop, e, e') (ground arith)

read_group-loop :
    (n k : ℕ) (s rest : Text)
    → number_loop 16 4 0 0 s ≡ some ((n, k), rest)
    → 1 ≤ k
    → n < 65536
    → v6_group s ≡ some (n, rest)
unfolding read_number
read_group-loop n k s rest e some_digit small = rw (e, read_number) (ground arith)

v6_group-IsHex :
    (n : ℕ) (rest s : Text)
    → n < 65536
    → IsHex n s
    → StopsHex rest
    → v6_group (s ++ rest) ≡ some (n, rest)
v6_group-IsHex n rest s small (one h e) stop = rw e (
    read_group-loop n 1 (hex_digit n ∷ rest) rest
      (number_loop-digit 0 0 n n 1 rest h (omega arith) (omega arith) (omega arith)
        ∙ number_loop-stop n 1 rest stop)
      (omega arith) small)
v6_group-IsHex n rest s small (two a b ha hb t e) stop = rw e (
    read_group-loop n 2 (hex_digit a ∷ hex_digit b ∷ rest) rest
      (number_loop-digit 0 0 a a 1 (hex_digit b ∷ rest) ha (omega arith) (omega arith) (omega arith)
        ∙ number_loop-digit a 1 b n 2 rest hb (omega arith) t (omega arith)
        ∙ number_loop-stop n 2 rest stop)
      (omega arith) small)
v6_group-IsHex n rest s small (three a b c ha hb hc t e) stop = rw e (
    read_group-loop n 3 (hex_digit a ∷ hex_digit b ∷ hex_digit c ∷ rest) rest
      (number_loop-digit 0 0 a a 1 (hex_digit b ∷ hex_digit c ∷ rest) ha (omega arith) (omega arith)
          (omega arith)
        ∙ number_loop-digit a 1 b (a * 16 + b) 2 (hex_digit c ∷ rest) hb (omega arith) refl
            (omega arith)
        ∙ number_loop-digit (a * 16 + b) 2 c n 3 rest hc (omega arith) t (omega arith)
        ∙ number_loop-stop n 3 rest stop)
      (omega arith) small)
v6_group-IsHex n rest s small (four a b c f ha hb hc hf t e) stop = rw e (
    read_group-loop n 4 (hex_digit a ∷ hex_digit b ∷ hex_digit c ∷ hex_digit f ∷ rest) rest
      (number_loop-digit 0 0 a a 1 (hex_digit b ∷ hex_digit c ∷ hex_digit f ∷ rest) ha (omega arith)
          (omega arith) (omega arith)
        ∙ number_loop-digit a 1 b (a * 16 + b) 2 (hex_digit c ∷ hex_digit f ∷ rest) hb (omega arith)
            refl (omega arith)
        ∙ number_loop-digit (a * 16 + b) 2 c ((a * 16 + b) * 16 + c) 3 (hex_digit f ∷ rest) hc
            (omega arith) refl (omega arith)
        ∙ number_loop-digit ((a * 16 + b) * 16 + c) 3 f n 4 rest hf (omega arith) t (omega arith)
        ∙ number_loop-stop n 4 rest stop)
      (omega arith) small)

-- A group is read back, up to where no hexadecimal digit follows.
pub v6_group-hexadecimal :
    (n : ℕ) (rest : Text)
    → n < 65536
    → StopsHex rest
    → v6_group (hexadecimal n ++ rest) ≡ some (n, rest)
v6_group-hexadecimal n rest small stop =
    v6_group-IsHex n rest (hexadecimal n) small (hexadecimal-IsHex n small) stop

-- What every digit has, every text of a group has.
pub hexadecimal-All :
    (P : ℕ → Type 0)
    → ((d : ℕ) → d < 16 → P (hex_digit d))
    → (n : ℕ) → n < 65536
    → All P (hexadecimal n)
hexadecimal-All P digit n h = elim (hexadecimal-IsHex n h) [
  | one small e ↦ rw e (digit n small, tt)
  | two a b ha hb t e ↦ rw e (digit a ha, (digit b hb, tt))
  | three a b c ha hb hc t e ↦ rw e (digit a ha, (digit b hb, (digit c hc, tt)))
  | four a b c f ha hb hc hf t e ↦ rw e (digit a ha, (digit b hb, (digit c hc, (digit f hf, tt))))
]
