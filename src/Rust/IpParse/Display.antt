-- ===== src/Rust/IpParse/Display.antt =====
-- `str::parse` of the texts that `Display` writes: octets, IPv4 addresses and prefix lengths.
use sqlite_server_rs.Prelude.{
  ℕ, ◌+◌, ◌-◌, ◌*◌, ◌≡◌, ◌≤◌, ◌<◌, refl, ap, ◌∙◌, false, Option, some, none, List, [], ◌∷◌, ◌++◌,
  Text, ltb, ◌&&◌, arith, append-nil, length, IsBytes,
}
use sqlite_server_rs.Rust.Decimal.{decimal}
use sqlite_server_rs.Rust.Decimal.Bytes.{IsText, one, two, three, decimal-IsText}
use sqlite_server_rs.Rust.Str.{digits_up_to, parse_up_to, parse_u8}
use sqlite_server_rs.Rust.Ip.{v4}
use sqlite_server_rs.Rust.IpDisplay.{display_v4}
use sqlite_server_rs.Rust.IpParse.{
  starts_zero, to_digit, number_loop, read_number, v4_number, given_char, read_ipv4, read_ip,
  parse_ip, Parser, ◌>>=◌,
}

-- no digit comes next
abbrev pub StopsHere : Text → Type 0
StopsHere [] = Unit
StopsHere (c ∷ s) = to_digit 10 c ≡ none

to_digit-digit : (d : ℕ) → d < 10 → to_digit 10 (48 + d) ≡ some d
unfolding to_digit
to_digit-digit d h = ground arith

number_loop-stop :
    (result count : ℕ) (rest : Text)
    → StopsHere rest
    → number_loop 10 3 result count rest ≡ some ((result, count), rest)
unfolding number_loop
number_loop-stop result count [] h = refl
number_loop-stop result count (c ∷ s) h = rw (h, number_loop) refl

number_loop-digit :
    (result count d n k : ℕ) (s : Text)
    → d < 10
    → count < 3
    → n ≡ result * 10 + d
    → k ≡ count + 1
    → number_loop 10 3 result count ((48 + d) ∷ s) ≡ number_loop 10 3 n k s
unfolding number_loop
number_loop-digit result count d n k s h room e e' =
    rw (to_digit-digit d h, number_loop, e, e') (ground arith)

read_number-loop :
    (n k : ℕ) (s rest : Text)
    → number_loop 10 3 0 0 s ≡ some ((n, k), rest)
    → 1 ≤ k
    → (starts_zero s && ltb 1 k) ≡ false
    → n < 256
    → v4_number s ≡ some (n, rest)
unfolding read_number
read_number-loop n k s rest e some_digit no_zero small = rw (e, read_number) (ground arith)

v4_number-IsText :
    (n : ℕ) (rest s : Text)
    → n < 256
    → IsText n s
    → StopsHere rest
    → v4_number (s ++ rest) ≡ some (n, rest)
v4_number-IsText n rest s small (one h e) stop = rw e (
    read_number-loop n 1 _ rest
      (number_loop-digit 0 0 n n 1 rest h (omega arith) (omega arith) (omega arith)
        ∙ number_loop-stop n 1 rest stop)
      (omega arith) (ground arith) small)
v4_number-IsText n rest s small (two a b pos_a ha hb t e) stop = rw e (
    read_number-loop n 2 _ rest
      (number_loop-digit 0 0 a a 1 _ ha (omega arith) (omega arith) (omega arith)
        ∙ number_loop-digit a 1 b n 2 rest hb (omega arith) t (omega arith)
        ∙ number_loop-stop n 2 rest stop)
      (omega arith) (ground arith) small)
v4_number-IsText n rest s small (three a b c pos_a ha hb hc t e) stop = rw e (
    read_number-loop n 3 _ rest
      (number_loop-digit 0 0 a a 1 _ ha (omega arith) (omega arith) (omega arith)
        ∙ number_loop-digit a 1 b (a * 10 + b) 2 _ hb (omega arith) refl (omega arith)
        ∙ number_loop-digit (a * 10 + b) 2 c n 3 rest hc (omega arith) t (omega arith)
        ∙ number_loop-stop n 3 rest stop)
      (omega arith) (ground arith) small)

-- An octet is read back, up to where no digit follows.
pub v4_number-decimal :
    (n : ℕ) (rest : Text)
    → n < 256
    → StopsHere rest
    → v4_number (decimal n ++ rest) ≡ some (n, rest)
v4_number-decimal n rest small stop =
    v4_number-IsText n rest (decimal n) small (decimal-IsText n small) stop

pub dot_stops : (rest : Text) → StopsHere (b'.' ∷ rest)
unfolding to_digit
dot_stops rest = refl

pub >>=-some :
    {A : Type 0} {B : Type 0} (p : Parser A) (f : A → Parser B) (s rest : Text) (a : A)
    → p s ≡ some (a, rest)
    → (p >>= f) s ≡ f a rest
>>=-some {A} {B} p f s rest a e =
    ap
      (λ (o : Option (A × Text)). elim o as (λ _. Option (B × Text)) [
        | none ↦ none
        | some (x, s') ↦ f x s'
      ])
      e

pub read_ipv4-four :
    (a b c d : ℕ) (s after_a after_b after_c : Text)
    → v4_number s ≡ some (a, b'.' ∷ after_a)
    → v4_number after_a ≡ some (b, b'.' ∷ after_b)
    → v4_number after_b ≡ some (c, b'.' ∷ after_c)
    → v4_number after_c ≡ some (d, [])
    → read_ipv4 s ≡ some (a ∷ b ∷ c ∷ d ∷ [], [])
unfolding read_ipv4 given_char
read_ipv4-four a b c d s after_a after_b after_c ea eb ec ed =
    >>=-some v4_number _ s _ a ea
    ∙ >>=-some v4_number _ after_a _ b eb
    ∙ >>=-some v4_number _ after_b _ c ec
    ∙ >>=-some v4_number _ after_c _ d ed

parse_ip-v4 :
    (s : Text) (octets : List ℕ) → read_ipv4 s ≡ some (octets, []) → parse_ip s ≡ some (v4 octets)
unfolding parse_ip read_ip
parse_ip-v4 s octets e = rw (e, parse_ip) refl

read_ipv4-octets :
    (a b c d : ℕ)
    → a < 256
    → b < 256
    → c < 256
    → d < 256
    → read_ipv4 (display_v4 (a ∷ b ∷ c ∷ d ∷ [])) ≡ some (a ∷ b ∷ c ∷ d ∷ [], [])
unfolding display_v4
read_ipv4-octets a b c d ha hb hc hd =
    let after_c : Text = decimal d in
    let after_b : Text = decimal c ++ (b'.' ∷ after_c) in
    let after_a : Text = decimal b ++ (b'.' ∷ after_b) in
    let fourth : v4_number after_c ≡ some (d, []) =
      rw (append-nil (decimal d)) at (v4_number-decimal d [] hd tt) in
    read_ipv4-four a b c d (decimal a ++ (b'.' ∷ after_a)) after_a after_b after_c
      (v4_number-decimal a (b'.' ∷ after_a) ha (dot_stops after_a))
      (v4_number-decimal b (b'.' ∷ after_b) hb (dot_stops after_b))
      (v4_number-decimal c (b'.' ∷ after_c) hc (dot_stops after_c)) fourth

-- The four octets of an IPv4 address are read back from their text.
pub read_ipv4-display_v4 :
    (a : List ℕ) → length a ≡ 4 → IsBytes a → read_ipv4 (display_v4 a) ≡ some (a, [])
read_ipv4-display_v4 [] four h = absurd (ground (arith, four))
read_ipv4-display_v4 (a ∷ []) four h = absurd (ground (arith, four))
read_ipv4-display_v4 (a ∷ b ∷ []) four h = absurd (ground (arith, four))
read_ipv4-display_v4 (a ∷ b ∷ c ∷ []) four h = absurd (ground (arith, four))
read_ipv4-display_v4 (a ∷ b ∷ c ∷ d ∷ e ∷ rest) four h = absurd (omega (arith, four))
read_ipv4-display_v4 (a ∷ b ∷ c ∷ d ∷ []) four (ha, (hb, (hc, (hd, _)))) =
    read_ipv4-octets a b c d ha hb hc hd

-- An IPv4 address is read back from its text.
pub parse_ip-display_v4 :
    (a : List ℕ) → length a ≡ 4 → IsBytes a → parse_ip (display_v4 a) ≡ some (v4 a)
parse_ip-display_v4 a four h = parse_ip-v4 (display_v4 a) a (read_ipv4-display_v4 a four h)

digits_up_to-digit :
    (result d n : ℕ) (s : Text)
    → d < 10
    → n ≡ result * 10 + d
    → n < 256
    → digits_up_to 255 result ((48 + d) ∷ s) ≡ digits_up_to 255 n s
unfolding digits_up_to
digits_up_to-digit result d n s h e small =
    let same : 48 + d - 48 ≡ d = omega arith in rw (same, e, digits_up_to) (ground arith)

parse_up_to-digit :
    (d : ℕ) (s : Text) → d < 10 → parse_up_to 255 ((48 + d) ∷ s) ≡ digits_up_to 255 0 ((48 + d) ∷ s)
unfolding parse_up_to
parse_up_to-digit d [] h = refl
parse_up_to-digit d (x ∷ s) h = ground arith

-- A number below 256 is read back from its text as a `u8`.
pub parse_u8-decimal : (n : ℕ) → n < 256 → parse_u8 (decimal n) ≡ some n
unfolding parse_u8 digits_up_to
parse_u8-decimal n small = elim (decimal-IsText n small) [
  | one h e ↦ rw e (parse_up_to-digit n [] h ∙ digits_up_to-digit 0 n n [] h (omega arith) small)
  | two a b pos_a ha hb t e ↦ rw e (
      parse_up_to-digit a ((48 + b) ∷ []) ha
      ∙ digits_up_to-digit 0 a a ((48 + b) ∷ []) ha (omega arith) (omega arith)
      ∙ digits_up_to-digit a b n [] hb t small)
  | three a b c pos_a ha hb hc t e ↦ rw e (
      parse_up_to-digit a ((48 + b) ∷ (48 + c) ∷ []) ha
      ∙ digits_up_to-digit 0 a a ((48 + b) ∷ (48 + c) ∷ []) ha (omega arith) (omega arith)
      ∙ digits_up_to-digit a b (a * 10 + b) ((48 + c) ∷ []) hb refl (omega arith)
      ∙ digits_up_to-digit (a * 10 + b) c n [] hc t small)
]
