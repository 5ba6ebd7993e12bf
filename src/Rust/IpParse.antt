-- ===== src/Rust/IpParse.antt =====
-- `str::parse::<IpAddr>()`: the parser of `core::net`. A parser takes the text and returns a value
-- with the rest of the text, or `none`, which leaves the text as it was.
pub mod Bounds
pub mod Display
use sqlite_server_rs.Prelude.{
  ℕ, zero, suc, ◌+◌, ◌-◌, ◌*◌, ◌/◌, ◌%◌, Bool, true, false, ◌&&◌, not, Option, none, some, List, [],
  ◌∷◌, ◌++◌, ◌≡◌, refl, Text, bytes, ltb, leb, ◌==◌, if◌then◌else◌, length, replicate,
}
use sqlite_server_rs.Rust.Ip.{IpAddr, v4, v6}

abbrev pub Parser : Type 0 → Type 0
Parser A = Text → Option (A × Text)

infixl 5 ◌>>=◌ ◌>>◌
abbrev pub ◌>>=◌ : {A B : Type 0} → Parser A → (A → Parser B) → Parser B
◌>>=◌ p f s = elim (p s) [ none ↦ none | some (a, s') ↦ f a s' ]

abbrev pub ◌>>◌ : {B : Type 0} → Parser (Unit {0}) → Parser B → Parser B
p >> q = p >>= λ _. q

abbrev pub pure : {A : Type 0} → A → Parser A
pure a s = some (a, s)

-- `read_given_char`
unfoldable pub given_char : ℕ → Parser (Unit {0})
given_char c [] = none
given_char c (x ∷ s) = if x == c then some (tt, s) else none

-- `char::to_digit`, for a radix of 10 or 16
unfoldable pub to_digit : ℕ → ℕ → Option ℕ
to_digit radix c =
    if leb 48 c && leb c 57
    then some (c - 48)
    else if leb 97 c && leb c 102
    then (if ltb 10 radix then some (c - 87) else none)
    else if leb 65 c && leb c 70
    then (if ltb 10 radix then some (c - 55) else none)
    else none

-- the loop of `read_number`: the value and the count of the digits that are read
unfoldable pub number_loop : ℕ → ℕ → ℕ → ℕ → Parser (ℕ × ℕ)
unfolding to_digit
number_loop radix max_digits result count [] = some ((result, count), [])
number_loop radix max_digits result count (c ∷ s) = elim (to_digit radix c) [
  | none ↦ some ((result, count), c ∷ s)
  | some d ↦
      if ltb max_digits (count + 1)
      then none
      else number_loop radix max_digits (result * radix + d) (count + 1) s
]

abbrev pub starts_zero : Text → Bool
starts_zero [] = false
starts_zero (c ∷ s) = c == 48

-- `read_number`, into an integer type whose greatest value is `greatest`
unfoldable pub read_number : ℕ → ℕ → Bool → ℕ → Parser ℕ
unfolding number_loop
read_number radix max_digits allow_zero_prefix greatest s =
    elim (number_loop radix max_digits 0 0 s) [
      | none ↦ none
      | some ((n, count), rest) ↦
          if count == 0
          then none
          else if not allow_zero_prefix && starts_zero s && ltb 1 count
          then none
          else if leb n greatest
          then some (n, rest)
          else none
    ]

abbrev pub v4_number : Parser ℕ
v4_number = read_number 10 3 false 255

-- `read_ipv4_addr`, to its octets
unfoldable pub read_ipv4 : Parser (List ℕ)
unfolding read_number given_char
read_ipv4 = do
  a ← v4_number
  given_char b'.'
  b ← v4_number
  given_char b'.'
  c ← v4_number
  given_char b'.'
  d ← v4_number
  pure (a ∷ b ∷ c ∷ d ∷ [])

-- `read_separator(':', i, inner)`
abbrev pub separated : {A : Type 0} → ℕ → Parser A → Parser A
separated zero inner = inner
separated (suc i) inner = given_char b':' >> inner

abbrev pub two_groups : List ℕ → List ℕ
two_groups (a ∷ b ∷ c ∷ d ∷ []) = (a * 256 + b) ∷ (c * 256 + d) ∷ []
two_groups _ = []

-- one round of the loop of `read_groups`, from what its two reads gave; `next` is the rest of it
unfoldable pub groups_step :
    Option (List ℕ × Text)
    → Option (ℕ × Text)
    → Text
    → (Text → List ℕ × Bool × Text)
    → List ℕ × Bool × Text
groups_step (some (octets, rest)) group s next = (two_groups octets, true, rest)
groups_step none (some (group, rest)) s next =
    let (groups, embedded, rest') = next rest in (group ∷ groups, embedded, rest')
groups_step none none s next = ([], false, s)

abbrev pub v6_group : Parser ℕ
v6_group = read_number 16 4 true 65535

-- `read_groups` with `left` groups of the limit not yet read, at index `i`: the groups, whether they
-- end in an embedded IPv4 address, and the rest of the text
unfoldable pub read_groups : ℕ → ℕ → Text → List ℕ × Bool × Text
unfolding read_ipv4 read_number given_char groups_step
read_groups zero i s = ([], false, s)
read_groups (suc left) i s =
    groups_step (if ltb 0 left then separated i read_ipv4 s else none) (separated i v6_group s) s
      (read_groups left (i + 1))

abbrev pub group_octets : List ℕ → List ℕ
group_octets [] = []
group_octets (g ∷ groups) = g / 256 ∷ g % 256 ∷ group_octets groups

-- the groups after `::`
unfoldable pub read_tail : List ℕ → Parser (List ℕ)
unfolding read_groups
read_tail head s =
    let (tail, _, rest) = read_groups (7 - length head) 0 s in
    some (head ++ (replicate (8 - length head - length tail) 0 ++ tail), rest)

-- `read_ipv6_addr` after the groups of its front part
unfoldable pub after_head : List ℕ → Bool → Parser (List ℕ)
unfolding read_tail given_char
after_head head embedded rest =
    if length head == 8
    then some (head, rest)
    else if embedded
    then none
    else (do given_char b':'; given_char b':'; read_tail head) rest

-- `read_ipv6_addr`, to its groups
unfoldable pub read_ipv6 : Parser (List ℕ)
unfolding read_groups after_head
read_ipv6 s = let (head, embedded, rest) = read_groups 8 0 s in after_head head embedded rest

-- `read_ip_addr`
unfoldable pub read_ip : Parser IpAddr
unfolding read_ipv4 read_ipv6
read_ip s = elim (read_ipv4 s) [
  | some (octets, rest) ↦ some (v4 octets, rest)
  | none ↦ elim (read_ipv6 s) [
    | some (groups, rest) ↦ some (v6 (group_octets groups), rest)
    | none ↦ none
  ]
]

-- `parse_with`: the whole text has to be read
unfoldable pub parse_ip : Text → Option IpAddr
unfolding read_ip
parse_ip s = elim (read_ip s) [
  | none ↦ none
  | some (addr, rest) ↦ elim rest [ [] ↦ some addr | _ ∷ _ ↦ none ]
]

test_v4 : parse_ip (bytes "10.1.2.3") ≡ some (v4 (10 ∷ 1 ∷ 2 ∷ 3 ∷ []))
unfolding parse_ip
test_v4 = refl

test_v6 :
    parse_ip (bytes "2001:db8::1")
    ≡ some (v6 (32 ∷ 1 ∷ 13 ∷ 184 ∷ 0 ∷ 0 ∷ 0 ∷ 0 ∷ 0 ∷ 0 ∷ 0 ∷ 0 ∷ 0 ∷ 0 ∷ 0 ∷ 1 ∷ []))
unfolding parse_ip
test_v6 = refl

test_loopback : parse_ip (bytes "::1") ≡ some (v6 (replicate 15 0 ++ 1 ∷ []))
unfolding parse_ip
test_loopback = refl

test_bad :
    (parse_ip (bytes "not.an.ip") ≡ none)
    × (parse_ip (bytes "10.0.0.01") ≡ none)
    × (parse_ip (bytes "10.0.0.256") ≡ none)
    × (parse_ip (bytes "1:2:3") ≡ none)
    × (parse_ip (bytes "::ffff:1.2.3.4")
        ≡ some (v6 (replicate 10 0 ++ 255 ∷ 255 ∷ 1 ∷ 2 ∷ 3 ∷ 4 ∷ [])))
unfolding parse_ip
test_bad = (refl, refl, refl, refl, refl)
