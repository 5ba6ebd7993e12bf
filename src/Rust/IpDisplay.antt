-- ===== src/Rust/IpDisplay.antt =====
-- The `Display` of `Ipv4Addr` and `Ipv6Addr` in `core::net`.
pub mod Hexadecimal
pub mod Spans
pub mod Dots
pub mod Groups
pub mod V6
pub mod Mapped
pub mod Chars
use sqlite_server_rs.Prelude.{
  ℕ, ◌+◌, ◌*◌, ◌/◌, ◌%◌, ◌≡◌, refl, Bool, ◌&&◌, List, [], ◌∷◌, ◌++◌, Text, bytes, ltb, ◌==◌,
  if◌then◌else◌, take, drop, replicate, text_eq,
}
use sqlite_server_rs.Rust.Decimal.{decimal}
use sqlite_server_rs.Rust.Ip.{IpAddr, v4, v6}

unfoldable pub hex_digit : ℕ → ℕ
hex_digit d = if ltb d 10 then 48 + d else 87 + d

-- `{:x}` of a group
pub hexadecimal : ℕ → Text
unfolding hex_digit
hexadecimal n =
    if ltb n 16
    then hex_digit n ∷ []
    else if ltb n 256
    then hex_digit (n / 16) ∷ hex_digit (n % 16) ∷ []
    else if ltb n 4096
    then hex_digit (n / 256) ∷ hex_digit (n / 16 % 16) ∷ hex_digit (n % 16) ∷ []
    else hex_digit (n / 4096)
      ∷ hex_digit (n / 256 % 16)
      ∷ hex_digit (n / 16 % 16)
      ∷ hex_digit (n % 16)
      ∷ []

-- the octets of a V4 address, with dots between them
unfoldable pub display_v4 : List ℕ → Text
unfolding decimal
display_v4 [] = []
display_v4 (a ∷ []) = decimal a
display_v4 (a ∷ b ∷ rest) = decimal a ++ (b'.' ∷ display_v4 (b ∷ rest))

pub groups_of : List ℕ → List ℕ
groups_of (a ∷ b ∷ rest) = (a * 256 + b) ∷ groups_of rest
groups_of _ = []

-- a run of zero groups
pub record Span : Type 0 where
  pub start : ℕ
  pub len : ℕ

abbrev pub no_span : Span
no_span = record { start = 0; len = 0 }

abbrev pub longer : Span → Span → Span
longer longest current = if ltb longest.len current.len then current else longest

-- the loop over the groups, from index `i`, for the first of the longest runs
pub longest_span : ℕ → Span → Span → List ℕ → Span
longest_span i longest current [] = longest
longest_span i longest current (g ∷ groups) =
    let grown : Span = record {
      start = if current.len == 0 then i else current.start;
      len = current.len + 1;
    } in
    longest_span (i + 1) (if g == 0 then longer longest grown else longest)
      (if g == 0 then grown else no_span) groups

-- `fmt_subslice`
pub joined : List ℕ → Text
unfolding hexadecimal
joined [] = []
joined (g ∷ []) = hexadecimal g
joined (g ∷ h ∷ rest) = hexadecimal g ++ (b':' ∷ joined (h ∷ rest))

pub display_groups : List ℕ → Text
unfolding longest_span joined
display_groups groups =
    let zeroes = longest_span 0 no_span no_span groups in
    if ltb 1 zeroes.len
    then joined (take zeroes.start groups)
      ++ (bytes "::" ++ joined (drop (zeroes.start + zeroes.len) groups))
    else joined groups

-- `Ipv6Addr::to_ipv4_mapped` selects the form `::ffff:a.b.c.d`
abbrev pub is_mapped : List ℕ → Bool
is_mapped a = text_eq (take 12 a) (replicate 10 0 ++ (255 ∷ 255 ∷ []))

unfoldable pub display_ip : IpAddr → Text
unfolding display_v4 display_groups groups_of
display_ip (v4 a) = display_v4 a
display_ip (v6 a) =
    if is_mapped a then bytes "::ffff:" ++ display_v4 (drop 12 a) else display_groups (groups_of a)

tests :
    (display_ip (v4 (127 ∷ 0 ∷ 0 ∷ 1 ∷ [])) ≡ bytes "127.0.0.1")
    × (display_ip (v6 (replicate 15 0 ++ 1 ∷ [])) ≡ bytes "::1")
    × (display_ip (v6 (32 ∷ 1 ∷ 13 ∷ 184 ∷ replicate 12 0)) ≡ bytes "2001:db8::")
    × (display_ip (v6 (replicate 10 0 ++ 255 ∷ 255 ∷ 1 ∷ 2 ∷ 3 ∷ 4 ∷ [])) ≡ bytes "::ffff:1.2.3.4")
unfolding display_ip
tests = (refl, refl, refl, refl)
