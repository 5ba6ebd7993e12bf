-- ===== src/Cidr/Display.antt =====
-- `Display for Cidr` of src/config.rs, and `Cidr::parse` of the text that it writes.
use sqlite_server_rs.Prelude.{
  ℕ, ◌≡◌, ◌<◌, ◌≤◌, refl, false, sym, ap, some, [], ◌∷◌, ◌++◌, Text, ◌==◌, ok, arith, All,
  All-append,
}
use sqlite_server_rs.Rust.Decimal.{decimal}
use sqlite_server_rs.Rust.Ip.{IpAddr, v4, v6}
use sqlite_server_rs.Rust.Str.{split_once}
use sqlite_server_rs.Rust.IpDisplay.{display_ip, hex_digit}
use sqlite_server_rs.Rust.IpDisplay.Chars.{decimal-All, display_ip-All}
use sqlite_server_rs.Rust.IpDisplay.Mapped.{parse_ip-display_ip}
use sqlite_server_rs.Rust.IpParse.Display.{parse_u8-decimal}
use sqlite_server_rs.Cidr.{Cidr, parse, to_string, max_prefix}
use sqlite_server_rs.Cidr.Contains.{IsCidr}
use sqlite_server_rs.Cidr.Parse.{Names, with_prefix, parse_iff}

-- no slash
abbrev IsPlain : ℕ → Type 0
IsPlain x = (x == b'/') ≡ false

-- one of the characters from the dot to the letter f
abbrev pub IsPrinted : ℕ → Type 0
IsPrinted x = (46 ≤ x) × (x < 103)

split_once-append : (s t : Text) → All IsPlain s → split_once b'/' (s ++ (b'/' ∷ t)) ≡ some (s, t)
unfolding split_once
split_once-append [] t h = refl
split_once-append (x ∷ s) t h = rw (h.0, split_once, split_once-append s t h.1) refl

hex_digit-IsPlain : (d : ℕ) → d < 16 → IsPlain (hex_digit d)
unfolding hex_digit
hex_digit-IsPlain d h = ground arith

max_prefix-byte : (a : IpAddr) (prefix : ℕ) → prefix ≤ max_prefix a → prefix < 256
max_prefix-byte (v4 a) prefix h = omega (arith, h)
max_prefix-byte (v6 a) prefix h = omega (arith, h)

-- The text of a network with a prefix length in range names it.
to_string-Names : (c : Cidr) → IsCidr c → Names (to_string c) c.network c.prefix
unfolding to_string
to_string-Names c wf =
    with_prefix (display_ip c.network) (decimal c.prefix)
      (split_once-append (display_ip c.network) (decimal c.prefix)
        (display_ip-All IsPlain hex_digit-IsPlain refl refl c.network wf.addr))
      (parse_ip-display_ip c.network wf.addr)
      (parse_u8-decimal c.prefix (max_prefix-byte c.network c.prefix wf.in_range)) wf.in_range

-- A network of the whitelist is read back from the text that is logged for it.
pub parse-to_string : (c : Cidr) → IsCidr c → parse (to_string c) ≡ ok c
parse-to_string c wf = (parse_iff (to_string c) c).1 (
  c.network,
  c.prefix,
  to_string-Names c wf,
  ap (λ n. record { network = n; prefix = c.prefix }) (sym wf.canonical),
)

hex_digit-IsPrinted : (d : ℕ) → d < 16 → IsPrinted (hex_digit d)
unfolding hex_digit
hex_digit-IsPrinted d h = (ground arith, ground arith)

-- The text of a network is made of hexadecimal digits, dots, colons and a slash.
pub to_string-IsPrinted : (c : Cidr) → IsCidr c → All IsPrinted (to_string c)
unfolding to_string
to_string-IsPrinted c wf =
    All-append IsPrinted (display_ip c.network) (b'/' ∷ decimal c.prefix)
      (display_ip-All IsPrinted hex_digit-IsPrinted (omega arith, omega arith)
        (omega arith, omega arith) c.network wf.addr)
      (
        (omega arith, omega arith),
        decimal-All IsPrinted (λ d h. (omega arith, omega arith)) c.prefix
            (max_prefix-byte c.network c.prefix wf.in_range),
      )
