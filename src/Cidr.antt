-- ===== src/Cidr.antt =====
-- src/config.rs: the type `Cidr`, `Cidr::contains`, `Cidr::parse`, its `Display`, `masked_eq`
-- and `canonicalize`.
-- An octet is a number below 256 and an array of octets is a list. A slice or an index out of range
-- panics in Rust: such a result is `none` here.
pub mod Bits
pub mod Canonical
pub mod Contains
pub mod Display
pub mod Parse
use mathlib.Core.Option
use sqlite_server_rs.Prelude.{
  and_then, ℕ, ◌+◌, ◌-◌, ◌*◌, ◌/◌, ◌%◌, ◌^◌, bit_and, Bool, true, false, not, Option, none, some,
  List, [], ◌∷◌, ltb, leb, ◌==◌, text_eq, if◌then◌else◌, ◌++◌, length, Text, bytes, Result, ok, err,
  ok_or, ◌>>=◌, take, get_elem?,
}
use sqlite_server_rs.Rust.Ip.{IpAddr, v4, v6}
use sqlite_server_rs.Rust.Str.{split_once, parse_u8}
use sqlite_server_rs.Rust.IpParse.{parse_ip}
use sqlite_server_rs.Rust.Decimal.{decimal}
use sqlite_server_rs.Rust.IpDisplay.{display_ip}

pub record Cidr : Type 0 where
  pub network : IpAddr
  pub prefix : ℕ

-- `x << k` on a `u8`
abbrev pub shl_u8 : ℕ → ℕ → ℕ
shl_u8 x k = x * 2 ^ k % 256

-- `a[..n]`
abbrev pub slice_to : List ℕ → ℕ → Option (List ℕ)
slice_to a n = if leb n (length a) then some (take n a) else none

-- the test of the byte that the prefix ends in
last_byte_eq : List ℕ → List ℕ → ℕ → ℕ → Option Bool
last_byte_eq a b full_bytes remaining_bits =
    let mask = shl_u8 255 (8 - remaining_bits) in
    and_then (get_elem? a full_bytes)
      λ x. and_then (get_elem? b full_bytes) λ y. some (bit_and x mask == bit_and y mask)

unfoldable pub masked_eq : List ℕ → List ℕ → ℕ → Option Bool
unfolding last_byte_eq
masked_eq a b prefix =
    let full_bytes = prefix / 8 in
    let remaining_bits = prefix % 8 in
    and_then (slice_to a full_bytes) λ front_a. and_then (slice_to b full_bytes) λ front_b.
      if not (text_eq front_a front_b)
      then some false
      else if ltb 0 remaining_bits
      then last_byte_eq a b full_bytes remaining_bits
      else some true

-- one round of the loop of `mask`, at the byte whose first bit is number `bits`
abbrev pub mask_byte : ℕ → ℕ → ℕ → ℕ
mask_byte prefix bits byte =
    if leb prefix bits
    then 0
    else if ltb prefix (bits + 8)
    then bit_and byte (shl_u8 255 (bits + 8 - prefix))
    else byte

-- the loop of `mask`, from index `i`
unfoldable pub mask_from : ℕ → ℕ → List ℕ → List ℕ
mask_from prefix i [] = []
mask_from prefix i (byte ∷ octets) = mask_byte prefix (i * 8) byte ∷ mask_from prefix (i + 1) octets

unfoldable pub mask : List ℕ → ℕ → List ℕ
mask octets prefix = mask_from prefix 0 octets

unfoldable pub canonicalize : IpAddr → ℕ → IpAddr
canonicalize (v4 a) prefix = v4 (mask a prefix)
canonicalize (v6 a) prefix = v6 (mask a prefix)

-- `none` is a panic in `masked_eq`.
contains_octets : IpAddr → ℕ → IpAddr → Option Bool
contains_octets (v4 net) prefix (v4 ip) = masked_eq net ip prefix
contains_octets (v6 net) prefix (v6 ip) = masked_eq net ip prefix
contains_octets _ prefix _ = some false

unfoldable pub contains : Cidr → IpAddr → Option Bool
unfolding contains_octets
contains c ip = contains_octets c.network c.prefix ip

-- `if addr.is_ipv4() { 32 } else { 128 }`
abbrev pub max_prefix : IpAddr → ℕ
max_prefix (v4 a) = 32
max_prefix (v6 a) = 128

-- the message of the closure `invalid`
abbrev pub invalid : Text → Text
invalid entry = bytes "Invalid ip_whitelist entry: " ++ entry

-- the text of the address, and the prefix length if one is given
split_prefix : Text → Result (Text × Option ℕ) Text
split_prefix entry = elim (split_once b'/' entry) [
  | some (addr, prefix_str) ↦ do
    prefix ← ok_or (parse_u8 prefix_str) (invalid entry)
    ok (addr, some prefix)
  | none ↦ ok (entry, none)
]

unfoldable pub parse : Text → Result Cidr Text
unfolding split_prefix
parse entry = do
  parts ← split_prefix entry
  addr ← ok_or (parse_ip parts.0) (invalid entry)
  let prefix = Option.get_or parts.1 (max_prefix addr)
  if ltb (max_prefix addr) prefix
      then err (invalid entry)
      else ok (record { network = canonicalize addr prefix; prefix = prefix })

-- `Display for Cidr`
unfoldable pub to_string : Cidr → Text
to_string c = display_ip c.network ++ (b'/' ∷ decimal c.prefix)
