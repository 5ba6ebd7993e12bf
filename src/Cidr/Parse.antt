-- ===== src/Cidr/Parse.antt =====
-- `Cidr::parse` of src/config.rs, and the matches of the network that it gives.
use mathlib.Core.Path.{subst}
use sqlite_server_rs.Prelude.{
  ℕ, ◌≤◌, ◌<◌, ◌≡◌, refl, sym, ap, ◌∙◌, ◌↔◌, inl, inr, Bool, true, some, none, arith, Text, ok,
  Option-cases, List,
}
use sqlite_server_rs.Rust.Ip.{IpAddr, IsAddr, octets}
use sqlite_server_rs.Rust.Str.{split_once, parse_u8}
use sqlite_server_rs.Rust.IpParse.{parse_ip}
use sqlite_server_rs.Rust.IpParse.Bounds.{parse_ip-IsAddr}
use sqlite_server_rs.Cidr.{Cidr, canonicalize, contains, max_prefix, parse}
use sqlite_server_rs.Cidr.Bits.{SamePrefix, bit_at}
use sqlite_server_rs.Cidr.Canonical.{
  canonicalize-IsAddr, max_prefix-canonicalize, canonicalize_idempotent, bit_at-canonicalize,
}
use sqlite_server_rs.Cidr.Contains.{IsCidr, SameFamily, contains_decides}

-- `entry` is the text of `addr`, for its whole length, or of `addr/prefix`.
pub data Names (entry : Text) (addr : IpAddr) (prefix : ℕ) : Type 0 where
  bare :
      split_once b'/' entry ≡ none
      → parse_ip entry ≡ some addr
      → prefix ≡ max_prefix addr
      → Names entry addr prefix
  with_prefix :
      (front back : Text)
      → split_once b'/' entry ≡ some (front, back)
      → parse_ip front ≡ some addr
      → parse_u8 back ≡ some prefix
      → prefix ≤ max_prefix addr
      → Names entry addr prefix

abbrev pub network_of : IpAddr → ℕ → Cidr
network_of addr prefix = record { network = canonicalize addr prefix; prefix = prefix }

parse_sound :
    (entry : Text) (c : Cidr)
    → parse entry ≡ ok c
    → (addr : IpAddr) × (prefix : ℕ) × Names entry addr prefix × (c ≡ network_of addr prefix)
unfolding parse
parse_sound entry c h = elim (Option-cases (split_once b'/' entry)) [
  | inl whole ↦ elim (Option-cases (parse_ip entry)) [
    | inl e ↦ absurd (ground arith)
    | inr (addr, e) ↦ (addr, max_prefix addr, bare whole e refl, ground arith)
  ]
  | inr ((front, back), cut) ↦ elim (Option-cases (parse_u8 back)) [
    | inl e ↦ absurd (ground arith)
    | inr (prefix, given) ↦ elim (Option-cases (parse_ip front)) [
      | inl e ↦ absurd (ground arith)
      | inr (addr, e) ↦
          (addr, prefix, with_prefix front back cut e given (ground arith), ground arith)
    ]
  ]
]

parse_complete :
    (entry : Text) (addr : IpAddr) (prefix : ℕ)
    → Names entry addr prefix
    → parse entry ≡ ok (network_of addr prefix)
unfolding parse
parse_complete entry addr prefix (bare whole e p) = ground arith
parse_complete entry addr prefix (with_prefix front back cut e given fits) = ground arith

pub parse_iff :
    (entry : Text) (c : Cidr)
    → (parse entry ≡ ok c)
      ↔ ((addr : IpAddr) × (prefix : ℕ) × Names entry addr prefix × (c ≡ network_of addr prefix))
parse_iff entry c = (
  parse_sound entry c,
  λ named. parse_complete entry named.0 named.1 named.2 ∙ ap ok (sym named.3),
)

Names-IsAddr :
    (entry : Text) (addr : IpAddr) (prefix : ℕ)
    → Names entry addr prefix
    → IsAddr addr × (prefix ≤ max_prefix addr)
Names-IsAddr entry addr prefix (bare whole e p) = (parse_ip-IsAddr entry addr e, omega arith)
Names-IsAddr entry addr prefix (with_prefix front back cut e given fits) =
    (parse_ip-IsAddr front addr e, fits)

network_of-IsCidr :
    (addr : IpAddr) (prefix : ℕ)
    → IsAddr addr
    → prefix ≤ max_prefix addr
    → IsCidr (network_of addr prefix)
network_of-IsCidr addr prefix wf fits = record {
  addr = canonicalize-IsAddr addr prefix wf;
  in_range = rw (max_prefix-canonicalize addr prefix) fits;
  canonical = canonicalize_idempotent addr prefix wf;
}

-- An accepted entry has a prefix length in range, and a network with no host bits.
pub parse-IsCidr : (entry : Text) (c : Cidr) → parse entry ≡ ok c → IsCidr c
parse-IsCidr entry c h =
    let (addr, prefix, named, same) = parse_sound entry c h in
    let (wf, fits) = Names-IsAddr entry addr prefix named in
    subst IsCidr (sym same) (network_of-IsCidr addr prefix wf fits)

SamePrefix-canonicalize :
    (addr : IpAddr) (b : List ℕ) (prefix : ℕ)
    → IsAddr addr
    → SamePrefix (octets (canonicalize addr prefix)) b prefix ↔ SamePrefix (octets addr) b prefix
SamePrefix-canonicalize addr b prefix wf =
    (λ all n h. sym (kept n h) ∙ all n h, λ all n h. kept n h ∙ all n h)
  where
    kept :
        (n : ℕ) → n < prefix → bit_at (octets (canonicalize addr prefix)) n ≡ bit_at (octets addr) n
    kept n h = bit_at-canonicalize addr prefix n wf ∙ ground arith

-- The network of an accepted entry matches exactly the addresses of the family of the address as it
-- was written that agree with it on the bits of the prefix: clearing the host bits changes no match.
pub contains-parse :
    (entry : Text) (addr ip : IpAddr) (prefix : ℕ)
    → Names entry addr prefix
    → IsAddr ip
    → (c : Cidr) × (r : Bool) × (parse entry ≡ ok c)
      × (contains c ip ≡ some r)
      × ((r ≡ true) ↔ (SameFamily addr ip × SamePrefix (octets addr) (octets ip) prefix))
contains-parse entry addr ip prefix named hi =
    let (wf, fits) = Names-IsAddr entry addr prefix named in
    let c : Cidr = network_of addr prefix in
    let hc = network_of-IsCidr addr prefix wf fits in
    let (r, e, iff) = contains_decides c ip hc.addr hc.in_range hi in
    let family = max_prefix-canonicalize addr prefix in
    let bits = SamePrefix-canonicalize addr (octets ip) prefix wf in
    (
      c,
      r,
      parse_complete entry addr prefix named,
      e,
      (
        λ t. let both = iff.0 t in (sym family ∙ both.0, bits.0 both.1),
        λ both. iff.1 (family ∙ both.0, bits.1 both.1),
      ),
    )
