-- ===== src/Cidr/Canonical.antt =====
-- `canonicalize` of src/config.rs, by the bits of the address.
use sqlite_server_rs.Prelude.{
  ℕ, suc, ◌+◌, ◌-◌, ◌*◌, ◌≤◌, ◌<◌, bit_and, ◌≡◌, refl, sym, ap, ◌∙◌, ◌⊎◌, List, [], ◌∷◌, arith, ltb,
  ltb→lt, ltb→le, Bool-cases, inl, inr, if◌then◌else◌, length, IsBytes,
}
use sqlite_server_rs.Rust.Ip.{IpAddr, v4, v6, IsAddr, octets}
use sqlite_server_rs.Cidr.{shl_u8, mask_byte, mask_from, mask, canonicalize, max_prefix}
use sqlite_server_rs.Cidr.Bits.{
  bit, bit-mask, mask-lt, octets_ext, bit_at, bit_at-head, bit_at-tail_sub, bit_at-nil, bit_zero,
}

-- where the prefix ends: before a byte, in it, or after it
byte_cases :
    (prefix bits : ℕ)
    → (prefix ≤ bits) ⊎ ((bits < prefix) × (prefix < bits + 8)) ⊎ (bits + 8 ≤ prefix)
byte_cases prefix bits = ground arith

-- the byte that the prefix ends in
mask_byte-cut :
    (prefix bits x : ℕ)
    → bits < prefix
    → prefix < bits + 8
    → mask_byte prefix bits x ≡ bit_and x (shl_u8 255 (8 - (prefix - bits)))
mask_byte-cut prefix bits x p q =
    let shift : bits + 8 - prefix ≡ 8 - (prefix - bits) = omega arith in rw (← shift) (ground arith)

bit-mask_byte :
    (prefix bits x n : ℕ)
    → x < 256
    → n < 8
    → bit (mask_byte prefix bits x) n ≡ (if ltb (bits + n) prefix then bit x n else 0)
bit-mask_byte prefix bits x n hx hn = elim (byte_cases prefix bits) [
  | inl outside ↦ ground (arith, bit_zero n)
  | inr (inl (p, q)) ↦
      ap (λ m. bit m n) (mask_byte-cut prefix bits x p q)
      ∙ ground (arith, bit-mask x (prefix - bits) n hx (omega arith) hn)
  | inr (inr whole) ↦ ground arith
]

mask_byte-lt : (prefix bits x : ℕ) → x < 256 → mask_byte prefix bits x < 256
mask_byte-lt prefix bits x hx = elim (byte_cases prefix bits) [
  | inl outside ↦ ground arith
  | inr (inl (p, q)) ↦
      omega (arith, mask_byte-cut prefix bits x p q, mask-lt x (prefix - bits) hx (omega arith))
  | inr (inr whole) ↦ ground arith
]

pub length-mask_from : (prefix i : ℕ) (xs : List ℕ) → length (mask_from prefix i xs) ≡ length xs
unfolding mask_from
length-mask_from prefix i [] = refl
length-mask_from prefix i (x ∷ xs) = ap suc (length-mask_from prefix (i + 1) xs)

pub mask_from-IsBytes : (prefix i : ℕ) (xs : List ℕ) → IsBytes xs → IsBytes (mask_from prefix i xs)
unfolding mask_from
mask_from-IsBytes prefix i [] h = tt
mask_from-IsBytes prefix i (x ∷ xs) h =
    (mask_byte-lt prefix (i * 8) x h.0, mask_from-IsBytes prefix (i + 1) xs h.1)

bit_at-mask_from :
    (prefix i : ℕ) (xs : List ℕ) (n : ℕ)
    → IsBytes xs
    → bit_at (mask_from prefix i xs) n ≡ (if ltb (i * 8 + n) prefix then bit_at xs n else 0)
unfolding mask_from
bit_at-mask_from prefix i [] n h = ground (arith, bit_at-nil n)
bit_at-mask_from prefix i (x ∷ xs) n h = elim (Bool-cases (ltb n 8)) [
  | inl small ↦
      let s = ltb→lt _ _ small in
      rw (bit_at-head _ (mask_from prefix (i + 1) xs) n s, bit_at-head x xs n s)
        (bit-mask_byte prefix (i * 8) x n h.0 s)
  | inr large ↦
      let m = ltb→le _ _ large in
      let next : (i + 1) * 8 + (n - 8) ≡ i * 8 + n = omega arith in
      rw (bit_at-tail_sub _ (mask_from prefix (i + 1) xs) n m, bit_at-tail_sub x xs n m, ← next)
        (bit_at-mask_from prefix (i + 1) xs (n - 8) h.1)
]

pub canonicalize-IsAddr :
    (addr : IpAddr) (prefix : ℕ) → IsAddr addr → IsAddr (canonicalize addr prefix)
unfolding canonicalize mask
canonicalize-IsAddr (v4 a) prefix (n, h) =
    (length-mask_from prefix 0 a ∙ n, mask_from-IsBytes prefix 0 a h)
canonicalize-IsAddr (v6 a) prefix (n, h) =
    (length-mask_from prefix 0 a ∙ n, mask_from-IsBytes prefix 0 a h)

pub max_prefix-canonicalize :
    (addr : IpAddr) (prefix : ℕ) → max_prefix (canonicalize addr prefix) ≡ max_prefix addr
unfolding canonicalize
max_prefix-canonicalize (v4 a) prefix = refl
max_prefix-canonicalize (v6 a) prefix = refl

pub IsBytes-of_IsAddr : (addr : IpAddr) → IsAddr addr → IsBytes (octets addr)
IsBytes-of_IsAddr (v4 a) h = h.1
IsBytes-of_IsAddr (v6 a) h = h.1

pub length-octets : (addr : IpAddr) → IsAddr addr → length (octets addr) * 8 ≡ max_prefix addr
length-octets (v4 a) h = omega (arith, h.0)
length-octets (v6 a) h = omega (arith, h.0)

octets-canonicalize :
    (addr : IpAddr) (prefix : ℕ)
    → octets (canonicalize addr prefix) ≡ mask_from prefix 0 (octets addr)
unfolding canonicalize mask
octets-canonicalize (v4 a) prefix = refl
octets-canonicalize (v6 a) prefix = refl

-- `canonicalize` keeps the bits of an address before the prefix length and clears the others.
pub bit_at-canonicalize :
    (addr : IpAddr) (prefix n : ℕ)
    → IsAddr addr
    → bit_at (octets (canonicalize addr prefix)) n
      ≡ (if ltb n prefix then bit_at (octets addr) n else 0)
bit_at-canonicalize addr prefix n h =
    rw (octets-canonicalize addr prefix)
      (bit_at-mask_from prefix 0 (octets addr) n (IsBytes-of_IsAddr addr h) ∙ ground arith)

-- Addresses of one family with the same bits are equal.
pub IpAddr_ext :
    (a b : IpAddr)
    → IsAddr a
    → IsAddr b
    → max_prefix a ≡ max_prefix b
    → ((n : ℕ) → bit_at (octets a) n ≡ bit_at (octets b) n)
    → a ≡ b
IpAddr_ext (v4 a) (v4 b) ha hb e all = ap v4 (octets_ext a b (ha.0 ∙ sym hb.0) ha.1 hb.1 all)
IpAddr_ext (v4 a) (v6 b) ha hb e all = absurd (omega arith)
IpAddr_ext (v6 a) (v4 b) ha hb e all = absurd (omega arith)
IpAddr_ext (v6 a) (v6 b) ha hb e all = ap v6 (octets_ext a b (ha.0 ∙ sym hb.0) ha.1 hb.1 all)

-- Canonicalising an address a second time with the same prefix changes nothing.
pub canonicalize_idempotent :
    (addr : IpAddr) (prefix : ℕ)
    → IsAddr addr
    → canonicalize (canonicalize addr prefix) prefix ≡ canonicalize addr prefix
canonicalize_idempotent addr prefix h =
    let c = canonicalize addr prefix in
    let hc = canonicalize-IsAddr addr prefix h in
    IpAddr_ext (canonicalize c prefix) c (canonicalize-IsAddr c prefix hc) hc
      (max_prefix-canonicalize c prefix)
      λ n. ground (arith, bit_at-canonicalize c prefix n hc, bit_at-canonicalize addr prefix n h)
