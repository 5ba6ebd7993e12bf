-- ===== src/Cidr/Contains.antt =====
-- `masked_eq` and `Cidr::contains` of src/config.rs, against the bits of the addresses.
use sqlite_server_rs.Prelude.{
  ℕ, zero, suc, ◌+◌, ◌*◌, ◌/◌, ◌%◌, ◌≤◌, ◌<◌, ◌≡◌, refl, ◌∙◌, sym, ap, ◌↔◌, inl, inr, Bool, true,
  false, ◌==◌, ==_iff, ◌&&◌, ◌-◌, bit_and, and-eq-true, if◌then◌else◌, some, List, [], ◌∷◌, arith,
  text_eq, length, take, get_elem?, get_or, IsBytes, le→leb, Bool-cases, ltb, ltb→lt, ltb→le,
}
use sqlite_server_rs.Rust.Ip.{IpAddr, v4, v6, IsAddr, octets}
use sqlite_server_rs.Cidr.{
  Cidr, shl_u8, masked_eq, canonicalize, contains, contains_octets, max_prefix,
}
use sqlite_server_rs.Cidr.Bits.{
  bit, bit_at-head, bit_at-tail, bit_at-tail_sub, bit_at_byte, SamePrefix, octet_ext, mask-eq_iff,
}

get_elem?-eq-get_or : (xs : List ℕ) (i : ℕ) → i < length xs → get_elem? xs i ≡ some (get_or xs i 0)
get_elem?-eq-get_or [] i h = absurd (omega arith)
get_elem?-eq-get_or (x ∷ xs) zero h = refl
get_elem?-eq-get_or (x ∷ xs) (suc i) h = get_elem?-eq-get_or xs i (omega arith)

get_or-lt : (xs : List ℕ) (i : ℕ) → IsBytes xs → get_or xs i 0 < 256
get_or-lt [] i h = omega arith
get_or-lt (x ∷ xs) zero h = h.0
get_or-lt (x ∷ xs) (suc i) h = get_or-lt xs i h.1

-- One byte more: its eight bits and those after it.
SamePrefix-cons :
    (x y : ℕ) (a b : List ℕ) (p : ℕ)
    → x < 256
    → y < 256
    → SamePrefix (x ∷ a) (y ∷ b) (p + 8) ↔ ((x ≡ y) × SamePrefix a b p)
SamePrefix-cons x y a b p hx hy = (
  λ all. (
    octet_ext x y hx hy
        λ n h. sym (bit_at-head x a n h) ∙ all n (omega arith) ∙ bit_at-head y b n h,
    λ n h. sym (bit_at-tail x a n) ∙ all (n + 8) (omega arith) ∙ bit_at-tail y b n,
  ),
  λ both n h. elim (Bool-cases (ltb n 8)) [
    | inl small ↦
        let s = ltb→lt _ _ small in
        bit_at-head x a n s ∙ ap (λ z. bit z n) both.0 ∙ sym (bit_at-head y b n s)
    | inr large ↦
        let m = ltb→le _ _ large in
        bit_at-tail_sub x a n m ∙ both.1 (n - 8) (omega arith) ∙ sym (bit_at-tail_sub y b n m)
  ],
)

-- The whole bytes of the prefix are compared as slices.
take-eq_iff :
    (f : ℕ) (a b : List ℕ)
    → f ≤ length a
    → f ≤ length b
    → IsBytes a
    → IsBytes b
    → (text_eq (take f a) (take f b) ≡ true) ↔ SamePrefix a b (f * 8)
take-eq_iff zero a b la lb ha hb = (λ _ n h. absurd (omega arith), λ _. refl)
take-eq_iff (suc f) [] b la lb ha hb = absurd (omega arith)
take-eq_iff (suc f) (x ∷ a) [] la lb ha hb = absurd (omega arith)
take-eq_iff (suc f) (x ∷ a) (y ∷ b) la lb ha hb =
    let (to, from) = take-eq_iff f a b (omega arith) (omega arith) ha.1 hb.1 in
    let (split, join) = SamePrefix-cons x y a b (f * 8) ha.0 hb.0 in
    let size : suc f * 8 ≡ f * 8 + 8 = omega arith in
    (
      λ e. let parts = and-eq-true _ _ e in rw size (join ((==_iff x y).0 parts.0, to parts.1)),
      λ all.
          let parts = split (λ n h. all n (omega arith)) in
          rw ((==_iff x y).1 parts.0) (from parts.1),
    )

-- The bits of the byte that the prefix ends in.
SamePrefix-rest :
    (a b : List ℕ) (f r : ℕ)
    → r ≤ 8
    → SamePrefix a b (f * 8 + r)
      ↔ (SamePrefix a b (f * 8) × ((n : ℕ) → n < r → bit (get_or a f 0) n ≡ bit (get_or b f 0) n))
SamePrefix-rest a b f r h = (
  λ all. (
    λ n p. all n (omega arith),
    λ n p.
        sym (bit_at_byte a f n (omega arith))
        ∙ all (f * 8 + n) (omega arith)
        ∙ bit_at_byte b f n (omega arith),
  ),
  λ both n p. elim (Bool-cases (ltb n (f * 8))) [
    | inl front ↦ both.0 n (ltb→lt _ _ front)
    | inr back ↦
        let m = ltb→le _ _ back in
        let e : n ≡ f * 8 + (n - f * 8) = omega arith in
        rw e (
          bit_at_byte a f (n - f * 8) (omega arith)
          ∙ both.1 (n - f * 8) (omega arith)
          ∙ sym (bit_at_byte b f (n - f * 8) (omega arith)))
  ],
)

-- The tests of `masked_eq` on slices and a byte that are there.
masked_tests : List ℕ → List ℕ → ℕ → ℕ → Bool
masked_tests a b f r =
    text_eq (take f a) (take f b)
    && (if ltb 0 r
        then bit_and (get_or a f 0) (shl_u8 255 (8 - r))
          == bit_and (get_or b f 0) (shl_u8 255 (8 - r))
        else true)

masked_eq-eq-tests :
    (a b : List ℕ) (prefix : ℕ)
    → length a ≡ length b
    → prefix ≤ length a * 8
    → masked_eq a b prefix ≡ some (masked_tests a b (prefix / 8) (prefix % 8))
unfolding masked_eq masked_tests
masked_eq-eq-tests a b prefix e h =
    rw (le→leb (prefix / 8) (length a) (omega arith), le→leb (prefix / 8) (length b) (omega arith))
      (elim (Bool-cases (ltb 0 (prefix % 8))) [
        | inl more ↦
            let m = ltb→lt _ _ more in
            ground (
              arith,
              get_elem?-eq-get_or a (prefix / 8) (omega arith),
              get_elem?-eq-get_or b (prefix / 8) (omega arith),
            )
        | inr done ↦ ground arith
      ])

masked_tests_iff :
    (a b : List ℕ) (f r : ℕ)
    → f ≤ length a
    → f ≤ length b
    → r < 8
    → IsBytes a
    → IsBytes b
    → (masked_tests a b f r ≡ true) ↔ SamePrefix a b (f * 8 + r)
unfolding masked_tests
masked_tests_iff a b f r la lb hr ha hb =
    let whole = take-eq_iff f a b la lb ha hb in
    let rest = SamePrefix-rest a b f r (omega arith) in
    let masks =
      mask-eq_iff (get_or a f 0) (get_or b f 0) r (get_or-lt a f ha) (get_or-lt b f hb) hr in
    (
      λ e.
          let parts = and-eq-true _ _ e in
          rest.1 (whole.0 parts.0, λ n p. masks.0 (ground (arith, parts.1)) n p),
      λ all. let parts = rest.0 all in ground (arith, whole.1 parts.0, masks.1 parts.1),
    )

-- On octets of one length, and a prefix within it, `masked_eq` does not panic, and answers `true`
-- exactly when the first `prefix` bits agree.
pub masked_eq_decides :
    (a b : List ℕ) (prefix : ℕ)
    → length a ≡ length b
    → prefix ≤ length a * 8
    → IsBytes a
    → IsBytes b
    → (r : Bool) × (masked_eq a b prefix ≡ some r) × ((r ≡ true) ↔ SamePrefix a b prefix)
masked_eq_decides a b prefix e h ha hb =
    let size : prefix / 8 * 8 + prefix % 8 ≡ prefix = omega arith in
    let (to, from) =
      masked_tests_iff a b (prefix / 8) (prefix % 8) (omega arith) (omega arith) (omega arith) ha
        hb in
    (
      masked_tests a b (prefix / 8) (prefix % 8),
      masked_eq-eq-tests a b prefix e h,
      (λ p. rw size at to p, λ all. from (rw size all)),
    )

-- What `Cidr::parse` establishes: a prefix length that the family allows, and no host bits.
pub record IsCidr (c : Cidr) : Type 0 where
  pub addr : IsAddr c.network
  pub in_range : c.prefix ≤ max_prefix c.network
  pub canonical : canonicalize c.network c.prefix ≡ c.network

abbrev pub SameFamily : IpAddr → IpAddr → Type 0
SameFamily a b = max_prefix a ≡ max_prefix b

-- `contains` does not panic on a network with a prefix length in range, and answers `true` exactly
-- for the addresses of its family that agree with it on the bits of the prefix.
pub contains_decides :
    (c : Cidr) (ip : IpAddr)
    → IsAddr c.network
    → c.prefix ≤ max_prefix c.network
    → IsAddr ip
    → (r : Bool) × (contains c ip ≡ some r)
      × ((r ≡ true)
          ↔ (SameFamily c.network ip × SamePrefix (octets c.network) (octets ip) c.prefix))
unfolding contains
contains_decides c ip hc hp hi = by_family c.network ip hc hp hi
  where
    by_family :
        (net ip : IpAddr)
        → IsAddr net
        → c.prefix ≤ max_prefix net
        → IsAddr ip
        → (r : Bool) × (contains_octets net c.prefix ip ≡ some r)
          × ((r ≡ true) ↔ (SameFamily net ip × SamePrefix (octets net) (octets ip) c.prefix))
    by_family (v4 a) (v4 b) ha hp hb =
        let (r, e, iff) =
          masked_eq_decides a b c.prefix (omega (arith, ha.0, hb.0)) (omega (arith, ha.0)) ha.1
            hb.1 in
        (r, e, ((λ t. (refl, iff.0 t)), (λ both. iff.1 both.1)))
    by_family (v6 a) (v6 b) ha hp hb =
        let (r, e, iff) =
          masked_eq_decides a b c.prefix (omega (arith, ha.0, hb.0)) (omega (arith, ha.0)) ha.1
            hb.1 in
        (r, e, ((λ t. (refl, iff.0 t)), (λ both. iff.1 both.1)))
    by_family (v4 a) (v6 b) ha hp hb =
        (false, refl, ((λ t. cc), (λ both. absurd (omega (arith, both.0)))))
    by_family (v6 a) (v4 b) ha hp hb =
        (false, refl, ((λ t. cc), (λ both. absurd (omega (arith, both.0)))))
