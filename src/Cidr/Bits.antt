-- ===== src/Cidr/Bits.antt =====
-- The bits of octets, most significant first, and the masks of `masked_eq` and `canonicalize`.
use mathlib.Core.Path.{ap₂}
use sqlite_server_rs.Prelude.{
  ℕ, zero, suc, ◌+◌, ◌-◌, ◌*◌, ◌/◌, ◌%◌, ◌^◌, ◌≤◌, ◌<◌, bit_and, ◌≡◌, refl, ap, ◌↔◌, ◌⊎◌, inl, inr,
  arith, Bool, true, ◌&&◌, ltb, ltb→lt, ◌==◌, ==_iff, and-eq-true, if◌then◌else◌, all_below,
  all_below_sound, List, [], ◌∷◌, get_or, ◌∙◌, sym, length, IsBytes,
}
use sqlite_server_rs.Cidr.{shl_u8}

-- bit `k` of an octet, from the most significant bit, number 0
pub bit : ℕ → ℕ → ℕ
bit x k = x / 2 ^ (7 - k) % 2

-- the first `k` bits of an octet, as a number
pub top : ℕ → ℕ → ℕ
top x k = x / 2 ^ (8 - k)

pub top-suc : (x k : ℕ) → k < 8 → top x (suc k) ≡ 2 * top x k + bit x k
unfolding top bit
top-suc x zero h = omega arith
top-suc x (suc zero) h = omega arith
top-suc x (suc (suc zero)) h = omega arith
top-suc x (suc (suc (suc zero))) h = omega arith
top-suc x (suc (suc (suc (suc zero)))) h = omega arith
top-suc x (suc (suc (suc (suc (suc zero))))) h = omega arith
top-suc x (suc (suc (suc (suc (suc (suc zero)))))) h = omega arith
top-suc x (suc (suc (suc (suc (suc (suc (suc zero))))))) h = omega arith
top-suc x (suc (suc (suc (suc (suc (suc (suc (suc k)))))))) h = absurd (omega arith)

pub bit-lt : (x k : ℕ) → bit x k < 2
unfolding bit
bit-lt x k = omega arith

pub top_zero : (x : ℕ) → x < 256 → top x 0 ≡ 0
unfolding top
top_zero x h = omega arith

pub top_eight : (x : ℕ) → top x 8 ≡ x
unfolding top
top_eight x = omega arith

-- What the mask of the first `k` bits keeps, by evaluation at each octet, bit and mask.
abbrev mask_keeps : ℕ → ℕ → ℕ → Bool
mask_keeps x k n =
    let masked = bit_and x (shl_u8 255 (8 - k)) in
    ltb masked 256 && (bit masked n == (if ltb n k then bit x n else 0))

mask_table : all_below 256 (λ x. all_below 8 (λ k. all_below 8 (mask_keeps x k))) ≡ true
unfolding all_below bit
mask_table = refl

mask_keeps_all : (x k n : ℕ) → x < 256 → k < 8 → n < 8 → mask_keeps x k n ≡ true
mask_keeps_all x k n hx hk hn =
    all_below_sound 8 (mask_keeps x k) n
      (all_below_sound 8 (λ k. all_below 8 (mask_keeps x k)) k
        (all_below_sound 256 (λ x. all_below 8 (λ k. all_below 8 (mask_keeps x k))) x mask_table hx)
        hk)
      hn

pub bit-mask :
    (x k n : ℕ)
    → x < 256
    → k < 8
    → n < 8
    → bit (bit_and x (shl_u8 255 (8 - k))) n ≡ (if ltb n k then bit x n else 0)
bit-mask x k n hx hk hn = (==_iff _ _).0 (and-eq-true _ _ (mask_keeps_all x k n hx hk hn)).1

pub mask-lt : (x k : ℕ) → x < 256 → k < 8 → bit_and x (shl_u8 255 (8 - k)) < 256
mask-lt x k hx hk = ltb→lt _ _ (and-eq-true _ _ (mask_keeps_all x k 0 hx hk (omega arith))).0

pub lt_suc_cases : (n k : ℕ) → n < suc k → (n < k) ⊎ (n ≡ k)
lt_suc_cases n k h = omega arith

-- Octets agree on their first `k` bits exactly when those bits are one number.
pub top-eq_iff :
    (x y k : ℕ)
    → x < 256
    → y < 256
    → k ≤ 8
    → (top x k ≡ top y k) ↔ ((n : ℕ) → n < k → bit x n ≡ bit y n)
top-eq_iff x y zero hx hy hk =
    (λ _ n h. absurd (omega arith), λ _. omega (arith, top_zero x hx, top_zero y hy))
top-eq_iff x y (suc k) hx hy hk =
    let (to, from) = top-eq_iff x y k hx hy (omega arith) in
    let sx = top-suc x k (omega arith) in
    let sy = top-suc y k (omega arith) in
    let bx = bit-lt x k in
    let by = bit-lt y k in
    (
      λ e n h. elim (lt_suc_cases n k h) [
        | inl p ↦ to (omega (arith, sx, sy, bx, by)) n p
        | inr q ↦ rw q (omega (arith, sx, sy, bx, by))
      ],
      λ all. omega (arith, sx, sy, from (λ n p. all n (omega arith)), all k (omega arith)),
    )

pub octet_ext : (x y : ℕ) → x < 256 → y < 256 → ((n : ℕ) → n < 8 → bit x n ≡ bit y n) → x ≡ y
octet_ext x y hx hy all =
    omega (arith, top_eight x, top_eight y, (top-eq_iff x y 8 hx hy (omega arith)).1 all)

-- Two octets agree under the mask of the first `k` bits exactly when those bits agree.
pub mask-eq_iff :
    (x y k : ℕ)
    → x < 256
    → y < 256
    → k < 8
    → (bit_and x (shl_u8 255 (8 - k)) ≡ bit_and y (shl_u8 255 (8 - k)))
      ↔ ((n : ℕ) → n < k → bit x n ≡ bit y n)
mask-eq_iff x y k hx hy hk = (
  λ e n h.
      let kept = ap (λ m. bit m n) e in
      ground (arith, kept, bit-mask x k n hx hk (omega arith), bit-mask y k n hy hk (omega arith)),
  λ all.
      octet_ext _ _ (mask-lt x k hx hk) (mask-lt y k hy hk)
        λ n h. ground (arith, bit-mask x k n hx hk h, bit-mask y k n hy hk h, all n),
)

-- Bit `n` of an address, counted from the most significant bit of its first octet.
pub bit_at : List ℕ → ℕ → ℕ
bit_at octets n = bit (get_or octets (n / 8) 0) (n % 8)

-- The first `prefix` bits of two addresses agree.
abbrev pub SamePrefix : List ℕ → List ℕ → ℕ → Type 0
SamePrefix a b prefix = (n : ℕ) → n < prefix → bit_at a n ≡ bit_at b n

pub bit_at-head : (x : ℕ) (xs : List ℕ) (n : ℕ) → n < 8 → bit_at (x ∷ xs) n ≡ bit x n
unfolding bit_at
bit_at-head x xs n h =
    let e : n / 8 ≡ 0 = omega arith in let f : n % 8 ≡ n = omega arith in rw (e, f)

pub bit_at-tail : (x : ℕ) (xs : List ℕ) (n : ℕ) → bit_at (x ∷ xs) (n + 8) ≡ bit_at xs n
unfolding bit_at
bit_at-tail x xs n =
    let e : (n + 8) / 8 ≡ suc (n / 8) = omega arith in
    let f : (n + 8) % 8 ≡ n % 8 = omega arith in rw (e, f)

pub bit_zero : (n : ℕ) → bit 0 n ≡ 0
unfolding bit
bit_zero n = omega arith

pub bit_at-nil : (n : ℕ) → bit_at [] n ≡ 0
unfolding bit_at
bit_at-nil n = bit_zero (n % 8)

pub bit_at-tail_sub : (x : ℕ) (xs : List ℕ) (n : ℕ) → 8 ≤ n → bit_at (x ∷ xs) n ≡ bit_at xs (n - 8)
bit_at-tail_sub x xs n h =
    let e : n ≡ n - 8 + 8 = omega arith in ap (λ m. bit_at (x ∷ xs) m) e ∙ bit_at-tail x xs (n - 8)

-- Bytes of one length with the same bits are equal.
pub octets_ext :
    (a b : List ℕ)
    → length a ≡ length b
    → IsBytes a
    → IsBytes b
    → ((n : ℕ) → bit_at a n ≡ bit_at b n)
    → a ≡ b
octets_ext [] [] e ha hb all = refl
octets_ext [] (y ∷ b) e ha hb all = absurd (omega arith)
octets_ext (x ∷ a) [] e ha hb all = absurd (omega arith)
octets_ext (x ∷ a) (y ∷ b) e ha hb all =
    ap₂ ◌∷◌ (octet_ext x y ha.0 hb.0 λ n h. sym (bit_at-head x a n h) ∙ all n ∙ bit_at-head y b n h)
      (octets_ext a b (omega arith) ha.1 hb.1
        λ n. sym (bit_at-tail x a n) ∙ all (n + 8) ∙ bit_at-tail y b n)

pub bit_at_byte : (xs : List ℕ) (f n : ℕ) → n < 8 → bit_at xs (f * 8 + n) ≡ bit (get_or xs f 0) n
unfolding bit_at
bit_at_byte xs f n h =
    let e : (f * 8 + n) / 8 ≡ f = omega arith in
    let m : (f * 8 + n) % 8 ≡ n = omega arith in
    ap (λ k. bit (get_or xs k 0) ((f * 8 + n) % 8)) e ∙ ap (λ k. bit (get_or xs f 0) k) m
