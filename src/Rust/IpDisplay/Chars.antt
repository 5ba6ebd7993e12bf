-- ===== src/Rust/IpDisplay/Chars.antt =====
-- The characters that the `Display` of `IpAddr` writes: hexadecimal digits, dots and colons.
use mathlib.Core.Path.{subst}
use sqlite_server_rs.Prelude.{
  ℕ, zero, suc, ◌+◌, ◌≡◌, ◌<◌, inl, inr, Bool-cases, List, [], ◌∷◌, ◌++◌, take, drop, bytes, ltb,
  All, All-append, arith, IsBytes,
}
use sqlite_server_rs.Rust.Decimal.{decimal}
use sqlite_server_rs.Rust.Decimal.Bytes.{one, two, three, decimal-IsText}
use sqlite_server_rs.Rust.Ip.{IpAddr, v4, v6, IsAddr}
use sqlite_server_rs.Rust.IpDisplay.{
  hex_digit, hexadecimal, display_v4, groups_of, Span, no_span, longest_span, joined,
  display_groups, is_mapped, display_ip,
}
use sqlite_server_rs.Rust.IpDisplay.Hexadecimal.{hexadecimal-All}
use sqlite_server_rs.Rust.IpDisplay.Groups.{IsGroup}

All-take : (P : ℕ → Type 0) (n : ℕ) (xs : List ℕ) → All P xs → All P (take n xs)
All-take P zero xs h = tt
All-take P (suc n) [] h = tt
All-take P (suc n) (x ∷ xs) h = (h.0, All-take P n xs h.1)

All-drop : (P : ℕ → Type 0) (n : ℕ) (xs : List ℕ) → All P xs → All P (drop n xs)
All-drop P zero xs h = h
All-drop P (suc n) [] h = tt
All-drop P (suc n) (x ∷ xs) h = All-drop P n xs h.1

pub IsBytes-drop : (n : ℕ) (a : List ℕ) → IsBytes a → IsBytes (drop n a)
IsBytes-drop zero a h = h
IsBytes-drop (suc n) [] h = tt
IsBytes-drop (suc n) (x ∷ a) h = IsBytes-drop n a h.1

groups_of-IsGroup : (a : List ℕ) → IsBytes a → All IsGroup (groups_of a)
unfolding groups_of
groups_of-IsGroup [] h = tt
groups_of-IsGroup (x ∷ []) h = tt
groups_of-IsGroup (x ∷ y ∷ a) (hx, (hy, h)) = (omega (arith, hx, hy), groups_of-IsGroup a h)

module _ (P : ℕ → Type 0) (digit : (d : ℕ) → d < 10 → P (48 + d)) where
  pub decimal-All : (n : ℕ) → n < 256 → All P (decimal n)
  decimal-All n h = elim (decimal-IsText n h) [
    | one small e ↦ rw e (digit n small, tt)
    | two a b pos_a ha hb t e ↦ rw e (digit a ha, (digit b hb, tt))
    | three a b c pos_a ha hb hc t e ↦ rw e (digit a ha, (digit b hb, (digit c hc, tt)))
  ]

  display_v4-All : P b'.' → (a : List ℕ) → IsBytes a → All P (display_v4 a)
  unfolding display_v4
  display_v4-All dot [] h = tt
  display_v4-All dot (a ∷ []) h = decimal-All a h.0
  display_v4-All dot (a ∷ b ∷ rest) h =
      All-append P (decimal a) (b'.' ∷ display_v4 (b ∷ rest)) (decimal-All a h.0)
        (dot, display_v4-All dot (b ∷ rest) h.1)

module _ (P : ℕ → Type 0) (digit : (d : ℕ) → d < 16 → P (hex_digit d)) (colon : P b':') where
  joined-All : (gs : List ℕ) → All IsGroup gs → All P (joined gs)
  unfolding joined
  joined-All [] h = tt
  joined-All (g ∷ []) h = hexadecimal-All P digit g h.0
  joined-All (g ∷ k ∷ gs) h =
      All-append P (hexadecimal g) (b':' ∷ joined (k ∷ gs)) (hexadecimal-All P digit g h.0)
        (colon, joined-All (k ∷ gs) h.1)

  display_groups-All : (gs : List ℕ) → All IsGroup gs → All P (display_groups gs)
  unfolding display_groups
  display_groups-All gs h =
      let sp : Span = longest_span 0 no_span no_span gs in
      elim (Bool-cases (ltb 1 sp.len)) [
        | inl more ↦
            rw (more, display_groups)
              (All-append P (joined (take sp.start gs))
                (bytes "::" ++ joined (drop (sp.start + sp.len) gs))
                (joined-All (take sp.start gs) (All-take IsGroup sp.start gs h))
                (
                  colon,
                  (
                    colon,
                    joined-All (drop (sp.start + sp.len) gs)
                        (All-drop IsGroup (sp.start + sp.len) gs h),
                  ),
                ))
        | inr single ↦ rw (single, display_groups) (joined-All gs h)
      ]

  hex_digit-decimal : (d : ℕ) → d < 10 → P (48 + d)
  unfolding hex_digit
  hex_digit-decimal d h =
      let e : hex_digit d ≡ 48 + d = ground arith in subst P e (digit d (omega (arith, h)))

  f : P b'f'
  unfolding hex_digit
  f = digit 15 (omega arith)

  -- What hexadecimal digits, colons and dots have, every character of an address has.
  pub display_ip-All : P b'.' → (a : IpAddr) → IsAddr a → All P (display_ip a)
  unfolding display_ip
  display_ip-All dot (v4 a) (four, h) = display_v4-All P hex_digit-decimal dot a h
  display_ip-All dot (v6 a) (sixteen, h) = elim (Bool-cases (is_mapped a)) [
    | inl mapped ↦
        rw (mapped, display_ip)
          (All-append P (bytes "::ffff:") (display_v4 (drop 12 a))
            (colon, (colon, (f, (f, (f, (f, (colon, tt)))))))
            (display_v4-All P hex_digit-decimal dot (drop 12 a) (IsBytes-drop 12 a h)))
    | inr plain ↦ rw (plain, display_ip) (display_groups-All (groups_of a) (groups_of-IsGroup a h))
  ]
