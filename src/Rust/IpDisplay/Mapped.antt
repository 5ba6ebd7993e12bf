-- ===== src/Rust/IpDisplay/Mapped.antt =====
-- The text `::ffff:a.b.c.d` of an IPv4-mapped IPv6 address, and the round trip of every address.
use sqlite_server_rs.Prelude.{
  ℕ, suc, ◌+◌, ◌-◌, ◌*◌, ◌/◌, ◌%◌, ◌≡◌, refl, sym, ap, ◌∙◌, inl, inr, true, none, some, List, [],
  ◌∷◌, ◌++◌, take, drop, replicate, length, take-append-drop, Text, bytes, text_eq_iff, Bool-cases,
  Bool, arith, IsBytes, length-drop,
}
use sqlite_server_rs.Rust.Ip.{IpAddr, v4, v6, IsAddr}
use sqlite_server_rs.Rust.IpParse.{
  given_char, number_loop, read_number, read_ipv4, groups_step, read_groups, two_groups,
  group_octets, read_tail, after_head, read_ipv6, parse_ip,
}
use sqlite_server_rs.Rust.IpParse.Display.{read_ipv4-display_v4, parse_ip-display_v4}
use sqlite_server_rs.Rust.IpDisplay.{display_v4, is_mapped, display_ip}
use sqlite_server_rs.Rust.IpDisplay.Chars.{IsBytes-drop}
use sqlite_server_rs.Rust.IpDisplay.V6.{parse_ip-v6, parse_ip-display_groups}

abbrev mapped_groups : List ℕ → List ℕ
mapped_groups a = replicate 5 0 ++ (65535 ∷ two_groups a)

abbrev mapped_text : List ℕ → Text
mapped_text a = bytes "::ffff:" ++ display_v4 a

mapped-front : (t : Text) → read_ipv6 (bytes "::" ++ t) ≡ read_tail [] t
unfolding read_ipv6 after_head read_groups groups_step read_ipv4 read_number number_loop given_char
mapped-front t = refl

mapped-group :
    (t : Text)
    → read_groups 7 0 (bytes "ffff:" ++ t)
      ≡ groups_step none (some (65535, b':' ∷ t)) (bytes "ffff:" ++ t) (read_groups 6 1)
unfolding read_groups groups_step read_ipv4 read_number number_loop
mapped-group t = refl

embedded-group :
    (t : Text) (octets : List ℕ)
    → read_ipv4 t ≡ some (octets, [])
    → read_groups 6 1 (b':' ∷ t) ≡ (two_groups octets, true, [])
unfolding read_groups groups_step given_char
embedded-group t octets e = rw (e, groups_step) refl

mapped-tail :
    (a : List ℕ)
    → length a ≡ 4
    → IsBytes a
    → read_groups 7 0 (bytes "ffff:" ++ display_v4 a) ≡ (65535 ∷ two_groups a, true, [])
unfolding groups_step
mapped-tail a four h =
    mapped-group (display_v4 a)
    ∙ rw (embedded-group (display_v4 a) a (read_ipv4-display_v4 a four h)) refl

mapped_octets :
    (a : List ℕ)
    → length a ≡ 4
    → IsBytes a
    → (group_octets (mapped_groups a) ≡ replicate 10 0 ++ (255 ∷ 255 ∷ a))
      × (length (two_groups a) ≡ 2)
mapped_octets [] four h = absurd (ground (arith, four))
mapped_octets (a ∷ []) four h = absurd (ground (arith, four))
mapped_octets (a ∷ b ∷ []) four h = absurd (ground (arith, four))
mapped_octets (a ∷ b ∷ c ∷ []) four h = absurd (ground (arith, four))
mapped_octets (a ∷ b ∷ c ∷ d ∷ e ∷ rest) four h = absurd (omega (arith, four))
mapped_octets (a ∷ b ∷ c ∷ d ∷ []) four (ha, (hb, (hc, (hd, _)))) =
    let ea : (a * 256 + b) / 256 ≡ a = omega (arith, ha, hb) in
    let eb : (a * 256 + b) % 256 ≡ b = omega (arith, ha, hb) in
    let ec : (c * 256 + d) / 256 ≡ c = omega (arith, hc, hd) in
    let ed : (c * 256 + d) % 256 ≡ d = omega (arith, hc, hd) in (rw (ea, eb, ec, ed) refl, refl)

read_tail-groups :
    (head : List ℕ) (s : Text) (tail : List ℕ) (embedded : Bool) (rest : Text)
    → read_groups (7 - length head) 0 s ≡ (tail, embedded, rest)
    → read_tail head s ≡ some (head ++ (replicate (8 - length head - length tail) 0 ++ tail), rest)
unfolding read_tail
read_tail-groups head s tail embedded rest e = rw e refl

read_ipv6-mapped :
    (a : List ℕ) → length a ≡ 4 → IsBytes a → read_ipv6 (mapped_text a) ≡ some (mapped_groups a, [])
read_ipv6-mapped a four h =
    let left : 8 - suc (length (two_groups a)) ≡ 5 = omega (arith, (mapped_octets a four h).1) in
    mapped-front (bytes "ffff:" ++ display_v4 a)
    ∙ read_tail-groups [] (bytes "ffff:" ++ display_v4 a) (65535 ∷ two_groups a) true []
        (mapped-tail a four h)
    ∙ ap (λ n. some (replicate n 0 ++ (65535 ∷ two_groups a), [])) left

mapped_text-v4 : (s : Text) → read_ipv4 (b':' ∷ s) ≡ none
unfolding read_ipv4 read_number number_loop
mapped_text-v4 s = refl

parse_ip-mapped :
    (a : List ℕ)
    → length a ≡ 4
    → IsBytes a
    → parse_ip (mapped_text a) ≡ some (v6 (replicate 10 0 ++ (255 ∷ 255 ∷ a)))
parse_ip-mapped a four h =
    parse_ip-v6 (mapped_text a) (mapped_groups a) (mapped_text-v4 (bytes ":ffff:" ++ display_v4 a))
      (read_ipv6-mapped a four h)
    ∙ ap (λ o. some (v6 o)) (mapped_octets a four h).0

-- Every address is read back from its text.
pub parse_ip-display_ip : (a : IpAddr) → IsAddr a → parse_ip (display_ip a) ≡ some a
unfolding display_ip
parse_ip-display_ip (v4 a) (four, h) = parse_ip-display_v4 a four h
parse_ip-display_ip (v6 a) (sixteen, h) = elim (Bool-cases (is_mapped a)) [
  | inl mapped ↦
      let front : take 12 a ≡ replicate 10 0 ++ (255 ∷ 255 ∷ []) =
        (text_eq_iff (take 12 a) (replicate 10 0 ++ (255 ∷ 255 ∷ []))).0 mapped in
      let whole : replicate 10 0 ++ (255 ∷ 255 ∷ drop 12 a) ≡ a =
        ap (λ t. t ++ drop 12 a) (sym front) ∙ take-append-drop 12 a in
      let four : length (drop 12 a) ≡ 4 = omega (arith, length-drop 12 a, sixteen) in
      rw (mapped, display_ip)
        (parse_ip-mapped (drop 12 a) four (IsBytes-drop 12 a h) ∙ ap (λ o. some (v6 o)) whole)
  | inr plain ↦ rw (plain, display_ip) (parse_ip-display_groups a sixteen h)
]
