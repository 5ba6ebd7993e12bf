-- ===== src/Rust/IpDisplay/V6.antt =====
-- `str::parse` of the text that `Display` writes for an IPv6 address.
use mathlib.Core.Path.{subst}
use sqlite_server_rs.Prelude.{
  ℕ, zero, suc, ◌+◌, ◌-◌, ◌*◌, ◌/◌, ◌%◌, ◌≡◌, ◌≤◌, ◌<◌, refl, sym, ap, ◌∙◌, inl, inr, false, none,
  some, List, [], ◌∷◌, ◌++◌, append-nil, take, drop, length, length-append, Text, bytes, ltb,
  Bool-cases, All, All-append, arith, IsBytes, append_assoc, take-append_length, drop-append_length,
}
use sqlite_server_rs.Rust.Ip.{v6}
use sqlite_server_rs.Rust.IpParse.{
  given_char, read_ipv4, read_groups, group_octets, read_tail, after_head, read_ipv6, read_ip,
  parse_ip,
}
use sqlite_server_rs.Rust.IpDisplay.{groups_of, Span, no_span, longest_span, joined, display_groups}
use sqlite_server_rs.Rust.IpDisplay.Spans.{zeros, IsSpan, longest_span-zeros}
use sqlite_server_rs.Rust.IpDisplay.Dots.{NoDot, read_ipv4-none}
use sqlite_server_rs.Rust.IpDisplay.Groups.{IsGroup, read_groups-joined, joined-NoDot}

read_ipv6-groups :
    (s : Text) (head : List ℕ) (rest : Text)
    → read_groups 8 0 s ≡ (head, false, rest)
    → read_ipv6 s ≡ after_head head false rest
unfolding read_ipv6
read_ipv6-groups s head rest e = rw e refl

-- the form without `::`
read_ipv6-joined :
    (groups : List ℕ)
    → length groups ≡ 8
    → All IsGroup groups
    → read_ipv6 (joined groups) ≡ some (groups, [])
unfolding after_head
read_ipv6-joined groups eight h =
    read_ipv6-groups (joined groups) groups [] (
      rw (append-nil (joined groups)) at
        (read_groups-joined 8 groups [] (omega (arith, eight)) h tt tt))
    ∙ rw (eight, after_head) refl

after_head-colons :
    (head : List ℕ) (rest : Text)
    → length head < 8
    → after_head head false (b':' ∷ b':' ∷ rest) ≡ read_tail head rest
unfolding after_head given_char
after_head-colons head rest short = ground arith

read_tail-joined :
    (front back : List ℕ) (n : ℕ)
    → length front + (n + length back) ≡ 8
    → 2 ≤ n
    → All IsGroup back
    → read_tail front (joined back) ≡ some (front ++ (zeros n ++ back), [])
unfolding read_tail
read_tail-joined front back n eight some_zeros h =
    let e =
      rw (append-nil (joined back)) at
        (read_groups-joined (7 - length front) back [] (omega arith) h tt tt) in
    let left : 8 - length front - length back ≡ n = omega (arith, eight) in rw (e, left) refl

-- the form with `::`
read_ipv6-compressed :
    (front back : List ℕ) (n : ℕ)
    → length front + (n + length back) ≡ 8
    → 2 ≤ n
    → All IsGroup front
    → All IsGroup back
    → read_ipv6 (joined front ++ (bytes "::" ++ joined back))
      ≡ some (front ++ (zeros n ++ back), [])
read_ipv6-compressed front back n eight some_zeros hf hb =
    read_ipv6-groups (joined front ++ (bytes "::" ++ joined back)) front (bytes "::" ++ joined back)
      (read_groups-joined 8 front (bytes "::" ++ joined back) (omega (arith, eight)) hf (refl, refl)
        (refl, (refl, joined-NoDot back hb)))
    ∙ after_head-colons front (joined back) (omega (arith, eight, some_zeros))
    ∙ read_tail-joined front back n eight some_zeros hb

All-front : (P : ℕ → Type 0) (xs ys : List ℕ) → All P (xs ++ ys) → All P xs
All-front P [] ys h = tt
All-front P (x ∷ xs) ys h = (h.0, All-front P xs ys h.1)

All-back : (P : ℕ → Type 0) (xs ys : List ℕ) → All P (xs ++ ys) → All P ys
All-back P [] ys h = h
All-back P (x ∷ xs) ys h = All-back P xs ys h.1

length-zeros : (n : ℕ) → length (zeros n) ≡ n
length-zeros zero = refl
length-zeros (suc n) = ap suc (length-zeros n)

-- The texts of both forms are read back, and have no dot.
record IsRead (groups : List ℕ) (s : Text) : Type 0 where
  read_back : read_ipv6 s ≡ some (groups, [])
  no_dot : All NoDot s

compressed-IsRead :
    (groups : List ℕ) (sp : Span)
    → length groups ≡ 8
    → All IsGroup groups
    → 2 ≤ sp.len
    → IsSpan groups sp
    → IsRead groups
        (joined (take sp.start groups) ++ (bytes "::" ++ joined (drop (sp.start + sp.len) groups)))
compressed-IsRead groups sp eight h some_zeros span =
    let front = span.front in
    let back = span.back in
    let later : List ℕ = zeros sp.len ++ back in
    let all_h : All IsGroup (front ++ later) = subst (All IsGroup) span.split h in
    let hf = All-front IsGroup front later all_h in
    let hb = All-back IsGroup (zeros sp.len) back (All-back IsGroup front later all_h) in
    let until : length (front ++ zeros sp.len) ≡ sp.start + sp.len =
      length-append front (zeros sp.len) ∙ rw (span.starts, length-zeros sp.len) refl in
    let e_front : take sp.start groups ≡ front =
      ap (take sp.start) span.split
      ∙ ap (λ n. take n (front ++ later)) (sym span.starts)
      ∙ take-append_length front later in
    let e_back : drop (sp.start + sp.len) groups ≡ back =
      ap (drop (sp.start + sp.len)) (span.split ∙ sym (append_assoc front (zeros sp.len) back))
      ∙ ap (λ n. drop n ((front ++ zeros sp.len) ++ back)) (sym until)
      ∙ drop-append_length (front ++ zeros sp.len) back in
    let sum : length front + (sp.len + length back) ≡ 8 = omega (
      arith,
      eight,
      ap length span.split,
      length-append front later,
      length-append (zeros sp.len) back,
      length-zeros sp.len,
    ) in
    rw (e_front, e_back)
      (record {
        read_back =
            read_ipv6-compressed front back sp.len sum some_zeros hf hb
            ∙ ap (λ g. some (g, [])) (sym span.split);
        no_dot =
            All-append NoDot (joined front) (bytes "::" ++ joined back) (joined-NoDot front hf)
              (refl, (refl, joined-NoDot back hb));
      })

display_groups-IsRead :
    (groups : List ℕ)
    → length groups ≡ 8
    → All IsGroup groups
    → IsRead groups (display_groups groups)
unfolding display_groups
display_groups-IsRead groups eight h =
    let sp : Span = longest_span 0 no_span no_span groups in
    elim (Bool-cases (ltb 1 sp.len)) [
      | inl more ↦
          rw (more, display_groups)
            (compressed-IsRead groups sp eight h (ground (arith, more)) (longest_span-zeros groups))
      | inr single ↦
          rw (single, display_groups)
            (record { read_back = read_ipv6-joined groups eight h; no_dot = joined-NoDot groups h })
    ]

-- The octets of the groups are the octets they are made of.
group_octets-groups_of :
    (k : ℕ) (a : List ℕ)
    → length a ≡ k * 2
    → IsBytes a
    → (group_octets (groups_of a) ≡ a) × (length (groups_of a) ≡ k) × All IsGroup (groups_of a)
unfolding groups_of
group_octets-groups_of zero [] even h = (refl, refl, tt)
group_octets-groups_of zero (x ∷ a) even h = absurd (omega (arith, even))
group_octets-groups_of (suc k) [] even h = absurd (omega (arith, even))
group_octets-groups_of (suc k) (x ∷ []) even h = absurd (omega (arith, even))
group_octets-groups_of (suc k) (x ∷ y ∷ a) even (hx, (hy, h)) =
    let (same, count, small) = group_octets-groups_of k a (omega (arith, even)) h in
    let high : (x * 256 + y) / 256 ≡ x = omega (arith, hx, hy) in
    let low : (x * 256 + y) % 256 ≡ y = omega (arith, hx, hy) in
    (rw (high, low, same) refl, ap suc count, (omega (arith, hx, hy), small))

pub parse_ip-v6 :
    (s : Text) (groups : List ℕ)
    → read_ipv4 s ≡ none
    → read_ipv6 s ≡ some (groups, [])
    → parse_ip s ≡ some (v6 (group_octets groups))
unfolding parse_ip read_ip
parse_ip-v6 s groups e4 e6 = rw (e4, e6, parse_ip) refl

-- An IPv6 address is read back from its text in hexadecimal.
pub parse_ip-display_groups :
    (a : List ℕ) → length a ≡ 16 → IsBytes a → parse_ip (display_groups (groups_of a)) ≡ some (v6 a)
parse_ip-display_groups a sixteen h =
    let (same, eight, small) = group_octets-groups_of 8 a sixteen h in
    let k = display_groups-IsRead (groups_of a) eight small in
    parse_ip-v6 (display_groups (groups_of a)) (groups_of a)
      (read_ipv4-none (display_groups (groups_of a)) k.no_dot) k.read_back
    ∙ ap (λ o. some (v6 o)) same
