-- ===== src/Rust/IpParse/Bounds.antt =====
-- Whatever the text, a parsed address has four or sixteen octets.
use mathlib.Core.Path.{subst}
use sqlite_server_rs.Prelude.{
  ℕ, zero, suc, ◌+◌, ◌-◌, ◌*◌, ◌≤◌, ◌<◌, ◌≡◌, refl, ap, Bool, Option, some, none, List, [], ◌∷◌,
  ◌++◌, arith, Text, length, replicate, All, All-append, IsBytes, length-append, Option-cases, inl,
  inr, ltb, lt→ltb, ◌==◌, ==_iff, Bool-cases, if◌then◌else◌,
}
use sqlite_server_rs.Rust.Ip.{IpAddr, v4, v6, IsAddr}
use sqlite_server_rs.Rust.IpParse.{
  Parser, ◌>>=◌, given_char, read_number, read_ipv4, read_groups, two_groups, group_octets,
  read_tail, read_ipv6, read_ip, parse_ip, separated, v4_number, v6_group, groups_step, after_head,
  ◌>>◌,
}

bind-eq-some :
    {A B : Type 0} (p : Parser A) (f : A → Parser B) (s : Text) {r : B × Text}
    → (p >>= f) s ≡ some r
    → (a : A) × (s' : Text) × (p s ≡ some (a, s')) × (f a s' ≡ some r)
bind-eq-some p f s h = elim (Option-cases (p s)) [
  | inl e ↦ absurd (ground arith)
  | inr ((a, s'), e) ↦ (a, s', e, ground arith)
]

read_number-le :
    (radix max_digits : ℕ) (zeros : Bool) (greatest : ℕ) (s : Text) (n : ℕ) (rest : Text)
    → read_number radix max_digits zeros greatest s ≡ some (n, rest)
    → n ≤ greatest
unfolding read_number
read_number-le radix max_digits zeros greatest s n rest h = ground arith

abbrev IsGroups : List ℕ → Type 0
IsGroups = All (λ g. g < 65536)

two_groups-IsGroups :
    (o : List ℕ) → IsBytes o → (length (two_groups o) ≤ 2) × IsGroups (two_groups o)
two_groups-IsGroups (a ∷ b ∷ c ∷ d ∷ []) h = omega arith
two_groups-IsGroups [] h = omega arith
two_groups-IsGroups (a ∷ []) h = omega arith
two_groups-IsGroups (a ∷ b ∷ []) h = omega arith
two_groups-IsGroups (a ∷ b ∷ c ∷ []) h = omega arith
two_groups-IsGroups (a ∷ b ∷ c ∷ d ∷ e ∷ o) h = omega arith

read_ipv4-IsAddr :
    (s : Text) (o : List ℕ) (rest : Text) → read_ipv4 s ≡ some (o, rest) → IsAddr (v4 o)
unfolding read_ipv4
read_ipv4-IsAddr s o rest h =
    let (a, s1, ea, h1) = bind-eq-some v4_number _ s h in
    let (_, s2, _, h2) = bind-eq-some (given_char 46) _ s1 h1 in
    let (b, s3, eb, h3) = bind-eq-some v4_number _ s2 h2 in
    let (_, s4, _, h4) = bind-eq-some (given_char 46) _ s3 h3 in
    let (c, s5, ec, h5) = bind-eq-some v4_number _ s4 h4 in
    let (_, s6, _, h6) = bind-eq-some (given_char 46) _ s5 h5 in
    let (d, s7, ed, h7) = bind-eq-some v4_number _ s6 h6 in
    ground (
      arith,
      h7,
      read_number-le 10 3 Bool.false 255 s a s1 ea,
      read_number-le 10 3 Bool.false 255 s2 b s3 eb,
      read_number-le 10 3 Bool.false 255 s4 c s5 ec,
      read_number-le 10 3 Bool.false 255 s6 d s7 ed,
    )

group_octets-IsBytes :
    (gs : List ℕ)
    → IsGroups gs
    → (length (group_octets gs) ≡ 2 * length gs) × IsBytes (group_octets gs)
group_octets-IsBytes [] h = (refl, tt)
group_octets-IsBytes (g ∷ gs) h =
    let (n, b) = group_octets-IsBytes gs h.1 in (omega arith, (omega arith, (omega arith, b)))

abbrev zeros : ℕ → List ℕ
zeros n = replicate n 0

zeros-IsGroups : (n : ℕ) → (length (zeros n) ≡ n) × IsGroups (zeros n)
zeros-IsGroups zero = (refl, tt)
zeros-IsGroups (suc n) = let (e, h) = zeros-IsGroups n in (ap suc e, (omega arith, h))

separated-eq-some :
    {A : Type 0} (i : ℕ) (inner : Parser A) (s : Text) {a : A} {rest : Text}
    → separated i inner s ≡ some (a, rest)
    → (s' : Text) × (inner s' ≡ some (a, rest))
separated-eq-some zero inner s h = (s, h)
separated-eq-some (suc i) inner s h =
    let (_, s', _, h') = bind-eq-some (given_char 58) (λ _. inner) s h in (s', h')

abbrev Fits : ℕ → List ℕ × Bool × Text → Type 0
Fits left r = (length r.0 ≤ left) × IsGroups r.0

groups_step-Fits :
    (left : ℕ) (o : Option (List ℕ × Text)) (g : Option (ℕ × Text)) (s : Text)
    (next : Text → List ℕ × Bool × Text)
    → ((o' : List ℕ) (rest : Text) → o ≡ some (o', rest) → (1 ≤ left) × IsAddr (v4 o'))
    → ((n : ℕ) (rest : Text) → g ≡ some (n, rest) → n ≤ 65535)
    → ((rest : Text) → Fits left (next rest))
    → Fits (suc left) (groups_step o g s next)
unfolding groups_step
groups_step-Fits left (some (o', rest)) g s next ho hg hn =
    let (room, (_, b)) = ho o' rest refl in
    let (n, gs) = two_groups-IsGroups o' b in (omega arith, gs)
groups_step-Fits left none (some (n, rest)) s next ho hg hn =
    let small = hg n rest refl in let (l, gs) = hn rest in (omega arith, (omega arith, gs))
groups_step-Fits left none none s next ho hg hn = (omega arith, tt)

-- At most as many groups as are left are read, and each is below 65536.
read_groups-Fits : (left i : ℕ) (s : Text) → Fits left (read_groups left i s)
unfolding read_groups
read_groups-Fits zero i s = (omega arith, tt)
read_groups-Fits (suc left) i s =
    groups_step-Fits left _ _ s (read_groups left (i + 1)) (embedded left)
      (λ n rest e.
        let (s', e') = separated-eq-some i v6_group s e in
        read_number-le 16 4 Bool.true 65535 s' n rest e')
      (read_groups-Fits left (i + 1))
  where
    embedded :
        (left : ℕ) (o : List ℕ) (rest : Text)
        → (if ltb 0 left then separated i read_ipv4 s else none) ≡ some (o, rest)
        → (1 ≤ left) × IsAddr (v4 o)
    embedded zero o rest e = cc
    embedded (suc k) o rest e =
        let (s', e') = separated-eq-some i read_ipv4 s (rw (lt→ltb 0 (suc k) (omega arith)) at e) in
        (omega arith, read_ipv4-IsAddr s' o rest e')

abbrev IsV6 : List ℕ → Type 0
IsV6 gs = (length gs ≡ 8) × IsGroups gs

read_tail-IsV6 :
    (head : List ℕ) (s : Text) (gs : List ℕ) (rest : Text)
    → length head ≤ 7
    → IsGroups head
    → read_tail head s ≡ some (gs, rest)
    → IsV6 gs
unfolding read_tail
read_tail-IsV6 head s gs rest n h e =
    let (m, ht) = read_groups-Fits (7 - length head) 0 s in
    let tail : List ℕ = (read_groups (7 - length head) 0 s).0 in
    let fill : ℕ = 8 - length head - length tail in
    let (z, hz) = zeros-IsGroups fill in
    let same : head ++ (zeros fill ++ tail) ≡ gs = ground arith in
    subst IsV6 same (
      omega (arith, length-append head (zeros fill ++ tail), length-append (zeros fill) tail),
      All-append _ head (zeros fill ++ tail) h (All-append _ (zeros fill) tail hz ht),
    )

after_head-IsV6 :
    (head : List ℕ) (embedded : Bool) (s : Text) (gs : List ℕ) (rest : Text)
    → length head ≤ 8
    → IsGroups head
    → after_head head embedded s ≡ some (gs, rest)
    → IsV6 gs
unfolding after_head
after_head-IsV6 head embedded s gs rest n h e = elim (Bool-cases (length head == 8)) [
  | inl full ↦ let same : head ≡ gs = ground arith in subst IsV6 same ((==_iff _ _).0 full, h)
  | inr short ↦
      let e1 : (given_char 58 >> (given_char 58 >> read_tail head)) s ≡ some (gs, rest) =
        ground arith in
      let (_, s1, _, e2) =
        bind-eq-some (given_char 58) (λ _. given_char 58 >> read_tail head) s e1 in
      let (_, s2, _, e3) = bind-eq-some (given_char 58) (λ _. read_tail head) s1 e2 in
      read_tail-IsV6 head s2 gs rest (ground arith) h e3
]

read_ipv6-IsV6 : (s : Text) (gs : List ℕ) (rest : Text) → read_ipv6 s ≡ some (gs, rest) → IsV6 gs
unfolding read_ipv6
read_ipv6-IsV6 s gs rest e =
    let (n, h) = read_groups-Fits 8 0 s in after_head-IsV6 _ _ _ gs rest n h e

read_ip-IsAddr :
    (s : Text) (addr : IpAddr) (rest : Text) → read_ip s ≡ some (addr, rest) → IsAddr addr
unfolding read_ip
read_ip-IsAddr s addr rest h = elim (Option-cases (read_ipv4 s)) [
  | inl e ↦ elim (Option-cases (read_ipv6 s)) [
    | inl e' ↦ absurd (ground arith)
    | inr ((gs, rest'), e') ↦
        let (n, b) = read_ipv6-IsV6 s gs rest' e' in
        let (m, c) = group_octets-IsBytes gs b in
        let same : v6 (group_octets gs) ≡ addr = ground arith in subst IsAddr same (omega arith, c)
  ]
  | inr ((o, rest'), e) ↦
      let same : v4 o ≡ addr = ground arith in subst IsAddr same (read_ipv4-IsAddr s o rest' e)
]

-- A parsed address has four octets or sixteen, each below 256.
pub parse_ip-IsAddr : (s : Text) (addr : IpAddr) → parse_ip s ≡ some addr → IsAddr addr
unfolding parse_ip
parse_ip-IsAddr s addr h = elim (Option-cases (read_ip s)) [
  | inl e ↦ absurd (ground arith)
  | inr ((a, []), e) ↦
      let same : a ≡ addr = ground arith in subst IsAddr same (read_ip-IsAddr s a [] e)
  | inr ((a, x ∷ rest), e) ↦ absurd (ground arith)
]
