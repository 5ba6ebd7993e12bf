-- ===== src/Rust/IpDisplay/Groups.antt =====
-- The groups of an IPv6 address with colons between them, and `read_groups` of `core::net`.
use mathlib.Core.Path.{subst}
use sqlite_server_rs.Prelude.{
  ℕ, zero, suc, ◌+◌, append-nil, ◌≡◌, ◌≤◌, ◌<◌, refl, sym, ap, ◌∙◌, inl, inr, false, Option, none,
  some, List, [], ◌∷◌, ◌++◌, append_assoc, Text, ltb, Bool-cases, length, All, All-append, arith,
}
use sqlite_server_rs.Rust.IpParse.{
  Parser, to_digit, number_loop, read_number, v6_group, given_char, read_ipv4, separated,
  groups_step, read_groups,
}
use sqlite_server_rs.Rust.IpDisplay.{hex_digit, hexadecimal, joined}
use sqlite_server_rs.Rust.IpDisplay.Hexadecimal.{StopsHex, v6_group-hexadecimal, hexadecimal-All}
use sqlite_server_rs.Rust.IpDisplay.Dots.{NoDot, read_ipv4-none}

-- each group after a colon
abbrev pub tail_text : List ℕ → Text
tail_text [] = []
tail_text (g ∷ gs) = b':' ∷ (hexadecimal g ++ tail_text gs)

pub joined-cons : (g : ℕ) (gs : List ℕ) → joined (g ∷ gs) ≡ hexadecimal g ++ tail_text gs
unfolding joined
joined-cons g [] = sym (append-nil (hexadecimal g))
joined-cons g (h ∷ gs) = ap (λ t. hexadecimal g ++ (b':' ∷ t)) (joined-cons h gs)

abbrev pub IsGroup : ℕ → Type 0
IsGroup g = g < 65536

-- the end of the text, or two colons
abbrev pub Ends : Text → Type 0
Ends [] = Unit
Ends (a ∷ []) = ⊥
Ends (a ∷ b ∷ s) = (a ≡ b':') × (b ≡ b':')

separated-colon :
    {A : Type 0} (i : ℕ) (inner : Parser A) (s : Text)
    → 1 ≤ i
    → separated i inner (b':' ∷ s) ≡ inner s
unfolding given_char
separated-colon zero inner s h = absurd (omega (arith, h))
separated-colon (suc i) inner s h = refl

separated-nil : {A : Type 0} (i : ℕ) (inner : Parser A) → 1 ≤ i → separated i inner [] ≡ none
unfolding given_char
separated-nil zero inner h = absurd (omega (arith, h))
separated-nil (suc i) inner h = refl

v6_group-colon : (s : Text) → v6_group (b':' ∷ s) ≡ none
unfolding read_number number_loop to_digit
v6_group-colon s = refl

-- What a round of the loop does, from its two reads.
read_groups-suc :
    (left i : ℕ) (s : Text) (group : Option (ℕ × Text))
    → separated i read_ipv4 s ≡ none
    → separated i v6_group s ≡ group
    → read_groups (suc left) i s ≡ groups_step none group s (read_groups left (i + 1))
unfolding read_groups
read_groups-suc left i s group no_v4 e = elim (Bool-cases (ltb 0 left)) [
  | inl more ↦ rw (more, no_v4, e) refl
  | inr last ↦ rw (last, e) refl
]

read_groups-end :
    (left i : ℕ) (s : Text) → 1 ≤ i → Ends s → All NoDot s → read_groups left i s ≡ ([], false, s)
unfolding read_groups groups_step
read_groups-end zero i s h e dots = refl
read_groups-end (suc left) i [] h e dots =
    read_groups-suc left i [] none (separated-nil i read_ipv4 h) (separated-nil i v6_group h)
read_groups-end (suc left) i (a ∷ []) h e dots = absurd e
read_groups-end (suc left) i (a ∷ b ∷ s) h (ea, eb) dots =
    rw (ea, eb)
      (read_groups-suc left i (b':' ∷ b':' ∷ s) none
        (separated-colon i read_ipv4 (b':' ∷ s) h ∙ read_ipv4-none (b':' ∷ s) (refl, dots.1.1))
        (separated-colon i v6_group (b':' ∷ s) h ∙ v6_group-colon s))

StopsHex-Ends : (gs : List ℕ) (rest : Text) → Ends rest → StopsHex (tail_text gs ++ rest)
unfolding to_digit
StopsHex-Ends [] [] e = tt
StopsHex-Ends [] (a ∷ []) e = absurd e
StopsHex-Ends [] (a ∷ b ∷ s) (ea, eb) = rw ea refl
StopsHex-Ends (g ∷ gs) rest e = refl

hex_digit-NoDot : (d : ℕ) → d < 16 → NoDot (hex_digit d)
unfolding hex_digit
hex_digit-NoDot d h = ground arith

tail_text-NoDot : (gs : List ℕ) → All IsGroup gs → All NoDot (tail_text gs)
tail_text-NoDot [] h = tt
tail_text-NoDot (g ∷ gs) h = (
  refl,
  All-append NoDot (hexadecimal g) (tail_text gs) (hexadecimal-All NoDot hex_digit-NoDot g h.0)
      (tail_text-NoDot gs h.1),
)

group-NoDot :
    (g : ℕ) (gs : List ℕ) (rest : Text)
    → IsGroup g
    → All IsGroup gs
    → All NoDot rest
    → All NoDot (hexadecimal g ++ (tail_text gs ++ rest))
group-NoDot g gs rest hg h dots =
    All-append NoDot (hexadecimal g) (tail_text gs ++ rest)
      (hexadecimal-All NoDot hex_digit-NoDot g hg)
      (All-append NoDot (tail_text gs) rest (tail_text-NoDot gs h) dots)

read_group-first :
    (left i : ℕ) (g : ℕ) (gs : List ℕ) (rest s : Text)
    → IsGroup g
    → All IsGroup gs
    → Ends rest
    → All NoDot rest
    → separated i read_ipv4 s ≡ read_ipv4 (hexadecimal g ++ (tail_text gs ++ rest))
    → separated i v6_group s ≡ v6_group (hexadecimal g ++ (tail_text gs ++ rest))
    → read_groups left (i + 1) (tail_text gs ++ rest) ≡ (gs, false, rest)
    → read_groups (suc left) i s ≡ (g ∷ gs, false, rest)
unfolding groups_step
read_group-first left i g gs rest s hg h e dots e4 e6 later =
    read_groups-suc left i s (some (g, tail_text gs ++ rest))
      (e4
        ∙ read_ipv4-none (hexadecimal g ++ (tail_text gs ++ rest))
            (group-NoDot g gs rest hg h dots))
      (e6 ∙ v6_group-hexadecimal g (tail_text gs ++ rest) hg (StopsHex-Ends gs rest e))
    ∙ rw later refl

read_groups-tail :
    (left i : ℕ) (gs : List ℕ) (rest : Text)
    → length gs ≤ left
    → 1 ≤ i
    → All IsGroup gs
    → Ends rest
    → All NoDot rest
    → read_groups left i (tail_text gs ++ rest) ≡ (gs, false, rest)
read_groups-tail left i [] rest room at_i h e dots = read_groups-end left i rest at_i e dots
read_groups-tail zero i (g ∷ gs) rest room at_i h e dots = absurd (omega (arith, room))
read_groups-tail (suc left) i (g ∷ gs) rest room at_i h e dots =
    let assoc = append_assoc (hexadecimal g) (tail_text gs) rest in
    let s : Text = b':' ∷ ((hexadecimal g ++ tail_text gs) ++ rest) in
    read_group-first left i g gs rest s h.0 h.1 e dots
      (separated-colon i read_ipv4 ((hexadecimal g ++ tail_text gs) ++ rest) at_i
        ∙ ap read_ipv4 assoc)
      (separated-colon i v6_group ((hexadecimal g ++ tail_text gs) ++ rest) at_i
        ∙ ap v6_group assoc)
      (read_groups-tail left (i + 1) gs rest (omega (arith, room)) (omega arith) h.1 e dots)

v6_group-Ends : (s : Text) → Ends s → v6_group s ≡ none
unfolding read_number number_loop
v6_group-Ends [] e = refl
v6_group-Ends (a ∷ []) e = absurd e
v6_group-Ends (a ∷ b ∷ s) (ea, eb) = rw ea (v6_group-colon (b ∷ s))

-- The groups are read back, up to the end of the text or to two colons.
pub read_groups-joined :
    (left : ℕ) (gs : List ℕ) (rest : Text)
    → length gs ≤ left
    → All IsGroup gs
    → Ends rest
    → All NoDot rest
    → read_groups left 0 (joined gs ++ rest) ≡ (gs, false, rest)
unfolding joined read_groups groups_step
read_groups-joined zero [] rest room h e dots = refl
read_groups-joined (suc left) [] rest room h e dots =
    read_groups-suc left 0 rest none (read_ipv4-none rest dots) (v6_group-Ends rest e)
read_groups-joined zero (g ∷ gs) rest room h e dots = absurd (omega (arith, room))
read_groups-joined (suc left) (g ∷ gs) rest room h e dots =
    let same =
      ap (λ t. t ++ rest) (joined-cons g gs) ∙ append_assoc (hexadecimal g) (tail_text gs) rest in
    read_group-first left 0 g gs rest (joined (g ∷ gs) ++ rest) h.0 h.1 e dots (ap read_ipv4 same)
      (ap v6_group same)
      (read_groups-tail left 1 gs rest (omega (arith, room)) (omega arith) h.1 e dots)

pub joined-NoDot : (gs : List ℕ) → All IsGroup gs → All NoDot (joined gs)
unfolding joined
joined-NoDot [] h = tt
joined-NoDot (g ∷ gs) h = subst (All NoDot) (sym (joined-cons g gs)) (
    All-append NoDot (hexadecimal g) (tail_text gs) (hexadecimal-All NoDot hex_digit-NoDot g h.0)
      (tail_text-NoDot gs h.1))
