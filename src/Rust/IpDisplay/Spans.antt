-- ===== src/Rust/IpDisplay/Spans.antt =====
-- The run of zero groups that the `Display` of an IPv6 address leaves out.
use mathlib.Core.Path.{subst}
use sqlite_server_rs.Prelude.{
  ℕ, zero, suc, ◌+◌, ◌≡◌, refl, sym, ap, ◌∙◌, ◌⊎◌, inl, inr, List, [], ◌∷◌, ◌++◌, append_assoc,
  length, replicate, ltb, ◌==◌, Bool-cases, arith, if◌then◌else◌, length-append,
}
use sqlite_server_rs.Rust.IpDisplay.{Span, no_span, longer, longest_span}

abbrev pub zeros : ℕ → List ℕ
zeros n = replicate n 0

-- The groups of the span are zeros.
pub record IsSpan (all : List ℕ) (sp : Span) : Type 0 where
  pub front : List ℕ
  pub back : List ℕ
  pub split : all ≡ front ++ (zeros sp.len ++ back)
  pub starts : length front ≡ sp.start

-- A run that ends where `rest` begins, or no run.
abbrev Current : List ℕ → Span → List ℕ → Type 0
Current all sp rest =
    (sp.len ≡ 0)
    ⊎ ((front : List ℕ) × (all ≡ front ++ (zeros sp.len ++ rest)) × (length front ≡ sp.start))

zeros-snoc : (n : ℕ) (rest : List ℕ) → zeros (n + 1) ++ rest ≡ zeros n ++ (0 ∷ rest)
zeros-snoc zero rest = refl
zeros-snoc (suc n) rest =
    let e : suc n + 1 ≡ suc (n + 1) = omega arith in rw e (ap (λ zs. 0 ∷ zs) (zeros-snoc n rest))

Current-IsSpan :
    (all : List ℕ) (sp : Span) (rest : List ℕ)
    → (sp.len ≡ 0 → ⊥)
    → Current all sp rest
    → IsSpan all sp
Current-IsSpan all sp rest some_zero (inl none_) = absurd (some_zero none_)
Current-IsSpan all sp rest some_zero (inr (front, split, starts)) = record {
  front = front;
  back = rest;
  split = split;
  starts = starts;
}

-- the run with one zero more
abbrev grown : ℕ → Span → Span
grown i current = record {
  start = if current.len == 0 then i else current.start;
  len = current.len + 1;
}

grown-Current :
    (all front : List ℕ) (i : ℕ) (current : Span) (rest : List ℕ)
    → all ≡ front ++ (0 ∷ rest)
    → length front ≡ i
    → Current all current (0 ∷ rest)
    → Current all (grown i current) rest
grown-Current all front i current rest split at_i k = elim (Bool-cases (current.len == 0)) [
  | inl empty ↦
      let none_ : 0 ≡ current.len = ground (arith, empty) in
      inr (
        front,
        split ∙ ap (λ n. front ++ (zeros (n + 1) ++ rest)) none_,
        at_i ∙ ap (λ b. if b then i else current.start) (sym empty),
      )
  | inr some_zero ↦ elim k [
    | inl none_ ↦ absurd (ground (arith, some_zero, none_))
    | inr (f, s, starts) ↦ inr (
      f,
      s ∙ ap (λ zs. f ++ zs) (sym (zeros-snoc current.len rest)),
      starts ∙ ap (λ b. if b then i else current.start) (sym some_zero),
    )
  ]
]

longer-IsSpan :
    (all : List ℕ) (longest current : Span)
    → IsSpan all longest
    → IsSpan all current
    → IsSpan all (longer longest current)
longer-IsSpan all longest current h k = elim (Bool-cases (ltb longest.len current.len)) [
  | inl more ↦ simp more k
  | inr less ↦ simp less h
]

longest_span-IsSpan :
    (all front : List ℕ) (i : ℕ) (longest current : Span) (groups : List ℕ)
    → all ≡ front ++ groups
    → length front ≡ i
    → IsSpan all longest
    → Current all current groups
    → IsSpan all (longest_span i longest current groups)
unfolding longest_span
longest_span-IsSpan all front i longest current [] split at_i h k = h
longest_span-IsSpan all front i longest current (g ∷ groups) split at_i h k =
    let split' : all ≡ (front ++ g ∷ []) ++ groups =
      split ∙ sym (append_assoc front (g ∷ []) groups) in
    let at_next : length (front ++ g ∷ []) ≡ i + 1 =
      omega (arith, length-append {0} front (g ∷ []), at_i) in
    elim (Bool-cases (g == 0)) [
      | inl is_zero ↦
          let same : g ≡ 0 = ground (arith, is_zero) in
          let next =
            grown-Current all front i current groups (split ∙ ap (λ x. front ++ x ∷ groups) same)
              at_i (subst (λ x. Current all current (x ∷ groups)) same k) in
          rw (is_zero, longest_span)
            (longest_span-IsSpan all (front ++ g ∷ []) (i + 1) (longer longest (grown i current))
              (grown i current) groups split' at_next
              (longer-IsSpan all longest (grown i current) h
                (Current-IsSpan all (grown i current) groups (λ e. omega (arith, e)) next))
              next)
      | inr other ↦
          rw (other, longest_span)
            (longest_span-IsSpan all (front ++ g ∷ []) (i + 1) longest no_span groups split' at_next
              h (inl refl))
    ]

-- The span that is found is one of zeros.
pub longest_span-zeros : (all : List ℕ) → IsSpan all (longest_span 0 no_span no_span all)
longest_span-zeros all =
    longest_span-IsSpan all [] 0 no_span no_span all refl refl
      (record { front = []; back = all; split = refl; starts = refl }) (inl refl)
