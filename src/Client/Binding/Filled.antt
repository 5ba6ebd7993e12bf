-- ===== src/Client/Binding/Filled.antt =====
-- `bind` of examples/rust/client.rs by what each placeholder stands for, without a counter.

use sqlite_server_rs.Prelude.{
  ℕ, zero, suc, ◌+◌, ◌-◌, ◌≡◌, ◌≤◌, ◌<◌, refl, ap, ◌∙◌, inl, inr, ◌&&◌, Option, none, some, List,
  [], ◌∷◌, ◌++◌, drop, Text, bytes, leb, Option-cases, length, get_or, get_elem?, arith,
  if◌then◌else◌,
}
use mathlib.Core.Path.{ap₂}
use sqlite_server_rs.Json.{Json}
use sqlite_server_rs.Rust.Str.{parse_usize}
use sqlite_server_rs.Client.{ClientDeps, ClientLaws, Piece, plain, numbered, bare, pieces_text}
use sqlite_server_rs.Client.Binding.{
  Param, null, serialize_sql_value, numbered_value, bare_value, replace_all, bind,
}

module _ {A : Type 0} where
  get_or-at :
      (xs : List A) (k : ℕ) (x default_ : A) → get_elem? xs k ≡ some x → get_or xs k default_ ≡ x
  get_or-at [] k x default_ h = cc h
  get_or-at (y ∷ xs) zero x default_ h = cc h
  get_or-at (y ∷ xs) (suc k) x default_ h = get_or-at xs k x default_ h

  at-lt : (xs : List A) (k : ℕ) (x : A) → get_elem? xs k ≡ some x → k < length xs
  at-lt [] k x h = cc h
  at-lt (y ∷ xs) zero x h = omega arith
  at-lt (y ∷ xs) (suc k) x h = omega (arith, at-lt xs k x h)

  absent-le : (xs : List A) (k : ℕ) → get_elem? xs k ≡ none → length xs ≤ k
  absent-le [] k h = omega arith
  absent-le (y ∷ xs) zero h = cc h
  absent-le (y ∷ xs) (suc k) h = omega (arith, absent-le xs k h)

  drop-at :
      (xs : List A) (k : ℕ) (x : A) → get_elem? xs k ≡ some x → drop k xs ≡ x ∷ drop (k + 1) xs
  drop-at [] k x h = cc h
  drop-at (y ∷ xs) zero x h = ap (λ z. z ∷ xs) (cc h)
  drop-at (y ∷ xs) (suc k) x h =
      let e : suc k + 1 ≡ suc (k + 1) = omega arith in rw e (drop-at xs k x h)

  drop-absent : (xs : List A) (k : ℕ) → get_elem? xs k ≡ none → drop k xs ≡ []
  drop-absent [] zero h = refl
  drop-absent [] (suc k) h = refl
  drop-absent (y ∷ xs) zero h = cc h
  drop-absent (y ∷ xs) (suc k) h = drop-absent xs k h

module _ {j : Json} (c : ClientDeps j) where
  -- the `N`th value, from 1
  abbrev nth_value : List (Param c.Float) → ℕ → Option (Param c.Float)
  nth_value params zero = none
  nth_value params (suc k) = get_elem? params k

  -- the text of a value that is there, or else the placeholder as it stands
  abbrev value_or : Text → Option (Param c.Float) → Text
  value_or placeholder none = placeholder
  value_or placeholder (some value) = serialize_sql_value c value

  -- `?N` stands for the `N`th value, and a bare `?` for the next one of `left`; where there is no such
  -- value it stays.
  unfoldable pub filled : List (Param c.Float) → List (Param c.Float) → List Piece → Text
  filled params left [] = []
  filled params left (plain s ∷ pieces) = s ++ filled params left pieces
  filled params left (numbered digits ∷ pieces) =
      elim (parse_usize digits) [
        | none ↦ b'?' ∷ digits
        | some n ↦ value_or (b'?' ∷ digits) (nth_value params n)
      ]
      ++ filled params left pieces
  filled params [] (bare ∷ pieces) = b'?' ∷ filled params [] pieces
  filled params (value ∷ left) (bare ∷ pieces) =
      serialize_sql_value c value ++ filled params left pieces

  numbered_value-nth :
      (params : List (Param c.Float)) (digits : Text)
      → numbered_value c params digits ≡ elim (parse_usize digits) as (λ _. Text) [
        | none ↦ b'?' ∷ digits
        | some n ↦ value_or (b'?' ∷ digits) (nth_value params n)
      ]
  unfolding numbered_value
  numbered_value-nth params digits = elim (Option-cases (parse_usize digits)) [
    | inl unread ↦ rw (unread, numbered_value) refl
    | inr (n, e) ↦ rw (e, numbered_value) (by_index n)
  ]
    where
      by_index :
          (n : ℕ)
          → (if leb 1 n && leb n (length params)
              then serialize_sql_value c (get_or params (n - 1) null)
              else b'?' ∷ digits)
            ≡ value_or (b'?' ∷ digits) (nth_value params n)
      by_index zero = refl
      by_index (suc k) =
          let e : suc k - 1 ≡ k = omega arith in
          elim (Option-cases (get_elem? params k)) [
            | inl absent ↦ rw (absent) (ground (arith, absent-le params k absent))
            | inr (value, at) ↦
                rw (at, e, get_or-at params k value null at)
                  (ground (arith, at-lt params k value at))
          ]

  bare_value-at :
      (params : List (Param c.Float)) (next : ℕ) (value : Param c.Float)
      → get_elem? params next ≡ some value
      → bare_value c params next ≡ (serialize_sql_value c value, next + 1)
  unfolding bare_value
  bare_value-at params next value at =
      rw (get_or-at params next value null at) (ground (arith, at-lt params next value at))

  bare_value-absent :
      (params : List (Param c.Float)) (next : ℕ)
      → get_elem? params next ≡ none
      → bare_value c params next ≡ (bytes "?", next)
  unfolding bare_value
  bare_value-absent params next absent = ground (arith, absent-le params next absent)

  replace_all-filled :
      (params : List (Param c.Float)) (next : ℕ) (pieces : List Piece)
      → replace_all c params next pieces ≡ filled params (drop next params) pieces
  unfolding replace_all filled
  replace_all-filled params next [] = refl
  replace_all-filled params next (plain s ∷ pieces) =
      ap (λ t. s ++ t) (replace_all-filled params next pieces)
  replace_all-filled params next (numbered digits ∷ pieces) =
      ap₂ (λ (front back : Text). front ++ back) (numbered_value-nth params digits)
        (replace_all-filled params next pieces)
  replace_all-filled params next (bare ∷ pieces) = elim (Option-cases (get_elem? params next)) [
    | inl absent ↦
        rw (bare_value-absent params next absent, replace_all, drop-absent params next absent)
          (ap (λ t. b'?' ∷ t)
            (rw (drop-absent params next absent) at (replace_all-filled params next pieces)))
    | inr (value, at) ↦
        rw (bare_value-at params next value at, replace_all, drop-at params next value at)
          (ap (λ t. serialize_sql_value c value ++ t) (replace_all-filled params (next + 1) pieces))
  ]

  pub bind-filled :
      (sql : Text) (params : List (Param c.Float))
      → bind c sql params ≡ filled params params (c.captures sql)
  unfolding bind
  bind-filled sql params = replace_all-filled params 0 (c.captures sql)

  none_filled : (pieces : List Piece) → filled [] [] pieces ≡ pieces_text pieces
  unfolding filled
  none_filled [] = refl
  none_filled (plain s ∷ pieces) = ap (λ t. s ++ t) (none_filled pieces)
  none_filled (numbered digits ∷ pieces) =
      ap₂ (λ (front back : Text). front ++ back) (stays (parse_usize digits)) (none_filled pieces)
    where
      stays :
          (o : Option ℕ)
          → elim o as (λ _. Text) [
            | none ↦ b'?' ∷ digits
            | some n ↦ value_or (b'?' ∷ digits) (nth_value [] n)
          ]
            ≡ b'?' ∷ digits
      stays none = refl
      stays (some zero) = refl
      stays (some (suc k)) = refl
  none_filled (bare ∷ pieces) = ap (λ t. b'?' ∷ t) (none_filled pieces)

  -- Without values, the statement stays as it is.
  pub filled-none : ClientLaws j c → (sql : Text) → filled [] [] (c.captures sql) ≡ sql
  filled-none laws sql = none_filled (c.captures sql) ∙ laws.captures_joined sql
