-- ===== src/Client/Binding/Confined.antt =====
-- `bind` of examples/rust/client.rs: where the text values of a statement stand when SQLite reads it.
use sqlite_server_rs.Prelude.{
  ℕ, zero, suc, ◌-◌, ◌≡◌, refl, sym, ap, ◌∙◌, Bool, true, false, ◌&&◌, List, [], ◌∷◌, ◌++◌, map,
  append_assoc, append-nil, Text, bytes, ltb, leb, if◌then◌else◌, Bool-cases, inl, inr, length,
  length-map, get_or,
}
use mathlib.Core.Path.{ap₂}
use mathlib.Core.Option
use sqlite_server_rs.Rust.Str.{parse_usize}
use sqlite_server_rs.Json.{Json}
use sqlite_server_rs.Client.{ClientDeps, Piece, plain, numbered, bare, HasNoQuote}
use sqlite_server_rs.Client.Binding.{
  Param, null, bool, int, real, text, blob, double_quotes, serialize_sql_value, numbered_value,
  bare_value, replace_all, bind,
}
use sqlite_server_rs.Client.Binding.Scanner.{
  Mode, code, scan, unquoted, is_code, unquoted-append, literal_is_whole,
}
use sqlite_server_rs.Client.Binding.Quotes.{outside, in_quotes, outside-append, in_quotes-no_quote}

module _ {j : Json} (c : ClientDeps j) where
  -- the same value, with no text in it
  abbrev pub blank : Param c.Float → Param c.Float
  blank (text s) = text []
  blank p = p

  get_or-blank :
      (params : List (Param c.Float)) (i : ℕ)
      → get_or (map blank params) i null ≡ blank (get_or params i null)
  get_or-blank [] i = refl
  get_or-blank (p ∷ params) zero = refl
  get_or-blank (p ∷ params) (suc i) = get_or-blank params i

  -- Two texts that are read to the same place, with the same characters outside of string literals,
  -- where code stands at their start.
  abbrev SameRead : Text → Text → Type 0
  SameRead s t =
      (m : Mode) → is_code m ≡ true → (scan m s ≡ scan m t) × (unquoted m s ≡ unquoted m t)

  value-SameRead :
      (p : Param c.Float) → SameRead (serialize_sql_value c p) (serialize_sql_value c (blank p))
  unfolding serialize_sql_value
  value-SameRead null m h = (refl, refl)
  value-SameRead (bool b) m h = (refl, refl)
  value-SameRead (int n) m h = (refl, refl)
  value-SameRead (real f) m h = (refl, refl)
  value-SameRead (blob s) m h = (refl, refl)
  value-SameRead (text s) m h =
      let (end_, nothing) = literal_is_whole m s h in
      let (end_', nothing') = literal_is_whole m [] h in (end_ ∙ sym end_', nothing ∙ sym nothing')

  SameRead-if :
      (b : Bool) (s t u : Text) → SameRead s t → SameRead (if b then s else u) (if b then t else u)
  SameRead-if true s t u h = h
  SameRead-if false s t u h = λ m k. (refl, refl)

  numbered-SameRead :
      (params : List (Param c.Float)) (number : Text)
      → SameRead (numbered_value c params number) (numbered_value c (map blank params) number)
  unfolding numbered_value
  numbered-SameRead params number =
      let index = Option.get_or (parse_usize number) 0 in
      rw (length-map blank params, get_or-blank params (index - 1))
        (SameRead-if (leb 1 index && leb index (length params)) _ _ (b'?' ∷ number)
          (value-SameRead (get_or params (index - 1) null)))

  bare-SameRead :
      (params : List (Param c.Float)) (next : ℕ)
      → SameRead (bare_value c params next).0 (bare_value c (map blank params) next).0
        × ((bare_value c params next).1 ≡ (bare_value c (map blank params) next).1)
  unfolding bare_value
  bare-SameRead params next =
      rw (length-map blank params, get_or-blank params next)
        (elim (Bool-cases (ltb next (length params))) [
          | inl more ↦ rw more (value-SameRead (get_or params next null), refl)
          | inr used ↦ rw used ((λ m k. (refl, refl)), refl)
        ])

  -- Every placeholder of a statement stands where code does, outside of literals, quoted names and
  -- comments, when the statement is read with the values in the placeholders before it.
  unfoldable pub Placed : List (Param c.Float) → ℕ → Mode → List Piece → Type 0
  Placed params next m [] = Unit
  Placed params next m (plain s ∷ pieces) = Placed params next (scan m s) pieces
  Placed params next m (numbered number ∷ pieces) =
      (is_code m ≡ true) × Placed params next (scan m (numbered_value c params number)) pieces
  Placed params next m (bare ∷ pieces) =
      (is_code m ≡ true)
      × Placed params (bare_value c params next).1 (scan m (bare_value c params next).0) pieces

  unquoted-then :
      (m : Mode) (s t u v : Text)
      → (scan m s ≡ scan m t) × (unquoted m s ≡ unquoted m t)
      → unquoted (scan m t) u ≡ unquoted (scan m t) v
      → unquoted m (s ++ u) ≡ unquoted m (t ++ v)
  unquoted-then m s t u v (end_, same) k =
      unquoted-append m s u
      ∙ ap₂ (λ a n. a ++ unquoted n u) same end_
      ∙ ap (λ b. unquoted m t ++ b) k
      ∙ sym (unquoted-append m t v)

  replace_all-blank :
      (params : List (Param c.Float)) (pieces : List Piece) (next : ℕ) (m : Mode)
      → Placed (map blank params) next m pieces
      → unquoted m (replace_all c params next pieces)
        ≡ unquoted m (replace_all c (map blank params) next pieces)
  unfolding replace_all Placed
  replace_all-blank params [] next m h = refl
  replace_all-blank params (plain s ∷ pieces) next m h =
      unquoted-then m _ _ (replace_all c params next pieces)
        (replace_all c (map blank params) next pieces) (refl, refl)
        (replace_all-blank params pieces next (scan m s) h)
  replace_all-blank params (numbered number ∷ pieces) next m (here, h) =
      unquoted-then m _ _ (replace_all c params next pieces)
        (replace_all c (map blank params) next pieces) (numbered-SameRead params number m here)
        (replace_all-blank params pieces next (scan m (numbered_value c (map blank params) number))
          h)
  replace_all-blank params (bare ∷ pieces) next m (here, h) =
      let (same, count) = bare-SameRead params next in
      let later : ℕ = (bare_value c (map blank params) next).1 in
      unquoted-then m _ _ (replace_all c params (bare_value c params next).1 pieces)
        (replace_all c (map blank params) later pieces) (same m here)
        (rw count (
          replace_all-blank params pieces later (scan m (bare_value c (map blank params) next).0)
            h))

  -- What the text values of a statement hold stays within its string literals, by the scanner: where,
  -- with each text value empty, every placeholder stands outside of literals, quoted names, comments
  -- and what follows a variable, the characters of the bound statement outside of string literals do
  -- not depend on the text values. A zero byte, at which SQLite stops to read, is read as any other.
  pub unquoted-bind :
      (sql : Text) (params : List (Param c.Float))
      → Placed (map blank params) 0 code (c.captures sql)
      → unquoted code (bind c sql params) ≡ unquoted code (bind c sql (map blank params))
  unfolding bind
  unquoted-bind sql params h = replace_all-blank params (c.captures sql) 0 code h

  outside-no_quote : (s : Text) → HasNoQuote s → outside false s ≡ s
  unfolding outside
  outside-no_quote [] h = refl
  outside-no_quote (x ∷ s) h = rw h.0 (ap (λ t. x ∷ t) (outside-no_quote s h.1))

  double_quotes-no_quote : (s : Text) → HasNoQuote s → double_quotes s ≡ s
  unfolding double_quotes
  double_quotes-no_quote [] h = refl
  double_quotes-no_quote (x ∷ s) h = rw h.0 (ap (λ t. x ∷ t) (double_quotes-no_quote s h.1))

  -- A placeholder in quotes, the only one of a statement with no other quotes, is filled in too, and a
  -- text value without a quote then stands in the statement outside of the quotes.
  pub quoted_placeholder :
      (sql front back s : Text)
      → c.captures sql ≡ plain (front ++ bytes "'") ∷ bare ∷ plain (b'\'' ∷ back) ∷ []
      → HasNoQuote front
      → HasNoQuote s
      → HasNoQuote back
      → outside false (bind c sql (text s ∷ [])) ≡ front ++ (s ++ back)
  unfolding bind replace_all bare_value serialize_sql_value outside in_quotes
  quoted_placeholder sql front back s parts f g h =
      rw (parts, double_quotes-no_quote s g, append-nil back)
        (simp (
          outside-append,
          in_quotes-no_quote false front f,
          in_quotes-no_quote false s g,
          outside-no_quote front f,
          outside-no_quote s g,
          outside-no_quote back h,
          append_assoc,
        ))
