-- ===== src/Rust/Str/Visible.antt =====
-- `trim` of `str` on visible ASCII texts.
use mathlib.Core.List.{reverse, reverse-cons, reverse-reverse}
use sqlite_server_rs.Prelude.{
  ℕ, ◌≡◌, ◌≤◌, ◌<◌, refl, ap, ◌∙◌, Option, none, [], ◌∷◌, Text, All, All-append, arith,
}
use sqlite_server_rs.Rust.Str.{strip_white, strip_white_back, strip_all, trim_start, trim_end, trim}

-- between the space and the end of ASCII
abbrev pub IsVisible : ℕ → Type 0
IsVisible x = (33 ≤ x) × (x < 128)

strip_white-visible : (x : ℕ) (s : Text) → IsVisible x → strip_white (x ∷ s) ≡ none
unfolding strip_white
strip_white-visible x [] (low, high) = ground arith
strip_white-visible x (b ∷ []) (low, high) = ground arith
strip_white-visible x (b ∷ c ∷ s) (low, high) = ground arith

strip_white_back-visible : (x : ℕ) (s : Text) → IsVisible x → strip_white_back (x ∷ s) ≡ none
unfolding strip_white_back
strip_white_back-visible x [] (low, high) = ground arith
strip_white_back-visible x (b ∷ []) (low, high) = ground arith
strip_white_back-visible x (b ∷ a ∷ s) (low, high) = ground arith

strip_all-none :
    (strip : Text → Option Text) (fuel s : Text) → strip s ≡ none → strip_all strip fuel s ≡ s
unfolding strip_all
strip_all-none strip [] s h = refl
strip_all-none strip (x ∷ fuel) s h = rw (h, strip_all) refl

trim_start-visible : (s : Text) → All IsVisible s → trim_start s ≡ s
unfolding trim_start strip_all
trim_start-visible [] h = refl
trim_start-visible (x ∷ s) h =
    strip_all-none strip_white (x ∷ s) (x ∷ s) (strip_white-visible x s h.0)

back-visible : (s : Text) → All IsVisible s → strip_all strip_white_back s s ≡ s
unfolding strip_all
back-visible [] h = refl
back-visible (x ∷ s) h =
    strip_all-none strip_white_back (x ∷ s) (x ∷ s) (strip_white_back-visible x s h.0)

All-reverse : (s : Text) → All IsVisible s → All IsVisible (reverse s)
All-reverse [] h = tt
All-reverse (x ∷ s) h =
    rw (reverse-cons x s) (All-append IsVisible (reverse s) (x ∷ []) (All-reverse s h.1) (h.0, tt))

trim_end-visible : (s : Text) → All IsVisible s → trim_end s ≡ s
unfolding trim_end
trim_end-visible s h = ap reverse (back-visible (reverse s) (All-reverse s h)) ∙ reverse-reverse s

-- A visible text is trimmed already.
pub trim-visible : (s : Text) → All IsVisible s → trim s ≡ s
unfolding trim
trim-visible s h = ap trim_end (trim_start-visible s h) ∙ trim_end-visible s h

-- A space at the start does not matter.
pub trim-space : (s : Text) → trim (32 ∷ s) ≡ trim s
unfolding trim trim_start strip_all strip_white
trim-space [] = refl
trim-space (a ∷ []) = refl
trim-space (a ∷ b ∷ s) = refl
