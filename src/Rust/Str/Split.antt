-- ===== src/Rust/Str/Split.antt =====
-- `split` of `str`.
use sqlite_server_rs.Prelude.{ℕ, ◌≡◌, ◌≢◌, refl, false, List, [], ◌∷◌, ◌++◌, Text, ◌==◌, All, arith}
use sqlite_server_rs.Rust.Str.{split, longer_head}

pub longer_head-ne-nil : (x : ℕ) (ps : List Text) → longer_head x ps ≢ []
longer_head-ne-nil x [] e = cc
longer_head-ne-nil x (p ∷ ps) e = cc

pub longer_head-append :
    (x : ℕ) (ps qs : List Text) → ps ≢ [] → longer_head x (ps ++ qs) ≡ longer_head x ps ++ qs
longer_head-append x [] qs h = absurd (h refl)
longer_head-append x (p ∷ ps) qs h = refl

pub split-ne-nil : (sep : ℕ) (s : Text) → split sep s ≢ []
unfolding split
split-ne-nil sep [] e = cc
split-ne-nil sep (x ∷ s) e = ground (arith, longer_head-ne-nil x (split sep s))

-- A separator between two texts separates their pieces.
pub split-append : (sep : ℕ) (a b : Text) → split sep (a ++ sep ∷ b) ≡ split sep a ++ split sep b
unfolding split
split-append sep [] b = ground arith
split-append sep (x ∷ a) b = ground (
  arith,
  split-append sep a b,
  longer_head-append x (split sep a) (split sep b) (split-ne-nil sep a),
)

-- A text without the separator is its only piece.
pub split-whole : (sep : ℕ) (s : Text) → All (λ x. (x == sep) ≡ false) s → split sep s ≡ s ∷ []
unfolding split
split-whole sep [] h = refl
split-whole sep (x ∷ s) h = rw (h.0, split, split-whole sep s h.1) refl
