-- ===== src/DatabaseName/Plain.antt =====
-- The names that `is_safe_database_name` of src/handler.rs accepts, and their paths.
use mathlib.Core.Path.{ap₂}
use sqlite_server_rs.Prelude.{
  ℕ, ◌≡◌, refl, ◌∙◌, sym, ap, true, false, List, [], ◌∷◌, ◌++◌, append_assoc, append-nil, ◌↔◌,
  arith, Text, is_empty, Bool-cases, inl, inr, ◌⊎◌, some, Option-cases,
}
use sqlite_server_rs.Rust.FilePath.{
  Component, root_dir, cur_dir, parent_dir, normal, is_absolute, components, join, piece, body,
  starts_cur_dir, needs_separator,
}
use sqlite_server_rs.Rust.Str.{split}
use sqlite_server_rs.Rust.Str.Split.{split-append}
use sqlite_server_rs.Store.{Deps}
use sqlite_server_rs.DatabaseName.Inside.{strip_components-append, child-append}
use sqlite_server_rs.DatabaseName.{is_single_name, resolves_inside, is_safe_database_name}

-- A relative path of one component, which is a name: not "." or ".." or the root.
pub record IsPlainName (name : Text) : Type 0 where
  pub relative : is_absolute name ≡ false
  pub file : Text
  pub single : components name ≡ normal file ∷ []

single_name : (cs : List Component) → is_single_name cs ≡ true → (x : Text) × (cs ≡ normal x ∷ [])
unfolding is_single_name
single_name (normal x ∷ []) h = (x, refl)
single_name [] h = cc
single_name (root_dir ∷ cs) h = cc
single_name (cur_dir ∷ cs) h = cc
single_name (parent_dir ∷ cs) h = cc
single_name (normal x ∷ c ∷ cs) h = cc

module _ (d : Deps) where
  pub safe-IsPlainName :
      (world : d.World) (folder name : Text)
      → is_safe_database_name d world folder name ≡ true
      → IsPlainName name
  unfolding is_safe_database_name
  safe-IsPlainName world folder name h =
      let relative : is_absolute name ≡ false = ground arith in
      let one : is_single_name (components name) ≡ true = ground arith in
      let (x, e) = single_name (components name) one in
      record { relative = relative; file = x; single = e }

body-append : (ps qs : List Text) → body (ps ++ qs) ≡ body ps ++ body qs
unfolding body
body-append [] qs = refl
body-append (p ∷ ps) qs = rw (body-append ps qs) (sym (append_assoc (piece p) (body ps) (body qs)))

not_absolute : is_absolute [] ≡ true → ⊥
unfolding is_absolute
not_absolute h = cc

single_name_of : {cs : List Component} {x : Text} → cs ≡ normal x ∷ [] → is_single_name cs ≡ true
unfolding is_single_name
single_name_of e = rw e

name_ne_nil : (name : Text) → IsPlainName name → is_empty name ≡ false
unfolding components
name_ne_nil [] p = cc p.single
name_ne_nil (x ∷ name) p = refl

plain_body : (name : Text) (p : IsPlainName name) → body (split b'/' name) ≡ normal p.file ∷ []
unfolding components
plain_body name p = elim (Bool-cases (starts_cur_dir name)) [
  | inl dot ↦
      let impossible : cur_dir ∷ body (split b'/' name) ≡ normal p.file ∷ [] =
        ground (arith, p.relative, p.single) in
      cc impossible
  | inr other ↦ ground (arith, p.relative, p.single)
]

ends_in_separator :
    (x : ℕ) (path : Text)
    → needs_separator (x ∷ path) ≡ false
    → (front : Text) × (x ∷ path ≡ front ++ b'/' ∷ [])
unfolding needs_separator
ends_in_separator x [] n = ([], ground arith)
ends_in_separator x (y ∷ path) n =
    let (front, e) = ends_in_separator y path n in (x ∷ front, ap (λ t. x ∷ t) e)

body-split-end : (front : Text) → body (split b'/' (front ++ b'/' ∷ [])) ≡ body (split b'/' front)
unfolding body piece split
body-split-end front =
    ap body (split-append b'/' front [])
    ∙ body-append (split b'/' front) ([] ∷ [])
    ∙ append-nil (body (split b'/' front))

-- The joined path is a front, a separator and the name, and the front has the pieces of the folder.
join-shape :
    (folder name : Text)
    → is_absolute folder ≡ true
    → is_absolute name ≡ false
    → (front : Text) × (join folder name ≡ front ++ b'/' ∷ name)
      × (body (split b'/' front) ≡ body (split b'/' folder))
unfolding join
join-shape [] name abs rel = absurd (not_absolute abs)
join-shape (x ∷ folder) name abs rel = elim (Bool-cases (needs_separator (x ∷ folder))) [
  | inl needed ↦ (x ∷ folder, ground arith, refl)
  | inr ends ↦
      let (front, e) = ends_in_separator x folder ends in
      (
        front,
        ground arith ∙ ap (λ t. t ++ name) e ∙ append_assoc front (b'/' ∷ []) name,
        sym (ap (λ t. body (split b'/' t)) e ∙ body-split-end front),
      )
]

body-join :
    (folder name : Text)
    → is_absolute folder ≡ true
    → (p : IsPlainName name)
    → body (split b'/' (join folder name)) ≡ body (split b'/' folder) ++ normal p.file ∷ []
body-join folder name abs p =
    let (front, e, same) = join-shape folder name abs p.relative in
    ap (λ t. body (split b'/' t)) e
    ∙ ap body (split-append b'/' front name)
    ∙ body-append (split b'/' front) (split b'/' name)
    ∙ ap₂ ◌++◌ same (plain_body name p)

is_absolute-join :
    (folder name : Text)
    → is_absolute folder ≡ true
    → is_absolute name ≡ false
    → is_absolute (join folder name) ≡ true
unfolding join is_absolute
is_absolute-join [] name abs rel = cc
is_absolute-join (x ∷ folder) name abs rel = ground arith

-- Joined to an absolute folder, a plain name is one level below it: the path has the components of
-- the folder and the name as the last.
pub components-join :
    (folder name : Text)
    → is_absolute folder ≡ true
    → (p : IsPlainName name)
    → components (join folder name) ≡ components folder ++ normal p.file ∷ []
unfolding components
components-join folder name abs p =
    simp (is_absolute-join folder name abs p.relative, abs, body-join folder name abs p)

module _ (d : Deps) where
  -- An accepted database name, joined to an absolute databases folder, is the path of a file directly
  -- in that folder: the components of the folder and one name after them.
  pub safe-is_direct_child :
      (world : d.World) (folder name : Text)
      → is_absolute folder ≡ true
      → is_safe_database_name d world folder name ≡ true
      → (file : Text) × (components (join folder name) ≡ components folder ++ normal file ∷ [])
  safe-is_direct_child world folder name abs h =
      let p = safe-IsPlainName d world folder name h in (p.file, components-join folder name abs p)

  -- What `Path::exists` finds at the path of the name resolves to a path that has the components of the
  -- resolved folder and one more.
  pub record ResolvesInside (world : d.World) (folder name : Text) : Type 0 where
    pub base : Text
    pub folder_resolves : d.canonicalize world folder ≡ some base
    pub resolved : Text
    pub target_resolves : d.canonicalize world (join folder name) ≡ some resolved
    pub last : Component
    pub inside : components resolved ≡ components base ++ last ∷ []

  resolves_inside_sound :
      (world : d.World) (folder name : Text)
      → d.exists world (join folder name) ≡ true
      → resolves_inside d world folder (join folder name) ≡ true
      → ResolvesInside world folder name
  unfolding resolves_inside
  resolves_inside_sound world folder name there h =
      elim (Option-cases (d.canonicalize world folder)) [
        | inl no_base ↦ cc (rw (there, no_base) at h)
        | inr (base, e) ↦ elim (Option-cases (d.canonicalize world (join folder name))) [
          | inl no_target ↦ cc (rw (there, e, no_target) at h)
          | inr (resolved, e') ↦
              let (last, inside) =
                child-append (components resolved) (components base) (rw (there, e, e') at h) in
              record {
                base = base;
                folder_resolves = e;
                resolved = resolved;
                target_resolves = e';
                last = last;
                inside = inside;
              }
        ]
      ]

  resolves_inside_complete :
      (world : d.World) (folder name : Text)
      → d.exists world (join folder name) ≡ true
      → ResolvesInside world folder name
      → resolves_inside d world folder (join folder name) ≡ true
  unfolding resolves_inside
  resolves_inside_complete world folder name there r =
      rw
        (
          there,
          resolves_inside,
          r.folder_resolves,
          r.target_resolves,
          r.inside,
          strip_components-append (components r.base) (r.last ∷ []),
        )
        refl

  -- Accepted exactly: a relative path of one component, a name, where `Path::exists` finds nothing at
  -- its path in the folder, or where what is there resolves to a direct child of the resolved folder.
  pub is_safe_iff :
      (world : d.World) (folder name : Text)
      → (is_safe_database_name d world folder name ≡ true) ↔ (
          IsPlainName name
          × ((d.exists world (join folder name) ≡ false) ⊎ ResolvesInside world folder name))
  unfolding is_safe_database_name resolves_inside
  is_safe_iff world folder name = (
    λ h. (safe-IsPlainName d world folder name h, target (ground arith)),
    λ both.
        let p = both.0 in
        let fine : resolves_inside d world folder (join folder name) ≡ true = elim both.1 [
          | inl absent ↦ rw (absent, resolves_inside) refl
          | inr inside ↦ elim (Bool-cases (d.exists world (join folder name))) [
            | inl there ↦ resolves_inside_complete world folder name there inside
            | inr absent ↦ rw (absent, resolves_inside) refl
          ]
        ] in
        ground (arith, fine, p.relative, single_name_of p.single, name_ne_nil name p),
  )
    where
      target :
          resolves_inside d world folder (join folder name) ≡ true
          → (d.exists world (join folder name) ≡ false) ⊎ ResolvesInside world folder name
      target h = elim (Bool-cases (d.exists world (join folder name))) [
        | inl there ↦ inr (resolves_inside_sound world folder name there h)
        | inr absent ↦ inl absent
      ]
