-- ===== src/DatabaseName/Inside.antt =====
-- `Path::strip_prefix` on components, as `is_safe_database_name` of src/handler.rs uses it.
use mathlib.Core.Path.{ap₂}
use sqlite_server_rs.Prelude.{
  ◌≡◌, refl, ap, true, some, List, [], ◌∷◌, ◌++◌, text_eq_refl, text_eq_iff, Bool-cases, inl, inr,
}
use sqlite_server_rs.Rust.FilePath.{
  Component, root_dir, cur_dir, parent_dir, normal, component_eq, strip_components,
}
use sqlite_server_rs.DatabaseName.{is_child}

component_eq_refl : (c : Component) → component_eq c c ≡ true
unfolding component_eq
component_eq_refl root_dir = refl
component_eq_refl cur_dir = refl
component_eq_refl parent_dir = refl
component_eq_refl (normal name) = text_eq_refl name

component_eq-eq : (c e : Component) → component_eq c e ≡ true → c ≡ e
unfolding component_eq
component_eq-eq root_dir root_dir h = refl
component_eq-eq cur_dir cur_dir h = refl
component_eq-eq parent_dir parent_dir h = refl
component_eq-eq (normal a) (normal b) h = ap normal ((text_eq_iff a b).0 h)
component_eq-eq root_dir cur_dir h = cc h
component_eq-eq root_dir parent_dir h = cc h
component_eq-eq root_dir (normal b) h = cc h
component_eq-eq cur_dir root_dir h = cc h
component_eq-eq cur_dir parent_dir h = cc h
component_eq-eq cur_dir (normal b) h = cc h
component_eq-eq parent_dir root_dir h = cc h
component_eq-eq parent_dir cur_dir h = cc h
component_eq-eq parent_dir (normal b) h = cc h
component_eq-eq (normal a) root_dir h = cc h
component_eq-eq (normal a) cur_dir h = cc h
component_eq-eq (normal a) parent_dir h = cc h

pub strip_components-append : (cs ds : List Component) → strip_components (cs ++ ds) cs ≡ some ds
unfolding strip_components
strip_components-append [] ds = refl
strip_components-append (c ∷ cs) ds = rw (component_eq_refl c) (strip_components-append cs ds)

-- A direct child of the base has its components and one more.
pub child-append :
    (path base : List Component)
    → is_child (strip_components path base) ≡ true
    → (last : Component) × (path ≡ base ++ last ∷ [])
unfolding strip_components
child-append [] [] h = cc h
child-append (c ∷ []) [] h = (c, refl)
child-append (c ∷ c' ∷ path) [] h = cc h
child-append [] (b ∷ base) h = cc h
child-append (p ∷ path) (b ∷ base) h = elim (Bool-cases (component_eq p b)) [
  | inl same ↦
      let (last, e) = child-append path base (rw same at h) in
      (last, ap₂ (λ x xs. x ∷ xs) (component_eq-eq p b same) e)
  | inr other ↦ cc (rw other at h)
]
