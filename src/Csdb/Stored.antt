-- ===== src/Csdb/Stored.antt =====
-- The values of the leaves of a database of src/csd/csdb.c, path by path.
use dkmp.Base.{
  ℕ, ◌≡◌, refl, ap, ◌∙◌, inl, inr, true, false, Option, none, some, List, [], ◌∷◌, if◌then◌else◌,
  Bool-cases, Text, str_eq, str_eq→eq, pos,
}
use dkmp.Csdb.Key.Names.{join_key}
use dkmp.Csdb.Paths.{Content, after_write}
use dkmp.Csdb.Store.{Db, done, set_value_for_key}
use dkmp.Csdb.Values.{IsPath, Ready, content}
use dkmp.Csdb.Written.{set_value-IsWritten}
use dkmp.Csdb.Appending.{same_path}

-- The value of a leaf.
abbrev pub leaf_value : Content → Option Text
leaf_value (some (v, true)) = v
leaf_value _ = none

abbrev pub stored : Db → List Text → Option Text
stored db path = leaf_value (content db path)

pub leaf-after_write :
    (path ks : List Text) (v : Text) (old : Content)
    → leaf_value (after_write path ks (some v) old)
      ≡ (if same_path path ks then some v else leaf_value old)
unfolding after_write same_path
leaf-after_write [] [] v none = refl
leaf-after_write [] [] v (some r) = refl
leaf-after_write [] (k ∷ ks) v none = refl
leaf-after_write [] (k ∷ ks) v (some r) = refl
leaf-after_write (m ∷ ms) [] v old = refl
leaf-after_write (m ∷ ms) (k ∷ ks) v old = elim (Bool-cases (str_eq k m)) [
  | inl same ↦ rw same (leaf-after_write ms ks v old)
  | inr other ↦ rw other refl
]

pub set_value-stored :
    (db : Db) (ks : List Text) (v : Text) (now : ℕ)
    → Ready db
    → IsPath ks
    → (db' : Db) × (set_value_for_key (join_key ks) (some v) now db ≡ done (pos 0) db')
      × Ready db'
      × ((path : List Text)
          → stored db' path ≡ (if same_path path ks then some v else stored db path))
set_value-stored db ks v now r p =
    let (db', e, w) = set_value-IsWritten db ks (some v) now r p in
    (
      db',
      e,
      w.ready,
      λ path. ap leaf_value (w.holds path) ∙ leaf-after_write path ks v (content db path),
    )

pub same_path→eq : (a b : List Text) → same_path a b ≡ true → a ≡ b
unfolding same_path
same_path→eq [] [] h = refl
same_path→eq [] (b ∷ bs) h = cc h
same_path→eq (m ∷ ms) [] h = cc h
same_path→eq (m ∷ ms) (k ∷ ks) h = elim (Bool-cases (str_eq k m)) [
  | inl same ↦
      let rest : same_path ms ks ≡ true = rw same at h in
      cc (str_eq→eq k m same, same_path→eq ms ks rest)
  | inr other ↦ let no : false ≡ true = rw other at h in cc
]
