-- ===== src/Csdb/Written.antt =====
-- How `csdb_set_value_for_key` and `csdb_remove_from_key` of src/csd/csdb.c change the map.
use dkmp.Base.{
  ℕ, ◌≡◌, refl, ap, ◌∙◌, inl, inr, true, false, not, Option, none, some, List, [], ◌∷◌, arith,
  if◌then◌else◌, Bool-cases, Text, pos, negsuc,
}
use dkmp.Csdb.Key.{parts}
use dkmp.Csdb.Key.Names.{join_key}
use dkmp.Csdb.Entry.{Csdbe, null, node, is_null, set_value, set_path, remove_path, walk}
use dkmp.Csdb.Paths.{after_write, read-set_path}
use dkmp.Csdb.Unique.{begins_with, read-remove_path, IsUnique-set_path, IsUnique-remove_path}
use dkmp.Csdb.Store.{
  Db, done, set_root, set_parsed, set_value_for_key, remove_parsed, remove_from_key,
}
use dkmp.Csdb.Values.{
  IsPath, Ready, content, join_key-dot, parse-path, name-ne-dot, read-walk, get_entry_path, exists,
  exists-read,
}

-- `after` is the database with `root` in place of the old root.
abbrev pub rerooted : Db → Csdbe → Db
rerooted db root = record { root = root; locked = false }

pub set_root-path :
    (ks : List Text) (v : Option Text) (now : ℕ) (root : Csdbe)
    → IsPath ks
    → set_root ks v now root ≡ set_path ks v now root
unfolding set_root
set_root-path [] v now root p = cc p.filled
set_root-path (n ∷ []) v now root p = rw (name-ne-dot n p.all_names.0) refl
set_root-path (n ∷ m ∷ ms) v now root p = refl

set_path-node :
    (ks : List Text) (v : Option Text) (now : ℕ) (e : Csdbe)
    → is_null e ≡ false
    → is_null (set_path ks v now e) ≡ false
unfolding set_path set_value
set_path-node ks v now null h = cc
set_path-node [] none now (node _ _ _ _ _ _) h = refl
set_path-node [] (some v) now (node _ _ _ _ _ _) h = refl
set_path-node (k ∷ ks) v now (node _ _ _ _ _ _) h = refl

pub set_value-rerooted :
    (db : Db) (ks : List Text) (v : Option Text) (now : ℕ)
    → Ready db
    → IsPath ks
    → set_value_for_key (join_key ks) v now db
      ≡ done (pos 0) (rerooted db (set_path ks v now db.root))
unfolding set_value_for_key set_parsed
set_value-rerooted db ks v now r p =
    rw (parse-path ks p, r.free, r.rooted) (rw (set_root-path ks v now db.root p))

-- What a database is after `csdb_set_value_for_key`, seen as a map.
pub record IsWritten (db : Db) (ks : List Text) (v : Option Text) (db' : Db) : Type 0 where
  pub ready : Ready db'
  pub holds : (path : List Text) → content db' path ≡ after_write path ks v (content db path)

pub set_value-IsWritten :
    (db : Db) (ks : List Text) (v : Option Text) (now : ℕ)
    → Ready db
    → IsPath ks
    → (db' : Db) × (set_value_for_key (join_key ks) v now db ≡ done (pos 0) db')
      × IsWritten db ks v db'
set_value-IsWritten db ks v now r p = (
  rerooted db (set_path ks v now db.root),
  set_value-rerooted db ks v now r p,
  record {
    ready = record {
      rooted = set_path-node ks v now db.root r.rooted;
      free = refl;
      unique = IsUnique-set_path ks v now db.root r.unique;
    };
    holds = λ path. read-set_path ks path v now db.root r.rooted;
  },
)

-- What a database is after `csdb_remove_from_key` of a key that stands in it, seen as a map.
pub record IsRemoved (db : Db) (ks : List Text) (db' : Db) : Type 0 where
  pub ready : Ready db'
  pub holds :
      (path : List Text)
      → content db' path ≡ (if begins_with path ks then none else content db path)

remove_path-node :
    (ks : List Text) (e : Csdbe) → is_null e ≡ false → is_null (remove_path ks e) ≡ false
unfolding remove_path
remove_path-node ks null h = cc
remove_path-node [] (node _ _ _ _ _ _) h = refl
remove_path-node (k ∷ []) (node _ _ _ _ _ _) h = refl
remove_path-node (k ∷ k' ∷ ks) (node _ _ _ _ _ _) h = refl

remove_parsed_node :
    (ks : List Text) (e : Csdbe) (db : Db)
    → is_null e ≡ false
    → remove_parsed (parts ks) e db ≡ done tt (record db { root = remove_path ks db.root })
unfolding remove_parsed
remove_parsed_node ks null db h = cc
remove_parsed_node ks (node _ _ _ _ _ _) db h = refl

is_null-walk :
    (db : Db) (ks : List Text)
    → IsPath ks
    → is_null (walk db.root db.root ks) ≡ not (exists (content db ks))
is_null-walk db ks p = ground (arith, exists-read (walk db.root db.root ks), read-walk db ks p)

pub remove-rerooted :
    (db : Db) (ks : List Text)
    → Ready db
    → IsPath ks
    → remove_from_key (join_key ks) db ≡ (
        if exists (content db ks)
        then done (pos 0) (rerooted db (remove_path ks db.root))
        else done (negsuc 0) db)
unfolding remove_from_key
remove-rerooted db ks r p =
    rw (join_key-dot ks p, r.free, get_entry_path (record db { locked = true }) ks p)
      (elim (Bool-cases (exists (content db ks))) [
        | inl there ↦
            let found = is_null-walk db ks p ∙ ap not there in
            rw
              (
                there,
                found,
                parse-path ks p,
                remove_parsed_node ks (walk db.root db.root ks) (record db { locked = true }) found,
              )
              refl
        | inr missing ↦ rw (missing, is_null-walk db ks p ∙ ap not missing) refl
      ])

pub remove-IsRemoved :
    (db : Db) (ks : List Text)
    → Ready db
    → IsPath ks
    → exists (content db ks) ≡ true
    → (db' : Db) × (remove_from_key (join_key ks) db ≡ done (pos 0) db') × IsRemoved db ks db'
remove-IsRemoved db [] r p there = cc p.filled
remove-IsRemoved db (k ∷ ks) r p there = (
  rerooted db (remove_path (k ∷ ks) db.root),
  remove-rerooted db (k ∷ ks) r p ∙ rw there refl,
  record {
    ready = record {
      rooted = remove_path-node (k ∷ ks) db.root r.rooted;
      free = refl;
      unique = IsUnique-remove_path (k ∷ ks) db.root r.unique;
    };
    holds = λ path. read-remove_path k ks path db.root r.unique;
  },
)
