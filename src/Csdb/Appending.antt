-- ===== src/Csdb/Appending.antt =====
-- `csdb_append_value_for_key` of src/csd/csdb.c as an operation on the map of paths.
use dkmp.Base.{
  ℕ, ◌≡◌, refl, sym, ◌∙◌, inl, inr, Bool, true, false, ◌&&◌, Option, none, some, List, [], ◌∷◌,
  if◌then◌else◌, Bool-cases, Text, pos, negsuc, str_eq,
}
use dkmp.Csdb.Key.Names.{join_key}
use dkmp.Csdb.Entry.{Csdbe, null, node, is_null, find_name, set_value, update_path, walk}
use dkmp.Csdb.Paths.{pick, look, Content, read, Local, pick-update_first}
use dkmp.Csdb.Unique.{IsUnique, Local-update_path, IsUnique-update_path}
use dkmp.Csdb.Store.{
  Db, done, appended, is_leaf_of, append_value, update_root_path, update_parsed, append_to_entry,
  append_value_for_key,
}
use dkmp.Csdb.Values.{
  IsPath, Ready, content, get_entry_path, read-walk, parse-path, name-ne-dot, look_null,
}
use dkmp.Csdb.Written.{rerooted}

-- The same path, name by name.
unfoldable pub same_path : (path ks : List Text) → Bool
same_path [] [] = true
same_path (m ∷ ms) (k ∷ ks) = str_eq k m && same_path ms ks
same_path _ _ = false

Local-append_value :
    (value : Text) (btwn : Option Text) (now : ℕ) → Local (append_value value btwn now)
unfolding append_value set_value
Local-append_value value btwn now n none l t c = (some value, true, now, c, λ x. refl)
Local-append_value value btwn now n (some v) l t c =
    (some (appended value btwn v), l, t, c, λ x. refl)

update_path-null :
    (ks : List Text) (f : Csdbe → Csdbe) → f null ≡ null → update_path ks f null ≡ null
unfolding update_path
update_path-null [] f e = e
update_path-null (k ∷ ks) f e = refl

-- What an entry with this content holds when `f` is `append_value`.
abbrev pub extended : Text → Option Text → Content → Content
extended value btwn none = none
extended value btwn (some (none, l)) = some (some value, true)
extended value btwn (some (some v, l)) = some (some (appended value btwn v), l)

if_none : (b : Bool) → if◌then◌else◌ {A = Content} b none none ≡ none
if_none true = refl
if_none false = refl

-- What the tree holds at each path after an append at one of them.
pub read-update_path :
    (ks path : List Text) (value : Text) (btwn : Option Text) (now : ℕ) (e : Csdbe)
    → read (look path (update_path ks (append_value value btwn now) e))
      ≡ (if same_path path ks then extended value btwn (read (look path e)) else read (look path e))
unfolding look update_path same_path append_value set_value find_name
read-update_path [] [] value btwn now null = refl
read-update_path [] [] value btwn now (node n none l t c x) = refl
read-update_path [] [] value btwn now (node n (some v) l t c x) = refl
read-update_path [] (m ∷ ms) value btwn now null = refl
read-update_path [] (m ∷ ms) value btwn now (node n none l t c x) = refl
read-update_path [] (m ∷ ms) value btwn now (node n (some v) l t c x) = refl
read-update_path (k ∷ ks) [] value btwn now null = refl
read-update_path (k ∷ ks) [] value btwn now (node n v l t c x) = refl
read-update_path (k ∷ ks) (m ∷ ms) value btwn now null =
    rw (look_null ms) (sym (if_none (same_path (m ∷ ms) (k ∷ ks))))
read-update_path (k ∷ ks) (m ∷ ms) value btwn now (node n v l t c x) =
    let f = append_value value btwn now in
    let step =
      pick-update_first k m (update_path ks f) c
        (Local-update_path ks f (Local-append_value value btwn now)) (update_path-null ks f refl) in
    elim (Bool-cases (str_eq k m)) [
      | inl same ↦ rw (step, same) (read-update_path ks ms value btwn now (pick c m))
      | inr other ↦ rw (step, other) refl
    ]

-- What a database is after `csdb_append_value_for_key` to a leaf, seen as a map.
pub record IsExtended (db : Db) (ks : List Text) (value : Text) (btwn : Option Text) (db' : Db)
    : Type 0 where
  pub ready : Ready db'
  pub holds :
      (path : List Text)
      → content db' path
        ≡ (if same_path path ks then extended value btwn (content db path) else content db path)

IsUnique-append_value :
    (value : Text) (btwn : Option Text) (now : ℕ) (e : Csdbe)
    → IsUnique e
    → IsUnique (append_value value btwn now e)
unfolding append_value set_value
IsUnique-append_value value btwn now null u = tt
IsUnique-append_value value btwn now (node n none l t c x) u = u
IsUnique-append_value value btwn now (node n (some v) l t c x) u = u

update_path-node :
    (ks : List Text) (value : Text) (btwn : Option Text) (now : ℕ) (e : Csdbe)
    → is_null e ≡ false
    → is_null (update_path ks (append_value value btwn now) e) ≡ false
unfolding update_path append_value set_value
update_path-node ks value btwn now null h = cc
update_path-node [] value btwn now (node n none l t c x) h = refl
update_path-node [] value btwn now (node n (some v) l t c x) h = refl
update_path-node (k ∷ ks) value btwn now (node _ _ _ _ _ _) h = refl

update_root_path-path :
    (ks : List Text) (f : Csdbe → Csdbe) (root : Csdbe)
    → IsPath ks
    → update_root_path ks f root ≡ update_path ks f root
unfolding update_root_path
update_root_path-path [] f root p = cc p.filled
update_root_path-path (n ∷ []) f root p = rw (name-ne-dot n p.all_names.0) refl
update_root_path-path (n ∷ m ∷ ms) f root p = refl

abbrev pub leaf : Content → Bool
leaf none = false
leaf (some (v, l)) = l

leaf-read : (e : Csdbe) → is_leaf_of e ≡ leaf (read e)
leaf-read null = refl
leaf-read (node _ _ _ _ _ _) = refl

pub append_value-rerooted :
    (db : Db) (ks : List Text) (value : Text) (btwn : Option Text) (now : ℕ)
    → Ready db
    → IsPath ks
    → append_value_for_key (join_key ks) (some value) btwn now db ≡ (
        if leaf (content db ks)
        then done (pos 0) (rerooted db (update_path ks (append_value value btwn now) db.root))
        else done (negsuc 0) db)
unfolding append_value_for_key append_to_entry update_parsed
append_value-rerooted db ks value btwn now r p =
    rw (r.free, get_entry_path (record db { locked = true }) ks p)
      (elim (Bool-cases (leaf (content db ks))) [
        | inl yes' ↦
            rw
              (
                leaf-read (walk db.root db.root ks),
                read-walk db ks p,
                yes',
                parse-path ks p,
                update_root_path-path ks (append_value value btwn now) db.root p,
              )
              refl
        | inr no' ↦ rw (leaf-read (walk db.root db.root ks), read-walk db ks p, no') refl
      ])

-- `csdb_append_value_for_key` on a leaf puts the text between and the value behind what the leaf
-- holds, leaves every other key as it is, and gives the mutex back: in a database that has a root,
-- whose mutex is free and where no entry has two childs of one name, and for a key whose parts hold
-- no '.' and whose last part is not empty.
pub append_value-IsExtended :
    (db : Db) (ks : List Text) (value : Text) (btwn : Option Text) (now : ℕ)
    → Ready db
    → IsPath ks
    → leaf (content db ks) ≡ true
    → (db' : Db) × (append_value_for_key (join_key ks) (some value) btwn now db ≡ done (pos 0) db')
      × IsExtended db ks value btwn db'
append_value-IsExtended db ks value btwn now r p h = (
  rerooted db (update_path ks (append_value value btwn now) db.root),
  append_value-rerooted db ks value btwn now r p ∙ rw h refl,
  record {
    ready = record {
      rooted = update_path-node ks value btwn now db.root r.rooted;
      free = refl;
      unique =
          IsUnique-update_path ks (append_value value btwn now) (Local-append_value value btwn now)
            (IsUnique-append_value value btwn now) db.root r.unique;
    };
    holds = λ path. read-update_path ks path value btwn now db.root;
  },
)
