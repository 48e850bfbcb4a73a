-- ===== src/Csc/Capable.antt =====
-- Which applications a node can execute: the libraries that src/csd/csc.c writes down and compares.
use dkmp.Base.{
  ◌≡◌, refl, ap, ◌∙◌, inl, inr, Bool, true, false, not, ◌&&◌, Option, none, some, List, [], ◌∷◌,
  ◌++◌, append-nil, arith, Bool-cases, Text, pos, str_eq_refl,
}
use dkmp.Csdb.Key.{count_delims}
use dkmp.Csdb.Key.Names.{IsName, is_nil, join_key}
use dkmp.Csdb.Store.{Db, done, key_exist}
use dkmp.Csdb.Paths.{Content}
use dkmp.Csdb.Unique.{begins_with}
use dkmp.Csdb.Values.{IsPath, Ready, content, exists, key_exist-content}
use dkmp.Csdb.Written.{remove-IsRemoved}
use dkmp.Csc.{
  key2, strtok, is_space_or_newline, underscored, all_known, cap_to_exec, has_slash, forget,
}
use dkmp.Csc.Names.{app_name, lib_name}
use dkmp.Csc.Words.{AllFilled, strtok-AllFilled}

abbrev pub lib_path : Text → List Text
lib_path l = lib_name ∷ l ∷ []

-- Whether all libraries stand in the database.
unfoldable pub known_libs : Db → List Text → Bool
known_libs db [] = true
known_libs db (l ∷ ls) = exists (content db (lib_path l)) && known_libs db ls

pub lib-IsPath : (l : Text) → is_nil l ≡ false → IsName l → IsPath (lib_path l)
lib-IsPath l h k = record {
  all_names = ((unfold count_delims in refl), (k, tt));
  filled = ap not h;
}

all_known-known_libs :
    (db : Db) (ls : List Text)
    → Ready db
    → AllFilled ls
    → all_known ls db ≡ done (known_libs db ls) db
unfolding all_known known_libs
all_known-known_libs db [] r h = refl
all_known-known_libs db (l ∷ ls) r h =
    let e : key_exist (key2 lib_name l) db ≡ done (exists (content db (lib_path l))) db =
      rw append-nil at (key_exist-content db (lib_path l) r (lib-IsPath l h.0 h.1)) in
    rw e (elim (Bool-cases (exists (content db (lib_path l)))) [
      | inl known ↦ rw known (all_known-known_libs db ls r h.2)
      | inr other ↦ rw other refl
    ])

pub underscored-IsName : (t : Text) → IsName (underscored t)
unfolding underscored count_delims
underscored-IsName [] = refl
underscored-IsName (c ∷ t) = ground (arith, underscored-IsName t)

-- The libraries that a request names.
abbrev pub named_libs : Text → List Text
named_libs libs = strtok is_space_or_newline (underscored libs)

-- A node says that it can execute an application exactly if every library of the list stands in its
-- database, with underscores for points; the database is left as it is, whatever the list is. The
-- database has a root, its mutex is free and no entry has two childs of one name.
pub cap_to_exec-known_libs :
    (db : Db) (libs : Text)
    → Ready db
    → cap_to_exec libs db ≡ done (known_libs db (named_libs libs)) db
unfolding cap_to_exec
cap_to_exec-known_libs db libs r =
    all_known-known_libs db (named_libs libs) r
      (strtok-AllFilled is_space_or_newline (underscored libs) (underscored-IsName libs))

abbrev pub app_libs : Text → List Text
app_libs app = app_name ∷ app ∷ lib_name ∷ []

pub app-IsPath : (app : Text) → IsName app → IsPath (app_libs app)
app-IsPath app h = record {
  all_names = ((unfold count_delims in refl), (h, ((unfold count_delims in refl), tt)));
  filled = refl;
}

pub begins_with_refl : (ks : List Text) → begins_with ks ks ≡ true
unfolding begins_with
begins_with_refl [] = refl
begins_with_refl (k ∷ ks) = rw (str_eq_refl k, begins_with_refl ks) refl

pub exists_none : (c : Content) → exists c ≡ false → c ≡ none
exists_none none h = refl
exists_none (some x) h = cc

pub forget-fresh :
    (db : Db) (ks : List Text)
    → Ready db
    → IsPath ks
    → (db' : Db) × (forget (join_key ks) db ≡ done (pos 0) db')
      × Ready db'
      × (content db' ks ≡ none)
unfolding forget
forget-fresh db ks r p = elim (Bool-cases (exists (content db ks))) [
  | inl there ↦
      let (db', e, x) = remove-IsRemoved db ks r p there in
      (
        db',
        rw (key_exist-content db ks r p, there, e) refl,
        x.ready,
        x.holds ks ∙ rw (begins_with_refl ks) refl,
      )
  | inr missing ↦
      (db, rw (key_exist-content db ks r p, missing) refl, r, exists_none (content db ks) missing)
]

-- What the dynamic linker lists of a library: its name, behind a directory or alone.
abbrev pub Listed : Type 0
Listed = Option Text × Text

abbrev pub path_of : Listed → Text
path_of (none, name) = name
path_of (some dir, name) = dir ++ b'/' ∷ name

abbrev pub names : List Listed → List Text
names [] = []
names ((dir, name) ∷ ls) = name ∷ names ls

abbrev pub NoSlashes : List Text → Type 0
NoSlashes [] = Unit
NoSlashes (n ∷ ns) = (has_slash n ≡ false) × NoSlashes ns
