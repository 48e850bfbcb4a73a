-- ===== src/Csdb/Values.antt =====
-- The operations of src/csd/csdb.c as operations on a map from paths to what the entries hold.
use dkmp.Base.{
  ℕ, ◌≡◌, refl, sym, ap, ◌∙◌, Bool, true, false, not, Option, none, some, List, [], ◌∷◌, ◌++◌,
  append-nil, arith, Text, ℤ, pos, negsuc, str_eq,
}
use dkmp.Csdb.Key.{ends_with_dot, is_valid_key, count_delims, parts, parse_key}
use dkmp.Csdb.Key.Names.{IsName, AllNames, join_key, last_filled, parse_key-join_key}
use dkmp.Csdb.Entry.{Csdbe, null, node, is_null, dot, find_name, find_child, walk}
use dkmp.Csdb.Paths.{detach, look, Content, read}
use dkmp.Csdb.Unique.{IsUnique}
use dkmp.Csdb.Store.{
  Db, Outcome, done, crashes, get_entry, get_entry_parsed, key_exist, value_of_entry,
  get_value_for_key,
}

-- The parts of a key as the callers build them: at least one, no delimiter inside, and the last one
-- not empty.
pub record IsPath (ks : List Text) : Type 0 where
  pub all_names : AllNames ks
  pub filled : last_filled ks ≡ true

-- A database that `csdb_init` has made and that nobody holds.
pub record Ready (db : Db) : Type 0 where
  pub rooted : is_null db.root ≡ false
  pub free : db.locked ≡ false
  pub unique : IsUnique db.root

abbrev pub content : Db → List Text → Content
content db ks = read (look ks db.root)

ends_with_dot-append :
    (a : Text) (c : ℕ) (b : Text) → ends_with_dot (a ++ c ∷ b) ≡ ends_with_dot (c ∷ b)
ends_with_dot-append [] c b = refl
ends_with_dot-append (x ∷ []) c b = refl
ends_with_dot-append (x ∷ y ∷ a) c b = ends_with_dot-append (y ∷ a) c b

ends_with_dot_name : (n : Text) → IsName n → ends_with_dot n ≡ false
unfolding count_delims
ends_with_dot_name [] h = refl
ends_with_dot_name (x ∷ []) h = ground arith
ends_with_dot_name (x ∷ y ∷ a) h = ends_with_dot_name (y ∷ a) (ground arith)

ends_with_dot-join_key :
    (n : Text) (ns : List Text)
    → AllNames (n ∷ ns)
    → last_filled (n ∷ ns) ≡ true
    → ends_with_dot (join_key (n ∷ ns)) ≡ false
ends_with_dot-join_key [] [] h f = cc
ends_with_dot-join_key (c ∷ n) [] h f = rw append-nil (ends_with_dot_name (c ∷ n) h.0)
ends_with_dot-join_key [] (m ∷ ms) h f = ends_with_dot-join_key m ms h.1 f
ends_with_dot-join_key (c ∷ n) (m ∷ ms) h f =
    ends_with_dot-append (c ∷ n) b'.' (m ++ join_key ms) ∙ ends_with_dot-join_key m ms h.1 f

pub join_key-valid : (ks : List Text) → IsPath ks → is_valid_key (join_key ks) ≡ true
unfolding is_valid_key
join_key-valid [] p = cc p.filled
join_key-valid (n ∷ ns) p = ground (arith, ends_with_dot-join_key n ns p.all_names p.filled)

pub join_key-dot : (ks : List Text) → IsPath ks → str_eq (join_key ks) dot ≡ false
unfolding str_eq
join_key-dot [] p = cc p.filled
join_key-dot ([] ∷ []) p = cc p.filled
join_key-dot ([] ∷ m ∷ ms) p = refl
join_key-dot ((c ∷ n) ∷ ns) p = refl

pub parse-path : (ks : List Text) → IsPath ks → parse_key (join_key ks) ≡ parts ks
parse-path [] p = cc p.filled
parse-path (n ∷ ns) p = parse_key-join_key n ns p.all_names p.filled

look-detach : (path : List Text) (e : Csdbe) → look path (detach e) ≡ look path e
unfolding look
look-detach [] null = refl
look-detach [] (node _ _ _ _ _ _) = refl
look-detach (m ∷ ms) null = refl
look-detach (m ∷ ms) (node _ _ _ _ _ _) = refl

pub name-ne-dot : (n : Text) → IsName n → str_eq n dot ≡ false
unfolding str_eq count_delims
name-ne-dot [] h = refl
name-ne-dot (c ∷ n) h = ground arith

pub look_null : (path : List Text) → look path null ≡ null
unfolding look find_name
look_null [] = refl
look_null (m ∷ ms) = look_null ms

-- The walk of `csdb_get_entry` finds what stands at the path.
detach-walk : (root e : Csdbe) (ks : List Text) → AllNames ks → detach (walk root e ks) ≡ look ks e
unfolding walk find_child look
detach-walk root e [] h = refl
detach-walk root null (n ∷ ns) h = sym (unfold find_name in look_null ns)
detach-walk root (node m v l t c x) (n ∷ ns) h =
    rw (name-ne-dot n h.0)
      (detach-walk root (find_name c n) ns h.1 ∙ sym (look-detach ns (find_name c n)))

unlocked_eq : (db : Db) → db.locked ≡ false → record db { locked = false } ≡ db
unlocked_eq db h = ground arith

null-detach : (e : Csdbe) → is_null (detach e) ≡ is_null e
null-detach null = refl
null-detach (node _ _ _ _ _ _) = refl

read-detach : (e : Csdbe) → read (detach e) ≡ read e
read-detach null = refl
read-detach (node _ _ _ _ _ _) = refl

-- What `csdb_get_entry` finds holds what stands at the path.
pub read-walk :
    (db : Db) (ks : List Text) → IsPath ks → read (walk db.root db.root ks) ≡ content db ks
read-walk db ks p =
    sym (read-detach (walk db.root db.root ks))
    ∙ ap read (detach-walk db.root db.root ks p.all_names)

pub get_entry_path :
    (db : Db) (ks : List Text)
    → IsPath ks
    → get_entry (join_key ks) db ≡ done (walk db.root db.root ks) db
unfolding get_entry get_entry_parsed
get_entry_path db ks p = rw (parse-path ks p) refl

abbrev pub exists : Content → Bool
exists none = false
exists (some _) = true

pub exists-read : (e : Csdbe) → not (is_null e) ≡ exists (read e)
exists-read null = refl
exists-read (node _ _ _ _ _ _) = refl

-- `csdb_key_exist` says whether the key stands in the tree, changes nothing and gives the mutex back.
pub key_exist-content :
    (db : Db) (ks : List Text)
    → Ready db
    → IsPath ks
    → key_exist (join_key ks) db ≡ done (exists (content db ks)) db
unfolding key_exist
key_exist-content db ks r p =
    rw (r.free, get_entry_path (record db { locked = true }) ks p)
      (rw (exists-read (walk db.root db.root ks), read-walk db ks p) refl)

-- What `csdb_get_value_for_key` does with what the key holds. Only where it finds a value does it
-- give the mutex back.
abbrev pub answer : Content → Db → Outcome (ℤ × Option Text)
answer none db = done (negsuc 4, none) (record db { locked = true })
answer (some (v, false)) db = done (negsuc 3, none) (record db { locked = true })
answer (some (none, true)) db = crashes
answer (some (some v, true)) db = done (pos 0, some v) db

value_of_entry-answer :
    (db : Db) (e : Csdbe)
    → db.locked ≡ false
    → value_of_entry e (record db { locked = true }) ≡ answer (read e) db
unfolding value_of_entry
value_of_entry-answer db null h = refl
value_of_entry-answer db (node n v false t c x) h = refl
value_of_entry-answer db (node n none true t c x) h = refl
value_of_entry-answer db (node n (some v) true t c x) h =
    ap (done (pos 0, some v)) (unlocked_eq db h)

pub get_value-answer :
    (db : Db) (ks : List Text)
    → Ready db
    → IsPath ks
    → get_value_for_key (join_key ks) db ≡ answer (content db ks) db
unfolding get_value_for_key
get_value-answer db ks r p =
    rw (join_key-valid ks p, r.free, get_entry_path (record db { locked = true }) ks p)
      (rw (← read-walk db ks p)
        (value_of_entry-answer (record db { locked = false }) (walk db.root db.root ks) refl))
