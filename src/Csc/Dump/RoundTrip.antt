-- ===== src/Csc/Dump/RoundTrip.antt =====
-- A database that is dumped to a file and read from it again.
use dkmp.Base.{
  ℕ, ◌≡◌, refl, sym, ap, ◌∙◌, true, false, none, some, List, [], ◌∷◌, Text, pos, str_eq, IsCString,
}
use dkmp.Csdb.Key.{parse_key, check_key, count_delims, parts}
use dkmp.Csdb.Key.Names.{join_key}
use dkmp.Csdb.Entry.{Csdbe, null, node, is_null, childs_of, dot, find_child, walk, dump_from_entry}
use dkmp.Csdb.Paths.{look}
use dkmp.Csdb.Unique.{IsUnique}
use dkmp.Csdb.Store.{
  Db, done, get_entry, get_entry_parsed, dump_from_key, lock, unlock, above_childs,
}
use dkmp.Csdb.Values.{Ready, content}
use dkmp.Csdb.Written.{set_value-IsWritten}
use dkmp.Csdb.Stored.{leaf_value, stored, leaf-after_write}
use dkmp.Csc.{set_lines, read_db_from_file, dump_db_to_file}
use dkmp.Csc.Mapped.{HasPadding, c_string-padded}
use dkmp.Csc.Dump.{Leaf, leaves, lines, dump-lines}
use dkmp.Csc.Dump.Lines.{
  CleanEntries, AllClean, leaves-AllClean, bodies, strtok-lines, at_sign-body,
}
use dkmp.Csc.Dump.Leaves.{first_of, last_value, value_in, leaves-value_in}

-- Reading the lines writes the leaves one after the other.
set-bodies :
    (ls : List Leaf) (db : Db) (now : ℕ)
    → AllClean ls
    → Ready db
    → (db' : Db) × (set_lines (bodies ls) now db ≡ done tt db')
      × Ready db'
      × ((path : List Text) → stored db' path ≡ last_value ls path (stored db path))
unfolding set_lines last_value
set-bodies [] db now k r = (db, refl, r, λ path. refl)
set-bodies ((p, none) ∷ ls) db now k r = absurd k.0.value
set-bodies ((p, some v) ∷ ls) db now k r =
    let (db1, e1, w) = set_value-IsWritten db p (some v) now r k.0.path in
    let (db2, e2, r2, h) = set-bodies ls db1 now k.1 w.ready in
    (
      db2,
      rw (at_sign-body (join_key p) v k.0.no_sign, e1, e2) refl,
      r2,
      λ path.
          h path
          ∙ ap (last_value ls path)
              (ap leaf_value (w.holds path) ∙ leaf-after_write path p v (content db path)),
    )

parse_key-dot : parse_key dot ≡ parts (dot ∷ [])
unfolding parse_key check_key count_delims
parse_key-dot = refl

walk-dot : (root : Csdbe) → is_null root ≡ false → walk root root (dot ∷ []) ≡ root
unfolding walk find_child str_eq
walk-dot null h = cc h
walk-dot (node n v l t c x) h = refl

get_entry-dot : (db : Db) → is_null db.root ≡ false → get_entry dot db ≡ done db.root db
unfolding get_entry get_entry_parsed
get_entry-dot db h = rw (parse_key-dot) (ap (λ e. done e db) (walk-dot db.root h))

-- The file that the dump from the root writes.
abbrev pub dumped : Db → Text
dumped db = lines [] (leaves (childs_of db.root))

dump_from_entry-root :
    (e : Csdbe) → dump_from_entry (above_childs (parts (dot ∷ []))) e ≡ lines [] (leaves e)
unfolding str_eq
dump_from_entry-root e = dump-lines [] e

dump_db-dumped :
    (db : Db) → Ready db → dump_db_to_file true dot db ≡ done (pos 0, some (dumped db)) db
unfolding dump_db_to_file dump_from_key lock unlock
dump_db-dumped db r =
    rw
      (
        r.free,
        get_entry-dot (record db { locked = true }) r.rooted,
        parse_key-dot,
        dump_from_entry-root (childs_of db.root),
      )
      refl

stored-value_in :
    (db : Db) (n : Text) (ns : List Text) → stored db (n ∷ ns) ≡ value_in (childs_of db.root) n ns
unfolding look
stored-value_in db n ns = refl

childs-IsUnique : (e : Csdbe) → IsUnique e → IsUnique (childs_of e)
childs-IsUnique null u = tt
childs-IsUnique (node n v l t c x) u = u.1

-- When a ready database is dumped from its root and another ready one reads the file, both calls
-- succeed: the dumped database stays as it is, the other is ready afterwards, and each path holds
-- the value of the dumped leaf there, or else the value of the other database's leaf before. The
-- names must be filled and free of '.', '=' and newlines, every dumped leaf must have a value
-- without newlines, and the file must hold no zero byte and not be empty or of whole pages.
pub read_db-dump_db :
    (db db0 : Db) (now : ℕ)
    → Ready db
    → CleanEntries (childs_of db.root)
    → IsCString (dumped db)
    → HasPadding (dumped db)
    → Ready db0
    → (file : Text) × (db' : Db) × (dump_db_to_file true dot db ≡ done (pos 0, some file) db)
      × (read_db_from_file (some file) now db0 ≡ done (pos 0) db')
      × Ready db'
      × ((n : Text) (ns : List Text)
          → stored db' (n ∷ ns) ≡ first_of (stored db (n ∷ ns)) (stored db0 (n ∷ ns)))
unfolding read_db_from_file
read_db-dump_db db db0 now r k text padding r0 =
    let clean = leaves-AllClean (childs_of db.root) k in
    let (db', e, r', holds) = set-bodies (leaves (childs_of db.root)) db0 now clean r0 in
    (
      dumped db,
      db',
      dump_db-dumped db r,
      rw
          (
            c_string-padded (dumped db) padding text,
            strtok-lines (leaves (childs_of db.root)) clean,
            e,
          )
          refl,
      r',
      λ n ns.
          holds (n ∷ ns)
          ∙ leaves-value_in (childs_of db.root) n ns _ (childs-IsUnique db.root r.unique) k
          ∙ ap (λ v. first_of v (stored db0 (n ∷ ns))) (sym (stored-value_in db n ns)),
    )
