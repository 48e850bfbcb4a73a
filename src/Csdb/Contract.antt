-- ===== src/Csdb/Contract.antt =====
-- What src/csd/csdb.c promises to its callers, and what a failed read does to its mutex.
use dkmp.Base.{
  ℕ, ◌≡◌, ◌≢◌, refl, ap, ◌⊎◌, inl, inr, Bool, true, false, not, ◌&&◌, Option, none, some, List, [],
  ◌∷◌, if◌then◌else◌, Bool-cases, Text, pos, str_eq, str_eq_iff, str_eq→eq,
}
use dkmp.Csdb.Key.Names.{join_key}
use dkmp.Csdb.Paths.{Content, after_write}
use dkmp.Csdb.Unique.{begins_with}
use dkmp.Csdb.Store.{
  Db, done, deadlock, ◌>>◌, key_exist, get_value_for_key, set_parsed, set_value_for_key,
  remove_from_key, get_mtime_for_key, append_value_for_key, dump_from_key,
}
use dkmp.Csdb.Values.{
  IsPath, Ready, content, exists, key_exist-content, get_value-answer, parse-path, join_key-valid,
  join_key-dot,
}
use dkmp.Csdb.Written.{set_value-IsWritten, IsWritten, remove-IsRemoved, IsRemoved}

pub after_write_self :
    (ks : List Text) (v : Text) (old : Content)
    → after_write ks ks (some v) old ≡ some (some v, true)
unfolding after_write
after_write_self [] v old = refl
after_write_self (k ∷ ks) v old = rw ((str_eq_iff k k).1 refl) (after_write_self ks v old)

pub after_write_other :
    (path ks : List Text) (v : Option Text) (r : Option Text × Bool)
    → path ≢ ks
    → after_write path ks v (some r) ≡ some r
unfolding after_write
after_write_other [] [] v r ne = absurd (ne refl)
after_write_other [] (k ∷ ks) v r ne = refl
after_write_other (m ∷ ms) [] v r ne = refl
after_write_other (m ∷ ms) (k ∷ ks) v r ne = elim (Bool-cases (str_eq k m)) [
  | inl same ↦ rw same (after_write_other ms ks v r (λ e. ne (rw (str_eq→eq k m same, e) refl)))
  | inr other ↦ rw other refl
]

-- A value that is set is read back under the same key: in a database that has a root, whose mutex
-- is free and where no entry has two childs of one name, and for a key whose parts hold no '.' and
-- whose last part is not empty. The database is then the one before with that key written, and its
-- mutex is free.
pub get_value-set_value :
    (db : Db) (ks : List Text) (v : Text) (now : ℕ)
    → Ready db
    → IsPath ks
    → (db' : Db) × ((set_value_for_key (join_key ks) (some v) now
            >> get_value_for_key (join_key ks))
          db
        ≡ done (pos 0, some v) db')
      × IsWritten db ks (some v) db'
get_value-set_value db ks v now r p =
    let (db', e, w) = set_value-IsWritten db ks (some v) now r p in
    (
      db',
      rw (e, get_value-answer db' ks w.ready p, w.holds ks, after_write_self ks v (content db ks))
          refl,
      w,
    )

-- A value that stands under another key is still read after a write: in a database that has a root,
-- whose mutex is free and where no entry has two childs of one name, and for keys whose parts hold
-- no '.' and whose last part is not empty.
pub get_value-set_other :
    (db : Db) (ks path : List Text) (v : Option Text) (w : Text) (now : ℕ)
    → Ready db
    → IsPath ks
    → IsPath path
    → path ≢ ks
    → content db path ≡ some (some w, true)
    → (db' : Db) × ((set_value_for_key (join_key ks) v now >> get_value_for_key (join_key path)) db
        ≡ done (pos 0, some w) db')
get_value-set_other db ks path v w now r p q ne h =
    let (db', e, is) = set_value-IsWritten db ks v now r p in
    (
      db',
      rw
          (
            e,
            get_value-answer db' path is.ready q,
            is.holds path,
            h,
            after_write_other path ks v (some w, true) ne,
          )
          refl,
    )

-- After `csdb_remove_from_key` of a key that stands in the database, that key and every key below
-- it are gone, and every other key is there exactly if it was there before: in a database that has
-- a root, whose mutex is free and where no entry has two childs of one name, and for keys whose
-- parts hold no '.' and whose last part is not empty.
pub key_exist-remove :
    (db : Db) (ks path : List Text)
    → Ready db
    → IsPath ks
    → IsPath path
    → exists (content db ks) ≡ true
    → (db' : Db) × ((remove_from_key (join_key ks) >> key_exist (join_key path)) db
        ≡ done (not (begins_with path ks) && exists (content db path)) db')
      × IsRemoved db ks db'
key_exist-remove db ks path r p q there =
    let (db', e, is) = remove-IsRemoved db ks r p there in
    (
      db',
      rw (e, key_exist-content db' path is.ready q, is.holds path)
          (ap (λ b. done b db') (exists_if (begins_with path ks) (content db path))),
      is,
    )
  where
    exists_if : (b : Bool) (c : Content) → exists (if b then none else c) ≡ (not b && exists c)
    exists_if true c = refl
    exists_if false c = refl

-- Once its mutex is held and not given back, every locking operation on a key whose parts hold no
-- '.' and whose last part is not empty waits for good.
pub locked-deadlock :
    (db : Db) (ks : List Text) (v : Option Text) (now : ℕ)
    → db.locked ≡ true
    → IsPath ks
    → (key_exist (join_key ks) db ≡ deadlock)
      × (get_mtime_for_key (join_key ks) db ≡ deadlock)
      × (get_value_for_key (join_key ks) db ≡ deadlock)
      × (set_value_for_key (join_key ks) v now db ≡ deadlock)
      × (append_value_for_key (join_key ks) v none now db ≡ deadlock)
      × (remove_from_key (join_key ks) db ≡ deadlock)
      × (dump_from_key (join_key ks) db ≡ deadlock)
unfolding key_exist get_mtime_for_key get_value_for_key set_value_for_key set_parsed
    append_value_for_key remove_from_key dump_from_key
locked-deadlock db ks v now h p = (
  rw h refl,
  rw h refl,
  rw (join_key-valid ks p, h) refl,
  rw (parse-path ks p, h) refl,
  rw h refl,
  rw (join_key-dot ks p, h) refl,
  rw h refl,
)

-- Asking for the value of a key that is not in the database, or that is no leaf, keeps the mutex:
-- the next write, removal or read waits for good. The database has a root, its mutex was free, no
-- entry has two childs of one name, and the parts of the keys hold no '.', the last one not being
-- empty.
pub get_value-keeps_lock :
    (db : Db) (ks path : List Text) (v : Option Text) (now : ℕ)
    → Ready db
    → IsPath ks
    → IsPath path
    → (content db ks ≡ none) ⊎ ((w : Option Text) × (content db ks ≡ some (w, false)))
    → ((get_value_for_key (join_key ks) >> set_value_for_key (join_key path) v now) db ≡ deadlock)
      × ((get_value_for_key (join_key ks) >> remove_from_key (join_key path)) db ≡ deadlock)
      × ((get_value_for_key (join_key ks) >> get_value_for_key (join_key path)) db ≡ deadlock)
get_value-keeps_lock db ks path v now r p q (inl h) =
    let d = locked-deadlock (record db { locked = true }) path v now refl q in
    rw (get_value-answer db ks r p, h) (d.3, d.5, d.2)
get_value-keeps_lock db ks path v now r p q (inr (w, h)) =
    let d = locked-deadlock (record db { locked = true }) path v now refl q in
    rw (get_value-answer db ks r p, h) (d.3, d.5, d.2)
