-- ===== src/Csc/Nodes.antt =====
-- The nodes that can execute an application: `csc_update_cap_nodes_for_app` of src/csd/csc.c.
use dkmp.Base.{
  ℕ, zero, suc, ◌≡◌, refl, ◌∙◌, inl, inr, true, Option, none, some, List, [], ◌∷◌, ◌++◌, append-nil,
  append_assoc, Bool-cases, Text, ℤ, pos, negsuc,
}
use dkmp.Csdb.Key.{count_delims}
use dkmp.Csdb.Key.Names.{IsName, join_key}
use dkmp.Csdb.Paths.{Content}
use dkmp.Csdb.Store.{Db, done, Op, remove_from_key, get_child_names_for_key}
use dkmp.Csdb.Values.{IsPath, Ready, content, exists, key_exist-content, get_value-answer}
use dkmp.Csdb.Written.{remove-rerooted, remove-IsRemoved, set_value-IsWritten}
use dkmp.Csdb.Contract.{after_write_self}
use dkmp.Csc.{
  is_space, strtok, add_word, ask_nodes, names_text, update_cap_nodes_for_app, get_libs_for_app,
}
use dkmp.Csc.Names.{alive_name, app_name, capnodes_name}
use dkmp.Csc.Capable.{app_libs, app-IsPath, begins_with_refl, exists_none}
use dkmp.Csc.Words.{behind_spaces, Holds, add_word-Holds}

abbrev keep : ℤ → Text → List Text → List Text
keep (pos zero) n rest = rest
keep (pos (suc _)) n rest = n ∷ rest
keep (negsuc zero) n rest = []
keep (negsuc (suc _)) n rest = rest

-- The nodes whose answer is positive, up to the first one whose answer is -1.
unfoldable pub capable : (answer : Text → ℤ) → List Text → List Text
capable answer [] = []
capable answer (n ∷ ns) = keep (answer n) n (capable answer ns)

-- What a key holds after words were added to it: none makes no key.
abbrev pub recorded : List Text → Content
recorded [] = none
recorded (w ∷ ws) = some (some (w ++ behind_spaces ws), true)

abbrev pub more : Text → List Text → Content
more v ws = some (some (v ++ behind_spaces ws), true)

abbrev pub app_nodes : Text → List Text
app_nodes app = app_name ∷ app ∷ capnodes_name ∷ []

pub nodes-IsPath : (app : Text) → IsName app → IsPath (app_nodes app)
unfolding count_delims
nodes-IsPath app h = record { all_names = (refl, (h, (refl, tt))); filled = refl }

remove-fresh :
    (db : Db) (ks : List Text)
    → Ready db
    → IsPath ks
    → (status : ℤ) × (db' : Db) × (remove_from_key (join_key ks) db ≡ done status db')
      × Ready db'
      × (content db' ks ≡ none)
remove-fresh db ks r p = elim (Bool-cases (exists (content db ks))) [
  | inl there ↦
      let (db', e, x) = remove-IsRemoved db ks r p there in
      (pos 0, db', e, x.ready, x.holds ks ∙ rw (begins_with_refl ks) refl)
  | inr missing ↦ (
    negsuc 0,
    db,
    remove-rerooted db ks r p ∙ rw missing refl,
    r,
    exists_none (content db ks) missing,
  )
]

module _ (cap_request : (node libs : Text) → Op ℤ) (answer : Text → ℤ) (libs : Text)
    (answers : (n : Text) (db : Db) → cap_request n libs db ≡ done (answer n) db) where
  abbrev AskedHeld : List Text → ℕ → Type 0
  AskedHeld ns now =
      (db : Db) (ks : List Text) (v : Text)
      → Holds db ks v
      → IsPath ks
      → (db' : Db) × (ask_nodes cap_request (join_key ks) libs ns now db ≡ done tt db')
        × Ready db'
        × (content db' ks ≡ more v (capable answer ns))

  held_step :
      (n : Text) (ns : List Text) (now : ℕ) (a : ℤ)
      → answer n ≡ a
      → AskedHeld ns now
      → AskedHeld (n ∷ ns) now
  unfolding ask_nodes capable behind_spaces
  held_step n ns now (pos zero) e ih db ks v h p =
      let (db', run, r, c) = ih db ks v h p in
      (db', rw (answers n db, e, run) refl, r, c ∙ rw e refl)
  held_step n ns now (pos (suc a)) e ih db ks v h p =
      let (db1, added, h1) = add_word-Holds db ks v n now h p in
      let (db', run, r, c) = ih db1 ks (v ++ b' ' ∷ n) h1 p in
      (db', rw (answers n db, e, added, run) refl, r, c ∙ rw (e, append_assoc) refl)
  held_step n ns now (negsuc (suc a)) e ih db ks v h p =
      let (db', run, r, c) = ih db ks v h p in
      (db', rw (answers n db, e, run) refl, r, c ∙ rw e refl)
  held_step n ns now (negsuc zero) e ih db ks v h p =
      (db, rw (answers n db, e) refl, h.ready, h.here ∙ rw (e, append-nil v) refl)

  ask_held : (ns : List Text) (now : ℕ) → AskedHeld ns now
  unfolding ask_nodes capable behind_spaces
  ask_held [] now = λ db ks v h p. (db, refl, h.ready, h.here ∙ rw (append-nil v) refl)
  ask_held (n ∷ ns) now = held_step n ns now (answer n) refl (ask_held ns now)

  abbrev AskedFresh : List Text → ℕ → Type 0
  AskedFresh ns now =
      (db : Db) (ks : List Text)
      → Ready db
      → IsPath ks
      → content db ks ≡ none
      → (db' : Db) × (ask_nodes cap_request (join_key ks) libs ns now db ≡ done tt db')
        × Ready db'
        × (content db' ks ≡ recorded (capable answer ns))

  fresh_step :
      (n : Text) (ns : List Text) (now : ℕ) (a : ℤ)
      → answer n ≡ a
      → AskedFresh ns now
      → AskedFresh (n ∷ ns) now
  unfolding ask_nodes capable add_word
  fresh_step n ns now (pos zero) e ih db ks r p c =
      let (db', run, r', c') = ih db ks r p c in
      (db', rw (answers n db, e, run) refl, r', c' ∙ rw e refl)
  fresh_step n ns now (pos (suc a)) e ih db ks r p c =
      let (db1, set', x) = set_value-IsWritten db ks (some n) now r p in
      let h1 : Holds db1 ks n = record {
        ready = x.ready;
        here = x.holds ks ∙ after_write_self ks n (content db ks);
      } in
      let (db', run, r', c') = ask_held ns now db1 ks n h1 p in
      (
        db',
        rw (answers n db, e, key_exist-content db ks r p, c, set', run) refl,
        r',
        c' ∙ rw e refl,
      )
  fresh_step n ns now (negsuc (suc a)) e ih db ks r p c =
      let (db', run, r', c') = ih db ks r p c in
      (db', rw (answers n db, e, run) refl, r', c' ∙ rw e refl)
  fresh_step n ns now (negsuc zero) e ih db ks r p c =
      (db, rw (answers n db, e) refl, r, c ∙ rw e refl)

  ask_fresh : (ns : List Text) (now : ℕ) → AskedFresh ns now
  unfolding ask_nodes capable
  ask_fresh [] now = λ db ks r p c. (db, refl, r, c)
  ask_fresh (n ∷ ns) now = fresh_step n ns now (answer n) refl (ask_fresh ns now)

  -- The nodes that are alive are asked in turn, and those whose answer is positive, up to the first
  -- one whose answer is -1, are what is written down for the application: joined with spaces, or no
  -- key at all where there is none. The answer of a node depends on the node and the libraries
  -- alone, and asking leaves the database as it is; the application's libraries stand in the
  -- database, and its name has no '.'; the database has a root, its mutex is free and no entry has
  -- two childs of one name.
  pub update_cap_nodes-capable :
      (db : Db) (app : Text) (alive : Option (ℕ × List Text × Text)) (now : ℕ)
      → Ready db
      → IsName app
      → content db (app_libs app) ≡ some (some libs, true)
      → get_child_names_for_key (b'.' ∷ alive_name) db ≡ done alive db
      → (db' : Db) × (update_cap_nodes_for_app cap_request app now db ≡ done (pos 0) db')
        × Ready db'
        × (content db' (app_nodes app)
            ≡ recorded (capable answer (strtok is_space (names_text alive))))
  unfolding update_cap_nodes_for_app get_libs_for_app
  update_cap_nodes-capable db app alive now r h known names =
      let found = get_value-answer db (app_libs app) r (app-IsPath app h) in
      let p = nodes-IsPath app h in
      let (status, db1, gone, r1, c1) = remove-fresh db (app_nodes app) r p in
      let (db2, asked, r2, c2) =
        ask_fresh (strtok is_space (names_text alive)) now db1 (app_nodes app) r1 p c1 in
      (db2, rw (found, known, names, gone, asked) refl, r2, c2)
