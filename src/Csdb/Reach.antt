-- ===== src/Csdb/Reach.antt =====
-- The changes that a caller makes to the database one after another, each on a key that the callers
-- build, and what holds after any number of them.
use dkmp.Base.{
  ℕ, ◌≡◌, refl, sym, ap, ◌∙◌, inl, inr, Bool, true, false, Option, none, some, List, Bool-cases,
  Text, ℤ, pos, negsuc,
}
use dkmp.Csdb.Key.Names.{join_key}
use dkmp.Csdb.Entry.{dot, create_entry, find_name}
use dkmp.Csdb.Paths.{Content}
use dkmp.Csdb.Store.{
  Db, Outcome, done, key_exist, get_value_for_key, set_value_for_key, remove_from_key,
  append_value_for_key, init,
}
use dkmp.Csdb.Values.{IsPath, Ready, content, exists, answer, key_exist-content, get_value-answer}
use dkmp.Csdb.Written.{set_value-IsWritten, remove-rerooted, remove-IsRemoved}
use dkmp.Csdb.Appending.{leaf, append_value-rerooted, append_value-IsExtended}

-- One call by a caller, on any key that the callers build and with any status, as long as it returns;
-- of `csdb_get_value_for_key` only the call that finds a value.
pub data Step (db : Db) : Db → Type 0 where
  set :
      {db' : Db} {status : ℤ} (ks : List Text) (v : Option Text) (now : ℕ)
      → IsPath ks
      → set_value_for_key (join_key ks) v now db ≡ done status db'
      → Step db db'
  remove :
      {db' : Db} {status : ℤ} (ks : List Text)
      → IsPath ks
      → remove_from_key (join_key ks) db ≡ done status db'
      → Step db db'
  append :
      {db' : Db} {status : ℤ} (ks : List Text) (value : Text) (btwn : Option Text) (now : ℕ)
      → IsPath ks
      → append_value_for_key (join_key ks) (some value) btwn now db ≡ done status db'
      → Step db db'
  get :
      {db' : Db} (ks : List Text) (v : Text)
      → IsPath ks
      → get_value_for_key (join_key ks) db ≡ done (pos 0, some v) db'
      → Step db db'
  ask :
      {db' : Db} (ks : List Text) (b : Bool)
      → IsPath ks
      → key_exist (join_key ks) db ≡ done b db'
      → Step db db'

-- What is reached from an empty database by such changes.
pub data Reach (now : ℕ) : Db → Type 0 where
  initial :
      (fresh : Db) {db : Db} → fresh.locked ≡ false → init now fresh ≡ done tt db → Reach now db
  next : {db db' : Db} → Reach now db → Step db db' → Reach now db'

state_of : {A : Type 0} → Db → Outcome A → Db
state_of d (done a db) = db
state_of d _ = d

done-state : {A : Type 0} {a b : A} {db db' : Db} → done a db ≡ done b db' → db ≡ db'
unfolding state_of
done-state {db} e = ap (state_of db) e

Ready-eq : {db db' : Db} → Ready db → db ≡ db' → Ready db'
Ready-eq r e = rw e at r

answer-Ready :
    (db db' : Db) (c : Content) (v : Text)
    → Ready db
    → answer c db ≡ done (pos 0, some v) db'
    → Ready db'
answer-Ready db db' none v r e = cc
answer-Ready db db' (some (w, false)) v r e = cc
answer-Ready db db' (some (none, true)) v r e = cc
answer-Ready db db' (some (some w, true)) v r e = Ready-eq r (done-state e)

Step-Ready : {db db' : Db} → Step db db' → Ready db → Ready db'
Step-Ready {db} (set ks v now p e) r =
    let (after, e', w) = set_value-IsWritten db ks v now r p in
    Ready-eq w.ready (done-state (sym e' ∙ e))
Step-Ready {db} (remove ks p e) r = elim (Bool-cases (exists (content db ks))) [
  | inl there ↦
      let (after, e', w) = remove-IsRemoved db ks r p there in
      Ready-eq w.ready (done-state (sym e' ∙ e))
  | inr missing ↦
      let e' : remove_from_key (join_key ks) db ≡ done (negsuc 0) db =
        remove-rerooted db ks r p ∙ rw missing refl in
      Ready-eq r (done-state (sym e' ∙ e))
]
Step-Ready {db} (append ks value btwn now p e) r = elim (Bool-cases (leaf (content db ks))) [
  | inl there ↦
      let (after, e', w) = append_value-IsExtended db ks value btwn now r p there in
      Ready-eq w.ready (done-state (sym e' ∙ e))
  | inr missing ↦
      let e' : append_value_for_key (join_key ks) (some value) btwn now db ≡ done (negsuc 0) db =
        append_value-rerooted db ks value btwn now r p ∙ rw missing refl in
      Ready-eq r (done-state (sym e' ∙ e))
]
Step-Ready {db} {db'} (get ks v p e) r =
    answer-Ready db db' (content db ks) v r (sym (get_value-answer db ks r p) ∙ e)
Step-Ready {db} (ask ks b p e) r = Ready-eq r (done-state (sym (key_exist-content db ks r p) ∙ e))

init-Ready :
    (now : ℕ) (fresh db : Db) → fresh.locked ≡ false → init now fresh ≡ done tt db → Ready db
unfolding init create_entry find_name
init-Ready now fresh db h e =
    let made : Db = record { root = create_entry dot none now; locked = false } in
    let e' : init now fresh ≡ done tt made = rw h refl in
    let start : Ready made = record { rooted = refl; free = refl; unique = (refl, tt, tt) } in
    Ready-eq start (done-state (sym e' ∙ e))

-- After any sequence of calls that write, remove, append or ask for a key, each with whatever status
-- it returns, and of reads that find a value, from a fresh database on, the database has a root, its
-- mutex is free, and no entry has two childs of one name. The parts of the keys hold no '.', and the
-- last one is not empty.
pub Reach-Ready : (now : ℕ) {db : Db} → Reach now db → Ready db
Reach-Ready now (initial fresh h e) = init-Ready now fresh _ h e
Reach-Ready now (next r s) = Step-Ready s (Reach-Ready now r)
