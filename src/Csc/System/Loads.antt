-- ===== src/Csc/System/Loads.antt =====
-- What `csc_set_load` of src/csd/csc.c leaves in the database.
use dkmp.Base.{
  ℕ, ◌≡◌, refl, ap, ◌∙◌, false, true, not, Option, some, List, [], ◌∷◌, append-nil, Text, pos,
  str_eq, str_eq_refl,
}
use dkmp.Csdb.Key.{count_delims}
use dkmp.Csdb.Key.Names.{IsName, is_nil}
use dkmp.Csdb.Paths.{Content, after_write}
use dkmp.Csdb.Store.{Db, done, get_value_for_key}
use dkmp.Csdb.Values.{get_value-answer, IsPath, Ready, content}
use dkmp.Csdb.Written.{set_value-IsWritten}
use dkmp.Csdb.Contract.{after_write_self}
use dkmp.Csc.Names.{
  node_name, load_name, avg1_name, avg5_name, avg15_name, nop_name, active_name, lastpid_name,
}
use dkmp.Csc.System.{node_key, set_node, LoadAvg, set_load}

abbrev pub load_path : (hostname name : Text) → List Text
load_path h n = node_name ∷ h ∷ load_name ∷ n ∷ []

pub node-IsPath : (h n : Text) → IsName h → IsName n → is_nil n ≡ false → IsPath (load_path h n)
unfolding count_delims
node-IsPath h n k l filled = record {
  all_names = (refl, (k, (refl, (l, tt))));
  filled = ap not filled;
}

after_write_other_load :
    (h name other : Text) (v : Option Text) (old : Content)
    → str_eq other name ≡ false
    → after_write (load_path h name) (load_path h other) v old ≡ old
unfolding after_write
after_write_other_load h name other v old ne =
    rw (str_eq_refl node_name, str_eq_refl h, str_eq_refl load_name, ne) refl

module _ (h : Text) (now : ℕ) where
  -- One write, with what it keeps of the other loads.
  pub record Wrote (n v : Text) (db db' : Db) : Type 0 where
    pub ready : Ready db'
    pub here : content db' (load_path h n) ≡ some (some v, true)
    pub kept :
        (m : Text) → str_eq n m ≡ false → content db' (load_path h m) ≡ content db (load_path h m)

  set_node-Wrote :
      (db : Db) (n v : Text)
      → Ready db
      → IsPath (load_path h n)
      → (db' : Db) × (set_node h load_name n v now db ≡ done (pos 0) db') × Wrote n v db db'
  unfolding set_node
  set_node-Wrote db n v r p =
      let (db', e, w) =
        rw append-nil at (set_value-IsWritten db (load_path h n) (some v) now r p) in
      (
        db',
        e,
        record {
          ready = w.ready;
          here =
              w.holds (load_path h n)
              ∙ after_write_self (load_path h n) v (content db (load_path h n));
          kept = λ m ne.
              w.holds (load_path h m)
              ∙ after_write_other_load h m n (some v) (content db (load_path h m)) ne;
        },
      )

-- After the load was read from /proc/loadavg, its three averages stand under their keys.
pub set_load-here :
    (db : Db) (h : Text) (l : LoadAvg) (now : ℕ)
    → Ready db
    → IsName h
    → (db' : Db) × (set_load h (some l) now db ≡ done (pos 0) db')
      × Ready db'
      × (content db' (load_path h avg1_name) ≡ some (some l.avg1, true))
      × (content db' (load_path h avg5_name) ≡ some (some l.avg5, true))
      × (content db' (load_path h avg15_name) ≡ some (some l.avg15, true))
unfolding set_load count_delims str_eq
set_load-here db h l now r k =
    let (db1, e1, w1) =
      set_node-Wrote h now db avg1_name l.avg1 r (node-IsPath h avg1_name k refl refl) in
    let (db2, e2, w2) =
      set_node-Wrote h now db1 avg5_name l.avg5 w1.ready (node-IsPath h avg5_name k refl refl) in
    let (db3, e3, w3) =
      set_node-Wrote h now db2 avg15_name l.avg15 w2.ready (node-IsPath h avg15_name k refl refl) in
    let (db4, e4, w4) =
      set_node-Wrote h now db3 nop_name l.nop w3.ready (node-IsPath h nop_name k refl refl) in
    let (db5, e5, w5) =
      set_node-Wrote h now db4 active_name l.run w4.ready (node-IsPath h active_name k refl refl) in
    let (db6, e6, w6) =
      set_node-Wrote h now db5 lastpid_name l.pid w5.ready
        (node-IsPath h lastpid_name k refl refl) in
    let after3 : (m : Text)
        → str_eq nop_name m ≡ false
        → str_eq active_name m ≡ false
        → str_eq lastpid_name m ≡ false
        → content db6 (load_path h m) ≡ content db3 (load_path h m) =
      λ m a b c. w6.kept m c ∙ w5.kept m b ∙ w4.kept m a in
    (
      db6,
      rw (e1, e2, e3, e4, e5, e6) refl,
      w6.ready,
      after3 avg1_name refl refl refl ∙ w3.kept avg1_name refl ∙ w2.kept avg1_name refl ∙ w1.here,
      after3 avg5_name refl refl refl ∙ w3.kept avg5_name refl ∙ w2.here,
      after3 avg15_name refl refl refl ∙ w3.here,
    )

-- A load that stands in the database is read.
pub get_load :
    (db : Db) (h n v : Text)
    → Ready db
    → IsName h
    → IsName n
    → is_nil n ≡ false
    → content db (load_path h n) ≡ some (some v, true)
    → get_value_for_key (node_key h load_name n) db ≡ done (pos 0, some v) db
get_load db h n v r k l filled here =
    rw append-nil at (get_value-answer db (load_path h n) r (node-IsPath h n k l filled))
    ∙ rw here refl
