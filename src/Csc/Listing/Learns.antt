-- ===== src/Csc/Listing/Learns.antt =====
-- How `csc_scan_libs` of src/csd/csc.c changes the database for one library.
use dkmp.Base.{
  ℕ, ◌≡◌, refl, ap, ◌∙◌, inl, inr, Bool, true, false, ◌&&◌, ◌||◌, none, some, [], ◌∷◌,
  if◌then◌else◌, Bool-cases, Text, str_eq, str_eq→eq, pos, append-nil,
}
use dkmp.Csdb.Key.Names.{is_nil, join_key}
use dkmp.Csdb.Paths.{Content, after_write}
use dkmp.Csdb.Store.{Db, done, ◌>>◌, Outcome, get_value_for_key, key_exist}
use dkmp.Csdb.Values.{IsPath, Ready, content, exists, key_exist-content, get_value-answer}
use dkmp.Csdb.Written.{set_value-IsWritten}
use dkmp.Csdb.Appending.{same_path, extended, append_value-IsExtended}
use dkmp.Csc.{key2, space, contains, underscored, scan_lib, add_type}
use dkmp.Csc.Names.{lib_name}
use dkmp.Csc.Capable.{lib_path, lib-IsPath, underscored-IsName}

-- Under ".lib" there are only leaves with values.
abbrev pub IsLib : Content → Type 0
IsLib none = Unit
IsLib (some (v, false)) = ⊥
IsLib (some (none, true)) = ⊥
IsLib (some (some v, true)) = Unit

pub record LibsReady (db : Db) : Type 0 where
  pub ready : Ready db
  pub libs : (l : Text) → IsLib (content db (lib_path l))

abbrev pub known : Db → Text → Bool
known db l = exists (content db (lib_path l))

-- One library becomes known, and no other.
pub record Learns (db : Db) (u : Text) (db' : Db) : Type 0 where
  pub after : LibsReady db'
  pub known_after : (l : Text) → known db' l ≡ (str_eq u l || known db l)

lib_write :
    (l u type : Text) (old : Content)
    → after_write (lib_path l) (lib_path u) (some type) old
      ≡ (if str_eq u l then some (some type, true) else old)
unfolding after_write str_eq
lib_write l u type old = refl

written-IsLib :
    (b : Bool) (type : Text) (old : Content)
    → IsLib old
    → IsLib (if b then some (some type, true) else old)
written-IsLib true type old h = tt
written-IsLib false type old h = h

exists-written :
    (b : Bool) (type : Text) (old : Content)
    → exists (if b then some (some type, true) else old) ≡ (b || exists old)
exists-written true type old = refl
exists-written false type old = refl

lib_key-IsPath : (name : Text) → is_nil name ≡ false → IsPath (lib_path (underscored name))
unfolding underscored
lib_key-IsPath [] h = cc h
lib_key-IsPath (c ∷ t) h = lib-IsPath (underscored (c ∷ t)) refl (underscored-IsName (c ∷ t))

key2_lem : (l : Text) → key2 lib_name l ≡ join_key (lib_path l)
key2_lem l = simp append-nil

-- The type is written to a new key.
learn_new :
    (db : Db) (u type : Text) (now : ℕ)
    → LibsReady db
    → IsPath (lib_path u)
    → (db' : Db) × (dkmp.Csdb.Store.set_value_for_key (join_key (lib_path u)) (some type) now db
        ≡ done (pos 0) db')
      × Learns db u db'
learn_new db u type now h p =
    let (db', e, w) = set_value-IsWritten db (lib_path u) (some type) now h.ready p in
    let here : (l : Text)
        → content db' (lib_path l)
          ≡ (if str_eq u l then some (some type, true) else content db (lib_path l)) =
      λ l. w.holds (lib_path l) ∙ lib_write l u type (content db (lib_path l)) in
    (
      db',
      e,
      record {
        after = record {
          ready = w.ready;
          libs = λ l.
              rw (here l) (written-IsLib (str_eq u l) type (content db (lib_path l)) (h.libs l));
        };
        known_after =
            λ l. ap exists (here l) ∙ exists-written (str_eq u l) type (content db (lib_path l));
      },
    )

same_lib : (l u : Text) → same_path (lib_path l) (lib_path u) ≡ str_eq u l
unfolding same_path str_eq
same_lib l u = and_true (str_eq u l)
  where
    and_true : (b : Bool) → (b && true) ≡ b
    and_true true = refl
    and_true false = refl

IsLib-extended :
    (b : Bool) (type : Text) (old : Content)
    → IsLib old
    → IsLib (if b then extended type (some space) old else old)
IsLib-extended false type old h = h
IsLib-extended true type none h = tt
IsLib-extended true type (some (some v, true)) h = tt
IsLib-extended true type (some (none, true)) h = absurd h
IsLib-extended true type (some (v, false)) h = absurd h

exists-extended :
    (b : Bool) (type : Text) (old : Content)
    → exists (if b then extended type (some space) old else old) ≡ exists old
exists-extended false type old = refl
exists-extended true type none = refl
exists-extended true type (some (none, l)) = refl
exists-extended true type (some (some v, l)) = refl

-- A library that is known stays known.
or_known : (db : Db) (u l : Text) → known db u ≡ true → known db l ≡ (str_eq u l || known db l)
or_known db u l h = elim (Bool-cases (str_eq u l)) [
  | inl same ↦ rw (same, ← str_eq→eq u l same) h
  | inr other ↦ rw other refl
]

learn_held :
    (db : Db) (u v type : Text) (now : ℕ)
    → LibsReady db
    → IsPath (lib_path u)
    → content db (lib_path u) ≡ some (some v, true)
    → (db' : Db) × (add_type (join_key (lib_path u)) type now (pos 0, some v) db ≡ done (pos 0) db')
      × Learns db u db'
learn_held db u v type now h p here = elim (Bool-cases (contains v type)) [
  | inl has ↦
      (db, rw has refl, record { after = h; known_after = λ l. or_known db u l (rw here refl) })
  | inr new ↦
      let (db', e, x) =
        append_value-IsExtended db (lib_path u) type (some space) now h.ready p (rw here refl) in
      let at : (l : Text)
          → content db' (lib_path l) ≡ (
              if str_eq u l
              then extended type (some space) (content db (lib_path l))
              else content db (lib_path l)) =
        λ l. rw⁻¹ (same_lib l u) (x.holds (lib_path l)) in
      (
        db',
        rw (new, e) refl,
        record {
          after = record {
            ready = x.ready;
            libs = λ l.
                rw (at l) (IsLib-extended (str_eq u l) type (content db (lib_path l)) (h.libs l));
          };
          known_after = λ l.
              ap exists (at l)
              ∙ exists-extended (str_eq u l) type (content db (lib_path l))
              ∙ or_known db u l (rw here refl);
        },
      )
]

module _ (db : Db) (name type : Text) (now : ℕ) (h : LibsReady db) (f : is_nil name ≡ false) where
  abbrev pub Scanned : Type 0
  Scanned =
      (db' : Db) × (scan_lib name type now db ≡ done (pos 0) db') × Learns db (underscored name) db'

  scan_lib_at : (c : Content) → content db (lib_path (underscored name)) ≡ c → IsLib c → Scanned
  unfolding scan_lib
  scan_lib_at none e k =
      let p = lib_key-IsPath name f in
      let (db', w, x) = learn_new db (underscored name) type now h p in
      (
        db',
        rw
            (
              key2_lem (underscored name),
              key_exist-content db (lib_path (underscored name)) h.ready p,
              e,
            )
            w,
        x,
      )
  scan_lib_at (some (v, false)) e k = absurd k
  scan_lib_at (some (none, true)) e k = absurd k
  scan_lib_at (some (some v, true)) e k =
      let p = lib_key-IsPath name f in
      let (db', w, x) = learn_held db (underscored name) v type now h p e in
      (
        db',
        rw
            (
              key2_lem (underscored name),
              key_exist-content db (lib_path (underscored name)) h.ready p,
              e,
              get_value-answer db (lib_path (underscored name)) h.ready p,
              e,
            )
            w,
        x,
      )

  pub scan_lib-Learns : Scanned
  scan_lib-Learns =
      scan_lib_at (content db (lib_path (underscored name))) refl (h.libs (underscored name))
