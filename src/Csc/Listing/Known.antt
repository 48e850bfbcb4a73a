-- ===== src/Csc/Listing/Known.antt =====
-- What the listing of the dynamic linker makes known: `csc_scan_libs` and then `csc_cap_to_exec` of
-- src/csd/csc.c.
use dkmp.Base.{
  ℕ, ◌≡◌, refl, ap, ◌∙◌, Bool, true, false, ◌&&◌, ◌||◌, List, [], ◌∷◌, Text, str_eq, pos,
}
use dkmp.Csdb.Key.Names.{is_nil}
use dkmp.Csdb.Store.{Db, done}
use dkmp.Csc.{underscored, scan_libs}
use dkmp.Csc.Capable.{known_libs}
use dkmp.Csc.Listing.Learns.{LibsReady, known, scan_lib-Learns}

-- A line that has been read: the name and the type.
abbrev pub AllNamed : List (Text × Text) → Type 0
AllNamed [] = Unit
AllNamed (l ∷ ls) = (is_nil l.0 ≡ false) × AllNamed ls

-- Whether a library is in a listing, with underscores for points.
unfoldable pub listed : List (Text × Text) → Text → Bool
listed [] l = false
listed ((name, type) ∷ ls) l = listed ls l || str_eq (underscored name) l

pub scan_libs-known :
    (db : Db) (ls : List (Text × Text)) (now : ℕ)
    → LibsReady db
    → AllNamed ls
    → (db' : Db) × (scan_libs ls now db ≡ done (pos 0) db')
      × LibsReady db'
      × ((l : Text) → known db' l ≡ (listed ls l || known db l))
unfolding scan_libs listed
scan_libs-known db [] now h k = (db, refl, h, λ l. refl)
scan_libs-known db ((name, type) ∷ ls) now h k =
    let (db1, e1, x) = scan_lib-Learns db name type now h k.0 in
    let (db2, e2, h2, more) = scan_libs-known db1 ls now x.after k.1 in
    (
      db2,
      rw (e1, e2) refl,
      h2,
      λ l.
          more l
          ∙ ap (λ b. listed ls l || b) (x.known_after l)
          ∙ or_assoc (listed ls l) (str_eq (underscored name) l) (known db l),
    )
  where
    or_assoc : (a b c : Bool) → (a || (b || c)) ≡ ((a || b) || c)
    or_assoc true b c = refl
    or_assoc false b c = refl

-- Whether all libraries are in a listing or known before.
unfoldable pub all_listed : List (Text × Text) → Db → List Text → Bool
all_listed ls db [] = true
all_listed ls db (l ∷ libs) = (listed ls l || known db l) && all_listed ls db libs

pub known_libs-listed :
    (ls : List (Text × Text)) (db db' : Db) (libs : List Text)
    → ((l : Text) → known db' l ≡ (listed ls l || known db l))
    → known_libs db' libs ≡ all_listed ls db libs
unfolding known_libs all_listed
known_libs-listed ls db db' [] h = refl
known_libs-listed ls db db' (l ∷ libs) h = rw (h l, known_libs-listed ls db db' libs h) refl
