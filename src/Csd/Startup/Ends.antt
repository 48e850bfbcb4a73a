-- ===== src/Csd/Startup/Ends.antt =====
-- The start of the daemon of src/csd/csd.c ends, and with a database that its threads can use.
use dkmp.Base.{ℕ, ◌≡◌, false, Option, none, some, Text}
use dkmp.Csdb.Key.Names.{IsName}
use dkmp.Csdb.Entry.{dot, create_entry}
use dkmp.Csdb.Store.{Db, done, Op}
use dkmp.Csdb.Values.{Ready}

-- An operation that ends on every ready database, and leaves it ready.
pub record Ends {A : Type 0} (op : Op A) : Type 0 where
  pub runs : (db : Db) → Ready db → (a : A) × (db' : Db) × (op db ≡ done a db') × Ready db'

-- No name in the file holds a '.'.
abbrev pub IsAppsFile : Option Text → Type 0
IsAppsFile none = Unit
IsAppsFile (some file) = IsName file

abbrev fresh_root : ℕ → Db
fresh_root now = record { root = create_entry dot none now; locked = false }
