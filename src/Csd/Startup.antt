-- ===== src/Csd/Startup.antt =====
-- The start of the daemon: `main` of src/csd/csd.c up to its threads.
pub mod Ends
use dkmp.Base.{ℕ, Option, none, some, List, Text, ℤ}
use dkmp.Csdb.Store.{Op, ◌>>=◌, ◌>>◌, pure, init}
use dkmp.Csc.{read_default_db_requests_from_file, read_registered_apps_from_file}
use dkmp.Csc.Listing.{scan_listing}
use dkmp.Csc.System.{Proc, set_dynamic_values}

-- What the daemon finds: the name of its node, the dynamic linker's listing and what it lists for an
-- application, /proc, and the files with the default requests and the registered applications.
pub record Surroundings : Type 0 where
  pub hostname : Text
  pub listing : Text
  pub listed : Text → List Text
  pub proc : Proc
  pub def_db_req : Option Text
  pub reg_apps : Option Text

-- Without the file of the default requests the daemon exits.
abbrev pub unless_exit : Option ℤ → Op ℤ → Op (Option ℤ)
unless_exit none next = pure none
unless_exit (some status) next = do r ← next; pure (some r)

unfoldable pub startup : Surroundings → (now : ℕ) → Op (Option ℤ)
startup s now = do
  init now
  scan_listing s.listing now
  set_dynamic_values s.hostname s.proc now
  opened ← read_default_db_requests_from_file s.def_db_req now
  unless_exit opened (read_registered_apps_from_file s.listed s.reg_apps now)
