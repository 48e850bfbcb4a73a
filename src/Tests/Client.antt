-- ===== src/Tests/Client.antt =====
-- The theorem on the command line client on a small database.
use dkmp.Base.{◌≡◌, refl, true, arith}
use dkmp.Csdb.Store.{Db}
use dkmp.Csdb.Written.{IsWritten}
use dkmp.Base.{some}
use dkmp.Csm.{Client, fresh, csd_cli}
use dkmp.Csm.Session.{set_get_typed, set_get_shown, csd_cli-set_get}
use dkmp.Csm.Turns.{daemon, IsTypedKey, IsTypedValue}
use dkmp.Tests.{t_2, path_ab, example_db, ready, IsPath-ab, Fits-ab}

abbrev client : Client
client = record fresh { has_data = true }

typed_key : IsTypedKey path_ab
typed_key = record {
  path = IsPath-ab;
  fits = Fits-ab;
  one_word = (refl, (refl, (refl, (refl, tt))));
}

typed_value : IsTypedValue t_2
typed_value = record {
  typed = refl;
  fits = record { filled = omega arith; short = omega arith; clean = ((λ e. omega arith), tt) };
  one_line = (refl, tt);
}

csd_cli-set_get_example :
    (db' : Db) × IsWritten example_db path_ab (some t_2) db'
    × (csd_cli (daemon 7) (set_get_typed path_ab t_2) client example_db
        ≡ set_get_shown true t_2 db')
csd_cli-set_get_example =
    csd_cli-set_get example_db client path_ab t_2 7 ready typed_key typed_value (omega arith)
