-- ===== src/Tests/Database.antt =====
-- The theorems on src/csd/csdb.c on a small database.
use dkmp.Base.{
  IsCString, arith, ◌≡◌, refl, inl, true, false, not, ◌&&◌, none, some, [], ◌∷◌, pos, str_eq,
}
use dkmp.Csdb.Key.Names.{join_key}
use dkmp.Csdb.Entry.{
  null, node, dot, set_path, set_name, set_value, append_child, update_first, create_entry,
  find_name,
}
use dkmp.Csdb.Unique.{begins_with}
use dkmp.Csdb.Store.{
  Db, done, deadlock, ◌>>◌, key_exist, get_value_for_key, set_value_for_key, remove_from_key,
  append_value_for_key, init, lock, unlock, update_root,
}
use dkmp.Csdb.Values.{Ready, content, exists}
use dkmp.Csdb.Written.{IsWritten, IsRemoved, set_value-rerooted}
use dkmp.Csdb.Appending.{IsExtended, append_value-IsExtended}
use dkmp.Csdb.Contract.{get_value-set_value, key_exist-remove, get_value-keeps_lock}
use dkmp.Csdb.Reach.{Reach, initial, next, set, Reach-Ready}
use dkmp.Base.{Text, List}
use dkmp.Csdb.Entry.{childs_of}
use dkmp.Csdb.Key.{count_delims}
use dkmp.Csc.{dump_db_to_file, read_db_from_file}
use dkmp.Csc.Mapped.{HasPadding}
use dkmp.Csdb.Entry.{list_parents_names}
use dkmp.Csc.Dump.{leaves}
use dkmp.Csc.Dump.Leaves.{first_of}
use dkmp.Csc.Dump.Lines.{CleanName, CleanEntries}
use dkmp.Csc.Dump.RoundTrip.{dumped, read_db-dump_db}
use dkmp.Csdb.Stored.{stored}
use dkmp.Tests.{
  t_a, t_b, t_1, t_2, path_ab, path_c, path_d, example_db, ready, IsPath-ab, IsPath-c, IsPath-d,
  content_ab, content_d,
}

get_value-set_value_example :
    (db' : Db) × ((set_value_for_key (join_key path_ab) (some t_2) 7
          >> get_value_for_key (join_key path_ab))
        example_db
      ≡ done (pos 0, some t_2) db')
    × IsWritten example_db path_ab (some t_2) db'
get_value-set_value_example = get_value-set_value example_db path_ab t_2 7 ready IsPath-ab

there_ab : exists (content example_db path_ab) ≡ true
there_ab = rw content_ab refl

key_exist-remove_example :
    (db' : Db) × ((remove_from_key (join_key path_ab) >> key_exist (join_key path_c)) example_db
      ≡ done (not (begins_with path_c path_ab) && exists (content example_db path_c)) db')
    × IsRemoved example_db path_ab db'
key_exist-remove_example =
    key_exist-remove example_db path_ab path_c ready IsPath-ab IsPath-c there_ab

append_value-IsExtended_example :
    (db' : Db) × (append_value_for_key (join_key path_ab) (some t_2) (some (b' ' ∷ [])) 7 example_db
      ≡ done (pos 0) db')
    × IsExtended example_db path_ab t_2 (some (b' ' ∷ [])) db'
append_value-IsExtended_example =
    append_value-IsExtended example_db path_ab t_2 (some (b' ' ∷ [])) 7 ready IsPath-ab
      (rw content_ab refl)

get_value-keeps_lock_example :
    ((get_value_for_key (join_key path_d) >> set_value_for_key (join_key path_ab) (some t_1) 7)
        example_db
      ≡ deadlock)
    × ((get_value_for_key (join_key path_d) >> remove_from_key (join_key path_ab)) example_db
        ≡ deadlock)
    × ((get_value_for_key (join_key path_d) >> get_value_for_key (join_key path_ab)) example_db
        ≡ deadlock)
get_value-keeps_lock_example =
    get_value-keeps_lock example_db path_d path_ab (some t_1) 7 ready IsPath-d IsPath-ab
      (inl content_d)

abbrev fresh_db : Db
fresh_db = record { root = create_entry dot none 5; locked = false }

abbrev before_init : Db
before_init = record { root = create_entry dot none 0; locked = false }

fresh_reached : Reach 5 fresh_db
unfolding init lock unlock update_root
fresh_reached = initial before_init refl refl

fresh-Ready : Ready fresh_db
unfolding create_entry find_name
fresh-Ready = record { rooted = refl; free = refl; unique = (refl, tt, tt) }

abbrev written_db : Db
written_db = record {
  root =
      node dot none false 5 (node t_a none false 6 (node t_b (some t_1) true 6 null null) null)
        null;
  locked = false;
}

write_fresh : set_value_for_key (join_key path_ab) (some t_1) 6 fresh_db ≡ done (pos 0) written_db
unfolding set_path create_entry set_name set_value find_name append_child update_first str_eq
write_fresh = set_value-rerooted fresh_db path_ab (some t_1) 6 fresh-Ready IsPath-ab

Reach-Ready_example : Ready written_db
Reach-Ready_example =
    Reach-Ready 5 (next fresh_reached (set path_ab (some t_1) 6 IsPath-ab write_fresh))

clean_a : CleanName t_a
unfolding count_delims
clean_a = record { name = refl; filled = refl; one_line = (refl, tt); no_sign = (refl, tt) }

clean_b : CleanName t_b
unfolding count_delims
clean_b = record { name = refl; filled = refl; one_line = (refl, tt); no_sign = (refl, tt) }

clean_c : CleanName (b'c' ∷ [])
unfolding count_delims
clean_c = record { name = refl; filled = refl; one_line = (refl, tt); no_sign = (refl, tt) }

clean_entries : CleanEntries (childs_of example_db.root)
clean_entries = (
  clean_a,
  (λ e. cc e),
  (clean_b, (λ e. (refl, tt)), tt, tt),
  (clean_c, (λ e. (refl, tt)), tt, tt),
)

-- The dump is ".a.b=1" and ".c=2" with a newline behind each.
dumped_text : IsCString (dumped example_db)
unfolding leaves list_parents_names
dumped_text = (
  (λ e. omega arith),
  (
    (λ e. omega arith),
    (
      (λ e. omega arith),
      (
        (λ e. omega arith),
        (
          (λ e. omega arith),
          (
            (λ e. omega arith),
            (
              (λ e. omega arith),
              (
                (λ e. omega arith),
                (
                  (λ e. omega arith),
                  ((λ e. omega arith), ((λ e. omega arith), ((λ e. omega arith), tt))),
                ),
              ),
            ),
          ),
        ),
      ),
    ),
  ),
)

dumped_padding : HasPadding (dumped example_db)
unfolding leaves list_parents_names
dumped_padding = refl

read_db-dump_db_example :
    (file : Text) × (db' : Db) × (dump_db_to_file true dot example_db
      ≡ done (pos 0, some file) example_db)
    × (read_db_from_file (some file) 7 fresh_db ≡ done (pos 0) db')
    × Ready db'
    × ((n : Text) (ns : List Text)
        → stored db' (n ∷ ns) ≡ first_of (stored example_db (n ∷ ns)) (stored fresh_db (n ∷ ns)))
read_db-dump_db_example =
    read_db-dump_db example_db fresh_db 7 ready clean_entries dumped_text dumped_padding fresh-Ready
