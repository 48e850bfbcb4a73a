-- ===== src/Tests/Libraries.antt =====
-- The theorems on what a node reads of itself, on one library and on one processor.
use dkmp.Base.{IsCString, ℕ, ◌≡◌, refl, [], ◌∷◌, pos, map, arith}
use dkmp.Csdb.Entry.{find_name}
use dkmp.Csdb.Paths.{look}
use dkmp.Csdb.Store.{Db, done}
use dkmp.Csc.{cap_to_exec}
use dkmp.Csc.Capable.{named_libs}
use dkmp.Csc.Listing.{scan_listing}
use dkmp.Csc.Listing.Learns.{LibsReady}
use dkmp.Csc.Listing.Known.{all_listed}
use dkmp.Csc.Listing.Printed.{Lib, line_of, AllLines, entry}
use dkmp.Csc.Listing.Answers.{listing, cap_to_exec-scan_listing}
use dkmp.Base.{some, none}
use dkmp.Csdb.Key.{count_delims}
use dkmp.Csdb.Key.Names.{IsName}
use dkmp.Csc.System.{Proc, set_dynamic_values}
use dkmp.Csc.System.OwnNode.{OnlyNode, set_dynamic_values-OnlyNode}
use dkmp.Base.{List, Text}
use dkmp.Csc.Mapped.{HasPadding}
use dkmp.Csd.Startup.{Surroundings}
use dkmp.Tests.{t_a, t_1, t_c, example_db, ready}

-- `a.b (1) > c`
abbrev lib_a : Lib
lib_a = record {
  name = b'a' ∷ b'.' ∷ b'b' ∷ [];
  type = b'(' ∷ b'1' ∷ b')' ∷ [];
  mark = b'>' ∷ [];
  path = t_c;
}

example-LibsReady : LibsReady example_db
unfolding look find_name dkmp.Base.str_eq
example-LibsReady = record { ready = ready; libs = λ l. tt }

-- Eleven characters.
lib_a-IsCString : IsCString (line_of lib_a)
lib_a-IsCString = (
  (λ e. omega arith),
  (
    (λ e. omega arith),
    (
      (λ e. omega arith),
      (
        (λ e. omega arith),
        (
          (λ e. omega arith),
          (
            (λ e. omega arith),
            (
              (λ e. omega arith),
              (
                (λ e. omega arith),
                ((λ e. omega arith), ((λ e. omega arith), ((λ e. omega arith), tt))),
              ),
            ),
          ),
        ),
      ),
    ),
  ),
)

padding_a : HasPadding (listing t_1 (lib_a ∷ []))
padding_a = refl

lines_a : AllLines (lib_a ∷ [])
lines_a = (
  record {
    name_word = (refl, (refl, (refl, tt)));
    name_starts = λ e. omega arith;
    type_word = (refl, (refl, (refl, tt)));
    type_filled = refl;
    mark_word = (refl, tt);
    mark_typed = refl;
    path_word = (refl, tt);
    path_filled = refl;
    clean = lib_a-IsCString;
    short = omega arith;
  },
  tt,
)

cap_to_exec-scan_listing_example :
    (db' : Db) × (scan_listing (listing t_1 (lib_a ∷ [])) 7 example_db ≡ done (pos 0) db')
    × LibsReady db'
    × (cap_to_exec t_a db'
        ≡ done (all_listed (map entry (lib_a ∷ [])) example_db (named_libs t_a)) db')
cap_to_exec-scan_listing_example =
    cap_to_exec-scan_listing example_db t_1 lib_a [] t_a 7 example-LibsReady (refl, tt) lines_a
      padding_a

named_a : IsName t_a
unfolding count_delims
named_a = refl

-- /proc/meminfo cannot be read, and there is one processor.
abbrev proc_a : Proc
proc_a = record {
  loadavg = none;
  uptime = some (t_1, t_c);
  meminfo = none;
  stat = some (
      some (record {
        cpuname = b'c' ∷ b'p' ∷ b'u' ∷ b'0' ∷ [];
        user = t_1;
        nice = t_1;
        sys = t_1;
        idle = t_1;
      })
      ∷ []);
}

set_dynamic_values-OnlyNode_example :
    (db' : Db) × (set_dynamic_values t_a proc_a 7 example_db ≡ done tt db')
    × OnlyNode t_a named_a example_db db'
set_dynamic_values-OnlyNode_example =
    set_dynamic_values-OnlyNode t_a named_a example_db proc_a 7 ready tt

abbrev around_a : Surroundings
around_a = record {
  hostname = t_a;
  listing = listing t_1 (lib_a ∷ []);
  listed = λ app. t_c ∷ [];
  proc = proc_a;
  def_db_req = some t_1;
  reg_apps = some t_a;
}
