-- ===== src/Tests/Copy.antt =====
-- The theorems on the default requests on two nodes.
use dkmp.Base.{ℕ, suc, ◌≡◌, refl, true, false, none, some, List, [], ◌∷◌, Text, pos, map, arith}
use dkmp.Csdb.Key.{check_key, is_valid_key, count_delims, scan, parse_key}
use dkmp.Csdb.Key.Names.{join_key}
use dkmp.Csdb.Entry.{null, node, dot, find_name, find_child, walk, names_of, spaced}
use dkmp.Csdb.Paths.{look}
use dkmp.Csdb.Store.{Db, done, get_entry, get_entry_parsed, child_names, get_child_names_for_key}
use dkmp.Csdb.Values.{Ready, content}
use dkmp.Csc.{cut, strtok, is_space}
use dkmp.Csc.Names.{alive_name, node_name, config_name, def_db_req_name}
use dkmp.Csd.Copy.{node_path, IsServed}
use dkmp.Csd.Copy.Nodes.{lan, Nearer, NodesServed, NodesAgree, do_def_req-agrees}
use dkmp.Csd.Update.{do_def_req_for_alive_nodes}
use dkmp.Tests.{t_a, t_b, t_c, t_1, t_2}

-- Nodes a and b are alive, and `.c` is asked of each.
abbrev local_db : Db
local_db = record {
  root =
      node dot none false 0
        (node alive_name none false 0
          (node t_a (some t_1) true 0 null (node t_b (some t_1) true 0 null null))
          (node config_name none false 0 (node def_db_req_name (some (b'.' ∷ t_c)) true 0 null null)
            null))
        null;
  locked = false;
}

abbrev node_db : Db
node_db = record {
  root =
      node dot none false 0
        (node node_name none false 0
          (node t_b none false 0 (node t_c (some t_2) true 0 null null) null) null)
        null;
  locked = false;
}

local-Ready : Ready local_db
unfolding find_name dkmp.Base.str_eq
local-Ready = record {
  rooted = refl;
  free = refl;
  unique = (refl, (refl, (refl, tt, (refl, tt, tt)), (refl, (refl, tt, tt), tt)), tt);
}

node-Ready : Ready node_db
unfolding find_name dkmp.Base.str_eq
node-Ready = record {
  rooted = refl;
  free = refl;
  unique = (refl, (refl, (refl, (refl, tt, tt), tt), tt), tt);
}

alive_nodes :
    get_child_names_for_key (b'.' ∷ alive_name) local_db
    ≡ done (some (2, t_a ∷ t_b ∷ [], spaced (t_a ∷ t_b ∷ []))) local_db
unfolding get_child_names_for_key get_entry get_entry_parsed child_names parse_key check_key
    is_valid_key count_delims scan walk find_child find_name names_of spaced dkmp.Base.str_eq
alive_nodes = refl

requests : content local_db (config_name ∷ def_db_req_name ∷ []) ≡ some (some (b'.' ∷ t_c), true)
unfolding look find_name dkmp.Base.str_eq
requests = refl

words : strtok is_space (b'.' ∷ t_c) ≡ map join_key ((t_c ∷ []) ∷ [])
unfolding strtok cut
words = refl

c-IsServed : IsServed node_db (node_path t_b (t_c ∷ [])) t_2
unfolding look find_name count_delims dkmp.Base.str_eq
c-IsServed = record {
  ready = node-Ready;
  path = record { all_names = (refl, (refl, (refl, tt))); filled = refl };
  key = record {
    filled = omega arith;
    short = omega arith;
    clean = (
      (λ e. omega arith),
      (
        (λ e. omega arith),
        (
          (λ e. omega arith),
          (
            (λ e. omega arith),
            (
              (λ e. omega arith),
              (
                (λ e. omega arith),
                ((λ e. omega arith), ((λ e. omega arith), ((λ e. omega arith), tt))),
              ),
            ),
          ),
        ),
      ),
    );
  };
  key_short = omega arith;
  here = refl;
  short = omega arith;
  clean = ((λ e. omega arith), tt);
}

served : NodesServed (λ n. node_db) 0 t_a (t_a ∷ t_b ∷ []) ((t_c ∷ []) ∷ [])
unfolding dkmp.Base.str_eq
served = (tt, ((t_2, c-IsServed, tt), tt))

do_def_req-agrees_example :
    (db' : Db) × (do_def_req_for_alive_nodes (lan (λ n. node_db) 0) t_a 7 local_db
      ≡ done (pos 0) db')
    × Nearer (λ n. node_db) 0 local_db db'
    × NodesAgree (λ n. node_db) 0 db' t_a (t_a ∷ t_b ∷ []) ((t_c ∷ []) ∷ [])
do_def_req-agrees_example =
    do_def_req-agrees (λ n. node_db) 0 local_db t_a 1 (t_a ∷ t_b ∷ []) (spaced (t_a ∷ t_b ∷ []))
      (b'.' ∷ t_c) ((t_c ∷ []) ∷ []) 7 local-Ready alive_nodes requests words served
