-- ===== src/Tests/Daemon.antt =====
-- The theorems on the daemon of src/csd on a small database.
use dkmp.Base.{
  str_eq, none, false, Option, List, ℤ, ℕ, ◌≡◌, refl, ◌++◌, true, some, [], ◌∷◌, Text, pos, negsuc,
  Bytes, arith,
}
use dkmp.Csdb.Key.{count_delims, parse_key, check_key, is_valid_key, scan}
use dkmp.Csdb.Entry.{null, node, dot, find_name, find_child, walk, names_of, spaced}
use dkmp.Csdb.Paths.{look}
use dkmp.Csdb.Store.{
  get_child_names_for_key, get_entry, get_entry_parsed, child_names, Db, done, ◌>>◌,
}
use dkmp.Csdb.Values.{Ready, content}
use dkmp.Csdb.Written.{IsWritten}
use dkmp.Csp.{resp_succ, resp_wdata, pack_hello_packet, unpack_resp_packet}
use dkmp.Csc.{
  cut, underscored, names_text, update_cap_nodes_for_app, is_space, strtok, cap_to_exec,
  node_is_alive,
}
use dkmp.Csc.Names.{alive_name, app_name, lib_name, loadavg1_name, loadavg5_name, loadavg15_name}
use dkmp.Csc.Nodes.{capable, recorded, app_nodes, update_cap_nodes-capable}
use dkmp.Csc.Words.{behind_spaces}
use dkmp.Csc.Capable.{app_libs, known_libs, named_libs, cap_to_exec-known_libs, Listed}
use dkmp.Csc.System.{LoadAvg, set_load}
use dkmp.Csd.Rounds.{receive-hello_round}
use dkmp.Csd.{hello_round, sends, nothing, receive_packet, do_cap_request_for_node}
use dkmp.Csd.Serve.{set_request, get_request, receive_get-receive_set}
use dkmp.Csd.Hello.{Carried, alive_load, receive-pack_hello}
use dkmp.Csd.Capability.{network, one_if, do_cap_request-known_libs}
use dkmp.Tests.{t_a, t_b, t_c, t_1, t_2, path_ab, example_db, ready, IsPath-ab, Fits-ab, Fits-1}

receive_get-receive_set_example :
    (db' : Db) × (answer_bytes : Bytes) × ((receive_packet (set_request path_ab t_1 ++ 9 ∷ []) 7
          >> receive_packet (get_request path_ab ++ 9 ∷ []) 7)
        example_db
      ≡ done (sends answer_bytes) db')
    × IsWritten example_db path_ab (some t_1) db'
    × ((b : ℕ) (rest : Bytes)
        → unpack_resp_packet (answer_bytes ++ b ∷ rest) ≡ some (resp_wdata, resp_succ, some t_1))
receive_get-receive_set_example =
    receive_get-receive_set example_db path_ab t_1 7 (9 ∷ []) (9 ∷ []) ready IsPath-ab Fits-ab
      Fits-1 (omega arith)

Carried-a : Carried t_a
Carried-a = record { short = omega arith; clean = ((λ e. omega arith), tt) }

Carried-1 : Carried t_1
Carried-1 = record { short = omega arith; clean = ((λ e. omega arith), tt) }

Carried-2 : Carried t_2
Carried-2 = record { short = omega arith; clean = ((λ e. omega arith), tt) }

receive-pack_hello_example :
    (db' : Db) × (receive_packet
        ((pack_hello_packet t_a (some t_1) (some t_2) (some t_1)).1 ++ 9 ∷ [])
        7
        example_db
      ≡ done nothing db')
    × Ready db'
    × (content db' (alive_load t_a loadavg1_name) ≡ some (some t_1, true))
    × (content db' (alive_load t_a loadavg5_name) ≡ some (some t_2, true))
    × (content db' (alive_load t_a loadavg15_name) ≡ some (some t_1, true))
    × (node_is_alive t_a db' ≡ done true db')
unfolding count_delims
receive-pack_hello_example =
    receive-pack_hello example_db t_a t_1 t_2 t_1 (9 ∷ []) 7 ready refl refl Carried-a Carried-1
      Carried-2 Carried-1

-- "a b", of which no library is known here.
abbrev two_libs : Text
two_libs = b'a' ∷ b' ' ∷ b'b' ∷ []

cap_to_exec-known_libs_example :
    cap_to_exec two_libs example_db ≡ done (known_libs example_db (named_libs two_libs)) example_db
cap_to_exec-known_libs_example = cap_to_exec-known_libs example_db two_libs ready

do_cap_request-known_libs_example :
    do_cap_request_for_node (negsuc 7) (network example_db 7) t_a two_libs example_db
    ≡ done (pos (one_if (known_libs example_db (named_libs two_libs)))) example_db
do_cap_request-known_libs_example =
    do_cap_request-known_libs example_db example_db (negsuc 7) t_a two_libs 7 ready (omega arith)
      ((λ e. omega arith), ((λ e. omega arith), ((λ e. omega arith), tt)))

-- "b" and "a/c", as the dynamic linker lists them.
abbrev linked : List Listed
linked = (none, t_b) ∷ (some t_a, t_c) ∷ []

-- A node that knows the library "b".
abbrev remote_db : Db
remote_db = record {
  root =
      node dot none false 0 (node lib_name none false 0 (node t_b (some t_1) true 0 null null) null)
        null;
  locked = false;
}

remote-Ready : Ready remote_db
unfolding find_name
remote-Ready = record {
  rooted = refl;
  free = refl;
  unique = (refl, (refl, (refl, tt, tt), tt), tt);
}

-- Here the application "a" needs "b", and the node "c" is alive.
abbrev apps_db : Db
apps_db = record {
  root =
      node dot none false 0
        (node app_name none false 0
          (node t_a none false 0 (node lib_name (some t_b) true 0 null null) null)
          (node alive_name none false 0 (node t_c none false 0 null null) null))
        null;
  locked = false;
}

apps-Ready : Ready apps_db
unfolding find_name str_eq
apps-Ready = record {
  rooted = refl;
  free = refl;
  unique = (refl, (refl, (refl, (refl, tt, tt), tt), (refl, (refl, tt, tt), tt)), tt);
}

abbrev say : Text → ℤ
say n = pos (one_if (known_libs remote_db (named_libs t_b)))

says_so :
    (n : Text) (db : Db)
    → do_cap_request_for_node (negsuc 7) (network remote_db 7) n t_b db ≡ done (say n) db
says_so n db =
    do_cap_request-known_libs db remote_db (negsuc 7) n t_b 7 remote-Ready (omega arith)
      ((λ e. omega arith), tt)

abbrev alive_names : Option (ℕ × List Text × Text)
alive_names = some (1, t_c ∷ [], t_c ++ b' ' ∷ [])

apps_known : content apps_db (app_libs t_a) ≡ some (some t_b, true)
unfolding look find_name str_eq
apps_known = refl

apps_alive : get_child_names_for_key (b'.' ∷ alive_name) apps_db ≡ done alive_names apps_db
unfolding get_child_names_for_key get_entry get_entry_parsed parse_key check_key count_delims
    is_valid_key scan walk find_child find_name child_names names_of spaced str_eq
apps_alive = refl

update_cap_nodes-capable_example :
    (db' : Db) × (update_cap_nodes_for_app
        (do_cap_request_for_node (negsuc 7) (network remote_db 7))
        t_a
        9
        apps_db
      ≡ done (pos 0) db')
    × Ready db'
    × (content db' (app_nodes t_a)
        ≡ recorded (capable say (strtok is_space (names_text alive_names))))
unfolding count_delims
update_cap_nodes-capable_example =
    update_cap_nodes-capable (do_cap_request_for_node (negsuc 7) (network remote_db 7)) say t_b
      says_so apps_db t_a alive_names 9 apps-Ready refl apps_known apps_alive

node_found :
    recorded (capable say (strtok is_space (names_text alive_names))) ≡ some (some t_c, true)
unfolding capable strtok cut known_libs underscored look find_name str_eq behind_spaces
node_found = refl

abbrev loads : LoadAvg
loads = record { avg1 = t_1; avg5 = t_2; avg15 = t_1; run = t_1; nop = t_2; pid = t_2 }

receive-hello_round_example :
    (db' : Db) × (sent : Bytes) × (remote' : Db) × ((set_load t_a (some loads) 7 >> hello_round t_a)
        example_db
      ≡ done (some sent) db')
    × (receive_packet (sent ++ 9 ∷ []) 8 remote_db ≡ done nothing remote')
    × (content remote' (alive_load t_a loadavg1_name) ≡ some (some t_1, true))
    × (content remote' (alive_load t_a loadavg5_name) ≡ some (some t_2, true))
    × (content remote' (alive_load t_a loadavg15_name) ≡ some (some t_1, true))
    × (node_is_alive t_a remote' ≡ done true remote')
unfolding count_delims
receive-hello_round_example =
    receive-hello_round example_db remote_db t_a loads (9 ∷ []) 7 8 ready remote-Ready refl refl
      Carried-a Carried-1 Carried-2 Carried-1
