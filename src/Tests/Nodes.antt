-- ===== src/Tests/Nodes.antt =====
-- The choice of a node on a database with two nodes that are alive.
use dkmp.Base.{
  ℕ, ◌≡◌, refl, true, false, Option, none, some, [], ◌∷◌, Text, str_eq, if◌then◌else◌, ◌<◌, length,
  pos, arith, IsCString,
}
use dkmp.Csdb.Key.{count_delims}
use dkmp.Csdb.Entry.{Csdbe, null, node, dot, find_name}
use dkmp.Csdb.Paths.{look}
use dkmp.Csdb.Store.{Db, done}
use dkmp.Csdb.Values.{Ready, content}
use dkmp.Csc.{is_space, strtok, cut}
use dkmp.Csc.Names.{
  alive_name, app_name, node_name, load_name, avg1_name, avg5_name, avg15_name, capnodes_name,
}
use dkmp.Csda.{status_of, best_node_for_app}
use dkmp.Csda.Choice.{Result}
use dkmp.Csda.Best.{alive_here, good_here, Loaded, best_node-Result}
use dkmp.Csda.Server.{Server}
use dkmp.Ikcd.BestNode
use dkmp.Ikcd.BestNode.{request_text}
use dkmp.Ikcd.BestNode.Served.{ask_csd, chosen, best_node-served}
use dkmp.Tests.{t_a, t_b, t_c, t_1, t_2}

abbrev leaf_of : (name value : Text) → Csdbe → Csdbe
leaf_of n v others = node n (some v) true 0 null others

abbrev loads_of : (value : Text) → Csdbe
loads_of v =
    node load_name none false 0
      (leaf_of avg1_name v (leaf_of avg5_name v (leaf_of avg15_name v null))) null

-- "b" has the load "2" and "c" the load "1"; "a" can run on both.
abbrev two_nodes : Db
two_nodes = record {
  root =
      node dot none false 0
        (node alive_name none false 0 (node t_b none false 0 null (node t_c none false 0 null null))
          (node node_name none false 0
            (node t_b none false 0 (loads_of t_2) (node t_c none false 0 (loads_of t_1) null))
            (node app_name none false 0
              (node t_a none false 0 (leaf_of capnodes_name (b'b' ∷ b' ' ∷ b'c' ∷ []) null) null)
              null)))
        null;
  locked = false;
}

abbrev load_here : Text → Text
load_here n = if str_eq n t_b then t_2 else t_1

-- The lower the load, the better.
abbrev less_load : (load1 load5 load15 : Text) → ℕ
less_load a b c = if str_eq a t_1 then 70 else 30

two_nodes-Ready : Ready two_nodes
unfolding find_name str_eq
two_nodes-Ready = record {
  rooted = refl;
  free = refl;
  unique = (
    refl,
    (
      refl,
      (refl, tt, (refl, tt, tt)),
      (
        refl,
        (
          refl,
          (refl, (refl, tt, (refl, tt, (refl, tt, tt))), tt),
          (refl, (refl, (refl, tt, (refl, tt, (refl, tt, tt))), tt), tt),
        ),
        (refl, (refl, (refl, tt, tt), tt), tt),
      ),
    ),
    tt,
  );
}

both-Loaded : Loaded two_nodes less_load load_here load_here load_here (t_b ∷ t_c ∷ [])
unfolding look find_name str_eq
both-Loaded = ((λ _. (refl, refl, refl)), ((λ _. (refl, refl, refl)), tt))

both_nodes : strtok is_space (b'b' ∷ b' ' ∷ b'c' ∷ []) ≡ t_b ∷ t_c ∷ []
unfolding strtok cut
both_nodes = refl

capnodes_here :
    content two_nodes (app_name ∷ t_a ∷ capnodes_name ∷ [])
    ≡ some (some (b'b' ∷ b' ' ∷ b'c' ∷ []), true)
unfolding look find_name str_eq
capnodes_here = refl

best_node-Result_example :
    (p : Option ℕ × Text) × (best_node_for_app less_load (λ b. 0) t_a [] two_nodes
      ≡ done (status_of less_load (λ b. 0) p) two_nodes)
    × Result
        (alive_here two_nodes less_load load_here load_here load_here)
        (good_here two_nodes less_load load_here load_here load_here)
        (strtok is_space (b'b' ∷ b' ' ∷ b'c' ∷ []))
        (none, [])
        p
unfolding count_delims strtok cut
best_node-Result_example =
    best_node-Result two_nodes less_load load_here load_here load_here (λ b. 0) t_a
      (b'b' ∷ b' ' ∷ b'c' ∷ []) [] two_nodes-Ready refl capnodes_here refl both-Loaded

abbrev idle_server : Server
idle_server = record { client_id = pos 0; app_name = []; best_node = [] }

-- "b c" does not hold a 0, nor do the names and the message.
nodes-IsCString : IsCString (b'b' ∷ b' ' ∷ b'c' ∷ [])
nodes-IsCString = ((λ e. omega arith), ((λ e. omega arith), ((λ e. omega arith), tt)))

a-IsCString : IsCString t_a
a-IsCString = ((λ e. omega arith), tt)

message : request_text (pos 3) t_a ≡ b'3' ∷ b' ' ∷ t_a
unfolding request_text dkmp.Csc.System.digits
message = refl

message-IsCString : IsCString (request_text (pos 3) t_a)
message-IsCString = rw message ((λ e. omega arith), ((λ e. omega arith), ((λ e. omega arith), tt)))

message-short : length (request_text (pos 3) t_a) < 257
message-short = rw message (omega arith)

best_node-served_example :
    (p : Option ℕ × Text) × (BestNode.best_node_for_app
        (pos 1)
        (pos 3)
        (ask_csd less_load (λ b. 0) t_a (pos 3))
        t_c
        t_a
        (record { server = idle_server; db = two_nodes })
      ≡ some (
        pos 0,
        chosen t_a p,
        record {
          server = record { client_id = pos 3; app_name = t_a; best_node = chosen t_a p };
          db = two_nodes;
        },
      ))
    × Result
        (alive_here two_nodes less_load load_here load_here load_here)
        (good_here two_nodes less_load load_here load_here load_here)
        (strtok is_space (b'b' ∷ b' ' ∷ b'c' ∷ []))
        (none, [])
        p
unfolding count_delims strtok cut
best_node-served_example =
    best_node-served two_nodes less_load load_here load_here load_here (λ b. 0) t_a t_c
      (b'b' ∷ b' ' ∷ b'c' ∷ []) 1 3 b'a' [] idle_server two_nodes-Ready refl capnodes_here refl
      both-Loaded a-IsCString nodes-IsCString refl (refl, tt) message-IsCString message-short
