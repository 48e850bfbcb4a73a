-- ===== src/Csd/Update.antt =====
-- The rounds of `cs_update_db` of src/csd/csd.c, with `csc_do_def_req_for_alive_nodes` of
-- src/csd/csc.c. `this_hostname` is what `getenv` gives, `send` the network, and `now` what `time`
-- returns during a round.
use dkmp.Base.{
  ℕ, zero, suc, Option, none, some, List, [], ◌∷◌, if◌then◌else◌, Text, str_eq, ℤ, pos, negsuc,
  Bytes,
}
use dkmp.Csdb.Store.{Op, ◌>>=◌, ◌>>◌, pure, crashes, get_value_for_key, get_child_names_for_key}
use dkmp.Csc.{key2, is_space, strtok, update_cap_nodes_for_apps}
use dkmp.Csc.Names.{alive_name, config_name, def_db_req_name}
use dkmp.Csc.System.{Proc, set_dynamic_values}
use dkmp.Csd.{Exchange, do_requests, do_cap_request_for_node}

module _ (send : (node : Text) → Bytes → Exchange) (this_hostname : Text) where
  -- The loop over the nodes: the requests are made to all but this one.
  unfoldable pub do_nodes : (requests : List Text) → List Text → (now : ℕ) → Op (Unit {0})
  do_nodes requests [] now = pure tt
  do_nodes requests (n ∷ ns) now = do
    if str_eq this_hostname n then pure tt else do_requests send n requests now
    do_nodes requests ns now

  abbrev pub for_requests : List Text → (now : ℕ) → ℤ × Option Text → Op ℤ
  for_requests nodes now (negsuc _, _) = pure (negsuc 0)
  for_requests nodes now (pos _, none) = λ db. crashes
  for_requests nodes now (pos _, some req_str) = do
    do_nodes (strtok is_space req_str) nodes now
    pure (pos 0)

  abbrev pub for_nodes : Option (ℕ × List Text × Text) → (now : ℕ) → Op ℤ
  for_nodes none now = pure (negsuc 0)
  for_nodes (some (zero, nodes, t)) now = pure (negsuc 0)
  for_nodes (some (suc n, nodes, t)) now = do
    found ← get_value_for_key (key2 config_name def_db_req_name)
    for_requests nodes now found

  unfoldable pub do_def_req_for_alive_nodes : (now : ℕ) → Op ℤ
  do_def_req_for_alive_nodes now = do
    alive ← get_child_names_for_key (b'.' ∷ alive_name)
    for_nodes alive now

  -- `proc` is what /proc says in this round, and `garbage` what a capability request without a
  -- proper answer returns.
  unfoldable pub update_round : (garbage : ℤ) → Proc → (now : ℕ) → Op (Unit {0})
  update_round garbage proc now = do
    set_dynamic_values this_hostname proc now
    do_def_req_for_alive_nodes now
    update_cap_nodes_for_apps (do_cap_request_for_node garbage send) now
    pure tt
