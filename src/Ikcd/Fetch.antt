-- ===== src/Ikcd/Fetch.antt =====
-- `ikc_get_request_from_kernel` of src/ikcd/ikcd.c: ikcd takes the requests of the tasks from the
-- kernel, answers those for the node of a program, and queues those for a process on another node.
pub mod Drain
pub mod Pass
pub mod Program
pub mod Tasks
use dkmp.Base.{
  ℕ, zero, suc, ◌&&◌, Bool, true, false, Option, none, some, List, [], ◌∷◌, ◌++◌, ◌==◌, ltb,
  if◌then◌else◌, length, Text, ℤ, pos, negsuc, Bytes,
}
use dkmp.Dkmctl.{Kernel, Outcome, ret, oops, get_req, get_args, put_resp, map_req}
use dkmp.Ikc.Packet.{proc_creat_req}
use dkmp.Ikcd.BestNode.{best_node_for_app}
use dkmp.Ikcd.Outgoing.{Outgoing}

abbrev pub read_req : ℕ
read_req = 22

abbrev pub max_node_len : ℕ
max_node_len = 65

abbrev pub max_file_len : ℕ
max_file_len = 257

-- The kernel, the queue of the requests that go out, by the requests it holds, and the world.
pub record Daemon (W : Type 0) : Type 0 where
  pub kernel : Kernel
  pub pending_out : List Outgoing
  pub world : W

-- `done`: the function returns. `exits` is the end of the daemon by `ikc_log_exit`, `overruns` a text
-- that is longer than its buffer, `crashes` a NULL pointer in the kernel. `unfinished`: the rounds are
-- used up.
pub data Fetched (W : Type 0) : Type 0 where
  done : ℤ → Daemon W → Fetched W
  exits overruns crashes unfinished : Fetched W

abbrev pub fits : (size : ℕ) → Text → Bool
fits size t = ltb (length t) size

abbrev pub request_of :
    (hostname : Text) (fresh : Outgoing) (pid : ℕ) (r_node file : Text) → Outgoing
request_of hostname fresh p r_node file = record fresh {
  o_pid = p;
  req = proc_creat_req;
  o_node = hostname;
  r_node = r_node;
  arg0 = r_node;
  arg1 = file;
}

module _ {W : Type 0}
    -- The node for an application, what `getenv` gives for HOSTNAME, and what the fresh memory for a
    -- request holds.
    (best_node : Text → W → Option (ℤ × Text × W)) (hostname : Text) (fresh : Outgoing)
    -- The rest of the loop, from the buffer for the name of the application on.
    (again : (app_name : Text) → Daemon W → Fetched W) where
  -- Whatever DKM_PUT_RESP returns.
  abbrev pub put_node : Outcome (Unit {0}) → (app_name : Text) → List Outgoing → W → Fetched W
  put_node oops app q w = crashes
  put_node (ret s u k) app q w = again app (record { kernel = k; pending_out = q; world = w })

  abbrev pub with_node :
      Option (ℤ × Text × W) → (pid : ℕ) (app_name : Text) → Kernel → List Outgoing → Fetched W
  with_node none p app k q = overruns
  with_node (some (s, node, w)) p app k q =
      put_node (put_resp p map_req (record { node = node; r_pid = 0 }) k) app q w

  abbrev pub map_named : (pid : ℕ) (app_name : Text) → Kernel → List Outgoing → W → Fetched W
  map_named p app k q w = with_node (best_node app w) p app k q

  -- The daemon would end on the status 1, which is no status of DKM_GET_ARGS; after -1 the buffer holds
  -- what it held.
  abbrev pub map_args :
      Outcome (List Text) → (pid : ℕ) (app_name : Text) → List Outgoing → W → Fetched W
  map_args oops p app q w = crashes
  map_args (ret (pos (suc zero)) ts k) p app q w = exits
  map_args (ret s (file ∷ ts) k) p app q w =
      if fits max_file_len file then map_named p file k q w else overruns
  map_args (ret s [] k) p app q w = map_named p app k q w

  abbrev pub queue_creation :
      (pid : ℕ) (r_node file app_name : Text) → Kernel → List Outgoing → W → Fetched W
  queue_creation p r_node file app k q w =
      if fits max_node_len r_node && (fits max_file_len file && fits max_node_len hostname)
      then again app (record {
        kernel = k;
        pending_out = q ++ request_of hostname fresh p r_node file ∷ [];
        world = w;
      })
      else overruns

  abbrev pub creat_args :
      Outcome (List Text) → (pid : ℕ) (app_name : Text) → List Outgoing → W → Fetched W
  creat_args oops p app q w = crashes
  creat_args (ret (pos (suc zero)) ts k) p app q w = exits
  creat_args (ret s (r_node ∷ file ∷ ts) k) p app q w = queue_creation p r_node file app k q w
  creat_args (ret s _ k) p app q w = queue_creation p fresh.r_node fresh.arg1 app k q w

  -- The case READ_REQ only signals a condition.
  abbrev pub by_type : (pid req : ℕ) (app_name : Text) → Kernel → List Outgoing → W → Fetched W
  by_type p req app k q w =
      if req == map_req
      then map_args (get_args p req k) p app q w
      else if req == proc_creat_req
      then creat_args (get_args p req k) p app q w
      else if req == read_req
      then again app (record { kernel = k; pending_out = q; world = w })
      else done (negsuc 0) (record { kernel = k; pending_out = q; world = w })

  abbrev pub got : Outcome (Option (ℕ × ℕ)) → (app_name : Text) → List Outgoing → W → Fetched W
  got oops app q w = crashes
  got (ret (pos (suc zero)) a k) app q w =
      done (pos 0) (record { kernel = k; pending_out = q; world = w })
  got (ret s (some (p, req)) k) app q w = by_type p req app k q w
  got (ret s none k) app q w = done (negsuc 0) (record { kernel = k; pending_out = q; world = w })

module _ {W : Type 0} (best_node : Text → W → Option (ℤ × Text × W)) (hostname : Text)
    (fresh : Outgoing) where
  -- The loop from the label `again` on.
  unfoldable pub fetch : (rounds : ℕ) (app_name : Text) → Daemon W → Fetched W
  fetch zero app d = unfinished
  fetch (suc n) app d =
      let again = fetch n in
      got best_node hostname fresh again (get_req d.kernel) app d.pending_out d.world

-- With the node that csd names; `garbage` is what the buffer for the application's name holds at first.
unfoldable pub get_request_from_kernel :
    {W : Type 0} (server_id client_id : ℤ) (ask : Bytes → W → Option Bytes × W) (hostname : Text)
    (fresh : Outgoing) (garbage : Text) (rounds : ℕ)
    → Daemon W
    → Fetched W
get_request_from_kernel server_id client_id ask hostname fresh garbage rounds d =
    fetch (best_node_for_app server_id client_id ask hostname) hostname fresh rounds garbage d
