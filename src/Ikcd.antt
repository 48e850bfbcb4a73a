-- ===== src/Ikcd.antt =====
-- How src/ikcd takes in a request for a process from another node: ikcd.c receives the packet, ikcr.c
-- makes a request of it, and a worker of ikcd.c serves it with the backlog of ikcbl.c.
pub mod Backlog
pub mod BestNode
pub mod Collect
pub mod Fetch
pub mod Outgoing
use dkmp.Base.{
  ℕ, zero, suc, ◌+◌, Bool, true, false, not, ◌&&◌, ◌||◌, Option, none, some, List, [], ◌∷◌, ◌++◌,
  ◌==◌, ltb, leb, if◌then◌else◌, length, take, drop, Text, ℤ, pos, negsuc, Bytes, read16,
}
use dkmp.Ikc.Numbers.{
  pack_request_number, unpack_req_id, unpack_host_id, unpack_thread_id, unpack_seq_number,
}
use dkmp.Ikc.Packet.{
  ikc_version, proc_creat_req, syscall_req, ProcCreat, unpack_proc_creat_req, pack_proc_creat_resp,
}

-- `struct sockaddr_in`: the address in the host's byte order, and the port.
pub record Address : Type 0 where
  pub addr : ℕ
  pub port : ℕ

-- `struct ikc_request` of a request that came in.
pub record Request : Type 0 where
  pub cliaddr : Address
  pub request_nbr : ℕ
  pub host_id : ℕ
  pub thread_id : ℕ
  pub seq_nbr : ℕ
  pub req : ℕ
  pub o_node : Text
  pub o_pid : ℕ
  pub r_pid : ℕ
  pub filename : Text
  pub argv : Text

-- `ikcr_queue_process_creation_request`: the request that is queued. The name of the node is copied to
-- 65 bytes; a longer one is written past their end. `r_pid` is what the fresh memory holds.
abbrev pub numbered : Address → (r_pid number : ℕ) → ProcCreat → Request
numbered from r_pid number p = record {
  cliaddr = from;
  request_nbr = number;
  host_id = unpack_host_id number;
  thread_id = unpack_thread_id number;
  seq_nbr = unpack_seq_number number;
  req = proc_creat_req;
  o_node = p.o_hostname;
  o_pid = p.o_pid;
  r_pid = r_pid;
  filename = p.o_filename;
  argv = p.o_argv;
}

-- The length of the node's name as the packet gives it, from its ninth byte on.
abbrev pub short_enough : Option (ℕ × Bytes) → Bool
short_enough none = false
short_enough (some (n, rest)) = leb n 64

unfoldable pub node_fits : Bytes → Bool
node_fits packet = short_enough (read16 (drop 8 packet))

abbrev pub request_for : Address → (r_pid : ℕ) → (fits : Bool) → Option ProcCreat → Option Request
request_for from r_pid fits none = none
request_for from r_pid false (some p) = none
request_for from r_pid true (some p) =
    some (numbered from r_pid (pack_request_number from.addr p.seq) p)

unfoldable pub process_creation_request : Address → (r_pid : ℕ) → Bytes → Option Request
process_creation_request from r_pid packet =
    request_for from r_pid (node_fits packet) (unpack_proc_creat_req packet)

-- What `ikc_incoming_request_collector` does with a packet.
pub data Collected : Type 0 where
  too_short invalid_version queued_nothing unknown_type overruns : Collected
  queued : Request → Collected

abbrev pub queue_it : Option Request → Collected
queue_it none = overruns
queue_it (some r) = queued r

abbrev pub collect_type : (type : ℕ) → Address → (r_pid : ℕ) → Bytes → Collected
collect_type type from r_pid packet =
    if type == proc_creat_req
    then queue_it (process_creation_request from r_pid packet)
    else if type == syscall_req
    then queued_nothing
    else unknown_type

unfoldable pub collect : Address → (r_pid : ℕ) → Bytes → Collected
collect from r_pid (version ∷ type ∷ m) =
    if version == ikc_version
    then collect_type type from r_pid (version ∷ type ∷ m)
    else invalid_version
collect from r_pid _ = too_short

-- What the workers share: the backlog, newest request first; the responses sent, newest first; and the
-- numbers of the requests that were proceeded, newest first.
pub record Worker : Type 0 where
  pub backlog : List Request
  pub sent : List (Address × Bytes)
  pub proceeded : List ℕ

-- `ikcr_respond_to_client`; an unknown type ends the daemon.
abbrev pub response : Request → Address × Bytes
response r =
    let (n, m) = pack_proc_creat_resp (unpack_req_id r.request_nbr) r.r_pid in (r.cliaddr, take n m)

unfoldable pub respond_to_client : Request → Worker → Option Worker
respond_to_client r w =
    if r.req == proc_creat_req then some (record w { sent = response r ∷ w.sent }) else none

unfoldable pub add_request : Request → List Request → List Request
add_request r rs = r ∷ rs

-- The first request of the backlog with a number.
unfoldable pub find_number : ℕ → List Request → Option Request
find_number n [] = none
find_number n (r ∷ rs) = if r.request_nbr == n then some r else find_number n rs

-- `ikcbl_remove_request`: the list behind the first request is closed over it. Where it is the first of
-- all, the list head still leads to the freed memory, which is `none`.
unfoldable pub remove_behind : ℕ → List Request → List Request
remove_behind n [] = []
remove_behind n (r ∷ rs) = if r.request_nbr == n then rs else r ∷ remove_behind n rs

unfoldable pub remove_request : ℕ → List Request → Option (List Request)
remove_request n [] = some []
remove_request n (r ∷ rs) = if r.request_nbr == n then none else some (r ∷ remove_behind n rs)

-- The search of `ikcbl_remove_threads_last_request`: it goes on while both the host and the thread
-- differ.
unfoldable pub finds_thread : Request → List Request → Bool
finds_thread r [] = false
finds_thread r (s ∷ ss) =
    (s.host_id == r.host_id) || ((s.thread_id == r.thread_id) || finds_thread r ss)

abbrev pub removed : Option (List Request) → Option (ℤ × List Request)
removed none = none
removed (some rs) = some (pos 0, rs)

-- It is the number of the new request that is removed, not that of the request found.
unfoldable pub remove_threads_last_request : Request → List Request → Option (ℤ × List Request)
remove_threads_last_request r rs =
    if finds_thread r rs then removed (remove_request r.request_nbr rs) else some (negsuc 0, rs)

-- The address of the request that is found becomes that of the new one.
unfoldable pub readdress : ℕ → Address → List Request → List Request
readdress n a [] = []
readdress n a (r ∷ rs) =
    if r.request_nbr == n then record r { cliaddr = a } ∷ rs else r ∷ readdress n a rs

abbrev pub answered : Option Worker → Option (ℤ × Worker)
answered none = none
answered (some w) = some (pos 0, w)

abbrev pub try_found : Option Request → Request → Worker → Option (ℤ × Worker)
try_found none r w = some (negsuc 0, w)
try_found (some s) r w = answered (
    respond_to_client (record s { cliaddr = r.cliaddr })
      (record w { backlog = readdress r.request_nbr r.cliaddr w.backlog }))

unfoldable pub try_respond_from_backlog : Request → Worker → Option (ℤ × Worker)
try_respond_from_backlog r w = try_found (find_number r.request_nbr w.backlog) r w

-- `ikcr_proceed_incoming_request`, which stands in for the creation of a process.
unfoldable pub proceed_incoming_request : Request → Request
proceed_incoming_request r = if r.req == proc_creat_req then record r { r_pid = 76 } else r

-- What the worker does with a request that is not in the backlog.
abbrev pub remember : Request → Option Worker → Option Worker
remember r none = none
remember r (some w) = some (record w { backlog = add_request r w.backlog })

abbrev pub serve_new : Request → Worker → Option (ℤ × List Request) → Option Worker
serve_new r w none = none
serve_new r w (some (status, rs)) =
    let r' = proceed_incoming_request r in
    remember r'
      (respond_to_client r' (record w { backlog = rs; proceeded = r.request_nbr ∷ w.proceeded }))

abbrev pub serve_tried : Request → Option (ℤ × Worker) → Option Worker
serve_tried r none = none
serve_tried r (some (pos _, w)) = some w
serve_tried r (some (negsuc _, w)) = serve_new r w (remove_threads_last_request r w.backlog)

-- One request that `ikc_in_request_worker` takes from its queue.
unfoldable pub serve : Request → Worker → Option Worker
serve r w = serve_tried r (try_respond_from_backlog r w)
