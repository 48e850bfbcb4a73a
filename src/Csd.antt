-- ===== src/Csd.antt =====
-- src/csd/csd.c: what the daemon does with a packet that it receives, and the requests that it sends.
-- `now` is what `time` returns. A read through a pointer that is not set, or past the end of a packet
-- or a buffer, ends as `crashes`.
pub mod Buffer
pub mod Capability
pub mod Copy
pub mod Hello
pub mod Rounds
pub mod Serve
pub mod Startup
pub mod Update
use dkmp.Base.{
  ℕ, zero, suc, ◌+◌, Bool, true, false, not, ◌&&◌, Option, none, some, List, [], ◌∷◌, ◌++◌, ◌==◌,
  leb, if◌then◌else◌, take, Text, ℤ, pos, negsuc, is_neg, Bytes, read16, split_at, c_string,
}
use dkmp.Csdb.Key.{is_valid_key}
use dkmp.Csdb.Store.{
  Db, Outcome, done, crashes, Op, ◌>>=◌, ◌>>◌, pure, get_value_for_key, set_value_for_key,
  remove_from_key, get_child_names_for_key,
}
use dkmp.Csp.{
  cs_ver, cs_hello, cs_req, cs_cap, cs_set, cs_get, cs_del, cs_ls, cs_capexec, resp_succ, resp_err,
  resp_wdata, resp_ndata, pack_resp_packet, pack_capreq_packet, pack_dbreq_packet,
  pack_hello_packet, unpack_dbreq_request, unpack_resp_packet, det_packet_type,
}
use dkmp.Csc.{key2, key3, is_space, strtok, node_is_alive, node_not_alive, cap_to_exec}
use dkmp.Csc.System.{node_key}
use dkmp.Csc.Names.{
  load_name, avg1_name, avg5_name, avg15_name, alive_name, loadavg1_name, loadavg5_name,
  loadavg15_name, node_name,
}

-- What `recvfrom` leaves in a buffer of MAXLINE bytes: a longer packet is cut off. The daemon's own
-- buffer goes on, behind a shorter packet, with a 0 and with what it held before; both stand in the
-- bytes that are given.
unfoldable pub buffer : Bytes → Bytes
buffer m = take 4096 m

-- What the daemon sends back. `unset` is a packet whose length and bytes no branch has set.
pub data Reply : Type 0 where
  sends : Bytes → Reply
  unset : Reply
  nothing : Reply

abbrev pub from_memory : {A : Type 0} → Option A → Op A
from_memory none = λ db. crashes
from_memory (some a) = pure a

abbrev pub packet : ℕ × Bytes → Bytes
packet (n, m) = take n m

-- A response without data, and one with data.
abbrev pub says : (err : ℕ) → Reply
says err = sends (packet (pack_resp_packet resp_ndata err []))

abbrev pub says_text : Text → Reply
says_text t = sends (packet (pack_resp_packet resp_wdata resp_succ t))

abbrev pub serve_set : (key : Text) → Option Text → (now : ℕ) → Op Reply
serve_set key none now = λ db. crashes
serve_set key (some []) now = pure (says resp_err)
serve_set key (some (c ∷ v)) now = do
  set_value_for_key key (some (c ∷ v)) now
  pure (says resp_succ)

abbrev pub got : ℤ × Option Text → Reply
got (pos _, some v) = says_text v
got (pos _, none) = says_text []
got (negsuc _, _) = says resp_err

abbrev pub removed : ℤ → Reply
removed (pos _) = says resp_succ
removed (negsuc _) = says resp_err

abbrev pub listed : Option (ℕ × List Text × Text) → Reply
listed none = says resp_err
listed (some (zero, names, t)) = says resp_err
listed (some (suc n, names, t)) = says_text t

-- The switch on the type of the request.
abbrev pub serve : (req_type : ℕ) → (key : Text) → Option Text → (now : ℕ) → Op Reply
serve type key value now =
    if type == cs_set
    then serve_set key value now
    else if type == cs_get
    then (do found ← get_value_for_key key; pure (got found))
    else if type == cs_del
    then (do status ← remove_from_key key; pure (removed status))
    else if type == cs_ls
    then (do names ← get_child_names_for_key key; pure (listed names))
    else pure unset

-- With an invalid key nothing is done, and a packet that nobody has made is sent.
abbrev pub serve_valid : (req_type : ℕ) → (now : ℕ) → Text × Option Text → Op Reply
serve_valid type now (key, value) =
    if is_valid_key key then serve type key value now else pure unset

abbrev pub serve_packet : (now : ℕ) → Bytes → Op Reply
serve_packet now [] = λ db. crashes
serve_packet now (type ∷ m) = do
  request ← from_memory (unpack_dbreq_request m type)
  serve_valid type now request

unfoldable pub proceed_db_request : (packet : Bytes) (now : ℕ) → Op Reply
proceed_db_request m now = serve_packet now m

abbrev pub cap_answer : Bool → Reply
cap_answer true = says_text (b'1' ∷ [])
cap_answer false = says_text (b'0' ∷ [])

-- The libraries of a request, with the 0 that is written behind them.
abbrev pub cap_text : Option (Bytes × Bytes) → Option Text
cap_text none = none
cap_text (some (t, after)) = c_string (t ++ 0 ∷ [])

abbrev pub cap_rest : Option (ℕ × Bytes) → Option Text
cap_rest none = none
cap_rest (some (n, rest)) = cap_text (split_at n rest)

unfoldable pub cap_libs : Bytes → Option Text
cap_libs m = cap_rest (read16 m)

abbrev pub serve_cap : Bytes → Op Reply
serve_cap [] = λ db. crashes
serve_cap (type ∷ m) = do
  libs ← from_memory (cap_libs m)
  if type == cs_capexec then (do ok ← cap_to_exec libs; pure (cap_answer ok)) else pure unset

unfoldable pub proceed_cap_request : (packet : Bytes) → Op Reply
proceed_cap_request m = serve_cap m

-- A field of a hello packet with what follows it. A length of 127 writes its closing 0 past the end
-- of a buffer of 127 bytes, and a length of 128 and more is negative in a `char`.
abbrev pub field_text : Option Text → Bytes → Option (Text × Bytes)
field_text none rest = none
field_text (some t) rest = some (t, rest)

abbrev pub field_bytes : Option (Bytes × Bytes) → Option (Text × Bytes)
field_bytes none = none
field_bytes (some (t, rest)) = field_text (c_string (t ++ 0 ∷ [])) rest

unfoldable pub read_field : Bytes → Option (Text × Bytes)
read_field [] = none
read_field (n ∷ m) = if leb n 126 then field_bytes (split_at n m) else none

unfoldable pub store_load : (nodename name load : Text) (now : ℕ) → Op ℤ
store_load node name load now = set_value_for_key (key3 alive_name node name) (some load) now

unfoldable pub proceed_hello : (hello_packet : Bytes) (now : ℕ) → Op (Unit {0})
proceed_hello m now = do
  (node, m1) ← from_memory (read_field m)
  node_is_alive node
  (load1, m2) ← from_memory (read_field m1)
  store_load node loadavg1_name load1 now
  (load5, m3) ← from_memory (read_field m2)
  store_load node loadavg5_name load5 now
  (load15, m4) ← from_memory (read_field m3)
  store_load node loadavg15_name load15 now
  pure tt

-- A round of `cs_send_hello_loop`: the bytes that are sent, if all three loads are there.
abbrev pub sent_of : ℤ × Bytes → Option Bytes
sent_of (pos n, m) = some (take n m)
sent_of (negsuc n, m) = none

unfoldable pub hello_round : (hostname : Text) → Op (Option Bytes)
hello_round h = do
  (err1, loadavg1) ← get_value_for_key (node_key h load_name avg1_name)
  (err5, loadavg5) ← get_value_for_key (node_key h load_name avg5_name)
  (err15, loadavg15) ← get_value_for_key (node_key h load_name avg15_name)
  pure (sent_of (pack_hello_packet h loadavg1 loadavg5 loadavg15))

-- The switch of `cs_receive_packets` on what stands behind the header.
abbrev pub dispatch : (type : ℕ) → Bytes → (now : ℕ) → Op Reply
dispatch type m now =
    if type == cs_hello
    then (do proceed_hello m now; pure nothing)
    else if type == cs_req
    then proceed_db_request m now
    else if type == cs_cap
    then proceed_cap_request m
    else pure nothing

abbrev pub receive_from : (now : ℕ) → Bytes → Op Reply
receive_from now (version ∷ type ∷ m) =
    if version == cs_ver then dispatch type m now else pure nothing
receive_from now _ = pure nothing

-- One round of `cs_receive_packets`. A packet of less than two bytes is taken as one with another
-- version; the code reads what the buffer held before.
unfoldable pub receive_packet : Bytes → (now : ℕ) → Op Reply
receive_packet m now = receive_from now (buffer m)

-- What comes of a packet that is sent to a node.
pub data Exchange : Type 0 where
  unknown_host not_sent timeout failed : Exchange
  received : Bytes → Exchange

-- The node is taken off the alive nodes.
abbrev pub lost : Text → Op ℤ
lost node = do node_not_alive (some node); pure (negsuc 0)

module _
    -- What a function returns that ends without `return`.
    (garbage : ℤ) where
  abbrev pub cap_result : Text → ℤ
  cap_result [] = garbage
  cap_result (c ∷ t) = if c == b'0' then pos 0 else if c == b'1' then pos 1 else garbage

  abbrev pub cap_data : ℕ × ℕ × Option Text → Op ℤ
  cap_data (_, _, none) = λ db. crashes
  cap_data (_, _, some t) = pure (cap_result t)

  abbrev pub cap_response : Text → Exchange → Op ℤ
  cap_response node unknown_host = pure (negsuc 0)
  cap_response node not_sent = pure (negsuc 0)
  cap_response node timeout = lost node
  cap_response node failed = lost node
  cap_response node (received m) = do
    response ← from_memory (unpack_resp_packet (buffer m))
    cap_data response

  -- `send` is the network: what a node answers to a packet.
  unfoldable pub do_cap_request_for_node :
      (send : (node : Text) → Bytes → Exchange) (node libs : Text) → Op ℤ
  do_cap_request_for_node send node libs =
      cap_response node (send node (packet (pack_capreq_packet cs_capexec libs)))

abbrev pub store_value : (key : Text) (now : ℕ) → Option Text → Op ℤ
store_value key now none = λ db. crashes
store_value key now (some v) = do set_value_for_key key (some v) now; pure (pos 0)

abbrev pub db_data : (key : Text) (now : ℕ) → ℕ × ℕ × Option Text → Op ℤ
db_data key now (_, err, value) =
    if err == resp_succ then store_value key now value else pure (negsuc 0)

abbrev pub db_response : (node key : Text) (now : ℕ) → Exchange → Op ℤ
db_response node key now unknown_host = pure (negsuc 0)
db_response node key now not_sent = pure (negsuc 0)
db_response node key now timeout = lost node
db_response node key now failed = lost node
db_response node key now (received m) = do
  response ← from_memory (unpack_resp_packet (buffer m))
  db_data key now response

module _ (send : (node : Text) → Bytes → Exchange) where
  -- The request as far as it is made; more bytes behind it are sent than were allocated.
  unfoldable pub do_db_request_for_node : (node key : Text) (now : ℕ) → Op ℤ
  do_db_request_for_node node key now =
      db_response node key now (send node (pack_dbreq_packet (some key) none cs_get).1)

  -- The default requests to one node, until one fails.
  unfoldable pub do_requests : (node : Text) → List Text → (now : ℕ) → Op (Unit {0})
  do_requests node [] now = pure tt
  do_requests node (r ∷ rs) now = do
    error ← do_db_request_for_node node (b'.' ∷ (node_name ++ b'.' ∷ (node ++ r))) now
    if is_neg error then pure tt else do_requests node rs now
