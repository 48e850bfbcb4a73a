-- ===== src/Ikcd/Outgoing.antt =====
-- The requests that a node sends to another one: `ikcr_proceed_outgoing_request` of src/ikcd/ikcr.c,
-- and `ikc_out_request_worker` and `ikc_respond_to_kernel` of src/ikcd/ikcd.c. The resolver and the
-- network are parameters.
pub mod Delivery
pub mod Lossy
pub mod Round
use dkmp.Base.{
  ℕ, zero, suc, Option, none, some, List, [], ◌∷◌, ◌==◌, if◌then◌else◌, take, Text, ℤ, pos, negsuc,
  Bytes,
}
use dkmp.Dkmctl.{Kernel, Outcome, ret, oops, put_resp}
use dkmp.Ikc.Numbers.{pack_request_id, next_seq}
use dkmp.Ikc.Packet.{proc_creat_req, pack_proc_creat_req, unpack_proc_creat_resp}

-- `struct ikc_request` of a request that goes out. `arg0` and `arg1` are the texts that the first two
-- arguments lead to.
pub record Outgoing : Type 0 where
  pub o_pid : ℕ
  pub req : ℕ
  pub o_node : Text
  pub r_node : Text
  pub arg0 : Text
  pub arg1 : Text
  pub seq_nbr : ℕ
  pub r_pid : ℕ

-- What comes of a datagram that was sent: nothing within five seconds, an error, or a datagram.
pub data Reply : Type 0 where
  timed_out failed : Reply
  datagram : Bytes → Reply

-- A status, with the request and the world as they are then. `exits` is the end of the daemon by
-- `ikc_log_exit`, `overruns` a read past the end of the response.
pub data Proceeded (W : Type 0) : Type 0 where
  exits overruns : Proceeded W
  returned : ℤ → Outgoing → W → Proceeded W

abbrev pub unpacked : {W : Type 0} → Option (ℕ × ℕ) → Outgoing → W → Proceeded W
unpacked none r w = overruns
unpacked (some (seq, pid)) r w = returned (pos 0) (record r { seq_nbr = seq; r_pid = pid }) w

abbrev pub with_reply : {W : Type 0} → Outgoing → Reply × W → Proceeded W
with_reply r (timed_out, w) = returned (negsuc 0) r w
with_reply r (failed, w) = returned (negsuc 0) r w
with_reply r (datagram m, w) = unpacked (unpack_proc_creat_resp m) r w

-- The packet: `arg1` has become the empty text, and `arg0` goes where the file name is.
unfoldable pub request_packet : (thread_id : ℕ) → Outgoing → Bytes
request_packet thread r =
    let (n, m) =
      pack_proc_creat_req (pack_request_id thread r.seq_nbr) r.o_pid r.o_node r.arg0 [] in
    take n m

-- The body of the loop over the attempts goes on while the status is negative.
abbrev pub unless_done : {W : Type 0} → Proceeded W → (Outgoing → W → Proceeded W) → Proceeded W
unless_done exits go = exits
unless_done overruns go = overruns
unless_done (returned (pos n) r w) go = returned (pos n) r w
unless_done (returned (negsuc n) r w) go = go r w

module _ {W : Type 0} (resolve : Text → Option ℕ)
    (exchange : (addr : ℕ) → Bytes → W → Reply × W) where
  abbrev pub proceed_at : Option ℕ → (thread_id : ℕ) → Outgoing → W → Proceeded W
  proceed_at none thread r w = exits
  proceed_at (some addr) thread r w =
      if r.req == proc_creat_req
      then with_reply (record r { arg1 = [] }) (exchange addr (request_packet thread r) w)
      else returned (pos 0) r w

  unfoldable pub proceed_outgoing_request : (thread_id : ℕ) → Outgoing → W → Proceeded W
  proceed_outgoing_request thread r w = proceed_at (resolve r.r_node) thread r w

  -- The loop over the attempts that are left.
  unfoldable pub attempt : (left thread_id : ℕ) → Outgoing → W → Proceeded W
  attempt zero thread r w = returned (negsuc 0) r w
  attempt (suc n) thread r w =
      let again = attempt n thread in unless_done (proceed_outgoing_request thread r w) again

abbrev pub max_attempts : ℕ
max_attempts = 2

-- For another type of request the status is that of a variable that is not set.
unfoldable pub respond_to_kernel : (unset : ℤ) → Outgoing → Kernel → Outcome (Unit {0})
respond_to_kernel unset r k =
    if r.req == proc_creat_req
    then put_resp r.o_pid r.req (record { node = []; r_pid = r.r_pid }) k
    else ret unset tt k

-- What a worker has after a request: its counter, the kernel and the world; nothing if the daemon, or
-- the kernel, has not lived through it.
pub record Served (W : Type 0) : Type 0 where
  pub seq_nbr : ℕ
  pub kernel : Kernel
  pub world : W

abbrev pub served : {W : Type 0} → ℕ → Outcome (Unit {0}) → W → Option (Served W)
served seq oops w = none
served seq (ret s u k) w = some (record { seq_nbr = seq; kernel = k; world = w })

-- The kernel is told the pid whatever the status of the attempts is. `during` is what happens in the
-- kernel while the worker waits for the other node.
abbrev pub report :
    {W : Type 0}
    → (unset : ℤ) (during : Kernel → Kernel) (seq : ℕ) → Kernel
    → Proceeded W
    → Option (Served W)
report unset during seq k exits = none
report unset during seq k overruns = none
report unset during seq k (returned s r w) = served seq (respond_to_kernel unset r (during k)) w

module _ {W : Type 0} (resolve : Text → Option ℕ) (exchange : (addr : ℕ) → Bytes → W → Reply × W)
    (unset : ℤ) (during : Kernel → Kernel) (thread_id : ℕ) where
  -- One request that `ikc_out_request_worker` takes from its queue.
  unfoldable pub serve_outgoing : Outgoing → Served W → Option (Served W)
  serve_outgoing r s =
      let seq = next_seq s.seq_nbr in
      report unset during seq s.kernel
        (attempt resolve exchange max_attempts thread_id (record r { seq_nbr = seq }) s.world)

  -- All requests that its queue holds when it is woken.
  unfoldable pub serve_queue : List Outgoing → Served W → Option (Served W)
  serve_queue [] s = some s
  serve_queue (r ∷ rs) s = elim (serve_outgoing r s) [ none ↦ none | some s' ↦ serve_queue rs s' ]
