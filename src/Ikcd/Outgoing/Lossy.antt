-- ===== src/Ikcd/Outgoing/Lossy.antt =====
-- Two nodes over a network that loses datagrams: a worker of src/ikcd/ikcd.c that sends a request and
-- repeats it, and the collector and a worker of the other node.
use dkmp.Base.{
  ℕ, ◌<◌, ◌≤◌, ◌≡◌, refl, sym, ap, ◌∙◌, inl, inr, Bool, true, false, ◌||◌, Option, none, some, List,
  [], ◌∷◌, append-nil, arith, ◌==◌, ==_iff, if◌then◌else◌, Bool-cases, length, take, take_all, Text,
  Bytes,
}
use dkmp.Ikc.Numbers.{pack_request_number, pack_request_id, unpack_req_id}
use dkmp.Ikc.Packet.{
  proc_creat_req, pack_proc_creat_resp, unpack_proc_creat_resp, pack_proc_creat_req,
}
use dkmp.Ikc.Packet.RoundTrip.{Fits, length-pack_req, unpack-pack_creat_resp}
use dkmp.Ikcd.{Address, Request, Worker, Collected, queued, collect, serve}
use dkmp.Ikcd.Collect.{sent_packet, Arrived, collect-packed}
use dkmp.Ikcd.Backlog.{member}
use dkmp.Ikcd.Backlog.Answers.{Sane, answer, serve-Answered}
use dkmp.Ikcd.Outgoing.{
  Outgoing, Reply, timed_out, datagram, request_packet, with_reply, proceed_outgoing_request,
}

-- What becomes of a request: it is lost, it arrives and its response is lost, or both arrive.
pub data Fate : Type 0 where
  lost unanswered through : Fate

-- The network between the node and another one: what becomes of the next requests, the address that
-- the other node sees, what fresh memory holds there, and its workers. With no fate left, all is lost.
pub record Net : Type 0 where
  pub fates : List Fate
  pub from : Address
  pub garbage : ℕ
  pub remote : Worker

abbrev reply_by : Fate → List (Address × Bytes) → Reply
reply_by through ((a, m) ∷ sent) = datagram m
reply_by _ _ = timed_out

abbrev after_serve : Fate → Option Worker → Net → Reply × Net
after_serve f none net = (timed_out, net)
after_serve f (some w) net = (reply_by f w.sent, record net { remote = w })

abbrev after_collect : Fate → Collected → Net → Reply × Net
after_collect f (queued r) net = after_serve f (serve r net.remote) net
after_collect f _ net = (timed_out, net)

abbrev by_fate : List Fate → Bytes → Net → Reply × Net
by_fate [] m net = (timed_out, net)
by_fate (lost ∷ fs) m net = (timed_out, record net { fates = fs })
by_fate (f ∷ fs) m net =
    after_collect f (collect net.from net.garbage m) (record net { fates = fs })

-- Every address is that of the other node.
unfoldable pub exchange : (addr : ℕ) → Bytes → Net → Reply × Net
exchange addr m net = by_fate net.fates m net

pub any_address_lem : (a : ℕ) (m : Bytes) (net : Net) → exchange a m net ≡ exchange 0 m net
unfolding exchange
any_address_lem a m net = refl

abbrev pub arrives : Fate → Bool
arrives lost = false
arrives _ = true

abbrev pub answers : Fate → Bool
answers through = true
answers _ = false

-- The numbers that were proceeded, after the request of a number has come in or not.
abbrev pub marks : Bool → ℕ → List ℕ → List ℕ
marks true n ns = if member n ns then ns else n ∷ ns
marks false n ns = ns

marks_twice : (b : Bool) (n : ℕ) (ns : List ℕ) → marks b n (marks true n ns) ≡ marks true n ns
unfolding member
marks_twice false n ns = refl
marks_twice true n ns = elim (Bool-cases (member n ns)) [
  | inl old ↦ rw (old, old) refl
  | inr new ↦ rw (new, (==_iff n n).1 refl) refl
]

pub marks_both : (b c : Bool) (n : ℕ) (ns : List ℕ) → marks c n (marks b n ns) ≡ marks (b || c) n ns
marks_both true c n ns = marks_twice c n ns
marks_both false c n ns = refl

-- What a request needs to come in whole at the other node.
pub record Sendable (thread : ℕ) (r : Outgoing) : Type 0 where
  pub thread_fits : thread < 64
  pub creates : r.req ≡ proc_creat_req
  pub pid_fits : r.o_pid < 4294967296
  pub node : Fits r.o_node
  pub node_short : length r.o_node ≤ 64
  pub file : Fits r.arg0
  pub file_short : length r.arg0 < 65000

abbrev pub number_of : Address → (thread : ℕ) → Outgoing → ℕ
number_of from thread r = pack_request_number from.addr (pack_request_id thread r.seq_nbr)

packet_lem :
    (thread : ℕ) (r : Outgoing)
    → Sendable thread r
    → request_packet thread r ≡ sent_packet thread r.seq_nbr r.o_pid r.o_node r.arg0 []
unfolding request_packet
packet_lem thread r s =
    let id = pack_request_id thread r.seq_nbr in
    let e =
      length-pack_req id r.o_pid r.o_node r.arg0 [] (omega (arith, s.node_short, s.file_short)) in
    ap (λ n. take n (pack_proc_creat_req id r.o_pid r.o_node r.arg0 []).1) e ∙ take_all _

-- The response to the request of a number is unpacked to the pid.
pub answer_lem :
    (number : ℕ) → unpack_proc_creat_resp (answer number 76) ≡ some (unpack_req_id number, 76)
unfolding unpack_req_id
answer_lem number =
    let (back, len) =
      unpack-pack_creat_resp (unpack_req_id number) 76 [] (omega arith) (omega arith) in
    let whole =
      ap (λ n. take n (pack_proc_creat_resp (unpack_req_id number) 76).1) (sym len)
      ∙ take_all (pack_proc_creat_resp (unpack_req_id number) 76).1 in
    let m = (pack_proc_creat_resp (unpack_req_id number) 76).1 in
    ap unpack_proc_creat_resp whole ∙ ap unpack_proc_creat_resp (sym (append-nil m)) ∙ back

pub proceed_by :
    {W : Type 0} (resolve : Text → Option ℕ) (exchange : ℕ → Bytes → W → Reply × W)
    (thread addr : ℕ) (r : Outgoing) (w : W) (out : Reply × W)
    → (r.req == proc_creat_req) ≡ true
    → resolve r.r_node ≡ some addr
    → exchange addr (request_packet thread r) w ≡ out
    → proceed_outgoing_request resolve exchange thread r w ≡ with_reply (record r { arg1 = [] }) out
unfolding proceed_outgoing_request
proceed_by resolve exchange thread addr r w out creates found e = rw (found, creates, e) refl

abbrev pub net_of : Address → (garbage : ℕ) → List Fate → Worker → Net
net_of from g fs w = record { fates = fs; from = from; garbage = g; remote = w }

module _ (thread : ℕ) (r : Outgoing) (sendable : Sendable thread r) (from : Address) (g : ℕ) where
  pub arrives_lem :
      (req : Request) × (collect from g (request_packet thread r) ≡ queued req)
      × Arrived from thread r.seq_nbr r.o_pid r.o_node r.arg0 [] req
  arrives_lem =
      let (req, e, a) =
        (collect-packed from g thread r.seq_nbr r.o_pid r.o_node r.arg0 [] [] sendable.thread_fits
            sendable.pid_fits sendable.node sendable.file
            (record { short = omega arith; clean = tt })).0
          sendable.node_short in
      let m = sent_packet thread r.seq_nbr r.o_pid r.o_node r.arg0 [] in
      (req, ap (collect from g) (packet_lem thread r sendable ∙ sym (append-nil m)) ∙ e, a)

  -- What an attempt leaves.
  pub record Tried (f : Fate) (fs : List Fate) (w w' : Worker) : Type 0 where
    pub run : exchange 0 (request_packet thread r) (net_of from g (f ∷ fs) w) ≡ (
      if answers f then datagram (answer (number_of from thread r) 76) else timed_out,
      net_of from g fs w',
    )
    pub sane : Sane w'
    pub marked : w'.proceeded ≡ marks (arrives f) (number_of from thread r) w.proceeded

  pub tried : (f : Fate) (fs : List Fate) (w : Worker) → Sane w → (w' : Worker) × Tried f fs w w'
  unfolding exchange
  tried lost fs w s = (w, record { run = refl; sane = s; marked = refl })
  tried unanswered fs w s =
      let (req, e, a) = arrives_lem in
      let (w', k) = serve-Answered req w s a.kind in
      (w', record { run = rw (e, k.run) refl; sane = k.sane; marked = rw a.number at k.once })
  tried through fs w s =
      let (req, e, a) = arrives_lem in
      let (w', k) = serve-Answered req w s a.kind in
      (
        w',
        record {
          run = rw (e, k.run, k.reply, a.number) refl;
          sane = k.sane;
          marked = rw a.number at k.once;
        },
      )
