-- ===== src/Ikcd/Outgoing/Round.antt =====
-- A request for a process from the worker's queue to the answer that the kernel gets.
use dkmp.Base.{
  ℕ, ◌+◌, ◌≡◌, refl, sym, ◌∙◌, subst, false, ◌||◌, Option, some, List, [], ◌∷◌, ◌++◌, ==_iff,
  if◌then◌else◌, Text, ℤ, pos, Bytes, ◌<◌,
}
use dkmp.Dkmctl.{
  not_in_progress, DkmStruct, Kernel, find_task, ret, put_resp, Response, respond, with_response,
}
use dkmp.Dkmctl.Tasks.{find-update}
use dkmp.Ikc.Numbers.{next_seq}
use dkmp.Ikc.Packet.{proc_creat_req, pack_proc_creat_resp}
use dkmp.Ikc.Packet.RoundTrip.{unpack-pack_creat_resp}
use dkmp.Ikcd.{Address, Worker}
use dkmp.Ikcd.Backlog.Answers.{Sane}
use dkmp.Ikcd.Outgoing.{
  Outgoing, Reply, datagram, returned, request_packet, attempt, max_attempts, respond_to_kernel,
  Served, serve_outgoing,
}
use dkmp.Ikcd.Outgoing.Lossy.{
  proceed_by, Fate, Net, net_of, exchange, arrives, answers, marks, Sendable, number_of,
}
use dkmp.Ikcd.Outgoing.Delivery.{attempt-Delivered}

-- What the answer to a PROC_CREAT_REQ leaves in the task.
abbrev pub created : ℕ → DkmStruct → DkmStruct
created pid d = record d { r_pid = pid; pending_req = false; req_state = not_in_progress }

respond_lem :
    (unset : ℤ) (r : Outgoing) (k : Kernel) (d : DkmStruct)
    → r.req ≡ proc_creat_req
    → d.req ≡ proc_creat_req
    → find_task r.o_pid k.tasks ≡ some (record { pid = r.o_pid; dkm = some d })
    → (k' : Kernel) × (respond_to_kernel unset r k ≡ ret (pos 0) tt k')
      × (find_task r.o_pid k'.tasks
          ≡ some (record { pid = r.o_pid; dkm = some (created r.r_pid d) }))
      × (k'.wakes ≡ k.wakes + 1)
unfolding respond_to_kernel put_resp
respond_lem unset r k d creates asks found =
    let a : Response = record { node = []; r_pid = r.r_pid } in
    let e : respond_to_kernel unset r k ≡ ret (pos 0) tt (respond r.o_pid proc_creat_req a k) =
      rw (creates, found, asks) refl in
    (
      respond r.o_pid proc_creat_req a k,
      e,
      rw
          (
            find-update r.o_pid r.o_pid (with_response proc_creat_req a) k.tasks,
            (==_iff r.o_pid r.o_pid).1 refl,
            found,
          )
          refl,
      refl,
    )

abbrev Told : (unset : ℤ) → Outgoing → Kernel → DkmStruct → (p pid : ℕ) → Type 0
Told unset r k d p pid =
    (k' : Kernel) × (respond_to_kernel unset r k ≡ ret (pos 0) tt k')
    × (find_task p k'.tasks ≡ some (record { pid = p; dkm = some (created pid d) }))
    × (k'.wakes ≡ k.wakes + 1)

respond_at :
    (unset : ℤ) (r : Outgoing) (k : Kernel) (d : DkmStruct) (p pid : ℕ)
    → r.o_pid ≡ p
    → r.r_pid ≡ pid
    → r.req ≡ proc_creat_req
    → d.req ≡ proc_creat_req
    → find_task p k.tasks ≡ some (record { pid = p; dkm = some d })
    → Told unset r k d p pid
respond_at unset r k d p pid ep epid creates asks found =
    subst (λ q. Told unset r k d q pid) ep
      (subst (λ i. Told unset r k d r.o_pid i) epid
        (respond_lem unset r k d creates asks (
          subst (λ q. find_task q k.tasks ≡ some (record { pid = q; dkm = some d })) (sym ep)
            found)))

module _ (thread : ℕ) (r : Outgoing) (from : Address) (g : ℕ) (resolve : Text → Option ℕ) (addr : ℕ)
    (unset : ℤ) (during : Kernel → Kernel) (d : DkmStruct) (k : Kernel) where
  abbrev numbered : ℕ → Outgoing
  numbered seq = record r { seq_nbr = next_seq seq }

  -- What the worker leaves.
  pub record Reported (seq : ℕ) (f1 f2 : Fate) (fs : List Fate) (w : Worker) : Type 0 where
    pub after : Served Net
    pub run :
        serve_outgoing resolve exchange unset during thread r
          (record { seq_nbr = seq; kernel = k; world = net_of from g (f1 ∷ f2 ∷ fs) w })
        ≡ some after
    pub counted : after.seq_nbr ≡ next_seq seq
    pub task :
        find_task r.o_pid after.kernel.tasks
        ≡ some (record {
          pid = r.o_pid;
          dkm = some (created (if answers f1 || answers f2 then 76 else r.r_pid) d);
        })
    pub woken : after.kernel.wakes ≡ (during k).wakes + 1
    pub once :
        after.world.remote.proceeded
        ≡ marks (arrives f1 || arrives f2) (number_of from thread (numbered seq)) w.proceeded

  -- A worker serves a request for a process over a network that loses requests and responses, and
  -- tells the kernel: the task is no longer pending, the queue is woken, and the task has the pid that
  -- the other node gave if a response gets through in one of the two attempts; if none does, it has
  -- the pid that the memory of the request held before, with no sign of the failure. The other node
  -- proceeds the number at most once. The request can come in whole, its node is resolved, the other
  -- node's backlog is sane, and the task asks for a process when the worker answers.
  pub serve_outgoing-Reported :
      (seq : ℕ) (f1 f2 : Fate) (fs : List Fate) (w : Worker)
      → Sendable thread r
      → resolve r.r_node ≡ some addr
      → Sane w
      → find_task r.o_pid (during k).tasks ≡ some (record { pid = r.o_pid; dkm = some d })
      → d.req ≡ proc_creat_req
      → Reported seq f1 f2 fs w
  unfolding serve_outgoing
  serve_outgoing-Reported seq f1 f2 fs w s resolved sane found asks =
      let s' : Sendable thread (numbered seq) = record {
        thread_fits = s.thread_fits;
        creates = s.creates;
        pid_fits = s.pid_fits;
        node = s.node;
        node_short = s.node_short;
        file = s.file;
        file_short = s.file_short;
      } in
      let t =
        attempt-Delivered thread (numbered seq) s' from g resolve addr resolved f1 f2 fs w sane in
      let (k', told, task, woken) =
        respond_at unset t.request (during k) d r.o_pid _ t.same.0 t.pid (t.same.1 ∙ s.creates) asks
          found in
      record {
        after = record { seq_nbr = next_seq seq; kernel = k'; world = t.net };
        run = rw (t.run, told) refl;
        counted = refl;
        task = task;
        woken = woken;
        once = t.once;
      }

-- A worker takes any process creation response for the one to its request, whatever id it carries: a
-- late response to an earlier request ends the attempts with status 0 and with that request's pid.
-- The node is resolved, the request is for a process, and id and pid fit 16 and 32 bits.
pub attempt-any_id :
    {W : Type 0} (resolve : Text → Option ℕ) (exchange : ℕ → Bytes → W → Reply × W) (thread : ℕ)
    (r : Outgoing) (w w' : W) (addr id pid : ℕ) (behind : Bytes)
    → resolve r.r_node ≡ some addr
    → r.req ≡ proc_creat_req
    → id < 65536
    → pid < 4294967296
    → exchange addr (request_packet thread r) w
      ≡ (datagram ((pack_proc_creat_resp id pid).1 ++ behind), w')
    → attempt resolve exchange max_attempts thread r w
      ≡ returned (pos 0) (record r { arg1 = []; seq_nbr = id; r_pid = pid }) w'
unfolding attempt
attempt-any_id resolve exchange thread r w w' addr id pid behind found creates i p e =
    let (back, len) = unpack-pack_creat_resp id pid behind i p in
    let step =
      proceed_by resolve exchange thread addr r w _ ((==_iff r.req proc_creat_req).1 creates) found
        e in
    rw (step, back) refl
