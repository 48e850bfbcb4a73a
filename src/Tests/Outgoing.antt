-- ===== src/Tests/Outgoing.antt =====
-- The theorems on src/ikcd's requests that go out, on one request and one task.
use dkmp.Base.{
  ℕ, true, ◌+◌, ◌≡◌, refl, ◌<◌, Option, none, some, [], ◌∷◌, ◌++◌, ℤ, pos, negsuc, length, arith,
  Text, Bytes,
}
use dkmp.Dkmctl.{in_do_req, in_get_req, DkmStruct, Task, Kernel, find_task}
use dkmp.Dkmctl.Tasks.{Distinct, waiting}
use dkmp.Ikc.Packet.{pack_proc_creat_resp}
use dkmp.Ikc.Packet.RoundTrip.{Fits}
use dkmp.Ikcd.{Address, Request, queued, collect}
use dkmp.Ikcd.Backlog.{idle_worker}
use dkmp.Ikcd.Backlog.Answers.{Sane}
use dkmp.Ikcd.Outgoing.{Outgoing, Reply, datagram, returned, request_packet, attempt, max_attempts}
use dkmp.Ikcd.Outgoing.Lossy.{lost, unanswered, through, Sendable}
use dkmp.Ikcd.Outgoing.Delivery.{Delivered, attempt-Delivered}
use dkmp.Ikcd.Outgoing.Round.{Reported, serve_outgoing-Reported, attempt-any_id}
use dkmp.Ikcd.BestNode.{best_node_for_app}
use dkmp.Ikcd.Fetch.{Daemon, done, get_request_from_kernel, request_of}
use dkmp.Ikcd.Fetch.Pass.{maps, creates, AllAsk, pass}
use dkmp.Ikcd.Fetch.Drain.{get_request-pass}
use dkmp.Ikcd.Fetch.Program.{request-loses_file}
use dkmp.Tests.{t_a, t_b, t_c}

Fits-a : Fits t_a
Fits-a = record { short = omega arith; clean = ((λ e. omega arith), tt) }

Fits-b : Fits t_b
Fits-b = record { short = omega arith; clean = ((λ e. omega arith), tt) }

abbrev fresh : Outgoing
fresh = record {
  o_pid = 0;
  req = 0;
  o_node = [];
  r_node = [];
  arg0 = [];
  arg1 = [];
  seq_nbr = 0;
  r_pid = 12345;
}

-- The program "c" of the task 20 on host "a", for the node "b".
abbrev creation : Outgoing
creation = request_of t_a fresh 20 t_b t_c

Sendable-creation : Sendable 2 creation
Sendable-creation = record {
  thread_fits = omega arith;
  creates = refl;
  pid_fits = omega arith;
  node = Fits-a;
  node_short = omega arith;
  file = Fits-b;
  file_short = omega arith;
}

abbrev here : Address
here = record { addr = 3232235777; port = 5000 }

abbrev resolve_all : Text → Option ℕ
resolve_all name = some 3232235778

Sane-idle : Sane idle_worker
Sane-idle = record { good = record { all_create = tt; same = refl; distinct = tt }; pids = tt }

attempt-Delivered_example :
    Delivered 2 creation Sendable-creation here 0 resolve_all 3232235778 refl unanswered through []
      idle_worker
attempt-Delivered_example =
    attempt-Delivered 2 creation Sendable-creation here 0 resolve_all 3232235778 refl unanswered
      through [] idle_worker Sane-idle

abbrev asking_struct : (req : ℕ) → DkmStruct
asking_struct req = record {
  distributed = true;
  pending_req = true;
  req_state = in_do_req;
  req = req;
  r_pid = 0;
  file_name = some t_c;
  o_node = some t_a;
  r_node = some t_b;
}

abbrev task_of : (pid req : ℕ) → Task
task_of p req = record { pid = p; dkm = some (asking_struct req) }

-- The task 20 asks for a process, the task 21 for a node.
abbrev two_ask : Kernel
two_ask = record {
  ikcd_pid = pos 10;
  tasks = task_of 20 10 ∷ task_of 21 1 ∷ [];
  signals = 2;
  wakes = 0;
}

abbrev marked_struct : DkmStruct
marked_struct = record (asking_struct 10) { req_state = in_get_req }

abbrev one_waits : Kernel
one_waits = record two_ask { tasks = record { pid = 20; dkm = some marked_struct } ∷ [] }

found_20 : find_task 20 one_waits.tasks ≡ some (record { pid = 20; dkm = some marked_struct })
unfolding find_task
found_20 = refl

serve_outgoing-Reported_example :
    Reported 2 creation here 0 resolve_all 3232235778
      (negsuc 0)
      (λ k. k)
      marked_struct
      one_waits
      65535
      lost
      unanswered
      []
      idle_worker
serve_outgoing-Reported_example =
    serve_outgoing-Reported 2 creation here 0 resolve_all 3232235778 (negsuc 0) (λ k. k)
      marked_struct one_waits 65535 lost unanswered [] idle_worker Sendable-creation refl Sane-idle
      found_20 refl

-- A network on which only the response to another request comes in.
abbrev late : ℕ → Bytes → ℕ → Reply × ℕ
late addr m w = (datagram ((pack_proc_creat_resp 77 500).1 ++ []), w)

attempt-any_id_example :
    attempt resolve_all late max_attempts 2 creation 0
    ≡ returned (pos 0) (record creation { arg1 = []; seq_nbr = 77; r_pid = 500 }) 0
attempt-any_id_example =
    attempt-any_id resolve_all late 2 creation 0 0 3232235778 77 500 [] refl refl (omega arith)
      (omega arith) refl

request-loses_file_example :
    (r : Request) × (collect here 0 (request_packet 2 creation) ≡ queued r)
    × (r.filename ≡ t_b)
    × (r.argv ≡ [])
    × (r.o_node ≡ t_a)
    × (r.o_pid ≡ 20)
request-loses_file_example = request-loses_file t_a t_b t_c fresh 20 2 0 here Sendable-creation

abbrev silent : Bytes → ℕ → Option Bytes × ℕ
silent m w = (none, w)

abbrev own : Text → ℕ → Text × ℕ
own file w = (t_a, w)

own_lem :
    (file : Text) (w : ℕ)
    → length file < 257
    → (s : ℤ) × (best_node_for_app (negsuc 0) (pos 3) silent t_a file w
        ≡ some (s, (own file w).0, (own file w).1))
unfolding best_node_for_app
own_lem file w short = (negsuc 0, refl)

both-Distinct : Distinct two_ask.tasks
unfolding find_task
both-Distinct = (refl, (refl, tt))

both-AllAsk : AllAsk 257 two_ask.tasks
both-AllAsk = (
  (λ _. creates (asking_struct 10) t_b t_c refl refl refl refl (omega arith) (omega arith)),
  ((λ _. maps (asking_struct 1) t_c refl refl refl (omega arith)), tt),
)

abbrev daemon : Daemon ℕ
daemon = record { kernel = two_ask; pending_out = []; world = 0 }

-- csd cannot be reached, so that the node is the own one.
get_request-pass_example :
    let r = pass own t_a fresh two_ask.tasks 0 in
    (get_request_from_kernel (negsuc 0) (pos 3) silent t_a fresh [] 3 daemon
      ≡ done (pos 0) (record {
        kernel = record two_ask { tasks = r.tasks; wakes = 0 + r.woken };
        pending_out = [] ++ r.queue;
        world = r.world;
      }))
    × (waiting r.tasks ≡ 0)
unfolding waiting
get_request-pass_example =
    get_request-pass (negsuc 0) (pos 3) silent t_a [] fresh 3 257 own daemon (omega arith) own_lem
      (omega arith) both-Distinct both-AllAsk (omega arith)

passed : (pass own t_a fresh two_ask.tasks 0).queue ≡ creation ∷ []
unfolding pass
passed = refl
