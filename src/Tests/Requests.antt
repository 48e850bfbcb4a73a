-- ===== src/Tests/Requests.antt =====
-- The theorems on the requests of src/ikcd on small queues and backlogs.
use dkmp.Base.{
  ℕ, ◌≡◌, refl, ◌<◌, ◌≤◌, ◌++◌, none, some, List, [], ◌∷◌, ℤ, length, arith, ◌==◌, if◌then◌else◌,
}
use dkmp.Ikcq.{Queue, crashes, remove_request}
use dkmp.Ikcq.Chain.{has, IsQueue}
use dkmp.Ikcq.Fifo.{remove_request-absent}
use dkmp.Ikcq.Order.{Call, put, take, run, list_run, run-list_run}
use dkmp.Ikcd.{
  Address, Request, numbered, queued, overruns, collect, find_number, remove_threads_last_request,
}
use dkmp.Ikcd.Backlog.{
  numbers, Distinct, idle_worker, member, serve_all, once, remove_threads_last-keeps,
}
use dkmp.Ikcd.Backlog.Answers.{replies, serve_all-once}
use dkmp.Ikcd.Collect.{sent_bytes, Arrived, collect-pack}
use dkmp.Ikcd.{Worker}
use dkmp.Tests.{t_a, t_b}

abbrev empty_queue : Queue
empty_queue = record { head = 0; heap = λ a. none }

empty_queue-IsQueue : IsQueue empty_queue []
empty_queue-IsQueue = record { front = refl; chain = tt }

abbrev calls : List Call
calls = put 8 100 ∷ put 16 101 ∷ take ∷ put 8 102 ∷ take ∷ take ∷ take ∷ []

run-list_run_example :
    (q' : Queue) × (run calls empty_queue ≡ some ((list_run calls []).0, q'))
    × IsQueue q' (list_run calls []).1
unfolding has
run-list_run_example =
    run-list_run calls empty_queue [] empty_queue-IsQueue
      ((λ e. omega arith), refl, ((λ e. omega arith), refl, ((λ e. omega arith), refl, tt)))

in_order : (list_run calls []).0 ≡ 100 ∷ 101 ∷ 102 ∷ []
unfolding list_run
in_order = refl

abbrev one_cell : Queue
one_cell = record {
  head = 8;
  heap = λ a. if a == 8 then some (record { req = 100; next = 0; prev = 8 }) else none;
}

one_cell-IsQueue : IsQueue one_cell ((8, 100) ∷ [])
unfolding has
one_cell-IsQueue = record { front = refl; chain = ((λ e. omega arith), refl, refl, tt) }

remove_request-absent_example : remove_request 50 7 one_cell ≡ crashes
remove_request-absent_example =
    remove_request-absent one_cell 8 100 [] 50 7 one_cell-IsQueue refl (refl, tt) (omega arith)

abbrev two_cells : Queue
two_cells = record {
  head = 8;
  heap = λ a.
      if a == 8
      then some (record { req = 100; next = 16; prev = 16 })
      else if a == 16
      then some (record { req = 101; next = 0; prev = 8 })
      else none;
}

abbrev sender : Address
sender = record { addr = 3232235777; port = 5000 }

abbrev arrived : ℕ → Request
arrived n =
    numbered sender 0 n
      (record { seq = 0; o_pid = 4000; o_hostname = t_a; o_filename = t_b; o_argv = [] })

abbrev requests : List Request
requests = arrived 70000 ∷ arrived 70001 ∷ arrived 70000 ∷ []

serve_all-once_example :
    (w : Worker) × (serve_all requests idle_worker ≡ some w)
    × (w.sent ≡ replies requests [])
    × (w.proceeded ≡ once requests [])
    × Distinct w.proceeded
    × (numbers w.backlog ≡ w.proceeded)
serve_all-once_example = serve_all-once requests (refl, (refl, (refl, tt)))

each_once : once requests [] ≡ 70001 ∷ 70000 ∷ []
unfolding once member
each_once = refl

remove_threads_last-keeps_example :
    (status : ℤ) × (remove_threads_last_request (arrived 70001) (arrived 70000 ∷ [])
      ≡ some (status, arrived 70000 ∷ []))
unfolding find_number
remove_threads_last-keeps_example =
    remove_threads_last-keeps (arrived 70001) (arrived 70000 ∷ []) refl

collect-pack_example :
    (length t_a ≤ 64
      → (r : Request) × (collect sender 0 (sent_bytes 2 5 4000 t_a t_b [] ++ 9 ∷ []) ≡ queued r)
        × Arrived sender 2 5 4000 t_a t_b [] r)
    × (64 < length t_a → collect sender 0 (sent_bytes 2 5 4000 t_a t_b [] ++ 9 ∷ []) ≡ overruns)
collect-pack_example =
    collect-pack sender 0 2 5 4000 t_a t_b [] (9 ∷ []) (omega arith) (omega arith)
      ((λ e. omega arith), tt) ((λ e. omega arith), tt) tt (omega arith)
