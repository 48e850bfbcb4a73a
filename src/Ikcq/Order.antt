-- ===== src/Ikcq/Order.antt =====
-- Any sequence of queueing and dequeueing on a queue of src/ikcd/ikcq.c.
use dkmp.Base.{ℕ, ◌≡◌, ◌≢◌, refl, false, Option, none, some, List, [], ◌∷◌, ◌++◌}
use dkmp.Base.Chain.{◌>>=◌}
use dkmp.Ikcq.{Queue, queue_request, dequeue_request}
use dkmp.Ikcq.Chain.{Cells, has, IsQueue}
use dkmp.Ikcq.Fifo.{queue_request-IsQueue, dequeue_request-IsQueue, dequeue_empty}

-- A call: a request to queue with the address that `malloc` gives, or a request to take.
pub data Call : Type 0 where
  put : (fresh req : ℕ) → Call
  take : Call

abbrev pub heard : Option ℕ → List ℕ → List ℕ
heard none rs = rs
heard (some r) rs = r ∷ rs

-- The requests that are handed over, in their order, and the queue at the end.
unfoldable pub run : List Call → Queue → Option (List ℕ × Queue)
run [] q = some ([], q)
run (put f req ∷ cs) q = do (status, q') ← queue_request f req q; run cs q'
run (take ∷ cs) q = do
  (status, request, q') ← dequeue_request q
  (rs, q'') ← run cs q'
  some (heard request rs, q'')

-- The same on a list.
abbrev pub rest_of : Cells → Cells
rest_of [] = []
rest_of (x ∷ xs) = xs

abbrev pub first_req : Cells → Option ℕ
first_req [] = none
first_req ((a, r) ∷ xs) = some r

unfoldable pub list_run : List Call → Cells → List ℕ × Cells
list_run [] xs = ([], xs)
list_run (put f req ∷ cs) xs = list_run cs (xs ++ (f, req) ∷ [])
list_run (take ∷ cs) xs =
    let rest = list_run cs (rest_of xs) in (heard (first_req xs) rest.0, rest.1)

-- `malloc` gives addresses that are not in use, and does not fail.
abbrev pub Allocates : List Call → Cells → Type 0
Allocates [] xs = Unit
Allocates (put f req ∷ cs) xs = (f ≢ 0) × (has f xs ≡ false) × Allocates cs (xs ++ (f, req) ∷ [])
Allocates (take ∷ cs) xs = Allocates cs (rest_of xs)

-- A queue in memory hands over what a list would: first in, first out, over any sequence of calls in
-- which `malloc` gives unused memory. It then still is a queue in memory, of what the list holds.
pub run-list_run :
    (cs : List Call) (q : Queue) (xs : Cells)
    → IsQueue q xs
    → Allocates cs xs
    → (q' : Queue) × (run cs q ≡ some ((list_run cs xs).0, q')) × IsQueue q' (list_run cs xs).1
unfolding run list_run
run-list_run [] q xs k h = (q, refl, k)
run-list_run (put f req ∷ cs) q xs k h =
    let (q1, e1, k1) = queue_request-IsQueue q xs f req k h.0 h.1 in
    let (q2, e2, k2) = run-list_run cs q1 (xs ++ (f, req) ∷ []) k1 h.2 in (q2, rw (e1, e2) refl, k2)
run-list_run (take ∷ cs) q [] k h =
    let (q2, e2, k2) = run-list_run cs q [] k h in (q2, rw (dequeue_empty q k, e2) refl, k2)
run-list_run (take ∷ cs) q ((a, r) ∷ xs) k h =
    let (q1, e1, k1) = dequeue_request-IsQueue q a r xs k in
    let (q2, e2, k2) = run-list_run cs q1 xs k1 h in (q2, rw (e1, e2) refl, k2)
