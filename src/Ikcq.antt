-- ===== src/Ikcq.antt =====
-- src/ikcd/ikcq.c: the queues of requests, as cells in memory. 0 is NULL, and an address that holds no
-- cell is not allocated. `malloc` gives the address `fresh`; the mutex of a queue is not modelled.
pub mod Chain
pub mod CutOut
pub mod Fifo
pub mod Order
pub mod Remove
use dkmp.Base.{
  ℕ, zero, suc, ◌+◌, Bool, true, false, not, ◌&&◌, Option, none, some, List, [], ◌∷◌, ◌==◌,
  if◌then◌else◌, ℤ, pos, negsuc,
}
use dkmp.Base.Chain.{◌>>=◌}

-- `struct ikc_request_queue`; a request is known by its address.
pub record Cell : Type 0 where
  pub req : ℕ
  pub next : ℕ
  pub prev : ℕ

abbrev pub Heap : Type 0
Heap = ℕ → Option Cell

unfoldable pub store : ℕ → Option Cell → Heap → Heap
store a c h b = if a == b then c else h b

-- A write to a field of a cell. A write to memory that is not allocated has no result.
abbrev pub write_to : ℕ → (Cell → Cell) → Heap → Option Cell → Option Heap
write_to a f h none = none
write_to a f h (some c) = some (store a (some (f c)) h)

unfoldable pub write : ℕ → (Cell → Cell) → Heap → Option Heap
write a f h = write_to a f h (h a)

abbrev pub with_next : ℕ → Cell → Cell
with_next b c = record c { next = b }

abbrev pub with_prev : ℕ → Cell → Cell
with_prev b c = record c { prev = b }

-- `struct ikc_queue_head` with the memory: `head->queue`, and the cells.
pub record Queue : Type 0 where
  pub head : ℕ
  pub heap : Heap

abbrev pub e_nomem : ℤ
e_nomem = negsuc 0

abbrev pub e_noqueue : ℤ
e_noqueue = negsuc 1

-- The new cell behind the tail, which the head's `prev` leads to.
abbrev pub link_behind : (fresh req : ℕ) → Queue → Option Queue
link_behind fresh req q = do
  first ← q.heap q.head
  tail ← q.heap first.prev
  h1 ←
      write first.prev (with_next fresh)
        (store fresh (some (record { req = req; next = tail.next; prev = first.prev })) q.heap)
  h2 ← write q.head (with_prev fresh) h1
  some (record { head = q.head; heap = h2 })

abbrev pub with_status : ℤ → Option Queue → Option (ℤ × Queue)
with_status s none = none
with_status s (some q) = some (s, q)

unfoldable pub queue_request : (fresh req : ℕ) → Queue → Option (ℤ × Queue)
queue_request fresh req q =
    if fresh == 0
    then some (e_nomem, q)
    else if q.head == 0
    then some (
      pos 0,
      record {
        head = fresh;
        heap = store fresh (some (record { req = req; next = 0; prev = fresh })) q.heap;
      },
    )
    else with_status (pos 0) (link_behind fresh req q)

-- Taking a cell out: the cell behind it, the cell before it, the tail and the head are changed in turn,
-- and the cell is freed.
abbrev pub write_if : Bool → ℕ → (Cell → Cell) → Heap → Option Heap
write_if true a f h = write a f h
write_if false a f h = some h

unfoldable pub unlink : (cell : ℕ) → Queue → Option (ℕ × Queue)
unlink a q = do
  c ← q.heap a
  h1 ← write_if (not (c.next == 0)) c.next (with_prev c.prev) q.heap
  h2 ← write_if (not (a == q.head)) c.prev (with_next c.next) h1
  first ← h2 q.head
  h3 ← write_if (a == first.prev) q.head (with_prev c.prev) h2
  some (c.req, record { head = if a == q.head then c.next else q.head; heap = store a none h3 })

abbrev pub with_success : Option (ℕ × Queue) → Option (ℤ × Option ℕ × Queue)
with_success none = none
with_success (some (r, q)) = some (pos 0, some r, q)

-- The status, the request that is handed over, and the queue.
unfoldable pub dequeue_request : Queue → Option (ℤ × Option ℕ × Queue)
dequeue_request q =
    if q.head == 0 then some (e_noqueue, none, q) else with_success (unlink q.head q)

-- The search of `ikcq_remove_request`, which reads a cell before it compares its address with NULL: a
-- cell; a read of memory that is not allocated; or rounds that are used up.
pub data Search : Type 0 where
  found : (cell : ℕ) → Search
  bad_read out_of_rounds : Search

abbrev pub search_at : Option Cell → (cell req : ℕ) → (ℕ → Search) → Search
search_at none a req go = bad_read
search_at (some c) a req go = if c.req == req then found a else go c.next

unfoldable pub search : (rounds : ℕ) → (cell req : ℕ) → Heap → Search
search zero a req h = out_of_rounds
search (suc n) a req h = search_at (h a) a req (λ b. search n b req h)

-- How a removal ends: with a status, the request that was freed, and the queue; with an access to
-- memory that is not allocated; or with rounds that are used up.
pub data Removal : Type 0 where
  returns : (status : ℤ) (freed : Option ℕ) → Queue → Removal
  crashes unfinished : Removal

-- The request that the cell held is freed as well.
abbrev pub freeing : Option (ℕ × Queue) → Removal
freeing none = crashes
freeing (some (r, q)) = returns (pos 0) (some r) q

abbrev pub remove_found : Search → Queue → Removal
remove_found (found a) q = freeing (unlink a q)
remove_found bad_read q = crashes
remove_found out_of_rounds q = unfinished

unfoldable pub remove_request : (rounds req : ℕ) → Queue → Removal
remove_request rounds req q =
    if q.head == 0
    then returns e_noqueue none q
    else remove_found (search rounds q.head req q.heap) q
