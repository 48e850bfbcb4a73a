-- ===== src/Ikcq/Fifo.antt =====
-- The operations of src/ikcd/ikcq.c on the list of requests that a queue holds.
use dkmp.Base.{
  ℕ, zero, suc, ◌≡◌, ◌≢◌, refl, sym, ap, ◌∙◌, true, false, none, some, [], ◌∷◌, ◌++◌, arith, ◌==◌,
  ==_iff, pos, ◌+◌, ◌≤◌, length,
}
use dkmp.Ikcq.{
  Cell, Heap, store, write, with_next, Queue, e_noqueue, queue_request, dequeue_request, unlink,
  search, bad_read, crashes, remove_request,
}
use dkmp.Ikcq.Chain.{
  Cells, first_of, last_of, has, Chain, IsQueue, store_self, store-other, Chain-frame, head_cell,
  write-with_prev, Chain-with_prev, last-other, last_of-snoc, Chain-snoc,
}

pub eq_false : (a : ℕ) → a ≢ 0 → (a == 0) ≡ false
eq_false a h = ground arith

pub eq_refl : (a : ℕ) → (a == a) ≡ true
eq_refl a = (==_iff a a).1 refl

pub write_cell :
    (a : ℕ) (f : Cell → Cell) (h : Heap) (c : Cell)
    → h a ≡ some c
    → write a f h ≡ some (store a (some (f c)) h)
unfolding write
write_cell a f h c e = rw e refl

-- A request comes behind the requests of the queue, if there is memory at an address that no cell of
-- the queue has.
pub queue_request-IsQueue :
    (q : Queue) (xs : Cells) (f req : ℕ)
    → IsQueue q xs
    → f ≢ 0
    → has f xs ≡ false
    → (q' : Queue) × (queue_request f req q ≡ some (pos 0, q')) × IsQueue q' (xs ++ (f, req) ∷ [])
unfolding queue_request
queue_request-IsQueue q [] f req k nz new =
    let q' : Queue = record { head = f; heap = store f (head_cell req [] f) q.heap } in
    (
      q',
      rw (eq_false f nz, k.front) refl,
      record {
        front = refl;
        chain = (nz, (unfold has in refl), store_self f (head_cell req [] f) q.heap, tt);
      },
    )
queue_request-IsQueue q ((a, r) ∷ xs) f req k nz new =
    let t = last_of a xs in
    let h0 = store f (some (record { req = req; next = 0; prev = t })) q.heap in
    let c0 =
      Chain-frame f (some (record { req = req; next = 0; prev = t })) q.heap ((a, r) ∷ xs) t new
        k.chain in
    let (c, found, ends, chain1) = Chain-snoc h0 a r xs t f req c0 nz new (store_self f _ q.heap) in
    let h1 = store t (some (with_next f c)) h0 in
    let ys = xs ++ (f, req) ∷ [] in
    let chain2 = Chain-with_prev a r h1 ys t f chain1 in
    let q' : Queue = record { head = a; heap = store a (head_cell r ys f) h1 } in
    let apart = last-other f a r xs new in
    let read =
      sym (store-other f t (some (record { req = req; next = 0; prev = t })) q.heap (ground arith))
      ∙ found in
    let e1 = write_cell t (with_next f) h0 c found in
    let e2 = write-with_prev a r h1 ys t f chain1.2 in
    (
      q',
      rw (eq_false f nz, k.front, eq_false a k.chain.0, k.chain.2, read, ends, e1, e2) refl,
      record { front = refl; chain = rw (last_of-snoc a f req xs) chain2 },
    )

first-other : (a b s : ℕ) (ys : Cells) → has a ((b, s) ∷ ys) ≡ false → (b == a) ≡ false
unfolding has
first-other a b s ys e = ground arith

-- No cell holds the request.
abbrev pub Without : (req : ℕ) → Cells → Type 0
Without req [] = Unit
Without req ((a, r) ∷ xs) = ((r == req) ≡ false) × Without req xs

search-absent :
    (h : Heap) (xs : Cells) (pv rounds req : ℕ)
    → h 0 ≡ none
    → Chain h xs pv
    → Without req xs
    → length xs + 1 ≤ rounds
    → search rounds (first_of xs) req h ≡ bad_read
unfolding search
search-absent h xs pv zero req nothing k without n = absurd (omega (arith, n))
search-absent h [] pv (suc n) req nothing k without m = rw nothing refl
search-absent h ((a, r) ∷ xs) pv (suc n) req nothing k without m =
    rw (k.2, without.0) (search-absent h xs a n req nothing k.3 without.1 (omega (arith, m)))

-- The first cell of the queue is taken out.
pub unlink_first :
    (q : Queue) (a r : ℕ) (xs : Cells)
    → IsQueue q ((a, r) ∷ xs)
    → (q' : Queue) × (unlink a q ≡ some (r, q')) × IsQueue q' xs
unfolding unlink
unlink_first q a r [] k =
    let e = write-with_prev a r q.heap [] a a k.chain.2 in
    let h1 = store a (head_cell r [] a) q.heap in
    (
      record { head = 0; heap = store a none h1 },
      rw (k.front, k.chain.2, eq_refl a, k.chain.2, eq_refl a, e) refl,
      record { front = refl; chain = tt },
    )
unlink_first q a r ((b, s) ∷ ys) k =
    let t = last_of b ys in
    let h1 = store b (head_cell s ys t) q.heap in
    let c1 = Chain-with_prev b s q.heap ys a t k.chain.3 in
    let e1 = write-with_prev b s q.heap ys a t k.chain.3.2 in
    let ne : (b == a) ≡ false = first-other a b s ys k.chain.1 in
    let read = store-other b a (head_cell s ys t) q.heap ne ∙ k.chain.2 in
    let away : (a == t) ≡ false = ground (arith, last-other a b s ys k.chain.1) in
    let q' : Queue = record { head = b; heap = store a none h1 } in
    (
      q',
      rw (k.front, k.chain.2, eq_false b k.chain.3.0, e1, eq_refl a, read, away) refl,
      record { front = refl; chain = Chain-frame a none h1 ((b, s) ∷ ys) t k.chain.1 c1 },
    )

-- The first request of the queue is handed over.
pub dequeue_request-IsQueue :
    (q : Queue) (a r : ℕ) (xs : Cells)
    → IsQueue q ((a, r) ∷ xs)
    → (q' : Queue) × (dequeue_request q ≡ some (pos 0, some r, q')) × IsQueue q' xs
unfolding dequeue_request
dequeue_request-IsQueue q a r xs k =
    let (q', e, k') = unlink_first q a r xs k in
    let some_cell = ap (λ b. b == 0) k.front ∙ eq_false a k.chain.0 in
    let out = ap (λ b. unlink b q) k.front ∙ e in (q', rw (some_cell, out) refl, k')

-- An empty queue hands nothing over.
pub dequeue_empty : (q : Queue) → IsQueue q [] → dequeue_request q ≡ some (e_noqueue, none, q)
unfolding dequeue_request
dequeue_empty q k = rw k.front refl

-- Removing a request that no cell of a queue with at least one cell holds ends in a read through NULL,
-- which is not allocated, once the search has taken a round for each cell and one more: the cell is read
-- before its address is compared with NULL.
pub remove_request-absent :
    (q : Queue) (a r : ℕ) (xs : Cells) (rounds req : ℕ)
    → IsQueue q ((a, r) ∷ xs)
    → q.heap 0 ≡ none
    → Without req ((a, r) ∷ xs)
    → length xs + 2 ≤ rounds
    → remove_request rounds req q ≡ crashes
unfolding remove_request
remove_request-absent q a r xs rounds req k nothing without n =
    let n' : length ((a, r) ∷ xs) + 1 ≤ rounds = omega (arith, n) in
    rw
      (
        k.front,
        eq_false a k.chain.0,
        search-absent q.heap ((a, r) ∷ xs) (last_of a xs) rounds req nothing k.chain without n',
      )
      refl
