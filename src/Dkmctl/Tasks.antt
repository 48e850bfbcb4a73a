-- ===== src/Dkmctl/Tasks.antt =====
-- Searching and changing the list of tasks, and the loop of DKM_GET_REQ.
use dkmp.Base.{
  ℕ, ◌+◌, ◌≡◌, refl, ap, inl, inr, ◌⊎◌, true, false, Option, none, some, List, [], ◌∷◌, arith, ◌==◌,
  ==_iff, if◌then◌else◌, Bool-cases,
}
use dkmp.Dkmctl.{
  DkmStruct, Task, find_task, on_dkm, update_task, wants_request, taken, req_of, take_request,
}

-- No two tasks have one pid.
abbrev pub Distinct : List Task → Type 0
Distinct [] = Unit
Distinct (t ∷ ts) = (find_task t.pid ts ≡ none) × Distinct ts

abbrev pub map_task : (Task → Task) → Option Task → Option Task
map_task f none = none
map_task f (some t) = some (f t)

pub pid-on_dkm : (f : DkmStruct → DkmStruct) (t : Task) → (on_dkm f t).pid ≡ t.pid
pid-on_dkm f t = ground arith

pub find-update :
    (p q : ℕ) (f : DkmStruct → DkmStruct) (ts : List Task)
    → find_task q (update_task p f ts)
      ≡ (if p == q then map_task (on_dkm f) (find_task q ts) else find_task q ts)
unfolding find_task update_task
find-update p q f [] = ground arith
find-update p q f (t ∷ ts) = ground (arith, pid-on_dkm f t, find-update p q f ts)

-- How many tasks wait for ikcd to take their request.
unfoldable pub waiting : List Task → ℕ
waiting [] = 0
waiting (t ∷ ts) = (if wants_request t then 1 else 0) + waiting ts

-- What DKM_GET_REQ takes: the request of a task that wants it, which then no longer does.
pub record Takes (ts : List Task) (p r : ℕ) (us : List Task) : Type 0 where
  pub marked : us ≡ update_task p taken ts
  pub task : Task
  pub found : find_task p ts ≡ some task
  pub wanted : wants_request task ≡ true
  pub request : req_of task ≡ r
  pub fewer : waiting us + 1 ≡ waiting ts

wants-taken : (t : Task) → wants_request (on_dkm taken t) ≡ false
wants-taken t = ground arith

Takes-here :
    (t : Task) (ts : List Task)
    → wants_request t ≡ true
    → Takes (t ∷ ts) t.pid (req_of t) (on_dkm taken t ∷ ts)
unfolding update_task find_task waiting
Takes-here t ts w = record {
  marked = ground arith;
  task = t;
  found = ground arith;
  wanted = w;
  request = refl;
  fewer = rw (w, wants-taken t) (omega arith);
}

find_task-ne :
    (p q : ℕ) (ts : List Task) (t : Task)
    → find_task p ts ≡ none
    → find_task q ts ≡ some t
    → (p == q) ≡ false
find_task-ne p q ts t h k = elim (Bool-cases (p == q)) [
  | inl same ↦ absurd (false_some (rw ((==_iff p q).0 same) at h) k)
  | inr other ↦ other
]
  where
    false_some : find_task q ts ≡ none → find_task q ts ≡ some t → ⊥
    false_some a b = cc

Takes-there :
    (t : Task) (ts : List Task) {p r : ℕ} {us : List Task}
    → Distinct (t ∷ ts)
    → wants_request t ≡ false
    → Takes ts p r us
    → Takes (t ∷ ts) p r (t ∷ us)
unfolding update_task find_task waiting
Takes-there t ts {p} d w k =
    let ne = find_task-ne t.pid p ts k.task d.0 k.found in
    record {
      marked = rw ne (ap (◌∷◌ t) k.marked);
      task = k.task;
      found = rw ne k.found;
      wanted = k.wanted;
      request = k.request;
      fewer = rw w (omega (arith, k.fewer));
    }

-- What the loop of DKM_GET_REQ finds is the request of a task that wants it; the loop finds nothing
-- exactly if no task wants anything.
pub take_request-Takes :
    (ts : List Task)
    → Distinct ts
    → ((p : ℕ) × (r : ℕ) × (us : List Task) × (take_request ts ≡ some (p, r, us)) × Takes ts p r us)
      ⊎ ((take_request ts ≡ none) × (waiting ts ≡ 0))
unfolding take_request waiting
take_request-Takes [] d = inr (refl, refl)
take_request-Takes (t ∷ ts) d = elim (Bool-cases (wants_request t)) [
  | inl here ↦ inl (t.pid, req_of t, on_dkm taken t ∷ ts, rw here refl, Takes-here t ts here)
  | inr not_here ↦ elim (take_request-Takes ts d.1) [
    | inl (p, r, us, e, k) ↦
        inl (p, r, t ∷ us, rw (not_here, e) refl, Takes-there t ts d not_here k)
    | inr (e, k) ↦ inr (rw (not_here, e) refl, rw not_here (omega arith))
  ]
]
