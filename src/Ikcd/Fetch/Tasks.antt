-- ===== src/Ikcd/Fetch/Tasks.antt =====
-- The list of tasks around the first one that asks.
use dkmp.Base.{
  ℕ, ◌+◌, ◌≡◌, refl, ap, inl, inr, true, false, none, some, List, [], ◌∷◌, ◌++◌, arith, ◌==◌,
  ==_iff, Bool-cases,
}
use dkmp.Dkmctl.{
  DkmStruct, Task, find_task, on_dkm, update_task, wants_request, taken, req_of, take_request,
}
use dkmp.Dkmctl.Tasks.{Distinct, waiting}

pub find-behind :
    (pre : List Task) (t : Task) (ts : List Task)
    → find_task t.pid pre ≡ none
    → find_task t.pid (pre ++ t ∷ ts) ≡ some t
unfolding find_task
find-behind [] t ts e = rw ((==_iff t.pid t.pid).1 refl) refl
find-behind (u ∷ pre) t ts e = ground (arith, find-behind pre t ts)

pub update-behind :
    (f : DkmStruct → DkmStruct) (pre : List Task) (t : Task) (ts : List Task)
    → find_task t.pid pre ≡ none
    → update_task t.pid f (pre ++ t ∷ ts) ≡ pre ++ on_dkm f t ∷ ts
unfolding find_task update_task
update-behind f [] t ts e = rw ((==_iff t.pid t.pid).1 refl) refl
update-behind f (u ∷ pre) t ts e = elim (Bool-cases (u.pid == t.pid)) [
  | inl here ↦ absurd (none_some (rw here at e))
  | inr away ↦ rw away (ap (◌∷◌ u) (update-behind f pre t ts (rw away at e)))
]
  where
    none_some : {u : Task} → some u ≡ none → ⊥
    none_some e = cc e

pub waiting-append : (ts us : List Task) → waiting (ts ++ us) ≡ waiting ts + waiting us
unfolding waiting
waiting-append [] us = omega arith
waiting-append (t ∷ ts) us = omega (arith, waiting-append ts us)

pub take-none : (ts : List Task) → waiting ts ≡ 0 → take_request ts ≡ none
unfolding waiting take_request
take-none [] z = refl
take-none (t ∷ ts) z = elim (Bool-cases (wants_request t)) [
  | inl asks ↦ absurd (omega (arith, rw asks at z))
  | inr idle ↦ let z' : waiting ts ≡ 0 = omega (arith, z) in rw (idle, take-none ts z') refl
]

pub take-behind :
    (pre : List Task) (t : Task) (ts : List Task)
    → waiting pre ≡ 0
    → wants_request t ≡ true
    → take_request (pre ++ t ∷ ts) ≡ some (t.pid, req_of t, pre ++ on_dkm taken t ∷ ts)
unfolding waiting take_request
take-behind [] t ts z asks = rw asks refl
take-behind (u ∷ pre) t ts z asks = elim (Bool-cases (wants_request u)) [
  | inl more ↦ absurd (omega (arith, rw more at z))
  | inr idle ↦
      let z' : waiting pre ≡ 0 = omega (arith, z) in rw (idle, take-behind pre t ts z' asks) refl
]

-- A task stands behind others only if its pid is not theirs.
find-in :
    (p : ℕ) (pre : List Task) (t : Task) (ts : List Task)
    → find_task p (pre ++ t ∷ ts) ≡ none
    → (p == t.pid) ≡ false
unfolding find_task
find-in p [] t ts e = ground arith
find-in p (u ∷ pre) t ts e = ground (arith, find-in p pre t ts)

pub Distinct-absent :
    (pre : List Task) (t : Task) (ts : List Task)
    → Distinct (pre ++ t ∷ ts)
    → find_task t.pid pre ≡ none
unfolding find_task
Distinct-absent [] t ts d = refl
Distinct-absent (u ∷ pre) t ts d = rw (find-in u.pid pre t ts d.0) (Distinct-absent pre t ts d.1)

find-same_pid :
    (q : ℕ) (pre : List Task) (t t' : Task) (ts : List Task)
    → t'.pid ≡ t.pid
    → find_task q (pre ++ t ∷ ts) ≡ none
    → find_task q (pre ++ t' ∷ ts) ≡ none
unfolding find_task
find-same_pid q [] t t' ts e h = ground arith
find-same_pid q (u ∷ pre) t t' ts e h = ground (arith, find-same_pid q pre t t' ts e)

-- Only the pids count.
pub Distinct-same_pid :
    (pre : List Task) (t t' : Task) (ts : List Task)
    → t'.pid ≡ t.pid
    → Distinct (pre ++ t ∷ ts)
    → Distinct (pre ++ t' ∷ ts)
Distinct-same_pid [] t t' ts e d = (rw e d.0, d.1)
Distinct-same_pid (u ∷ pre) t t' ts e d =
    (find-same_pid u.pid pre t t' ts e d.0, Distinct-same_pid pre t t' ts e d.1)
