-- ===== src/Dkmctl/Handshake.antt =====
-- A request from the task that makes it to ikcd and back.
use dkmp.Base.{
  ℕ, suc, ◌+◌, ◌≡◌, refl, sym, ◌∙◌, inl, inr, ◌⊎◌, Bool, true, false, none, some, List, [], ◌∷◌,
  arith, ◌==◌, ==_iff, Bool-cases, pos, Text,
}
use dkmp.Dkmctl.{
  not_in_progress, DkmStruct, Task, Kernel, find_task, update_task, wants_request, taken, req_of,
  map_req, take_request, ret, get_req, get_args, Response, with_response, respond, put_resp, sleeps,
  asking, start_req,
}
use dkmp.Dkmctl.Tasks.{Distinct, find-update, Takes, waiting, take_request-Takes}
use dkmp.Dkmctl.Sound.{Distinct-update}

-- DKM_GET_REQ hands out the request of a task that asks for it, exactly once: that task and no
-- other is marked, and one task fewer asks. It returns 1, and changes nothing, exactly if no task
-- asks. No two tasks have one pid.
pub get_req_once :
    (k : Kernel)
    → Distinct k.tasks
    → ((p : ℕ) × (r : ℕ) × (k' : Kernel) × (get_req k ≡ ret (pos 0) (some (p, r)) k')
        × Takes k.tasks p r k'.tasks
        × ((q : ℕ) → (p == q) ≡ false → find_task q k'.tasks ≡ find_task q k.tasks))
      ⊎ ((get_req k ≡ ret (pos 1) none k) × (waiting k.tasks ≡ 0))
unfolding get_req
get_req_once k d = elim (take_request-Takes k.tasks d) [
  | inl (p, r, us, e, takes) ↦ inl (
    p,
    r,
    record k { tasks = us },
    rw e refl,
    takes,
    λ q ne. rw (takes.marked, find-update p q taken k.tasks, ne) refl,
  )
  | inr (e, z) ↦ inr (rw e refl, z)
]

waiting-zero :
    (q : ℕ) (ts : List Task) (t : Task)
    → waiting ts ≡ 0
    → find_task q ts ≡ some t
    → wants_request t ≡ false
unfolding waiting find_task
waiting-zero q [] t z e = cc
waiting-zero q (u ∷ ts) t z e = ground (arith, waiting-zero q ts t)

-- What the answer to a MAP_REQ leaves in the task.
abbrev pub mapped : Text → DkmStruct → DkmStruct
mapped node d = record d { r_node = some node; pending_req = false; req_state = not_in_progress }

abbrev task_with : ℕ → DkmStruct → Task
task_with p d = record { pid = p; dkm = some d }

false-true : {b : Bool} → b ≡ false → b ≡ true → ⊥
false-true e h = cc

module _ (k : Kernel) (p i : ℕ) (d : DkmStruct) (t : Task) (file : Text) (a : Response)
    (found : find_task p k.tasks ≡ some (task_with p d)) (asks : d.req ≡ map_req)
    (named : d.file_name ≡ some file) (ikcd : k.ikcd_pid ≡ pos (suc i))
    (other : (p == suc i) ≡ false) (alive : find_task (suc i) k.tasks ≡ some t) where
  abbrev asked : Kernel
  asked = record k { tasks = update_task p asking k.tasks; signals = k.signals + 1 }

  start_sleeps : start_req p k ≡ sleeps asked
  unfolding start_req
  start_sleeps = rw (found, ikcd, other, asks, alive) refl

  found_asked : find_task p asked.tasks ≡ some (task_with p (asking d))
  found_asked = rw (find-update p p asking k.tasks, (==_iff p p).1 refl, found) refl

  -- No other task of `asked` asks, if none of `k` did.
  Takes-self :
      (p' r : ℕ) (us : List Task)
      → waiting k.tasks ≡ 0
      → Takes asked.tasks p' r us
      → (p ≡ p') × (r ≡ map_req)
  Takes-self p' r us z takes = elim (Bool-cases (p == p')) [
    | inl same ↦
        let e : p ≡ p' = (==_iff p p').0 same in
        let t' : some takes.task ≡ some (task_with p (asking d)) =
          sym takes.found ∙ rw (← e) found_asked in
        let r' : req_of takes.task ≡ req_of (task_with p (asking d)) = cc t' in
        (e, sym takes.request ∙ r' ∙ asks)
    | inr differs ↦
        let old : find_task p' k.tasks ≡ some takes.task =
          sym (rw differs at (find-update p p' asking k.tasks)) ∙ takes.found in
        absurd (false-true (waiting-zero p' k.tasks takes.task z old) takes.wanted)
  ]

  asked_waits : waiting asked.tasks ≡ 0 → ⊥
  asked_waits z =
      false-true (waiting-zero p asked.tasks (task_with p (asking d)) z found_asked) (rw asks refl)

  taken_found :
      (us : List Task)
      → us ≡ update_task p taken asked.tasks
      → find_task p us ≡ some (task_with p (taken (asking d)))
  taken_found us e =
      rw (e, find-update p p taken asked.tasks, (==_iff p p).1 refl, found_asked) refl

  -- A task that asks for the node of a program, while ikcd is registered as another task, no other
  -- task asks and no two tasks have one pid: it sleeps; ikcd gets its pid and request, then its
  -- file name, and puts a node; then the task has that node, is no longer pending, and the queue
  -- was woken.
  pub map_handshake :
      waiting k.tasks ≡ 0
      → Distinct k.tasks
      → (k2 : Kernel) × (start_req p k ≡ sleeps asked)
        × (get_req asked ≡ ret (pos 0) (some (p, map_req)) k2)
        × (get_args p map_req k2 ≡ ret (pos 0) (file ∷ []) k2)
        × (put_resp p map_req a k2 ≡ ret (pos 0) tt (respond p map_req a k2))
        × (find_task p (respond p map_req a k2).tasks ≡ some (task_with p (mapped a.node d)))
        × ((respond p map_req a k2).wakes ≡ k.wakes + 1)
  unfolding get_req get_args put_resp
  map_handshake z distinct =
      elim (take_request-Takes asked.tasks (Distinct-update p asking k.tasks distinct)) [
        | inl (p', r, us, e, takes) ↦
            let (same, req) = Takes-self p' r us z takes in
            let e' : take_request asked.tasks ≡ some (p, map_req, us) = e ∙ rw (same, req) refl in
            let f = taken_found us (rw (← same) at takes.marked) in
            (
              record asked { tasks = us },
              start_sleeps,
              rw e' refl,
              rw (f, asks, named) refl,
              rw (f, asks) refl,
              rw (find-update p p (with_response map_req a) us, (==_iff p p).1 refl, f) refl,
              refl,
            )
        | inr (e, none_waits) ↦ absurd (asked_waits none_waits)
      ]
