-- ===== src/Dkmctl/Sound.antt =====
-- When a task's request is pending: what src/dkmke/dkmctl.c keeps of each task, and changes of one task.
use dkmp.Base.{
  ℕ, ◌≡◌, ◌≢◌, refl, inl, inr, true, Option, none, some, List, [], ◌∷◌, arith, ◌==◌, Bool-cases,
}
use dkmp.Dkmctl.{not_in_progress, DkmStruct, Task, Kernel, find_task, on_dkm, update_task, change}
use dkmp.Dkmctl.Tasks.{Distinct, pid-on_dkm, find-update}

abbrev pub Sound : Option DkmStruct → Type 0
Sound none = Unit
Sound (some d) = d.pending_req ≡ true → d.req_state ≢ not_in_progress

abbrev pub AllSound : List Task → Type 0
AllSound [] = Unit
AllSound (t ∷ ts) = Sound t.dkm × AllSound ts

abbrev pub Good : Kernel → Type 0
Good k = Distinct k.tasks × AllSound k.tasks

find_task-update_none :
    (p q : ℕ) (f : DkmStruct → DkmStruct) (ts : List Task)
    → find_task q ts ≡ none
    → find_task q (update_task p f ts) ≡ none
find_task-update_none p q f ts h = ground (arith, find-update p q f ts)

pub Distinct-update :
    (p : ℕ) (f : DkmStruct → DkmStruct) (ts : List Task)
    → Distinct ts
    → Distinct (update_task p f ts)
unfolding update_task
Distinct-update p f [] d = tt
Distinct-update p f (t ∷ ts) d = elim (Bool-cases (t.pid == p)) [
  | inl here ↦ rw here (rw (pid-on_dkm f t) d.0, d.1)
  | inr there ↦ rw there (find_task-update_none p t.pid f ts d.0, Distinct-update p f ts d.1)
]

-- `f` keeps the task that is changed sound.
abbrev pub KeepsAt : ℕ → (DkmStruct → DkmStruct) → List Task → Type 0
KeepsAt p f ts = (t : Task) → find_task p ts ≡ some t → Sound t.dkm → Sound (on_dkm f t).dkm

AllSound-update :
    (p : ℕ) (f : DkmStruct → DkmStruct) (ts : List Task)
    → KeepsAt p f ts
    → AllSound ts
    → AllSound (update_task p f ts)
unfolding update_task find_task
AllSound-update p f [] keep s = tt
AllSound-update p f (t ∷ ts) keep s = elim (Bool-cases (t.pid == p)) [
  | inl here ↦ rw here (keep t (rw here refl) s.0, s.1)
  | inr there ↦ rw there (s.0, AllSound-update p f ts (λ u e k. keep u (rw there e) k) s.1)
]

pub Good-update :
    (p : ℕ) (f : DkmStruct → DkmStruct) (k : Kernel)
    → KeepsAt p f k.tasks
    → Good k
    → Good (change p f k)
Good-update p f k keep g = (Distinct-update p f k.tasks g.0, AllSound-update p f k.tasks keep g.1)
