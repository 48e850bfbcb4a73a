-- ===== src/Dkmctl/Execve.antt =====
-- `dkm_execve` of src/dkmke/dkmctl.c: that it returns, and what it keeps of the requests of all tasks.
use dkmp.Base.{ℕ, ◌≡◌, refl, some, ==_iff}
use dkmp.Dkmctl.{
  DkmStruct, Kernel, Started, returns, sleeps, crashes, Finished, finished, crashed, change,
  find_task, Response, respond, with_response,
}
use dkmp.Dkmctl.Sound.{Good}
use dkmp.Dkmctl.Tasks.{find-update}
use dkmp.Dkmctl.Invariant.{Good-respond}

-- The kernel is good, and the task is there with its struct of dkm.
pub record IsRunning (p : ℕ) (k : Kernel) : Type 0 where
  pub good : Good k
  pub dkm : DkmStruct
  pub found : find_task p k.tasks ≡ some (record { pid = p; dkm = some dkm })

find_change :
    (p : ℕ) (f : DkmStruct → DkmStruct) (k : Kernel) (d : DkmStruct)
    → find_task p k.tasks ≡ some (record { pid = p; dkm = some d })
    → find_task p (change p f k).tasks ≡ some (record { pid = p; dkm = some (f d) })
find_change p f k d e = rw (find-update p p f k.tasks, (==_iff p p).1 refl, e) refl

-- The call returns, with the task as it should be.
abbrev pub ReturnsRunning : (p : ℕ) → Finished → Type 0
ReturnsRunning p (finished r k) = IsRunning p k
ReturnsRunning p crashed = ⊥

unfoldable StartsRunning : (p : ℕ) → Started → Type 0
StartsRunning p (returns r k) = IsRunning p k
StartsRunning p (sleeps k) = IsRunning p k
StartsRunning p crashes = ⊥

-- An answer of ikcd to the task's request keeps it so.
pub respond-IsRunning :
    (p req : ℕ) (a : Response) (k : Kernel) → IsRunning p k → IsRunning p (respond p req a k)
respond-IsRunning p req a k g = record {
  good = Good-respond p req a k g.good;
  dkm = with_response req a g.dkm;
  found = find_change p (with_response req a) k g.dkm g.found;
}
