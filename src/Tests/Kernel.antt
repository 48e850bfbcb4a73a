-- ===== src/Tests/Kernel.antt =====
-- The theorems on src/dkmke/dkmctl.c with ikcd as task 10 and one program as task 20.
use dkmp.Base.{ℕ, ◌≡◌, refl, ◌+◌, ◌⊎◌, ◌==◌, false, none, some, [], ◌∷◌, pos, negsuc}
use dkmp.Dkmctl.{
  not_in_progress, DkmStruct, Task, Kernel, find_task, map_req, ret, get_req, get_args, Response,
  respond, put_resp, sleeps, start_req, idle, asking, ikcd_reg, update_task,
}
use dkmp.Dkmctl.Tasks.{Distinct, Takes, waiting}
use dkmp.Dkmctl.Invariant.{Reach, boot, next, reg, born, sleep, Reach-Good}
use dkmp.Dkmctl.Sound.{Good}
use dkmp.Dkmctl.Handshake.{mapped, get_req_once, map_handshake}
use dkmp.Tests.{t_a, t_b, t_c}

abbrev program : DkmStruct
program = record {
  distributed = false;
  pending_req = false;
  req_state = not_in_progress;
  req = map_req;
  r_pid = 0;
  file_name = some t_a;
  o_node = some t_b;
  r_node = none;
}

abbrev ikcd_struct : DkmStruct
ikcd_struct = record {
  distributed = false;
  pending_req = false;
  req_state = not_in_progress;
  req = 0;
  r_pid = 0;
  file_name = none;
  o_node = none;
  r_node = none;
}

abbrev task_with : ℕ → DkmStruct → Task
task_with p d = record { pid = p; dkm = some d }

abbrev machine : Kernel
machine = record {
  ikcd_pid = pos 10;
  tasks = task_with 20 program ∷ task_with 10 ikcd_struct ∷ [];
  signals = 0;
  wakes = 0;
}

distinct : Distinct machine.tasks
unfolding find_task
distinct = (refl, (refl, tt))

abbrev answer_c : Response
answer_c = record { node = t_c; r_pid = 0 }

abbrev asked_machine : Kernel
asked_machine = record machine { tasks = update_task 20 asking machine.tasks; signals = 1 }

Distinct-asked : Distinct asked_machine.tasks
unfolding find_task update_task
Distinct-asked = (refl, (refl, tt))

get_req_once_example :
    ((p : ℕ) × (r : ℕ) × (k' : Kernel) × (get_req asked_machine ≡ ret (pos 0) (some (p, r)) k')
      × Takes asked_machine.tasks p r k'.tasks
      × ((q : ℕ) → (p == q) ≡ false → find_task q k'.tasks ≡ find_task q asked_machine.tasks))
    ⊎ ((get_req asked_machine ≡ ret (pos 1) none asked_machine) × (waiting asked_machine.tasks ≡ 0))
get_req_once_example = get_req_once asked_machine Distinct-asked

map_handshake_example :
    (k2 : Kernel) × (start_req 20 machine ≡ sleeps asked_machine)
    × (get_req asked_machine ≡ ret (pos 0) (some (20, map_req)) k2)
    × (get_args 20 map_req k2 ≡ ret (pos 0) (t_a ∷ []) k2)
    × (put_resp 20 map_req answer_c k2 ≡ ret (pos 0) tt (respond 20 map_req answer_c k2))
    × (find_task 20 (respond 20 map_req answer_c k2).tasks
        ≡ some (task_with 20 (mapped t_c program)))
    × ((respond 20 map_req answer_c k2).wakes ≡ 0 + 1)
unfolding find_task waiting
map_handshake_example =
    map_handshake machine 20 9 program (task_with 10 ikcd_struct) t_a answer_c refl refl refl refl
      refl refl refl distinct

abbrev booted : Kernel
booted = record { ikcd_pid = negsuc 0; tasks = []; signals = 0; wakes = 0 }

abbrev with_ikcd : Kernel
with_ikcd = record {
  ikcd_pid = pos 10;
  tasks = task_with 10 (idle ikcd_struct) ∷ [];
  signals = 0;
  wakes = 0;
}

abbrev with_program : Kernel
with_program = record {
  ikcd_pid = pos 10;
  tasks = task_with 20 (idle program) ∷ task_with 10 (idle ikcd_struct) ∷ [];
  signals = 0;
  wakes = 0;
}

abbrev with_request : Kernel
with_request = record {
  ikcd_pid = pos 10;
  tasks = task_with 20 (asking (idle program)) ∷ task_with 10 (idle ikcd_struct) ∷ [];
  signals = 1;
  wakes = 0;
}

abbrev unregistered : Kernel
unregistered = record with_ikcd { ikcd_pid = negsuc 0 }

reached_1 : Reach unregistered
unfolding find_task
reached_1 = next (boot refl) (born 10 ikcd_struct refl refl)

reached_2 : Reach with_ikcd
unfolding ikcd_reg
reached_2 = next reached_1 (reg (pos 10) refl)

reached_3 : Reach with_program
unfolding find_task
reached_3 = next reached_2 (born 20 program refl refl)

reached : Reach with_request
unfolding find_task update_task start_req
reached = next reached_3 (sleep 20 refl)

Reach-Good_example : Good with_request
Reach-Good_example = Reach-Good reached

-- While the program sleeps, its request is answered.
abbrev answering : Kernel → Kernel
answering = respond 20 map_req answer_c
