-- ===== src/Dkmctl.antt =====
-- src/dkmke/dkmctl.c: the kernel's side of the interface to ikcd, `do_dkmctl` and `dkm_execve`.
pub mod Sound
pub mod Execve
pub mod Handshake
pub mod Invariant
pub mod Tasks
use dkmp.Base.{
  ℕ, zero, suc, ◌+◌, Bool, true, false, not, ◌&&◌, ◌||◌, Option, none, some, List, [], ◌∷◌, ◌==◌,
  ltb, leb, if◌then◌else◌, Text, str_eq, ℤ, pos, negsuc, is_neg,
}

abbrev pub map_req : ℕ
map_req = 1

abbrev pub proc_creat_req : ℕ
proc_creat_req = 10

abbrev pub dkm_nop : ℕ
dkm_nop = 0

-- The request states that the code sets.
pub data ReqState : Type 0 where
  not_in_progress in_get_req in_do_req : ReqState

-- `struct dkm_struct` of src/dkmke/dkm.h. `pending_req` is 0 or 1. A text is `none` where the pointer
-- is NULL.
pub record DkmStruct : Type 0 where
  pub distributed : Bool
  pub pending_req : Bool
  pub req_state : ReqState
  pub req : ℕ
  pub r_pid : ℕ
  pub file_name : Option Text
  pub o_node : Option Text
  pub r_node : Option Text

pub record Task : Type 0 where
  pub pid : ℕ
  pub dkm : Option DkmStruct

-- `dkm_ikcd_pid`, the tasks in the order of `for_each_task`, how many SIGUSR2 were sent to ikcd, and
-- how often the wait queue was woken.
pub record Kernel : Type 0 where
  pub ikcd_pid : ℤ
  pub tasks : List Task
  pub signals : ℕ
  pub wakes : ℕ

unfoldable pub find_task : ℕ → List Task → Option Task
find_task p [] = none
find_task p (t ∷ ts) = if t.pid == p then some t else find_task p ts

abbrev pub on_dkm : (DkmStruct → DkmStruct) → Task → Task
on_dkm f t = elim t.dkm [ none ↦ t | some d ↦ record t { dkm = some (f d) } ]

unfoldable pub update_task : ℕ → (DkmStruct → DkmStruct) → List Task → List Task
update_task p f [] = []
update_task p f (t ∷ ts) = if t.pid == p then on_dkm f t ∷ ts else t ∷ update_task p f ts

-- The request types that are served.
abbrev pub in_range : ℕ → Bool
in_range req = leb 1 req && leb req 10

abbrev pub in_state : ReqState → Bool
in_state in_do_req = true
in_state _ = false

-- The test of the loop of DKM_GET_REQ.
abbrev pub wants_request : Task → Bool
wants_request t = elim t.dkm [
  | none ↦ false
  | some d ↦ d.pending_req && (in_state d.req_state && in_range d.req)
]

abbrev pub taken : DkmStruct → DkmStruct
taken d = record d { req_state = in_get_req }

-- What a call comes to: a status, with what it stores through its arguments, or a NULL pointer that
-- the kernel reads through.
pub data Outcome (A : Type 0) : Type 0 where
  ret : ℤ → A → Kernel → Outcome A
  oops : Outcome A

abbrev pub req_of : Task → ℕ
req_of t = elim t.dkm [ none ↦ 0 | some d ↦ d.req ]

-- The loop of DKM_GET_REQ: the first task that wants its request served, and the tasks with that one
-- marked.
unfoldable pub take_request : List Task → Option (ℕ × ℕ × List Task)
take_request [] = none
take_request (t ∷ ts) =
    let rest = take_request ts in
    if wants_request t
    then some (t.pid, req_of t, on_dkm taken t ∷ ts)
    else elim rest [ none ↦ none | some (p, r, us) ↦ some (p, r, t ∷ us) ]

-- The pid and the request type; `none` stands for the two values -1.
abbrev pub got_req : Option (ℕ × ℕ × List Task) → Kernel → Outcome (Option (ℕ × ℕ))
got_req none k = ret (pos 1) none k
got_req (some (p, r, ts)) k = ret (pos 0) (some (p, r)) (record k { tasks = ts })

unfoldable pub get_req : Kernel → Outcome (Option (ℕ × ℕ))
get_req k = got_req (take_request k.tasks) k

-- The texts that DKM_GET_ARGS copies to the buffers of ikcd, in the order of the arguments. A NULL
-- pointer is read through.
abbrev pub texts_for : ℕ → DkmStruct → Option (List Text)
texts_for req d =
    if req == map_req
    then elim d.file_name [ none ↦ none | some f ↦ some (f ∷ []) ]
    else if req == proc_creat_req
    then elim d.r_node [
      | none ↦ none
      | some r ↦ elim d.file_name [ none ↦ none | some f ↦ some (r ∷ f ∷ []) ]
    ]
    else some []

abbrev pub args_texts : Option (List Text) → Kernel → Outcome (List Text)
args_texts none k = oops
args_texts (some ts) k = ret (pos 0) ts k

abbrev pub args_dkm : Option DkmStruct → ℕ → Kernel → Outcome (List Text)
args_dkm none req k = oops
args_dkm (some d) req k =
    if not (d.req == req) then ret (negsuc 0) [] k else args_texts (texts_for req d) k

abbrev pub args_task : Option Task → ℕ → Kernel → Outcome (List Text)
args_task none req k = oops
args_task (some t) req k = args_dkm t.dkm req k

-- The task is read through before it is compared with NULL.
unfoldable pub get_args : (pid req : ℕ) → Kernel → Outcome (List Text)
get_args p req k = args_task (find_task p k.tasks) req k

-- What ikcd gives as the result: the node for MAP_REQ, the pid for PROC_CREAT_REQ.
pub record Response : Type 0 where
  pub node : Text
  pub r_pid : ℕ

abbrev pub idle : DkmStruct → DkmStruct
idle d = record d { pending_req = false; req_state = not_in_progress }

abbrev pub with_response : ℕ → Response → DkmStruct → DkmStruct
with_response req a d =
    if req == map_req
    then idle (record d { r_node = some a.node })
    else idle (record d { r_pid = a.r_pid })

abbrev pub respond : ℕ → ℕ → Response → Kernel → Kernel
respond p req a k = record k {
  tasks = update_task p (with_response req a) k.tasks;
  wakes = k.wakes + 1;
}

abbrev pub put_dkm : Option DkmStruct → ℕ → ℕ → Response → Kernel → Outcome (Unit {0})
put_dkm none p req a k = oops
put_dkm (some d) p req a k =
    if not (d.req == req)
    then ret (negsuc 0) tt k
    else if (req == map_req || req == proc_creat_req)
    then ret (pos 0) tt (respond p req a k)
    else ret (negsuc 0) tt k

abbrev pub put_task : Option Task → ℕ → ℕ → Response → Kernel → Outcome (Unit {0})
put_task none p req a k = ret (negsuc 0) tt k
put_task (some t) p req a k = put_dkm t.dkm p req a k

unfoldable pub put_resp : (pid req : ℕ) → Response → Kernel → Outcome (Unit {0})
put_resp p req a k = put_task (find_task p k.tasks) p req a k

unfoldable pub ikcd_reg : ℤ → Kernel → Outcome (Unit {0})
ikcd_reg pid k = ret (pos 0) tt (record k { ikcd_pid = pid })

unfoldable pub ikcd_unreg : Kernel → Outcome (Unit {0})
ikcd_unreg k = ret (pos 0) tt (record k { ikcd_pid = negsuc 0 })

abbrev pub is_pid : ℕ → ℤ → Bool
is_pid p (pos n) = p == n
is_pid p (negsuc n) = false

-- DKM_DO_REQ up to the wait queue: it returns at once, or the task sleeps until its request is no
-- longer pending.
pub data Started : Type 0 where
  returns : ℤ → Kernel → Started
  sleeps : Kernel → Started
  crashes : Started

abbrev pub asking : DkmStruct → DkmStruct
asking d = record d { pending_req = true; req_state = in_do_req }

-- The request is pending whether the task of ikcd is found or not.
abbrev pub ask_task : Option Task → Kernel → Started
ask_task none k = returns (pos 0) k
ask_task (some _) k = sleeps (record k { signals = k.signals + 1 })

abbrev pub start_for : (current : ℕ) → Kernel → ℤ → Started
start_for p k (pos (suc i)) =
    ask_task (find_task (suc i) k.tasks) (record k { tasks = update_task p asking k.tasks })
start_for p k _ = returns (negsuc 0) k

abbrev pub start_dkm : Option DkmStruct → (current : ℕ) → Kernel → Started
start_dkm none p k = if is_pid p k.ikcd_pid then returns (negsuc 0) k else crashes
start_dkm (some d) p k =
    if is_pid p k.ikcd_pid || not (in_range d.req)
    then returns (negsuc 0) k
    else start_for p k k.ikcd_pid

abbrev pub start_task : Option Task → (current : ℕ) → Kernel → Started
start_task none p k = crashes
start_task (some t) p k = start_dkm t.dkm p k

unfoldable pub start_req : (current : ℕ) → Kernel → Started
start_req p k = start_task (find_task p k.tasks) p k

-- DKM_DO_REQ as a whole: `during` is what the rest of the system does while the task sleeps.
pub data Finished : Type 0 where
  finished : ℤ → Kernel → Finished
  crashed : Finished

unfoldable pub do_req : (during : Kernel → Kernel) (current : ℕ) → Kernel → Finished
do_req during p k = elim (start_req p k) [
  | returns r k' ↦ finished r k'
  | sleeps k' ↦ finished (pos 0) (during k')
  | crashes ↦ crashed
]

abbrev pub change : ℕ → (DkmStruct → DkmStruct) → Kernel → Kernel
change p f k = record k { tasks = update_task p f k.tasks }

-- The texts that `dkm_execve` allocates; what the fresh memory for `r_node` holds is `garbage`.
abbrev pub prepared : (filename nodename garbage : Text) → DkmStruct → DkmStruct
prepared filename nodename garbage d = record d {
  file_name = some filename;
  o_node = some nodename;
  r_node = some garbage;
}

abbrev pub with_req : ℕ → DkmStruct → DkmStruct
with_req r d = record d { req = r }

-- The process stays here.
abbrev pub kept_local : DkmStruct → DkmStruct
kept_local d = record d { r_node = d.o_node; distributed = false }

abbrev pub not_asked : DkmStruct → DkmStruct
not_asked d = record d { r_node = d.o_node; distributed = false; pending_req = false }

abbrev pub spread : DkmStruct → DkmStruct
spread d = record d { distributed = true }

abbrev pub text_eq : Option Text → Option Text → Bool
text_eq (some a) (some b) = str_eq a b
text_eq _ _ = false

abbrev pub node_is_own : ℕ → Kernel → Bool
node_is_own p k = elim (find_task p k.tasks) [
  | none ↦ true
  | some t ↦ elim t.dkm [ none ↦ true | some d ↦ text_eq d.r_node d.o_node ]
]

-- After the answer to PROC_CREAT_REQ, whatever it is.
abbrev pub after_creation : ℕ → Finished → Finished
after_creation p (finished r k) = finished (pos 0) (change p (with_req dkm_nop) k)
after_creation p crashed = crashed

-- After the answer to MAP_REQ: with an error the process stays here; else a process is asked for on
-- the other node.
unfoldable pub after_map : (during : Kernel → Kernel) (current : ℕ) → Finished → Finished
after_map during p crashed = crashed
after_map during p (finished (negsuc n) k) =
    finished (pos 0) (change p (λ d. not_asked (with_req dkm_nop d)) k)
after_map during p (finished (pos n) k) =
    let k' = change p (λ d. spread (with_req dkm_nop d)) k in
    if node_is_own p k'
    then finished (pos 0) k'
    else after_creation p (do_req during p (change p (with_req proc_creat_req) k'))

unfoldable pub dkm_execve :
    (during : Kernel → Kernel) (current : ℕ) (filename nodename garbage : Text) → Kernel → Finished
dkm_execve during p filename nodename garbage k =
    if is_neg k.ikcd_pid
    then finished (negsuc 0) k
    else (let k' = change p (prepared filename nodename garbage) k in
        if is_pid p k'.ikcd_pid
        then finished (pos 1) (change p kept_local k')
        else after_map during p (do_req during p (change p (with_req map_req) k')))
