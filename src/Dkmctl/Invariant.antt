-- ===== src/Dkmctl/Invariant.antt =====
-- What holds in the kernel after any sequence of calls of `do_dkmctl` and of the writes of `dkm_execve`: no
-- two tasks have one pid, and the state of a pending request says that it is in progress.
use dkmp.Base.{
  ℕ, zero, suc, ◌≡◌, refl, sym, ap, ◌∙◌, inl, inr, ◌⊎◌, true, not, ◌||◌, Option, none, some, List,
  [], ◌∷◌, arith, ◌==◌, Bool-cases, Option-cases, ℤ, pos, negsuc, Text,
}
use dkmp.Dkmctl.{
  DkmStruct, Task, Kernel, find_task, on_dkm, in_range, wants_request, taken, map_req,
  proc_creat_req, got_req, args_texts, args_dkm, args_task, texts_for, put_dkm, put_task, start_for,
  start_dkm, start_task, take_request, Outcome, ret, oops, get_req, get_args, Response, idle,
  with_response, respond, put_resp, ikcd_reg, ikcd_unreg, is_pid, Started, returns, sleeps, crashes,
  asking, start_req, change, prepared, kept_local, with_req, not_asked, spread, dkm_nop,
}
use dkmp.Dkmctl.Tasks.{take_request-Takes}
use dkmp.Dkmctl.Sound.{Sound, Good, KeepsAt, Good-update}

-- What `dkm_execve` writes to its own task before, between and behind its calls of `do_dkmctl`.
pub data Edit : (DkmStruct → DkmStruct) → Type 0 where
  prepares : (filename nodename garbage : Text) → Edit (prepared filename nodename garbage)
  stays_here : Edit kept_local
  asks : (req : ℕ) → Edit (with_req req)
  not_answered : Edit (λ d. not_asked (with_req dkm_nop d))
  answered : Edit (λ d. spread (with_req dkm_nop d))

-- A change that does not touch the state of the request.
abbrev pub KeepsState : (DkmStruct → DkmStruct) → Type 0
KeepsState f =
    (d : DkmStruct) → ((f d).pending_req ≡ d.pending_req) × ((f d).req_state ≡ d.req_state)

-- One call of `do_dkmctl`, a write by `dkm_execve`, a change to other fields of a task, or a new task.
pub data Step (k : Kernel) : Kernel → Type 0 where
  reg : {k' : Kernel} {r : ℤ} (p : ℤ) → ikcd_reg p k ≡ ret r tt k' → Step k k'
  unreg : {k' : Kernel} {r : ℤ} → ikcd_unreg k ≡ ret r tt k' → Step k k'
  get : {k' : Kernel} {r : ℤ} {a : Option (ℕ × ℕ)} → get_req k ≡ ret r a k' → Step k k'
  args :
      {k' : Kernel} {r : ℤ} {a : List (List ℕ)} (p req : ℕ)
      → get_args p req k ≡ ret r a k'
      → Step k k'
  put :
      {k' : Kernel} {r : ℤ} (p req : ℕ) (a : Response)
      → put_resp p req a k ≡ ret r tt k'
      → Step k k'
  sleep : {k' : Kernel} (p : ℕ) → start_req p k ≡ sleeps k' → Step k k'
  refuse : {k' : Kernel} {r : ℤ} (p : ℕ) → start_req p k ≡ returns r k' → Step k k'
  assign :
      {k' : Kernel} (p : ℕ) (f : DkmStruct → DkmStruct)
      → KeepsState f
      → k' ≡ change p f k
      → Step k k'
  edit : {k' : Kernel} (p : ℕ) (f : DkmStruct → DkmStruct) → Edit f → k' ≡ change p f k → Step k k'
  born :
      {k' : Kernel} (p : ℕ) (d : DkmStruct)
      → find_task p k.tasks ≡ none
      → k' ≡ record k { tasks = record { pid = p; dkm = some (idle d) } ∷ k.tasks }
      → Step k k'

pub data Reach : Kernel → Type 0 where
  boot :
      {k : Kernel}
      → k ≡ record { ikcd_pid = negsuc 0; tasks = []; signals = 0; wakes = 0 }
      → Reach k
  next : {k k' : Kernel} → Reach k → Step k k' → Reach k'

state_of : {A : Type 0} → Kernel → Outcome A → Kernel
state_of d (ret r a k) = k
state_of d oops = d

Good-ret :
    {A : Type 0} (d : Kernel) {o : Outcome A} {r : ℤ} {a : A} {k : Kernel}
    → Good (state_of d o)
    → o ≡ ret r a k
    → Good k
unfolding state_of
Good-ret d g e = rw e at g

taken-Sound : (t : Task) → wants_request t ≡ true → Sound t.dkm → Sound (on_dkm taken t).dkm
taken-Sound t w s = go t.dkm w s
  where
    go :
        (o : Option DkmStruct)
        → wants_request (record t { dkm = o }) ≡ true
        → Sound o
        → Sound (on_dkm taken (record t { dkm = o })).dkm
    go none w s = tt
    go (some d) w s = ground arith

tasks_of : Option (ℕ × ℕ × List Task) → List Task
tasks_of none = []
tasks_of (some (p, r, us)) = us

Good-got :
    (k : Kernel) (o : Option (ℕ × ℕ × List Task))
    → take_request k.tasks ≡ o
    → Good k
    → Good (state_of k (got_req o k))
unfolding state_of
Good-got k none e g = g
Good-got k (some (p, r, us)) e g = elim (take_request-Takes k.tasks g.0) [
  | inl (p', r', us', e', takes) ↦
      let same : us ≡ us' = unfold tasks_of in ap tasks_of (sym e ∙ e') in
      let keep : KeepsAt p' taken k.tasks =
        λ t found sound. taken-Sound t (ground (arith, takes.found, takes.wanted)) sound in
      rw (same, takes.marked) (Good-update p' taken k keep g)
  | inr (e', z) ↦ cc
]

Good-args_texts :
    (o : Option (List Text)) (k : Kernel) → Good k → Good (state_of k (args_texts o k))
unfolding state_of
Good-args_texts none k g = g
Good-args_texts (some ts) k g = g

Good-args_task :
    (o : Option Task) (req : ℕ) (k : Kernel) → Good k → Good (state_of k (args_task o req k))
unfolding state_of
Good-args_task none req k g = g
Good-args_task (some t) req k g = go t.dkm
  where
    go : (o : Option DkmStruct) → Good (state_of k (args_dkm o req k))
    go none = g
    go (some d) = elim (Bool-cases (d.req == req)) [
      | inl same ↦ rw same (Good-args_texts (texts_for req d) k g)
      | inr other ↦ rw other g
    ]

with_response-Sound :
    (req : ℕ) (a : Response) (t : Task) → Sound (on_dkm (with_response req a) t).dkm
with_response-Sound req a t = go t.dkm
  where
    go : (o : Option DkmStruct) → Sound (on_dkm (with_response req a) (record t { dkm = o })).dkm
    go none = tt
    go (some d) = ground arith

pub Good-respond : (p req : ℕ) (a : Response) (k : Kernel) → Good k → Good (respond p req a k)
Good-respond p req a k g =
    Good-update p (with_response req a) k (λ t e s. with_response-Sound req a t) g

Good-put_task :
    (o : Option Task) (p req : ℕ) (a : Response) (k : Kernel)
    → Good k
    → Good (state_of k (put_task o p req a k))
unfolding state_of
Good-put_task none p req a k g = g
Good-put_task (some t) p req a k g = go t.dkm
  where
    go : (o : Option DkmStruct) → Good (state_of k (put_dkm o p req a k))
    go none = g
    go (some d) = elim (Bool-cases (d.req == req)) [
      | inl same ↦ rw same (elim (Bool-cases (req == map_req || req == proc_creat_req)) [
        | inl known ↦ rw known (Good-respond p req a k g)
        | inr unknown ↦ rw unknown g
      ])
      | inr other ↦ rw other g
    ]

unfoldable pub after_start : Kernel → Started → Kernel
after_start k (returns r k') = k'
after_start k (sleeps k') = k'
after_start k crashes = k

pub asking-Sound : (t : Task) → Sound (on_dkm asking t).dkm
asking-Sound t = go t.dkm
  where
    go : (o : Option DkmStruct) → Sound (on_dkm asking (record t { dkm = o })).dkm
    go none = tt
    go (some d) = ground arith

Good-start_for : (p : ℕ) (k : Kernel) (i : ℤ) → Good k → Good (after_start k (start_for p k i))
unfolding after_start
Good-start_for p k (negsuc n) g = g
Good-start_for p k (pos zero) g = g
Good-start_for p k (pos (suc i)) g = elim (Option-cases (find_task (suc i) k.tasks)) [
  | inl missing ↦ rw missing (Good-update p asking k (λ t e s. asking-Sound t) g)
  | inr (t, e) ↦ rw e (Good-update p asking k (λ t e s. asking-Sound t) g)
]

pub Good-start_task :
    (o : Option Task) (p : ℕ) (k : Kernel) → Good k → Good (after_start k (start_task o p k))
unfolding after_start
Good-start_task none p k g = g
Good-start_task (some t) p k g = go t.dkm
  where
    go : (o : Option DkmStruct) → Good (after_start k (start_dkm o p k))
    go none = elim (Bool-cases (is_pid p k.ikcd_pid)) [ inl y ↦ rw y g | inr n ↦ rw n g ]
    go (some d) = elim (Bool-cases (is_pid p k.ikcd_pid || not (in_range d.req))) [
      | inl y ↦ rw y g
      | inr n ↦ rw n (Good-start_for p k k.ikcd_pid g)
    ]

keep-Sound :
    (f : DkmStruct → DkmStruct) → KeepsState f → (t : Task) → Sound t.dkm → Sound (on_dkm f t).dkm
keep-Sound f keep t s = go t.dkm s
  where
    go : (o : Option DkmStruct) → Sound o → Sound (on_dkm f (record t { dkm = o })).dkm
    go none s = tt
    go (some d) s = λ h. rw (keep d).1 (s (sym (keep d).0 ∙ h))

pub edit-Sound :
    (f : DkmStruct → DkmStruct) → Edit f → (t : Task) → Sound t.dkm → Sound (on_dkm f t).dkm
edit-Sound f x t s = go t.dkm f x s
  where
    go :
        (o : Option DkmStruct) (f : DkmStruct → DkmStruct)
        → Edit f
        → Sound o
        → Sound (on_dkm f (record t { dkm = o })).dkm
    go none f x s = tt
    go (some d) f (prepares a b c) s = s
    go (some d) f stays_here s = s
    go (some d) f (asks req) s = s
    go (some d) f not_answered s = λ h. cc h
    go (some d) f answered s = s

Good-started :
    (d : Kernel) {o : Started} {k : Kernel}
    → Good (after_start d o)
    → (o ≡ sleeps k) ⊎ ((r : ℤ) × (o ≡ returns r k))
    → Good k
unfolding after_start
Good-started d g (inl e) = rw e at g
Good-started d g (inr (r, e)) = rw e at g

Step-Good : {k k' : Kernel} → Step k k' → Good k → Good k'
unfolding get_req get_args put_resp start_req ikcd_reg ikcd_unreg state_of
Step-Good {k} (reg p e) g = Good-ret k {o = ikcd_reg p k} g e
Step-Good {k} (unreg e) g = Good-ret k {o = ikcd_unreg k} g e
Step-Good {k} (get e) g = Good-ret k (Good-got k (take_request k.tasks) refl g) e
Step-Good {k} (args p req e) g = Good-ret k (Good-args_task (find_task p k.tasks) req k g) e
Step-Good {k} (put p req a e) g = Good-ret k (Good-put_task (find_task p k.tasks) p req a k g) e
Step-Good {k} (sleep p e) g = Good-started k (Good-start_task (find_task p k.tasks) p k g) (inl e)
Step-Good {k} (refuse {r} p e) g =
    Good-started k (Good-start_task (find_task p k.tasks) p k g) (inr (r, e))
Step-Good {k} (assign p f keep e) g =
    rw e (Good-update p f k (λ t found s. keep-Sound f keep t s) g)
Step-Good {k} (edit p f x e) g = rw e (Good-update p f k (λ t found s. edit-Sound f x t s) g)
Step-Good {k} (born p d fresh e) g = rw e ((fresh, g.0), ((λ h. cc), g.1))

-- After any sequence of calls of `do_dkmctl` by ikcd and by the tasks, of the writes that `dkm_execve`
-- makes to its task before, between and behind its calls, of changes to other fields of a task, and
-- of new tasks, from the boot on: no two tasks have one pid, and a request that is pending has another
-- state than REQ_NOT_IN_PROGRESS.
pub Reach-Good : {k : Kernel} → Reach k → Good k
Reach-Good (boot e) = rw e (tt, tt)
Reach-Good (next r s) = Step-Good s (Reach-Good r)
