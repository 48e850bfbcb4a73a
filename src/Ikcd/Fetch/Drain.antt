-- ===== src/Ikcd/Fetch/Drain.antt =====
-- The loop of `ikc_get_request_from_kernel` is one pass over the tasks that ask.
use dkmp.Base.{
  ℕ, zero, suc, ◌+◌, ◌≤◌, ◌<◌, ◌≡◌, refl, sym, ap, ◌∙◌, subst, inl, inr, true, false, Option, none,
  some, List, [], ◌∷◌, ◌++◌, append-nil, append_assoc, arith, ◌==◌, ==_iff, ltb, Bool-cases, length,
  Text, ℤ, pos, Bytes,
}
use dkmp.Dkmctl.{
  DkmStruct, Task, Kernel, Outcome, ret, find_task, wants_request, taken, get_req, get_args,
  put_resp, map_req, with_response, Response,
}
use dkmp.Dkmctl.Handshake.{mapped}
use dkmp.Dkmctl.Tasks.{Distinct, waiting}
use dkmp.Ikc.Packet.{proc_creat_req}
use dkmp.Ikcd.Outgoing.{Outgoing}
use dkmp.Ikcd.BestNode.{best_node_for_app}
use dkmp.Ikcd.Fetch.{get_request_from_kernel, Daemon, done, fetch}
use dkmp.Ikcd.Fetch.Pass.{
  task_with, Asks, maps, creates, AllAsk, Passed, settle, pass, text_of, behind, pass_asks,
  pass_idle, pass_nil, settle-Idle, waiting-pass,
}
use dkmp.Ikcd.Fetch.Tasks.{
  find-behind, update-behind, waiting-append, take-none, take-behind, Distinct-absent,
  Distinct-same_pid,
}

ltb_lem : (a b : ℕ) → a < b → ltb a b ≡ true
ltb_lem a b h = ground arith

abbrev kernel_with : ℤ → (signals : ℕ) → List Task → (wakes : ℕ) → Kernel
kernel_with i signals ts n = record { ikcd_pid = i; tasks = ts; signals = signals; wakes = n }

-- The calls of a round, for a task behind others that do not ask.
module _ (i : ℤ) (signals n : ℕ) (pre ts : List Task) (p : ℕ) (d : DkmStruct)
    (absent : find_task p pre ≡ none) where
  abbrev marked : Kernel
  marked = kernel_with i signals (pre ++ task_with p (taken d) ∷ ts) n

  get_lem :
      (r : ℕ)
      → d.req ≡ r
      → waiting pre ≡ 0
      → wants_request (task_with p d) ≡ true
      → get_req (kernel_with i signals (pre ++ task_with p d ∷ ts) n)
        ≡ ret (pos 0) (some (p, r)) marked
  unfolding get_req
  get_lem r asks z wants =
      let with_req : ℕ → Outcome (Option (ℕ × ℕ)) = λ q. ret (pos 0) (some (p, q)) marked in
      rw (take-behind pre (task_with p d) ts z wants) (ap with_req asks)

  map_args_lem :
      (file : Text)
      → (d.req == map_req) ≡ true
      → d.file_name ≡ some file
      → get_args p map_req marked ≡ ret (pos 0) (file ∷ []) marked
  unfolding get_args
  map_args_lem file asks named =
      rw (find-behind pre (task_with p (taken d)) ts absent, asks, named) refl

  creat_args_lem :
      (r_node file : Text)
      → (d.req == proc_creat_req) ≡ true
      → d.r_node ≡ some r_node
      → d.file_name ≡ some file
      → get_args p proc_creat_req marked ≡ ret (pos 0) (r_node ∷ file ∷ []) marked
  unfolding get_args
  creat_args_lem r_node file asks node named =
      rw (find-behind pre (task_with p (taken d)) ts absent, asks, node, named) refl

  put_lem :
      (node : Text)
      → (d.req == map_req) ≡ true
      → put_resp p map_req (record { node = node; r_pid = 0 }) marked
        ≡ ret (pos 0) tt (kernel_with i signals (pre ++ task_with p (mapped node d) ∷ ts) (n + 1))
  unfolding put_resp
  put_lem node asks =
      let a : Response = record { node = node; r_pid = 0 } in
      rw
        (
          find-behind pre (task_with p (taken d)) ts absent,
          asks,
          update-behind (with_response map_req a) pre (task_with p (taken d)) ts absent,
        )
        refl

module _ {W : Type 0} (best_node : Text → W → Option (ℤ × Text × W))
    (node_for : Text → W → Text × W) (limit : ℕ) (below : limit ≤ 257)
    (names : (file : Text) (w : W)
      → length file < limit
      → (s : ℤ) × (best_node file w ≡ some (s, (node_for file w).0, (node_for file w).1)))
    (hostname : Text) (own : length hostname < 65) (fresh : Outgoing) (i : ℤ) (signals : ℕ) where
  abbrev daemon : List Task → (wakes : ℕ) → List Outgoing → W → Daemon W
  daemon ts n q w = record { kernel = kernel_with i signals ts n; pending_out = q; world = w }

  -- What one round does to the first task that asks.
  abbrev Rounds : Task → Type 0
  Rounds t =
      (pre ts : List Task) (m n : ℕ) (app : Text) (q : List Outgoing) (w : W)
      → find_task t.pid pre ≡ none
      → waiting pre ≡ 0
      → wants_request t ≡ true
      → let one = settle node_for hostname fresh t w in
        (app' : Text) × (fetch best_node hostname fresh (suc m) app (daemon (pre ++ t ∷ ts) n q w)
          ≡ fetch best_node hostname fresh m app'
              (daemon (pre ++ one.tasks ∷ ts) (n + one.woken) (q ++ one.queue) one.world))

  map_round :
      (p : ℕ) (d : DkmStruct) (file : Text)
      → d.req ≡ map_req
      → d.file_name ≡ some file
      → length file < limit
      → Rounds (task_with p d)
  unfolding fetch
  map_round p d file asks named short pre ts m n app q w absent z wants =
      let (s, node) = names file w short in
      let is_map = (==_iff d.req map_req).1 asks in
      let get = get_lem i signals n pre ts p d absent map_req asks z wants in
      let args = map_args_lem i signals n pre ts p d absent file is_map named in
      let put = put_lem i signals n pre ts p d absent (node_for file w).0 is_map in
      let same = ap text_of named in
      (
        file,
        rw
            (
              get,
              args,
              ltb_lem (length file) 257 (omega (arith, short, below)),
              node,
              put,
              is_map,
              same,
              append-nil q,
            )
            refl,
      )

  creates_round :
      (p : ℕ) (d : DkmStruct) (r_node file : Text)
      → d.req ≡ proc_creat_req
      → d.r_node ≡ some r_node
      → d.file_name ≡ some file
      → length r_node < 65
      → length file < 257
      → Rounds (task_with p d)
  unfolding fetch
  creates_round p d r_node file asks there named node_short short pre ts m n app q w absent z
        wants =
      let is_creat = (==_iff d.req proc_creat_req).1 asks in
      let no_map : (d.req == map_req) ≡ false = ground (arith, asks) in
      let get = get_lem i signals n pre ts p d absent proc_creat_req asks z wants in
      let args = creat_args_lem i signals n pre ts p d absent r_node file is_creat there named in
      let zero_more : n + 0 ≡ n = omega arith in
      (
        app,
        rw
            (
              get,
              args,
              ltb_lem (length r_node) 65 node_short,
              ltb_lem (length file) 257 short,
              ltb_lem (length hostname) 65 own,
              no_map,
              ap text_of there,
              ap text_of named,
              zero_more,
            )
            refl,
      )

  round_lem : (t : Task) → Asks limit t → Rounds t
  round_lem t (maps d file e asks named short) =
      subst Rounds (sym e) (map_round t.pid d file asks named short)
  round_lem t (creates d r_node file e asks there named node_short short) =
      subst Rounds (sym e) (creates_round t.pid d r_node file asks there named node_short short)

  abbrev joined : List Task → (wakes : ℕ) → List Outgoing → Passed (List Task) W → Daemon W
  joined pre n q r = daemon (pre ++ r.tasks) (n + r.woken) (q ++ r.queue) r.world

  joined_behind :
      (pre : List Task) (n : ℕ) (q : List Outgoing) (one : Passed Task W) (r : Passed (List Task) W)
      → joined (pre ++ one.tasks ∷ []) (n + one.woken) (q ++ one.queue) r
        ≡ joined pre n q (behind one r)
  joined_behind pre n q one r =
      let sum : n + one.woken + r.woken ≡ n + (one.woken + r.woken) = omega arith in
      rw (append_assoc pre (one.tasks ∷ []) r.tasks, append_assoc q one.queue r.queue, sum) refl

  joined_idle :
      (pre : List Task) (n : ℕ) (q : List Outgoing) (t : Task) (r : Passed (List Task) W)
      → joined (pre ++ t ∷ []) n q r ≡ joined pre n q (record r { tasks = t ∷ r.tasks })
  joined_idle pre n q t r = rw (append_assoc pre (t ∷ []) r.tasks) refl

  end_lem :
      (pre : List Task) (m n : ℕ) (app : Text) (q : List Outgoing) (w : W)
      → waiting pre ≡ 0
      → fetch best_node hostname fresh (suc m) app (daemon (pre ++ []) n q w)
        ≡ done (pos 0) (daemon pre n q w)
  unfolding fetch get_req
  end_lem pre m n app q w z = rw (append-nil pre, take-none pre z) refl

  waiting-snoc :
      (pre : List Task) (t : Task)
      → waiting pre ≡ 0
      → wants_request t ≡ false
      → waiting (pre ++ t ∷ []) ≡ 0
  unfolding waiting
  waiting-snoc pre t z e =
      let one : waiting (t ∷ []) ≡ 0 = rw e refl in omega (arith, waiting-append pre (t ∷ []), one)

  pass_lem :
      (ts pre : List Task) (rounds n : ℕ) (app : Text) (q : List Outgoing) (w : W)
      → waiting pre ≡ 0
      → Distinct (pre ++ ts)
      → AllAsk limit ts
      → waiting ts + 1 ≤ rounds
      → fetch best_node hostname fresh rounds app (daemon (pre ++ ts) n q w)
        ≡ done (pos 0) (joined pre n q (pass node_for hostname fresh ts w))
  unfolding waiting
  pass_lem ts pre zero n app q w z d a enough = absurd (omega (arith, enough))
  pass_lem [] pre (suc m) n app q w z d a enough =
      let none_woken : n + 0 ≡ n = omega arith in
      end_lem pre m n app q w z
      ∙ rw (pass_nil node_for hostname fresh w, append-nil pre, append-nil q, none_woken) refl
  pass_lem (t ∷ ts) pre (suc m) n app q w z d a enough = elim (Bool-cases (wants_request t)) [
    | inl asks ↦
        let one = settle node_for hostname fresh t w in
        let (idle, pid) = settle-Idle node_for hostname fresh t w (a.0 asks) in
        let (app', e) =
          round_lem t (a.0 asks) pre ts m n app q w (Distinct-absent pre t ts d) z asks in
        let assoc = append_assoc pre (one.tasks ∷ []) ts in
        let d' : Distinct ((pre ++ one.tasks ∷ []) ++ ts) =
          rw assoc (Distinct-same_pid pre t one.tasks ts pid d) in
        let ih =
          pass_lem ts (pre ++ one.tasks ∷ []) m (n + one.woken) app' (q ++ one.queue) one.world
            (waiting-snoc pre one.tasks z idle) d' a.1 (omega (arith, rw asks at enough)) in
        e
        ∙ rw assoc at ih
        ∙ ap (done (pos 0)) (joined_behind pre n q one _)
        ∙ rw (pass_asks node_for hostname fresh t ts w asks) refl
    | inr idle ↦
        let assoc = append_assoc pre (t ∷ []) ts in
        let d' : Distinct ((pre ++ t ∷ []) ++ ts) = rw assoc d in
        let ih =
          pass_lem ts (pre ++ t ∷ []) (suc m) n app q w (waiting-snoc pre t z idle) d' a.1
            (omega (arith, rw idle at enough)) in
        rw assoc at ih
        ∙ ap (done (pos 0)) (joined_idle pre n q t _)
        ∙ rw (pass_idle node_for hostname fresh t ts w idle) refl
  ]

-- When ikcd takes the requests from the kernel, the loop ends with status 0 after at most one round
-- more than tasks ask, and comes to one pass over the tasks in their order: each task that asks for
-- the node of a program has its answer and is woken, the request of each one that asks for a process
-- is queued behind the others, every other task is as it was, and then no task asks. No two tasks
-- have one pid, the texts of those that ask fit their buffers, the host's name too, and a node is
-- named for every program whose name is below the limit.
pub get_request-pass :
    {W : Type 0} (server_id client_id : ℤ) (ask : Bytes → W → Option Bytes × W)
    (hostname garbage : Text) (fresh : Outgoing) (rounds limit : ℕ) (node_for : Text → W → Text × W)
    (d : Daemon W)
    → limit ≤ 257
    → ((file : Text) (w : W)
        → length file < limit
        → (s : ℤ) × (best_node_for_app server_id client_id ask hostname file w
            ≡ some (s, (node_for file w).0, (node_for file w).1)))
    → length hostname < 65
    → Distinct d.kernel.tasks
    → AllAsk limit d.kernel.tasks
    → waiting d.kernel.tasks + 1 ≤ rounds
    → let r = pass node_for hostname fresh d.kernel.tasks d.world in
      (get_request_from_kernel server_id client_id ask hostname fresh garbage rounds d
        ≡ done (pos 0) (record {
          kernel = record d.kernel { tasks = r.tasks; wakes = d.kernel.wakes + r.woken };
          pending_out = d.pending_out ++ r.queue;
          world = r.world;
        }))
      × (waiting r.tasks ≡ 0)
unfolding get_request_from_kernel waiting
get_request-pass server_id client_id ask hostname garbage fresh rounds limit node_for d below names
      own distinct asks enough =
    (
      pass_lem (best_node_for_app server_id client_id ask hostname) node_for limit below names
          hostname own fresh d.kernel.ikcd_pid d.kernel.signals d.kernel.tasks [] rounds
          d.kernel.wakes garbage d.pending_out d.world refl distinct asks enough,
      waiting-pass node_for hostname fresh limit d.kernel.tasks d.world asks,
    )
