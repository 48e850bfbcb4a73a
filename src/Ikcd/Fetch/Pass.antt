-- ===== src/Ikcd/Fetch/Pass.antt =====
-- What the loop over the requests in the kernel comes to: one pass over the list of tasks.
use dkmp.Base.{
  ℕ, ◌+◌, ◌<◌, ◌≡◌, refl, sym, subst, inl, inr, true, false, Option, none, some, List, [], ◌∷◌,
  ◌++◌, arith, ◌==◌, if◌then◌else◌, Bool-cases, length, Text,
}
use dkmp.Dkmctl.{DkmStruct, Task, wants_request, taken, map_req}
use dkmp.Dkmctl.Handshake.{mapped}
use dkmp.Dkmctl.Tasks.{waiting}
use dkmp.Ikc.Packet.{proc_creat_req}
use dkmp.Ikcd.Outgoing.{Outgoing}
use dkmp.Ikcd.Fetch.{request_of}

abbrev pub task_with : ℕ → DkmStruct → Task
task_with p d = record { pid = p; dkm = some d }

-- A task that asks for what ikcd serves, with texts that fit its buffers; the name of a program that is
-- to be mapped is below `limit`.
pub data Asks (limit : ℕ) (t : Task) : Type 0 where
  maps :
      (d : DkmStruct) (file : Text)
      → t ≡ task_with t.pid d
      → d.req ≡ map_req
      → d.file_name ≡ some file
      → length file < limit
      → Asks limit t
  creates :
      (d : DkmStruct) (r_node file : Text)
      → t ≡ task_with t.pid d
      → d.req ≡ proc_creat_req
      → d.r_node ≡ some r_node
      → d.file_name ≡ some file
      → length r_node < 65
      → length file < 257
      → Asks limit t

abbrev pub AllAsk : (limit : ℕ) → List Task → Type 0
AllAsk limit [] = Unit
AllAsk limit (t ∷ ts) = (wants_request t ≡ true → Asks limit t) × AllAsk limit ts

abbrev pub text_of : Option Text → Text
text_of none = []
text_of (some t) = t

pub record Passed (A W : Type 0) : Type 0 where
  pub tasks : A
  pub queue : List Outgoing
  pub world : W
  pub woken : ℕ

abbrev pub behind : {W : Type 0} → Passed Task W → Passed (List Task) W → Passed (List Task) W
behind one rest = record {
  tasks = one.tasks ∷ rest.tasks;
  queue = one.queue ++ rest.queue;
  world = rest.world;
  woken = one.woken + rest.woken;
}

module _ {W : Type 0} (node_for : Text → W → Text × W) (hostname : Text) (fresh : Outgoing) where
  -- A task that asks for a node has the answer; the request of one that asks for a process is queued.
  abbrev pub settle_dkm : (pid : ℕ) → DkmStruct → W → Passed Task W
  settle_dkm p d w =
      if d.req == map_req
      then record {
        tasks = task_with p (mapped (node_for (text_of d.file_name) w).0 d);
        queue = [];
        world = (node_for (text_of d.file_name) w).1;
        woken = 1;
      }
      else record {
        tasks = task_with p (taken d);
        queue = request_of hostname fresh p (text_of d.r_node) (text_of d.file_name) ∷ [];
        world = w;
        woken = 0;
      }

  abbrev pub settle : Task → W → Passed Task W
  settle t w = elim t.dkm [
    | none ↦ record { tasks = t; queue = []; world = w; woken = 0 }
    | some d ↦ settle_dkm t.pid d w
  ]

  unfoldable pub pass : List Task → W → Passed (List Task) W
  pass [] w = record { tasks = []; queue = []; world = w; woken = 0 }
  pass (t ∷ ts) w = elim (wants_request t) [
    | true ↦ behind (settle t w) (pass ts (settle t w).world)
    | false ↦ record (pass ts w) { tasks = t ∷ (pass ts w).tasks }
  ]

  pub pass_asks :
      (t : Task) (ts : List Task) (w : W)
      → wants_request t ≡ true
      → let one = settle t w in pass (t ∷ ts) w ≡ behind one (pass ts one.world)
  unfolding pass
  pass_asks t ts w e = rw (e, pass) refl

  pub pass_idle :
      (t : Task) (ts : List Task) (w : W)
      → wants_request t ≡ false
      → let rest = pass ts w in pass (t ∷ ts) w ≡ record rest { tasks = t ∷ rest.tasks }
  unfolding pass
  pass_idle t ts w e = rw (e, pass) refl

  pub pass_nil : (w : W) → pass [] w ≡ record { tasks = []; queue = []; world = w; woken = 0 }
  unfolding pass
  pass_nil w = refl

  abbrev pub Idle : W → Task → Type 0
  Idle w t = (wants_request (settle t w).tasks ≡ false) × ((settle t w).tasks.pid ≡ t.pid)

  settle_dkm-Idle : (p : ℕ) (d : DkmStruct) (w : W) → Idle w (task_with p d)
  settle_dkm-Idle p d w = elim (Bool-cases (d.req == map_req)) [
    | inl is_map ↦ rw is_map (refl, refl)
    | inr other ↦ rw other (ground arith, refl)
  ]

  pub settle-Idle : {limit : ℕ} (t : Task) (w : W) → Asks limit t → Idle w t
  settle-Idle t w (maps d file e asks named short) =
      subst (Idle w) (sym e) (settle_dkm-Idle t.pid d w)
  settle-Idle t w (creates d r_node file e asks there named node_short short) =
      subst (Idle w) (sym e) (settle_dkm-Idle t.pid d w)

  -- After the pass no task asks.
  pub waiting-pass :
      (limit : ℕ) (ts : List Task) (w : W) → AllAsk limit ts → waiting (pass ts w).tasks ≡ 0
  unfolding waiting
  waiting-pass limit [] w a = rw (pass_nil w) refl
  waiting-pass limit (t ∷ ts) w a = elim (Bool-cases (wants_request t)) [
    | inl asks ↦
        rw (pass_asks t ts w asks, (settle-Idle t w (a.0 asks)).0)
          (omega (arith, waiting-pass limit ts (settle t w).world a.1))
    | inr idle ↦ rw (pass_idle t ts w idle, idle) (omega (arith, waiting-pass limit ts w a.1))
  ]
