-- ===== src/Ikcd/Backlog/Answers.antt =====
-- The response to a request, whether it is new or repeated.
use dkmp.Base.{
  ℕ, ◌≡◌, refl, sym, ◌∙◌, inl, inr, some, List, [], ◌∷◌, ◌==◌, ==_iff, if◌then◌else◌, Bool-cases,
  Option-cases, take, Bytes,
}
use dkmp.Ikc.Numbers.{unpack_req_id}
use dkmp.Ikc.Packet.{proc_creat_req, pack_proc_creat_resp}
use dkmp.Ikcd.{Address, Request, Worker, find_number, readdress, proceed_incoming_request, serve}
use dkmp.Ikcd.Backlog.{
  AllCreate, Good, serve-Served, serve_known, serve_fresh, member, Distinct, numbers, idle_worker,
  serve_all, once,
}

-- Each process in the backlog has the pid that `ikcr_proceed_incoming_request` gives.
abbrev pub AllPid : List Request → Type 0
AllPid [] = Unit
AllPid (r ∷ rs) = (r.r_pid ≡ 76) × AllPid rs

-- The packet that answers the request of a number with a pid.
abbrev pub answer : (number pid : ℕ) → Bytes
answer number pid = let (n, m) = pack_proc_creat_resp (unpack_req_id number) pid in take n m

record FoundIn (n : ℕ) (s : Request) : Type 0 where
  number : s.request_nbr ≡ n
  pid : s.r_pid ≡ 76
  created : s.req ≡ proc_creat_req

find-FoundIn :
    (n : ℕ) (rs : List Request) (s : Request)
    → AllCreate rs
    → AllPid rs
    → find_number n rs ≡ some s
    → FoundIn n s
unfolding find_number
find-FoundIn n [] s c p e = absurd (cc e)
find-FoundIn n (r ∷ rs) s c p e = elim (Bool-cases (r.request_nbr == n)) [
  | inl here ↦
      let same : r ≡ s = cc (rw here at e) in
      let f : FoundIn n r = record {
        number = (==_iff r.request_nbr n).0 here;
        pid = p.0;
        created = c.0;
      } in
      rw same at f
  | inr away ↦ find-FoundIn n rs s c.1 p.1 (rw away at e)
]

readdress-AllPid : (n : ℕ) (a : Address) (rs : List Request) → AllPid rs → AllPid (readdress n a rs)
unfolding readdress
readdress-AllPid n a [] p = tt
readdress-AllPid n a (r ∷ rs) p = elim (Bool-cases (r.request_nbr == n)) [
  | inl here ↦ rw here p
  | inr away ↦ rw away (p.0, readdress-AllPid n a rs p.1)
]

proceed-pid :
    (r : Request) → r.req ≡ proc_creat_req → proceed_incoming_request r ≡ record r { r_pid = 76 }
unfolding proceed_incoming_request
proceed-pid r c = rw (c) refl

-- What holds of a worker between two requests, and what it does with one.
pub record Sane (w : Worker) : Type 0 where
  pub good : Good w
  pub pids : AllPid w.backlog

pub record Answered (r : Request) (w w' : Worker) : Type 0 where
  pub run : serve r w ≡ some w'
  pub sane : Sane w'
  pub reply : w'.sent ≡ (r.cliaddr, answer r.request_nbr 76) ∷ w.sent
  pub once :
      w'.proceeded
      ≡ (if member r.request_nbr w.proceeded then w.proceeded else r.request_nbr ∷ w.proceeded)

some_inj : {A : Type 0} {a b : A} → some a ≡ some b → a ≡ b
some_inj e = cc

pub serve-Answered :
    (r : Request) (w : Worker) → Sane w → r.req ≡ proc_creat_req → (w' : Worker) × Answered r w w'
serve-Answered r w g c =
    let (w', (run, good, sent, once)) = serve-Served r w g.good c in
    elim (Option-cases (find_number r.request_nbr w.backlog)) [
      | inr (s, e) ↦
          let f = find-FoundIn r.request_nbr w.backlog s g.good.all_create g.pids e in
          let same = some_inj (sym run ∙ serve_known r s w e f.created) in
          (
            w',
            record {
              run = run;
              sane = record {
                good = good;
                pids = rw same (readdress-AllPid r.request_nbr r.cliaddr w.backlog g.pids);
              };
              reply = rw (same, f.number, f.pid) refl;
              once = once;
            },
          )
      | inl e ↦
          let same = some_inj (sym run ∙ serve_fresh r w e c) in
          (
            w',
            record {
              run = run;
              sane = record { good = good; pids = rw (same, proceed-pid r c) (refl, g.pids) };
              reply = rw (same, proceed-pid r c) refl;
              once = once;
            },
          )
    ]

-- The responses to a list of requests, the last one first, behind those that were sent before.
unfoldable pub replies : List Request → List (Address × Bytes) → List (Address × Bytes)
replies [] sent = sent
replies (r ∷ rs) sent = replies rs ((r.cliaddr, answer r.request_nbr 76) ∷ sent)

serve_all-Sane :
    (rs : List Request) (w : Worker)
    → Sane w
    → AllCreate rs
    → (w' : Worker) × (serve_all rs w ≡ some w')
      × Sane w'
      × (w'.sent ≡ replies rs w.sent)
      × (w'.proceeded ≡ once rs w.proceeded)
unfolding serve_all once replies
serve_all-Sane [] w g c = (w, refl, g, refl, refl)
serve_all-Sane (r ∷ rs) w g c =
    let (w1, a) = serve-Answered r w g c.0 in
    let (w2, e2, g2, n2, p2) = serve_all-Sane rs w1 a.sane c.1 in
    (w2, rw (a.run, e2) refl, g2, n2 ∙ rw a.reply refl, p2 ∙ rw a.once refl)

-- From an empty backlog, any sequence of requests for a process, repeated ones among them, is served
-- to its end: each request is answered in its turn, at the address that this very request came
-- from, with the packet for its number and the pid of its process; each number is proceeded exactly
-- once, at its first request, and the backlog holds all of them for good.
pub serve_all-once :
    (rs : List Request)
    → AllCreate rs
    → (w : Worker) × (serve_all rs idle_worker ≡ some w)
      × (w.sent ≡ replies rs [])
      × (w.proceeded ≡ once rs [])
      × Distinct w.proceeded
      × (numbers w.backlog ≡ w.proceeded)
serve_all-once rs c =
    let start : Sane idle_worker = record {
      good = record { all_create = tt; same = refl; distinct = tt };
      pids = tt;
    } in
    let (w, e, g, n, p) = serve_all-Sane rs idle_worker start c in
    (w, e, n, p, g.good.distinct, sym g.good.same)
