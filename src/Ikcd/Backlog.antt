-- ===== src/Ikcd/Backlog.antt =====
-- Requests that come in more than once, as nodes repeat a request that is not answered: src/ikcd/ikcbl.c
-- with `ikc_in_request_worker` of src/ikcd/ikcd.c.
pub mod Answers
use dkmp.Base.{
  ℕ, suc, ◌+◌, ◌≡◌, refl, sym, ap, ◌∙◌, inl, inr, Bool, true, false, ◌||◌, Option, none, some, List,
  [], ◌∷◌, arith, ◌==◌, if◌then◌else◌, Bool-cases, Option-cases, length, ℤ, pos, negsuc,
}
use dkmp.Base.Chain.{◌>>=◌}
use dkmp.Ikc.Packet.{proc_creat_req}
use dkmp.Ikcd.{
  Address, Request, Worker, response, respond_to_client, add_request, find_number, remove_behind,
  remove_request, finds_thread, remove_threads_last_request, readdress, try_respond_from_backlog,
  proceed_incoming_request, serve,
}

abbrev pub numbers : List Request → List ℕ
numbers [] = []
numbers (r ∷ rs) = r.request_nbr ∷ numbers rs

unfoldable pub member : ℕ → List ℕ → Bool
member n [] = false
member n (m ∷ ms) = (m == n) || member n ms

abbrev pub Distinct : List ℕ → Type 0
Distinct [] = Unit
Distinct (n ∷ ns) = (member n ns ≡ false) × Distinct ns

-- All requests are for a process, which is what the collector queues.
abbrev pub AllCreate : List Request → Type 0
AllCreate [] = Unit
AllCreate (r ∷ rs) = (r.req ≡ proc_creat_req) × AllCreate rs

-- What holds between two requests: the backlog holds what was proceeded, each number once.
pub record Good (w : Worker) : Type 0 where
  pub all_create : AllCreate w.backlog
  pub same : w.proceeded ≡ numbers w.backlog
  pub distinct : Distinct w.proceeded

member-find : (n : ℕ) (rs : List Request) → find_number n rs ≡ none → member n (numbers rs) ≡ false
unfolding find_number member
member-find n [] e = refl
member-find n (r ∷ rs) e = ground (arith, member-find n rs)

abbrev pub Creates : Option Request → Type 0
Creates none = Unit
Creates (some r) = r.req ≡ proc_creat_req

find-Creates : (n : ℕ) (rs : List Request) → AllCreate rs → Creates (find_number n rs)
unfolding find_number
find-Creates n [] k = tt
find-Creates n (s ∷ rs) k = elim (Bool-cases (s.request_nbr == n)) [
  | inl here ↦ rw here k.0
  | inr away ↦ rw away (find-Creates n rs k.1)
]

remove-absent :
    (n : ℕ) (rs : List Request) → member n (numbers rs) ≡ false → remove_behind n rs ≡ rs
unfolding remove_behind member
remove-absent n [] e = refl
remove-absent n (r ∷ rs) e = ground (arith, remove-absent n rs)

remove_request-absent :
    (n : ℕ) (rs : List Request) → member n (numbers rs) ≡ false → remove_request n rs ≡ some rs
unfolding remove_request member
remove_request-absent n [] e = refl
remove_request-absent n (r ∷ rs) e = ground (arith, remove-absent n rs)

-- A request that is not in the backlog takes nothing out of it, whatever host and thread it comes from:
-- the last request of a thread stays.
pub remove_threads_last-keeps :
    (r : Request) (rs : List Request)
    → find_number r.request_nbr rs ≡ none
    → (status : ℤ) × (remove_threads_last_request r rs ≡ some (status, rs))
unfolding remove_threads_last_request
remove_threads_last-keeps r rs e = elim (Bool-cases (finds_thread r rs)) [
  | inl found ↦ (
    pos 0,
    rw (found, remove_request-absent r.request_nbr rs (member-find r.request_nbr rs e)) refl,
  )
  | inr lost ↦ (negsuc 0, rw lost refl)
]

numbers-readdress :
    (n : ℕ) (a : Address) (rs : List Request) → numbers (readdress n a rs) ≡ numbers rs
unfolding readdress
numbers-readdress n a [] = refl
numbers-readdress n a (r ∷ rs) = elim (Bool-cases (r.request_nbr == n)) [
  | inl here ↦ rw here refl
  | inr away ↦ rw (away, numbers-readdress n a rs) refl
]

readdress-AllCreate :
    (n : ℕ) (a : Address) (rs : List Request) → AllCreate rs → AllCreate (readdress n a rs)
unfolding readdress
readdress-AllCreate n a [] k = tt
readdress-AllCreate n a (r ∷ rs) k = elim (Bool-cases (r.request_nbr == n)) [
  | inl here ↦ rw here k
  | inr away ↦ rw away (k.0, readdress-AllCreate n a rs k.1)
]

-- A request whose number is in the backlog is answered from there.
pub serve_known :
    (r s : Request) (w : Worker)
    → find_number r.request_nbr w.backlog ≡ some s
    → s.req ≡ proc_creat_req
    → serve r w
      ≡ some (record w {
        backlog = readdress r.request_nbr r.cliaddr w.backlog;
        sent = response (record s { cliaddr = r.cliaddr }) ∷ w.sent;
      })
unfolding serve try_respond_from_backlog respond_to_client
serve_known r s w e c = rw (e, c) refl

proceed-req :
    (r : Request) → r.req ≡ proc_creat_req → (proceed_incoming_request r).req ≡ proc_creat_req
unfolding proceed_incoming_request
proceed-req r c = rw (c) refl

proceed-number : (r : Request) → (proceed_incoming_request r).request_nbr ≡ r.request_nbr
unfolding proceed_incoming_request
proceed-number r = elim (Bool-cases (r.req == proc_creat_req)) [
  | inl yes' ↦ rw yes' refl
  | inr no' ↦ rw no' refl
]

-- Another one is proceeded, answered and remembered.
pub serve_fresh :
    (r : Request) (w : Worker)
    → find_number r.request_nbr w.backlog ≡ none
    → r.req ≡ proc_creat_req
    → serve r w
      ≡ some (record {
        backlog = proceed_incoming_request r ∷ w.backlog;
        sent = response (proceed_incoming_request r) ∷ w.sent;
        proceeded = r.request_nbr ∷ w.proceeded;
      })
unfolding serve try_respond_from_backlog respond_to_client add_request
serve_fresh r w e c =
    let (status, kept) = remove_threads_last-keeps r w.backlog e in
    rw (e, kept, proceed-req r c) refl

-- A request is always answered, and it is proceeded exactly where its number is new.
abbrev pub Served : Request → Worker → Worker → Type 0
Served r w w' =
    (serve r w ≡ some w')
    × Good w'
    × (length w'.sent ≡ suc (length w.sent))
    × (w'.proceeded
        ≡ (if member r.request_nbr w.proceeded then w.proceeded else r.request_nbr ∷ w.proceeded))

find-member :
    (n : ℕ) (rs : List Request) (s : Request)
    → find_number n rs ≡ some s
    → member n (numbers rs) ≡ true
unfolding find_number member
find-member n [] s e = cc
find-member n (r ∷ rs) s e = ground (arith, find-member n rs s)

pub serve-Served :
    (r : Request) (w : Worker) → Good w → r.req ≡ proc_creat_req → (w' : Worker) × Served r w w'
serve-Served r w g c = elim (Option-cases (find_number r.request_nbr w.backlog)) [
  | inr (s, e) ↦
      let created : s.req ≡ proc_creat_req =
        rw e at (find-Creates r.request_nbr w.backlog g.all_create) in
      let known = ap (member r.request_nbr) g.same ∙ find-member r.request_nbr w.backlog s e in
      (
        _,
        (
          serve_known r s w e created,
          record {
            all_create = readdress-AllCreate r.request_nbr r.cliaddr w.backlog g.all_create;
            same = g.same ∙ sym (numbers-readdress r.request_nbr r.cliaddr w.backlog);
            distinct = g.distinct;
          },
          refl,
          rw known refl,
        ),
      )
  | inl e ↦
      let new = ap (member r.request_nbr) g.same ∙ member-find r.request_nbr w.backlog e in
      (
        _,
        (
          serve_fresh r w e c,
          record {
            all_create = (proceed-req r c, g.all_create);
            same = rw (proceed-number r, g.same) refl;
            distinct = (new, g.distinct);
          },
          refl,
          rw new refl,
        ),
      )
]

unfoldable pub serve_all : List Request → Worker → Option Worker
serve_all [] w = some w
serve_all (r ∷ rs) w = serve r w >>= serve_all rs

abbrev pub idle_worker : Worker
idle_worker = record { backlog = []; sent = []; proceeded = [] }

-- The numbers of the requests, each once, the last new one first.
unfoldable pub once : List Request → List ℕ → List ℕ
once [] ns = ns
once (r ∷ rs) ns = once rs (if member r.request_nbr ns then ns else r.request_nbr ∷ ns)
