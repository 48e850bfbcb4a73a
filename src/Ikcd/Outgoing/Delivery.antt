-- ===== src/Ikcd/Outgoing/Delivery.antt =====
-- A request for a process that is sent up to twice over a network that loses datagrams.
use dkmp.Base.{
  ℕ, ◌≡◌, refl, ap, ◌∙◌, true, false, ◌||◌, Option, some, List, [], ◌∷◌, ◌==◌, ==_iff,
  if◌then◌else◌, Text, ℤ, pos, negsuc,
}
use dkmp.Ikc.Numbers.{unpack_req_id}
use dkmp.Ikc.Packet.{proc_creat_req}
use dkmp.Ikcd.{Address, Worker}
use dkmp.Ikcd.Backlog.Answers.{Sane, answer}
use dkmp.Ikcd.Outgoing.{
  Outgoing, timed_out, datagram, Proceeded, returned, request_packet, with_reply,
  proceed_outgoing_request, attempt, max_attempts,
}
use dkmp.Ikcd.Outgoing.Lossy.{
  proceed_by, Fate, lost, unanswered, through, Net, net_of, exchange, any_address_lem, arrives,
  answers, marks, marks_both, Sendable, number_of, answer_lem, Tried, tried,
}

module _ (thread : ℕ) (r : Outgoing) (sendable : Sendable thread r) (from : Address) (g : ℕ) where
  same_packet :
      (arg : Text) → request_packet thread (record r { arg1 = arg }) ≡ request_packet thread r
  unfolding request_packet
  same_packet arg = refl

  abbrev sent_once : Outgoing
  sent_once = record r { arg1 = [] }

  abbrev answered : Outgoing
  answered = record r { arg1 = []; seq_nbr = unpack_req_id (number_of from thread r); r_pid = 76 }

  abbrev after : Fate → Net → Proceeded Net
  after through net = returned (pos 0) answered net
  after _ net = returned (negsuc 0) sent_once net

  module _ (resolve : Text → Option ℕ) (addr : ℕ) (resolved : resolve r.r_node ≡ some addr) where
    creates_lem : (r.req == proc_creat_req) ≡ true
    creates_lem = (==_iff r.req proc_creat_req).1 sendable.creates

    reply_lem :
        (f : Fate) (net : Net)
        → with_reply sent_once
            (if answers f then datagram (answer (number_of from thread r) 76) else timed_out, net)
          ≡ after f net
    reply_lem lost net = refl
    reply_lem unanswered net = refl
    reply_lem through net = rw (answer_lem (number_of from thread r)) refl

    proceeds :
        (arg : Text) (f : Fate) (fs : List Fate) (w w' : Worker)
        → Tried thread r sendable from g f fs w w'
        → proceed_outgoing_request resolve exchange thread
            (record r { arg1 = arg })
            (net_of from g (f ∷ fs) w)
          ≡ after f (net_of from g fs w')
    proceeds arg f fs w w' t =
        let run =
          ap (λ m. exchange addr m (net_of from g (f ∷ fs) w)) (same_packet arg)
          ∙ any_address
          ∙ t.run in
        proceed_by resolve exchange thread addr (record r { arg1 = arg }) (net_of from g (f ∷ fs) w)
          _ creates_lem resolved run
        ∙ reply_lem f (net_of from g fs w')
      where
        any_address :
            exchange addr (request_packet thread r) (net_of from g (f ∷ fs) w)
            ≡ exchange 0 (request_packet thread r) (net_of from g (f ∷ fs) w)
        any_address = any_address_lem addr (request_packet thread r) (net_of from g (f ∷ fs) w)

    -- Two attempts, whatever becomes of them.
    pub record Delivered (f1 f2 : Fate) (fs : List Fate) (w : Worker) : Type 0 where
      pub status : ℤ
      pub request : Outgoing
      pub net : Net
      pub run :
          attempt resolve exchange max_attempts thread r (net_of from g (f1 ∷ f2 ∷ fs) w)
          ≡ returned status request net
      pub success : status ≡ (if answers f1 || answers f2 then pos 0 else negsuc 0)
      pub pid : request.r_pid ≡ (if answers f1 || answers f2 then 76 else r.r_pid)
      pub same : (request.o_pid ≡ r.o_pid) × (request.req ≡ r.req)
      pub once :
          net.remote.proceeded
          ≡ marks (arrives f1 || arrives f2) (number_of from thread r) w.proceeded
      pub sane : Sane net.remote

    abbrev request_after : Fate → Outgoing
    request_after through = answered
    request_after _ = sent_once

    second :
        (f : Fate) (fs : List Fate) (w w' : Worker)
        → Tried thread r sendable from g f fs w w'
        → attempt resolve exchange 1 thread sent_once (net_of from g (f ∷ fs) w)
          ≡ returned (if answers f then pos 0 else negsuc 0) (request_after f) (net_of from g fs w')
    unfolding attempt
    second lost fs w w' t = rw (proceeds [] lost fs w w' t) refl
    second unanswered fs w w' t = rw (proceeds [] unanswered fs w w' t) refl
    second through fs w w' t = rw (proceeds [] through fs w w' t) refl

    first_fails :
        (f : Fate) (fs : List Fate) (w w' : Worker)
        → answers f ≡ false
        → Tried thread r sendable from g f fs w w'
        → attempt resolve exchange max_attempts thread r (net_of from g (f ∷ fs) w)
          ≡ attempt resolve exchange 1 thread sent_once (net_of from g fs w')
    unfolding attempt
    first_fails lost fs w w' e t = rw (proceeds r.arg1 lost fs w w' t) refl
    first_fails unanswered fs w w' e t = rw (proceeds r.arg1 unanswered fs w w' t) refl
    first_fails through fs w w' e t = cc e

    pid_after : (f : Fate) → (request_after f).r_pid ≡ (if answers f then 76 else r.r_pid)
    pid_after lost = refl
    pid_after unanswered = refl
    pid_after through = refl

    same_after : (f : Fate) → ((request_after f).o_pid ≡ r.o_pid) × ((request_after f).req ≡ r.req)
    same_after lost = (refl, refl)
    same_after unanswered = (refl, refl)
    same_after through = (refl, refl)

    again :
        (f1 f2 : Fate) (fs : List Fate) (w w1 : Worker)
        → answers f1 ≡ false
        → Tried thread r sendable from g f1 (f2 ∷ fs) w w1
        → Delivered f1 f2 fs w
    again f1 f2 fs w w1 e t1 =
        let (w2, t2) = tried thread r sendable from g f2 fs w1 t1.sane in
        let n = number_of from thread r in
        record {
          status = if answers f2 then pos 0 else negsuc 0;
          request = request_after f2;
          net = net_of from g fs w2;
          run = first_fails f1 (f2 ∷ fs) w w1 e t1 ∙ second f2 fs w1 w2 t2;
          success = rw e refl;
          pid = rw e (pid_after f2);
          same = same_after f2;
          once =
              t2.marked
              ∙ ap (marks (arrives f2) n) t1.marked
              ∙ marks_both (arrives f1) (arrives f2) n w.proceeded;
          sane = t2.sane;
        }

    -- Over a network that loses requests and responses, the two attempts at a request for a process end
    -- with status 0 exactly if a response gets through in one of them, and the request then has the
    -- pid that the other node gave; else the status is -1 and its pid is what it was. Either way the
    -- other node proceeds the number once, and only if an attempt reaches it and the number is new to
    -- it. The request is one that can come in whole, its node is resolved, and the other node's
    -- backlog is sane.
    pub attempt-Delivered :
        (f1 f2 : Fate) (fs : List Fate) (w : Worker) → Sane w → Delivered f1 f2 fs w
    unfolding attempt
    attempt-Delivered through f2 fs w s =
        let (w1, t1) = tried thread r sendable from g through (f2 ∷ fs) w s in
        record {
          status = pos 0;
          request = answered;
          net = net_of from g (f2 ∷ fs) w1;
          run = rw (proceeds r.arg1 through (f2 ∷ fs) w w1 t1) refl;
          success = refl;
          pid = refl;
          same = (refl, refl);
          once = t1.marked;
          sane = t1.sane;
        }
    attempt-Delivered lost f2 fs w s =
        let (w1, t1) = tried thread r sendable from g lost (f2 ∷ fs) w s in
        again lost f2 fs w w1 refl t1
    attempt-Delivered unanswered f2 fs w s =
        let (w1, t1) = tried thread r sendable from g unanswered (f2 ∷ fs) w s in
        again unanswered f2 fs w w1 refl t1
