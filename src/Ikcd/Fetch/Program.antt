-- ===== src/Ikcd/Fetch/Program.antt =====
-- What becomes of the program that a task asks to start on another node, src/ikcd/ikcd.c and
-- src/ikcd/ikcr.c.
use dkmp.Base.{ℕ, ◌≡◌, [], Text}
use dkmp.Ikcd.{Address, Request, queued, collect}
use dkmp.Ikcd.Outgoing.{Outgoing, request_packet}
use dkmp.Ikcd.Outgoing.Lossy.{Sendable, arrives_lem}
use dkmp.Ikcd.Fetch.{request_of}

-- The request for a process that ikcd makes for a task comes in at the other node with the name of
-- that node in place of the program's file name, and with no arguments: the program is not sent. The
-- request is one that can come in whole.
pub request-loses_file :
    (hostname r_node file : Text) (fresh : Outgoing) (pid thread garbage : ℕ) (from : Address)
    → Sendable thread (request_of hostname fresh pid r_node file)
    → (r : Request) × (collect from garbage
          (request_packet thread (request_of hostname fresh pid r_node file))
        ≡ queued r)
      × (r.filename ≡ r_node)
      × (r.argv ≡ [])
      × (r.o_node ≡ hostname)
      × (r.o_pid ≡ pid)
request-loses_file hostname r_node file fresh pid thread garbage from s =
    let (r, e, a) = arrives_lem thread (request_of hostname fresh pid r_node file) s from garbage in
    (r, e, a.program.0, a.program.1, a.origin.0, a.origin.1)
