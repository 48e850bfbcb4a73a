-- ===== src/Csda/Server.antt =====
-- `csda_best_node_server_thread` of src/csd/csda.c: one request of the message queue.
use dkmp.Base.{
  ℕ, zero, Bool, true, false, Option, none, some, if◌then◌else◌, Text, ℤ, negsuc, Bytes, c_string,
}
use dkmp.Base.Scan.{scan_int, scan_word}
use dkmp.Csdb.Store.{Op, ◌>>=◌, pure}
use dkmp.Csda.{best_node_for_app}

-- The variables that live on from one request to the next.
pub record Server : Type 0 where
  pub client_id : ℤ
  pub app_name : Text
  pub best_node : Text

-- `sscanf` with "%d %s": what it does not find stays as it was.
abbrev pub scanned_app : Option Text → Server → Server
scanned_app none s = s
scanned_app (some app) s = record s { app_name = app }

abbrev pub scanned : Option (ℤ × Text) → Server → Server
scanned none s = s
scanned (some (id, rest)) s = scanned_app (scan_word rest) (record s { client_id = id })

abbrev pub is_failure : ℤ → Bool
is_failure (negsuc zero) = true
is_failure _ = false

-- The message for the client, whose queue has the number `client_id`.
abbrev pub answer_with : (hostname : Text) → ℤ × Text → Server → Server
answer_with hostname (error, best) s = record s {
  best_node = if is_failure error then hostname else best;
}

module _ (bench : (load1 load5 load15 : Text) → ℕ) (truncated : ℕ → ℕ) (hostname : Text) where
  abbrev pub serve_text : Option Text → Server → Op (Option Server)
  serve_text none s = pure none
  serve_text (some t) s =
      let s' = scanned (scan_int t) s in
      (do
        found ← best_node_for_app bench truncated s'.app_name s'.best_node
        pure (some (answer_with hostname found s')))

  -- `none`: the message does not end in its buffer.
  unfoldable pub serve_best_node : (msg : Bytes) → Server → Op (Option Server)
  serve_best_node msg s = serve_text (c_string msg) s
