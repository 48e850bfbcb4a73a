-- ===== src/Ikcd/BestNode.antt =====
-- `ikcr_best_node_for_app` of src/ikcd/ikcr.c: ikcd asks csd for the best node by message queues. The
-- queues are a parameter.
pub mod Message
pub mod Served
use dkmp.Base.{
  ℕ, ◌+◌, Bool, true, false, Option, none, some, List, [], ◌∷◌, ◌++◌, ltb, if◌then◌else◌, length,
  Text, ℤ, pos, negsuc, is_neg, Bytes, c_string,
}
use dkmp.Csc.System.{decimal}

-- The text of `struct bn_request`; the number of a queue is not negative here.
abbrev pub number_text : ℤ → Text
number_text (pos n) = decimal n
number_text (negsuc n) = []

unfoldable pub request_text : (client_id : ℤ) (app : Text) → Text
request_text client_id app = number_text client_id ++ b' ' ∷ app

-- `MSQ_MAX_NAME`, which is the size of the buffer for the text and its closing 0.
abbrev pub msq_max_name : ℕ
msq_max_name = 257

abbrev pub own_node : {W : Type 0} → (hostname : Text) → W → Option (ℤ × Text × W)
own_node hostname w = some (negsuc 0, hostname, w)

abbrev pub named : {W : Type 0} → Option Text → W → Option (ℤ × Text × W)
named none w = none
named (some node) w = some (pos 0, node, w)

abbrev pub replied : {W : Type 0} → (hostname : Text) → Option Bytes × W → Option (ℤ × Text × W)
replied hostname (none, w) = own_node hostname w
replied hostname (some resp, w) = named (c_string resp) w

module _ {W : Type 0}
    -- What `msgget` returns for the two queues, and what comes of a message to the first one within a
    -- second: a message on the second one, or an error.
    (server_id client_id : ℤ) (ask : Bytes → W → Option Bytes × W) (hostname : Text) where
  -- The status, the node and the world; no result where a text does not fit its buffer or does not end
  -- in it.
  unfoldable pub best_node_for_app : (appname : Text) → W → Option (ℤ × Text × W)
  best_node_for_app appname w =
      if is_neg server_id
      then own_node hostname w
      else if is_neg client_id
      then own_node hostname w
      else if ltb (length (request_text client_id appname)) msq_max_name
      then replied hostname (ask (request_text client_id appname ++ 0 ∷ []) w)
      else none
