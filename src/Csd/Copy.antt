-- ===== src/Csd/Copy.antt =====
-- Values that a daemon of src/csd/csd.c asks of others: `cs_do_db_request_for_node` with
-- `cs_proceed_db_request` of another node at the end of the network, and the rounds of them that
-- `csc_do_def_req_for_alive_nodes` of src/csd/csc.c makes.
pub mod Nodes
use dkmp.Base.{◌+◌}
use dkmp.Csd.Buffer.{buffer-response}
use dkmp.Base.{
  ℕ, ◌<◌, ◌≡◌, ◌≢◌, refl, sym, ap, ◌∙◌, inl, inr, Bool, true, false, Option, none, some, List, [],
  ◌∷◌, ◌++◌, if◌then◌else◌, Bool-cases, length, Text, str_eq, pos, arith, Bytes, IsCString,
}
use dkmp.Csdb.Key.Names.{join_key}
use dkmp.Csdb.Stored.{stored, leaf_value, set_value-stored, same_path→eq}
use dkmp.Csdb.Store.{Db, Outcome, done, ◌>>=◌, ◌>>◌, pure, get_value_for_key, set_value_for_key}
use dkmp.Csdb.Values.{IsPath, Ready, content, get_value-answer}
use dkmp.Csdb.Appending.{same_path}
use dkmp.Csp.{resp_succ, resp_wdata}
use dkmp.Csp.Request.{Fits}
use dkmp.Csp.Response.{unpack-pack_resp}
use dkmp.Csc.Names.{node_name}
use dkmp.Csd.{
  Reply, sends, says_text, got, receive_packet, Exchange, db_response, do_db_request_for_node,
  do_requests,
}
use dkmp.Csd.Serve.{get_request, receive-get, packet_whole}
use dkmp.Csd.Capability.{reply_of, network}

-- Where what the node says of itself stands, in its own database and in the others'.
abbrev pub node_path : (node : Text) (r : List Text) → List Text
node_path n r = node_name ∷ n ∷ r

-- What a request for a value needs for its way over the network.
pub record IsServed (remote : Db) (ks : List Text) (v : Text) : Type 0 where
  pub ready : Ready remote
  pub path : IsPath ks
  pub key : Fits (join_key ks)
  pub key_short : length (join_key ks) < 256
  pub here : content remote ks ≡ some (some v, true)
  pub short : length (join_key ks) + length v < 4087
  pub clean : IsCString v

stored_lem :
    (db : Db) (ks : List Text) (v : Text) (now : ℕ) (node : Text) (remote : Db)
    → length v < 4091
    → IsCString v
    → db_response node (join_key ks) now (reply_of (done (says_text v) remote)) db
      ≡ (set_value_for_key (join_key ks) (some v) now >> pure (pos 0)) db
stored_lem db ks v now node remote h k =
    rw
      (
        packet_whole resp_wdata resp_succ v,
        buffer-response resp_succ v h,
        unpack-pack_resp resp_succ v 0 [] (omega (arith, h)) k,
      )
      refl

-- Asking a node for a key stores the value of the node's database under the same key.
pub do_db_request-stored :
    (db remote : Db) (ks : List Text) (v node : Text) (now later : ℕ)
    → Ready db
    → IsServed remote ks v
    → (db' : Db) × (do_db_request_for_node (network remote later) node (join_key ks) now db
        ≡ done (pos 0) db')
      × Ready db'
      × ((path : List Text)
          → stored db' path ≡ (if same_path path ks then some v else stored db path))
unfolding do_db_request_for_node
do_db_request-stored db remote ks v node now later r s =
    let (db', e, r', h) = set_value-stored db ks v now r s.path in
    (
      db',
      rw
          (
            receive-get ks (0 ∷ []) later remote s.path s.key (omega (arith, s.short)),
            get_value-answer remote ks s.ready s.path,
            s.here,
            stored_lem db ks v now node remote (omega (arith, s.short)) s.clean,
            e,
          )
          refl,
      r',
      h,
    )
