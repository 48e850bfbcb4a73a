-- ===== src/Csd/Copy/Nodes.antt =====
-- What the default requests of `csc_do_def_req_for_alive_nodes` of src/csd/csc.c bring from the other
-- nodes.
use dkmp.Base.{
  Bool, ℕ, suc, ◌≡◌, ◌≢◌, refl, sym, ap, ◌∙◌, inl, inr, true, false, some, List, [], ◌∷◌, map,
  if◌then◌else◌, Bool-cases, Text, str_eq, pos, Bytes,
}
use dkmp.Csdb.Key.{count_delims}
use dkmp.Csdb.Key.Names.{join_key}
use dkmp.Csdb.Stored.{stored, same_path→eq}
use dkmp.Csdb.Store.{Db, done, get_child_names_for_key}
use dkmp.Csdb.Values.{IsPath, Ready, content, get_value-answer}
use dkmp.Csdb.Appending.{same_path}
use dkmp.Csc.{is_space, strtok}
use dkmp.Csc.Names.{alive_name, config_name, def_db_req_name}
use dkmp.Csc.Words.{same_path_refl}
use dkmp.Csd.{Exchange, do_db_request_for_node, do_requests}
use dkmp.Csd.Capability.{network}
use dkmp.Csd.Copy.{node_path, IsServed, do_db_request-stored}
use dkmp.Csd.Update.{do_nodes, do_def_req_for_alive_nodes}

abbrev node_of : List Text → Text
node_of (a ∷ n ∷ r) = n
node_of _ = []

abbrev pub Unless : Bool → Type 0 → Type 0
Unless true A = Unit
Unless false A = A

-- The databases of the nodes, and the network between them.
module _ (remote : Text → Db) (later : ℕ) where
  abbrev pub lan : (node : Text) → Bytes → Exchange
  lan n m = network (remote n) later n m

  -- The value here is the one that the node has.
  abbrev pub Agrees : Db → (node : Text) → (r : List Text) → Type 0
  Agrees db n r = stored db (node_path n r) ≡ stored (remote n) (node_path n r)

  abbrev pub AllAgree : Db → (node : Text) → List (List Text) → Type 0
  AllAgree db n [] = Unit
  AllAgree db n (r ∷ rs) = Agrees db n r × AllAgree db n rs

  abbrev pub AllServed : (node : Text) → List (List Text) → Type 0
  AllServed n [] = Unit
  AllServed n (r ∷ rs) = (v : Text) × IsServed (remote n) (node_path n r) v × AllServed n rs

  -- For every node of a list but this one.
  abbrev pub NodesServed : (this : Text) → List Text → List (List Text) → Type 0
  NodesServed this [] rs = Unit
  NodesServed this (n ∷ ns) rs = Unless (str_eq this n) (AllServed n rs) × NodesServed this ns rs

  abbrev pub NodesAgree : Db → (this : Text) → List Text → List (List Text) → Type 0
  NodesAgree db this [] rs = Unit
  NodesAgree db this (n ∷ ns) rs =
      Unless (str_eq this n) (AllAgree db n rs) × NodesAgree db this ns rs

  -- Values only change to what the nodes have, and no others change.
  pub record Nearer (db db' : Db) : Type 0 where
    pub ready : Ready db'
    pub keeps : (n : Text) (r : List Text) → Agrees db n r → Agrees db' n r
    pub others :
        (path : List Text)
        → ((n : Text) (r : List Text) → path ≢ node_path n r)
        → stored db' path ≡ stored db path

  Nearer-refl : (db : Db) → Ready db → Nearer db db
  Nearer-refl db r = record { ready = r; keeps = λ n s e. e; others = λ path h. refl }

  Nearer-trans : (a b c : Db) → Nearer a b → Nearer b c → Nearer a c
  Nearer-trans a b c h k = record {
    ready = k.ready;
    keeps = λ n r e. k.keeps n r (h.keeps n r e);
    others = λ path away. k.others path away ∙ h.others path away;
  }

  AllAgree-keeps :
      (a b : Db) (n : Text) (rs : List (List Text)) → Nearer a b → AllAgree a n rs → AllAgree b n rs
  AllAgree-keeps a b n [] h k = tt
  AllAgree-keeps a b n (r ∷ rs) h k = (h.keeps n r k.0, AllAgree-keeps a b n rs h k.1)

  -- A single value that is stored.
  module _ (db db' : Db) (m : Text) (s : List Text) (v : Text)
      (has : stored (remote m) (node_path m s) ≡ some v)
      (h : (path : List Text)
        → stored db' path
          ≡ (if same_path path (node_path m s) then some v else stored db path)) where
    stored-keeps : (n : Text) (r : List Text) → Agrees db n r → Agrees db' n r
    stored-keeps n r k = elim (Bool-cases (same_path (node_path n r) (node_path m s))) [
      | inl same ↦
          let e = same_path→eq (node_path n r) (node_path m s) same in
          h (node_path n r) ∙ rw same (sym (ap (λ p. stored (remote (node_of p)) p) e ∙ has))
      | inr other ↦ h (node_path n r) ∙ rw other k
    ]

    stored-others :
        (path : List Text)
        → ((n : Text) (r : List Text) → path ≢ node_path n r)
        → stored db' path ≡ stored db path
    stored-others path away = elim (Bool-cases (same_path path (node_path m s))) [
      | inl same ↦ absurd (away m s (same_path→eq path (node_path m s) same))
      | inr other ↦ h path ∙ rw other refl
    ]

  lan_lem :
      (n key : Text) (now : ℕ)
      → do_db_request_for_node lan n key now
        ≡ do_db_request_for_node (network (remote n) later) n key now
  unfolding do_db_request_for_node
  lan_lem n key now = refl

  requests_lem :
      (db : Db) (n : Text) (rs : List (List Text)) (now : ℕ)
      → Ready db
      → AllServed n rs
      → (db' : Db) × (do_requests lan n (map join_key rs) now db ≡ done tt db')
        × Nearer db db'
        × AllAgree db' n rs
  unfolding do_requests
  requests_lem db n [] now ready k = (db, refl, Nearer-refl db ready, tt)
  requests_lem db n (r ∷ rs) now ready (v, served, k) =
      let (db1, e1, r1, h1) =
        do_db_request-stored db (remote n) (node_path n r) v n now later ready served in
      let has : stored (remote n) (node_path n r) ≡ some v = rw (served.here) refl in
      let near : Nearer db db1 = record {
        ready = r1;
        keeps = stored-keeps db db1 n r v has h1;
        others = stored-others db db1 n r v has h1;
      } in
      let (db2, e2, near2, agree) = requests_lem db1 n rs now r1 k in
      let here : Agrees db1 n r =
        h1 (node_path n r) ∙ rw (same_path_refl (node_path n r)) (sym has) in
      (
        db2,
        rw (lan_lem n (join_key (node_path n r)) now, e1, e2) refl,
        Nearer-trans db db1 db2 near near2,
        (near2.keeps n r here, agree),
      )

  nodes_lem :
      (db : Db) (this : Text) (ns : List Text) (rs : List (List Text)) (now : ℕ)
      → Ready db
      → NodesServed this ns rs
      → (db' : Db) × (do_nodes lan this (map join_key rs) ns now db ≡ done tt db')
        × Nearer db db'
        × NodesAgree db' this ns rs
  unfolding do_nodes
  nodes_lem db this [] rs now ready k = (db, refl, Nearer-refl db ready, tt)
  nodes_lem db this (n ∷ ns) rs now ready k = elim (Bool-cases (str_eq this n)) [
    | inl own ↦
        let (db', e, near, agree) = nodes_lem db this ns rs now ready k.1 in
        (db', rw (own, e) refl, near, ((rw own tt), agree))
    | inr other ↦
        let (db1, e1, near1, agree1) = requests_lem db n rs now ready (rw other at k.0) in
        let (db2, e2, near2, agree2) = nodes_lem db1 this ns rs now near1.ready k.1 in
        (
          db2,
          rw (other, e1, e2) refl,
          Nearer-trans db db1 db2 near1 near2,
          ((rw other (AllAgree-keeps db1 db2 n rs near2 agree1)), agree2),
        )
  ]

  def_req-IsPath : IsPath (config_name ∷ def_db_req_name ∷ [])
  unfolding count_delims
  def_req-IsPath = record { all_names = (refl, (refl, tt)); filled = refl }

  -- Every value that the default requests name is fetched from every alive node but this one: after a
  -- round, what stands here at a node's key is what stands in the node's own database, for all of
  -- them at once, no other key of a node has moved away from what the node has, and nothing outside
  -- the keys of the nodes is changed. The nodes are reached over the network and have each requested
  -- key with a value, key and value of at most 4086 bytes together, so that the packets fit the
  -- buffers of MAXLINE bytes; some node is alive, the list of default requests stands in the
  -- database; the databases have a root, their mutexes are free and no entry has two childs of one
  -- name; the keys are C strings of at most 255 bytes whose parts hold no '.'.
  pub do_def_req-agrees :
      (db : Db) (this : Text) (count : ℕ) (nodes : List Text) (names req_str : Text)
      (rs : List (List Text)) (now : ℕ)
      → Ready db
      → get_child_names_for_key (b'.' ∷ alive_name) db ≡ done (some (suc count, nodes, names)) db
      → content db (config_name ∷ def_db_req_name ∷ []) ≡ some (some req_str, true)
      → strtok is_space req_str ≡ map join_key rs
      → NodesServed this nodes rs
      → (db' : Db) × (do_def_req_for_alive_nodes lan this now db ≡ done (pos 0) db')
        × Nearer db db'
        × NodesAgree db' this nodes rs
  unfolding do_def_req_for_alive_nodes
  do_def_req-agrees db this count nodes names req_str rs now r alive here words k =
      let (db', e, near, agree) = nodes_lem db this nodes rs now r k in
      let found = get_value-answer db (config_name ∷ def_db_req_name ∷ []) r def_req-IsPath in
      (db', rw (alive, found, here, words, e) refl, near, agree)
