-- ===== src/Csda/Best.antt =====
-- What `csda_best_node_for_app` of src/csd/csda.c finds in the database.
use dkmp.Base.{
  ℕ, ◌≡◌, refl, ap, inl, inr, Bool, true, false, Option, none, some, List, [], ◌∷◌, append-nil,
  Bool-cases, not, Text,
}
use dkmp.Csdb.Key.{count_delims}
use dkmp.Csdb.Key.Names.{IsName, is_nil}
use dkmp.Csdb.Store.{Db, done}
use dkmp.Csdb.Values.{Ready, content, exists, key_exist-content, get_value-answer}
use dkmp.Csc.{is_space, strtok, node_is_alive}
use dkmp.Csc.Names.{alive_name, avg1_name, avg5_name, avg15_name}
use dkmp.Csc.Nodes.{app_nodes, nodes-IsPath}
use dkmp.Csc.System.Loads.{load_path, get_load}
use dkmp.Csc.Words.{AllFilled, strtok-AllFilled}
use dkmp.Csda.{better, calc_bench, search_best, status_of, best_node_for_app}
use dkmp.Csda.Choice.{best_of, Result, best_of-Result}

module _ (db : Db) (bench : Text → Text → Text → ℕ) (load1 load5 load15 : Text → Text) where
  abbrev pub alive_here : Text → Bool
  alive_here n = exists (content db (alive_name ∷ n ∷ []))

  abbrev pub good_here : Text → ℕ
  good_here n = bench (load1 n) (load5 n) (load15 n)

  -- The loads of every node that is alive stand in the database.
  abbrev pub Loaded : List Text → Type 0
  Loaded [] = Unit
  Loaded (n ∷ ns) =
      (alive_here n ≡ true
        → (content db (load_path n avg1_name) ≡ some (some (load1 n), true))
          × (content db (load_path n avg5_name) ≡ some (some (load5 n), true))
          × (content db (load_path n avg15_name) ≡ some (some (load15 n), true)))
      × Loaded ns

  alive_lem :
      (n : Text)
      → Ready db
      → IsName n
      → is_nil n ≡ false
      → node_is_alive n db ≡ done (alive_here n) db
  unfolding node_is_alive count_delims
  alive_lem n r k filled = rw append-nil at (
      key_exist-content db (alive_name ∷ n ∷ []) r
        (record { all_names = (refl, (k, tt)); filled = ap not filled }))

  calc_bench_lem :
      (n : Text)
      → Ready db
      → IsName n
      → content db (load_path n avg1_name) ≡ some (some (load1 n), true)
      → content db (load_path n avg5_name) ≡ some (some (load5 n), true)
      → content db (load_path n avg15_name) ≡ some (some (load15 n), true)
      → calc_bench bench n db ≡ done (good_here n) db
  unfolding calc_bench count_delims
  calc_bench_lem n r k a b c =
      rw
        (
          get_load db n avg1_name (load1 n) r k refl refl a,
          get_load db n avg5_name (load5 n) r k refl refl b,
          get_load db n avg15_name (load15 n) r k refl refl c,
        )
        refl

  search_best-best_of :
      (ns : List Text) (p : Option ℕ × Text)
      → Ready db
      → AllFilled ns
      → Loaded ns
      → search_best bench ns p db ≡ done (best_of alive_here good_here ns p) db
  unfolding search_best best_of
  search_best-best_of [] p r f l = refl
  search_best-best_of (n ∷ ns) p r f l = elim (Bool-cases (alive_here n)) [
    | inl up ↦
        let (a, b, c) = l.0 up in
        rw (alive_lem n r f.1 f.0, up, calc_bench_lem n r f.1 a b c)
          (search_best-best_of ns (better (good_here n) n p) r f.2 l.1)
    | inr down ↦ rw (alive_lem n r f.1 f.0, down) (search_best-best_of ns p r f.2 l.1)
  ]

  -- The best node for an application is one of its capable nodes that are alive, and no other of
  -- those has a larger goodness; where none is alive, the status is -1 and the buffer keeps what it
  -- held. The database is left as it is. It has a root, its mutex is free and no entry has two
  -- childs of one name; the capable nodes of the application are written down, the loads of those
  -- that are alive stand in it, and neither the application's name nor a node's name has a '.'.
  pub best_node-Result :
      (truncated : ℕ → ℕ) (app nodes buffer : Text)
      → Ready db
      → IsName app
      → content db (app_nodes app) ≡ some (some nodes, true)
      → IsName nodes
      → Loaded (strtok is_space nodes)
      → (p : Option ℕ × Text) × (best_node_for_app bench truncated app buffer db
          ≡ done (status_of bench truncated p) db)
        × Result alive_here good_here (strtok is_space nodes) (none, buffer) p
  unfolding best_node_for_app
  best_node-Result truncated app nodes buffer r k known l loaded =
      let ns = strtok is_space nodes in
      let path = nodes-IsPath app k in
      let there = rw append-nil at (key_exist-content db (app_nodes app) r path) in
      let found = rw append-nil at (get_value-answer db (app_nodes app) r path) in
      let chosen =
        search_best-best_of ns (none, buffer) r (strtok-AllFilled is_space nodes l) loaded in
      (
        best_of alive_here good_here ns (none, buffer),
        rw (there, known, found, known, chosen) refl,
        best_of-Result alive_here good_here ns (none, buffer),
      )
