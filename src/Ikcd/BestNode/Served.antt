-- ===== src/Ikcd/BestNode/Served.antt =====
-- ikcd and csd together: src/ikcd/ikcr.c asks for the best node, src/csd/csda.c answers.
use dkmp.Base.{
  ℕ, ◌<◌, ◌≡◌, refl, inl, inr, Bool, true, false, Option, none, some, List, [], ◌∷◌, ◌++◌, arith,
  ◌==◌, ==_iff, Bool-cases, ltb, if◌then◌else◌, length, Text, ℤ, pos, Bytes, IsCString,
  c_string-append,
}
use dkmp.Base.Scan.{IsWord}
use dkmp.Csdb.Key.Names.{IsName}
use dkmp.Csdb.Store.{Db, Outcome, done}
use dkmp.Csdb.Values.{Ready, content}
use dkmp.Csc.{is_space, strtok, cut, add_token}
use dkmp.Csc.Nodes.{app_nodes}
use dkmp.Csda.{status_of}
use dkmp.Csda.Choice.{Result, Chosen}
use dkmp.Csda.Best.{alive_here, good_here, Loaded, best_node-Result}
use dkmp.Csda.Server.{Server, answer_with, serve_best_node}
use dkmp.Ikcd.BestNode.{request_text}
use dkmp.Ikcd.BestNode
use dkmp.Ikcd.BestNode.Message.{Below, scanned-request}

-- csd with its database.
pub record Csd : Type 0 where
  pub server : Server
  pub db : Db

abbrev same_queue : ℤ → ℤ → Bool
same_queue (pos a) (pos b) = a == b
same_queue _ _ = false

-- The response comes to the queue that the request names. With none within a second, the receive fails.
abbrev received : (client_id : ℤ) → Csd → Outcome (Option Server) → Option Bytes × Csd
received id csd (done (some s) db) = (
  if same_queue s.client_id id then some (s.best_node ++ 0 ∷ []) else none,
  record { server = s; db = db },
)
received id csd _ = (none, csd)

unfoldable pub ask_csd :
    (bench : Text → Text → Text → ℕ) (truncated : ℕ → ℕ) (hostname : Text) (client_id : ℤ)
    → Bytes
    → Csd
    → Option Bytes × Csd
ask_csd bench truncated hostname id m csd =
    received id csd (serve_best_node bench truncated hostname m csd.server csd.db)

abbrev pub chosen : (hostname : Text) → Option ℕ × Text → Text
chosen hostname (none, best) = hostname
chosen hostname (some m, best) = best

abbrev AllCString : List Text → Type 0
AllCString [] = Unit
AllCString (t ∷ ts) = IsCString t × AllCString ts

add_token-CString :
    (t : Text) (ts : List Text) → IsCString t → AllCString ts → AllCString (add_token t ts)
add_token-CString [] ts a b = b
add_token-CString (c ∷ t) ts a b = (a, b)

cut-CString :
    (d : ℕ → Bool) (t : Text) → IsCString t → IsCString (cut d t).0 × AllCString (cut d t).1
unfolding cut
cut-CString d [] k = (tt, tt)
cut-CString d (c ∷ t) k =
    let (a, b) = cut-CString d t k.1 in
    elim (Bool-cases (d c)) [
      | inl delim ↦ rw delim (tt, add_token-CString (cut d t).0 (cut d t).1 a b)
      | inr other ↦ rw other ((k.0, a), b)
    ]

tokens-CString : (d : ℕ → Bool) (t : Text) → IsCString t → AllCString (strtok d t)
unfolding strtok
tokens-CString d t k =
    let (a, b) = cut-CString d t k in add_token-CString (cut d t).0 (cut d t).1 a b

module _ (db : Db) (bench : Text → Text → Text → ℕ) (load1 load5 load15 : Text → Text) where
  abbrev Best : List Text → (buffer : Text) → Option ℕ × Text → Type 0
  Best ns buffer p =
      Result (alive_here db bench load1 load5 load15) (good_here db bench load1 load5 load15) ns
        (none, buffer) p

  Chosen-CString :
      (t : Text) (m : ℕ) (ns : List Text)
      → AllCString ns
      → Chosen
          (alive_here db bench load1 load5 load15)
          (good_here db bench load1 load5 load15)
          t
          m
          ns
      → IsCString t
  Chosen-CString t m [] a h = absurd h
  Chosen-CString t m (n ∷ ns) a (inl h) = rw h.0 a.0
  Chosen-CString t m (n ∷ ns) a (inr h) = Chosen-CString t m ns a.1 h

  chosen-CString :
      (hostname : Text) (ns : List Text) (buffer : Text) (p : Option ℕ × Text)
      → IsCString hostname
      → AllCString ns
      → Best ns buffer p
      → IsCString (chosen hostname p)
  chosen-CString hostname ns buffer (none, t) h a r = h
  chosen-CString hostname ns buffer (some m, t) h a (_, _, inl old) = absurd (cc old.0)
  chosen-CString hostname ns buffer (some m, t) h a (_, _, inr k) = Chosen-CString t m ns a k

  answer_lem :
      (truncated : ℕ → ℕ) (hostname : Text) (p : Option ℕ × Text) (s : Server)
      → (answer_with hostname (status_of bench truncated p) s).best_node ≡ chosen hostname p
  answer_lem truncated hostname (none, t) s = refl
  answer_lem truncated hostname (some m, t) s = refl

  -- ikcd asks csd for the best node of a program by their message queues, and gets status 0 with the
  -- node that is alive, capable and whose goodness no other such node exceeds, or with the name of
  -- csd's host where no capable node is alive. The database is left as it is. It is ready, the
  -- capable nodes of the program are written down, their loads stand in it, the program's name has
  -- neither a '.' nor a blank and is not empty, the message fits its buffer, the number of the client's
  -- queue has at most ten digits, and the texts are C strings.
  pub best_node-served :
      (truncated : ℕ → ℕ) (csd_host ikcd_host nodes : Text) (i n c : ℕ) (app : Text) (s : Server)
      → Ready db
      → IsName (c ∷ app)
      → content db (app_nodes (c ∷ app)) ≡ some (some nodes, true)
      → IsName nodes
      → Loaded db bench load1 load5 load15 (strtok is_space nodes)
      → IsCString csd_host
      → IsCString nodes
      → Below 10 n
      → IsWord (c ∷ app)
      → IsCString (request_text (pos n) (c ∷ app))
      → length (request_text (pos n) (c ∷ app)) < 257
      → (p : Option ℕ × Text) × (BestNode.best_node_for_app
            (pos i)
            (pos n)
            (ask_csd bench truncated csd_host (pos n))
            ikcd_host
            (c ∷ app)
            (record { server = s; db = db })
          ≡ some (
            pos 0,
            chosen csd_host p,
            record {
              server = record {
                client_id = pos n;
                app_name = c ∷ app;
                best_node = chosen csd_host p;
              };
              db = db;
            },
          ))
        × Best (strtok is_space nodes) s.best_node p
  unfolding dkmp.Ikcd.BestNode.best_node_for_app ask_csd serve_best_node
  best_node-served truncated csd_host ikcd_host nodes i n c app s r k known l loaded ch cn b w cm
        short =
      let (p, e, best) =
        best_node-Result db bench load1 load5 load15 truncated (c ∷ app) nodes s.best_node r k known
          l loaded in
      let scan = scanned-request n c app s b w in
      let message = c_string-append (request_text (pos n) (c ∷ app)) [] cm in
      let clean =
        chosen-CString csd_host (strtok is_space nodes) s.best_node p ch
          (tokens-CString is_space nodes cn) best in
      let fits : ltb (length (request_text (pos n) (c ∷ app))) 257 ≡ true = ltb_lem _ short in
      (
        p,
        rw
            (
              fits,
              message,
              scan,
              e,
              answer_lem truncated csd_host p (record s { client_id = pos n; app_name = c ∷ app }),
              (==_iff n n).1 refl,
              c_string-append (chosen csd_host p) [] clean,
            )
            refl,
        best,
      )
    where
      ltb_lem : (a : ℕ) → a < 257 → ltb a 257 ≡ true
      ltb_lem a h = ground arith
