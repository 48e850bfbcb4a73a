-- ===== src/Csd/Rounds.antt =====
-- From /proc of one node to the database of another: `csc_set_load` of src/csd/csc.c, a round of
-- `cs_send_hello_loop` of src/csd/csd.c, and the receiver.
use dkmp.Base.{
  ℕ, ◌+◌, ◌≡◌, refl, ap, ◌∙◌, false, true, some, [], ◌∷◌, ◌++◌, append_assoc, arith, length, take,
  Text, Bytes,
}
use dkmp.Csdb.Key.Names.{IsName, is_nil}
use dkmp.Csdb.Store.{Db, done, ◌>>◌}
use dkmp.Csdb.Values.{Ready, content}
use dkmp.Csp.{cs_hello, pack_hello_packet}
use dkmp.Csc.{node_is_alive}
use dkmp.Csc.Names.{avg1_name, avg5_name, avg15_name, loadavg1_name, loadavg5_name, loadavg15_name}
use dkmp.Csdb.Key.{count_delims}
use dkmp.Csc.System.{LoadAvg, set_load}
use dkmp.Csc.System.Loads.{set_load-here, get_load}
use dkmp.Csd.{nothing, sent_of, hello_round, receive_packet}
use dkmp.Csd.Hello.{Carried, alive_load, fields, length-fields, receive-fields}

take-append : (xs ys : Bytes) → take (length xs) (xs ++ ys) ≡ xs
take-append [] [] = refl
take-append [] (y ∷ ys) = refl
take-append (x ∷ xs) ys = ap (◌∷◌ x) (take-append xs ys)

-- The closing 0 is not sent.
sent_packet_lem :
    (h a b c : Text)
    → sent_of (pack_hello_packet h (some a) (some b) (some c))
      ≡ some (1 ∷ cs_hello ∷ fields h a b c)
unfolding pack_hello_packet
sent_packet_lem h a b c =
    let m : Bytes = 1 ∷ cs_hello ∷ fields h a b c in
    let n : 2 + length h + length a + length b + length c + 4 ≡ length m =
      omega (arith, length-fields h a b c) in
    ap some (
      ap (λ n. take n (pack_hello_packet h (some a) (some b) (some c)).1) n
      ∙ ap (λ t. 1 ∷ cs_hello ∷ t) (simp append_assoc at (take-append (fields h a b c) (0 ∷ []))))

-- The load averages that one node reads from its /proc, and then sends in a round of its hello
-- loop, are what every receiver of the packet has for that node, which it takes to be alive. Both
-- databases have a root, their mutexes are free and no entry has two childs of one name. The node's
-- name is not empty and has no '.'; name and averages are C strings of at most 126 bytes.
pub receive-hello_round :
    (db remote : Db) (h : Text) (l : LoadAvg) (behind : Bytes) (now later : ℕ)
    → Ready db
    → Ready remote
    → IsName h
    → is_nil h ≡ false
    → Carried h
    → Carried l.avg1
    → Carried l.avg5
    → Carried l.avg15
    → (db' : Db) × (sent : Bytes) × (remote' : Db) × ((set_load h (some l) now >> hello_round h) db
        ≡ done (some sent) db')
      × (receive_packet (sent ++ behind) later remote ≡ done nothing remote')
      × (content remote' (alive_load h loadavg1_name) ≡ some (some l.avg1, true))
      × (content remote' (alive_load h loadavg5_name) ≡ some (some l.avg5, true))
      × (content remote' (alive_load h loadavg15_name) ≡ some (some l.avg15, true))
      × (node_is_alive h remote' ≡ done true remote')
unfolding hello_round count_delims
receive-hello_round db remote h l behind now later r r' k filled kh k1 k5 k15 =
    let (db', set', ready', c1, c5, c15) = set_load-here db h l now r k in
    let (remote', received', ok, d1, d5, d15, alive) =
      receive-fields remote h l.avg1 l.avg5 l.avg15 behind later r' k filled kh k1 k5 k15 in
    (
      db',
      1 ∷ cs_hello ∷ fields h l.avg1 l.avg5 l.avg15,
      remote',
      rw
          (
            set',
            get_load db' h avg1_name l.avg1 ready' k refl refl c1,
            get_load db' h avg5_name l.avg5 ready' k refl refl c5,
            get_load db' h avg15_name l.avg15 ready' k refl refl c15,
            sent_packet_lem h l.avg1 l.avg5 l.avg15,
          )
          refl,
      received',
      d1,
      d5,
      d15,
      alive,
    )
