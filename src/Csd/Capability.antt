-- ===== src/Csd/Capability.antt =====
-- Capability requests between two daemons: `cs_do_cap_request_for_node` and `cs_proceed_cap_request` of
-- src/csd/csd.c.
use dkmp.Base.{
  ℕ, ◌+◌, ◌<◌, ◌≡◌, refl, ap, ◌∙◌, Bool, true, false, some, [], ◌∷◌, ◌++◌, append_assoc, arith,
  length, take, take_all, Text, ℤ, pos, Bytes, le16, IsCString, read16-le16, split_at-append,
  c_string-append,
}
use dkmp.Csdb.Store.{Db, Outcome, done}
use dkmp.Csdb.Values.{Ready}
use dkmp.Csc.Capable.{known_libs, named_libs, cap_to_exec-known_libs}
use dkmp.Csp.{cs_capexec, resp_succ, resp_wdata, pack_capreq_packet}
use dkmp.Csp.Request.{u16_short}
use dkmp.Csp.Response.{strncpy_self, unpack-pack_resp}
use dkmp.Csd.Serve.{packet_whole}
use dkmp.Csd.Buffer.{room_behind, buffer-append, buffer-response}
use dkmp.Csd.{
  Reply, sends, packet, cap_answer, cap_libs, proceed_cap_request, receive_from, receive_packet,
  Exchange, timeout, received, cap_response, do_cap_request_for_node,
}

abbrev pub cap_request : Text → Bytes
cap_request libs = packet (pack_capreq_packet cs_capexec libs)

cap_request_whole :
    (libs : Text)
    → length libs < 65536
    → cap_request libs ≡ 1 ∷ 3 ∷ cs_capexec ∷ (le16 (length libs) ++ libs)
unfolding pack_capreq_packet le16
cap_request_whole libs h =
    let m : Bytes = 1 ∷ 3 ∷ cs_capexec ∷ (le16 (length libs) ++ libs) in
    let e : 3 + length libs + 2 ≡ length m = omega arith in
    rw (u16_short libs h, strncpy_self libs) (ap (λ n. take n m) e ∙ take_all m)

cap_libs-le16 :
    (libs : Text) (behind : Bytes)
    → length libs < 65536
    → IsCString libs
    → cap_libs (le16 (length libs) ++ (libs ++ behind)) ≡ some libs
unfolding cap_libs
cap_libs-le16 libs behind h clean =
    rw
      (
        read16-le16 (length libs) (libs ++ behind) h,
        split_at-append libs behind,
        c_string-append libs [] clean,
      )
      refl

cap-served :
    (db : Db) (libs : Text) (behind : Bytes) (now : ℕ)
    → Ready db
    → length libs < 65536
    → IsCString libs
    → receive_from now (cap_request libs ++ behind) db
      ≡ done (cap_answer (known_libs db (named_libs libs))) db
unfolding proceed_cap_request
cap-served db libs behind now r h clean = rw (cap_request_whole libs h) (
    simp append_assoc
      (rw (cap_libs-le16 libs behind h clean, cap_to_exec-known_libs db libs r) refl))

length-cap_request :
    (libs : Text) → length libs < 65536 → length (cap_request libs) ≡ length libs + 5
unfolding le16
length-cap_request libs h = rw (cap_request_whole libs h) (omega arith)

-- A capability request for a list of libraries, a C string of at most 4090 bytes, so that the packet
-- fits the buffer of MAXLINE bytes, is answered
-- with "1" if all of them stand in the receiver's database and with "0" otherwise, and leaves the
-- database as it is. The receiver's database has a root, its mutex is free and no entry has two
-- childs of one name.
pub receive-cap_request :
    (db : Db) (libs : Text) (behind : Bytes) (now : ℕ)
    → Ready db
    → length libs < 4091
    → IsCString libs
    → receive_packet (cap_request libs ++ behind) now db
      ≡ done (cap_answer (known_libs db (named_libs libs))) db
unfolding receive_packet
receive-cap_request db libs behind now r h clean =
    let short : length libs < 65536 = omega (arith, h) in
    rw (buffer-append (cap_request libs) behind (omega (arith, length-cap_request libs short, h)))
      (cap-served db libs (room_behind (cap_request libs) behind) now r short clean)

-- A network on which another daemon, with the database `remote`, receives what is sent, in a buffer
-- that holds a 0 behind it.
abbrev pub reply_of : Outcome Reply → Exchange
reply_of (done (sends m) db) = received (m ++ 0 ∷ [])
reply_of _ = timeout

abbrev pub network : (remote : Db) (now : ℕ) (node : Text) → Bytes → Exchange
network remote now node m = reply_of (receive_packet (m ++ 0 ∷ []) now remote)

abbrev pub one_if : Bool → ℕ
one_if true = 1
one_if false = 0

answered :
    (node : Text) (garbage : ℤ) (db remote : Db) (b : Bool)
    → cap_response garbage node (reply_of (done (cap_answer b) remote)) db
      ≡ done (pos (one_if b)) db
answered node garbage db remote true =
    rw
      (
        packet_whole resp_wdata resp_succ (b'1' ∷ []),
        buffer-response resp_succ (b'1' ∷ []) (omega arith),
        unpack-pack_resp resp_succ (b'1' ∷ []) 0 [] (omega arith) ((λ e. omega arith), tt),
      )
      refl
answered node garbage db remote false =
    rw
      (
        packet_whole resp_wdata resp_succ (b'0' ∷ []),
        buffer-response resp_succ (b'0' ∷ []) (omega arith),
        unpack-pack_resp resp_succ (b'0' ∷ []) 0 [] (omega arith) ((λ e. omega arith), tt),
      )
      refl

-- Asking another daemon whether it can execute an application gives 1 if all libraries of the list
-- stand in its database and 0 otherwise, and changes nothing here. The list is a C string of at
-- most 4090 bytes, so that the packet fits the buffer of MAXLINE bytes. The receiver's database has a root, its mutex is free and no entry has two
-- childs of one name.
pub do_cap_request-known_libs :
    (db remote : Db) (garbage : ℤ) (node libs : Text) (now : ℕ)
    → Ready remote
    → length libs < 4091
    → IsCString libs
    → do_cap_request_for_node garbage (network remote now) node libs db
      ≡ done (pos (one_if (known_libs remote (named_libs libs)))) db
unfolding do_cap_request_for_node
do_cap_request-known_libs db remote garbage node libs now r h clean =
    rw (receive-cap_request remote libs (0 ∷ []) now r h clean)
      (answered node garbage db remote (known_libs remote (named_libs libs)))
