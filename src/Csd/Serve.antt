-- ===== src/Csd/Serve.antt =====
-- What a client gets from the daemon of src/csd/csd.c for the requests that src/csd/csp.c packs.
use dkmp.Base.{◌+◌, length-append, le16}
use dkmp.Base.{
  ℕ, ◌<◌, ◌≡◌, refl, sym, ap, ◌∙◌, true, none, some, List, [], ◌∷◌, ◌++◌, append_assoc, arith,
  length, take, take_all, Text, Bytes,
}
use dkmp.Csdb.Key.Names.{join_key}
use dkmp.Csdb.Store.{Db, done, deadlock, ◌>>=◌, ◌>>◌, pure, get_value_for_key, set_value_for_key}
use dkmp.Csdb.Values.{IsPath, Ready, content, get_value-answer, join_key-valid}
use dkmp.Csdb.Written.{set_value-IsWritten, IsWritten}
use dkmp.Csdb.Contract.{after_write_self, locked-deadlock}
use dkmp.Csp.{
  cs_set, cs_get, resp_succ, resp_err, resp_wdata, pack_dbreq_packet, pack_resp_packet,
  unpack_resp_packet,
}
use dkmp.Csp.Request.{Fits, dbreq_set, dbreq_get, unpack_set_lem, unpack_get_lem}
use dkmp.Csp.Response.{length-pack_resp, unpack-pack_resp}
use dkmp.Csd.{sends, packet, says, got, proceed_db_request, receive_from, receive_packet}
use dkmp.Csd.Buffer.{room_behind, buffer-append}

abbrev pub set_request : (ks : List Text) (v : Text) → Bytes
set_request ks v = (pack_dbreq_packet (some (join_key ks)) (some v) cs_set).1

abbrev pub get_request : (ks : List Text) → Bytes
get_request ks = (pack_dbreq_packet (some (join_key ks)) none cs_get).1

pub length-set_request :
    (ks : List Text) (v : Text)
    → Fits (join_key ks)
    → Fits v
    → length (set_request ks v) ≡ length (join_key ks) + length v + 8
unfolding le16
length-set_request ks v k f = rw (dbreq_set (join_key ks) v k f) (
    omega (
      arith,
      length-append (join_key ks) (le16 (length v) ++ (v ++ 0 ∷ [])),
      length-append v (0 ∷ []),
    ))

pub length-get_request :
    (ks : List Text) → Fits (join_key ks) → length (get_request ks) ≡ length (join_key ks) + 6
unfolding le16
length-get_request ks k =
    rw (dbreq_get (join_key ks) none cs_get k refl)
      (omega (arith, length-append (join_key ks) (0 ∷ [])))

set-served :
    (ks : List Text) (v : Text) (behind : Bytes) (now : ℕ) (db : Db)
    → IsPath ks
    → Fits (join_key ks)
    → Fits v
    → receive_from now (set_request ks v ++ behind) db
      ≡ (set_value_for_key (join_key ks) (some v) now >> pure (says resp_succ)) db
unfolding proceed_db_request
set-served ks [] behind now db p k f = absurd (omega (arith, f.filled))
set-served ks (c ∷ v) behind now db p k f = rw (dbreq_set (join_key ks) (c ∷ v) k f) (
    simp append_assoc
      (rw (unpack_set_lem (join_key ks) (c ∷ v) behind k f, join_key-valid ks p) refl))

pub receive-set :
    (ks : List Text) (v : Text) (behind : Bytes) (now : ℕ) (db : Db)
    → IsPath ks
    → Fits (join_key ks)
    → Fits v
    → length (join_key ks) + length v < 4087
    → receive_packet (set_request ks v ++ behind) now db
      ≡ (set_value_for_key (join_key ks) (some v) now >> pure (says resp_succ)) db
unfolding receive_packet
receive-set ks v behind now db p k f room =
    rw (buffer-append (set_request ks v) behind (omega (arith, length-set_request ks v k f, room)))
      (set-served ks v (room_behind (set_request ks v) behind) now db p k f)

get-served :
    (ks : List Text) (behind : Bytes) (now : ℕ) (db : Db)
    → IsPath ks
    → Fits (join_key ks)
    → receive_from now (get_request ks ++ behind) db
      ≡ (get_value_for_key (join_key ks) >>= λ found. pure (got found)) db
unfolding proceed_db_request
get-served ks behind now db p k = rw (dbreq_get (join_key ks) none cs_get k refl) (
    simp append_assoc
      (rw (unpack_get_lem (join_key ks) cs_get behind k refl, join_key-valid ks p) refl))

pub receive-get :
    (ks : List Text) (behind : Bytes) (now : ℕ) (db : Db)
    → IsPath ks
    → Fits (join_key ks)
    → length (join_key ks) < 4087
    → receive_packet (get_request ks ++ behind) now db
      ≡ (get_value_for_key (join_key ks) >>= λ found. pure (got found)) db
unfolding receive_packet
receive-get ks behind now db p k room =
    rw (buffer-append (get_request ks) behind (omega (arith, length-get_request ks k, room)))
      (get-served ks (room_behind (get_request ks) behind) now db p k)

pub packet_whole :
    (type err : ℕ) (t : Text)
    → packet (pack_resp_packet type err t) ≡ (pack_resp_packet type err t).1
packet_whole type err t =
    ap (λ n. take n (pack_resp_packet type err t).1) (sym (length-pack_resp type err t))
    ∙ take_all (pack_resp_packet type err t).1

-- Over the network: after a SET of a key to a value, a GET of that key is answered with a packet
-- that unpacks to that value, and the key is written and no other changed. The receiver's database
-- has a root, its mutex is free and no entry has two childs of one name; the parts of the key hold
-- no '.', its last part is not empty; key and value are C strings that are not empty, of at most
-- 4086 bytes together, so that the packets fit the buffers of MAXLINE bytes; whatever stands behind
-- the packets in the buffers does not matter.
pub receive_get-receive_set :
    (db : Db) (ks : List Text) (v : Text) (now : ℕ) (behind behind' : Bytes)
    → Ready db
    → IsPath ks
    → Fits (join_key ks)
    → Fits v
    → length (join_key ks) + length v < 4087
    → (db' : Db) × (answer_bytes : Bytes) × ((receive_packet (set_request ks v ++ behind) now
            >> receive_packet (get_request ks ++ behind') now)
          db
        ≡ done (sends answer_bytes) db')
      × IsWritten db ks (some v) db'
      × ((b : ℕ) (rest : Bytes)
          → unpack_resp_packet (answer_bytes ++ b ∷ rest) ≡ some (resp_wdata, resp_succ, some v))
receive_get-receive_set db ks v now behind behind' r p k f room =
    let (db', e, w) = set_value-IsWritten db ks (some v) now r p in
    (
      db',
      packet (pack_resp_packet resp_wdata resp_succ v),
      rw
          (
            receive-set ks v behind now db p k f room,
            e,
            receive-get ks behind' now db' p k (omega (arith, room)),
            get_value-answer db' ks w.ready p,
            w.holds ks,
            after_write_self ks v (content db ks),
          )
          refl,
      w,
      λ b rest.
          rw (packet_whole resp_wdata resp_succ v)
            (unpack-pack_resp resp_succ v b rest (omega (arith, room)) f.clean),
    )

-- A GET for a key that is not in the database is answered with an error, and the daemon then waits
-- for good on the next SET or GET. The database has a root, its mutex was free and no entry has two
-- childs of one name; the parts of the keys hold no '.', the last one not being empty; keys and
-- value are C strings of at least one byte, and the packets fit the buffer of MAXLINE bytes.
pub receive_get-stuck :
    (db : Db) (ks path : List Text) (v : Text) (now : ℕ) (behind behind' : Bytes)
    → Ready db
    → IsPath ks
    → IsPath path
    → Fits (join_key ks)
    → Fits (join_key path)
    → Fits v
    → length (join_key ks) < 4087
    → length (join_key path) + length v < 4087
    → content db ks ≡ none
    → (receive_packet (get_request ks ++ behind) now db
        ≡ done (says resp_err) (record db { locked = true }))
      × ((receive_packet (get_request ks ++ behind) now
              >> receive_packet (set_request path v ++ behind') now)
            db
          ≡ deadlock)
      × ((receive_packet (get_request ks ++ behind) now
              >> receive_packet (get_request path ++ behind') now)
            db
          ≡ deadlock)
receive_get-stuck db ks path v now behind behind' r p q k l f room room2 missing =
    let held : Db = record db { locked = true } in
    let d = locked-deadlock held path (some v) now refl q in
    let first : receive_packet (get_request ks ++ behind) now db ≡ done (says resp_err) held =
      receive-get ks behind now db p k room ∙ rw (get_value-answer db ks r p, missing) refl in
    (
      first,
      rw (first, receive-set path v behind' now held q l f room2, d.3) refl,
      rw (first, receive-get path behind' now held q l (omega (arith, room2)), d.2) refl,
    )
