-- ===== src/Csm/Turns.antt =====
-- Single commands of src/csm/csm.c, with the daemon of src/csd/csd.c at the other end.
use dkmp.Base.{
  ℕ, ◌+◌, ◌≤◌, ◌<◌, arith, leb, take, ◌≡◌, refl, sym, ap, ◌∙◌, true, false, Option, none, some,
  List, [], ◌∷◌, ◌++◌, length, Text, str_eq, Bytes,
}
use dkmp.Base.Scan.{IsWord}
use dkmp.Base.Fields.{
  is_nil, IsTyped, read_words-append, read_words-last, third-append, third-last, filled-typed,
}
use dkmp.Csdb.Key.Names.{join_key}
use dkmp.Csdb.Store.{Db, Outcome, done}
use dkmp.Csdb.Values.{IsPath, Ready, content, get_value-answer}
use dkmp.Csdb.Written.{set_value-IsWritten, IsWritten}
use dkmp.Csp.{
  cs_set, cs_get, resp_wdata, resp_ndata, resp_succ, pack_resp_packet, unpack_resp_packet,
}
use dkmp.Csp.Request.{Fits, dbreq_get}
use dkmp.Csp.Response.{unpack-pack_resp}
use dkmp.Csd.{Reply, sends, packet, buffer, receive_packet}
use dkmp.Csd.Buffer.{buffer-response}
use dkmp.Csc.{is_newline}
use dkmp.Csc.Words.{Clean}
use dkmp.Csd.Serve.{
  set_request, get_request, length-set_request, length-get_request, receive-set, receive-get,
  packet_whole,
}
use dkmp.Csm.{
  Client, shows, data_of, set_word, get_word, read_command, command, old_data, print_data,
  in_buffer, packet_for, recvline, turn,
}

-- The daemon as the client meets it: each packet is served with the database that the last one left.
-- A packet that no branch has made is none.
abbrev pub reply_in : Db → Outcome Reply → Option Bytes × Db
reply_in db (done (sends m) db') = (some m, db')
reply_in db (done _ db') = (none, db')
reply_in db _ = (none, db)

abbrev pub daemon : (now : ℕ) → Bytes → Db → Option Bytes × Db
daemon now m db = reply_in db (receive_packet (m ++ 0 ∷ []) now db)

abbrev pub set_line : (key value : Text) → Text
set_line key value = set_word ++ b' ' ∷ (key ++ b' ' ∷ value)

abbrev pub get_line : (key : Text) → Text
get_line key = get_word ++ b' ' ∷ key

read_set :
    (key value : Text) (c : Client)
    → IsWord key
    → is_nil key ≡ false
    → IsTyped value
    → read_command (set_line key value) c
      ≡ record c { type = some set_word; key = some key; value = some value }
unfolding read_command
read_set key value c w f t =
    rw
      (
        read_words-append set_word key value c.type c.key refl (refl, (refl, (refl, tt))) f w,
        third-append set_word key value refl (refl, (refl, (refl, tt))) f w t,
        filled-typed value t,
      )
      refl

read_get :
    (key : Text) (c : Client)
    → IsWord key
    → is_nil key ≡ false
    → read_command (get_line key) c ≡ record c { type = some get_word; key = some key }
unfolding read_command
read_get key c w f =
    rw
      (
        read_words-last get_word key c.type c.key refl (refl, (refl, (refl, tt))) f w,
        third-last get_word key refl (refl, (refl, (refl, tt))) f w,
      )
      refl

in_buffer-some : (m : Bytes) → length m ≤ 4096 → in_buffer m ≡ some m
in_buffer-some m h = let fits : leb (length m) 4096 ≡ true = ground arith in rw fits refl

get_packet :
    (ks : List Text) (v : Text)
    → Fits (join_key ks)
    → length (join_key ks) < 4087
    → packet_for cs_get (join_key ks) (some v) ≡ some (get_request ks)
unfolding packet_for
get_packet ks v k h =
    ap in_buffer (
      dbreq_get (join_key ks) (some v) cs_get k refl
      ∙ sym (dbreq_get (join_key ks) none cs_get k refl))
    ∙ in_buffer-some (get_request ks) (omega (arith, length-get_request ks k, h))

set_packet :
    (ks : List Text) (v : Text)
    → Fits (join_key ks)
    → Fits v
    → length (join_key ks) + length v < 4087
    → packet_for cs_set (join_key ks) (some v) ≡ some (set_request ks v)
unfolding packet_for
set_packet ks v k f h =
    in_buffer-some (set_request ks v) (omega (arith, length-set_request ks v k f, h))

unpack_says :
    unpack_resp_packet (recvline (packet (pack_resp_packet resp_ndata resp_succ [])))
    ≡ some (resp_ndata, resp_succ, none)
unfolding unpack_resp_packet pack_resp_packet recvline
unpack_says = refl

recvline-response :
    (v : Text)
    → length v < 4091
    → recvline (packet (pack_resp_packet resp_wdata resp_succ v))
      ≡ (pack_resp_packet resp_wdata resp_succ v).1 ++ 0 ∷ []
unfolding recvline buffer
recvline-response v h =
    ap (λ m. take 4096 (m ++ 0 ∷ [])) (packet_whole resp_wdata resp_succ v)
    ∙ buffer-response resp_succ v h

path-filled : (ks : List Text) → IsPath ks → is_nil (join_key ks) ≡ false
path-filled [] p = cc p.filled
path-filled (k ∷ ks) p = refl

-- A key as it can be typed.
pub record IsTypedKey (ks : List Text) : Type 0 where
  pub path : IsPath ks
  pub fits : Fits (join_key ks)
  pub one_word : IsWord (join_key ks)

-- A value as it can be typed and sent.
pub record IsTypedValue (v : Text) : Type 0 where
  pub typed : IsTyped v
  pub fits : Fits v
  pub one_line : Clean is_newline v

pub turn_set :
    (db : Db) (c : Client) (ks : List Text) (v : Text) (now : ℕ)
    → Ready db
    → IsTypedKey ks
    → IsTypedValue v
    → length (join_key ks) + length v < 4087
    → (db' : Db) × (turn (daemon now) (set_line (join_key ks) v) c db
        ≡ print_data
            (record c { type = some set_word; key = some (join_key ks); value = some v })
            db'
            (old_data c.has_data))
      × IsWritten db ks (some v) db'
unfolding turn command str_eq
turn_set db c ks v now r k t room =
    let (db', e, w) = set_value-IsWritten db ks (some v) now r k.path in
    (
      db',
      rw
          (
            read_set (join_key ks) v c k.one_word (path-filled ks k.path) t.typed,
            set_packet ks v k.fits t.fits room,
            receive-set ks v (0 ∷ []) now db k.path k.fits t.fits room,
            e,
            unpack_says,
          )
          refl,
      w,
    )

pub turn_get :
    (db : Db) (c : Client) (ks : List Text) (v : Text) (now : ℕ)
    → Ready db
    → IsTypedKey ks
    → IsTypedValue v
    → length (join_key ks) + length v < 4087
    → c.value ≡ some v
    → content db ks ≡ some (some v, true)
    → turn (daemon now) (get_line (join_key ks)) c db
      ≡ shows
          (data_of v)
          (record c { type = some get_word; key = some (join_key ks); has_data = true })
          db
unfolding turn command str_eq
turn_get db c ks v now r k t room held here =
    rw
      (
        read_get (join_key ks) c k.one_word (path-filled ks k.path),
        held,
        get_packet ks v k.fits (omega (arith, room)),
        receive-get ks (0 ∷ []) now db k.path k.fits (omega (arith, room)),
        get_value-answer db ks r k.path,
        here,
        recvline-response v (omega (arith, room)),
        unpack-pack_resp resp_succ v 0 [] (omega (arith, room)) t.fits.clean,
      )
      refl
