-- ===== src/Csm/Session.antt =====
-- A session of src/csm/csm.c with the daemon of src/csd/csd.c at the other end.
use dkmp.Base.{
  ℕ, ◌≡◌, refl, ap, ◌∙◌, Bool, true, false, some, List, [], ◌∷◌, ◌++◌, Text, arith, ◌+◌, ◌<◌,
  length, length-append,
}
use dkmp.Csdb.Key.Names.{join_key}
use dkmp.Csdb.Store.{Db}
use dkmp.Csdb.Values.{Ready, content}
use dkmp.Csdb.Written.{IsWritten}
use dkmp.Csdb.Contract.{after_write_self}
use dkmp.Csm.{
  Client, Terminal, line_of, over, breaks, data_of, set_word, go_on, old_data, print_data,
  fgets_all, ends_line, rounds, csd_cli,
}
use dkmp.Csm.Typed.{fgets_all-line, fgets_all_nil, cut_line-newline, text-Clean, word-Clean}
use dkmp.Csc.Words.{Clean, Clean-append}
use dkmp.Csm.Turns.{daemon, set_line, get_line, IsTypedKey, IsTypedValue, turn_set, turn_get}

-- What a SET of a value and a GET after it show.
abbrev pub set_get_shown : (has_data : Bool) → (value : Text) → Db → Terminal Db
set_get_shown true v db = line_of (data_of []) (line_of (data_of v) (over db))
set_get_shown false v db = breaks

shown_lem :
    (now : ℕ) (b : Bool) (v : Text) (c : Client) (db : Db) (next : Client → Db → Terminal Db)
    → next c db ≡ line_of (data_of v) (over db)
    → go_on (daemon now) (print_data c db (old_data b)) next ≡ set_get_shown b v db
shown_lem now true v c db next h = ap (line_of (data_of [])) h
shown_lem now false v c db next h = refl

-- The two lines, with their newlines.
abbrev pub set_get_typed : (ks : List Text) (v : Text) → Text
set_get_typed ks v = set_line (join_key ks) v ++ b'\n' ∷ (get_line (join_key ks) ++ b'\n' ∷ [])

set_line-Clean :
    (ks : List Text) (v : Text)
    → IsTypedKey ks
    → IsTypedValue v
    → Clean ends_line (set_line (join_key ks) v)
set_line-Clean ks v k t =
    let value = text-Clean v t.fits.clean t.one_line in
    let key = word-Clean (join_key ks) k.fits.clean k.one_word in
    let behind = Clean-append ends_line (join_key ks) (b' ' ∷ v) key (refl, value) in
    (refl, (refl, (refl, (refl, behind))))

get_line-Clean : (ks : List Text) → IsTypedKey ks → Clean ends_line (get_line (join_key ks))
get_line-Clean ks k =
    (refl, (refl, (refl, (refl, word-Clean (join_key ks) k.fits.clean k.one_word))))

typed-lines :
    (ks : List Text) (v : Text)
    → IsTypedKey ks
    → IsTypedValue v
    → length (join_key ks) + length v < 4087
    → fgets_all (set_get_typed ks v)
      ≡ (set_line (join_key ks) v ++ b'\n' ∷ []) ∷ (get_line (join_key ks) ++ b'\n' ∷ []) ∷ []
typed-lines ks v k t room =
    let set = set_line (join_key ks) v in
    let get = get_line (join_key ks) in
    let set_short : length set < 4095 =
      omega (arith, length-append (join_key ks) (b' ' ∷ v), room) in
    let get_short : length get < 4095 = omega (arith, room) in
    fgets_all-line set (get ++ b'\n' ∷ []) (set_line-Clean ks v k t) set_short
    ∙ ap (◌∷◌ (set ++ b'\n' ∷ [])) (
        fgets_all-line get [] (get_line-Clean ks k) get_short
        ∙ ap (◌∷◌ (get ++ b'\n' ∷ [])) fgets_all_nil)

-- A user who types a line that sets a key and then one that gets it sees the value, below the empty
-- line that the answer to the SET shows, if the client has shown a response with data before; in a
-- client that no data came to yet, the SET is carried out as well, and then the client prints through a
-- pointer that was never set. The key is written in the daemon's database and no other is changed.
-- That database has a root, its mutex is free and no entry has two childs of one name; the key's
-- parts hold no '.' and the last one is not empty; key and value are C strings that are not empty, of
-- at most 4086 bytes together, so that the lines and the packets fit the buffers of MAXLINE bytes;
-- the key holds no blank, and the value no newline and does not begin with a blank.
pub csd_cli-set_get :
    (db : Db) (c : Client) (ks : List Text) (v : Text) (now : ℕ)
    → Ready db
    → IsTypedKey ks
    → IsTypedValue v
    → length (join_key ks) + length v < 4087
    → (db' : Db) × IsWritten db ks (some v) db'
      × (csd_cli (daemon now) (set_get_typed ks v) c db ≡ set_get_shown c.has_data v db')
unfolding csd_cli rounds
csd_cli-set_get db c ks v now r k t room =
    let (db', e, w) = turn_set db c ks v now r k t room in
    let c1 : Client = record c { type = some set_word; key = some (join_key ks); value = some v } in
    let get = get_line (join_key ks) ++ b'\n' ∷ [] in
    let got_it =
      turn_get db' c1 ks v now w.ready k t room refl
        (w.holds ks ∙ after_write_self ks v (content db ks)) in
    let second : rounds (daemon now) (get ∷ []) c1 db' ≡ line_of (data_of v) (over db') =
      rw (cut_line-newline (get_line (join_key ks)) (get_line-Clean ks k), got_it) refl in
    (
      db',
      w,
      rw
          (
            typed-lines ks v k t room,
            cut_line-newline (set_line (join_key ks) v) (set_line-Clean ks v k t),
            e,
          )
          (shown_lem now c.has_data v c1 db' (rounds (daemon now) (get ∷ [])) second),
    )
