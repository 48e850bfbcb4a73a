-- ===== src/Csd/Hello.antt =====
-- Hello packets: what one daemon sends with src/csd/csp.c is what another one stores with
-- `cs_proceed_hello` of src/csd/csd.c.
use dkmp.Base.{◌+◌, length-append}
use dkmp.Base.{
  ℕ, ◌≤◌, ◌≡◌, refl, ap, ◌∙◌, true, false, not, Option, none, some, List, [], ◌∷◌, ◌++◌, append-nil,
  append_assoc, arith, leb, length, Text, pos, Bytes, IsCString, split_at-append, c_string-append,
  str_eq, str_eq_refl,
}
use dkmp.Csdb.Key.{count_delims}
use dkmp.Csdb.Key.Names.{IsName, is_nil}
use dkmp.Csdb.Paths.{Content, after_write}
use dkmp.Csdb.Store.{Db, done}
use dkmp.Csdb.Values.{IsPath, Ready, content, exists, key_exist-content}
use dkmp.Csdb.Written.{set_value-IsWritten, IsWritten}
use dkmp.Csdb.Contract.{after_write_self}
use dkmp.Csp.{cs_hello, hello_field, pack_hello_packet}
use dkmp.Csc.{node_is_alive}
use dkmp.Csc.Names.{alive_name, loadavg1_name, loadavg5_name, loadavg15_name}
use dkmp.Csd.{nothing, read_field, store_load, proceed_hello, receive_from, receive_packet}
use dkmp.Csd.Buffer.{room_behind, buffer-append}

-- A text that a field of a hello packet can carry.
pub record Carried (t : Text) : Type 0 where
  pub short : length t ≤ 126
  pub clean : IsCString t

abbrev pub alive_path : Text → List Text
alive_path h = alive_name ∷ h ∷ []

abbrev pub alive_load : (h name : Text) → List Text
alive_load h name = alive_name ∷ h ∷ name ∷ []

read_field-hello_field :
    (t : Text) (rest : Bytes) → Carried t → read_field (hello_field t ++ rest) ≡ some (t, rest)
unfolding read_field hello_field
read_field-hello_field t rest k =
    let short : leb (length t) 126 ≡ true = ground (arith, k.short) in
    rw (short, split_at-append t rest, c_string-append t [] k.clean) refl

alive-IsPath : (h : Text) → IsName h → is_nil h ≡ false → IsPath (alive_path h)
alive-IsPath h k filled = record {
  all_names = ((unfold count_delims in refl), (k, tt));
  filled = ap not filled;
}

load1-IsPath : (h : Text) → IsName h → IsPath (alive_load h loadavg1_name)
unfolding count_delims
load1-IsPath h k = record { all_names = (refl, (k, (refl, tt))); filled = refl }

load5-IsPath : (h : Text) → IsName h → IsPath (alive_load h loadavg5_name)
unfolding count_delims
load5-IsPath h k = record { all_names = (refl, (k, (refl, tt))); filled = refl }

load15-IsPath : (h : Text) → IsName h → IsPath (alive_load h loadavg15_name)
unfolding count_delims
load15-IsPath h k = record { all_names = (refl, (k, (refl, tt))); filled = refl }

-- A write of another load of the same node.
after_write_load :
    (h name other : Text) (v : Option Text) (old : Content)
    → str_eq other name ≡ false
    → after_write (alive_load h name) (alive_load h other) v old ≡ old
unfolding after_write
after_write_load h name other v old ne = rw (str_eq_refl alive_name, str_eq_refl h, ne) refl

exists-after_write :
    (h name : Text) (v : Option Text) (old : Content)
    → exists (after_write (alive_path h) (alive_load h name) v old) ≡ true
unfolding after_write
exists-after_write h name v none = rw (str_eq_refl alive_name, str_eq_refl h) refl
exists-after_write h name v (some r) = rw (str_eq_refl alive_name, str_eq_refl h) refl

-- What one field does to the database.
store_load-IsWritten :
    (db : Db) (h name t : Text) (now : ℕ)
    → Ready db
    → IsPath (alive_load h name)
    → (db' : Db) × (store_load h name t now db ≡ done (pos 0) db')
      × IsWritten db (alive_load h name) (some t) db'
unfolding store_load
store_load-IsWritten db h name t now r p =
    rw append-nil at (set_value-IsWritten db (alive_load h name) (some t) now r p)

differ1 : str_eq loadavg15_name loadavg1_name ≡ false
unfolding str_eq
differ1 = refl

differ2 : str_eq loadavg5_name loadavg1_name ≡ false
unfolding str_eq
differ2 = refl

differ3 : str_eq loadavg15_name loadavg5_name ≡ false
unfolding str_eq
differ3 = refl

-- The fields of a hello packet behind its header.
abbrev pub fields : (h a b c : Text) → Bytes
fields h a b c = hello_field h ++ (hello_field a ++ (hello_field b ++ hello_field c))

pub length-fields :
    (h a b c : Text) → length (fields h a b c) ≡ length h + length a + length b + length c + 4
unfolding hello_field
length-fields h a b c = omega (
  arith,
  length-append (hello_field h) (hello_field a ++ (hello_field b ++ hello_field c)),
  length-append (hello_field a) (hello_field b ++ hello_field c),
  length-append (hello_field b) (hello_field c),
)

fields-served :
    (db : Db) (h a b c : Text) (behind : Bytes) (now : ℕ)
    → Ready db
    → IsName h
    → is_nil h ≡ false
    → Carried h
    → Carried a
    → Carried b
    → Carried c
    → (db' : Db) × (receive_from now (1 ∷ cs_hello ∷ (fields h a b c ++ behind)) db
        ≡ done nothing db')
      × Ready db'
      × (content db' (alive_load h loadavg1_name) ≡ some (some a, true))
      × (content db' (alive_load h loadavg5_name) ≡ some (some b, true))
      × (content db' (alive_load h loadavg15_name) ≡ some (some c, true))
      × (node_is_alive h db' ≡ done true db')
unfolding proceed_hello node_is_alive
fields-served db h a b c behind now r name filled kh ka kb kc =
    let (db1, e1, w1) = store_load-IsWritten db h loadavg1_name a now r (load1-IsPath h name) in
    let (db2, e2, w2) =
      store_load-IsWritten db1 h loadavg5_name b now w1.ready (load5-IsPath h name) in
    let (db3, e3, w3) =
      store_load-IsWritten db2 h loadavg15_name c now w2.ready (load15-IsPath h name) in
    let alive =
      rw append-nil at (key_exist-content db (alive_path h) r (alive-IsPath h name filled)) in
    let alive' =
      rw append-nil at
        (key_exist-content db3 (alive_path h) w3.ready (alive-IsPath h name filled)) in
    let p1 = alive_load h loadavg1_name in
    let p5 = alive_load h loadavg5_name in
    let p15 = alive_load h loadavg15_name in
    (
      db3,
      simp append_assoc (
          rw
            (
              read_field-hello_field h
                  (hello_field a ++ (hello_field b ++ (hello_field c ++ behind))) kh,
              alive,
              read_field-hello_field a (hello_field b ++ (hello_field c ++ behind)) ka,
              e1,
              read_field-hello_field b (hello_field c ++ behind) kb,
              e2,
              read_field-hello_field c behind kc,
              e3,
            )
            refl),
      w3.ready,
      w3.holds p1
          ∙ after_write_load h loadavg1_name loadavg15_name (some c) (content db2 p1) differ1
          ∙ w2.holds p1
          ∙ after_write_load h loadavg1_name loadavg5_name (some b) (content db1 p1) differ2
          ∙ w1.holds p1
          ∙ after_write_self p1 a (content db p1),
      w3.holds p5
          ∙ after_write_load h loadavg5_name loadavg15_name (some c) (content db2 p5) differ3
          ∙ w2.holds p5
          ∙ after_write_self p5 b (content db1 p5),
      w3.holds p15 ∙ after_write_self p15 c (content db2 p15),
      rw
          (
            alive',
            w3.holds (alive_path h),
            exists-after_write h loadavg15_name (some c) (content db2 (alive_path h)),
          )
          refl,
    )

pub receive-fields :
    (db : Db) (h a b c : Text) (behind : Bytes) (now : ℕ)
    → Ready db
    → IsName h
    → is_nil h ≡ false
    → Carried h
    → Carried a
    → Carried b
    → Carried c
    → (db' : Db) × (receive_packet (1 ∷ cs_hello ∷ (fields h a b c ++ behind)) now db
        ≡ done nothing db')
      × Ready db'
      × (content db' (alive_load h loadavg1_name) ≡ some (some a, true))
      × (content db' (alive_load h loadavg5_name) ≡ some (some b, true))
      × (content db' (alive_load h loadavg15_name) ≡ some (some c, true))
      × (node_is_alive h db' ≡ done true db')
unfolding receive_packet
receive-fields db h a b c behind now r name filled kh ka kb kc =
    let p : Bytes = 1 ∷ cs_hello ∷ fields h a b c in
    rw
      (buffer-append p behind
        (omega (arith, length-fields h a b c, kh.short, ka.short, kb.short, kc.short)))
      (fields-served db h a b c (room_behind p behind) now r name filled kh ka kb kc)

-- A hello packet makes the sender alive at the receiver, with the three loads of the sender,
-- whatever stands behind the packet. The receiver's database has a root, its mutex is free and no
-- entry has two childs of one name. The node's name is not empty and has no '.'; name and loads are
-- C strings of at most 126 bytes.
pub receive-pack_hello :
    (db : Db) (h a b c : Text) (behind : Bytes) (now : ℕ)
    → Ready db
    → IsName h
    → is_nil h ≡ false
    → Carried h
    → Carried a
    → Carried b
    → Carried c
    → (db' : Db) × (receive_packet
          ((pack_hello_packet h (some a) (some b) (some c)).1 ++ behind)
          now
          db
        ≡ done nothing db')
      × Ready db'
      × (content db' (alive_load h loadavg1_name) ≡ some (some a, true))
      × (content db' (alive_load h loadavg5_name) ≡ some (some b, true))
      × (content db' (alive_load h loadavg15_name) ≡ some (some c, true))
      × (node_is_alive h db' ≡ done true db')
unfolding pack_hello_packet
receive-pack_hello db h a b c behind now r name filled kh ka kb kc =
    simp append_assoc
      (simp append_assoc at (receive-fields db h a b c (0 ∷ behind) now r name filled kh ka kb kc))
