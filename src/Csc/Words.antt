-- ===== src/Csc/Words.antt =====
-- The words that src/csd/csc.c keeps in one value, with a space between them, and `strtok` on them.
use dkmp.Base.{
  ℕ, ◌≡◌, refl, ◌∙◌, Bool, true, false, none, some, List, [], ◌∷◌, ◌++◌, append-nil, append_assoc,
  arith, ◌==◌, Text, pos, str_eq_refl,
}
use dkmp.Csdb.Key.{count_delims}
use dkmp.Csdb.Key.Names.{IsName, is_nil, join_key}
use dkmp.Csdb.Store.{Db, done}
use dkmp.Csdb.Values.{IsPath, Ready, content, key_exist-content}
use dkmp.Csdb.Written.{set_value-IsWritten}
use dkmp.Csdb.Contract.{after_write_self}
use dkmp.Csdb.Appending.{same_path, append_value-IsExtended}
use dkmp.Csc.{space, add_token, next_char, cut, strtok, is_space, add_word, add_words}

-- Without a delimiter, and not empty either.
abbrev pub Clean : (ℕ → Bool) → Text → Type 0
Clean d [] = Unit
Clean d (c ∷ t) = (d c ≡ false) × Clean d t

pub Clean-append : (d : ℕ → Bool) (a b : Text) → Clean d a → Clean d b → Clean d (a ++ b)
Clean-append d [] b h k = k
Clean-append d (c ∷ a) b h k = (h.0, Clean-append d a b h.1 k)

abbrev pub AllTokens : (ℕ → Bool) → List Text → Type 0
AllTokens d [] = Unit
AllTokens d (t ∷ ts) = (is_nil t ≡ false) × Clean d t × AllTokens d ts

-- What `strtok` returns has no delimiter in it, and no part of a key ends in it where none ends in
-- the text.
abbrev pub AllFilled : List Text → Type 0
AllFilled [] = Unit
AllFilled (t ∷ ts) = (is_nil t ≡ false) × IsName t × AllFilled ts

add_token-AllFilled :
    (t : Text) (ts : List Text) → IsName t → AllFilled ts → AllFilled (add_token t ts)
add_token-AllFilled [] ts h k = k
add_token-AllFilled (c ∷ t) ts h k = (refl, h, k)

next_char-IsName :
    (b : Bool) (c : ℕ) (r : Text × List Text)
    → (c == b'.') ≡ false
    → IsName r.0
    → AllFilled r.1
    → IsName (next_char b c r).0 × AllFilled (next_char b c r).1
unfolding count_delims
next_char-IsName true c (t, ts) e h k = (refl, add_token-AllFilled t ts h k)
next_char-IsName false c (t, ts) e h k = (rw (e, h) refl, k)

IsName-head : (c : ℕ) (t : Text) → IsName (c ∷ t) → ((c == b'.') ≡ false) × IsName t
unfolding count_delims
IsName-head c t h = (ground arith, ground arith)

cut-IsName : (d : ℕ → Bool) (t : Text) → IsName t → IsName (cut d t).0 × AllFilled (cut d t).1
unfolding cut
cut-IsName d [] h = (h, tt)
cut-IsName d (c ∷ t) h =
    let (dot, rest) = IsName-head c t h in
    let (a, b) = cut-IsName d t rest in next_char-IsName (d c) c (cut d t) dot a b

pub strtok-AllFilled : (d : ℕ → Bool) (t : Text) → IsName t → AllFilled (strtok d t)
unfolding strtok
strtok-AllFilled d t h =
    let (a, b) = cut-IsName d t h in add_token-AllFilled (cut d t).0 (cut d t).1 a b

-- Words with a space before each of them.
unfoldable pub behind_spaces : List Text → Text
behind_spaces [] = []
behind_spaces (w ∷ ws) = b' ' ∷ (w ++ behind_spaces ws)

pub cut-append :
    (d : ℕ → Bool) (t rest : Text)
    → Clean d t
    → cut d (t ++ rest) ≡ (t ++ (cut d rest).0, (cut d rest).1)
unfolding cut
cut-append d [] rest h = refl
cut-append d (c ∷ t) rest h = rw (h.0, cut-append d t rest h.1) refl

pub add_token-filled : (t : Text) (ts : List Text) → is_nil t ≡ false → add_token t ts ≡ t ∷ ts
add_token-filled [] ts h = cc
add_token-filled (c ∷ t) ts h = refl

cut-behind_spaces :
    (ws : List Text) → AllTokens is_space ws → cut is_space (behind_spaces ws) ≡ ([], ws)
unfolding cut behind_spaces
cut-behind_spaces [] h = refl
cut-behind_spaces (w ∷ ws) h =
    rw
      (
        cut-append is_space w (behind_spaces ws) h.1,
        cut-behind_spaces ws h.2,
        append-nil w,
        add_token-filled w ws h.0,
      )
      refl

-- The words that were joined are the words that `strtok` finds.
pub strtok-joined :
    (w : Text) (ws : List Text)
    → AllTokens is_space (w ∷ ws)
    → strtok is_space (w ++ behind_spaces ws) ≡ w ∷ ws
unfolding strtok
strtok-joined w ws h =
    rw
      (
        cut-append is_space w (behind_spaces ws) h.1,
        cut-behind_spaces ws h.2,
        append-nil w,
        add_token-filled w ws h.0,
      )
      refl

pub same_path_refl : (ks : List Text) → same_path ks ks ≡ true
unfolding same_path
same_path_refl [] = refl
same_path_refl (k ∷ ks) = rw (str_eq_refl k, same_path_refl ks) refl

-- A key that holds words, in a database that nobody holds.
pub record Holds (db : Db) (ks : List Text) (v : Text) : Type 0 where
  pub ready : Ready db
  pub here : content db ks ≡ some (some v, true)

pub add_word-Holds :
    (db : Db) (ks : List Text) (v w : Text) (now : ℕ)
    → Holds db ks v
    → IsPath ks
    → (db' : Db) × (add_word (join_key ks) w now db ≡ done (pos 0) db')
      × Holds db' ks (v ++ b' ' ∷ w)
unfolding add_word
add_word-Holds db ks v w now h p =
    let (db', e, x) = append_value-IsExtended db ks w (some space) now h.ready p (rw h.here refl) in
    (
      db',
      rw (key_exist-content db ks h.ready p, h.here, e) refl,
      record { ready = x.ready; here = x.holds ks ∙ rw (same_path_refl ks, h.here) refl },
    )

add_words-Holds :
    (db : Db) (ks : List Text) (v : Text) (ws : List Text) (now : ℕ)
    → Holds db ks v
    → IsPath ks
    → (db' : Db) × (add_words (join_key ks) ws now db ≡ done tt db')
      × Holds db' ks (v ++ behind_spaces ws)
unfolding add_words behind_spaces
add_words-Holds db ks v [] now h p = (db, refl, rw (append-nil v) h)
add_words-Holds db ks v (w ∷ ws) now h p =
    let (db1, e1, h1) = add_word-Holds db ks v w now h p in
    let (db2, e2, h2) = add_words-Holds db1 ks (v ++ b' ' ∷ w) ws now h1 p in
    (db2, rw (e1, e2) refl, rw append_assoc at h2)

-- Words that go to a key which is not there are all found in its value, in their order.
pub add_words_fresh :
    (db : Db) (ks : List Text) (w : Text) (ws : List Text) (now : ℕ)
    → Ready db
    → IsPath ks
    → content db ks ≡ none
    → (db' : Db) × (add_words (join_key ks) (w ∷ ws) now db ≡ done tt db')
      × Holds db' ks (w ++ behind_spaces ws)
unfolding add_words add_word
add_words_fresh db ks w ws now r p missing =
    let (db1, e1, x) = set_value-IsWritten db ks (some w) now r p in
    let h1 : Holds db1 ks w = record {
      ready = x.ready;
      here = x.holds ks ∙ after_write_self ks w (content db ks);
    } in
    let (db2, e2, h2) = add_words-Holds db1 ks w ws now h1 p in
    (db2, rw (key_exist-content db ks r p, missing, e1, e2) refl, h2)
