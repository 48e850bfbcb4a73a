-- ===== src/Csdb/Store.antt =====
-- The operations of src/csd/csdb.c on the whole database, with its mutex.
use dkmp.Base.{
  ℕ, Bool, true, false, not, Option, none, some, List, [], ◌∷◌, ◌++◌, if◌then◌else◌, length, Text,
  reverse, str_eq, ℤ, pos, negsuc,
}
use dkmp.Csdb.Key.{is_valid_key, Parsed, no_keys, parts, endless, parse_key}
use dkmp.Csdb.Entry.{
  Csdbe, null, node, is_null, childs_of, dot, set_value, create_entry, set_path, update_path,
  remove_path, walk, names_of, spaced, dump_from_entry,
}

-- `csdb_root`, and whether `csdb_root_mutex` is held.
pub record Db : Type 0 where
  pub root : Csdbe
  pub locked : Bool

-- How a call ends: it returns; it waits for the mutex that its own process holds for good; it loops
-- for good; or it reads through a NULL pointer.
pub data Outcome (A : Type 0) : Type 0 where
  done : A → Db → Outcome A
  deadlock : Outcome A
  diverges : Outcome A
  crashes : Outcome A

abbrev pub Op : Type 0 → Type 0
Op A = Db → Outcome A

abbrev pub and_then : {A B : Type 0} → Outcome A → (A → Op B) → Outcome B
and_then (done a db) f = f a db
and_then deadlock f = deadlock
and_then diverges f = diverges
and_then crashes f = crashes

infixl 5 ◌>>=◌ ◌>>◌
abbrev pub ◌>>=◌ : {A B : Type 0} → Op A → (A → Op B) → Op B
◌>>=◌ m f db = and_then (m db) f

abbrev pub ◌>>◌ : {A B : Type 0} → Op A → Op B → Op B
m >> k = m >>= λ _. k

abbrev pub pure : {A : Type 0} → A → Op A
pure a db = done a db

-- `pthread_mutex_lock` and `pthread_mutex_unlock` on the default, not recursive, mutex.
unfoldable pub lock : Op (Unit {0})
lock db = if db.locked then deadlock else done tt (record db { locked = true })

unfoldable pub unlock : Op (Unit {0})
unlock db = done tt (record db { locked = false })

unfoldable pub update_root : (Csdbe → Csdbe) → Op (Unit {0})
update_root f db = done tt (record db { root = f db.root })

-- With no parts the walk reads through the NULL pointer, unless there is no root either.
unfoldable pub get_entry_parsed : Parsed → Op Csdbe
get_entry_parsed no_keys db = if is_null db.root then done null db else crashes
get_entry_parsed endless db = diverges
get_entry_parsed (parts ks) db = done (walk db.root db.root ks) db

unfoldable pub get_entry : Text → Op Csdbe
unfolding get_entry_parsed
get_entry key = get_entry_parsed (parse_key key)

abbrev mtime_of : Csdbe → ℕ
mtime_of null = 0
mtime_of (node _ _ _ t _ _) = t

unfoldable pub get_mtime_for_key : Text → Op ℕ
unfolding lock unlock
get_mtime_for_key key = do lock; entry ← get_entry key; unlock; pure (mtime_of entry)

unfoldable pub key_exist : Text → Op Bool
unfolding lock unlock
key_exist key = do lock; entry ← get_entry key; unlock; pure (not (is_null entry))

-- The status, and what is stored through `val`. Only the last branch gives the mutex back.
unfoldable pub value_of_entry : Csdbe → Op (ℤ × Option Text)
unfolding unlock
value_of_entry null = pure (negsuc 4, none)
value_of_entry (node n v false t c x) = pure (negsuc 3, none)
value_of_entry (node n none true t c x) = λ _. crashes
value_of_entry (node n (some v) true t c x) = do unlock; pure (pos 0, some v)

unfoldable pub get_value_for_key : Text → Op (ℤ × Option Text)
unfolding lock value_of_entry
get_value_for_key key =
    if not (is_valid_key key)
    then pure (negsuc 4, none)
    else do lock; entry ← get_entry key; value_of_entry entry

-- The loop of `csdb_set_value_for_key` from the root. The root key is the single name ".", which
-- `csdb_find_child` takes for the root itself; no other key has that part.
unfoldable pub set_root : List Text → Option Text → (now : ℕ) → Csdbe → Csdbe
unfolding set_value set_path
set_root [] v now root = root
set_root (n ∷ []) v now root =
    if str_eq n dot then set_value v now root else set_path (n ∷ []) v now root
set_root (n ∷ m ∷ ms) v now root = set_path (n ∷ m ∷ ms) v now root

unfoldable pub set_parsed : Parsed → Option Text → (now : ℕ) → Op ℤ
unfolding lock unlock
set_parsed no_keys v now = pure (negsuc 0)
set_parsed endless v now = λ _. diverges
set_parsed (parts ks) v now = do
  lock
  (λ db.
      if is_null db.root then crashes else done tt (record db { root = set_root ks v now db.root }))
  unlock
  pure (pos 0)

unfoldable pub set_value_for_key : Text → Option Text → (now : ℕ) → Op ℤ
set_value_for_key key = set_parsed (parse_key key)

unfoldable pub remove_parsed : Parsed → Csdbe → Op (Unit {0})
remove_parsed (parts ks) (node _ _ _ _ _ _) db =
    done tt (record db { root = remove_path ks db.root })
remove_parsed _ _ db = done tt db

unfoldable pub remove_from_key : Text → Op ℤ
unfolding lock unlock
remove_from_key key = if str_eq key dot then pure (negsuc 0) else do
  lock
  entry ← get_entry key
  if is_null entry
      then (do unlock; pure (negsuc 0))
      else do remove_parsed (parse_key key) entry; unlock; pure (pos 0)

-- The value behind what the entry holds; `btwn` comes between them.
abbrev pub appended : (value : Text) → (btwn : Option Text) → Text → Text
appended value none v = v ++ value
appended value (some b) v = v ++ (b ++ value)

unfoldable pub append_value : Text → Option Text → (now : ℕ) → Csdbe → Csdbe
unfolding set_value
append_value value btwn now null = null
append_value value btwn now (node n none l t c x) = set_value (some value) now (node n none l t c x)
append_value value btwn now (node n (some v) l t c x) =
    node n (some (appended value btwn v)) l t c x

unfoldable pub update_root_path : List Text → (Csdbe → Csdbe) → Csdbe → Csdbe
unfolding update_path
update_root_path [] f root = root
update_root_path (n ∷ []) f root = if str_eq n dot then f root else update_path (n ∷ []) f root
update_root_path (n ∷ m ∷ ms) f root = update_path (n ∷ m ∷ ms) f root

unfoldable pub update_parsed : Parsed → (Csdbe → Csdbe) → Op (Unit {0})
update_parsed (parts ks) f db = done tt (record db { root = update_root_path ks f db.root })
update_parsed _ f db = done tt db

abbrev pub is_leaf_of : Csdbe → Bool
is_leaf_of null = false
is_leaf_of (node _ _ l _ _ _) = l

-- What follows the search: only a leaf takes the value, and `realloc` is taken to succeed.
unfoldable pub append_to_entry :
    Text → Csdbe → Option Text → (btwn : Option Text) → (now : ℕ) → Op ℤ
unfolding unlock
append_to_entry key entry none btwn now = do unlock; pure (negsuc 0)
append_to_entry key entry (some value) btwn now =
    if is_leaf_of entry
    then (do update_parsed (parse_key key) (append_value value btwn now); unlock; pure (pos 0))
    else (do unlock; pure (negsuc 0))

unfoldable pub append_value_for_key : Text → Option Text → (btwn : Option Text) → (now : ℕ) → Op ℤ
unfolding lock
append_value_for_key key value btwn now = do
  lock
  entry ← get_entry key
  append_to_entry key entry value btwn now

-- `csdb_get_child_names_for_key`, which takes no lock: the number of childs, their names, and the
-- names as a string. `none` is the status -1.
unfoldable pub child_names : Csdbe → Option (ℕ × List Text × Text)
unfolding names_of spaced
child_names null = none
child_names (node n v true t c x) = none
child_names (node n v false t null x) = none
child_names (node n v false t (node m w l u d y) x) =
    let names = names_of (node m w l u d y) in some (length names, names, spaced names)

unfoldable pub get_child_names_for_key : Text → Op (Option (ℕ × List Text × Text))
get_child_names_for_key key = do entry ← get_entry key; pure (child_names entry)

-- The names above the childs of the entry at a key, innermost first.
abbrev pub above_childs : Parsed → List Text
above_childs (parts (n ∷ [])) = if str_eq n dot then [] else n ∷ []
above_childs (parts ks) = reverse ks
above_childs _ = []

unfoldable pub dump_from_key : Text → Op Text
unfolding lock unlock
dump_from_key key = do
  lock
  entry ← get_entry key
  unlock
  pure (dump_from_entry (above_childs (parse_key key)) (childs_of entry))

-- `csdb_init`: the root is an entry named ".".
unfoldable pub init : (now : ℕ) → Op (Unit {0})
unfolding lock unlock create_entry update_root
init now = do lock; update_root (λ _. create_entry dot none now); unlock
