-- ===== src/Csdb/Entry.antt =====
-- The entries of the database: `struct csdbe` of src/csd/csdb.h, and the functions of
-- src/csd/csdb.c that take an entry.
use dkmp.Base.{
  ℕ, Bool, true, false, Option, none, some, List, [], ◌∷◌, ◌++◌, if◌then◌else◌, Text, str_eq,
}

-- A pointer to an entry with all that it leads to through `childs` and `next`; `null` is NULL.
-- `parent` and `prev` lead back along those, and `dumpit` is never read.
pub data Csdbe : Type 0 where
  null : Csdbe
  node :
      (name : Text) (value : Option Text) (is_leaf : Bool) (mtime : ℕ) (childs next : Csdbe) → Csdbe

abbrev pub is_null : Csdbe → Bool
is_null null = true
is_null (node _ _ _ _ _ _) = false

abbrev pub childs_of : Csdbe → Csdbe
childs_of null = null
childs_of (node _ _ _ _ c _) = c

abbrev pub with_childs : (Csdbe → Csdbe) → Csdbe → Csdbe
with_childs f null = null
with_childs f (node n v l t c x) = node n v l t (f c) x

-- The search loop of `csdb_find_child`: the first entry of a list with the name.
unfoldable pub find_name : Csdbe → Text → Csdbe
find_name null name = null
find_name (node n v l t c x) name = if str_eq n name then node n v l t c x else find_name x name

abbrev pub dot : Text
dot = b'.' ∷ []

-- The name "." stands for the root wherever it is asked for.
unfoldable pub find_child : (csdb_root root : Csdbe) → Text → Csdbe
find_child csdb_root root name =
    if str_eq name dot then csdb_root else find_name (childs_of root) name

-- A name makes an entry that holds no value: it is no leaf.
unfoldable pub set_name : Text → Csdbe → Csdbe
set_name name null = null
set_name name (node n v l t c x) = node name v false t c x

-- NULL takes the value away and leaves `is_leaf` as it is. `now` is what `time` returns.
unfoldable pub set_value : Option Text → (now : ℕ) → Csdbe → Csdbe
set_value v now null = null
set_value none now (node n w l t c x) = node n none l now c x
set_value (some v) now (node n w l t c x) = node n (some v) true now c x

unfoldable pub create_entry : Text → Option Text → (now : ℕ) → Csdbe
unfolding set_name set_value
create_entry name value now = set_value value now (set_name name (node [] none false 0 null null))

-- `csdb_append_child` on the list of an entry's childs: the new entry comes to the front.
unfoldable pub append_child : Csdbe → Csdbe → Csdbe
append_child entries null = entries
append_child entries (node n v l t c _) = node n v l t c entries

-- The first entry with the name is changed in its place.
unfoldable pub update_first : Text → (Csdbe → Csdbe) → Csdbe → Csdbe
update_first name f null = null
update_first name f (node n v l t c x) =
    if str_eq n name then f (node n v l t c x) else node n v l t c (update_first name f x)

-- The first entry with the name is taken out of its list.
unfoldable pub unlink : Text → Csdbe → Csdbe
unlink name null = null
unlink name (node n v l t c x) = if str_eq n name then x else node n v l t c (unlink name x)

-- The loop of `csdb_set_value_for_key` below an entry: a missing part is created, the last part
-- gets the value.
unfoldable pub set_child : Text → (Csdbe → Csdbe) → (now : ℕ) → Csdbe → Csdbe
unfolding find_name create_entry append_child update_first
set_child name f now entries = elim (find_name entries name) [
  | null ↦ append_child entries (f (create_entry name none now))
  | node _ _ _ _ _ _ ↦ update_first name f entries
]

unfoldable pub set_path : List Text → Option Text → (now : ℕ) → Csdbe → Csdbe
unfolding set_value set_child
set_path [] v now e = set_value v now e
set_path (n ∷ ns) v now e = with_childs (set_child n (set_path ns v now) now) e

-- The entry at a path is changed in its place.
unfoldable pub update_path : List Text → (Csdbe → Csdbe) → Csdbe → Csdbe
unfolding update_first
update_path [] f e = f e
update_path (n ∷ ns) f e = with_childs (update_first n (update_path ns f)) e

-- The entry at a path is taken out of the childs of its parent.
unfoldable pub remove_path : List Text → Csdbe → Csdbe
unfolding unlink update_first
remove_path [] e = e
remove_path (n ∷ []) e = with_childs (unlink n) e
remove_path (n ∷ m ∷ ms) e = with_childs (update_first n (remove_path (m ∷ ms))) e

-- The walk of `csdb_get_entry` from an entry.
unfoldable pub walk : (csdb_root entry : Csdbe) → List Text → Csdbe
unfolding find_child find_name
walk csdb_root entry [] = entry
walk csdb_root null (n ∷ ns) = null
walk csdb_root (node m v l t c x) (n ∷ ns) =
    walk csdb_root (find_child csdb_root (node m v l t c x) n) ns

-- The names of a list of entries.
unfoldable pub names_of : Csdbe → List Text
names_of null = []
names_of (node n v l t c x) = n ∷ names_of x

-- Each name with a space behind it.
unfoldable pub spaced : List Text → Text
spaced [] = []
spaced (n ∷ ns) = n ++ b' ' ∷ spaced ns

-- `csdb_list_parents_names`: the names from the root down to an entry. The list has the innermost
-- name first.
unfoldable pub list_parents_names : List Text → Text
list_parents_names [] = []
list_parents_names (n ∷ above) = list_parents_names above ++ b'.' ∷ n

abbrev null_text : Text
null_text = b'(' ∷ b'n' ∷ b'u' ∷ b'l' ∷ b'l' ∷ b')' ∷ []

abbrev pub printed : Option Text → Text
printed none = null_text
printed (some v) = v

unfoldable pub dump_line : List Text → Option Text → Text
unfolding list_parents_names
dump_line names v = list_parents_names names ++ b'=' ∷ (printed v ++ b'\n' ∷ [])

-- `csdb_dump_from_entry`: the bytes that it writes, entry by entry, childs before the next entry.
unfoldable pub dump_from_entry : (above : List Text) → Csdbe → Text
unfolding dump_line
dump_from_entry above null = []
dump_from_entry above (node n v l t c x) =
    (if l then dump_line (n ∷ above) v else [])
    ++ (dump_from_entry (n ∷ above) c ++ dump_from_entry above x)
