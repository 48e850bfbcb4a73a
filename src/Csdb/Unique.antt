-- ===== src/Csdb/Unique.antt =====
-- No list of entries has a name twice: every write keeps this, and with it a removal takes away a
-- key and all below it, and nothing else.
use dkmp.Base.{
  ℕ, ◌≡◌, refl, sym, inl, inr, Bool, true, false, ◌&&◌, Option, none, some, List, [], ◌∷◌, arith,
  if◌then◌else◌, Bool-cases, Text, str_eq, str_eq_iff,
}
use dkmp.Csdb.Entry.{
  Csdbe, null, node, is_null, childs_of, with_childs, find_name, set_value, append_child,
  update_first, update_path, unlink, set_child, set_path, remove_path,
}
use dkmp.Csdb.Paths.{
  pick, look, Content, read, Local, Local-with_childs, Local-set_path, pick-update_first,
  set_child_found, set_child_new, create_entry_lem,
}

abbrev pub IsUnique : Csdbe → Type 0
IsUnique null = Unit
IsUnique (node n v l t c x) = (is_null (find_name x n) ≡ true) × IsUnique c × IsUnique x

pick-unlink :
    (n m : Text) (entries : Csdbe)
    → IsUnique entries
    → pick (unlink n entries) m ≡ (if str_eq n m then null else pick entries m)
unfolding unlink find_name
pick-unlink n m null u = ground arith
pick-unlink n m (node k v l t c x) u =
    ground (arith, str_eq_iff k m, str_eq_iff n m, str_eq_iff k n, pick-unlink n m x u.2)

remove_path-null : (ks : List Text) → remove_path ks null ≡ null
unfolding remove_path
remove_path-null [] = refl
remove_path-null (n ∷ []) = refl
remove_path-null (n ∷ m ∷ ms) = refl

Local-remove_path : (n : Text) (ns : List Text) → Local (remove_path (n ∷ ns))
unfolding remove_path
Local-remove_path n [] = Local-with_childs (unlink n)
Local-remove_path n (m ∷ ms) = Local-with_childs (update_first n (remove_path (m ∷ ms)))

IsUnique-find_name : (entries : Csdbe) (n : Text) → IsUnique entries → IsUnique (pick entries n)
unfolding find_name
IsUnique-find_name null n u = tt
IsUnique-find_name (node k v l t c x) n u = elim (Bool-cases (str_eq k n)) [
  | inl same ↦ rw same (refl, u.1, tt)
  | inr other ↦ rw other (IsUnique-find_name x n u.2)
]

IsUnique-childs : (e : Csdbe) → IsUnique e → IsUnique (childs_of e)
IsUnique-childs null u = tt
IsUnique-childs (node _ _ _ _ _ _) u = u.1

-- The first path begins with the second.
unfoldable pub begins_with : (path ks : List Text) → Bool
begins_with path [] = true
begins_with [] (k ∷ ks) = false
begins_with (m ∷ ms) (k ∷ ks) = str_eq k m && begins_with ms ks

look-null : (path : List Text) → read (look path null) ≡ none
unfolding look find_name
look-null [] = refl
look-null (m ∷ ms) = look-null ms

if_none : (b : Bool) → if◌then◌else◌ {A = Content} b none none ≡ none
if_none true = refl
if_none false = refl

-- What the tree holds at each path after a removal: nothing at the path and below it, and what it
-- held before elsewhere.
pub read-remove_path :
    (k : Text) (ks path : List Text) (e : Csdbe)
    → IsUnique e
    → read (look path (remove_path (k ∷ ks) e))
      ≡ (if begins_with path (k ∷ ks) then none else read (look path e))
unfolding look remove_path begins_with
read-remove_path k ks path null u =
    rw (remove_path-null (k ∷ ks), look-null path) (sym (if_none (begins_with path (k ∷ ks))))
read-remove_path k [] [] (node n v l t c x) u = refl
read-remove_path k (k' ∷ ks) [] (node n v l t c x) u = refl
read-remove_path k [] (m ∷ ms) (node n v l t c x) u = elim (Bool-cases (str_eq k m)) [
  | inl same ↦ rw (pick-unlink k m c u.1, same) (look-null ms)
  | inr other ↦ rw (pick-unlink k m c u.1, other) refl
]
read-remove_path k (k' ∷ ks) (m ∷ ms) (node n v l t c x) u =
    let step =
      pick-update_first k m (remove_path (k' ∷ ks)) c (Local-remove_path k' ks)
        (remove_path-null (k' ∷ ks)) in
    elim (Bool-cases (str_eq k m)) [
      | inl same ↦
          rw (step, same) (read-remove_path k' ks ms (pick c m) (IsUnique-find_name c m u.1))
      | inr other ↦ rw (step, other) refl
    ]

find_name-update_first :
    (n m : Text) (f : Csdbe → Csdbe) (entries : Csdbe)
    → Local f
    → is_null (find_name (update_first n f entries) m) ≡ is_null (find_name entries m)
unfolding update_first find_name
find_name-update_first n m f null loc = refl
find_name-update_first n m f (node k v l t c x) loc =
    ground (arith, (loc k v l t c).4 x, find_name-update_first n m f x loc)

find_name-unlink :
    (n m : Text) (entries : Csdbe)
    → is_null (find_name entries m) ≡ true
    → is_null (find_name (unlink n entries) m) ≡ true
unfolding unlink find_name
find_name-unlink n m null h = refl
find_name-unlink n m (node k v l t c x) h = ground (arith, find_name-unlink n m x)

pub IsUnique-unlink : (n : Text) (entries : Csdbe) → IsUnique entries → IsUnique (unlink n entries)
unfolding unlink
IsUnique-unlink n null u = tt
IsUnique-unlink n (node k v l t c x) u = elim (Bool-cases (str_eq k n)) [
  | inl same ↦ rw same u.2
  | inr other ↦ rw other (find_name-unlink n k x u.0, u.1, IsUnique-unlink n x u.2)
]

abbrev pub Keeps : (Csdbe → Csdbe) → Type 0
Keeps f = (e : Csdbe) → IsUnique e → IsUnique (f e)

IsUnique-update_first :
    (n : Text) (f : Csdbe → Csdbe) (entries : Csdbe)
    → Local f
    → Keeps f
    → IsUnique entries
    → IsUnique (update_first n f entries)
unfolding update_first
IsUnique-update_first n f null loc keep u = tt
IsUnique-update_first n f (node k v l t c x) loc keep u = elim (Bool-cases (str_eq k n)) [
  | inl same ↦ rw same (keep (node k v l t c x) u)
  | inr other ↦
      rw other
        (rw (find_name-update_first n k f x loc) u.0, u.1, IsUnique-update_first n f x loc keep u.2)
]

IsUnique-with_childs : (f : Csdbe → Csdbe) → Keeps f → Keeps (with_childs f)
IsUnique-with_childs f keep null u = tt
IsUnique-with_childs f keep (node n v l t c x) u = (u.0, keep c u.1, u.2)

IsUnique-set_child :
    (n : Text) (f : Csdbe → Csdbe) (now : ℕ) → Local f → Keeps f → Keeps (set_child n f now)
unfolding find_name append_child
IsUnique-set_child n f now loc keep entries u = elim (Bool-cases (is_null (find_name entries n))) [
  | inl new ↦
      let (v, l, t, c, e) = loc n none false now null in
      rw (set_child_new n f now entries new, create_entry_lem n now, e null)
        (new, (rw (e null) at (keep (node n none false now null null) (refl, tt, tt))).1, u)
  | inr old ↦
      rw (set_child_found n f now entries old) (IsUnique-update_first n f entries loc keep u)
]

IsUnique-set_value : (v : Option Text) (now : ℕ) → Keeps (set_value v now)
unfolding set_value
IsUnique-set_value none now null u = tt
IsUnique-set_value (some v) now null u = tt
IsUnique-set_value none now (node _ _ _ _ _ _) u = u
IsUnique-set_value (some v) now (node _ _ _ _ _ _) u = u

pub IsUnique-set_path : (ks : List Text) (v : Option Text) (now : ℕ) → Keeps (set_path ks v now)
unfolding set_path
IsUnique-set_path [] v now e u = IsUnique-set_value v now e u
IsUnique-set_path (k ∷ ks) v now e u =
    IsUnique-with_childs (set_child k (set_path ks v now) now)
      (IsUnique-set_child k (set_path ks v now) now (Local-set_path ks v now)
        (IsUnique-set_path ks v now))
      e u

pub IsUnique-remove_path : (ks : List Text) → Keeps (remove_path ks)
unfolding remove_path
IsUnique-remove_path [] e u = u
IsUnique-remove_path (k ∷ []) e u = IsUnique-with_childs (unlink k) (IsUnique-unlink k) e u
IsUnique-remove_path (k ∷ k' ∷ ks) e u =
    IsUnique-with_childs (update_first k (remove_path (k' ∷ ks)))
      (λ l h.
        IsUnique-update_first k (remove_path (k' ∷ ks)) l (Local-remove_path k' ks)
          (IsUnique-remove_path (k' ∷ ks)) h)
      e u

pub Local-update_path : (ks : List Text) (f : Csdbe → Csdbe) → Local f → Local (update_path ks f)
unfolding update_path
Local-update_path [] f loc = loc
Local-update_path (k ∷ ks) f loc = Local-with_childs (update_first k (update_path ks f))

pub IsUnique-update_path :
    (ks : List Text) (f : Csdbe → Csdbe) → Local f → Keeps f → Keeps (update_path ks f)
unfolding update_path
IsUnique-update_path [] f loc keep e u = keep e u
IsUnique-update_path (k ∷ ks) f loc keep e u =
    IsUnique-with_childs (update_first k (update_path ks f))
      (λ l h.
        IsUnique-update_first k (update_path ks f) l (Local-update_path ks f loc)
          (IsUnique-update_path ks f loc keep) h)
      e u
