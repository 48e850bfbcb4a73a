-- ===== src/Csdb/Paths.antt =====
-- What stands at a path of names, and how writing to a path changes it: the map that the tree of
-- entries stands for.
use dkmp.Base.{
  ℕ, ◌≡◌, refl, sym, ap, ◌∙◌, inl, inr, Bool, true, false, Option, none, some, List, [], ◌∷◌, arith,
  if◌then◌else◌, Bool-cases, Text, str_eq, str_eq_iff, str_eq→eq,
}
use dkmp.Csdb.Entry.{
  Csdbe, null, node, is_null, childs_of, with_childs, find_name, set_value, create_entry,
  append_child, update_first, set_child, set_path,
}

-- An entry without the entries that follow it in its list.
abbrev pub detach : Csdbe → Csdbe
detach null = null
detach (node n v l t c x) = node n v l t c null

abbrev pub pick : Csdbe → Text → Csdbe
pick entries name = detach (find_name entries name)

-- The entry at a path below `e`.
unfoldable pub look : List Text → Csdbe → Csdbe
look [] e = detach e
look (n ∷ ns) e = look ns (pick (childs_of e) n)

-- What an entry holds: its value, and whether it is a leaf.
abbrev pub Content : Type 0
Content = Option (Option Text × Bool)

abbrev pub read : Csdbe → Content
read null = none
read (node n v l t c x) = some (v, l)

-- `f` changes an entry but for its name and for what follows it, and does not look at the latter.
abbrev pub Local : (Csdbe → Csdbe) → Type 0
Local f =
    (n : Text) (v : Option Text) (l : Bool) (t : ℕ) (c : Csdbe)
    → (v' : Option Text) × (l' : Bool) × (t' : ℕ) × (c' : Csdbe) × ((x : Csdbe)
        → f (node n v l t c x) ≡ node n v' l' t' c' x)

pub Local-with_childs : (g : Csdbe → Csdbe) → Local (with_childs g)
Local-with_childs g n v l t c = (v, l, t, g c, λ x. refl)

pub Local-set_value : (v : Option Text) (now : ℕ) → Local (set_value v now)
unfolding set_value
Local-set_value none now n v l t c = (none, l, now, c, λ x. refl)
Local-set_value (some w) now n v l t c = (some w, true, now, c, λ x. refl)

pub Local-set_path : (ns : List Text) (v : Option Text) (now : ℕ) → Local (set_path ns v now)
unfolding set_path
Local-set_path [] v now = Local-set_value v now
Local-set_path (n ∷ ns) v now = Local-with_childs (set_child n (set_path ns v now) now)

pub set_path-null : (ns : List Text) (v : Option Text) (now : ℕ) → set_path ns v now null ≡ null
unfolding set_path set_value
set_path-null [] none now = refl
set_path-null [] (some v) now = refl
set_path-null (n ∷ ns) v now = refl

pub pick-update_first :
    (n m : Text) (f : Csdbe → Csdbe) (entries : Csdbe)
    → Local f
    → f null ≡ null
    → pick (update_first n f entries) m
      ≡ (if str_eq n m then f (pick entries m) else pick entries m)
unfolding update_first find_name
pick-update_first n m f null loc e =
    rw e
      (elim (str_eq n m) as (λ b. null ≡ (if b then null else null)) [ true ↦ refl | false ↦ refl ])
pick-update_first n m f (node k v l t c x) loc e = elim (Bool-cases (str_eq k n)) [
  | inl same ↦ ground (arith, str_eq→eq k n same, (loc k v l t c).4 x, (loc k v l t c).4 null)
  | inr other ↦
      ground
        (arith, str_eq_iff k m, str_eq_iff n m, str_eq_iff k n, pick-update_first n m f x loc e)
]

-- The entry that `csdb_set_value_for_key` goes on from: the one found, or a new one.
abbrev found_or_new : Text → (now : ℕ) → Csdbe → Csdbe
found_or_new n now null = create_entry n none now
found_or_new n now (node k v l t c x) = node k v l t c x

pub pick-append_child :
    (n m : Text) (v : Option Text) (l : Bool) (t : ℕ) (c x entries : Csdbe)
    → pick (append_child entries (node n v l t c x)) m
      ≡ (if str_eq n m then node n v l t c null else pick entries m)
unfolding find_name append_child
pick-append_child n m v l t c x entries = ground arith

pub set_child_found :
    (n : Text) (f : Csdbe → Csdbe) (now : ℕ) (entries : Csdbe)
    → is_null (find_name entries n) ≡ false
    → set_child n f now entries ≡ update_first n f entries
unfolding set_child
set_child_found n f now entries h = ground arith

pub set_child_new :
    (n : Text) (f : Csdbe → Csdbe) (now : ℕ) (entries : Csdbe)
    → is_null (find_name entries n) ≡ true
    → set_child n f now entries ≡ append_child entries (f (create_entry n none now))
unfolding set_child
set_child_new n f now entries h = ground arith

pub create_entry_lem :
    (n : Text) (now : ℕ) → create_entry n none now ≡ node n none false now null null
unfolding create_entry
create_entry_lem n now = refl

found_or_new_found :
    (n : Text) (now : ℕ) (entries : Csdbe)
    → is_null (find_name entries n) ≡ false
    → found_or_new n now (pick entries n) ≡ pick entries n
found_or_new_found n now entries h = ground arith

found_or_new_missing :
    (n : Text) (now : ℕ) (entries : Csdbe)
    → is_null (find_name entries n) ≡ true
    → found_or_new n now (pick entries n) ≡ create_entry n none now
found_or_new_missing n now entries h = ground arith

pick-new :
    (n m : Text) (f : Csdbe → Csdbe) (now : ℕ) (entries : Csdbe)
    → Local f
    → is_null (find_name entries n) ≡ true
    → pick (append_child entries (f (node n none false now null null))) m
      ≡ (if str_eq n m then f (found_or_new n now (pick entries n)) else pick entries m)
pick-new n m f now entries loc h =
    let (v, l, t, c, e) = loc n none false now null in
    rw (found_or_new_missing n now entries h, create_entry_lem n now, e null)
      (pick-append_child n m v l t c null entries)

pick-set_child :
    (n m : Text) (f : Csdbe → Csdbe) (now : ℕ) (entries : Csdbe)
    → Local f
    → f null ≡ null
    → pick (set_child n f now entries) m
      ≡ (if str_eq n m then f (found_or_new n now (pick entries n)) else pick entries m)
pick-set_child n m f now entries loc e = elim (Bool-cases (is_null (find_name entries n))) [
  | inl new ↦
      rw (set_child_new n f now entries new, create_entry_lem n now)
        (pick-new n m f now entries loc new)
  | inr old ↦
      rw (set_child_found n f now entries old, pick-update_first n m f entries loc e)
        (elim (Bool-cases (str_eq n m)) [
          | inl same ↦
              rw (same, ← str_eq→eq n m same) (ap f (sym (found_or_new_found n now entries old)))
          | inr other ↦ rw other refl
        ])
]

-- A path after a write to another: `old` is what the first path led to before.
abbrev pub written : Option Text → Content → Option Text × Bool
written (some v) old = (some v, true)
written none none = (none, false)
written none (some r) = (none, r.1)

unfoldable pub after_write : (path ks : List Text) → Option Text → Content → Content
after_write [] [] v old = some (written v old)
after_write [] (n ∷ ns) v none = some (none, false)
after_write [] (n ∷ ns) v (some r) = some r
after_write (m ∷ ms) [] v old = old
after_write (m ∷ ms) (n ∷ ns) v old = if str_eq n m then after_write ms ns v old else old

after_write-new :
    (ms ns : List Text) (v : Option Text) (n : Text) (now : ℕ)
    → after_write ms ns v (read (look ms (create_entry n none now)))
      ≡ after_write ms ns v (read (look ms null))
unfolding after_write look create_entry
after_write-new [] [] none n now = refl
after_write-new [] [] (some v) n now = refl
after_write-new [] (k ∷ ns) v n now = refl
after_write-new (m ∷ ms) ns v n now = refl

after_write-found :
    (ms ns : List Text) (v : Option Text) (n : Text) (now : ℕ) (e : Csdbe)
    → after_write ms ns v (read (look ms (found_or_new n now e)))
      ≡ after_write ms ns v (read (look ms e))
after_write-found ms ns v n now null = after_write-new ms ns v n now
after_write-found ms ns v n now (node _ _ _ _ _ _) = refl

read-set_value :
    (v : Option Text) (now : ℕ) (n : Text) (w : Option Text) (l : Bool) (t : ℕ) (c x : Csdbe)
    → read (detach (set_value v now (node n w l t c x))) ≡ some (written v (some (w, l)))
unfolding set_value
read-set_value none now n w l t c x = refl
read-set_value (some v) now n w l t c x = refl

pub childs_of-set_value :
    (v : Option Text) (now : ℕ) (e : Csdbe) → childs_of (set_value v now e) ≡ childs_of e
unfolding set_value
childs_of-set_value none now null = refl
childs_of-set_value (some v) now null = refl
childs_of-set_value none now (node _ _ _ _ _ _) = refl
childs_of-set_value (some v) now (node _ _ _ _ _ _) = refl

found_or_new_node : (n : Text) (now : ℕ) (e : Csdbe) → is_null (found_or_new n now e) ≡ false
unfolding create_entry
found_or_new_node n now null = refl
found_or_new_node n now (node _ _ _ _ _ _) = refl

-- What the tree holds at each path after the write of one path: `after_write` says it in terms of
-- what it held at that path before, and of the paths alone.
pub read-set_path :
    (ks path : List Text) (v : Option Text) (now : ℕ) (e : Csdbe)
    → is_null e ≡ false
    → read (look path (set_path ks v now e)) ≡ after_write path ks v (read (look path e))
unfolding look set_path after_write
read-set_path ks path v now null h = cc
read-set_path [] [] v now (node n w l t c x) h = read-set_value v now n w l t c x
read-set_path [] (m ∷ ms) v now (node n w l t c x) h =
    rw (childs_of-set_value v now (node n w l t c x)) refl
read-set_path (k ∷ ks) [] v now (node n w l t c x) h = refl
read-set_path (k ∷ ks) (m ∷ ms) v now (node n w l t c x) h = elim (Bool-cases (str_eq k m)) [
  | inl same ↦
      rw
        (
          pick-set_child k m (set_path ks v now) now c (Local-set_path ks v now)
              (set_path-null ks v now),
          same,
          str_eq→eq k m same,
        )
        (read-set_path ks ms v now (found_or_new m now (pick c m))
            (found_or_new_node m now (pick c m))
          ∙ after_write-found ms ks v m now (pick c m))
  | inr other ↦
      rw
        (
          pick-set_child k m (set_path ks v now) now c (Local-set_path ks v now)
              (set_path-null ks v now),
          other,
        )
        refl
]
