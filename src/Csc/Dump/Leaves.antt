-- ===== src/Csc/Dump/Leaves.antt =====
-- The values among the leaves that a dump writes, and those that stand in the database.
use dkmp.Base.{
  ℕ, ◌≡◌, refl, ◌∙◌, inl, inr, Bool, true, false, ◌&&◌, Option, none, some, List, [], ◌∷◌, ◌++◌,
  if◌then◌else◌, Bool-cases, Text, str_eq, str_eq→eq,
}
use dkmp.Csdb.Entry.{Csdbe, null, node, is_null, find_name}
use dkmp.Csdb.Paths.{read, look, pick}
use dkmp.Csdb.Unique.{IsUnique}
use dkmp.Csdb.Values.{look_null}
use dkmp.Csdb.Appending.{same_path}
use dkmp.Csdb.Stored.{leaf_value}
use dkmp.Csc.Dump.{Leaf, leaves, under, own}
use dkmp.Csc.Dump.Lines.{CleanEntries, CleanValue}

abbrev pub first_of : Option Text → Option Text → Option Text
first_of (some v) o = some v
first_of none o = o

-- The value that the last leaf of a list with the path gives.
unfoldable pub last_value : List Leaf → (path : List Text) → Option Text → Option Text
last_value [] path o = o
last_value ((k, v) ∷ ls) path o = last_value ls path (if same_path path k then v else o)

-- The value at a path below a list of entries.
abbrev pub value_in : Csdbe → (n : Text) (ns : List Text) → Option Text
value_in e n ns = leaf_value (read (look ns (pick e n)))

last_value-append :
    (ls ms : List Leaf) (path : List Text) (o : Option Text)
    → last_value (ls ++ ms) path o ≡ last_value ms path (last_value ls path o)
unfolding last_value
last_value-append [] ms path o = refl
last_value-append ((k, v) ∷ ls) ms path o = last_value-append ls ms path _

last_value-under_nil :
    (m : Text) (ls : List Leaf) (o : Option Text) → last_value (under m ls) [] o ≡ o
unfolding last_value same_path
last_value-under_nil m [] o = refl
last_value-under_nil m ((k, v) ∷ ls) o = last_value-under_nil m ls o

-- Every path among the leaves has a part.
last_value-nil : (e : Csdbe) (o : Option Text) → last_value (leaves e) [] o ≡ o
unfolding leaves
last_value-nil null o = unfold last_value in refl
last_value-nil (node m v l t c x) o =
    last_value-append (own m v l) (under m (leaves c) ++ leaves x) [] o
    ∙ last_value-append (under m (leaves c)) (leaves x) [] (last_value (own m v l) [] o)
    ∙ last_value-nil x _
    ∙ last_value-under_nil m (leaves c) _
    ∙ own_nil l
  where
    own_nil : (b : Bool) → last_value (own m v b) [] o ≡ o
    own_nil true = unfold last_value same_path in refl
    own_nil false = unfold last_value in refl

last_value-under :
    (m n : Text) (ns : List Text) (ls : List Leaf) (o : Option Text)
    → last_value (under m ls) (n ∷ ns) o ≡ (if str_eq m n then last_value ls ns o else o)
unfolding last_value same_path
last_value-under m n ns [] o = elim (Bool-cases (str_eq m n)) [
  | inl same ↦ rw same refl
  | inr other ↦ rw other refl
]
last_value-under m n ns ((k, v) ∷ ls) o =
    last_value-under m n ns ls (if str_eq m n && same_path ns k then v else o)
    ∙ elim (Bool-cases (str_eq m n)) [ inl same ↦ rw same refl | inr other ↦ rw other refl ]

last_value-own :
    (m n : Text) (ns : List Text) (v : Option Text) (l : Bool) (o : Option Text)
    → last_value (own m v l) (n ∷ ns) o ≡ (if l && (str_eq m n && same_path ns []) then v else o)
unfolding last_value same_path
last_value-own m n ns v true o = refl
last_value-own m n ns v false o = refl

value_in-absent :
    (x : Csdbe) (n : Text) (ns : List Text)
    → is_null (find_name x n) ≡ true
    → value_in x n ns ≡ none
value_in-absent x n ns h =
    let gone : find_name x n ≡ null = null_lem (find_name x n) h in rw (gone, look_null ns) refl
  where
    null_lem : (e : Csdbe) → is_null e ≡ true → e ≡ null
    null_lem null h = refl
    null_lem (node m v l t c x) h = cc h

value_in-here :
    (m n : Text) (ns : List Text) (v : Option Text) (l : Bool) (t : ℕ) (c x : Csdbe)
    → str_eq m n ≡ true
    → value_in (node m v l t c x) n ns ≡ leaf_value (read (look ns (node m v l t c null)))
unfolding find_name
value_in-here m n ns v l t c x e = rw e refl

value_in-there :
    (m n : Text) (ns : List Text) (v : Option Text) (l : Bool) (t : ℕ) (c x : Csdbe)
    → str_eq m n ≡ false
    → value_in (node m v l t c x) n ns ≡ value_in x n ns
unfolding find_name
value_in-there m n ns v l t c x e = rw e refl

own_value :
    (v : Option Text) (l : Bool) (t : ℕ) (c : Csdbe) (m : Text) (o : Option Text)
    → (l ≡ true → CleanValue v)
    → (if l then v else o) ≡ first_of (leaf_value (read (look [] (node m v l t c null)))) o
unfolding look
own_value v false t c m o k = refl
own_value none true t c m o k = absurd (k refl)
own_value (some w) true t c m o k = refl

same_path_nil : same_path [] [] ≡ true
unfolding same_path
same_path_nil = refl

same_path_cons : (j : Text) (js : List Text) → same_path (j ∷ js) [] ≡ false
unfolding same_path
same_path_cons j js = refl

abbrev own_or :
    (m n : Text) (ns : List Text) (v : Option Text) (l : Bool) → Option Text → Option Text
own_or m n ns v l o = if l && (str_eq m n && same_path ns []) then v else o

split_leaves :
    (m n : Text) (ns : List Text) (v : Option Text) (l : Bool) (t : ℕ) (c x : Csdbe)
    (o : Option Text)
    → last_value (leaves (node m v l t c x)) (n ∷ ns) o
      ≡ last_value (leaves x) (n ∷ ns) (
          if str_eq m n
          then last_value (leaves c) ns (own_or m n ns v l o)
          else own_or m n ns v l o)
unfolding leaves
split_leaves m n ns v l t c x o =
    last_value-append (own m v l) (under m (leaves c) ++ leaves x) (n ∷ ns) o
    ∙ last_value-append (under m (leaves c)) (leaves x) (n ∷ ns) (last_value (own m v l) (n ∷ ns) o)
    ∙ rw (last_value-under m n ns (leaves c), last_value-own m n ns v l o) refl

-- What the entry itself and its childs give.
inside :
    (m : Text) (ns : List Text) (v : Option Text) (l : Bool) (t : ℕ) (c : Csdbe) (o : Option Text)
    → (l ≡ true → CleanValue v)
    → ((j : Text) (js : List Text)
        → last_value (leaves c) (j ∷ js) o ≡ first_of (value_in c j js) o)
    → last_value (leaves c) ns (if l && same_path ns [] then v else o)
      ≡ first_of (leaf_value (read (look ns (node m v l t c null)))) o
inside m [] v l t c o k ih =
    rw (same_path_nil, and_true l) (last_value-nil c _ ∙ own_value v l t c m o k)
  where
    and_true : (b : Bool) → (b && true) ≡ b
    and_true true = refl
    and_true false = refl
inside m (j ∷ js) v l t c o k ih = rw (same_path_cons j js, and_false l) (unfold look in ih j js)
  where
    and_false : (b : Bool) → (b && false) ≡ false
    and_false true = refl
    and_false false = refl

-- What an entry of a list gives, with the others behind it.
module _ (m n : Text) (ns : List Text) (v : Option Text) (l : Bool) (t : ℕ) (c x : Csdbe)
    (o : Option Text) where
  here :
      (l ≡ true → CleanValue v)
      → is_null (find_name x m) ≡ true
      → ((j : Text) (js : List Text)
          → last_value (leaves c) (j ∷ js) o ≡ first_of (value_in c j js) o)
      → str_eq m n ≡ true
      → first_of
          (value_in x n ns)
          (last_value (leaves c) ns (if l && same_path ns [] then v else o))
        ≡ first_of (leaf_value (read (look ns (node m v l t c null)))) o
  here k alone ih same =
      rw (value_in-absent x n ns (rw (str_eq→eq m n same) at alone)) (inside m ns v l t c o k ih)

  none_own : (b : Bool) → (if b && false then v else o) ≡ o
  none_own true = refl
  none_own false = refl

  at_entry :
      (l ≡ true → CleanValue v)
      → is_null (find_name x m) ≡ true
      → ((j : Text) (js : List Text)
          → last_value (leaves c) (j ∷ js) o ≡ first_of (value_in c j js) o)
      → first_of (value_in x n ns) (
          if str_eq m n
          then last_value (leaves c) ns (own_or m n ns v l o)
          else own_or m n ns v l o)
        ≡ first_of (value_in (node m v l t c x) n ns) o
  at_entry k alone ih = elim (Bool-cases (str_eq m n)) [
    | inl same ↦ rw (value_in-here m n ns v l t c x same, same) (here k alone ih same)
    | inr other ↦ rw (value_in-there m n ns v l t c x other, other, none_own l) refl
  ]

-- The last value among the leaves is what stands at the path.
pub leaves-value_in :
    (e : Csdbe) (n : Text) (ns : List Text) (o : Option Text)
    → IsUnique e
    → CleanEntries e
    → last_value (leaves e) (n ∷ ns) o ≡ first_of (value_in e n ns) o
leaves-value_in null n ns o u k =
    rw (value_in-absent null n ns (unfold find_name in refl)) (unfold leaves last_value in refl)
leaves-value_in (node m v l t c x) n ns o u k =
    split_leaves m n ns v l t c x o
    ∙ leaves-value_in x n ns _ u.2 k.3
    ∙ at_entry m n ns v l t c x o k.1 u.0 (λ j js. leaves-value_in c j js o u.1 k.2)
