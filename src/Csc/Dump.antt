-- ===== src/Csc/Dump.antt =====
-- What csc_dump_db_to_file of src/csd/csc.c writes: the leaves of the database, as lines.
pub mod Leaves
pub mod Lines
pub mod RoundTrip
use dkmp.Base.{
  ℕ, ◌≡◌, ◌≢◌, refl, sym, ap, ◌∙◌, inl, inr, Bool, true, false, not, Option, none, some, List, [],
  ◌∷◌, ◌++◌, append-nil, append_assoc, if◌then◌else◌, Bool-cases, Text, str_eq, ◌==◌,
}
use dkmp.Csdb.Key.Names.{IsName, AllNames, join_key, is_nil, last_filled}
use dkmp.Csdb.Entry.{Csdbe, null, node, printed, list_parents_names, dump_line, dump_from_entry}
use dkmp.Csdb.Values.{IsPath}
use dkmp.Csc.{is_newline}
use dkmp.Csc.Words.{Clean}

-- A path with the value at its end.
abbrev pub Leaf : Type 0
Leaf = List Text × Option Text

abbrev pub under : Text → List Leaf → List Leaf
under n [] = []
under n ((p, v) ∷ ls) = (n ∷ p, v) ∷ under n ls

abbrev pub own : Text → Option Text → Bool → List Leaf
own n v true = (n ∷ [], v) ∷ []
own n v false = []

-- The leaves of a list of entries, in the order in which they are written.
unfoldable pub leaves : Csdbe → List Leaf
leaves null = []
leaves (node n v l t c x) = own n v l ++ (under n (leaves c) ++ leaves x)

abbrev pub line : Text → Option Text → Text
line key v = key ++ b'=' ∷ (printed v ++ b'\n' ∷ [])

abbrev pub lines : (above : List Text) → List Leaf → Text
lines above [] = []
lines above ((p, v) ∷ ls) = line (list_parents_names above ++ join_key p) v ++ lines above ls

lines-append :
    (above : List Text) (ls ms : List Leaf)
    → lines above (ls ++ ms) ≡ lines above ls ++ lines above ms
lines-append above [] ms = refl
lines-append above ((p, v) ∷ ls) ms = rw (lines-append above ls ms) (
    sym (
      append_assoc (line (list_parents_names above ++ join_key p) v) (lines above ls)
        (lines above ms)))

lines-under :
    (n : Text) (above : List Text) (ls : List Leaf)
    → lines above (under n ls) ≡ lines (n ∷ above) ls
unfolding list_parents_names
lines-under n above [] = refl
lines-under n above ((p, v) ∷ ls) =
    rw (lines-under n above ls, append_assoc (list_parents_names above) (b'.' ∷ n) (join_key p))
      refl

pub dump-lines : (above : List Text) (e : Csdbe) → dump_from_entry above e ≡ lines above (leaves e)
unfolding dump_from_entry leaves dump_line list_parents_names
dump-lines above null = refl
dump-lines above (node n v true t c x) =
    rw
      (
        dump-lines (n ∷ above) c,
        dump-lines above x,
        lines-append above (under n (leaves c)) (leaves x),
        lines-under n above (leaves c),
        append-nil n,
      )
      refl
dump-lines above (node n v false t c x) =
    rw
      (
        dump-lines (n ∷ above) c,
        dump-lines above x,
        lines-append above (under n (leaves c)) (leaves x),
        lines-under n above (leaves c),
      )
      refl
