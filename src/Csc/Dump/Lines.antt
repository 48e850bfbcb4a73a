-- ===== src/Csc/Dump/Lines.antt =====
-- The lines of a dump are what csc_read_db_from_file of src/csd/csc.c takes apart.
use dkmp.Base.{
  ℕ, ◌≡◌, refl, ap, ◌∙◌, Bool, true, false, not, Option, none, some, List, [], ◌∷◌, ◌++◌,
  append-nil, append_assoc, Text, ◌==◌,
}
use dkmp.Csdb.Key.Names.{IsName, join_key, is_nil, last_filled}
use dkmp.Csdb.Entry.{Csdbe, null, node, printed, list_parents_names}
use dkmp.Csdb.Values.{IsPath}
use dkmp.Csc.{is_newline, cut, strtok, add_token, at_sign}
use dkmp.Csc.Words.{Clean, Clean-append, cut-append, add_token-filled}
use dkmp.Csc.Dump.{Leaf, leaves, under, own, lines}

abbrev pub is_sign : ℕ → Bool
is_sign c = c == b'='

-- What can stand in a line: a name without '.', '=' and newlines that is not empty, and a value
-- without newlines.
pub record CleanName (n : Text) : Type 0 where
  pub name : IsName n
  pub filled : is_nil n ≡ false
  pub one_line : Clean is_newline n
  pub no_sign : Clean is_sign n

abbrev pub CleanValue : Option Text → Type 0
CleanValue none = ⊥
CleanValue (some v) = Clean is_newline v

-- All names are such, and every leaf has such a value.
abbrev pub CleanEntries : Csdbe → Type 0
CleanEntries null = Unit
CleanEntries (node n v l t c x) =
    CleanName n × (l ≡ true → CleanValue v) × CleanEntries c × CleanEntries x

pub record CleanLeaf (l : Leaf) : Type 0 where
  pub path : IsPath l.0
  pub one_line : Clean is_newline (join_key l.0)
  pub no_sign : Clean is_sign (join_key l.0)
  pub value : CleanValue l.1

abbrev pub AllClean : List Leaf → Type 0
AllClean [] = Unit
AllClean (l ∷ ls) = CleanLeaf l × AllClean ls

AllClean-append : (ls ms : List Leaf) → AllClean ls → AllClean ms → AllClean (ls ++ ms)
AllClean-append [] ms h k = k
AllClean-append (l ∷ ls) ms h k = (h.0, AllClean-append ls ms h.1 k)

last_filled-cons : (n : Text) (ks : List Text) → last_filled ks ≡ true → last_filled (n ∷ ks) ≡ true
last_filled-cons n [] h = cc h
last_filled-cons n (k ∷ ks) h = h

under-AllClean : (n : Text) (ls : List Leaf) → CleanName n → AllClean ls → AllClean (under n ls)
under-AllClean n [] k h = tt
under-AllClean n ((p, v) ∷ ls) k h = (
  record {
    path = record {
      all_names = (k.name, h.0.path.all_names);
      filled = last_filled-cons n p h.0.path.filled;
    };
    one_line = (refl, Clean-append is_newline n (join_key p) k.one_line h.0.one_line);
    no_sign = (refl, Clean-append is_sign n (join_key p) k.no_sign h.0.no_sign);
    value = h.0.value;
  },
  under-AllClean n ls k h.1,
)

own-AllClean :
    (n : Text) (v : Option Text) (l : Bool)
    → CleanName n
    → (l ≡ true → CleanValue v)
    → AllClean (own n v l)
own-AllClean n v false k h = tt
own-AllClean n v true k h = (
  record {
    path = record { all_names = (k.name, tt); filled = ap not k.filled };
    one_line = (refl, Clean-append is_newline n [] k.one_line tt);
    no_sign = (refl, Clean-append is_sign n [] k.no_sign tt);
    value = h refl;
  },
  tt,
)

pub leaves-AllClean : (e : Csdbe) → CleanEntries e → AllClean (leaves e)
unfolding leaves
leaves-AllClean null k = tt
leaves-AllClean (node n v l t c x) k =
    AllClean-append (own n v l) (under n (leaves c) ++ leaves x) (own-AllClean n v l k.0 k.1) (
      AllClean-append (under n (leaves c)) (leaves x)
        (under-AllClean n (leaves c) k.0 (leaves-AllClean c k.2)) (leaves-AllClean x k.3))

-- A line without its newline.
abbrev pub body : Leaf → Text
body (p, v) = join_key p ++ b'=' ∷ printed v

abbrev pub bodies : List Leaf → List Text
bodies [] = []
bodies (l ∷ ls) = body l ∷ bodies ls

body-Clean : (p : List Text) (v : Option Text) → CleanLeaf (p, v) → Clean is_newline (body (p, v))
body-Clean p none k = absurd k.value
body-Clean p (some w) k = Clean-append is_newline (join_key p) (b'=' ∷ w) k.one_line (refl, k.value)

body-filled : (p : List Text) (v : Option Text) → is_nil (body (p, v)) ≡ false
body-filled [] v = refl
body-filled (n ∷ p) v = refl

cut_newline : (rest : Text) → cut is_newline (b'\n' ∷ rest) ≡ ([], strtok is_newline rest)
unfolding cut strtok
cut_newline rest = refl

strtok_lem : (t : Text) → strtok is_newline t ≡ add_token (cut is_newline t).0 (cut is_newline t).1
unfolding strtok
strtok_lem t = refl

strtok-line :
    (t rest : Text)
    → Clean is_newline t
    → is_nil t ≡ false
    → strtok is_newline (t ++ b'\n' ∷ rest) ≡ t ∷ strtok is_newline rest
strtok-line t rest k f =
    rw
      (
        strtok_lem (t ++ b'\n' ∷ rest),
        cut-append is_newline t (b'\n' ∷ rest) k,
        cut_newline rest,
        append-nil t,
      )
      (add_token-filled t (strtok is_newline rest) f)

line_lem :
    (key w rest : Text)
    → (key ++ b'=' ∷ (w ++ b'\n' ∷ [])) ++ rest ≡ (key ++ b'=' ∷ w) ++ b'\n' ∷ rest
line_lem key w rest = simp append_assoc

-- The lines of the dump are what `strtok` returns.
pub strtok-lines : (ls : List Leaf) → AllClean ls → strtok is_newline (lines [] ls) ≡ bodies ls
unfolding list_parents_names
strtok-lines [] k = unfold strtok cut in refl
strtok-lines ((p, v) ∷ ls) k = rw (line_lem (join_key p) (printed v) (lines [] ls)) (
    strtok-line (body (p, v)) (lines [] ls) (body-Clean p v k.0) (body-filled p v)
    ∙ ap (◌∷◌ (body (p, v))) (strtok-lines ls k.1))

pub at_sign-body : (key v : Text) → Clean is_sign key → at_sign (key ++ b'=' ∷ v) ≡ (key, some v)
unfolding at_sign
at_sign-body [] v k = refl
at_sign-body (c ∷ key) v k = rw (k.0, at_sign-body key v k.1) refl
