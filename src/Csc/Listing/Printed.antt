-- ===== src/Csc/Listing/Printed.antt =====
-- The listing as the comment of `csc_scan_libs` of src/csd/csc.c shows it: what the loop finds in it.
use dkmp.Base.{
  ℕ, ◌≡◌, ◌≢◌, refl, ap, ◌∙◌, Bool, false, Option, none, some, List, [], ◌∷◌, ◌++◌, append_assoc,
  ◌==◌, Text, arith, suc, ◌+◌, ◌<◌, length, c_string, IsCString,
}
use dkmp.Base.Scan.{IsWord}
use dkmp.Base.Fields.{IsTyped}
use dkmp.Csdb.Key.Names.{is_nil}
use dkmp.Csc.{is_newline}
use dkmp.Csc.Mapped.{c_string-through}
use dkmp.Csc.Words.{Clean, Clean-append}
use dkmp.Csc.Listing.{behind_tab, Rounds, finished, round, begin, longer, rounds_at}

-- A library: its name, its type, the word that follows, and its path.
pub record Lib : Type 0 where
  pub name : Text
  pub type : Text
  pub mark : Text
  pub path : Text

abbrev pub line_of : Lib → Text
line_of l = l.name ++ b' ' ∷ (l.type ++ b' ' ∷ (l.mark ++ b' ' ∷ l.path))

-- The lines, each behind a tab, and then `rest`.
abbrev pub printed_libs : List Lib → (rest : Text) → Text
printed_libs [] rest = rest
printed_libs (l ∷ ls) rest = b'\t' ∷ (line_of l ++ b'\n' ∷ printed_libs ls rest)

abbrev pub is_tab : ℕ → Bool
is_tab c = c == b'\t'

abbrev pub StartsText : Text → Type 0
StartsText [] = ⊥
StartsText (c ∷ t) = c ≢ 0

-- Four words without zero bytes in a line of at most 255 bytes with its tab.
pub record IsLine (l : Lib) : Type 0 where
  pub name_word : IsWord l.name
  pub name_starts : StartsText l.name
  pub type_word : IsWord l.type
  pub type_filled : is_nil l.type ≡ false
  pub mark_word : IsWord l.mark
  pub mark_typed : IsTyped l.mark
  pub path_word : IsWord l.path
  pub path_filled : is_nil l.path ≡ false
  pub clean : IsCString (line_of l)
  pub short : length (line_of l) < 255

abbrev pub AllLines : List Lib → Type 0
AllLines [] = Unit
AllLines (l ∷ ls) = IsLine l × AllLines ls

abbrev pub entry : Lib → Text × Text
entry l = (l.name, l.type)

pub behind_tab-append :
    (header t : Text) → Clean is_tab header → behind_tab (header ++ b'\t' ∷ t) ≡ some t
unfolding behind_tab
behind_tab-append [] t h = refl
behind_tab-append (c ∷ u) t h = rw h.0 (behind_tab-append u t h.1)

-- A text without newlines makes its line longer.
abbrev lengthen : ℕ → Option (ℕ × Rounds) → Option (ℕ × Rounds)
lengthen n none = none
lengthen n (some (m, rs)) = some (n + m, rs)

longer-lengthen : (n : ℕ) (o : Option (ℕ × Rounds)) → longer (lengthen n o) ≡ lengthen (n + 1) o
longer-lengthen n none = refl
longer-lengthen n (some (m, rs)) = ap (λ k. some (k, rs)) (omega arith)

lengthen_zero : (o : Option (ℕ × Rounds)) → o ≡ lengthen 0 o
lengthen_zero none = refl
lengthen_zero (some (m, rs)) = ap (λ k. some (k, rs)) (omega arith)

rounds_at-append :
    (u t : Text) → Clean is_newline u → (rounds_at (u ++ t)).1 ≡ lengthen (length u) (rounds_at t).1
unfolding rounds_at
rounds_at-append [] t h = lengthen_zero (rounds_at t).1
rounds_at-append (c ∷ u) t h =
    let e : length (c ∷ u) ≡ length u + 1 = omega arith in
    rw (h.0, rounds_at-append u t h.1, e) (longer-lengthen (length u) (rounds_at t).1)

IsWord-Clean : (t : Text) → IsWord t → Clean is_newline t
IsWord-Clean [] h = tt
IsWord-Clean (c ∷ t) h = (ground (arith, h.0), IsWord-Clean t h.1)

line-Clean : (l : Lib) → IsLine l → Clean is_newline (line_of l)
line-Clean l k =
    let last = IsWord-Clean l.path k.path_word in
    let third_word =
      Clean-append is_newline l.mark (b' ' ∷ l.path) (IsWord-Clean l.mark k.mark_word)
        (refl, last) in
    let second =
      Clean-append is_newline l.type (b' ' ∷ (l.mark ++ b' ' ∷ l.path))
        (IsWord-Clean l.type k.type_word) (refl, third_word) in
    Clean-append is_newline l.name (b' ' ∷ (l.type ++ b' ' ∷ (l.mark ++ b' ' ∷ l.path)))
      (IsWord-Clean l.name k.name_word) (refl, second)

rounds_at-newline : (t : Text) → (rounds_at (b'\n' ∷ t)).1 ≡ some (0, (rounds_at t).0)
unfolding rounds_at
rounds_at-newline t = refl

pub line_end :
    (l : Lib) (t : Text)
    → IsLine l
    → (rounds_at (line_of l ++ b'\n' ∷ t)).1 ≡ some (length (line_of l), (rounds_at t).0)
line_end l t k =
    rounds_at-append (line_of l) (b'\n' ∷ t) (line-Clean l k)
    ∙ ap (lengthen (length (line_of l))) (rounds_at-newline t)
    ∙ ap (λ n. some (n, (rounds_at t).0)) (omega arith)

-- The rounds of the loop over a printed listing with a 0 behind it.
abbrev pub rounds_of : List Lib → Rounds
rounds_of [] = finished
rounds_of (l ∷ ls) =
    round (suc (length (line_of l))) (printed_libs (l ∷ ls) (0 ∷ [])) (rounds_of ls)

pub rounds_at-printed :
    (ls : List Lib) → AllLines ls → (rounds_at (printed_libs ls (0 ∷ []))).0 ≡ rounds_of ls
unfolding rounds_at
rounds_at-printed [] h = refl
rounds_at-printed (l ∷ ls) h =
    rw (line_end l (printed_libs ls (0 ∷ [])) h.0, rounds_at-printed ls h.1) refl

-- The first line stands behind its tab.
pub round_at :
    (start : Text) (n : ℕ) (rs : Rounds)
    → StartsText start
    → (rounds_at start).1 ≡ some (n, rs)
    → (rounds_at start).0 ≡ round n start rs
unfolding rounds_at
round_at [] n rs h e = absurd h
round_at (c ∷ t) n rs h e = let no : (c == 0) ≡ false = ground arith in rw no (ap (begin (c ∷ t)) e)

pub starts-append : (n t : Text) → StartsText n → StartsText (n ++ t)
starts-append [] t h = absurd h
starts-append (c ∷ n) t h = h

pub starts-filled : (n : Text) → StartsText n → is_nil n ≡ false
starts-filled [] h = absurd h
starts-filled (c ∷ n) h = refl

c_string-line :
    (l : Lib) (t u : Text)
    → IsLine l
    → c_string t ≡ some u
    → c_string (line_of l ++ b'\n' ∷ t) ≡ some (line_of l ++ b'\n' ∷ u)
c_string-line l t u k e =
    c_string-through (line_of l) (b'\n' ∷ t) (b'\n' ∷ u) k.clean (unfold c_string in rw e refl)

pub c_string-printed :
    (ls : List Lib) → AllLines ls → c_string (printed_libs ls (0 ∷ [])) ≡ some (printed_libs ls [])
unfolding c_string
c_string-printed [] h = refl
c_string-printed (l ∷ ls) h =
    rw
      (c_string-line l (printed_libs ls (0 ∷ [])) (printed_libs ls []) h.0
        (c_string-printed ls h.1))
      refl

-- The same from behind the first tab.
pub c_string-first :
    (l : Lib) (ls : List Lib)
    → AllLines (l ∷ ls)
    → c_string (line_of l ++ b'\n' ∷ printed_libs ls (0 ∷ []))
      ≡ some (line_of l ++ b'\n' ∷ printed_libs ls [])
c_string-first l ls h =
    c_string-line l (printed_libs ls (0 ∷ [])) (printed_libs ls []) h.0 (c_string-printed ls h.1)

pub printed-append : (ls : List Lib) (t : Text) → printed_libs ls [] ++ t ≡ printed_libs ls t
printed-append [] t = refl
printed-append (l ∷ ls) t = ap (◌∷◌ b'\t') (
    append_assoc (line_of l) (b'\n' ∷ printed_libs ls []) t
    ∙ ap (λ u. line_of l ++ b'\n' ∷ u) (printed-append ls t))
