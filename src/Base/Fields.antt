-- ===== src/Base/Fields.antt =====
-- What `sscanf` reads with several words in one format.
use mathlib.Core.Path.{◌≡◌, refl}
use mathlib.Core.Bool.{Bool, true, false}
use mathlib.Core.Option.{Option, none, some}
use mathlib.Core.List.{[], ◌∷◌, ◌++◌}
use dkmp.Base.Tests.{if◌then◌else◌, Text}
use dkmp.Base.Scan.{is_blank, skip_blanks, word, filled, IsWord, word_lem}

unfoldable pub behind_word : Text → Text
behind_word [] = []
behind_word (c ∷ t) = if is_blank c then c ∷ t else behind_word t

-- What `sscanf` reads with "%s %s", across the ends of lines; a word that is not there leaves its
-- buffer as it was.
abbrev pub or_before : Option Text → Option Text → Option Text
or_before none before = before
or_before (some w) before = some w

unfoldable pub read_words : Text → (name type : Option Text) → Option Text × Option Text
read_words t name type =
    let behind = behind_word (skip_blanks t) in
    (
      or_before (filled (word (skip_blanks t))) name,
      or_before (filled (word (skip_blanks behind))) type,
    )

-- Not empty.
abbrev pub is_nil : Text → Bool
is_nil [] = true
is_nil (c ∷ t) = false

pub skip_blanks-word : (n t : Text) → is_nil n ≡ false → IsWord n → skip_blanks (n ++ t) ≡ n ++ t
unfolding skip_blanks
skip_blanks-word [] t h w = cc h
skip_blanks-word (c ∷ n) t h w = rw w.0 refl

pub skip_blanks-blank : (t : Text) → skip_blanks (b' ' ∷ t) ≡ skip_blanks t
unfolding skip_blanks
skip_blanks-blank t = refl

pub word-append : (n t : Text) → IsWord n → word (n ++ b' ' ∷ t) ≡ n
unfolding word
word-append [] t w = refl
word-append (c ∷ n) t w = rw (w.0, word-append n t w.1) refl

pub behind_word-append : (n t : Text) → IsWord n → behind_word (n ++ b' ' ∷ t) ≡ b' ' ∷ t
unfolding behind_word
behind_word-append [] t w = refl
behind_word-append (c ∷ n) t w = rw w.0 (behind_word-append n t w.1)

pub filled_lem : (n : Text) → is_nil n ≡ false → filled n ≡ some n
filled_lem [] h = cc h
filled_lem (c ∷ n) h = refl

pub read_words-append :
    (n m t : Text) (before type : Option Text)
    → is_nil n ≡ false
    → IsWord n
    → is_nil m ≡ false
    → IsWord m
    → read_words (n ++ b' ' ∷ (m ++ b' ' ∷ t)) before type ≡ (some n, some m)
unfolding read_words
read_words-append n m t before type h w k v =
    let rest = m ++ b' ' ∷ t in
    rw
      (
        skip_blanks-word n (b' ' ∷ rest) h w,
        word-append n rest w,
        behind_word-append n rest w,
        skip_blanks-blank rest,
        skip_blanks-word m (b' ' ∷ t) k v,
        word-append m t v,
        filled_lem n h,
        filled_lem m k,
      )
      refl

skip_blanks-last : (n : Text) → is_nil n ≡ false → IsWord n → skip_blanks n ≡ n
unfolding skip_blanks
skip_blanks-last [] h w = refl
skip_blanks-last (c ∷ n) h w = rw w.0 refl

behind_word-last : (n : Text) → IsWord n → behind_word n ≡ []
unfolding behind_word
behind_word-last [] w = refl
behind_word-last (c ∷ n) w = rw w.0 (behind_word-last n w.1)

-- The second word may end the text.
pub read_words-last :
    (n m : Text) (before type : Option Text)
    → is_nil n ≡ false
    → IsWord n
    → is_nil m ≡ false
    → IsWord m
    → read_words (n ++ b' ' ∷ m) before type ≡ (some n, some m)
unfolding read_words
read_words-last n m before type h w k v =
    rw
      (
        skip_blanks-word n (b' ' ∷ m) h w,
        word-append n m w,
        behind_word-append n m w,
        skip_blanks-blank m,
        skip_blanks-last m k v,
        word_lem m v,
        filled_lem n h,
        filled_lem m k,
      )
      refl

-- What stands behind two words, with the blanks before it passed over.
abbrev pub third : Text → Text
third t = skip_blanks (behind_word (skip_blanks (behind_word (skip_blanks t))))

-- It does not begin with a blank.
abbrev pub IsTyped : Text → Type 0
IsTyped [] = ⊥
IsTyped (c ∷ t) = is_blank c ≡ false

skip_blanks-typed : (t : Text) → IsTyped t → skip_blanks t ≡ t
unfolding skip_blanks
skip_blanks-typed [] h = absurd h
skip_blanks-typed (c ∷ t) h = rw h refl

pub third-append :
    (n m t : Text)
    → is_nil n ≡ false
    → IsWord n
    → is_nil m ≡ false
    → IsWord m
    → IsTyped t
    → third (n ++ b' ' ∷ (m ++ b' ' ∷ t)) ≡ t
third-append n m t h w k v typed =
    let rest = m ++ b' ' ∷ t in
    rw
      (
        skip_blanks-word n (b' ' ∷ rest) h w,
        behind_word-append n rest w,
        skip_blanks-blank rest,
        skip_blanks-word m (b' ' ∷ t) k v,
        behind_word-append m t v,
        skip_blanks-blank t,
      )
      (skip_blanks-typed t typed)

pub third-last :
    (n m : Text)
    → is_nil n ≡ false
    → IsWord n
    → is_nil m ≡ false
    → IsWord m
    → third (n ++ b' ' ∷ m) ≡ []
third-last n m h w k v =
    rw
      (
        skip_blanks-word n (b' ' ∷ m) h w,
        behind_word-append n m w,
        skip_blanks-blank m,
        skip_blanks-last m k v,
        behind_word-last m v,
      )
      (unfold skip_blanks in refl)

pub filled-typed : (t : Text) → IsTyped t → filled t ≡ some t
filled-typed [] h = absurd h
filled-typed (c ∷ t) h = refl
