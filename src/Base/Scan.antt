-- ===== src/Base/Scan.antt =====
-- What `sscanf` reads with "%d" and with "%s".
use Prim.Native.Nat.{ℕ, zero, suc, ◌+◌, ◌-◌, ◌*◌}
use mathlib.Core.Path.{◌≡◌, refl}
use mathlib.Core.Bool.{Bool, true, false, ◌&&◌, ◌||◌}
use mathlib.Core.Option.{Option, none, some}
use mathlib.Core.List.{[], ◌∷◌}
use native.Mathlib.Omega.{arith}
use dkmp.Base.Int.{ℤ, pos, negsuc}
use dkmp.Base.Tests.{◌==◌, leb, if◌then◌else◌, Text}

-- `isspace` of an ASCII character.
abbrev pub is_blank : ℕ → Bool
is_blank c = c == b' ' || (leb 9 c && leb c 13)

abbrev pub is_digit : ℕ → Bool
is_digit c = leb b'0' c && leb c b'9'

unfoldable pub skip_blanks : Text → Text
skip_blanks [] = []
skip_blanks (c ∷ t) = if is_blank c then skip_blanks t else c ∷ t

-- The number that the digits continue, and what is behind them.
unfoldable pub read_digits : (so_far : ℕ) → Text → ℕ × Text
read_digits n [] = (n, [])
read_digits n (c ∷ t) =
    let rest = read_digits (n * 10 + (c - b'0')) t in if is_digit c then rest else (n, c ∷ t)

abbrev pub negated : ℕ → ℤ
negated zero = pos 0
negated (suc n) = negsuc n

abbrev pub starts_with_digit : Text → Bool
starts_with_digit [] = false
starts_with_digit (c ∷ t) = is_digit c

abbrev pub unsigned : (minus : Bool) → Text → Option (ℤ × Text)
unsigned minus t =
    if starts_with_digit t
    then some (
      if minus then negated (read_digits 0 t).0 else pos (read_digits 0 t).0,
      (read_digits 0 t).1,
    )
    else none

abbrev pub signed : Text → Option (ℤ × Text)
signed [] = none
signed (c ∷ t) =
    if c == b'-'
    then unsigned true t
    else if c == b'+'
    then unsigned false t
    else unsigned false (c ∷ t)

unfoldable pub scan_int : Text → Option (ℤ × Text)
scan_int t = signed (skip_blanks t)

-- The characters up to the next blank.
unfoldable pub word : Text → Text
word [] = []
word (c ∷ t) = let rest = word t in if is_blank c then [] else c ∷ rest

abbrev pub filled : Text → Option Text
filled [] = none
filled (c ∷ t) = some (c ∷ t)

unfoldable pub scan_word : Text → Option Text
scan_word t = filled (word (skip_blanks t))

-- No blank inside.
abbrev pub IsWord : Text → Type 0
IsWord [] = Unit
IsWord (c ∷ t) = (is_blank c ≡ false) × IsWord t

pub word_lem : (t : Text) → IsWord t → word t ≡ t
unfolding word
word_lem [] w = refl
word_lem (c ∷ t) w = ground (arith, word_lem t w.1)

pub scan_word-IsWord : (c : ℕ) (t : Text) → IsWord (c ∷ t) → scan_word (b' ' ∷ c ∷ t) ≡ some (c ∷ t)
unfolding scan_word skip_blanks
scan_word-IsWord c t w = rw (w.0, word_lem (c ∷ t) w) refl
