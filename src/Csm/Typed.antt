-- ===== src/Csm/Typed.antt =====
-- What `fgets` makes of the lines that are typed to src/csm/csm.c.
use dkmp.Base.{
  ℕ, zero, suc, ◌<◌, ◌≤◌, ◌≡◌, refl, ap, ◌∙◌, false, [], ◌∷◌, ◌++◌, append-nil, arith, ◌==◌, length,
  Text, IsCString, ◌-◌, List,
}
use dkmp.Base.Scan.{IsWord}
use dkmp.Csc.{is_newline, cut}
use dkmp.Csc.Words.{Clean, cut-append}
use dkmp.Csm.{pieces, fgets_all, add_piece, put_char, ends_line, cut_line}

newline-pieces :
    (room : ℕ) (t : Text) → pieces room (b'\n' ∷ t) ≡ (b'\n' ∷ [], add_piece (pieces 4094 t))
unfolding pieces
newline-pieces room t = refl

char-pieces :
    (c room : ℕ) (t : Text)
    → (c == b'\n') ≡ false
    → pieces (suc room) (c ∷ t) ≡ put_char false c (pieces room t)
unfolding pieces
char-pieces c room t h =
    let more : (suc room == 0) ≡ false = ground arith in
    let left : suc room - 1 ≡ room = omega arith in rw (h, more, left) refl

line-pieces :
    (u t : Text) (room : ℕ)
    → Clean ends_line u
    → length u ≤ room
    → pieces room (u ++ b'\n' ∷ t) ≡ (u ++ b'\n' ∷ [], add_piece (pieces 4094 t))
line-pieces [] t room k h = newline-pieces room t
line-pieces (c ∷ u) t zero k h = absurd (omega (arith, h))
line-pieces (c ∷ u) t (suc room) k h =
    let other : (c == b'\n') ≡ false = ground (arith, k.0) in
    char-pieces c room (u ++ b'\n' ∷ t) other
    ∙ ap (put_char false c) (line-pieces u t room k.1 (omega (arith, h)))

add-line : (u : Text) (ls : List Text) → add_piece (u ++ b'\n' ∷ [], ls) ≡ (u ++ b'\n' ∷ []) ∷ ls
add-line [] ls = refl
add-line (c ∷ u) ls = refl

-- A line that fits the buffer is read whole.
pub fgets_all-line :
    (u t : Text)
    → Clean ends_line u
    → length u < 4095
    → fgets_all (u ++ b'\n' ∷ t) ≡ (u ++ b'\n' ∷ []) ∷ fgets_all t
unfolding fgets_all
fgets_all-line u t k h =
    ap add_piece (line-pieces u t 4094 k (omega (arith, h)))
    ∙ add-line u (add_piece (pieces 4094 t))

pub fgets_all_nil : fgets_all [] ≡ []
unfolding fgets_all pieces
fgets_all_nil = refl

pub cut_line-newline : (u : Text) → Clean ends_line u → cut_line (u ++ b'\n' ∷ []) ≡ u
unfolding cut_line cut
cut_line-newline u k = ap (λ p. p.0) (cut-append ends_line u (b'\n' ∷ []) k) ∙ append-nil u

pub text-Clean : (t : Text) → IsCString t → Clean is_newline t → Clean ends_line t
text-Clean [] h k = tt
text-Clean (c ∷ t) h k = (ground (arith, h.0, k.0), text-Clean t h.1 k.1)

pub word-Clean : (t : Text) → IsCString t → IsWord t → Clean ends_line t
word-Clean [] h k = tt
word-Clean (c ∷ t) h k = (ground (arith, h.0, k.0), word-Clean t h.1 k.1)
