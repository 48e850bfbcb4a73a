-- ===== src/Csc/Listing/Fits.antt =====
-- A line of the listing in the buffers of `csc_scan_libs`, src/csd/csc.c: what `sscanf` reads in it.
use dkmp.Base.{
  ℕ, ◌+◌, ◌≤◌, ◌≡◌, refl, true, Option, some, [], ◌∷◌, ◌++◌, append_assoc, leb, length,
  length-append, Text, ℤ, arith,
}
use dkmp.Base.Scan.{word, skip_blanks, IsWord}
use dkmp.Base.Fields.{
  IsTyped, skip_blanks-word, skip_blanks-blank, behind_word-append, read_words, read_words-append,
  third-append,
}
use dkmp.Csdb.Store.{Op, ◌>>◌}
use dkmp.Csc.{scan_lib}
use dkmp.Csc.Listing.{fits_buffers, path_word, scan_start}
use dkmp.Csc.Listing.Printed.{Lib, line_of, IsLine, starts-filled}

abbrev line_text : Lib → Text → Text
line_text l t = line_of l ++ b'\n' ∷ t

-- The words of a line.
abbrev spread : Lib → Text → Text
spread l t = l.name ++ b' ' ∷ (l.type ++ b' ' ∷ (l.mark ++ b' ' ∷ (l.path ++ b'\n' ∷ t)))

line_words : (l : Lib) (t : Text) → line_text l t ≡ spread l t
line_words l t = simp append_assoc

word-line : (n t : Text) → IsWord n → word (n ++ b'\n' ∷ t) ≡ n
unfolding word
word-line [] t w = refl
word-line (c ∷ n) t w = rw (w.0, word-line n t w.1) refl

read_spread :
    (l : Lib) (t : Text) (name type : Option Text)
    → IsLine l
    → read_words (spread l t) name type ≡ (some l.name, some l.type)
read_spread l t name type k =
    read_words-append l.name l.type (l.mark ++ b' ' ∷ (l.path ++ b'\n' ∷ t)) name type
      (starts-filled l.name k.name_starts) k.name_word k.type_filled k.type_word

mark-append : (m t : Text) → IsTyped m → IsTyped (m ++ t)
mark-append [] t h = absurd h
mark-append (c ∷ m) t h = h

path_spread : (l : Lib) (t : Text) → IsLine l → path_word (spread l t) ≡ l.path
path_spread l t k =
    let behind = l.path ++ b'\n' ∷ t in
    rw
      (
        third-append l.name l.type (l.mark ++ b' ' ∷ behind) (starts-filled l.name k.name_starts)
            k.name_word k.type_filled k.type_word (mark-append l.mark (b' ' ∷ behind) k.mark_typed),
        behind_word-append l.mark behind k.mark_word,
        skip_blanks-blank behind,
        skip_blanks-word l.path (b'\n' ∷ t) k.path_filled k.path_word,
      )
      (word-line l.path t k.path_word)

length-line :
    (l : Lib)
    → length (line_of l) ≡ length l.name + length l.type + length l.mark + length l.path + 3
length-line l = omega (
  arith,
  length-append l.name (b' ' ∷ (l.type ++ b' ' ∷ (l.mark ++ b' ' ∷ l.path))),
  length-append l.type (b' ' ∷ (l.mark ++ b' ' ∷ l.path)),
  length-append l.mark (b' ' ∷ l.path),
)

short : (n : ℕ) → n ≤ 255 → leb n 255 ≡ true
short n h = ground arith

fits-spread : (n : ℕ) (l : Lib) (t : Text) → IsLine l → n ≤ 255 → fits_buffers n (spread l t) ≡ true
unfolding fits_buffers
fits-spread n l t k h =
    let len = length-line l in
    rw
      (
        read_spread l t _ _ k,
        path_spread l t k,
        short n h,
        short (length l.name) (omega (arith, len, k.short)),
        short (length l.type) (omega (arith, len, k.short)),
        short (length l.path) (omega (arith, len, k.short)),
      )
      refl

-- A line is stored as its name and its type.
pub scan_start-line :
    (n : ℕ) (l : Lib) (t : Text) (now : ℕ) (name type : Option Text)
    (next : Option Text × Option Text → Op ℤ)
    → IsLine l
    → n ≤ 255
    → scan_start n (some (line_text l t)) now (name, type) next
      ≡ (scan_lib l.name l.type now >> next (some l.name, some l.type))
scan_start-line n l t now name type next k h =
    rw (line_words l t, fits-spread n l t k h, read_spread l t name type k) refl

fits-tab : (n : ℕ) (t : Text) → fits_buffers n (b'\t' ∷ t) ≡ fits_buffers n t
unfolding fits_buffers read_words skip_blanks
fits-tab n t = refl

read_words-tab :
    (t : Text) (name type : Option Text) → read_words (b'\t' ∷ t) name type ≡ read_words t name type
unfolding read_words skip_blanks
read_words-tab t name type = refl

pub scan_start-tab :
    (n : ℕ) (l : Lib) (t : Text) (now : ℕ) (name type : Option Text)
    (next : Option Text × Option Text → Op ℤ)
    → IsLine l
    → n ≤ 255
    → scan_start n (some (b'\t' ∷ line_text l t)) now (name, type) next
      ≡ (scan_lib l.name l.type now >> next (some l.name, some l.type))
scan_start-tab n l t now name type next k h =
    rw (fits-tab n (line_text l t), read_words-tab (line_text l t) name type)
      (scan_start-line n l t now name type next k h)
