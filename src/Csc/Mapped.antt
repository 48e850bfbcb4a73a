-- ===== src/Csc/Mapped.antt =====
-- Files that src/csd/csc.c maps to memory.
use dkmp.Base.{
  ℕ, ◌%◌, ◌≡◌, refl, false, none, some, Option, [], ◌∷◌, ◌++◌, arith, ◌==◌, length, Text, inl, inr,
  Bool-cases, c_string, IsCString, c_string-append,
}
use dkmp.Csdb.Key.{count_delims}
use dkmp.Csdb.Key.Names.{IsName}
use dkmp.Csc.{page_size, padded}

-- A 0 stands behind the file.
abbrev pub HasPadding : Text → Type 0
HasPadding file = (length file % page_size == 0) ≡ false

abbrev pub HasPaddingIfThere : Option Text → Type 0
HasPaddingIfThere none = Unit
HasPaddingIfThere (some file) = HasPadding file

pub padded_lem : (file : Text) → HasPadding file → padded file ≡ file ++ 0 ∷ []
unfolding padded
padded_lem file h = rw h refl

pub c_string-padded :
    (file : Text) → HasPadding file → IsCString file → c_string (padded file) ≡ some file
c_string-padded file h k = rw (padded_lem file h) (c_string-append file [] k)

tail-IsName : (c : ℕ) (t : Text) → IsName (c ∷ t) → IsName t
unfolding count_delims
tail-IsName c t h = ground (arith, h)

cons-IsName : (c : ℕ) (m t : Text) → IsName (c ∷ m) → IsName t → IsName (c ∷ t)
unfolding count_delims
cons-IsName c m t h k = ground (arith, h, k)

-- What stands before the first 0 holds no '.' if the file holds none.
pub c_string-IsName :
    (m : Text) → (t : Text) × (c_string (m ++ 0 ∷ []) ≡ some t) × (IsName m → IsName t)
unfolding c_string
c_string-IsName [] = ([], refl, λ h. h)
c_string-IsName (c ∷ m) = elim (Bool-cases (c == 0)) [
  | inl zero_byte ↦ ([], rw zero_byte refl, λ h. unfold count_delims in refl)
  | inr other ↦
      let (t, e, k) = c_string-IsName m in
      (c ∷ t, rw (other, e) refl, λ h. cons-IsName c m t h (k (tail-IsName c m h)))
]

pub c_string-through :
    (u rest t : Text) → IsCString u → c_string rest ≡ some t → c_string (u ++ rest) ≡ some (u ++ t)
unfolding c_string
c_string-through [] rest t h e = e
c_string-through (c ∷ u) rest t h e =
    let other : (c == 0) ≡ false = ground (arith, h.0) in
    rw (other, c_string-through u rest t h.1 e) refl
