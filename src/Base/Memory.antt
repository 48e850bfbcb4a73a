-- ===== src/Base/Memory.antt =====
-- Bytes in memory: what `memcpy` of a `short` or an `int` reads and writes on the little-endian
-- machine of the code, and the C string that a pointer leads to.
use Prim.Native.Nat.{ℕ, zero, suc, ◌+◌, ◌*◌, ◌/◌, ◌%◌, ◌<◌}
use mathlib.Core.Path.{◌≡◌, refl}
use mathlib.Core.Logic.{◌≢◌}
use mathlib.Core.Option.{Option, none, some}
use mathlib.Core.List.{List, [], ◌∷◌, ◌++◌}
use native.Mathlib.Omega.{arith}
use dkmp.Base.Lists.{length}
use dkmp.Base.Tests.{◌==◌, if◌then◌else◌, Text}

abbrev pub Bytes : Type 0
Bytes = List ℕ

-- An `unsigned short int` keeps the low 16 bits, a `pid_t` the low 32 bits of a number.
abbrev pub u16 : ℕ → ℕ
u16 n = n % 65536

unfoldable pub le16 : ℕ → Bytes
le16 n = n % 256 ∷ n / 256 % 256 ∷ []

unfoldable pub le32 : ℕ → Bytes
le32 n = n % 256 ∷ n / 256 % 256 ∷ n / 65536 % 256 ∷ n / 16777216 % 256 ∷ []

-- A read past the end of the memory has no result.
unfoldable pub read16 : Bytes → Option (ℕ × Bytes)
read16 (a ∷ b ∷ rest) = some (a + 256 * b, rest)
read16 _ = none

unfoldable pub read32 : Bytes → Option (ℕ × Bytes)
read32 (a ∷ b ∷ c ∷ d ∷ rest) = some (a + 256 * b + 65536 * c + 16777216 * d, rest)
read32 _ = none

-- The first `n` bytes and what follows them.
unfoldable pub split_at : ℕ → Bytes → Option (Bytes × Bytes)
split_at zero m = some ([], m)
split_at (suc n) [] = none
split_at (suc n) (b ∷ m) = elim (split_at n m) [ none ↦ none | some (x, y) ↦ some (b ∷ x, y) ]

-- The bytes up to the first 0.
unfoldable pub c_string : Bytes → Option Text
c_string [] = none
c_string (b ∷ m) =
    let rest = c_string m in
    if b == 0 then some [] else elim rest [ none ↦ none | some t ↦ some (b ∷ t) ]

-- No 0 inside: what a C string can be.
abbrev pub IsCString : Text → Type 0
IsCString [] = Unit
IsCString (b ∷ t) = (b ≢ 0) × IsCString t

pub read16-le16 : (n : ℕ) (rest : Bytes) → n < 65536 → read16 (le16 n ++ rest) ≡ some (n, rest)
unfolding read16 le16
read16-le16 n rest h = ground arith

pub read32-le32 : (n : ℕ) (rest : Bytes) → n < 4294967296 → read32 (le32 n ++ rest) ≡ some (n, rest)
unfolding read32 le32
read32-le32 n rest h = ground arith

pub split_at-append : (a b : Bytes) → split_at (length a) (a ++ b) ≡ some (a, b)
unfolding split_at
split_at-append [] b = refl
split_at-append (x ∷ a) b = rw (split_at-append a b) refl

pub c_string-append : (t : Text) (rest : Bytes) → IsCString t → c_string (t ++ 0 ∷ rest) ≡ some t
unfolding c_string
c_string-append [] rest h = refl
c_string-append (b ∷ t) rest h = ground (arith, c_string-append t rest h.1)
