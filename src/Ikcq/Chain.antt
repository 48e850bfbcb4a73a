-- ===== src/Ikcq/Chain.antt =====
-- The shape of a queue of src/ikcd/ikcq.c in memory.
use dkmp.Base.{
  ℕ, ◌≡◌, ◌≢◌, refl, ◌∙◌, Bool, true, false, ◌||◌, Option, some, List, [], ◌∷◌, ◌++◌, arith, ◌==◌,
  ==_iff,
}
use dkmp.Ikcq.{Cell, Heap, store, write, with_next, with_prev, Queue}

-- A queue as a list of cells: the address of each, and its request.
abbrev pub Cells : Type 0
Cells = List (ℕ × ℕ)

abbrev pub first_of : Cells → ℕ
first_of [] = 0
first_of ((a, r) ∷ xs) = a

abbrev pub last_of : ℕ → Cells → ℕ
last_of d [] = d
last_of d ((a, r) ∷ xs) = last_of a xs

unfoldable pub has : ℕ → Cells → Bool
has b [] = false
has b ((a, r) ∷ xs) = (a == b) || has b xs

-- The cells stand in memory one behind the other, each at its own address, and `pv` is before the
-- first.
abbrev pub Chain : Heap → Cells → (pv : ℕ) → Type 0
Chain h [] pv = Unit
Chain h ((a, r) ∷ xs) pv =
    (a ≢ 0)
    × (has a xs ≡ false)
    × (h a ≡ some (record { req = r; next = first_of xs; prev = pv }))
    × Chain h xs a

-- The head leads to the first cell, and the first cell's `prev` to the last one.
pub record IsQueue (q : Queue) (xs : Cells) : Type 0 where
  pub front : q.head ≡ first_of xs
  pub chain : Chain q.heap xs (last_of 0 xs)

pub store_self : (a : ℕ) (c : Option Cell) (h : Heap) → store a c h a ≡ c
unfolding store
store_self a c h = rw ((==_iff a a).1 refl) refl

pub store-other : (a b : ℕ) (c : Option Cell) (h : Heap) → (a == b) ≡ false → store a c h b ≡ h b
unfolding store
store-other a b c h e = rw e refl

-- A change of memory that the cells do not lie in.
pub Chain-frame :
    (a : ℕ) (c : Option Cell) (h : Heap) (xs : Cells) (pv : ℕ)
    → has a xs ≡ false
    → Chain h xs pv
    → Chain (store a c h) xs pv
unfolding has
Chain-frame a c h [] pv e k = tt
Chain-frame a c h ((b, r) ∷ xs) pv e k =
    let ne : (a == b) ≡ false = ground arith in
    (k.0, k.1, store-other a b c h ne ∙ k.2, Chain-frame a c h xs b (ground arith) k.3)

-- A new `prev` of the first cell.
abbrev pub head_cell : (r : ℕ) → Cells → (prev : ℕ) → Option Cell
head_cell r xs p = some (record { req = r; next = first_of xs; prev = p })

pub write-with_prev :
    (a r : ℕ) (h : Heap) (xs : Cells) (pv new : ℕ)
    → h a ≡ head_cell r xs pv
    → write a (with_prev new) h ≡ some (store a (head_cell r xs new) h)
unfolding write
write-with_prev a r h xs pv new e = rw e refl

pub Chain-with_prev :
    (a r : ℕ) (h : Heap) (xs : Cells) (pv new : ℕ)
    → Chain h ((a, r) ∷ xs) pv
    → Chain (store a (head_cell r xs new) h) ((a, r) ∷ xs) new
Chain-with_prev a r h xs pv new k = (
  k.0,
  k.1,
  store_self a (head_cell r xs new) h,
  Chain-frame a (head_cell r xs new) h xs a k.1 k.3,
)

-- The last cell is one of the cells.
pub last-other :
    (a b s : ℕ) (ys : Cells) → has a ((b, s) ∷ ys) ≡ false → (last_of b ys == a) ≡ false
unfolding has
last-other a b s [] e = ground arith
last-other a b s ((c, t) ∷ ys) e = last-other a c t ys (ground arith)

pub has-append : (a : ℕ) (xs ys : Cells) → has a (xs ++ ys) ≡ (has a xs || has a ys)
unfolding has
has-append a [] ys = refl
has-append a ((b, r) ∷ xs) ys = rw (has-append a xs ys) (or_assoc (b == a) (has a xs) (has a ys))
  where
    or_assoc : (x y z : Bool) → (x || (y || z)) ≡ ((x || y) || z)
    or_assoc true y z = refl
    or_assoc false y z = refl

pub last_of-snoc : (d f r : ℕ) (xs : Cells) → last_of d (xs ++ (f, r) ∷ []) ≡ f
last_of-snoc d f r [] = refl
last_of-snoc d f r ((a, s) ∷ xs) = last_of-snoc a f r xs

has-other : (a f r : ℕ) → (f == a) ≡ false → has a ((f, r) ∷ []) ≡ false
unfolding has
has-other a f r e = rw e refl

-- The last cell leads to a new one behind it.
pub Chain-snoc :
    (h : Heap) (a r : ℕ) (xs : Cells) (pv f req : ℕ)
    → Chain h ((a, r) ∷ xs) pv
    → f ≢ 0
    → has f ((a, r) ∷ xs) ≡ false
    → h f ≡ some (record { req = req; next = 0; prev = last_of a xs })
    → (c : Cell) × (h (last_of a xs) ≡ some c)
      × (c.next ≡ 0)
      × Chain (store (last_of a xs) (some (with_next f c)) h) ((a, r) ∷ (xs ++ (f, req) ∷ [])) pv
unfolding has
Chain-snoc h a r [] pv f req k nz new e =
    let c : Cell = record { req = r; next = 0; prev = pv } in
    let d = some (with_next f c) in
    (
      c,
      k.2,
      refl,
      (
        k.0,
        has-other a f req (ground arith),
        store_self a d h,
        (nz, refl, store-other a f d h (ground arith) ∙ e, tt),
      ),
    )
Chain-snoc h a r ((b, s) ∷ ys) pv f req k nz new e =
    let (c, found, ends, rest) = Chain-snoc h b s ys a f req k.3 nz (ground arith) e in
    let away = last-other a b s ys k.1 in
    (
      c,
      found,
      ends,
      (
        k.0,
        has-append a ((b, s) ∷ ys) ((f, req) ∷ [])
            ∙ rw (k.1, has-other a f req (ground arith)) refl,
        store-other (last_of b ys) a (some (with_next f c)) h away ∙ k.2,
        rest,
      ),
    )
