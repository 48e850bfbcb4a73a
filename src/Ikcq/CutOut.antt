-- ===== src/Ikcq/CutOut.antt =====
-- The cells of a queue of src/ikcd/ikcq.c from which one is taken out, behind another one.
use dkmp.Base.{ℕ, ◌≡◌, refl, sym, ◌∙◌, Bool, true, false, ◌||◌, some, [], ◌∷◌, ◌++◌, arith, ◌==◌}
use dkmp.Ikcq.{Cell, Heap, store, with_next}
use dkmp.Ikcq.Chain.{
  Cells, first_of, last_of, has, Chain, store_self, store-other, Chain-frame, head_cell,
  Chain-with_prev, last-other, has-append,
}

-- The memory after the cell behind has got its new `prev`.
abbrev pub relinked : Heap → Cells → (prev : ℕ) → Heap
relinked h [] p = h
relinked h ((b, t) ∷ zs) p = store b (head_cell t zs p) h

relinked-other : (h : Heap) (zs : Cells) (p y : ℕ) → has y zs ≡ false → relinked h zs p y ≡ h y
unfolding has
relinked-other h [] p y e = refl
relinked-other h ((b, t) ∷ zs) p y e = store-other b y (head_cell t zs p) h (ground arith)

Chain-relinked : (h : Heap) (zs : Cells) (pv p : ℕ) → Chain h zs pv → Chain (relinked h zs p) zs p
Chain-relinked h [] pv p k = tt
Chain-relinked h ((b, t) ∷ zs) pv p k = Chain-with_prev b t h zs pv p k

or_false : (x y z : Bool) → (x || (y || z)) ≡ false → (x ≡ false) × (y ≡ false) × (z ≡ false)
or_false false false false e = (refl, refl, refl)
or_false true y z e = cc e
or_false false true z e = cc e
or_false false false true e = cc e

pub parts_free :
    (y a r : ℕ) (ys zs : Cells)
    → has y (ys ++ (a, r) ∷ zs) ≡ false
    → (has y ys ≡ false) × ((a == y) ≡ false) × (has y zs ≡ false) × (has y (ys ++ zs) ≡ false)
unfolding has
parts_free y a r ys zs e =
    let (one, two, three) =
      or_false (has y ys) (a == y) (has y zs) (sym (has-append y ys ((a, r) ∷ zs)) ∙ e) in
    (one, two, three, has-append y ys zs ∙ rw (one, three) refl)

has_cons :
    (a y s : ℕ) (xs : Cells) → (a == y) ≡ false → has a xs ≡ false → has a ((y, s) ∷ xs) ≡ false
unfolding has
has_cons a y s xs e k = ground arith

-- What taking a cell out from behind another one leaves.
pub record CutOut (h : Heap) (y s : ℕ) (ys : Cells) (a r : ℕ) (zs : Cells) (pv : ℕ) : Type 0 where
  pub before : Cell
  pub found : relinked h zs (last_of y ys) (last_of y ys) ≡ some before
  pub chain :
      Chain
        (store
          (last_of y ys)
          (some (with_next (first_of zs) before))
          (relinked h zs (last_of y ys)))
        ((y, s) ∷ (ys ++ zs))
        pv
  pub here : h a ≡ head_cell r zs (last_of y ys)
  pub behind : Chain h zs a
  pub away : has a ((y, s) ∷ (ys ++ zs)) ≡ false
  pub apart : has a zs ≡ false

pub cut_out :
    (h : Heap) (y s : ℕ) (ys : Cells) (a r : ℕ) (zs : Cells) (pv : ℕ)
    → Chain h ((y, s) ∷ (ys ++ (a, r) ∷ zs)) pv
    → CutOut h y s ys a r zs pv
unfolding has
cut_out h y s [] a r zs pv k =
    let free : has y zs ≡ false = ground (arith, k.1) in
    let c : Cell = record { req = s; next = a; prev = pv } in
    let d = some (with_next (first_of zs) c) in
    let h1 = relinked h zs y in
    record {
      before = c;
      found = relinked-other h zs y y free ∙ k.2;
      chain = (
        k.0,
        free,
        store_self y d h1,
        Chain-frame y d h1 zs y free (Chain-relinked h zs a y k.3.3),
      );
      here = k.3.2;
      behind = k.3.3;
      away = ground (arith, k.1, k.3.1);
      apart = k.3.1;
    }
cut_out h y s ((z, u) ∷ ys) a r zs pv k =
    let rest = cut_out h z u ys a r zs y k.3 in
    let p = last_of z ys in
    let (first_part, other, free, clear) = parts_free y a r ((z, u) ∷ ys) zs k.1 in
    let h1 = relinked h zs p in
    record {
      before = rest.before;
      found = rest.found;
      chain = (
        k.0,
        clear,
        store-other p y (some (with_next (first_of zs) rest.before)) h1
              (last-other y z u ys first_part)
            ∙ relinked-other h zs p y free
            ∙ k.2,
        rest.chain,
      );
      here = rest.here;
      behind = rest.behind;
      away = has_cons a y s ((z, u) ∷ (ys ++ zs)) other rest.away;
      apart = rest.apart;
    }
