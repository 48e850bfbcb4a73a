-- ===== src/Csda/Choice.antt =====
-- The choice of the best of several nodes, apart from the database.
use dkmp.Base.{
  ℕ, ◌≤◌, ◌≡◌, refl, ◌⊎◌, inl, inr, Bool, true, false, Option, none, some, List, [], ◌∷◌, arith,
  ltb, Bool-cases, Text,
}
use dkmp.Csda.{better}

abbrev pub next_best : (alive : Bool) (good : ℕ) → Text → Option ℕ × Text → Option ℕ × Text
next_best true b n p = better b n p
next_best false b n p = p

-- What the search ends with: the largest goodness, if a node is alive, and the node that has it.
abbrev pub Within : Option ℕ → ℕ → Type 0
Within none m = Unit
Within (some k) m = k ≤ m

module _ (alive : Text → Bool) (good : Text → ℕ) where
  unfoldable pub best_of : List Text → Option ℕ × Text → Option ℕ × Text
  best_of [] p = p
  best_of (n ∷ ns) p = best_of ns (next_best (alive n) (good n) n p)

  abbrev pub AllDead : List Text → Type 0
  AllDead [] = Unit
  AllDead (n ∷ ns) = (alive n ≡ false) × AllDead ns

  abbrev pub NoneBetter : ℕ → List Text → Type 0
  NoneBetter m [] = Unit
  NoneBetter m (n ∷ ns) = (alive n ≡ true → good n ≤ m) × NoneBetter m ns

  -- One of the nodes, alive and of this goodness.
  abbrev pub Chosen : Text → ℕ → List Text → Type 0
  Chosen t m [] = ⊥
  Chosen t m (n ∷ ns) = ((t ≡ n) × (alive n ≡ true) × (good n ≡ m)) ⊎ Chosen t m ns

  abbrev pub Result : List Text → Option ℕ × Text → Option ℕ × Text → Type 0
  Result ns (max, best) (none, t) = (max ≡ none) × (t ≡ best) × AllDead ns
  Result ns (max, best) (some m, t) =
      NoneBetter m ns × Within max m × (((max ≡ some m) × (t ≡ best)) ⊎ Chosen t m ns)

  later :
      {A : Type 0} (t : Text) (m : ℕ) (n : Text) (ns : List Text)
      → (A ⊎ Chosen t m ns)
      → (A ⊎ Chosen t m (n ∷ ns))
  later t m n ns (inl k) = inl k
  later t m n ns (inr k) = inr (inr k)

  now :
      (t : Text) (m : ℕ) (n : Text) (ns : List Text)
      → alive n ≡ true
      → (((some (good n) ≡ some m) × (t ≡ n)) ⊎ Chosen t m ns)
      → Chosen t m (n ∷ ns)
  now t m n ns e (inl (k, l)) = inl (l, e, cc k)
  now t m n ns e (inr k) = inr k

  true-false : {b : Bool} → b ≡ true → b ≡ false → ⊥
  true-false e k = cc

  step_dead :
      (n : Text) (ns : List Text) (p q : Option ℕ × Text)
      → alive n ≡ false
      → Result ns p q
      → Result (n ∷ ns) p q
  step_dead n ns (max, best) (none, t) e h = (h.0, h.1, (e, h.2))
  step_dead n ns (max, best) (some m, t) e h =
      ((λ k. absurd (true-false k e), h.0), h.1, later t m n ns h.2)

  step_less :
      (n : Text) (ns : List Text) (k : ℕ) (best : Text) (q : Option ℕ × Text)
      → alive n ≡ true
      → ltb k (good n) ≡ true
      → Result ns (some (good n), n) q
      → Result (n ∷ ns) (some k, best) q
  step_less n ns k best (none, t) e less h = cc h.0
  step_less n ns k best (some m, t) e less h =
      ((λ _. h.1, h.0), ground (arith, h.1), inr (now t m n ns e h.2))

  step_more :
      (n : Text) (ns : List Text) (k : ℕ) (best : Text) (q : Option ℕ × Text)
      → ltb k (good n) ≡ false
      → Result ns (some k, best) q
      → Result (n ∷ ns) (some k, best) q
  step_more n ns k best (none, t) more h = cc h.0
  step_more n ns k best (some m, t) more h =
      ((λ _. ground (arith, h.1), h.0), h.1, later t m n ns h.2)

  step :
      (a : Bool) (n : Text) (ns : List Text) (p q : Option ℕ × Text)
      → alive n ≡ a
      → Result ns (next_best a (good n) n p) q
      → Result (n ∷ ns) p q
  step false n ns p q e h = step_dead n ns p q e h
  step true n ns (none, best) (none, t) e h = cc h.0
  step true n ns (none, best) (some m, t) e h = ((λ _. h.1, h.0), tt, inr (now t m n ns e h.2))
  step true n ns (some k, best) q e h = elim (Bool-cases (ltb k (good n))) [
    | inl less ↦ step_less n ns k best q e less (rw less at h)
    | inr more ↦ step_more n ns k best q more (rw more at h)
  ]

  pub best_of-Result : (ns : List Text) (p : Option ℕ × Text) → Result ns p (best_of ns p)
  unfolding best_of
  best_of-Result [] (none, best) = (refl, refl, tt)
  best_of-Result [] (some m, best) = (tt, omega arith, inl (refl, refl))
  best_of-Result (n ∷ ns) p =
      step (alive n) n ns p (best_of ns (next_best (alive n) (good n) n p)) refl
        (best_of-Result ns (next_best (alive n) (good n) n p))
