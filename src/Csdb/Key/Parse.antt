-- ===== src/Csdb/Key/Parse.antt =====
-- `csdb_parse_key` against a recursive description of the parts of a key.
use dkmp.Base.{
  ℕ, zero, suc, ◌+◌, ◌*◌, ◌≤◌, ◌≡◌, refl, ◌∙◌, inl, inr, Bool, true, false, some, List, [], ◌∷◌,
  ◌++◌, append-nil, append_assoc, arith, ◌==◌, if◌then◌else◌, Bool-cases, length, Text,
}
use dkmp.Csdb.Key.{scan}

-- The parts of what follows a dot. `fresh` says that nothing follows the dot yet: an empty part at
-- the very end is dropped.
unfoldable pub tokens : (fresh : Bool) → (token : Text) → Text → List Text
tokens fresh token [] = if fresh then [] else token ∷ []
tokens fresh token (c ∷ cs) = elim (c == b'.') [
  | true ↦ token ∷ tokens true [] cs
  | false ↦ tokens false (token ++ c ∷ []) cs
]

module _ (r : ℕ) (token : Text) (keys : List Text) where
  scan_dot :
      (c : ℕ) (cs : Text)
      → (c == b'.') ≡ true
      → scan (suc (suc r)) true (c ∷ cs) token keys ≡ scan r true cs [] (keys ++ token ∷ [])
  unfolding scan
  scan_dot c cs h = ground arith

  scan_end :
      (c d : ℕ) (ds : Text)
      → (c == b'.') ≡ false
      → (d == b'.') ≡ true
      → scan (suc (suc r)) true (c ∷ d ∷ ds) token keys
        ≡ scan r true ds [] (keys ++ (token ++ c ∷ []) ∷ [])
  unfolding scan
  scan_end c d ds h k = ground arith

  scan_char :
      (c d : ℕ) (ds : Text)
      → (c == b'.') ≡ false
      → (d == b'.') ≡ false
      → scan (suc r) true (c ∷ d ∷ ds) token keys ≡ scan r true (d ∷ ds) (token ++ c ∷ []) keys
  unfolding scan
  scan_char c d ds h k = ground arith

  scan_last :
      (c : ℕ)
      → (c == b'.') ≡ false
      → scan (suc (suc r)) true (c ∷ []) token keys ≡ some (keys ++ (token ++ c ∷ []) ∷ [])
  unfolding scan
  scan_last c h = ground arith

module _ (fresh : Bool) (token : Text) (c : ℕ) (cs : Text) where
  pub tokens_dot : (c == b'.') ≡ true → tokens fresh token (c ∷ cs) ≡ token ∷ tokens true [] cs
  unfolding tokens
  tokens_dot h = ground arith

  pub tokens_char :
      (c == b'.') ≡ false → tokens fresh token (c ∷ cs) ≡ tokens false (token ++ c ∷ []) cs
  unfolding tokens
  tokens_char h = ground arith

-- With enough rounds the machine in a token stores the parts of the rest behind those it has.
pub scan-tokens :
    (cs : Text) (rounds : ℕ) (fresh : Bool) (token : Text) (keys : List Text)
    → (cs ≡ [] → fresh ≡ true)
    → 2 * length cs + 1 ≤ rounds
    → scan rounds true cs token keys ≡ some (keys ++ tokens fresh token cs)
scan-tokens cs zero fresh token keys e h = absurd (omega arith)
scan-tokens [] (suc r) fresh token keys e h = unfold scan tokens in rw (e refl, append-nil)
scan-tokens (c ∷ cs) (suc zero) fresh token keys e h = absurd (omega arith)
scan-tokens (c ∷ []) (suc (suc r)) fresh token keys e h = elim (Bool-cases (c == b'.')) [
  | inl dot ↦
      rw (scan_dot r token keys c [] dot, tokens_dot fresh token c [] dot)
        (scan-tokens [] r true [] (keys ++ token ∷ []) (λ _. refl) (omega arith) ∙ rw append_assoc)
  | inr other ↦
      rw (scan_last r token keys c other, tokens_char fresh token c [] other)
        (unfold tokens in refl)
]
scan-tokens (c ∷ d ∷ ds) (suc (suc r)) fresh token keys e h = elim (Bool-cases (c == b'.')) [
  | inl dot ↦
      rw (scan_dot r token keys c (d ∷ ds) dot, tokens_dot fresh token c (d ∷ ds) dot)
        (scan-tokens (d ∷ ds) r true [] (keys ++ token ∷ []) (λ _. refl) (omega arith)
          ∙ rw append_assoc)
  | inr other ↦ rw (tokens_char fresh token c (d ∷ ds) other) (elim (Bool-cases (d == b'.')) [
    | inl dot ↦
        rw (scan_end r token keys c d ds other dot, tokens_dot false (token ++ c ∷ []) d ds dot)
          (scan-tokens ds r true [] (keys ++ (token ++ c ∷ []) ∷ []) (λ _. refl) (omega arith)
            ∙ rw append_assoc)
    | inr more ↦
        rw (scan_char (suc r) token keys c d ds other more)
          (scan-tokens (d ∷ ds) (suc r) false (token ++ c ∷ []) keys (λ p. cc) (omega arith))
  ])
]
