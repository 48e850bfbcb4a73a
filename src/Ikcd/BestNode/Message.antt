-- ===== src/Ikcd/BestNode/Message.antt =====
-- The message that src/ikcd/ikcr.c prints is what src/csd/csda.c scans.
use dkmp.Base.{
  ℕ, zero, suc, ◌+◌, ◌-◌, ◌*◌, ◌/◌, ◌%◌, ◌≡◌, refl, ap, ◌∙◌, inl, inr, true, some, [], ◌∷◌, ◌++◌,
  arith, ◌==◌, Bool-cases, Text, pos,
}
use dkmp.Base.Scan.{is_digit, read_digits, skip_blanks, scan_int, IsWord, scan_word-IsWord}
use dkmp.Csc.System.{digits, decimal}
use dkmp.Csda.Server.{Server, scanned}
use dkmp.Ikcd.BestNode.{request_text}

-- At most so many digits.
abbrev pub Below : (rounds : ℕ) → ℕ → Type 0
Below zero n = n ≡ 0
Below (suc r) n = Below r (n / 10)

read_step :
    (k n : ℕ) (behind : Text)
    → read_digits k ((b'0' + n % 10) ∷ behind) ≡ read_digits (k * 10 + n % 10) behind
unfolding read_digits
read_step k n behind =
    let d : is_digit (b'0' + n % 10) ≡ true = ground arith in
    let e : k * 10 + (b'0' + n % 10 - b'0') ≡ k * 10 + n % 10 = omega arith in rw (d, e) refl

read-digits :
    (r n : ℕ) (behind : Text) → Below r n → read_digits 0 (digits r n behind) ≡ read_digits n behind
unfolding digits
read-digits zero n behind b = rw b refl
read-digits (suc r) n behind b = elim (Bool-cases (n / 10 == 0)) [
  | inl last ↦
      let e : 0 * 10 + n % 10 ≡ n = ground (arith, last) in
      rw last (read_step 0 n behind ∙ rw e refl)
  | inr more ↦
      let e : n / 10 * 10 + n % 10 ≡ n = omega arith in
      rw more (
        read-digits r (n / 10) ((b'0' + n % 10) ∷ behind) b
        ∙ read_step (n / 10) n behind
        ∙ rw e refl)
]

record Digits (t : Text) : Type 0 where
  first : ℕ
  rest : Text
  whole : t ≡ first ∷ rest
  digit : is_digit first ≡ true

digits-Digits : (r n d : ℕ) (behind : Text) → is_digit d ≡ true → Digits (digits r n (d ∷ behind))
unfolding digits
digits-Digits zero n d behind e = record { first = d; rest = behind; whole = refl; digit = e }
digits-Digits (suc r) n d behind e =
    let next : is_digit (b'0' + n % 10) ≡ true = ground arith in
    elim (Bool-cases (n / 10 == 0)) [
      | inl last ↦
          rw last (record { first = b'0' + n % 10; rest = d ∷ behind; whole = refl; digit = next })
      | inr more ↦ rw more (digits-Digits r (n / 10) (b'0' + n % 10) (d ∷ behind) next)
    ]

digits-append : (r n : ℕ) (a b : Text) → digits r n a ++ b ≡ digits r n (a ++ b)
unfolding digits
digits-append zero n a b = refl
digits-append (suc r) n a b = elim (Bool-cases (n / 10 == 0)) [
  | inl last ↦ rw last refl
  | inr more ↦ rw more (digits-append r (n / 10) ((b'0' + n % 10) ∷ a) b)
]

scan-Digits :
    (t : Text) → Digits t → scan_int t ≡ some (pos (read_digits 0 t).0, (read_digits 0 t).1)
unfolding scan_int skip_blanks
scan-Digits t k = rw k.whole (ground (arith, k.digit))

digits-suc-Digits : (r n : ℕ) (behind : Text) → Digits (digits (suc r) n behind)
unfolding digits
digits-suc-Digits r n behind =
    let next : is_digit (b'0' + n % 10) ≡ true = ground arith in
    elim (Bool-cases (n / 10 == 0)) [
      | inl last ↦
          rw last (record { first = b'0' + n % 10; rest = behind; whole = refl; digit = next })
      | inr more ↦ rw more (digits-Digits r (n / 10) (b'0' + n % 10) behind next)
    ]

read_end : (n : ℕ) (t : Text) → read_digits n (b' ' ∷ t) ≡ (n, b' ' ∷ t)
unfolding read_digits
read_end n t = refl

scan-decimal :
    (n : ℕ) (t : Text) → Below 10 n → scan_int (decimal n ++ b' ' ∷ t) ≡ some (pos n, b' ' ∷ t)
scan-decimal n t b =
    let whole = digits-append 10 n [] (b' ' ∷ t) in
    let read = read-digits 10 n (b' ' ∷ t) b ∙ read_end n t in
    ap scan_int whole
    ∙ scan-Digits (digits 10 n (b' ' ∷ t)) (digits-suc-Digits 9 n (b' ' ∷ t))
    ∙ rw read refl

-- A request for the name of a program without blanks is scanned to the client's queue and that name.
pub scanned-request :
    (n c : ℕ) (app : Text) (s : Server)
    → Below 10 n
    → IsWord (c ∷ app)
    → scanned (scan_int (request_text (pos n) (c ∷ app))) s
      ≡ record s { client_id = pos n; app_name = c ∷ app }
unfolding request_text
scanned-request n c app s b w = rw (scan-decimal n (c ∷ app) b, scan_word-IsWord c app w) refl
