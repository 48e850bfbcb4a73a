-- ===== src/Csdb/Key/Names.antt =====
-- The parts that `csdb_parse_key` returns, as names: what a valid key parses to, how many parts
-- there are room for, and the keys on which the loop never ends.
use dkmp.Base.{
  ℕ, zero, suc, ◌+◌, ◌*◌, ◌≤◌, ◌<◌, ◌≡◌, refl, ap, ◌∙◌, inl, inr, ◌⊎◌, Bool, true, false, not, ◌&&◌,
  none, some, List, [], ◌∷◌, ◌++◌, append-nil, append_assoc, arith, ◌==◌, ==_iff, Bool-cases,
  length, Text,
}
pub use dkmp.Base.Fields.{is_nil}
use dkmp.Csdb.Key.{starts_with_dot, count_delims, check_key, scan, parts, endless, parse_key}
use dkmp.Csdb.Key.Parse.{tokens, tokens_dot, tokens_char, scan-tokens}

-- No delimiter inside.
abbrev pub IsName : Text → Type 0
IsName n = count_delims n ≡ 0

abbrev pub AllNames : List Text → Type 0
AllNames [] = Unit
AllNames (n ∷ ns) = IsName n × AllNames ns

-- `.a.b.c` from its parts.
abbrev pub join_key : List Text → Text
join_key [] = []
join_key (n ∷ ns) = b'.' ∷ (n ++ join_key ns)

-- The last part is not empty.
abbrev pub last_filled : List Text → Bool
last_filled [] = false
last_filled (n ∷ []) = not (is_nil n)
last_filled (n ∷ m ∷ ms) = last_filled (m ∷ ms)

count_delims-append : (a b : Text) → count_delims (a ++ b) ≡ count_delims a + count_delims b
unfolding count_delims
count_delims-append [] b = omega arith
count_delims-append (c ∷ a) b = omega (arith, count_delims-append a b)

count_delims-other :
    (c : ℕ) (token : Text) → (c == b'.') ≡ false → IsName token → IsName (token ++ c ∷ [])
unfolding count_delims
count_delims-other c token other h = rw (count_delims-append, h) (ground arith)

-- A token is a name when no delimiter is in it, and so is every part behind it.
tokens-AllNames :
    (cs : Text) (fresh : Bool) (token : Text) → IsName token → AllNames (tokens fresh token cs)
tokens-AllNames [] true token h = unfold tokens in tt
tokens-AllNames [] false token h = unfold tokens in (h, tt)
tokens-AllNames (c ∷ cs) fresh token h = elim (Bool-cases (c == b'.')) [
  | inl dot ↦
      rw (tokens_dot fresh token c cs dot)
        (h, tokens-AllNames cs true [] (unfold count_delims in refl))
  | inr other ↦
      rw (tokens_char fresh token c cs other)
        (tokens-AllNames cs false (token ++ c ∷ []) (count_delims-other c token other h))
]

length-tokens :
    (cs : Text) (fresh : Bool) (token : Text) → length (tokens fresh token cs) ≤ count_delims cs + 1
unfolding count_delims tokens
length-tokens [] true token = omega arith
length-tokens [] false token = omega arith
length-tokens (c ∷ cs) fresh token =
    ground (arith, length-tokens cs true [], length-tokens cs false (token ++ c ∷ []))

length-tokens_pos : (cs : Text) (token : Text) → 0 < length (tokens false token cs)
unfolding tokens
length-tokens_pos [] token = omega arith
length-tokens_pos (c ∷ cs) token = ground (arith, length-tokens_pos cs (token ++ c ∷ []))

and_false_lem : (n : Text) → (is_nil n && false) ≡ false
and_false_lem [] = refl
and_false_lem (_ ∷ _) = refl

tokens-append :
    (n : Text) (fresh : Bool) (token rest : Text)
    → IsName n
    → tokens fresh token (n ++ rest) ≡ tokens (is_nil n && fresh) (token ++ n) rest
tokens-append [] true token rest h = rw append-nil
tokens-append [] false token rest h = rw append-nil
tokens-append (c ∷ n) fresh token rest h = elim (Bool-cases (c == b'.')) [
  | inl dot ↦ absurd (unfold count_delims in ground arith)
  | inr other ↦ rw (tokens_char fresh token c (n ++ rest) other) (
      tokens-append n false (token ++ c ∷ []) rest (unfold count_delims in ground arith)
      ∙ rw append_assoc (ap (λ b. tokens b (token ++ c ∷ n) rest) (and_false_lem n)))
]

tokens-join_key :
    (n : Text) (ns : List Text)
    → AllNames (n ∷ ns)
    → last_filled (n ∷ ns) ≡ true
    → tokens true [] (n ++ join_key ns) ≡ n ∷ ns
tokens-join_key [] [] h filled = cc
tokens-join_key (c ∷ n) [] h filled = tokens-append (c ∷ n) true [] [] h.0 ∙ (unfold tokens in refl)
tokens-join_key n (m ∷ ms) h filled =
    tokens-append n true [] (join_key (m ∷ ms)) h.0
    ∙ tokens_dot (is_nil n && true) n b'.' (m ++ join_key ms) refl
    ∙ ap (◌∷◌ n) (tokens-join_key m ms h.1 filled)

scan_dot_start :
    (rounds : ℕ) (cs : Text)
    → 2 * length cs + 2 ≤ rounds
    → scan rounds false (b'.' ∷ cs) [] [] ≡ some (tokens true [] cs)
scan_dot_start zero cs h = absurd (omega arith)
scan_dot_start (suc r) cs h = unfold scan in scan-tokens cs r true [] [] (λ _. refl) (omega arith)

parse_key_dot : (c : ℕ) (cs : Text) → parse_key (b'.' ∷ c ∷ cs) ≡ parts (tokens true [] (c ∷ cs))
unfolding parse_key check_key count_delims
parse_key_dot c cs =
    ground (arith, scan_dot_start (2 * length (b'.' ∷ c ∷ cs) + 2) (c ∷ cs) (omega arith))

scan-endless :
    (rounds c : ℕ) (cs token : Text) (keys : List Text)
    → (c == b'.') ≡ false
    → scan rounds false (c ∷ cs) token keys ≡ none
unfolding scan
scan-endless zero c cs token keys h = refl
scan-endless (suc r) c cs token keys h = rw (h, scan) (scan-endless r c cs token keys h)

-- On a key whose parts hold no delimiter and whose last part is not empty, `csdb_parse_key` ends
-- and returns exactly the parts that the key was joined from.
pub parse_key-join_key :
    (n : Text) (ns : List Text)
    → AllNames (n ∷ ns)
    → last_filled (n ∷ ns) ≡ true
    → parse_key (join_key (n ∷ ns)) ≡ parts (n ∷ ns)
parse_key-join_key [] [] h filled = cc
parse_key-join_key [] (m ∷ ms) h filled =
    parse_key_dot b'.' (m ++ join_key ms) ∙ ap parts (tokens-join_key [] (m ∷ ms) h filled)
parse_key-join_key (c ∷ n) ns h filled =
    parse_key_dot c (n ++ join_key ns) ∙ ap parts (tokens-join_key (c ∷ n) ns h filled)

-- A list of parts that the caller may walk: not empty, no longer than the number of delimiters
-- (the array has one slot more, for the NULL), and either the root key alone or free of delimiters.
pub record Parts (key : Text) (ks : List Text) : Type 0 where
  pub parsed : parse_key key ≡ parts ks
  pub some_part : 0 < length ks
  pub fits : length ks ≤ (check_key key).1
  pub names : (ks ≡ (b'.' ∷ []) ∷ []) ⊎ AllNames ks

root-Parts : Parts (b'.' ∷ []) ((b'.' ∷ []) ∷ [])
unfolding parse_key check_key count_delims
root-Parts = record { parsed = refl; some_part = omega arith; fits = omega arith; names = inl refl }

tokens-Parts : (d : ℕ) (cs : Text) → Parts (b'.' ∷ d ∷ cs) (tokens true [] (d ∷ cs))
unfolding check_key count_delims tokens
tokens-Parts d cs = record {
  parsed = parse_key_dot d cs;
  some_part = ground (arith, length-tokens_pos cs (d ∷ []));
  fits = omega (arith, length-tokens (d ∷ cs) true []);
  names = inr (tokens-AllNames (d ∷ cs) true [] refl);
}

-- On every key that begins with a delimiter `csdb_parse_key` ends: there is at least one part, the
-- parts and the closing NULL fit in the array of `nof_delims + 1` pointers, and the only part that
-- can hold a delimiter is that of the root key.
pub parse_key-Parts : (key : Text) → starts_with_dot key ≡ true → (ks : List Text) × Parts key ks
parse_key-Parts [] h = cc
parse_key-Parts (c ∷ []) h = rw ((==_iff c b'.').0 h) ((b'.' ∷ []) ∷ [], root-Parts)
parse_key-Parts (c ∷ d ∷ cs) h =
    rw ((==_iff c b'.').0 h) (tokens true [] (d ∷ cs), tokens-Parts d cs)

-- On a key that holds a delimiter but does not begin with one, the loop of `csdb_parse_key` ends
-- after no number of rounds.
pub parse_key-endless :
    (key : Text)
    → starts_with_dot key ≡ false
    → 0 < count_delims key
    → (parse_key key ≡ endless) × ((rounds : ℕ) → scan rounds false key [] [] ≡ none)
unfolding parse_key check_key
parse_key-endless [] h k = unfold count_delims in absurd (omega arith)
parse_key-endless (c ∷ []) h k = unfold count_delims in absurd (ground arith)
parse_key-endless (c ∷ d ∷ cs) h k = (
  ground (arith, scan-endless (2 * length (c ∷ d ∷ cs) + 2) c (d ∷ cs) [] [] h),
  λ r. scan-endless r c (d ∷ cs) [] [] h,
)
