-- ===== src/Csdb/Key.antt =====
-- The keys of the database: `csdb_is_valid_key`, `csdb_check_key` and `csdb_parse_key` of
-- src/csd/csdb.c.
pub mod Names
pub mod Parse
use dkmp.Base.{
  ℕ, zero, suc, ◌+◌, ◌*◌, Bool, true, false, not, ◌&&◌, ◌||◌, Option, none, some, List, [], ◌∷◌,
  ◌++◌, ◌==◌, if◌then◌else◌, length, Text, ℤ, pos, negsuc,
}

abbrev pub starts_with_dot : Text → Bool
starts_with_dot [] = false
starts_with_dot (c ∷ _) = c == b'.'

-- `key[strlen(key)-1] == '.'`; the code asks this of a key that is not empty.
abbrev pub ends_with_dot : Text → Bool
ends_with_dot [] = false
ends_with_dot (c ∷ []) = c == b'.'
ends_with_dot (c ∷ d ∷ cs) = ends_with_dot (d ∷ cs)

unfoldable pub is_valid_key : Text → Bool
is_valid_key key =
    let plain = starts_with_dot key && not (ends_with_dot key) in
    if starts_with_dot key && length key == 1 then true else plain

unfoldable pub count_delims : Text → ℕ
count_delims [] = 0
count_delims (c ∷ cs) = (if c == b'.' then 1 else 0) + count_delims cs

-- The status, and the number of delimiters that the code stores through `nof_delims`.
unfoldable pub check_key : Text → ℤ × ℕ
check_key key =
    let nof_delims = count_delims key in
    (if nof_delims == 0 || not (is_valid_key key) then negsuc 0 else pos 0, nof_delims)

-- `*c == '.' || *c == '\0'`.
abbrev pub at_token_end : Text → Bool
at_token_end [] = true
at_token_end (c ∷ _) = c == b'.'

-- The state machine of `csdb_parse_key`: `in_token` is its state, the next text is what stands at
-- `c`, `token` what lies between `begin` and `c`, and `keys` the parts stored so far. `none` means
-- that the rounds are used up.
unfoldable pub scan :
    ℕ → (in_token : Bool) → Text → (token : Text) → (keys : List Text) → Option (List Text)
scan zero in_token rest token keys = none
scan (suc rounds) in_token [] token keys = some keys
scan (suc rounds) false (c ∷ cs) token keys = elim (c == b'.') [
  | true ↦ scan rounds true cs [] keys
  | false ↦ scan rounds false (c ∷ cs) token keys
]
scan (suc rounds) true (c ∷ cs) token keys = elim (c == b'.') [
  | true ↦ scan rounds false (c ∷ cs) [] (keys ++ token ∷ [])
  | false ↦ elim (at_token_end cs) [
    | true ↦ scan rounds false cs [] (keys ++ (token ++ c ∷ []) ∷ [])
    | false ↦ scan rounds true cs (token ++ c ∷ []) keys
  ]
]

-- What `csdb_parse_key` comes to: a NULL pointer, the parts, or a loop that never ends.
pub data Parsed : Type 0 where
  no_keys : Parsed
  parts : List Text → Parsed
  endless : Parsed

abbrev pub of_scan : Option (List Text) → Parsed
of_scan none = endless
of_scan (some keys) = parts keys

unfoldable pub parse_key : Text → Parsed
parse_key key =
    let nof_delims = (check_key key).1 in
    if nof_delims == 0
    then no_keys
    else if nof_delims == 1 && length key == 1
    then parts (key ∷ [])
    else of_scan (scan (2 * length key + 2) false key [] [])
