-- ===== src/Tests/Keys.antt =====
-- The theorems on the keys of src/csd/csdb.c on single keys.
use dkmp.Base.{ℕ, false, ◌≡◌, refl, none, List, [], ◌∷◌, Text, arith}
use dkmp.Csdb.Key.{count_delims, parts, endless, parse_key, scan}
use dkmp.Csdb.Key.Names.{join_key, Parts, parse_key-join_key, parse_key-Parts, parse_key-endless}
use dkmp.Tests.{t_a, t_b, path_ab}

parse_key-join_key_example : parse_key (join_key path_ab) ≡ parts path_ab
unfolding count_delims
parse_key-join_key_example = parse_key-join_key t_a (t_b ∷ []) (refl, (refl, tt)) refl

parse_key-Parts_example : (ks : List Text) × Parts (b'.' ∷ b'a' ∷ b'.' ∷ []) ks
parse_key-Parts_example = parse_key-Parts (b'.' ∷ b'a' ∷ b'.' ∷ []) refl

parse_key-endless_example :
    (parse_key (b'a' ∷ b'.' ∷ []) ≡ endless)
    × ((rounds : ℕ) → scan rounds false (b'a' ∷ b'.' ∷ []) [] [] ≡ none)
unfolding count_delims
parse_key-endless_example = parse_key-endless (b'a' ∷ b'.' ∷ []) refl (omega arith)
