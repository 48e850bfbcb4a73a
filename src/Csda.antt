-- ===== src/Csda.antt =====
-- src/csd/csda.c: the best node to execute an application on. The code computes the goodness of a node
-- with floating point numbers from three texts; here it is a parameter, as a number in the same order.
pub mod Best
pub mod Choice
pub mod Server
use dkmp.Base.{
  ℕ, zero, suc, Bool, true, false, not, ◌&&◌, Option, none, some, List, [], ◌∷◌, ltb, if◌then◌else◌,
  Text, ℤ, pos, negsuc,
}
use dkmp.Csdb.Store.{Op, ◌>>=◌, ◌>>◌, pure, key_exist, get_value_for_key}
use dkmp.Csc.{scan_libs_for_app, update_cap_nodes_for_app, key3, is_space, strtok, node_is_alive}
use dkmp.Csc.Names.{app_name, capnodes_name, load_name, avg1_name, avg5_name, avg15_name}
use dkmp.Csc.System.{node_key}

-- `bench > max_bench`; `none` is the -1 that the search starts with, and no goodness is below 0.
abbrev pub beats : ℕ → Option ℕ → Bool
beats b none = true
beats b (some m) = ltb m b

abbrev pub better : (bench : ℕ) (node : Text) → Option ℕ × Text → Option ℕ × Text
better b n (max, best) = if beats b max then (some b, n) else (max, best)

module _
    -- The goodness from the texts of the three loads.
    (bench : (load1 load5 load15 : Text) → ℕ) where
  abbrev pub bench_of : Option Text → Option Text → Option Text → ℕ
  bench_of (some a) (some b) (some c) = bench a b c
  bench_of _ _ _ = 0

  -- A load that is missing ends the function with 0.
  abbrev pub with_15 : Option Text → Option Text → ℤ × Option Text → Op ℕ
  with_15 a b (negsuc _, c) = pure 0
  with_15 a b (pos _, c) = pure (bench_of a b c)

  abbrev pub with_5 : (node : Text) → Option Text → ℤ × Option Text → Op ℕ
  with_5 n a (negsuc _, b) = pure 0
  with_5 n a (pos _, b) = do
    found ← get_value_for_key (node_key n load_name avg15_name)
    with_15 a b found

  abbrev pub with_1 : (node : Text) → ℤ × Option Text → Op ℕ
  with_1 n (negsuc _, a) = pure 0
  with_1 n (pos _, a) = do
    found ← get_value_for_key (node_key n load_name avg5_name)
    with_5 n a found

  unfoldable pub calc_bench : (node : Text) → Op ℕ
  calc_bench n = do found ← get_value_for_key (node_key n load_name avg1_name); with_1 n found

  -- The loop over the nodes that can execute the application: the largest goodness, and what the buffer
  -- for the node's name holds.
  unfoldable pub search_best : List Text → Option ℕ × Text → Op (Option ℕ × Text)
  search_best [] p = pure p
  search_best (n ∷ ns) p = do
    alive ← node_is_alive n
    if alive then (do b ← calc_bench n; search_best ns (better b n p)) else search_best ns p

-- `truncated` is the conversion of a goodness to the `int` that is returned.
module _ (bench : (load1 load5 load15 : Text) → ℕ) (truncated : ℕ → ℕ) where
  abbrev pub status_of : Option ℕ × Text → ℤ × Text
  status_of (none, best) = (negsuc 0, best)
  status_of (some m, best) = (pos (truncated m), best)

  abbrev pub best_among : (buffer : Text) → ℤ × Option Text → Op (ℤ × Text)
  best_among buffer (negsuc _, _) = pure (negsuc 0, buffer)
  best_among buffer (pos _, none) = pure (negsuc 0, buffer)
  best_among buffer (pos _, some nodes) = do
    p ← search_best bench (strtok is_space nodes) (none, buffer)
    pure (status_of p)

  -- The status, and what the buffer for the name holds then.
  unfoldable pub best_node_for_app : (app buffer : Text) → Op (ℤ × Text)
  best_node_for_app app buffer = do
    there ← key_exist (key3 app_name app capnodes_name)
    if there
        then (do
          found ← get_value_for_key (key3 app_name app capnodes_name)
          best_among buffer found)
        else pure (negsuc 0, buffer)

-- `csda_register_app`: `listed` is what the dynamic linker lists for the application.
unfoldable pub register_app :
    (cap_request : (node libs : Text) → Op ℤ) (app : Text) (listed : List Text) (now : ℕ) → Op ℤ
register_app cap_request app listed now = do
  scan_libs_for_app app listed now
  update_cap_nodes_for_app cap_request app now
  pure (pos 0)
