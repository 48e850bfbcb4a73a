-- ===== src/Csc.antt =====
-- src/csd/csc.c: what the daemon knows about nodes, applications and libraries, kept in the database.
-- `now` is what `time` returns while a function runs. The buffers for keys are taken to be long enough.
pub mod Capable
pub mod Dump
pub mod Listing
pub mod Mapped
pub mod Names
pub mod Nodes
pub mod System
pub mod Words
use dkmp.Base.{
  ℕ, zero, suc, ◌+◌, Bool, true, false, not, ◌&&◌, ◌||◌, Option, none, some, List, [], ◌∷◌, ◌++◌,
  map, ◌==◌, if◌then◌else◌, Text, str_eq, ℤ, pos, negsuc, is_neg, ◌%◌, length, Bytes, c_string,
}
use dkmp.Csdb.Key.Names.{join_key}
use dkmp.Csdb.Store.{
  dump_from_key, Outcome, done, crashes, Op, ◌>>=◌, ◌>>◌, pure, key_exist, get_value_for_key,
  set_value_for_key, remove_from_key, append_value_for_key, get_child_names_for_key,
}
use dkmp.Csc.Names.{alive_name, app_name, lib_name, config_name, def_db_req_name, capnodes_name}

abbrev pub space : Text
space = b' ' ∷ []

-- `.a.<middle>` and `.a.<middle>.c`, as `sprintf` writes them.
abbrev pub key2 : (a middle : Text) → Text
key2 a m = b'.' ∷ (a ++ b'.' ∷ m)

abbrev pub key3 : (a middle c : Text) → Text
key3 a m c = b'.' ∷ (a ++ b'.' ∷ (m ++ b'.' ∷ c))

-- The loops of `strtok` over a whole text: what stands before its first delimiter, and the tokens
-- behind that one.
abbrev pub add_token : Text → List Text → List Text
add_token [] ts = ts
add_token (c ∷ t) ts = (c ∷ t) ∷ ts

abbrev pub next_char : Bool → ℕ → Text × List Text → Text × List Text
next_char true c (t, ts) = ([], add_token t ts)
next_char false c (t, ts) = (c ∷ t, ts)

unfoldable pub cut : (is_delim : ℕ → Bool) → Text → Text × List Text
cut d [] = ([], [])
cut d (c ∷ cs) = next_char (d c) c (cut d cs)

abbrev pub joined_up : Text × List Text → List Text
joined_up (t, ts) = add_token t ts

-- All that `strtok` returns in turn.
unfoldable pub strtok : (is_delim : ℕ → Bool) → Text → List Text
strtok d t = joined_up (cut d t)

abbrev pub is_space : ℕ → Bool
is_space c = c == b' '

abbrev pub is_newline : ℕ → Bool
is_newline c = c == 10

abbrev pub is_space_or_newline : ℕ → Bool
is_space_or_newline c = c == b' ' || c == 10

unfoldable pub node_is_alive : (node_name : Text) → Op Bool
node_is_alive n = key_exist (key2 alive_name n)

unfoldable pub node_not_alive : (node_name : Option Text) → Op ℤ
node_not_alive none = pure (negsuc 0)
node_not_alive (some n) = do remove_from_key (key2 alive_name n); pure (pos 0)

-- A word goes behind the words of a key; the first one makes the key.
unfoldable pub add_word : (key word : Text) (now : ℕ) → Op ℤ
add_word key word now = do
  there ← key_exist key
  if there
      then append_value_for_key key (some word) (some space) now
      else set_value_for_key key (some word) now

unfoldable pub add_words : (key : Text) → List Text → (now : ℕ) → Op (Unit {0})
add_words key [] now = pure tt
add_words key (w ∷ ws) now = do add_word key w now; add_words key ws now

abbrev pub page_size : ℕ
page_size = 4096

-- A file that is mapped to memory. Zeros fill its last page; a file of whole pages has none behind it,
-- and the mapping of an empty file fails.
unfoldable pub padded : (file : Text) → Bytes
padded file = if length file % page_size == 0 then file else file ++ 0 ∷ []

-- What is read of a mapping up to its first 0, as `strtok` does. Without a 0 the read leaves the mapping.
abbrev pub on_text : {A : Type 0} → Option Text → (Text → Op A) → Op A
on_text none next = λ db. crashes
on_text (some t) next = next t

abbrev pub on_mapped : {A : Type 0} → (file : Text) → (Text → Op A) → Op A
on_mapped file = on_text (c_string (padded file))

-- The lines of the file are `file` cut at newlines; `none` is a file that does not open, for which
-- the daemon exits with an error message.
unfoldable pub read_default_db_requests_from_file : Option Text → (now : ℕ) → Op (Option ℤ)
read_default_db_requests_from_file none now = pure none
read_default_db_requests_from_file (some file) now = on_mapped file (λ t. do
  add_words (key2 config_name def_db_req_name) (strtok is_newline t) now
  pure (some (pos 0)))

-- The name behind the last '/'.
abbrev pub base_step : Bool → Text → Text → Text
base_step true whole rest = rest
base_step false whole rest = whole

unfoldable pub has_slash : Text → Bool
has_slash [] = false
has_slash (c ∷ cs) = c == b'/' || has_slash cs

unfoldable pub base_name : Text → Text
base_name [] = []
base_name (c ∷ cs) = base_step (c == b'/' || has_slash cs) (c ∷ cs) (base_name cs)

-- The start of `csc_scan_libs_for_app`: what was written down before is removed.
unfoldable pub forget : (key : Text) → Op ℤ
forget key = do there ← key_exist key; if there then remove_from_key key else pure (pos 0)

-- `listed` is what `fscanf` reads as the first word of each line of the dynamic linker's list.
unfoldable pub scan_libs_for_app : (appname : Text) (listed : List Text) (now : ℕ) → Op ℤ
scan_libs_for_app app listed now = do
  forget (key3 app_name app lib_name)
  add_words (key3 app_name app lib_name) (map base_name listed) now
  pure (pos 0)

unfoldable pub get_libs_for_app : (appname : Text) → Op (ℤ × Option Text)
get_libs_for_app app = get_value_for_key (key3 app_name app lib_name)

-- One registered application; `listed` is the dynamic linker's answer for each.
unfoldable pub register_apps : (listed : Text → List Text) → List Text → (now : ℕ) → Op (Unit {0})
register_apps listed [] now = pure tt
register_apps listed (a ∷ apps) now = do
  there ← key_exist (key2 app_name a)
  if there then pure (pos 0) else scan_libs_for_app a (listed a) now
  register_apps listed apps now

unfoldable pub read_registered_apps_from_file :
    (listed : Text → List Text) → Option Text → (now : ℕ) → Op ℤ
read_registered_apps_from_file listed none now = pure (negsuc 0)
read_registered_apps_from_file listed (some file) now =
    on_mapped file (λ t. do register_apps listed (strtok is_newline t) now; pure (pos 0))

-- `opened`: whether the file can be opened. What is written to it comes with the status.
unfoldable pub dump_db_to_file : (opened : Bool) (key : Text) → Op (ℤ × Option Text)
dump_db_to_file false key = pure (negsuc 0, none)
dump_db_to_file true key = do file ← dump_from_key key; pure (pos 0, some file)

-- A line `key=value`: the key, and the value if there is a '='.
abbrev pub before_sign : Bool → ℕ → Text → Text × Option Text → Text × Option Text
before_sign true c cs (k, v) = ([], some cs)
before_sign false c cs (k, v) = (c ∷ k, v)

unfoldable pub at_sign : Text → Text × Option Text
at_sign [] = ([], none)
at_sign (c ∷ cs) = before_sign (c == b'=') c cs (at_sign cs)

abbrev pub set_line : Text × Option Text → (now : ℕ) → Op ℤ
set_line (key, none) now = pure (pos 0)
set_line (key, some v) now = set_value_for_key key (some v) now

unfoldable pub set_lines : List Text → (now : ℕ) → Op (Unit {0})
set_lines [] now = pure tt
set_lines (l ∷ ls) now = do set_line (at_sign l) now; set_lines ls now

unfoldable pub read_db_from_file : Option Text → (now : ℕ) → Op ℤ
read_db_from_file none now = pure (negsuc 0)
read_db_from_file (some file) now =
    on_mapped file (λ t. do set_lines (strtok is_newline t) now; pure (pos 0))

-- Points become underscores, since a point ends a part of a key.
unfoldable pub underscored : Text → Text
underscored [] = []
underscored (c ∷ cs) = (if c == b'.' then b'_' else c) ∷ underscored cs

unfoldable pub all_known : (libs : List Text) → Op Bool
all_known [] = pure true
all_known (l ∷ ls) = do ok ← key_exist (key2 lib_name l); if ok then all_known ls else pure false

unfoldable pub cap_to_exec : (libs : Text) → Op Bool
cap_to_exec libs = all_known (strtok is_space_or_newline (underscored libs))

-- Whether a text stands in another, as `strstr` finds it.
unfoldable pub is_prefix : Text → Text → Bool
is_prefix [] t = true
is_prefix (c ∷ cs) [] = false
is_prefix (c ∷ cs) (d ∷ ds) = c == d && is_prefix cs ds

unfoldable pub contains : (t part : Text) → Bool
contains [] p = is_prefix p []
contains (c ∷ cs) p = is_prefix p (c ∷ cs) || contains cs p

-- The type of a library goes behind the types that are known of it.
abbrev pub add_type : (key type : Text) (now : ℕ) → ℤ × Option Text → Op ℤ
add_type key type now (pos _, some known) =
    if contains known type
    then pure (pos 0)
    else append_value_for_key key (some type) (some space) now
add_type key type now (_, none) = set_value_for_key key (some type) now
add_type key type now (negsuc _, some _) = set_value_for_key key (some type) now

-- One line of the linker's cache, from the name and the type that `sscanf` reads in it.
unfoldable pub scan_lib : (name type : Text) (now : ℕ) → Op ℤ
scan_lib name type now = do
  there ← key_exist (key2 lib_name (underscored name))
  if there
      then (do
        found ← get_value_for_key (key2 lib_name (underscored name))
        add_type (key2 lib_name (underscored name)) type now found)
      else set_value_for_key (key2 lib_name (underscored name)) (some type) now

unfoldable pub scan_libs : List (Text × Text) → (now : ℕ) → Op ℤ
scan_libs [] now = pure (pos 0)
scan_libs ((name, type) ∷ ls) now = do scan_lib name type now; scan_libs ls now

-- What a node answered decides whether its name goes behind the capable nodes and whether the next
-- one is asked.
abbrev pub heard : (key node : Text) (now : ℕ) → ℤ → Op (Unit {0}) → Op (Unit {0})
heard key n now (pos zero) others = others
heard key n now (pos (suc _)) others = do add_word key n now; others
heard key n now (negsuc zero) others = pure tt
heard key n now (negsuc (suc _)) others = others

-- The names of the childs with a space behind each.
abbrev pub names_text : Option (ℕ × List Text × Text) → Text
names_text none = []
names_text (some (n, names, t)) = t

module _
    -- `cs_do_cap_request_for_node`.
    (cap_request : (node libs : Text) → Op ℤ) where
  unfoldable pub ask_nodes : (key libs : Text) → List Text → (now : ℕ) → Op (Unit {0})
  ask_nodes key libs [] now = pure tt
  ask_nodes key libs (n ∷ ns) now = do
    answer ← cap_request n libs
    heard key n now answer (ask_nodes key libs ns now)

  abbrev pub update_with : (app : Text) (now : ℕ) → ℤ × Option Text → Op ℤ
  update_with app now (_, none) = pure (negsuc 0)
  update_with app now (_, some libs) = do
    alive ← get_child_names_for_key (b'.' ∷ alive_name)
    remove_from_key (key3 app_name app capnodes_name)
    ask_nodes (key3 app_name app capnodes_name) libs (strtok is_space (names_text alive)) now
    pure (pos 0)

  unfoldable pub update_cap_nodes_for_app : (app : Text) (now : ℕ) → Op ℤ
  update_cap_nodes_for_app app now = do found ← get_libs_for_app app; update_with app now found

  unfoldable pub update_apps : List Text → (now : ℕ) → Op (Unit {0})
  update_apps [] now = pure tt
  update_apps (a ∷ apps) now = do update_cap_nodes_for_app a now; update_apps apps now

  abbrev pub update_named : Option (ℕ × List Text × Text) → (now : ℕ) → Op ℤ
  update_named none now = pure (negsuc 0)
  update_named (some (n, apps, t)) now = do update_apps apps now; pure (pos 0)

  unfoldable pub update_cap_nodes_for_apps : (now : ℕ) → Op ℤ
  update_cap_nodes_for_apps now = do
    apps ← get_child_names_for_key (b'.' ∷ app_name)
    update_named apps now
