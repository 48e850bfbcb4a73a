-- ===== src/Tests.antt =====
-- The theorems on concrete inputs. The database of the examples holds `.a.b=1` and `.c=2`.
pub mod Client
pub mod Copy
pub mod Daemon
pub mod Database
pub mod Keys
pub mod Kernel
pub mod Libraries
pub mod Nodes
pub mod Outgoing
pub mod Packets
pub mod Requests
use dkmp.Base.{
  ℕ, ◌<◌, ◌≡◌, refl, Bool, true, false, none, some, List, [], ◌∷◌, Text, IsCString, arith,
}
use dkmp.Csdb.Key.{count_delims}
use dkmp.Csdb.Key.Names.{join_key}
use dkmp.Csdb.Entry.{Csdbe, null, node, dot, find_name}
use dkmp.Csdb.Paths.{look}
use dkmp.Csdb.Store.{Db}
use dkmp.Csdb.Values.{IsPath, Ready, content}
use dkmp.Csp.Request.{Fits}

abbrev pub t_a : Text
t_a = b'a' ∷ []

abbrev pub t_b : Text
t_b = b'b' ∷ []

abbrev pub t_c : Text
t_c = b'c' ∷ []

abbrev pub t_1 : Text
t_1 = b'1' ∷ []

abbrev pub t_2 : Text
t_2 = b'2' ∷ []

abbrev pub path_ab : List Text
path_ab = t_a ∷ t_b ∷ []

abbrev pub path_c : List Text
path_c = t_c ∷ []

abbrev pub path_d : List Text
path_d = (b'd' ∷ []) ∷ []

abbrev pub example_db : Db
example_db = record {
  root =
      node dot none false 0
        (node t_a none false 0 (node t_b (some t_1) true 0 null null)
          (node t_c (some t_2) true 0 null null))
        null;
  locked = false;
}

pub ready : Ready example_db
unfolding find_name dkmp.Base.str_eq
ready = record {
  rooted = refl;
  free = refl;
  unique = (refl, (refl, (refl, tt, tt), (refl, tt, tt)), tt);
}

pub IsPath-ab : IsPath path_ab
unfolding count_delims
IsPath-ab = record { all_names = (refl, (refl, tt)); filled = refl }

pub IsPath-c : IsPath path_c
unfolding count_delims
IsPath-c = record { all_names = (refl, tt); filled = refl }

pub IsPath-d : IsPath path_d
unfolding count_delims
IsPath-d = record { all_names = (refl, tt); filled = refl }

pub content_ab : content example_db path_ab ≡ some (some t_1, true)
unfolding look find_name dkmp.Base.str_eq
content_ab = refl

pub content_c : content example_db path_c ≡ some (some t_2, true)
unfolding look find_name dkmp.Base.str_eq
content_c = refl

pub content_d : content example_db path_d ≡ none
unfolding look find_name dkmp.Base.str_eq
content_d = refl

pub Fits-ab : Fits (join_key path_ab)
Fits-ab = record {
  filled = omega arith;
  short = omega arith;
  clean =
      ((λ e. omega arith), ((λ e. omega arith), ((λ e. omega arith), ((λ e. omega arith), tt))));
}

pub Fits-d : Fits (join_key path_d)
Fits-d = record {
  filled = omega arith;
  short = omega arith;
  clean = ((λ e. omega arith), ((λ e. omega arith), tt));
}

pub Fits-1 : Fits t_1
Fits-1 = record { filled = omega arith; short = omega arith; clean = ((λ e. omega arith), tt) }
