-- ===== src/Csm.antt =====
-- src/csm/csm.c: `csd_cli`, the command line that sends requests to a daemon and prints its answers.
pub mod Turns
pub mod Session
pub mod Typed
use dkmp.Base.{
  ℕ, zero, suc, Bool, true, false, Option, none, some, List, [], ◌∷◌, ◌++◌, ◌==◌, if◌then◌else◌,
  Text, str_eq, Bytes, ◌||◌, ◌-◌, leb, length, take,
}
use dkmp.Csc.{cut}
use dkmp.Base.Scan.{filled}
use dkmp.Base.Fields.{or_before, read_words, third}
use dkmp.Csp.{
  cs_set, cs_get, cs_del, cs_ls, cs_capexec, resp_succ, pack_dbreq_packet, unpack_resp_packet,
}

abbrev pub set_word : Text
set_word = b's' ∷ b'e' ∷ b't' ∷ []

abbrev pub get_word : Text
get_word = b'g' ∷ b'e' ∷ b't' ∷ []

abbrev del_word : Text
del_word = b'd' ∷ b'e' ∷ b'l' ∷ []

abbrev ls_word : Text
ls_word = b'l' ∷ b's' ∷ []

abbrev cap_word : Text
cap_word = b'c' ∷ b'a' ∷ b'p' ∷ []

abbrev quit_word : Text
quit_word = b'q' ∷ b'u' ∷ b'i' ∷ b't' ∷ []

-- MAXLINE of src/include/cs.h.
abbrev pub maxline : ℕ
maxline = 4096

-- What the calls of `fgets` return one after the other, until the input ends: what is left of a line
-- up to its newline, but at most 4095 characters. `room` more characters fit behind the next one.
abbrev pub add_piece : Text × List Text → List Text
add_piece ([], ps) = ps
add_piece (c ∷ p, ps) = (c ∷ p) ∷ ps

abbrev pub next_room : (last : Bool) → (room : ℕ) → ℕ
next_room true room = maxline - 2
next_room false room = room - 1

abbrev pub put_char : (last : Bool) → ℕ → Text × List Text → Text × List Text
put_char true c behind = (c ∷ [], add_piece behind)
put_char false c (p, ps) = (c ∷ p, ps)

unfoldable pub pieces : (room : ℕ) → Text → Text × List Text
pieces room [] = ([], [])
pieces room (c ∷ t) =
    let last = c == b'\n' || room == 0 in put_char last c (pieces (next_room last room) t)

unfoldable pub fgets_all : Text → List Text
fgets_all t = add_piece (pieces (maxline - 2) t)

abbrev pub ends_line : ℕ → Bool
ends_line c = c == 0 || c == b'\n'

-- The line is cut off at its newline.
unfoldable pub cut_line : Text → Text
cut_line l = (cut ends_line l).0

-- The buffers of the function: what nothing was written to yet is `none`. `has_data` says whether
-- `resp_data` points into the buffer for answers.
pub record Client : Type 0 where
  pub type : Option Text
  pub key : Option Text
  pub value : Option Text
  pub has_data : Bool

abbrev pub fresh : Client
fresh = record { type = none; key = none; value = none; has_data = false }

-- The value is what "%[^\n]" reads behind the two words.
unfoldable pub read_command : (line : Text) → Client → Client
read_command line c = record c {
  type = (read_words line c.type c.key).0;
  key = (read_words line c.type c.key).1;
  value = or_before (filled (third line)) c.value;
}

pub data Command : Type 0 where
  request : (cs_type : ℕ) → Command
  quit nop : Command

unfoldable pub command : Text → Command
command t =
    if str_eq t set_word
    then request cs_set
    else if str_eq t get_word
    then request cs_get
    else if str_eq t del_word
    then request cs_del
    else if str_eq t ls_word
    then request cs_ls
    else if str_eq t cap_word
    then request cs_capexec
    else if str_eq t quit_word
    then quit
    else nop

-- What the user sees of one command, but for the prompts.
pub data Shown : Type 0 where
  data_of : Text → Shown
  error_from_csd invalid_action : Shown

-- How a command ends: with a line on the terminal; with the end of the program; waiting for an answer
-- for good; or with a read through a pointer, or of a buffer, that was never set.
pub data Turn (W : Type 0) : Type 0 where
  shows : Shown → Client → W → Turn W
  quits : W → Turn W
  hangs crashes : Turn W

-- A do_command of the program: what it shows, line by line, and how it ends.
pub data Terminal (W : Type 0) : Type 0 where
  line_of : Shown → Terminal W → Terminal W
  over : W → Terminal W
  waits breaks : Terminal W

-- A packet is packed into a buffer of MAXLINE bytes; a longer one is written past its end.
abbrev pub in_buffer : Bytes → Option Bytes
in_buffer m = if leb (length m) maxline then some m else none

-- The packet that is sent. Only a SET request takes the value.
unfoldable pub packet_for : (cs_type : ℕ) → (key : Text) (value : Option Text) → Option Bytes
packet_for type key none =
    if type == cs_set then none else in_buffer (pack_dbreq_packet (some key) none type).1
packet_for type key (some v) = in_buffer (pack_dbreq_packet (some key) (some v) type).1

-- With no new data, `resp_data` points to the zeros that the buffer was filled with.
abbrev pub old_data : Bool → Option Text
old_data true = some []
old_data false = none

abbrev pub print_data : {W : Type 0} → Client → W → Option Text → Turn W
print_data c w none = crashes
print_data c w (some t) = shows (data_of t) c w

abbrev pub with_data : Client → Option Text → Client
with_data c none = c
with_data c (some t) = record c { has_data = true }

abbrev pub data_or_old : Client → Option Text → Option Text
data_or_old c none = old_data c.has_data
data_or_old c (some t) = some t

abbrev pub show_response : {W : Type 0} → Client → W → Option (ℕ × ℕ × Option Text) → Turn W
show_response c w none = crashes
show_response c w (some (type, err, t)) =
    if err == resp_succ
    then print_data (with_data c t) w (data_or_old c t)
    else shows error_from_csd (with_data c t) w

-- What `recvfrom` leaves in the buffer for answers, which has MAXLINE bytes: the answer, and a 0
-- behind a shorter one.
unfoldable pub recvline : Bytes → Bytes
recvline m = take maxline (m ++ 0 ∷ [])

-- `ask` sends a packet and waits for the answer; `none` is an answer that never comes.
module _ {W : Type 0} (ask : Bytes → W → Option Bytes × W) where
  abbrev pub answer_of : Client → Option Bytes × W → Turn W
  answer_of c (none, w) = hangs
  answer_of c (some m, w) = show_response c w (unpack_resp_packet (recvline m))

  abbrev pub send_packet : Client → W → Option Bytes → Turn W
  send_packet c w none = crashes
  send_packet c w (some m) = answer_of c (ask m w)

  abbrev pub send_request : (cs_type : ℕ) → Client → Option Text → W → Turn W
  send_request type c none w = crashes
  send_request type c (some key) w = send_packet c w (packet_for type key c.value)

  abbrev pub do_command : Command → Client → W → Turn W
  do_command (request type) c w = send_request type c c.key w
  do_command quit c w = quits w
  do_command nop c w = shows invalid_action c w

  abbrev pub do_type : Option Text → Client → W → Turn W
  do_type none c w = crashes
  do_type (some t) c w = do_command (command t) c w

  -- One round of the loop.
  unfoldable pub turn : (line : Text) → Client → W → Turn W
  turn line c w = do_type (read_command line c).type (read_command line c) w

  abbrev pub go_on : Turn W → (Client → W → Terminal W) → Terminal W
  go_on (shows s c w) next = line_of s (next c w)
  go_on (quits w) next = over w
  go_on hangs next = waits
  go_on crashes next = breaks

  -- The rounds for what `fgets` returns in turn.
  unfoldable pub rounds : List Text → Client → W → Terminal W
  rounds [] c w = over w
  rounds (l ∷ ls) c w = go_on (turn (cut_line l) c w) (rounds ls)

  unfoldable pub csd_cli : (typed : Text) → Client → W → Terminal W
  csd_cli typed = rounds (fgets_all typed)
