-- ===== src/Csc/Listing.antt =====
-- `csc_scan_libs` of src/csd/csc.c on the text that ldconfig has printed: the loop over the lines, and
-- what `sscanf` reads in each.
pub mod Answers
pub mod Fits
pub mod Known
pub mod Learns
pub mod Printed
use dkmp.Base.{
  ℕ, suc, ◌&&◌, leb, length, c_string, Bool, true, false, Option, none, some, List, [], ◌∷◌, ◌++◌,
  ◌==◌, if◌then◌else◌, Text, ℤ, pos,
}
use dkmp.Base.Scan.{word, skip_blanks}
use dkmp.Base.Fields.{read_words, behind_word, third}
use dkmp.Csdb.Store.{Op, crashes, ◌>>=◌, ◌>>◌, pure}
use dkmp.Csc.{scan_lib, padded}

-- What stands behind the first tab. Without a tab the search leaves the mapping.
unfoldable pub behind_tab : Text → Option Text
behind_tab [] = none
behind_tab (c ∷ t) = if c == b'\t' then some t else behind_tab t

-- The rounds of the loop, each with the length of the line and what stands at `start`: until there is a
-- 0, or until there is no newline, so that the search for it leaves the mapping.
pub data Rounds : Type 0 where
  finished unended : Rounds
  round : (line : ℕ) → Text → Rounds → Rounds

abbrev pub begin : Text → Option (ℕ × Rounds) → Rounds
begin start none = unended
begin start (some (n, rs)) = round n start rs

abbrev pub longer : Option (ℕ × Rounds) → Option (ℕ × Rounds)
longer none = none
longer (some (n, rs)) = some (suc n, rs)

-- The rounds that begin at a text; and the length that is left of its line, with the rounds behind it.
unfoldable pub rounds_at : Text → Rounds × Option (ℕ × Rounds)
rounds_at [] = (unended, none)
rounds_at (c ∷ t) =
    let behind = if c == b'\n' then some (0, (rounds_at t).0) else longer (rounds_at t).1 in
    (if c == 0 then finished else begin (c ∷ t) behind, behind)

-- A buffer that nothing was written to has no text.
abbrev pub scan_line : (now : ℕ) → Option Text × Option Text → Op ℤ
scan_line now (some name, some type) = scan_lib name type now
scan_line now _ = λ db. crashes

-- The buffers for the line and for each word that `sscanf` reads with "%s %s %*s %s" have 256 bytes.
abbrev pub fits_word : Option Text → Bool
fits_word none = true
fits_word (some w) = leb (length w) 255

abbrev pub path_word : Text → Text
path_word t = word (skip_blanks (behind_word (third t)))

unfoldable pub fits_buffers : (line : ℕ) (start : Text) → Bool
fits_buffers n t =
    leb n 255
    && fits_word (read_words t none none).0
    && fits_word (read_words t none none).1
    && leb (length (path_word t)) 255

-- One round. A line or a word that is too long for its buffer is written past the buffer's end.
abbrev pub scan_start :
    (line : ℕ) (start : Option Text) (now : ℕ)
    → Option Text × Option Text
    → (Option Text × Option Text → Op ℤ)
    → Op ℤ
scan_start n none now before next = λ db. crashes
scan_start n (some t) now (name, type) next =
    if fits_buffers n t
    then (do scan_line now (read_words t name type); next (read_words t name type))
    else λ db. crashes

unfoldable pub scan_rounds : Rounds → (now : ℕ) → Option Text × Option Text → Op ℤ
scan_rounds finished now before = pure (pos 0)
scan_rounds unended now before = λ db. crashes
scan_rounds (round n start rs) now before =
    scan_start n (c_string start) now before (scan_rounds rs now)

abbrev pub scan_behind : (now : ℕ) → Option Text → Op ℤ
scan_behind now none = λ db. crashes
scan_behind now (some t) = scan_rounds (rounds_at t).0 now (none, none)

unfoldable pub scan_listing : (file : Text) (now : ℕ) → Op ℤ
scan_listing file now = scan_behind now (behind_tab (padded file))
