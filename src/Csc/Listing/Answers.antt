-- ===== src/Csc/Listing/Answers.antt =====
-- What the daemon answers after `csc_scan_libs` of src/csd/csc.c has read a listing.
use dkmp.Base.{
  ℕ, ◌≡◌, refl, ap, ◌∙◌, Option, none, some, List, [], ◌∷◌, ◌++◌, map, Text, pos, append_assoc,
  length, suc, arith,
}
use dkmp.Csdb.Store.{Db, done}
use dkmp.Csc.{padded, scan_libs, cap_to_exec}
use dkmp.Csc.Capable.{named_libs, cap_to_exec-known_libs}
use dkmp.Csc.Words.{Clean}
use dkmp.Csc.Listing.{round, rounds_at, scan_rounds, scan_listing}
use dkmp.Csc.Listing.Learns.{LibsReady}
use dkmp.Csc.Listing.Known.{AllNamed, all_listed, scan_libs-known, known_libs-listed}
use dkmp.Csc.Mapped.{HasPadding, padded_lem}
use dkmp.Csc.Listing.Fits.{scan_start-line, scan_start-tab}
use dkmp.Csc.Listing.Printed.{
  Lib, line_of, printed_libs, is_tab, AllLines, entry, behind_tab-append, line_end, rounds_of,
  rounds_at-printed, round_at, starts-append, starts-filled, c_string-printed, c_string-first,
  printed-append,
}

scan_rounds-libs :
    (ls : List Lib) (now : ℕ) (before : Option Text × Option Text)
    → AllLines ls
    → scan_rounds (rounds_of ls) now before ≡ scan_libs (map entry ls) now
unfolding scan_rounds scan_libs
scan_rounds-libs [] now before h = refl
scan_rounds-libs (l ∷ ls) now (n, t) h =
    rw
      (
        c_string-printed (l ∷ ls) h,
        scan_start-tab (suc (length (line_of l))) l (printed_libs ls []) now n t
            (scan_rounds (rounds_of ls) now) h.0 (omega (arith, h.0.short)),
        scan_rounds-libs ls now (some l.name, some l.type) h.1,
      )
      refl

abbrev pub listing : (header : Text) → List Lib → Text
listing header ls = header ++ printed_libs ls []

abbrev first_text : Lib → List Lib → Text
first_text l ls = line_of l ++ b'\n' ∷ printed_libs ls (0 ∷ [])

first_line :
    (l : Lib) (ls : List Lib) (now : ℕ)
    → AllLines (l ∷ ls)
    → scan_rounds (round (length (line_of l)) (first_text l ls) (rounds_of ls)) now (none, none)
      ≡ scan_libs (map entry (l ∷ ls)) now
unfolding scan_rounds scan_libs
first_line l ls now k =
    rw
      (
        c_string-first l ls k,
        scan_start-line (length (line_of l)) l (printed_libs ls []) now none none
            (scan_rounds (rounds_of ls) now) k.0 (omega (arith, k.0.short)),
        scan_rounds-libs ls now (some l.name, some l.type) k.1,
      )
      refl

padded_listing :
    (header : Text) (ls : List Lib)
    → HasPadding (listing header ls)
    → padded (listing header ls) ≡ header ++ printed_libs ls (0 ∷ [])
padded_listing header ls h =
    padded_lem (listing header ls) h
    ∙ append_assoc header (printed_libs ls []) (0 ∷ [])
    ∙ ap (λ t. header ++ t) (printed-append ls (0 ∷ []))

-- The loop stores exactly the names and types that were printed.
pub scan_listing-libs :
    (header : Text) (l : Lib) (ls : List Lib) (now : ℕ)
    → Clean is_tab header
    → AllLines (l ∷ ls)
    → HasPadding (listing header (l ∷ ls))
    → scan_listing (listing header (l ∷ ls)) now ≡ scan_libs (map entry (l ∷ ls)) now
unfolding scan_listing
scan_listing-libs header l ls now h k padding =
    let starts =
      starts-append (line_of l) (b'\n' ∷ printed_libs ls (0 ∷ []))
        (starts-append l.name _ k.0.name_starts) in
    rw
      (
        padded_listing header (l ∷ ls) padding,
        behind_tab-append header (first_text l ls) h,
        round_at (first_text l ls) (length (line_of l)) (rounds_at (printed_libs ls (0 ∷ []))).0
            starts (line_end l (printed_libs ls (0 ∷ [])) k.0),
        rounds_at-printed ls k.1,
      )
      (first_line l ls now k)

pub entries-AllNamed : (ls : List Lib) → AllLines ls → AllNamed (map entry ls)
entries-AllNamed [] h = tt
entries-AllNamed (l ∷ ls) h = (starts-filled l.name h.0.name_starts, entries-AllNamed ls h.1)

-- After the listing of the dynamic linker was read, the node says that it can execute an application
-- exactly if each library of the application is printed in the listing or was in the database
-- before, points being underscores on both sides; reading it ends with success and leaves a database
-- like the one before. The listing has a header without tabs and then at least one line of a tab, a
-- name, a type, a word and a path, without zero bytes and with at most 255 bytes; it is not of
-- whole pages; that database has a root, its mutex is free, no entry has two childs of one name, and
-- what stands under ".lib" are leaves with values.
pub cap_to_exec-scan_listing :
    (db : Db) (header : Text) (l : Lib) (ls : List Lib) (libs : Text) (now : ℕ)
    → LibsReady db
    → Clean is_tab header
    → AllLines (l ∷ ls)
    → HasPadding (listing header (l ∷ ls))
    → (db' : Db) × (scan_listing (listing header (l ∷ ls)) now db ≡ done (pos 0) db')
      × LibsReady db'
      × (cap_to_exec libs db' ≡ done (all_listed (map entry (l ∷ ls)) db (named_libs libs)) db')
cap_to_exec-scan_listing db header l ls libs now h k lines padding =
    let (db', e, h', more) =
      scan_libs-known db (map entry (l ∷ ls)) now h (entries-AllNamed (l ∷ ls) lines) in
    (
      db',
      ap (λ f. f db) (scan_listing-libs header l ls now k lines padding) ∙ e,
      h',
      cap_to_exec-known_libs db' libs h'.ready
          ∙ ap (λ b. done b db')
              (known_libs-listed (map entry (l ∷ ls)) db db' (named_libs libs) more),
    )
