-- ===== src/Wsl/Printed.antt =====
-- The table that `wsl --list --verbose` prints, and List on it.
use envorca.Prelude.{
  ◌≡◌, refl, inl, inr, Bool, Bool-cases, true, false, none, some, List, [], ◌∷◌, ◌++◌, map, arith,
}
use envorca.Text.{Text, bytes, text_eq, has_prefix, trim_prefix}
use envorca.Text.Trim.{trim_space}
use envorca.Wsl.Listing.{distro_of, parse_line, parse_listing}
use envorca.Wsl.Row.{
  Listed, state_text, is_running, Row, star_text, after_name, row_text, no_star, IsRow, row_distro,
  row_match, find_submatch_row,
}

running_state : (state : Listed) → text_eq (state_text state) (bytes "Running") ≡ is_running state
unfolding text_eq bytes
running_state Listed.stopped = refl
running_state Listed.running = refl
running_state Listed.installing = refl
running_state Listed.uninstalling = refl
running_state Listed.converting = refl

starred : (default : Bool) → text_eq (trim_space (star_text default [])) (b'*' ∷ []) ≡ default
unfolding text_eq trim_space
starred true = refl
starred false = refl

distro_of_row : (r : Row) → IsRow r → distro_of (row_match r) ≡ row_distro r
distro_of_row r ok = rw (ok.name_trimmed, starred r.default, running_state r.state) refl

row_text_filled :
    (default : Bool) (lead name after : Text)
    → no_star name ≡ true
    → text_eq (star_text default lead ++ (name ++ after)) [] ≡ false
unfolding text_eq
row_text_filled true lead name after h = refl
row_text_filled false lead [] after h = absurd (ground arith)
row_text_filled false lead (c ∷ w) after h = refl

-- A row of the table is read back as its distribution.
pub parse_line_row : (r : Row) → IsRow r → parse_line (row_text r) ≡ some (row_distro r)
unfolding parse_line
parse_line_row r ok =
    rw
      (
        row_text_filled r.default r.lead r.name (after_name r) ok.name_starts,
        ok.no_heading,
        find_submatch_row r ok,
        distro_of_row r ok,
      )
      refl

-- What List makes of a line before it matches it.
abbrev pub line_of : Text → Text
line_of raw = trim_space (trim_prefix raw (0xef ∷ 0xbb ∷ 0xbf ∷ []))

-- The lines of a table and its rows: blank lines and headings have none.
pub data Table : List Text → List Row → Type 0 where
  no_lines : Table [] []
  blank_line :
      {raw : Text} {raws : List Text} {rows : List Row}
      → line_of raw ≡ []
      → Table raws rows
      → Table (raw ∷ raws) rows
  heading :
      {raw : Text} {raws : List Text} {rows : List Row}
      → has_prefix (line_of raw) (bytes "NAME") ≡ true
      → Table raws rows
      → Table (raw ∷ raws) rows
  row_line :
      {raw : Text} {raws : List Text} {r : Row} {rows : List Row}
      → line_of raw ≡ row_text r
      → IsRow r
      → Table raws rows
      → Table (raw ∷ raws) (r ∷ rows)

parse_line_heading : (s : Text) → has_prefix s (bytes "NAME") ≡ true → parse_line s ≡ none
unfolding parse_line
parse_line_heading s h = elim (Bool-cases (text_eq s [])) [
  | inl t ↦ rw t refl
  | inr f ↦ rw (f, h) refl
]

parse_line_nil : parse_line [] ≡ none
unfolding parse_line text_eq
parse_line_nil = refl

-- List reads back the table that `wsl --list --verbose` prints: one distribution for each row, in order,
-- with the name, the default mark, whether it runs and the version. The names have no white space, and begin with
-- neither an asterisk nor, where a row begins with its name, NAME; the gaps before the state are of
-- two bytes or more; blank lines and headings are skipped.
pub parse_listing-Table :
    {raws : List Text} {rows : List Row}
    → Table raws rows
    → parse_listing raws ≡ map row_distro rows
unfolding parse_listing
parse_listing-Table no_lines = refl
parse_listing-Table (blank_line e t) = rw (e, parse_line_nil, parse_listing-Table t) refl
parse_listing-Table (heading h t) = rw (parse_line_heading _ h, parse_listing-Table t) refl
parse_listing-Table (row_line {r = r} e ok t) =
    rw (e, parse_line_row r ok, parse_listing-Table t) refl
