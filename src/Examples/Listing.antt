-- ===== src/Examples/Listing.antt =====
-- A table of one distribution, and its lines.
use envorca.Prelude.{◌≡◌, ◌⊎◌, inr, refl, true, none, some, List, [], ◌∷◌, map, arith}
use envorca.Text.{Text, bytes, has_prefix, trim_prefix}
use envorca.Text.Trim.{trim_space}
use envorca.Wsl.Listing.{Match, find_submatch, parse_listing}
use envorca.Wsl.Reading.{ReadsLine, find_submatch_decides}
use envorca.Wsl.Row.{Row, running, IsRow, row_distro}
use envorca.Wsl.Printed.{Table, no_lines, blank_line, heading, row_line, parse_listing-Table}

abbrev ubuntu_line : Text
ubuntu_line = bytes "* Ubuntu    Running         2"

abbrev ubuntu : Row
ubuntu = record {
  default = true;
  lead = bytes " ";
  name = bytes "Ubuntu";
  name_gap = bytes "    ";
  state = running;
  state_gap = bytes "         ";
  version = 2;
}

abbrev lines : List Text
lines =
    bytes "  NAME      STATE           VERSION" ∷ bytes "* Ubuntu    Running         2\r" ∷ [] ∷ []

find_submatch_decides_example :
    ((m : Match) × (find_submatch ubuntu_line ≡ some m) × ReadsLine m ubuntu_line)
    ⊎ ((find_submatch ubuntu_line ≡ none) × ¬ ((m : Match) × ReadsLine m ubuntu_line))
find_submatch_decides_example = find_submatch_decides ubuntu_line

ubuntu-IsRow : IsRow ubuntu
unfolding bytes trim_space has_prefix
ubuntu-IsRow = record {
  lead_blank = (refl, tt);
  name_solid = (refl, (refl, (refl, (refl, (refl, (refl, tt))))));
  name_starts = refl;
  name_trimmed = refl;
  name_gap_blank = (refl, (refl, (refl, (refl, tt))));
  name_gap_wide = omega arith;
  state_gap_blank = (refl, (refl, (refl, (refl, (refl, (refl, (refl, (refl, (refl, tt)))))))));
  state_gap_wide = omega arith;
  version_known = inr refl;
  no_heading = refl;
}

table : Table lines (ubuntu ∷ [])
unfolding bytes trim_space trim_prefix has_prefix
table = heading refl (row_line refl ubuntu-IsRow (blank_line refl no_lines))

parse_listing-Table_example : parse_listing lines ≡ map row_distro (ubuntu ∷ [])
parse_listing-Table_example = parse_listing-Table table
