-- ===== src/Wsl/Listing.antt =====
-- The lines of `wsl --list --verbose`: verboseLine, matched as Go's regexp package does, by trying
-- the ways to match in their order of preference, and the loop of List.
use envorca.Prelude.{
  ℕ, Bool, true, ◌||◌, ◌&&◌, Option, none, some, List, [], ◌∷◌, ◌++◌, map, ◌==◌, if◌then◌else◌,
}
use envorca.Text.{Text, bytes, text_eq, cut_prefix, has_prefix, trim_prefix}
use envorca.Text.Trim.{trim_space}

pub record Distro : Type 0 where
  pub name : Text
  pub default : Bool
  pub running : Bool
  pub version : ℕ

-- The result of the first way that succeeds.
unfoldable pub first : {A B : Type 0} → (A → Option B) → List A → Option B
first f [] = none
first f (x ∷ xs) = elim (f x) [ some r ↦ some r | none ↦ first f xs ]

-- `\s`
abbrev pub re_space : ℕ → Bool
re_space c = c == 32 || (c == 9 || (c == 10 || (c == 12 || c == 13)))

-- `\s*`: what may be left, the longest run of spaces first.
unfoldable pub spaces : Text → List Text
spaces [] = [] ∷ []
spaces (c ∷ s) = let rest = spaces s in if re_space c then rest ++ (c ∷ s) ∷ [] else (c ∷ s) ∷ []

-- `\s+`
unfoldable pub spaces_one : Text → List Text
unfolding spaces
spaces_one [] = []
spaces_one (c ∷ s) = if re_space c then spaces s else []

-- `\s{2}`
unfoldable pub spaces_two : Text → List Text
unfolding spaces_one
spaces_two [] = []
spaces_two (c ∷ s) = if re_space c then spaces_one s else []

-- `(\*?)`
unfoldable pub stars : Text → List (Text × Text)
stars [] = ([], []) ∷ []
stars (c ∷ s) = if c == b'*' then (c ∷ [], s) ∷ ([], c ∷ s) ∷ [] else ([], c ∷ s) ∷ []

abbrev pub prepend : ℕ → Text × Text → Text × Text
prepend c (w, s) = (c ∷ w, s)

-- `(.+?)`, the shortest first
unfoldable pub names : Text → List (Text × Text)
names [] = []
names (c ∷ s) =
    let longer = map (prepend c) (names s) in if c == b'\n' then [] else (c ∷ [], s) ∷ longer

abbrev pub alternative : Text → Text → Option (Text × Text)
alternative w s = elim (cut_prefix s w) [ none ↦ none | some rest ↦ some (w, rest) ]

abbrev pub states : List Text
states =
    bytes "Stopped"
    ∷ bytes "Running"
    ∷ bytes "Installing"
    ∷ bytes "Uninstalling"
    ∷ bytes "Converting"
    ∷ []

-- `(2|1)`
unfoldable pub version_digit : Text → Option (ℕ × Text)
version_digit [] = none
version_digit (c ∷ s) = if c == b'2' then some (2, s) else if c == b'1' then some (1, s) else none

-- `(?:\s*)$`
unfoldable pub only_spaces : Text → Bool
only_spaces [] = true
only_spaces (c ∷ s) = re_space c && only_spaces s

-- The four groups of a match.
pub record Match : Type 0 where
  pub star : Text
  pub name : Text
  pub state : Text
  pub version : ℕ

-- What follows the state.
unfoldable pub match_version : Text → Text → Text → Text → Option Match
unfolding version_digit only_spaces
match_version star name state s = elim (version_digit s) [
  | none ↦ none
  | some (v, rest) ↦
      if only_spaces rest
      then some (record { star = star; name = name; state = state; version = v })
      else none
]

-- What follows one of the states.
abbrev pub with_state : Text → Text → Option (Text × Text) → Option Match
with_state star name none = none
with_state star name (some (state, rest)) = first (match_version star name state) (spaces_one rest)

-- What follows the name and its spaces.
unfoldable pub match_state : Text → Text → Text → Option Match
unfolding match_version first spaces_one
match_state star name s = first (λ w. with_state star name (alternative w s)) states

-- What follows the star and its spaces.
unfoldable pub match_name : Text → Text → Option Match
unfolding match_state first names spaces_two
match_name star s = first (λ p. first (match_state star p.0) (spaces_two p.1)) (names s)

-- verboseLine.FindStringSubmatch
unfoldable pub find_submatch : Text → Option Match
unfolding match_name first stars spaces
find_submatch line = first (λ p. first (match_name p.0) (spaces p.1)) (stars line)

abbrev pub distro_of : Match → Distro
distro_of m = record {
  name = trim_space m.name;
  default = text_eq (trim_space m.star) (b'*' ∷ []);
  running = text_eq m.state (bytes "Running");
  version = m.version;
}

-- A trimmed line that is neither empty nor the heading.
unfoldable pub parse_line : Text → Option Distro
unfolding find_submatch
parse_line line =
    if text_eq line [] || has_prefix line (bytes "NAME")
    then none
    else elim (find_submatch line) [ none ↦ none | some m ↦ some (distro_of m) ]

abbrev pub with_distro : Option Distro → List Distro → List Distro
with_distro none ds = ds
with_distro (some d) ds = d ∷ ds

-- The loop of List over the lines of the output.
unfoldable pub parse_listing : List Text → List Distro
unfolding parse_line
parse_listing [] = []
parse_listing (raw ∷ rest) =
    with_distro (parse_line (trim_space (trim_prefix raw (0xef ∷ 0xbb ∷ 0xbf ∷ []))))
      (parse_listing rest)
