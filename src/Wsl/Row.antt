-- ===== src/Wsl/Row.antt =====
-- A row of the table that `wsl --list --verbose` prints, and the match of verboseLine that it is.
use envorca.Prelude.{
  ℕ, ◌+◌, ◌≤◌, ◌≡◌, refl, sym, ap, ◌∙◌, ◌⊎◌, Bool, true, false, Option, some, [], ◌∷◌, ◌++◌, length,
  ◌==◌, if◌then◌else◌, arith,
}
use envorca.Text.{Text, bytes, cut_prefix, has_prefix}
use envorca.Text.Laws.{cut_prefix-append}
use envorca.Text.Trim.{trim_space}
use envorca.Wsl.Listing.{
  Distro, first, re_space, stars, spaces, spaces_two, alternative, states, Match, match_version,
  with_state, match_state, match_name, find_submatch,
}
use envorca.Wsl.Pieces.{alternative_found, first_found, Blank}
use envorca.Wsl.Reading.{match_version_found}
use envorca.Wsl.FirstWay.{
  IsSolid, first-spaces, first-spaces_one, first-spaces_two, first-names, Reached, here, later,
  first-Reached, no_gap,
}

-- The five states.
pub data Listed : Type 0 where
  stopped running installing uninstalling converting : Listed

abbrev pub state_text : Listed → Text
state_text Listed.stopped = bytes "Stopped"
state_text Listed.running = bytes "Running"
state_text Listed.installing = bytes "Installing"
state_text Listed.uninstalling = bytes "Uninstalling"
state_text Listed.converting = bytes "Converting"

abbrev pub is_running : Listed → Bool
is_running Listed.running = true
is_running _ = false

-- A row of the table, without the white space around it, and the white space within.
pub record Row : Type 0 where
  pub default : Bool
  pub lead : Text
  pub name : Text
  pub name_gap : Text
  pub state : Listed
  pub state_gap : Text
  pub version : ℕ

abbrev pub star_text : Bool → Text → Text
star_text true lead = b'*' ∷ lead
star_text false lead = []

abbrev pub after_name : Row → Text
after_name r = r.name_gap ++ (state_text r.state ++ (r.state_gap ++ (48 + r.version) ∷ []))

abbrev pub row_text : Row → Text
row_text r = star_text r.default r.lead ++ (r.name ++ after_name r)

abbrev pub no_star : Text → Bool
no_star [] = false
no_star (c ∷ s) = if c == b'*' then false else true

pub record IsRow (r : Row) : Type 0 where
  pub lead_blank : Blank r.lead
  pub name_solid : IsSolid r.name
  pub name_starts : no_star r.name ≡ true
  pub name_trimmed : trim_space r.name ≡ r.name
  pub name_gap_blank : Blank r.name_gap
  pub name_gap_wide : 2 ≤ length r.name_gap
  pub state_gap_blank : Blank r.state_gap
  pub state_gap_wide : 1 ≤ length r.state_gap
  pub version_known : (r.version ≡ 1) ⊎ (r.version ≡ 2)
  pub no_heading : has_prefix (row_text r) (bytes "NAME") ≡ false

abbrev pub row_distro : Row → Distro
row_distro r = record {
  name = r.name;
  default = r.default;
  running = is_running r.state;
  version = r.version;
}

-- Of the alternatives, only the state's own fits.
abbrev tried : Listed → Text → Text → Text → Text → Option Match
tried state star name s w = with_state star name (alternative w (state_text state ++ s))

tried_own :
    (state : Listed) (star name s : Text) {m : Match}
    → with_state star name (some (state_text state, s)) ≡ some m
    → tried state star name s (state_text state) ≡ some m
tried_own state star name s h =
    ap (with_state star name)
      (alternative_found (state_text state) _ (cut_prefix-append (state_text state) s))
    ∙ h

state-Reached :
    (state : Listed) (star name s : Text)
    → Reached (tried state star name s) (state_text state) states
unfolding cut_prefix bytes
state-Reached Listed.stopped star name s = here
state-Reached Listed.running star name s = later refl here
state-Reached Listed.installing star name s = later refl (later refl here)
state-Reached Listed.uninstalling star name s = later refl (later refl (later refl here))
state-Reached Listed.converting star name s = later refl (later refl (later refl (later refl here)))

match_state_listed :
    (state : Listed) (star name s : Text) {m : Match}
    → tried state star name s (state_text state) ≡ some m
    → match_state star name (state_text state ++ s) ≡ some m
unfolding match_state
match_state_listed state star name s h = first-Reached (state-Reached state star name s) h

abbrev pub row_match : Row → Match
row_match r = record {
  star = star_text r.default [];
  name = r.name;
  state = state_text r.state;
  version = r.version;
}

digit_solid : (v : ℕ) → (v ≡ 1) ⊎ (v ≡ 2) → re_space (48 + v) ≡ false
digit_solid v h = ground arith

match_state_row :
    (r : Row)
    → IsRow r
    → (star : Text)
    → match_state star r.name (state_text r.state ++ (r.state_gap ++ (48 + r.version) ∷ []))
      ≡ some (record (row_match r) { star = star })
match_state_row r ok star =
    let m = record (row_match r) { star = star } in
    let version = match_version_found m ((48 + r.version) ∷ []) ([], refl, ok.version_known, tt) in
    let found =
      first-spaces_one (match_version star r.name (state_text r.state)) (48 + r.version) []
        r.state_gap ok.state_gap_blank ok.state_gap_wide (digit_solid r.version ok.version_known)
        version in
    match_state_listed r.state star r.name _ (tried_own r.state star r.name _ found)

-- A state begins with a letter.
state_solid :
    (state : Listed) (s : Text)
    → (c : ℕ) × (rest : Text) × (state_text state ++ s ≡ c ∷ rest) × (re_space c ≡ false)
unfolding bytes
state_solid Listed.stopped s = (_, _, refl, refl)
state_solid Listed.running s = (_, _, refl, refl)
state_solid Listed.installing s = (_, _, refl, refl)
state_solid Listed.uninstalling s = (_, _, refl, refl)
state_solid Listed.converting s = (_, _, refl, refl)

match_name_row :
    (r : Row)
    → IsRow r
    → 1 ≤ length r.name
    → (star : Text)
    → match_name star (r.name ++ after_name r) ≡ some (record (row_match r) { star = star })
unfolding match_name
match_name_row r ok long star =
    let (c, rest, e, solid) = state_solid r.state (r.state_gap ++ (48 + r.version) ∷ []) in
    let at_state = ap (match_state star r.name) (sym e) ∙ match_state_row r ok star in
    let at_gap : first (match_state star r.name) (spaces_two (after_name r))
        ≡ some (record (row_match r) { star = star }) =
      ap (λ u. first (match_state star r.name) (spaces_two (r.name_gap ++ u))) e
      ∙ first-spaces_two (match_state star r.name) c rest r.name_gap ok.name_gap_blank
          ok.name_gap_wide solid at_state in
    first-names (λ p. first (match_state star p.0) (spaces_two p.1)) r.name (after_name r) long
      ok.name_solid (λ u d v k. no_gap (match_state star u) d v k) at_gap

abbrev at_star : Text × Text → Option Match
at_star p = first (match_name p.0) (spaces p.1)

find_submatch_line :
    (default : Bool) (lead name after : Text) {m : Text → Match}
    → Blank lead
    → IsSolid name
    → no_star name ≡ true
    → ((star : Text) → match_name star (name ++ after) ≡ some (m star))
    → find_submatch (star_text default lead ++ (name ++ after)) ≡ some (m (star_text default []))
unfolding find_submatch stars
find_submatch_line default lead [] after blank solid starts named = absurd (ground arith)
find_submatch_line true lead (c ∷ w) after blank (solid, rest) starts named =
    first_found at_star (b'*' ∷ [], lead ++ ((c ∷ w) ++ after))
      (([], b'*' ∷ (lead ++ ((c ∷ w) ++ after))) ∷ [])
      (first-spaces (match_name (b'*' ∷ [])) c (w ++ after) lead blank solid (named (b'*' ∷ [])))
find_submatch_line false lead (c ∷ w) after blank (solid, rest) starts named =
    let plain : (c == b'*') ≡ false = ground arith in
    ap (first at_star) (
      ap
        (λ b.
          if b
          then (c ∷ [], w ++ after) ∷ ([], c ∷ (w ++ after)) ∷ []
          else ([], c ∷ (w ++ after)) ∷ [])
        plain)
    ∙ first_found at_star ([], c ∷ (w ++ after)) []
        (first-spaces (match_name []) c (w ++ after) [] tt solid (named []))

no_star-nonempty : (name : Text) → no_star name ≡ true → 1 ≤ length name
no_star-nonempty [] h = absurd (ground arith)
no_star-nonempty (c ∷ w) h = omega arith

pub find_submatch_row : (r : Row) → IsRow r → find_submatch (row_text r) ≡ some (row_match r)
find_submatch_row r ok =
    find_submatch_line r.default r.lead r.name (after_name r) ok.lead_blank ok.name_solid
      ok.name_starts (match_name_row r ok (no_star-nonempty r.name ok.name_starts))
