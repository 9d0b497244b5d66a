-- ===== src/Runtime/Printed.antt =====
-- ListContainers on what `docker ps` prints.
use mathlib.Core.List.{reverse-append, reverse-reverse}
use envorca.Prelude.{
  ℕ, ◌<◌, ◌≡◌, refl, sym, ap, ◌∙◌, Bool, List, [], ◌∷◌, ◌++◌, reverse, append_assoc, All, arith,
}
use envorca.Text.{Text, split}
use envorca.Text.Trim.{
  space_one, space_two, space_three, space_width, space_width_back, skip_spaces, trim_space,
}
use envorca.Health.{Context}
use envorca.Wsl.{Runner}
use envorca.Runtime.Listing.{
  Container, containers_of, template_line, template_lines, IsPlain, split-append, split-Without,
  template_line-Without, containers_of-line, container_of-template_line,
}
use envorca.Runtime.{output, ps_args, exec, list_containers}

-- A byte that is a printed character of ASCII, and no white space.
abbrev pub IsVisible : ℕ → Type 0
IsVisible b = (32 < b) × (b < 127)

abbrev pub Starts : Text → Type 0
Starts t = (b : ℕ) × (rest : Text) × (t ≡ b ∷ rest) × IsVisible b

abbrev pub Ends : Text → Type 0
Ends t = (front : Text) × (b : ℕ) × (t ≡ front ++ b ∷ []) × IsVisible b

-- A container as docker prints it: no field has a tab or a line feed, the identifier starts with a visible
-- character, and the status ends with one.
abbrev pub IsPrinted : Container → Type 0
IsPrinted c = IsPlain c × Starts c.id × Ends c.status

visible_width : (b : ℕ) (s : Text) → IsVisible b → space_width (b ∷ s) ≡ 0
unfolding space_width space_one space_two space_three
visible_width b [] (l, u) = ground arith
visible_width b (c ∷ []) (l, u) = ground arith
visible_width b (c ∷ d ∷ s) (l, u) = ground arith

visible_width_back : (b : ℕ) (s : Text) → IsVisible b → space_width_back (b ∷ s) ≡ 0
unfolding space_width_back space_one space_two space_three
visible_width_back b [] (l, u) = ground arith
visible_width_back b (c ∷ []) (l, u) = ground arith
visible_width_back b (c ∷ d ∷ s) (l, u) = ground arith

feed_width_back : (b : ℕ) (s : Text) → space_width_back (b'\n' ∷ b ∷ s) ≡ 1
unfolding space_width_back space_one
feed_width_back b [] = refl
feed_width_back b (c ∷ s) = refl

skip_visible :
    (width : Text → ℕ) (b : ℕ) (s : Text) → width (b ∷ s) ≡ 0 → skip_spaces width 0 (b ∷ s) ≡ b ∷ s
unfolding skip_spaces
skip_visible width b s h = rw (h, skip_spaces) refl

skip_one :
    (width : Text → ℕ) (b : ℕ) (s : Text)
    → width (b ∷ s) ≡ 1
    → skip_spaces width 0 (b ∷ s) ≡ skip_spaces width 0 s
unfolding skip_spaces
skip_one width b s h = rw (h, skip_spaces) refl

reverse_last : (s : Text) (b : ℕ) → reverse (s ++ b ∷ []) ≡ b ∷ reverse s
reverse_last s b = reverse-append s (b ∷ [])

-- A line feed at the end is all that TrimSpace takes off.
trim_line_feed : (t : Text) → Starts t → Ends t → trim_space (t ++ b'\n' ∷ []) ≡ t
unfolding trim_space
trim_line_feed t (a, rest, starts, v) (front, b, ends, u) =
    let whole = t ++ b'\n' ∷ [] in
    let forward : skip_spaces space_width 0 whole ≡ whole =
      rw starts (skip_visible space_width a (rest ++ b'\n' ∷ []) (visible_width a _ v)) in
    let backward : reverse whole ≡ b'\n' ∷ b ∷ reverse front =
      reverse_last t b'\n'
      ∙ ap (λ s. b'\n' ∷ reverse s) ends
      ∙ ap (λ s. b'\n' ∷ s) (reverse_last front b) in
    let skipped : skip_spaces space_width_back 0 (b'\n' ∷ b ∷ reverse front) ≡ b ∷ reverse front =
      skip_one space_width_back b'\n' (b ∷ reverse front) (feed_width_back b (reverse front))
      ∙ skip_visible space_width_back b (reverse front) (visible_width_back b (reverse front) u) in
    ap (λ s. reverse (skip_spaces space_width_back 0 (reverse s))) forward
    ∙ ap (λ s. reverse (skip_spaces space_width_back 0 s)) backward
    ∙ ap reverse (skipped ∙ sym (reverse_last front b))
    ∙ reverse-reverse (front ++ b ∷ [])
    ∙ sym ends

-- The lines of a container and of those that follow, without the last line feed.
abbrev joined : Container → List Container → Text
joined c [] = template_line c
joined c (d ∷ cs) = template_line c ++ b'\n' ∷ joined d cs

template_lines-joined :
    (c : Container) (cs : List Container) → template_lines (c ∷ cs) ≡ joined c cs ++ b'\n' ∷ []
template_lines-joined c [] = refl
template_lines-joined c (d ∷ cs) =
    ap (λ rest. template_line c ++ b'\n' ∷ rest) (template_lines-joined d cs)
    ∙ sym (append_assoc (template_line c) (b'\n' ∷ joined d cs) (b'\n' ∷ []))

Ends-after : (s t : Text) → Ends t → Ends (s ++ t)
Ends-after s t (front, b, e, v) =
    (s ++ front, b, ap (λ r. s ++ r) e ∙ sym (append_assoc s front (b ∷ [])), v)

Ends-cons : (b : ℕ) (t : Text) → Ends t → Ends (b ∷ t)
Ends-cons b t h = Ends-after (b ∷ []) t h

template_line-Ends : (c : Container) → Ends c.status → Ends (template_line c)
template_line-Ends c h =
    let after : (s t : Text) → Ends t → Ends (s ++ b'\t' ∷ t) =
      λ s t k. Ends-after s (b'\t' ∷ t) (Ends-cons b'\t' t k) in
    after c.id _ (after c.name _ (after c.image _ (after c.state c.status h)))

joined-Ends : (c : Container) (cs : List Container) → All IsPrinted (c ∷ cs) → Ends (joined c cs)
joined-Ends c [] ((_, _, h), _) = template_line-Ends c h
joined-Ends c (d ∷ cs) (_, h) =
    Ends-after (template_line c) (b'\n' ∷ joined d cs)
      (Ends-cons b'\n' (joined d cs) (joined-Ends d cs h))

Starts-before : (s t : Text) → Starts s → Starts (s ++ t)
Starts-before s t (b, rest, e, v) = (b, rest ++ t, ap (λ r. r ++ t) e, v)

joined-Starts : (c : Container) (cs : List Container) → Starts c.id → Starts (joined c cs)
joined-Starts c [] h = Starts-before c.id _ h
joined-Starts c (d ∷ cs) h = Starts-before (template_line c) _ (Starts-before c.id _ h)

containers_of-joined :
    (c : Container) (cs : List Container)
    → All IsPrinted (c ∷ cs)
    → containers_of (split (joined c cs) b'\n') ≡ c ∷ cs
unfolding containers_of
containers_of-joined c [] ((p, _, _), _) =
    rw
      (
        split-Without b'\n' (template_line c) (template_line-Without c p),
        containers_of-line c.id,
        container_of-template_line c p,
      )
      refl
containers_of-joined c (d ∷ cs) ((p, _, _), h) =
    rw
      (
        split-append b'\n' (template_line c) (joined d cs) (template_line-Without c p),
        containers_of-line c.id,
        container_of-template_line c p,
      )
      (ap (λ rest. c ∷ rest) (containers_of-joined d cs h))

trimmed_containers :
    (cs : List Container)
    → All IsPrinted cs
    → containers_of (split (trim_space (template_lines cs)) b'\n') ≡ cs
unfolding trim_space split containers_of skip_spaces
trimmed_containers [] h = refl
trimmed_containers (c ∷ cs) h =
    let trimmed =
      ap trim_space (template_lines-joined c cs)
      ∙ trim_line_feed (joined c cs) (joined-Starts c cs h.0.1) (joined-Ends c cs h) in
    ap (λ t. containers_of (split t b'\n')) trimmed ∙ containers_of-joined c cs h

module _ {W : Type 0} (run : Runner W) where
  -- Where `docker ps` prints its template for some containers, a line for each and none for no container,
  -- ListContainers returns these containers, in order and with every field. No field has a tab or a line feed,
  -- the identifiers start with a visible ASCII character, and the statuses end with one; the fields may be
  -- empty else, and have any other white space within.
  pub list_containers-template_lines :
      (ctx : Context) (all : Bool) (w w' : W) (cs : List Container)
      → All IsPrinted cs
      → exec run ctx (ps_args all) w ≡ (output (template_lines cs), w')
      → list_containers run ctx all w ≡ (output cs, w')
  unfolding list_containers
  list_containers-template_lines ctx all w w' cs h printed =
      rw printed (ap (λ found. (output found, w')) (trimmed_containers cs h))
