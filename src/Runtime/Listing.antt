-- ===== src/Runtime/Listing.antt =====
-- The lines of `docker ps` (the loop of ListContainers), and the lines that its template prints.
use envorca.Prelude.{ℕ, ◌≡◌, refl, false, List, [], ◌∷◌, ◌++◌, ◌==◌, get_or, any_by, arith}
use envorca.Text.{Text, split}

pub record Container : Type 0 where
  pub id : Text
  pub name : Text
  pub image : Text
  pub state : Text
  pub status : Text

-- A field past the end stays empty.
unfoldable pub container_of : List Text → Container
container_of fields = record {
  id = get_or fields 0 [];
  name = get_or fields 1 [];
  image = get_or fields 2 [];
  state = get_or fields 3 [];
  status = get_or fields 4 [];
}

unfoldable pub containers_of : List Text → List Container
unfolding container_of
containers_of [] = []
containers_of ([] ∷ rest) = containers_of rest
containers_of ((c ∷ line) ∷ rest) = container_of (split (c ∷ line) b'\t') ∷ containers_of rest

-- The text without a byte.
abbrev pub Without : ℕ → Text → Type 0
Without b s = any_by (λ c. c == b) s ≡ false

pub split-append : (b : ℕ) (s t : Text) → Without b s → split (s ++ b ∷ t) b ≡ s ∷ split t b
unfolding split
split-append b [] t h = ground arith
split-append b (c ∷ s) t h = ground (arith, split-append b s t)

pub split-Without : (b : ℕ) (s : Text) → Without b s → split s b ≡ s ∷ []
unfolding split
split-Without b [] h = refl
split-Without b (c ∷ s) h = ground (arith, split-Without b s)

-- What the template prints for one container.
abbrev pub template_line : Container → Text
template_line c =
    c.id ++ b'\t' ∷ (c.name ++ b'\t' ∷ (c.image ++ b'\t' ∷ (c.state ++ b'\t' ∷ c.status)))

abbrev pub template_lines : List Container → Text
template_lines [] = []
template_lines (c ∷ cs) = template_line c ++ b'\n' ∷ template_lines cs

-- No field of the container has a tab or a line feed.
abbrev pub Plain : Text → Type 0
Plain s = Without b'\t' s × Without b'\n' s

abbrev pub IsPlain : Container → Type 0
IsPlain c = Plain c.id × Plain c.name × Plain c.image × Plain c.state × Plain c.status

Without-append : (b : ℕ) (s t : Text) → Without b s → Without b t → Without b (s ++ t)
Without-append b [] t h k = k
Without-append b (c ∷ s) t h k = ground (arith, Without-append b s t)

pub template_line-Without : (c : Container) → IsPlain c → Without b'\n' (template_line c)
template_line-Without c ((_, i), (_, n), (_, m), (_, st), (_, u)) = Without-append b'\n' c.id _ i (
    Without-append b'\n' c.name _ n
      (Without-append b'\n' c.image _ m (Without-append b'\n' c.state _ st u)))

pub containers_of-line :
    (s t : Text) (rest : List Text)
    → containers_of ((s ++ b'\t' ∷ t) ∷ rest)
      ≡ container_of (split (s ++ b'\t' ∷ t) b'\t') ∷ containers_of rest
unfolding containers_of
containers_of-line [] t rest = refl
containers_of-line (c ∷ s) t rest = refl

pub container_of-template_line :
    (c : Container) → IsPlain c → container_of (split (template_line c) b'\t') ≡ c
unfolding container_of
container_of-template_line c ((i, _), (n, _), (m, _), (st, _), (u, _)) =
    rw
      (
        split-append b'\t' c.id _ i,
        split-append b'\t' c.name _ n,
        split-append b'\t' c.image _ m,
        split-append b'\t' c.state _ st,
        split-Without b'\t' c.status u,
      )
      refl
