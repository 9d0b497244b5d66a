-- ===== src/Wsl.antt =====
-- The bridge to wsl.exe (daemon/internal/wsl/wsl.go). A runner stands for the external command: it
-- takes a context, an argument slice and the outside world `W`, and returns stdout or an error.
pub mod Output
pub mod Listing
pub mod Encodings
pub mod Pieces
pub mod Reading
pub mod FirstWay
pub mod Row
pub mod Printed
use envorca.Prelude.{ℕ, Bool, true, false, Option, none, some, List, [], ◌∷◌, ◌||◌, if◌then◌else◌}
use envorca.Text.{Text, bytes, split, contains, to_lower, cut_prefix, trim_prefix, text_eq}
use envorca.Text.Trim.{trim_space}
use envorca.Health.{Context}
use envorca.Wsl.Output.{decode_output}
use envorca.Wsl.Listing.{Distro, parse_listing}

pub data Result (A : Type 0) : Type 0 where
  ok : A → Result A
  err : Text → Result A

abbrev pub Runner : Type 0 → Type 0
Runner W = Context → List Text → W → Result Text × W

-- wslExe and Available: the value of ENVORCA_WSL_EXE, empty when unset, and what LookPath finds.
unfoldable pub wsl_exe : Text → Text
wsl_exe [] = bytes "wsl.exe"
wsl_exe (c ∷ s) = c ∷ s

unfoldable pub available : Text → (Text → Bool) → Bool
unfolding wsl_exe
available [] look_path = look_path (wsl_exe [])
available (c ∷ s) look_path = true

-- The first default distribution of a listing, or the empty name.
unfoldable pub default_name : List Distro → Text
default_name [] = []
default_name (d ∷ ds) = let rest = default_name ds in if d.default then d.name else rest

-- The kernel version in the lines of `wsl --version`, or the empty text.
unfoldable pub kernel_line : List Text → Text
kernel_line [] = []
kernel_line (raw ∷ rest) =
    let line = trim_space (trim_prefix raw (0xef ∷ 0xbb ∷ 0xbf ∷ [])) in
    elim (cut_prefix line (bytes "Kernel version:")) [
      | some v ↦ trim_space v
      | none ↦ kernel_line rest
    ]

unfoldable pub is_header : Text → Bool
is_header line =
    contains line (bytes "Windows Subsystem for Linux")
    || contains (to_lower line) (bytes "no installed distributions")

-- The names in the lines of `wsl --list --quiet`.
unfoldable pub quiet_names : List Text → List Text
unfolding is_header
quiet_names [] = []
quiet_names (raw ∷ rest) =
    let line = trim_space (trim_prefix raw (0xef ∷ 0xbb ∷ 0xbf ∷ [])) in
    let names = quiet_names rest in
    if text_eq line [] || is_header line then names else line ∷ names

abbrev pub on_ok : {A B : Type 0} → (A → B) → Result A → Result B
on_ok f (ok a) = ok (f a)
on_ok f (err e) = err e

module _ {W : Type 0} (run : Runner W) where
  unfoldable pub list : Context → W → Result (List Distro) × W
  list ctx w =
      let (out, w') = run ctx (bytes "--list" ∷ bytes "--verbose" ∷ []) w in
      (on_ok (λ b. parse_listing (split (decode_output b) b'\n')) out, w')

  unfoldable pub default_distro : Context → W → Result Text × W
  unfolding list default_name
  default_distro ctx w = let (distros, w') = list ctx w in (on_ok default_name distros, w')

  unfoldable pub kernel_version : Context → W → Result Text × W
  unfolding kernel_line
  kernel_version ctx w =
      let (out, w') = run ctx (bytes "--version" ∷ []) w in
      (on_ok (λ b. kernel_line (split (decode_output b) b'\n')) out, w')

  -- `none` is a nil error.
  abbrev pub failure : Result Text → Option Text
  failure (ok b) = none
  failure (err e) = some e

  unfoldable pub boot : Context → Text → W → Option Text × W
  boot ctx distro w =
      let (out, w') =
        run ctx
          (bytes "--distribution" ∷ distro ∷ bytes "--" ∷ bytes "echo" ∷ bytes "envorca:boot" ∷ [])
          w in
      (failure out, w')

  unfoldable pub shutdown : Context → W → Option Text × W
  shutdown ctx w = let (out, w') = run ctx (bytes "--shutdown" ∷ []) w in (failure out, w')

  unfoldable pub distributions : Context → W → Result (List Text) × W
  unfolding quiet_names
  distributions ctx w =
      let (out, w') = run ctx (bytes "--list" ∷ bytes "--quiet" ∷ []) w in
      (on_ok (λ b. quiet_names (split (decode_output b) b'\n')) out, w')
