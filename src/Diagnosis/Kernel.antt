-- ===== src/Diagnosis/Kernel.antt =====
-- The kernel probe: the version that `wsl --version` names, against the lowest healthy one.
use envorca.Prelude.{
  ℕ, Bool, false, not, ◌&&◌, ◌||◌, Option, none, some, List, [], ◌∷◌, ◌++◌, ◌==◌, if◌then◌else◌, ℤ,
  pos, ltb_ℤ, eqb_ℤ,
}
use envorca.Text.{Text, bytes, split}
use envorca.Text.Decimal.{atoi, itoa}
use envorca.Api.{healthy, warning, unknown, ComponentStatus, brief, explained}
use envorca.Health.{Context}
use envorca.Wsl.{Runner, Result, ok, err, kernel_version}

abbrev pub min_kernel_major : ℕ
min_kernel_major = 5

abbrev pub min_kernel_minor : ℕ
min_kernel_minor = 10

-- What stands before the first of the bytes - + _
unfoldable pub core : Text → Text
core [] = []
core (c ∷ s) =
    let rest = core s in if (c == b'-') || ((c == b'+') || (c == b'_')) then [] else c ∷ rest

abbrev pub both : Option ℤ → Option ℤ → Option (ℤ × ℤ)
both (some maj) (some min) = some (maj, min)
both _ _ = none

abbrev pub major_minor : List Text → Option (ℤ × ℤ)
major_minor (a ∷ b ∷ rest) = both (atoi a) (atoi b)
major_minor _ = none

unfoldable pub parse_kernel_version : Text → Option (ℤ × ℤ)
unfolding core
parse_kernel_version s = major_minor (split (core s) b'.')

unfoldable pub too_old : ℤ → ℤ → Bool
too_old maj min =
    ltb_ℤ maj (pos min_kernel_major)
    || (eqb_ℤ maj (pos min_kernel_major) && ltb_ℤ min (pos min_kernel_minor))

unfoldable pub old_kernel_status : Text → ComponentStatus
old_kernel_status kv =
    explained warning
      ((bytes "kernel " ++ kv)
        ++ (bytes " is older than the required "
            ++ (itoa min_kernel_major ++ (bytes "." ++ itoa min_kernel_minor))))
      (bytes "An outdated WSL kernel can cause VM and container stability problems.")
      (bytes "Update WSL: run `wsl --update` from an elevated shell.") false

abbrev pub after_parse : Text → Option (ℤ × ℤ) → ComponentStatus
after_parse kv none = brief healthy kv
after_parse kv (some (maj, min)) =
    if too_old maj min then old_kernel_status kv else brief healthy kv

abbrev pub unavailable : ComponentStatus
unavailable = brief unknown (bytes "kernel version unavailable")

-- The status for what KernelVersion returned.
unfoldable pub kernel_status : Result Text → ComponentStatus
unfolding parse_kernel_version too_old old_kernel_status
kernel_status (err e) = unavailable
kernel_status (ok []) = unavailable
kernel_status (ok (c ∷ kv)) = after_parse (c ∷ kv) (parse_kernel_version (c ∷ kv))

abbrev pub with_kernel : {W : Type 0} → Result Text × W → ComponentStatus × W
with_kernel (kv, w) = (kernel_status kv, w)

unfoldable pub kernel_probe : {W : Type 0} → Runner W → Bool → Context → W → ComponentStatus × W
unfolding kernel_status
kernel_probe run installed ctx w =
    if not installed
    then (brief unknown (bytes "WSL not installed; kernel probe skipped"), w)
    else with_kernel (kernel_version run ctx w)
