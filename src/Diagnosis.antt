-- ===== src/Diagnosis.antt =====
-- The probes of the daemon's components (daemon/internal/diagnosis): each gives a status that says
-- what is wrong, why, what is recommended and whether Envorca can fix it.
pub mod Kernel
pub mod Memory
pub mod Container
pub mod Virtualization
pub mod Entries
pub mod Deadlines
pub mod Budgets
pub mod Hung
pub mod Repairable
pub mod Thresholds
use envorca.Prelude.{
  ℕ, zero, suc, ◌*◌, Bool, true, false, not, ◌||◌, Option, none, some, List, [], ◌∷◌, ◌++◌, is_none,
  if◌then◌else◌,
}
use envorca.Text.{Text, bytes, text_eq}
use envorca.Api.{Status, healthy, warning, critical, unknown, ComponentStatus, brief, explained}
use envorca.Health.{
  Context, Outcome, returned, Probe, Registry, RegisterError, new_registry, register, with_timeout,
}
use envorca.Wsl.{Runner, Result, ok, err, default_distro, boot, list}
use envorca.Wsl.Listing.{Distro}

-- What the summary says of the default distribution of a listing: of the first one only.
unfoldable pub running_note : List Distro → Text
running_note [] = []
running_note (d ∷ ds) =
    let rest = running_note ds in
    if d.default
    then if not d.running then bytes " (stopped; boots on demand)" else bytes " (running)"
    else rest

unfoldable pub not_installed_status : ComponentStatus
not_installed_status =
    explained critical (bytes "WSL is not installed")
      (bytes "Envorca requires WSL2 to run Linux containers.")
      (bytes "Enable WSL2 (optional Windows component); on Windows 11 run `wsl --install`.") false

unfoldable pub no_query_status : ComponentStatus
no_query_status =
    explained critical (bytes "could not query WSL status")
      (bytes "WSL is broken or the Virtual Machine Platform is unavailable.")
      (bytes "Restart the WSL environment or repair Windows virtualization.") true

unfoldable pub no_distro_status : ComponentStatus
no_distro_status =
    explained warning (bytes "no default Linux distribution")
      (bytes "Containers need a Linux distribution to run in.")
      (bytes "Install a distribution (e.g. `wsl --install -d Ubuntu`).") false

unfoldable pub no_boot_status : ComponentStatus
no_boot_status =
    explained critical (bytes "Linux environment failed to start")
      (bytes "Containers cannot start while the WSL environment is broken.")
      (bytes "Restart the WSL environment.") true

abbrev pub listed_note : Result (List Distro) → Text
listed_note (err e) = []
listed_note (ok distros) = running_note distros

module _ {W : Type 0} (run : Runner W) where
  abbrev pub after_list : Text → Result (List Distro) × W → ComponentStatus × W
  after_list distro (listing, w) =
      (brief healthy ((bytes "WSL2 ready; default distro " ++ distro) ++ listed_note listing), w)

  abbrev pub after_boot : Context → Text → Option Text × W → ComponentStatus × W
  after_boot ctx distro (some e, w) = (no_boot_status, w)
  after_boot ctx distro (none, w) = after_list distro (list run ctx w)

  abbrev pub after_distro : Context → Result Text × W → ComponentStatus × W
  after_distro ctx (err e, w) = (no_query_status, w)
  after_distro ctx (ok [], w) = (no_distro_status, w)
  after_distro ctx (ok (c ∷ d), w) = after_boot ctx (c ∷ d) (boot run ctx (c ∷ d) w)

  -- The first argument is what Available gives.
  unfoldable pub wsl_probe : Bool → Context → W → ComponentStatus × W
  unfolding running_note not_installed_status no_query_status no_distro_status no_boot_status
  wsl_probe installed ctx w =
      if not installed
      then (not_installed_status, w)
      else after_distro ctx (default_distro run ctx w)

abbrev pub daemon_probe : ComponentStatus
daemon_probe = brief healthy (bytes "daemon running")

-- A probe of the registry, from a function that does not panic.
abbrev pub as_probe : {W : Type 0} → (Context → W → ComponentStatus × W) → Probe W
as_probe p ctx w = let (st, w') = p ctx w in (returned st, w')
