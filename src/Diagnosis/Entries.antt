-- ===== src/Diagnosis/Entries.antt =====
-- The default registry of the daemon: the seven probes, in the order of display, and their budgets.
use envorca.Prelude.{
  ℕ, zero, suc, ◌*◌, ◌≡◌, refl, Bool, true, false, Option, none, some, List, [], ◌∷◌, map,
}
use envorca.Text.{Text, bytes, text_eq}
use envorca.Api.{ComponentStatus}
use envorca.Health.{
  Context, Probe, Registry, RegisterError, new_registry, register, has_id, second, snapshot,
  with_timeout,
}
use envorca.Health.Reports.{snapshot-ids}
use envorca.Wsl.{Runner, Result}
use envorca.System.{Resources}
use envorca.Diagnosis.{daemon_probe, wsl_probe, as_probe}
use envorca.Diagnosis.Kernel.{kernel_probe}
use envorca.Diagnosis.Memory.{resources_status}
use envorca.Diagnosis.Container.{container_probe}
use envorca.Diagnosis.Virtualization.{
  RtlAnswer, rtl_get_version, virtualization_firmware, ScQuery, windows_probe, virtualization_probe,
  skipped,
}

-- What the probes ask of the machine. `on_windows` says which build it is.
pub record Machine (W : Type 0) : Type 0 where
  pub run : Runner W
  pub installed : Bool
  pub now : W → ℕ
  pub on_windows : Bool
  pub rtl_answer : W → RtlAnswer
  pub feature_present : ℕ → Bool
  pub sc_query : Context → Text → W → ScQuery × W
  pub memory : W → Result Resources

pub record Entry (W : Type 0) : Type 0 where
  pub id : Text
  pub probe : Probe W
  pub budget : ℕ

pub data Built (W : Type 0) : Type 0 where
  built : Registry W → Built W
  rejected : RegisterError → Built W

module _ {W : Type 0} (m : Machine W) where
  abbrev pub windows_entry : Bool → Context → W → ComponentStatus × W
  windows_entry true ctx w = (windows_probe (rtl_get_version (m.rtl_answer w)), w)
  windows_entry false ctx w = (skipped, w)

  abbrev pub virtualization_entry : Bool → Context → W → ComponentStatus × W
  virtualization_entry true ctx w =
      let (cpu, slat) = virtualization_firmware m.feature_present in
      virtualization_probe m.run m.sc_query cpu slat ctx w
  virtualization_entry false ctx w = (skipped, w)

  abbrev pub entry_of : Text → (Context → W → ComponentStatus × W) → ℕ → Entry W
  entry_of id p d = record { id = id; probe = as_probe p; budget = d }

  unfoldable pub entries : List (Entry W)
  entries =
      entry_of (bytes "daemon") (λ ctx w. (daemon_probe, w)) 0
      ∷ entry_of (bytes "windows") (windows_entry m.on_windows) (3 * second)
      ∷ entry_of (bytes "virtualization") (virtualization_entry m.on_windows) (3 * second)
      ∷ entry_of (bytes "wsl") (wsl_probe m.run m.installed) (8 * second)
      ∷ entry_of (bytes "linux_kernel") (kernel_probe m.run m.installed) (3 * second)
      ∷ entry_of (bytes "resources") (λ ctx w. (resources_status (m.memory w), w)) second
      ∷ entry_of (bytes "container_runtime") (container_probe m.run m.installed) (8 * second)
      ∷ []

  abbrev pub with_budget : Probe W → ℕ → Probe W
  with_budget p zero = p
  with_budget p (suc d) = with_timeout m.now p (suc d)

  -- The loop that registers the entries; it ends at the first error.
  unfoldable pub register_all : List (Entry W) → Registry W × Option RegisterError → Built W
  register_all es (r, some e) = rejected e
  register_all [] (r, none) = built r
  register_all (e ∷ es) (r, none) =
      register_all es (register r e.id (some (with_budget e.probe e.budget)))

  unfoldable pub default_registry : Built W
  unfolding entries register_all
  default_registry = register_all entries (new_registry, none)

-- The identifiers in the order in which status and doctor list them.
abbrev pub display_order : List Text
display_order =
    bytes "daemon"
    ∷ bytes "windows"
    ∷ bytes "virtualization"
    ∷ bytes "wsl"
    ∷ bytes "linux_kernel"
    ∷ bytes "resources"
    ∷ bytes "container_runtime"
    ∷ []

-- The default registry is built without an error, and a snapshot of it has one status for each of the
-- seven components, in the order of display.
pub default_registry-display_order :
    {W : Type 0} (m : Machine W) (ctx : Context) (w : W)
    → (r : Registry W) × (default_registry m ≡ built r)
      × (map (λ s. s.id) (snapshot r ctx w).0 ≡ display_order)
unfolding default_registry new_registry register register_all entries has_id text_eq bytes
default_registry-display_order m ctx w = (_, refl, (snapshot-ids _ ctx w).0)
