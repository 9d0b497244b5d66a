-- ===== src/Diagnosis/Virtualization.antt =====
-- The Windows and virtualization probes (probes_windows.go, probes_stub.go). The processor's flags,
-- `sc query` and RtlGetVersion are the system's and are given.
use envorca.Prelude.{
  ℕ, Bool, true, false, not, ◌&&◌, Option, none, some, [], ◌∷◌, ◌++◌, ◌==◌, if◌then◌else◌,
}
use envorca.Text.{Text, bytes, contains}
use envorca.Text.Decimal.{itoa}
use envorca.Api.{healthy, critical, unknown, ComponentStatus, brief, explained}
use envorca.Health.{Context}
use envorca.Wsl.{Runner, Result, ok, err}

pub record OsVersion : Type 0 where
  pub major : ℕ
  pub minor : ℕ
  pub build : ℕ

-- What RtlGetVersion gives: its status, the fields that it fills, and the error of the call.
pub record RtlAnswer : Type 0 where
  pub code : ℕ
  pub version : OsVersion
  pub call_error : Text

unfoldable pub rtl_get_version : RtlAnswer → Result OsVersion
rtl_get_version a = if a.code == 0 then ok a.version else err a.call_error

unfoldable pub windows_probe : Result OsVersion → ComponentStatus
windows_probe (err e) = record (brief critical (bytes "could not read Windows version")) {
  reason = bytes "Envorca is a Windows application; a readable OS version is required.";
}
windows_probe (ok v) = brief healthy (
    bytes "Windows "
    ++ (itoa v.major
        ++ (bytes "." ++ (itoa v.minor ++ (bytes " (build " ++ (itoa v.build ++ bytes ")"))))))

-- What `sc.exe query` gives: its output, or the exit code, if it exited at all.
pub data ScQuery : Type 0 where
  answered : Text → ScQuery
  exited : ℕ → ScQuery
  not_run : ScQuery

-- installed, running; `none` is an error
pub record ServiceState : Type 0 where
  pub installed : Bool
  pub running : Bool

abbrev pub sc_service_not_installed : ℕ
sc_service_not_installed = 1060

unfoldable pub sc_query_running : Text → Bool
sc_query_running body = contains body (bytes "RUNNING")

unfoldable pub service_state : ScQuery → Option ServiceState
unfolding sc_query_running
service_state (answered out) = some (record { installed = true; running = sc_query_running out })
service_state (exited code) =
    if code == sc_service_not_installed
    then some (record { installed = false; running = false })
    else none
service_state not_run = none

abbrev pub pf_second_level_address_translation : ℕ
pf_second_level_address_translation = 20

abbrev pub pf_virt_firmware_enabled : ℕ
pf_virt_firmware_enabled = 23

-- Whether IsProcessorFeaturePresent says that the two features are there; virtualization first.
unfoldable pub virtualization_firmware : (ℕ → Bool) → Bool × Bool
virtualization_firmware present =
    (present pf_virt_firmware_enabled, present pf_second_level_address_translation)

abbrev pub crit : Text → Text → Text → ComponentStatus
crit summary reason rec = explained critical summary reason rec false

unfoldable pub no_cpu_status : ComponentStatus
no_cpu_status =
    crit (bytes "CPU virtualization is disabled")
      (bytes "WSL2 cannot run while virtualization is turned off in the processor or firmware.")
      (bytes
        "Enable Intel VT-x or AMD-V (virtualization) in BIOS/UEFI and/or in Windows' 'Virtual Machine Platform' settings.")

unfoldable pub no_slat_status : ComponentStatus
no_slat_status =
    crit (bytes "CPU second-level address translation unavailable")
      (bytes "WSL2 needs SLAT/EPT support to run a hypervisor.")
      (bytes
        "Enable the virtualization technology for the platform in BIOS/UEFI and confirm CPU SLAT support.")

unfoldable pub no_platform_status : ComponentStatus
no_platform_status =
    crit (bytes "Virtual Machine Platform is not installed")
      (bytes
        "WSL2 depends on the 'Virtual Machine Platform' optional feature; without it no Hyper-V VM can start.")
      (bytes
        "Enable it: run `wsl --install` or `dism /online /enable-feature /featurename:VirtualMachinePlatform /all /norestart` from an elevated shell, then reboot.")

unfoldable pub host_stopped_status : ComponentStatus
host_stopped_status =
    crit (bytes "Hyper-V host service is stopped")
      (bytes "The vmcompute service (Virtual Machine Platform) is installed but not running.")
      (bytes
        "Start the service: run `net start vmcompute` from an elevated shell, or restart Windows.")

unfoldable pub wsl_stopped_status : ComponentStatus
wsl_stopped_status =
    crit (bytes "WSL service is stopped") (bytes "The WSL service is installed but not running.") (
      bytes
        "Start it: run `net start WslService` from an elevated shell, or run `wsl --shutdown` and start again.")

unfoldable pub generic_status : ComponentStatus
generic_status =
    crit (bytes "CPU virtualization or Virtual Machine Platform unavailable")
      (bytes
        "WSL2 cannot run without virtualization support enabled in firmware and the VirtualMachinePlatform Windows feature.")
      (bytes
        "Enable virtualization in BIOS/UEFI and enable the 'Virtual Machine Platform' and 'Windows Subsystem for Linux' features.")

abbrev pub skipped : ComponentStatus
skipped = brief unknown (bytes "running on non-Windows; check skipped")

module _ {W : Type 0} (run : Runner W) (sc_query : Context → Text → W → ScQuery × W) where
  abbrev pub wsl_service : Option ServiceState → ComponentStatus
  wsl_service none = generic_status
  wsl_service (some s) = if s.installed && not s.running then wsl_stopped_status else generic_status

  abbrev pub after_wsl_service : ScQuery × W → ComponentStatus × W
  after_wsl_service (answer, w) = (wsl_service (service_state answer), w)

  abbrev pub after_vmcompute : Context → Option ServiceState → W → ComponentStatus × W
  after_vmcompute ctx none w = after_wsl_service (sc_query ctx (bytes "WslService") w)
  after_vmcompute ctx (some s) w =
      if not s.installed
      then (no_platform_status, w)
      else if not s.running
      then (host_stopped_status, w)
      else after_wsl_service (sc_query ctx (bytes "WslService") w)

  abbrev pub with_vmcompute : Context → ScQuery × W → ComponentStatus × W
  with_vmcompute ctx (answer, w) = after_vmcompute ctx (service_state answer) w

  -- The two flags of virtualizationFirmware come first.
  unfoldable pub diagnose_virtualization : Bool → Bool → Context → W → ComponentStatus × W
  unfolding service_state no_cpu_status no_slat_status no_platform_status host_stopped_status
      wsl_stopped_status generic_status
  diagnose_virtualization cpu slat ctx w =
      if not cpu
      then (no_cpu_status, w)
      else if not slat
      then (no_slat_status, w)
      else with_vmcompute ctx (sc_query ctx (bytes "vmcompute") w)

  abbrev pub after_status : Bool → Bool → Context → Result Text × W → ComponentStatus × W
  after_status cpu slat ctx (ok out, w) =
      (brief healthy (bytes "CPU virtualization and Virtual Machine Platform available"), w)
  after_status cpu slat ctx (err e, w) = diagnose_virtualization cpu slat ctx w

  unfoldable pub virtualization_probe : Bool → Bool → Context → W → ComponentStatus × W
  unfolding diagnose_virtualization
  virtualization_probe cpu slat ctx w =
      after_status cpu slat ctx (run ctx (bytes "--status" ∷ []) w)
