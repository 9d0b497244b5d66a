-- ===== src/Examples/Diagnosis.antt =====
-- The probes of a small machine.
use envorca.Prelude.{ℕ, ◌<◌, ◌≤◌, ◌≡◌, ◌≢◌, ◌↔◌, ◌⊎◌, refl, true, false, [], ◌∷◌, ◌++◌, arith}
use envorca.Text.{Text, bytes}
use envorca.Api.{healthy, warning, ComponentStatus, brief}
use envorca.Wsl.{ok}
use envorca.Recovery.{new, plan}
use envorca.Diagnosis.{wsl_probe}
use envorca.Diagnosis.Kernel.{kernel_status}
use envorca.Diagnosis.Virtualization.{not_run}
use envorca.Diagnosis.Entries.{Machine}
use envorca.Diagnosis.Repairable.{as_wsl, IsOther, wsl_probe-plan}
use envorca.Diagnosis.Thresholds.{point, version_text, kernel_status-threshold}
use envorca.System.{no_resources}
use envorca.Examples.{half_minute, counting_runner}

abbrev daemon_status : ComponentStatus
daemon_status = record (brief healthy (bytes "daemon running")) { id = bytes "daemon" }

daemon_IsOther : IsOther daemon_status
unfolding envorca.Text.text_eq bytes
daemon_IsOther = refl

wsl_probe-plan_example : ((wsl_probe counting_runner true half_minute 0).0.safe_to_fix ≡ true) ↔ (
    plan new ((daemon_status ∷ []) ++ as_wsl (wsl_probe counting_runner true half_minute 0).0 ∷ [])
    ≢ [])
wsl_probe-plan_example =
    wsl_probe-plan counting_runner true half_minute 0 (daemon_status ∷ []) [] (daemon_IsOther, tt)
      tt

abbrev machine : Machine ℕ
machine = record {
  run = counting_runner;
  installed = true;
  now = λ w. w;
  on_windows = false;
  rtl_answer = λ w. record {
    code = 0;
    version = record { major = 10; minor = 0; build = 22631 };
    call_error = [];
  };
  feature_present = λ n. true;
  sc_query = λ c name w. (not_run, w);
  memory = λ w. ok no_resources;
}

abbrev old_major : ℕ
old_major = 4

abbrev old_minor : ℕ
old_minor = 19

kernel_status-threshold_example :
    (((old_major < 5) ⊎ ((old_major ≡ 5) × (old_minor < 10)))
      × ((kernel_status (ok (version_text old_major old_minor (point (bytes "128"))))).status
          ≡ warning))
    ⊎ (((5 < old_major) ⊎ ((old_major ≡ 5) × (10 ≤ old_minor)))
        × ((kernel_status (ok (version_text old_major old_minor (point (bytes "128"))))).status
            ≡ healthy))
kernel_status-threshold_example =
    kernel_status-threshold old_major old_minor (point (bytes "128")) (omega arith) (omega arith)
