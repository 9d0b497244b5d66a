-- ===== src/Diagnosis/Thresholds.antt =====
-- When the kernel probe warns, and what the virtualization probe concludes.
use envorca.Prelude.{
  ℕ, ◌^◌, ◌<◌, ◌≤◌, ◌≡◌, ◌⊎◌, inl, inr, refl, Bool, true, false, Option, none, some, List, [], ◌∷◌,
  ◌++◌, All, arith, pos, append-nil,
}
use envorca.Text.{Text, bytes, split}
use envorca.Text.Decimal.{itoa}
use envorca.Text.Digits.{Digit, itoa-Digits, atoi-itoa}
use envorca.Api.{healthy, critical, warning, ComponentStatus}
use envorca.Health.{Context}
use envorca.Wsl.{Runner, Result, ok, err}
use envorca.Runtime.Listing.{Without, split-append, split-Without}
use envorca.Diagnosis.Kernel.{
  core, parse_kernel_version, too_old, kernel_status, after_parse, old_kernel_status,
}
use envorca.Diagnosis.Virtualization.{
  ScQuery, ServiceState, service_state, diagnose_virtualization, after_vmcompute,
  virtualization_probe, after_status, wsl_service, wsl_stopped_status, generic_status,
  no_platform_status, host_stopped_status, no_cpu_status, no_slat_status,
}

-- What follows the minor version: nothing, or more behind a point or a hyphen.
pub data Suffix : Type 0 where
  ends : Suffix
  point hyphen : Text → Suffix

abbrev pub suffix_text : Suffix → Text
suffix_text ends = []
suffix_text (point s) = b'.' ∷ s
suffix_text (hyphen s) = b'-' ∷ s

abbrev pub version_text : ℕ → ℕ → Suffix → Text
version_text maj min s = itoa maj ++ b'.' ∷ (itoa min ++ suffix_text s)

Digits-All : (n : ℕ) → All Digit (itoa n)
Digits-All n = let (c, t, e, d, ds) = itoa-Digits n in rw e (d, ds)

core-append : (s t : Text) → All Digit s → core (s ++ t) ≡ s ++ core t
unfolding core
core-append [] t h = refl
core-append (c ∷ s) t (d, h) = ground (arith, core-append s t h)

Digits-Without : (s : Text) → All Digit s → Without b'.' s
Digits-Without [] h = refl
Digits-Without (c ∷ s) (d, h) = ground (arith, Digits-Without s h)

split-suffix :
    (m : Text) (s : Suffix)
    → Without b'.' m
    → (rest : List Text) × (split (m ++ core (suffix_text s)) b'.' ≡ m ∷ rest)
unfolding core
split-suffix m ends h = ([], rw (append-nil m) (split-Without b'.' m h))
split-suffix m (point s) h = (_, split-append b'.' m _ h)
split-suffix m (hyphen s) h = ([], rw (append-nil m) (split-Without b'.' m h))

-- A kernel version that begins with two numbers of an int is read as these.
parse_kernel_version-version_text :
    (maj min : ℕ) (s : Suffix)
    → maj < 2 ^ 63
    → min < 2 ^ 63
    → parse_kernel_version (version_text maj min s) ≡ some (pos maj, pos min)
unfolding parse_kernel_version core
parse_kernel_version-version_text maj min s h k =
    let (rest, e) = split-suffix (itoa min) s (Digits-Without _ (Digits-All min)) in
    rw
      (
        core-append (itoa maj) (b'.' ∷ (itoa min ++ suffix_text s)) (Digits-All maj),
        core-append (itoa min) (suffix_text s) (Digits-All min),
        split-append b'.' (itoa maj) (itoa min ++ core (suffix_text s))
            (Digits-Without _ (Digits-All maj)),
        e,
        atoi-itoa maj h,
        atoi-itoa min k,
      )
      refl

kernel_status-append :
    (s t : Text) (b : ℕ)
    → kernel_status (ok (s ++ b ∷ t)) ≡ after_parse (s ++ b ∷ t) (parse_kernel_version (s ++ b ∷ t))
unfolding kernel_status
kernel_status-append [] t b = refl
kernel_status-append (c ∷ s) t b = refl

after_parse-threshold :
    (kv : Text) (maj min : ℕ)
    → let st = (after_parse kv (some (pos maj, pos min))).status in
      (((maj < 5) ⊎ ((maj ≡ 5) × (min < 10))) × (st ≡ warning))
      ⊎ (((5 < maj) ⊎ ((maj ≡ 5) × (10 ≤ min))) × (st ≡ healthy))
unfolding too_old old_kernel_status
after_parse-threshold kv maj min = ground arith

-- The kernel probe warns exactly of a version below 5.10, and is content with any later one.
pub kernel_status-threshold :
    (maj min : ℕ) (s : Suffix)
    → maj < 2 ^ 63
    → min < 2 ^ 63
    → let st = (kernel_status (ok (version_text maj min s))).status in
      (((maj < 5) ⊎ ((maj ≡ 5) × (min < 10))) × (st ≡ warning))
      ⊎ (((5 < maj) ⊎ ((maj ≡ 5) × (10 ≤ min))) × (st ≡ healthy))
kernel_status-threshold maj min s h k =
    rw
      (
        kernel_status-append (itoa maj) (itoa min ++ suffix_text s) b'.',
        parse_kernel_version-version_text maj min s h k,
      )
      (after_parse-threshold (version_text maj min s) maj min)

module _ {W : Type 0} (run : Runner W) (sc_query : Context → Text → W → ScQuery × W) where
  abbrev pub Broken : ComponentStatus → Type 0
  Broken st = (st.status ≡ critical) × (st.safe_to_fix ≡ false)

  wsl_service-Broken : (s : Option ServiceState) → Broken (wsl_service run sc_query s)
  unfolding wsl_stopped_status generic_status
  wsl_service-Broken none = (refl, refl)
  wsl_service-Broken (some s) = ground arith

  vmcompute_state-Broken :
      (ctx : Context) (s : ServiceState) (w : W)
      → Broken (wsl_service run sc_query (service_state (sc_query ctx (bytes "WslService") w).0))
      → Broken (after_vmcompute run sc_query ctx (some s) w).0
  unfolding no_platform_status host_stopped_status
  vmcompute_state-Broken ctx s w h = ground arith

  after_vmcompute-Broken :
      (ctx : Context) (s : Option ServiceState) (w : W)
      → Broken (after_vmcompute run sc_query ctx s w).0
  after_vmcompute-Broken ctx none w =
      wsl_service-Broken (service_state (sc_query ctx (bytes "WslService") w).0)
  after_vmcompute-Broken ctx (some s) w =
      vmcompute_state-Broken ctx s w
        (wsl_service-Broken (service_state (sc_query ctx (bytes "WslService") w).0))

  diagnose_virtualization-Broken :
      (cpu slat : Bool) (ctx : Context) (w : W)
      → Broken (diagnose_virtualization run sc_query cpu slat ctx w).0
  unfolding diagnose_virtualization no_cpu_status no_slat_status
  diagnose_virtualization-Broken false slat ctx w = (refl, refl)
  diagnose_virtualization-Broken true false ctx w = (refl, refl)
  diagnose_virtualization-Broken true true ctx w =
      after_vmcompute-Broken ctx (service_state (sc_query ctx (bytes "vmcompute") w).0) _

  after_status-Broken :
      (cpu slat : Bool) (ctx : Context) (r : Result Text × W)
      → let st = (after_status run sc_query cpu slat ctx r).0 in
        ((out : Text) × (r.0 ≡ ok out) × (st.status ≡ healthy))
        ⊎ ((e : Text) × (r.0 ≡ err e) × Broken st)
  after_status-Broken cpu slat ctx (ok out, w) = inl (out, refl, refl)
  after_status-Broken cpu slat ctx (err e, w) =
      inr (e, refl, diagnose_virtualization-Broken cpu slat ctx w)

  -- The virtualization probe is healthy exactly when `wsl --status` succeeds; otherwise, whatever the
  -- checks find, it is critical and nothing that Envorca can fix.
  pub virtualization_probe-status :
      (cpu slat : Bool) (ctx : Context) (w : W)
      → let st = (virtualization_probe run sc_query cpu slat ctx w).0 in
        ((out : Text) × ((run ctx (bytes "--status" ∷ []) w).0 ≡ ok out) × (st.status ≡ healthy))
        ⊎ ((e : Text) × ((run ctx (bytes "--status" ∷ []) w).0 ≡ err e) × Broken st)
  unfolding virtualization_probe
  virtualization_probe-status cpu slat ctx w = after_status-Broken cpu slat ctx _
