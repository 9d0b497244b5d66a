-- ===== src/Diagnosis/Budgets.antt =====
-- The time that a snapshot of the default registry takes, from the budgets of its probes.
use envorca.Prelude.{
  ℕ, ◌+◌, ◌*◌, ◌≤◌, ◌≡◌, refl, true, false, Bool, Option, none, some, List, [], ◌∷◌, map, arith,
}
use envorca.Text.{Text, bytes}
use envorca.Api.{ComponentStatus}
use envorca.Diagnosis.{daemon_probe, wsl_probe, as_probe}
use envorca.Diagnosis.Virtualization.{virtualization_firmware}
use envorca.Diagnosis.Kernel.{kernel_probe}
use envorca.Diagnosis.Memory.{resources_status}
use envorca.Diagnosis.Container.{container_probe}
use envorca.Health.{
  with_timeout, Context, with_deadline, Component, Registry, new_registry, register, has_id,
  snapshot, snapshot_from, second,
}
use envorca.Diagnosis.Entries.{
  with_budget, Machine, built, default_registry, register_all, entries, windows_entry,
  virtualization_entry,
}
use envorca.Diagnosis.Deadlines.{
  InTime, InTime-refl, InTime-trans, KeepsDeadlines, wsl_probe-Since, kernel_probe-Since,
  container_probe-Since, virtualization_probe-Since,
}

with_deadline-InTime :
    (limit : ℕ) (d : Option ℕ) (a b : ℕ)
    → a ≤ limit
    → InTime (with_deadline limit d).deadline a b
    → InTime d a b × (b ≤ limit)
with_deadline-InTime limit none a b h k = (k.0, omega arith)
with_deadline-InTime limit (some d) a b h k = ((k.0, omega arith), omega arith)

module _ {W : Type 0} (now : W → ℕ) where
  -- A probe that keeps to its context's deadline and to a budget of its own.
  abbrev pub Thrifty : Component W → ℕ → Type 0
  Thrifty c budget =
      (ctx : Context) (w : W)
      → InTime ctx.deadline (now w) (now (c.probe ctx w).1)
        × (now (c.probe ctx w).1 ≤ now w + budget)

  -- Components and the sum of their budgets.
  pub data Budgeted : List (Component W) → ℕ → Type 0 where
    no_budget : Budgeted [] 0
    add_budget :
        (b : ℕ) {c : Component W} {cs : List (Component W)} {n : ℕ}
        → Thrifty c b
        → Budgeted cs n
        → Budgeted (c ∷ cs) (b + n)

  pub snapshot_from-Budgeted :
      {cs : List (Component W)} {n : ℕ}
      → Budgeted cs n
      → (ctx : Context) (w : W)
      → InTime ctx.deadline (now w) (now (snapshot_from cs ctx w).1)
        × (now (snapshot_from cs ctx w).1 ≤ now w + n)
  unfolding snapshot_from
  snapshot_from-Budgeted no_budget ctx w = (InTime-refl ctx.deadline (now w), omega arith)
  snapshot_from-Budgeted (add_budget b {c} {cs} {n} thrifty rest) ctx w =
      let w₁ = (c.probe ctx w).1 in
      let (first, cost) = thrifty ctx w in
      let (later, costs) = snapshot_from-Budgeted rest ctx w₁ in
      (InTime-trans ctx.deadline _ _ _ first later, omega arith)

-- The components of the default registry.
abbrev pub default_components : {W : Type 0} → Machine W → List (Component W)
default_components m =
    map (λ e. record { id = e.id; probe = with_budget m e.probe e.budget }) (entries m)

pub default_registry-components :
    {W : Type 0} (m : Machine W)
    → default_registry m ≡ built (record { components = default_components m })
unfolding default_registry new_registry register register_all entries has_id envorca.Text.text_eq
    envorca.Text.bytes
default_registry-components m = refl

module _ {W : Type 0} (m : Machine W) (keeps : KeepsDeadlines m.now m.run m.sc_query) where
  windows-InTime :
      (on : Bool) (ctx : Context) (w : W)
      → InTime ctx.deadline (m.now w) (m.now (windows_entry m on ctx w).1)
  windows-InTime true ctx w = InTime-refl ctx.deadline (m.now w)
  windows-InTime false ctx w = InTime-refl ctx.deadline (m.now w)

  virtualization-InTime :
      (on : Bool) (ctx : Context) (w : W)
      → InTime ctx.deadline (m.now w) (m.now (virtualization_entry m on ctx w).1)
  virtualization-InTime true ctx w =
      virtualization_probe-Since keeps ctx (virtualization_firmware m.feature_present).0
        (virtualization_firmware m.feature_present).1 (m.now w) w
        (InTime-refl ctx.deadline (m.now w))
  virtualization-InTime false ctx w = InTime-refl ctx.deadline (m.now w)

  -- A probe that keeps to the deadline of its context, under WithTimeout.
  with_timeout-Thrifty :
      (id : Text) (p : Context → W → ComponentStatus × W) (budget : ℕ)
      → ((ctx : Context) (w : W) → InTime ctx.deadline (m.now w) (m.now (p ctx w).1))
      → Thrifty m.now (record { id = id; probe = with_timeout m.now (as_probe p) budget }) budget
  unfolding with_timeout
  with_timeout-Thrifty id p budget in_time ctx w =
      let limited = with_deadline (m.now w + budget) ctx.deadline in
      with_deadline-InTime (m.now w + budget) ctx.deadline _ _ (omega arith) (in_time limited w)

  instant-Thrifty :
      (id : Text) (p : Context → W → ComponentStatus × W)
      → ((ctx : Context) (w : W) → (p ctx w).1 ≡ w)
      → Thrifty m.now (record { id = id; probe = as_probe p }) 0
  instant-Thrifty id p instant ctx w =
      rw (instant ctx w) (InTime-refl ctx.deadline (m.now w), omega arith)

  pub default_components-Budgeted : Budgeted m.now (default_components m) (26 * second)
  unfolding entries
  default_components-Budgeted =
      add_budget 0 (instant-Thrifty (bytes "daemon") (λ c v. (daemon_probe, v)) (λ c v. refl)) (
        add_budget (3 * second)
          (with_timeout-Thrifty (bytes "windows") (windows_entry m m.on_windows) _
            (windows-InTime m.on_windows))
          (add_budget (3 * second)
            (with_timeout-Thrifty (bytes "virtualization") (virtualization_entry m m.on_windows) _
              (virtualization-InTime m.on_windows))
            (add_budget (8 * second)
              (with_timeout-Thrifty (bytes "wsl") (wsl_probe m.run m.installed) _
                (λ c v. wsl_probe-Since keeps c m.installed _ v (InTime-refl _ _)))
              (add_budget (3 * second)
                (with_timeout-Thrifty (bytes "linux_kernel") (kernel_probe m.run m.installed) _
                  (λ c v. kernel_probe-Since keeps c m.installed _ v (InTime-refl _ _)))
                (add_budget second
                  (with_timeout-Thrifty (bytes "resources")
                    (λ c v. (resources_status (m.memory v), v)) _ (λ c v. InTime-refl _ _))
                  (add_budget (8 * second)
                    (with_timeout-Thrifty (bytes "container_runtime")
                      (container_probe m.run m.installed) _
                      (λ c v. container_probe-Since keeps c m.installed _ v (InTime-refl _ _)))
                    no_budget))))))

  -- If every command keeps to the deadline of its context, a snapshot of the default registry takes at most
  -- the 26 seconds of the probes' budgets together, and does not pass the deadline of the request that asks for it.
  pub default_registry-Budgeted :
      (ctx : Context) (w : W)
      → (r : Registry W) × (default_registry m ≡ built r)
        × InTime ctx.deadline (m.now w) (m.now (snapshot r ctx w).1)
        × (m.now (snapshot r ctx w).1 ≤ m.now w + 26 * second)
  unfolding snapshot
  default_registry-Budgeted ctx w =
      let (kept, bounded) = snapshot_from-Budgeted m.now default_components-Budgeted ctx w in
      (_, default_registry-components m, kept, bounded)
