-- ===== src/Health/Aggregate.antt =====
-- OverallStatus against an independent description: the worst severity among the components.
use mathlib.Core.List.{Perm, Permᴰ}
use mathlib.Core.Path.{ap₂}
use native.Mathlib.Nat.{ℕ_set}
use mathlib.Core.Logic.{∥∥₁_elim}
use envorca.Prelude.{ℕ, zero, suc, ◌≡◌, refl, ◌∙◌, ap, ◌≤◌, max, List, [], ◌∷◌, arith}
use envorca.Api.{Status, healthy, warning, critical, unknown, ComponentStatus}
use envorca.Health.{overall_from, overall_status}

-- CRITICAL above WARNING above UNKNOWN above HEALTHY.
abbrev pub severity : Status → ℕ
severity Status.critical = 3
severity Status.warning = 2
severity Status.unknown = 1
severity _ = 0

abbrev pub of_severity : ℕ → Status
of_severity zero = healthy
of_severity (suc zero) = unknown
of_severity (suc (suc zero)) = warning
of_severity (suc (suc (suc n))) = critical

abbrev pub worst : List ComponentStatus → ℕ
worst [] = 0
worst (c ∷ cs) = max (severity c.status) (worst cs)

worst_le : (cs : List ComponentStatus) → worst cs ≤ 3
worst_le [] = omega arith
worst_le (c ∷ cs) = ground (arith, worst_le cs)

overall_from-of_severity :
    (k : ℕ) (cs : List ComponentStatus)
    → k ≤ 2
    → overall_from (of_severity k) cs ≡ of_severity (max k (worst cs))
unfolding overall_from
overall_from-of_severity zero [] h = refl
overall_from-of_severity (suc zero) [] h = refl
overall_from-of_severity (suc (suc zero)) [] h = refl
overall_from-of_severity (suc (suc (suc k))) cs h = absurd (omega arith)
overall_from-of_severity zero (c ∷ cs) h = ground (
  arith,
  overall_from-of_severity 0 cs,
  overall_from-of_severity 1 cs,
  overall_from-of_severity 2 cs,
  worst_le cs,
)
overall_from-of_severity (suc zero) (c ∷ cs) h =
    ground (arith, overall_from-of_severity 1 cs, overall_from-of_severity 2 cs, worst_le cs)
overall_from-of_severity (suc (suc zero)) (c ∷ cs) h =
    ground (arith, overall_from-of_severity 2 cs, worst_le cs)

-- OverallStatus returns the status of the worst severity among the components: CRITICAL if one is
-- critical, else WARNING if one is, else UNKNOWN if one is, else HEALTHY.
pub overall_status-worst : (cs : List ComponentStatus) → overall_status cs ≡ of_severity (worst cs)
unfolding overall_status
overall_status-worst cs = overall_from-of_severity 0 cs (omega arith) ∙ ap of_severity (omega arith)

worst-permᴰ : {cs ds : List ComponentStatus} → Permᴰ cs ds → worst cs ≡ worst ds
worst-permᴰ Permᴰ.nil = refl
worst-permᴰ (Permᴰ.cons e p) = ap₂ max (ap (λ c. severity c.status) e) (worst-permᴰ p)
worst-permᴰ (Permᴰ.swap {a = a} {b = b} {l = l} e f) = rw (← e, ← f) (omega arith)
worst-permᴰ (Permᴰ.trans p q) = worst-permᴰ p ∙ worst-permᴰ q

-- The overall status does not depend on the order in which the components are listed.
pub overall_status-perm :
    {cs ds : List ComponentStatus} → Perm cs ds → overall_status cs ≡ overall_status ds
overall_status-perm {cs} {ds} p =
    rw (overall_status-worst cs, overall_status-worst ds)
      (ap of_severity (∥∥₁_elim p (ℕ_set _ _) worst-permᴰ))
