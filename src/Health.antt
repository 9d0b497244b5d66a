-- ===== src/Health.antt =====
-- The component registry (daemon/internal/health/health.go). A probe may change the outside world
-- `W`, which is passed along; it returns a status or panics. A context is its deadline.
pub mod Aggregate
pub mod Registration
pub mod Reports
use envorca.Prelude.{
  ℕ, ◌+◌, min, Bool, true, false, Option, none, some, List, [], ◌∷◌, ◌++◌, if◌then◌else◌, any_by,
}
use envorca.Text.{Text, bytes, text_eq}
use envorca.Api.{
  Status, healthy, warning, critical, unknown, status_unspecified, ComponentStatus, brief,
}

pub record Context : Type 0 where
  pub deadline : Option ℕ

-- time.Second, in the unit of time.Duration.
abbrev pub second : ℕ
second = 1000000000

-- context.WithTimeout: the earlier of the parent's deadline and `limit`.
abbrev pub with_deadline : ℕ → Option ℕ → Context
with_deadline limit none = record { deadline = some limit }
with_deadline limit (some d) = record { deadline = some (min limit d) }

pub data Outcome (A : Type 0) : Type 0 where
  returned : A → Outcome A
  panicked : Text → Outcome A

abbrev pub Probe : Type 0 → Type 0
Probe W = Context → W → Outcome ComponentStatus × W

pub record Component (W : Type 0) : Type 0 where
  pub id : Text
  pub probe : Probe W

pub record Registry (W : Type 0) : Type 0 where
  pub components : List (Component W)

pub data RegisterError : Type 0 where
  already_registered : Text → RegisterError

-- The deferred recover of Snapshot.
unfoldable pub recovered : Text → Outcome ComponentStatus → ComponentStatus
recovered id (returned st) = st
recovered id (panicked p) = record (brief critical (bytes "probe panicked: " ++ p)) { id = id }

abbrev pub specified : Status → Status
specified Status.status_unspecified = unknown
specified st = st

-- One round of Snapshot, after the probe.
unfoldable pub stamped : Text → Outcome ComponentStatus → ComponentStatus
unfolding recovered
stamped id o = let st = recovered id o in record st { id = id; status = specified st.status }

module _ {W : Type 0} where
  unfoldable pub new_registry : Registry W
  new_registry = record { components = [] }

  -- What a nil probe is replaced by.
  unfoldable pub nil_probe : Probe W
  nil_probe ctx w = (returned (brief unknown []), w)

  abbrev pub or_nil_probe : Option (Probe W) → Probe W
  or_nil_probe none = nil_probe
  or_nil_probe (some p) = p

  -- The loop of Register that looks for the identifier.
  unfoldable pub has_id : Text → List (Component W) → Bool
  has_id id [] = false
  has_id id (c ∷ cs) = elim (text_eq c.id id) [ true ↦ true | false ↦ has_id id cs ]

  unfoldable pub register : Registry W → Text → Option (Probe W) → Registry W × Option RegisterError
  register r id p = if has_id id r.components then (r, some (already_registered id)) else (
    record r { components = r.components ++ record { id = id; probe = or_nil_probe p } ∷ [] },
    none,
  )

  unfoldable pub snapshot_from : List (Component W) → Context → W → List ComponentStatus × W
  unfolding stamped
  snapshot_from [] ctx w = ([], w)
  snapshot_from (c ∷ cs) ctx w =
      let (o, w₁) = c.probe ctx w in
      let (rest, w₂) = snapshot_from cs ctx w₁ in (stamped c.id o ∷ rest, w₂)

  unfoldable pub snapshot : Registry W → Context → W → List ComponentStatus × W
  unfolding snapshot_from
  snapshot r ctx w = snapshot_from r.components ctx w

  unfoldable pub not_yet_diagnosed : Text → Probe W
  not_yet_diagnosed id ctx w = (returned (brief unknown (bytes "not yet diagnosed")), w)

  -- `now` reads the clock.
  unfoldable pub with_timeout : (W → ℕ) → Probe W → ℕ → Probe W
  with_timeout now p d ctx w = p (with_deadline (now w + d) ctx.deadline) w

-- The case of UNKNOWN in the loop of OverallStatus.
abbrev pub after_unknown : Status → Status
after_unknown Status.warning = warning
after_unknown overall = unknown

unfoldable pub overall_from : Status → List ComponentStatus → Status
overall_from overall [] = overall
overall_from overall (c ∷ cs) = elim c.status [
  | Status.critical ↦ critical
  | Status.warning ↦ overall_from warning cs
  | Status.unknown ↦ overall_from (after_unknown overall) cs
  | _ ↦ overall_from overall cs
]

unfoldable pub overall_status : List ComponentStatus → Status
unfolding overall_from
overall_status components = overall_from healthy components
