-- ===== src/Examples/Health.antt =====
-- Registries and statuses.
use envorca.Prelude.{ℕ, ◌+◌, ◌≡◌, ◌≢◌, refl, ◌⊎◌, none, some, List, [], ◌∷◌, ◌++◌, map, All}
use envorca.Text.{bytes}
use envorca.Api.{healthy, critical, unknown, warning, ComponentStatus, brief}
use envorca.Health.{
  Component, Registry, returned, panicked, register, snapshot_from, overall_status,
  already_registered,
}
use envorca.Health.Aggregate.{of_severity, worst, overall_status-worst}
use envorca.Health.Registration.{UniqueIds, register-UniqueIds}
use envorca.Examples.{half_minute}

abbrev steady : Component ℕ
steady = record { id = bytes "steady"; probe = λ c w. (returned (brief healthy []), w + 1) }

abbrev crashing : Component ℕ
crashing = record { id = bytes "crashing"; probe = λ c w. (panicked (bytes "nil map"), w + 2) }

abbrev two : Registry ℕ
two = record { components = steady ∷ crashing ∷ [] }

abbrev statuses : List ComponentStatus
statuses = brief warning [] ∷ brief critical [] ∷ brief unknown [] ∷ []

overall_status-worst_example : overall_status statuses ≡ of_severity (worst statuses)
overall_status-worst_example = overall_status-worst statuses

two_ids : UniqueIds two.components
unfolding bytes
two_ids = (((λ e. cc), tt), (tt, tt))

register-UniqueIds_example :
    UniqueIds (register two (bytes "steady") none).0.components
    × (((register two (bytes "steady") none).1 ≡ none)
          × (map (λ c. c.id) (register two (bytes "steady") none).0.components
              ≡ map (λ c. c.id) two.components ++ bytes "steady" ∷ [])
        ⊎ ((register two (bytes "steady") none).1 ≡ some (already_registered (bytes "steady")))
          × ((register two (bytes "steady") none).0 ≡ two)
          × ¬ All (λ c. bytes "steady" ≢ c.id) two.components)
register-UniqueIds_example = register-UniqueIds two (bytes "steady") none two_ids

crashing_panics :
    crashing.probe half_minute (snapshot_from (steady ∷ []) half_minute 0).1
    ≡ (panicked (bytes "nil map"), 3)
unfolding snapshot_from
crashing_panics = refl
