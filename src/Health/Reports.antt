-- ===== src/Health/Reports.antt =====
-- The statuses that Snapshot reports (daemon/internal/health/health.go).
use envorca.Prelude.{◌≡◌, ◌≢◌, refl, ap, List, [], ◌∷◌, ◌++◌, map, All, arith}
use envorca.Text.{Text, bytes}
use envorca.Api.{Status, critical, status_unspecified, ComponentStatus, brief}
use envorca.Health.{
  Context, Component, Registry, Outcome, returned, panicked, specified, stamped, snapshot_from,
  snapshot,
}

specified_ne : (s : Status) → specified s ≢ status_unspecified
specified_ne s h = ground arith

stamped_lem : (id : Text) (o : Outcome ComponentStatus) → (stamped id o).id ≡ id
unfolding stamped
stamped_lem id o = refl

stamped-specified :
    (id : Text) (o : Outcome ComponentStatus) → (stamped id o).status ≢ status_unspecified
unfolding stamped
stamped-specified id (returned st) = specified_ne st.status
stamped-specified id (panicked p) = specified_ne critical

abbrev pub panic_status : Text → Text → ComponentStatus
panic_status id p = record (brief critical (bytes "probe panicked: " ++ p)) { id = id }

module _ {W : Type 0} where
  snapshot_from-ids :
      (cs : List (Component W)) (ctx : Context) (w : W)
      → map (λ s. s.id) (snapshot_from cs ctx w).0 ≡ map (λ c. c.id) cs
  unfolding snapshot_from
  snapshot_from-ids [] ctx w = refl
  snapshot_from-ids (c ∷ cs) ctx w =
      ap (λ ids. c.id ∷ ids) (snapshot_from-ids cs ctx (c.probe ctx w).1)

  snapshot_from-specified :
      (cs : List (Component W)) (ctx : Context) (w : W)
      → All (λ s. s.status ≢ status_unspecified) (snapshot_from cs ctx w).0
  unfolding snapshot_from
  snapshot_from-specified [] ctx w = tt
  snapshot_from-specified (c ∷ cs) ctx w =
      (stamped-specified c.id (c.probe ctx w).0, snapshot_from-specified cs ctx (c.probe ctx w).1)

  -- A snapshot has one status for each registered component, under its identifier and in the order of
  -- registration, whatever the probes answer, and no status is left unspecified.
  pub snapshot-ids :
      (r : Registry W) (ctx : Context) (w : W)
      → (map (λ s. s.id) (snapshot r ctx w).0 ≡ map (λ c. c.id) r.components)
        × All (λ s. s.status ≢ status_unspecified) (snapshot r ctx w).0
  unfolding snapshot
  snapshot-ids r ctx w =
      (snapshot_from-ids r.components ctx w, snapshot_from-specified r.components ctx w)

  -- A probe that panics is reported as CRITICAL under its component's identifier, and neither the
  -- statuses before it nor the components after it are lost.
  pub snapshot_panic :
      (before after : List (Component W)) (c : Component W) (ctx : Context) (w : W) {p : Text}
      {w' : W}
      → c.probe ctx (snapshot_from before ctx w).1 ≡ (panicked p, w')
      → snapshot_from (before ++ c ∷ after) ctx w ≡ (
        (snapshot_from before ctx w).0 ++ panic_status c.id p ∷ (snapshot_from after ctx w').0,
        (snapshot_from after ctx w').1,
      )
  unfolding snapshot_from
  snapshot_panic [] after c ctx w h = rw h
  snapshot_panic (b ∷ bs) after c ctx w h = rw (snapshot_panic bs after c ctx (b.probe ctx w).1 h)
