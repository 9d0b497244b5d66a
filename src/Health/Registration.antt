-- ===== src/Health/Registration.antt =====
-- The identifiers of a registry (Register of daemon/internal/health/health.go).
use mathlib.Core.List.{map-append}
use envorca.Prelude.{
  ◌≡◌, ◌≢◌, refl, sym, ◌⊎◌, inl, inr, true, false, Option, none, some, List, [], ◌∷◌, ◌++◌, map,
  All, All-append, Bool-cases, arith,
}
use envorca.Text.{Text, text_eq}
use envorca.Text.Laws.{text_eq_iff}
use envorca.Health.{Probe, Component, Registry, already_registered, has_id, or_nil_probe, register}

module _ {W : Type 0} where
  -- No two components share an identifier.
  abbrev pub UniqueIds : List (Component W) → Type 0
  UniqueIds [] = Unit
  UniqueIds (c ∷ cs) = All (λ d. d.id ≢ c.id) cs × UniqueIds cs

  has_id-false :
      (id : Text) (cs : List (Component W)) → has_id id cs ≡ false → All (λ d. id ≢ d.id) cs
  unfolding has_id
  has_id-false id [] h = tt
  has_id-false id (c ∷ cs) h =
      (λ e. ground (arith, (text_eq_iff c.id id).1 (sym e)), has_id-false id cs (ground arith))

  UniqueIds-append :
      (cs : List (Component W)) (d : Component W)
      → UniqueIds cs
      → All (λ c. d.id ≢ c.id) cs
      → UniqueIds (cs ++ d ∷ [])
  UniqueIds-append [] d u h = (tt, tt)
  UniqueIds-append (c ∷ cs) d (apart, u) (ne, h) =
      (All-append _ cs (d ∷ []) apart (ne, tt), UniqueIds-append cs d u h)

  has_id-true :
      (id : Text) (cs : List (Component W)) → has_id id cs ≡ true → ¬ All (λ d. id ≢ d.id) cs
  unfolding has_id
  has_id-true id [] h a = cc
  has_id-true id (c ∷ cs) h (ne, a) = elim (Bool-cases (text_eq c.id id)) [
    | inl e ↦ ne (sym ((text_eq_iff c.id id).0 e))
    | inr e ↦ has_id-true id cs (ground arith) a
  ]

  register_fresh :
      (r : Registry W) (id : Text) (p : Option (Probe W))
      → has_id id r.components ≡ false
      → register r id p ≡ (
        record { components = r.components ++ record { id = id; probe = or_nil_probe p } ∷ [] },
        none,
      )
  unfolding register
  register_fresh r id p h = rw h

  register_taken :
      (r : Registry W) (id : Text) (p : Option (Probe W))
      → has_id id r.components ≡ true
      → register r id p ≡ (r, some (already_registered id))
  unfolding register
  register_taken r id p h = rw h

  -- What Register does: an identifier that is taken is refused and the registry is unchanged, and any
  -- other is added at the end, so that identifiers stay apart.
  pub register-UniqueIds :
      (r : Registry W) (id : Text) (p : Option (Probe W))
      → UniqueIds r.components
      → UniqueIds (register r id p).0.components
        × (((register r id p).1 ≡ none)
              × (map (λ c. c.id) (register r id p).0.components
                  ≡ map (λ c. c.id) r.components ++ id ∷ [])
            ⊎ ((register r id p).1 ≡ some (already_registered id))
              × ((register r id p).0 ≡ r)
              × ¬ All (λ c. id ≢ c.id) r.components)
  register-UniqueIds r id p u = elim (Bool-cases (has_id id r.components)) [
    | inl t ↦ rw (register_taken r id p t) (u, inr (refl, refl, has_id-true id r.components t))
    | inr f ↦ rw (register_fresh r id p f) (
      UniqueIds-append r.components _ u (has_id-false id r.components f),
      inl (refl, map-append (λ c. c.id) r.components _),
    )
  ]
