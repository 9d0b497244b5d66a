-- ===== src/State/Highest.antt =====
-- SchemaVersion after Migrate.
use envorca.Prelude.{
  ◌≡◌, inl, inr, ◌⊎◌, refl, ap, sym, ◌∙◌, Bool, true, ◌||◌, Bool-cases, none, some, List, [], ◌∷◌,
  All, All-weaken, arith, if◌then◌else◌, ℤ, pos, negsuc, ltb_ℤ, leb_ℤ, eqb_ℤ,
}
use envorca.Wsl.{ok}
use envorca.State.Migrations.{
  Migration, parse_version, has_version, Schema, Sqlite, migrate, sort_by_name,
}
use envorca.State.Migrated.{migrate-Recorded, has_version_own}
use envorca.State.Handle.{max_version, highest, schema_version}

leb_ℤ_refl : (a : ℤ) → leb_ℤ a a ≡ true
leb_ℤ_refl (pos n) = ground arith
leb_ℤ_refl (negsuc n) = ground arith

leb_ℤ_trans : (a b c : ℤ) → leb_ℤ a b ≡ true → leb_ℤ b c ≡ true → leb_ℤ a c ≡ true
leb_ℤ_trans (pos a) (pos b) (pos c) h k = ground arith
leb_ℤ_trans (pos a) (pos b) (negsuc c) h k = absurd (ground arith)
leb_ℤ_trans (pos a) (negsuc b) c h k = absurd (ground arith)
leb_ℤ_trans (negsuc a) b (pos c) h k = refl
leb_ℤ_trans (negsuc a) (pos b) (negsuc c) h k = absurd (ground arith)
leb_ℤ_trans (negsuc a) (negsuc b) (negsuc c) h k = ground arith

-- The greater of two.
abbrev greater : ℤ → ℤ → ℤ
greater m v = if ltb_ℤ m v then v else m

greater_bounds : (m v : ℤ) → (leb_ℤ m (greater m v) ≡ true) × (leb_ℤ v (greater m v) ≡ true)
greater_bounds (pos a) (pos b) = ground arith
greater_bounds (pos a) (negsuc b) = ground arith
greater_bounds (negsuc a) (pos b) = ground arith
greater_bounds (negsuc a) (negsuc b) = ground arith

greater_one : (m v : ℤ) → (greater m v ≡ m) ⊎ (greater m v ≡ v)
greater_one m v = elim (Bool-cases (ltb_ℤ m v)) [
  | inl t ↦ inr (rw t refl)
  | inr f ↦ inl (rw f refl)
]

eqb_ℤ_leb : (a b : ℤ) → eqb_ℤ a b ≡ true → leb_ℤ b a ≡ true
eqb_ℤ_leb a b h = ground arith

abbrev Bounds : ℤ → List ℤ → Type 0
Bounds top vs = All (λ v. leb_ℤ v top ≡ true) vs

max_version-Bounds :
    (m : ℤ) (vs : List ℤ) → (leb_ℤ m (max_version m vs) ≡ true) × Bounds (max_version m vs) vs
unfolding max_version
max_version-Bounds m [] = (leb_ℤ_refl m, tt)
max_version-Bounds m (v ∷ vs) =
    let (over_m, over_v) = greater_bounds m v in
    let (over, rest) = max_version-Bounds (greater m v) vs in
    (
      leb_ℤ_trans m (greater m v) (max_version (greater m v) vs) over_m over,
      (leb_ℤ_trans v (greater m v) (max_version (greater m v) vs) over_v over, rest),
    )

eqb_ℤ_refl : (a : ℤ) → eqb_ℤ a a ≡ true
eqb_ℤ_refl (pos n) = ground arith
eqb_ℤ_refl (negsuc n) = ground arith

or_middle : (a b c : Bool) → (a || c) ≡ true → (a || (b || c)) ≡ true
or_middle a b c h = ground arith

or_first : (a b c : Bool) → (b || c) ≡ true → (a || (b || c)) ≡ true
or_first a b c h = ground arith

max_version_reached : (m : ℤ) (vs : List ℤ) → has_version (max_version m vs) (m ∷ vs) ≡ true
unfolding max_version has_version
max_version_reached m [] = rw (eqb_ℤ_refl m) refl
max_version_reached m (v ∷ vs) =
    let top = max_version (greater m v) vs in
    let reached = max_version_reached (greater m v) vs in
    let either : ℤ → Bool = λ x. eqb_ℤ x top || has_version top vs in
    elim (greater_one m v) [
      | inl e ↦
          or_middle (eqb_ℤ m top) (eqb_ℤ v top) (has_version top vs) (ap either (sym e) ∙ reached)
      | inr e ↦
          or_first (eqb_ℤ m top) (eqb_ℤ v top) (has_version top vs) (ap either (sym e) ∙ reached)
    ]

highest-Bounds : (vs : List ℤ) → Bounds (highest vs) vs
unfolding highest
highest-Bounds [] = tt
highest-Bounds (v ∷ vs) = max_version-Bounds v vs

has_version-Bounds :
    (v top : ℤ) (vs : List ℤ) → Bounds top vs → has_version v vs ≡ true → leb_ℤ v top ≡ true
unfolding has_version
has_version-Bounds v top [] h k = absurd (ground arith)
has_version-Bounds v top (x ∷ vs) (h, hs) k = elim (Bool-cases (eqb_ℤ x v)) [
  | inl t ↦ leb_ℤ_trans v x top (eqb_ℤ_leb x v t) h
  | inr f ↦ has_version-Bounds v top vs hs (rw f at k)
]

-- The highest version is recorded, unless none is, and then it is 0.
abbrev pub IsRecorded : List ℤ → ℤ → Type 0
IsRecorded vs top = ((vs ≡ []) × (top ≡ pos 0)) ⊎ (has_version top vs ≡ true)

highest-IsRecorded : (vs : List ℤ) → IsRecorded vs (highest vs)
unfolding highest
highest-IsRecorded [] = inl (refl, refl)
highest-IsRecorded (v ∷ vs) = inr (max_version_reached v vs)

-- Where Migrate succeeds and the version can be read, SchemaVersion is at least the version of every migration
-- that is embedded and of every one that was recorded before, and it is itself recorded,
-- or 0 if none is.
pub schema_version-migrate :
    {S : Type 0} (q : Sqlite S) (ms : List Migration) (db : Schema S) {db' : Schema S}
    → migrate q ms db ≡ (none, db')
    → (top : ℤ) × (schema_version none db' ≡ ok top)
      × IsRecorded db'.versions top
      × Bounds top db.versions
      × All
          (λ m. (v : ℤ) × (parse_version m.name ≡ some v) × (leb_ℤ v top ≡ true))
          (sort_by_name ms)
unfolding schema_version
schema_version-migrate q ms db {db'} h =
    let (k, recorded) = migrate-Recorded q ms db h in
    let all = recorded refl in
    let kept = All-weaken _ _ db.versions k (has_version_own db.versions) in
    let bounds = highest-Bounds db'.versions in
    (
      highest db'.versions,
      refl,
      highest-IsRecorded db'.versions,
      All-weaken _ _ db.versions (λ v k. has_version-Bounds v _ db'.versions bounds k) kept,
      All-weaken _ _ (sort_by_name ms)
          (λ m (v, p, k). (v, p, has_version-Bounds v _ db'.versions bounds k)) all,
    )
