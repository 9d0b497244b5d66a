-- ===== src/State/Migrated.antt =====
-- The versions that Migrate records, and the settings (daemon/internal/state/state.go).
use envorca.Prelude.{
  ◌≡◌, inl, inr, refl, ap, ◌∙◌, Bool, true, false, Option, none, some, List, [], ◌∷◌, ◌++◌,
  Bool-cases, All, All-weaken, arith, if◌then◌else◌, ℤ, pos, negsuc, eqb_ℤ,
}
use envorca.Text.{Text, text_eq}
use envorca.Text.Laws.{text_eq→eq}
use envorca.Wsl.{Result, ok, err}
use envorca.State.Migrations.{
  Migration, parse_version, has_version, Schema, Sqlite, insert_version, finish, after_script,
  after_begin, apply_migration, unless_applied, migrate_one, unless_failed, migrate_from,
  start_migrating, migrate, sort_by_name, Failure, set_setting, get_setting,
}

eqb_ℤ_refl : (a : ℤ) → eqb_ℤ a a ≡ true
eqb_ℤ_refl (pos n) = ground arith
eqb_ℤ_refl (negsuc n) = ground arith

has_version-append :
    (v : ℤ) (xs ys : List ℤ) → has_version v xs ≡ true → has_version v (xs ++ ys) ≡ true
unfolding has_version
has_version-append v [] ys h = absurd cc
has_version-append v (x ∷ xs) ys h = ground (arith, has_version-append v xs ys)

has_version-last : (v : ℤ) (xs : List ℤ) → has_version v (xs ++ v ∷ []) ≡ true
unfolding has_version
has_version-last v [] = rw (eqb_ℤ_refl v) refl
has_version-last v (x ∷ xs) = ground (arith, has_version-last v xs)

pub has_version_own : (xs : List ℤ) → All (λ v. has_version v xs ≡ true) xs
unfolding has_version
has_version_own [] = tt
has_version_own (x ∷ xs) = (
  rw (eqb_ℤ_refl x) refl,
  All-weaken (λ v. has_version v xs ≡ true) _ xs (λ v h. ground arith) (has_version_own xs),
)

-- The version of the migration is one of `versions`.
abbrev pub VersionIn : List ℤ → Migration → Type 0
VersionIn versions m = (v : ℤ) × (parse_version m.name ≡ some v) × (has_version v versions ≡ true)

abbrev pub Keeps : List ℤ → List ℤ → Type 0
Keeps before after = (v : ℤ) → has_version v before ≡ true → has_version v after ≡ true

module _ {S : Type 0} (q : Sqlite S) where
  -- What a round comes to: the version is recorded and none is lost, or the database is as before.
  abbrev Advanced : ℤ → Schema S → Option Failure × Schema S → Type 0
  Advanced v db (some e, db') = db' ≡ db
  Advanced v db (none, db') = Keeps db.versions db'.versions × (has_version v db'.versions ≡ true)

  finish-Advanced :
      (v : ℤ) (name : Text) (c : S) (i o : Option Text) (db : Schema S)
      → Advanced v db (finish q i o (insert_version q name v c db) db)
  finish-Advanced v name c (some e) o db = refl
  finish-Advanced v name c none o db = elim (Bool-cases (has_version v db.versions)) [
    | inl t ↦ rw t refl
    | inr f ↦ rw f (committed o)
  ]
    where
      committed :
          (o : Option Text)
          → Advanced v db
              (finish q none o (none, record { versions = db.versions ++ v ∷ []; content = c }) db)
      committed (some e) = refl
      committed none =
          ((λ x h. has_version-append x db.versions _ h), has_version-last v db.versions)

  after_script-Advanced :
      (v : ℤ) (name : Text) (r : Result S) (db : Schema S)
      → Advanced v db (after_script q name v r db)
  after_script-Advanced v name (err e) db = refl
  after_script-Advanced v name (ok c) db =
      finish-Advanced v name c (q.insert_failed name) (q.commit_failed name) db

  after_begin-Advanced :
      (o : Option Text) (m : Migration) (v : ℤ) (db : Schema S)
      → Advanced v db (after_begin q o m v db)
  after_begin-Advanced (some e) m v db = refl
  after_begin-Advanced none m v db = after_script-Advanced v m.name (q.script m.sql db.content) db

  apply_migration-Advanced :
      (m : Migration) (v : ℤ) (db : Schema S) → Advanced v db (apply_migration q m v db)
  unfolding apply_migration
  apply_migration-Advanced m v db = after_begin-Advanced (q.begin_failed m.name) m v db

  -- The same of a round of the loop, where the versions in `applied` are recorded already.
  abbrev Passed : Migration → Schema S → Option Failure × Schema S → Type 0
  Passed m db (some e, db') = db' ≡ db
  Passed m db (none, db') = Keeps db.versions db'.versions × VersionIn db'.versions m

  Advanced-Passed :
      (m : Migration) (v : ℤ) (db : Schema S) (r : Option Failure × Schema S)
      → parse_version m.name ≡ some v
      → Advanced v db r
      → Passed m db r
  Advanced-Passed m v db (some e, db') p h = h
  Advanced-Passed m v db (none, db') p (k, h) = (k, (v, p, h))

  unless_applied-Passed :
      (o : Option ℤ) (applied : List ℤ) (m : Migration) (db : Schema S)
      → parse_version m.name ≡ o
      → Keeps applied db.versions
      → Passed m db (unless_applied q o applied m db)
  unless_applied-Passed none applied m db p k = refl
  unless_applied-Passed (some v) applied m db p k = elim (Bool-cases (has_version v applied)) [
    | inl t ↦ rw t ((λ x h. h), (v, p, k v t))
    | inr f ↦ rw f (Advanced-Passed m v db _ p (apply_migration-Advanced m v db))
  ]

  VersionIn-Keeps : (a b : List ℤ) (m : Migration) → Keeps a b → VersionIn a m → VersionIn b m
  VersionIn-Keeps a b m k (v, p, h) = (v, p, k v h)

  -- The whole loop; on an error it keeps what the rounds before have recorded.
  abbrev Migrates : List Migration → Schema S → Option Failure × Schema S → Type 0
  Migrates ms db (some e, db') = Keeps db.versions db'.versions
  Migrates ms db (none, db') = Keeps db.versions db'.versions × All (VersionIn db'.versions) ms

  Migrates-step :
      (m : Migration) (ms : List Migration) (db : Schema S) (one rest : Option Failure × Schema S)
      → Passed m db one
      → Migrates ms one.1 rest
      → Migrates (m ∷ ms) db (unless_failed q one rest)
  Migrates-step m ms db (some e, db') rest p h = λ v k. rw p k
  Migrates-step m ms db (none, db') (some e, db'') (k, p) h = λ v i. h v (k v i)
  Migrates-step m ms db (none, db') (none, db'') (k, p) (h, ps) =
      ((λ v i. h v (k v i)), (VersionIn-Keeps _ _ m h p, ps))

  Passed-Keeps :
      (m : Migration) (db : Schema S) (r : Option Failure × Schema S)
      → Passed m db r
      → Keeps db.versions r.1.versions
  Passed-Keeps m db (some e, db') h = λ v k. rw h k
  Passed-Keeps m db (none, db') (k, _) = k

  migrate_from-Migrates :
      (applied : List ℤ) (ms : List Migration) (db : Schema S)
      → Keeps applied db.versions
      → Migrates ms db (migrate_from q applied ms db)
  unfolding migrate_from migrate_one
  migrate_from-Migrates applied [] db k = ((λ v h. h), tt)
  migrate_from-Migrates applied (m ∷ ms) db k =
      let one = migrate_one q applied m db in
      let p : Passed m db one = unless_applied-Passed (parse_version m.name) applied m db refl k in
      Migrates-step m ms db one _ p
        (migrate_from-Migrates applied ms one.1 (λ v h. Passed-Keeps m db one p v (k v h)))

  -- A loop over migrations that are all applied does nothing.
  migrate_from-VersionIn :
      (applied : List ℤ) (ms : List Migration) (db : Schema S)
      → All (VersionIn applied) ms
      → migrate_from q applied ms db ≡ (none, db)
  unfolding migrate_from migrate_one
  migrate_from-VersionIn applied [] db h = refl
  migrate_from-VersionIn applied (m ∷ ms) db ((v, p, t), h) =
      rw (p, t, unless_applied) (migrate_from-VersionIn applied ms db h)

  -- The versions that a success records.
  abbrev pub Recorded : List Migration → Schema S → Option Failure × Schema S → Type 0
  Recorded ms db r =
      Keeps db.versions r.1.versions
      × ((r.0 ≡ none) → All (VersionIn r.1.versions) (sort_by_name ms))

  Migrates-Recorded :
      (ms : List Migration) (db : Schema S) (r : Option Failure × Schema S)
      → Migrates (sort_by_name ms) db r
      → Recorded ms db r
  Migrates-Recorded ms db (some e, db') h = (h, (λ k. absurd cc))
  Migrates-Recorded ms db (none, db') (k, p) = (k, (λ _. p))

  start_migrating-Recorded :
      (a b : Option Text) (ms : List Migration) (db : Schema S)
      → Recorded ms db (start_migrating q a b ms db)
  start_migrating-Recorded (some e) b ms db = ((λ v h. h), (λ k. absurd cc))
  start_migrating-Recorded none (some e) ms db = ((λ v h. h), (λ k. absurd cc))
  start_migrating-Recorded none none ms db =
      Migrates-Recorded ms db _ (migrate_from-Migrates db.versions (sort_by_name ms) db (λ v h. h))

  pub migrate-Recorded :
      (ms : List Migration) (db : Schema S) {db' : Schema S}
      → migrate q ms db ≡ (none, db')
      → Recorded ms db (none, db')
  unfolding migrate
  migrate-Recorded ms db h = rw h at (start_migrating-Recorded q.ensure_failed q.read_failed ms db)

module _ {S : Type 0} (q again : Sqlite S) where
  -- Where Migrate succeeds, the version of every migration is recorded and no version that was recorded
  -- before is lost. To migrate the outcome again, with a SQLite that may fail otherwise and whose scripts may
  -- do something else, succeeds and changes nothing, provided that the table of versions can be ensured and read:
  -- no script is run then. The scripts of the first run leave the table of versions to Migrate.
  pub migrate-again :
      (ms : List Migration) (db : Schema S) {db' : Schema S}
      → migrate q ms db ≡ (none, db')
      → again.ensure_failed ≡ none
      → again.read_failed ≡ none
      → All (VersionIn db'.versions) (sort_by_name ms)
        × All (λ v. has_version v db'.versions ≡ true) db.versions
        × (migrate again ms db' ≡ (none, db'))
  unfolding migrate
  migrate-again ms db {db'} h ensured read =
      let (k, recorded) = migrate-Recorded q ms db h in
      let all = recorded refl in
      (
        all,
        All-weaken _ _ db.versions k (has_version_own db.versions),
        rw (ensured, read) (migrate_from-VersionIn again db'.versions (sort_by_name ms) db' all),
      )

overwrites :
    (a b : Bool) (value v x y : Text)
    → (a ≡ true → b ≡ true → ⊥)
    → x ≡ (if a then value else y)
    → (if b then v else x) ≡ (if a then value else (if b then v else y))
overwrites true true value v x y n h = absurd (n refl refl)
overwrites true false value v x y n h = h
overwrites false true value v x y n h = refl
overwrites false false value v x y n h = h

-- A setting is read as it was last set, and setting one changes no other.
pub get_setting-set_setting :
    (key key' value : Text) (table : List (Text × Text))
    → get_setting key' (set_setting key value table)
      ≡ (if text_eq key key' then value else get_setting key' table)
unfolding get_setting set_setting
get_setting-set_setting key key' value [] = refl
get_setting-set_setting key key' value ((k, v) ∷ rest) = elim (Bool-cases (text_eq k key)) [
  | inl t ↦ rw (t, text_eq→eq k key t) (ground arith)
  | inr f ↦ rw f (
      overwrites (text_eq key key') (text_eq k key') value v _ _
        (λ t u. let g : text_eq k key ≡ true = ap (text_eq k) (text_eq→eq key key' t) ∙ u in cc)
        (get_setting-set_setting key key' value rest))
]
