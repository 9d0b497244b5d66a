-- ===== src/Version/Agreement.antt =====
-- The version of the command line against the daemon's, for the same build settings.
use envorca.Prelude.{
  ◌≡◌, refl, sym, ap, ◌∙◌, Bool, false, Option, none, some, [], ◌∷◌, All, All-weaken, Bool-cases,
  inl, inr, if◌then◌else◌,
}
use envorca.Text.{Text, bytes, text_eq}
use envorca.Text.Laws.{text_eq→eq}
use envorca.Text.Trim.{trim_space}
use envorca.Config.{or_else}
use envorca.Version.{
  Settings, setting_in, short_commit, manifested, full, read_settings, full_cli_version,
}

-- Each key is set once, and no value has white space around it.
abbrev pub IsTidy : Settings → Type 0
IsTidy [] = Unit
IsTidy ((k, v) ∷ rest) = All (λ s. text_eq s.0 k ≡ false) rest × (trim_space v ≡ v) × IsTidy rest

setting_in-absent :
    (key : Text) (ss : Settings) → All (λ s. text_eq s.0 key ≡ false) ss → setting_in key ss ≡ []
unfolding setting_in
setting_in-absent key [] h = refl
setting_in-absent key ((k, v) ∷ rest) (e, h) = rw e (setting_in-absent key rest h)

or_else-nil : (s : Text) → or_else s [] ≡ s
or_else-nil [] = refl
or_else-nil (c ∷ s) = refl

or_else_assoc : (c v : Text) → or_else (or_else c v) [] ≡ or_else c v
or_else_assoc c v = or_else-nil (or_else c v)

-- What the loop knows of the flag: the value of vcs.modified if it is set, else `dirty`.
abbrev modified_in : Settings → Bool → Bool
modified_in [] dirty = dirty
modified_in ((k, v) ∷ rest) dirty =
    let later = modified_in rest dirty in
    if text_eq k (bytes "vcs.modified") then text_eq v (bytes "true") else later

modified_in-absent :
    (ss : Settings) (dirty : Bool)
    → All (λ s. text_eq s.0 (bytes "vcs.modified") ≡ false) ss
    → modified_in ss dirty ≡ dirty
modified_in-absent [] dirty h = refl
modified_in-absent ((k, v) ∷ rest) dirty (e, h) = rw e (modified_in-absent rest dirty h)

not_modified : text_eq (bytes "vcs.revision") (bytes "vcs.modified") ≡ false
unfolding text_eq bytes
not_modified = refl

not_revision : text_eq (bytes "vcs.modified") (bytes "vcs.revision") ≡ false
unfolding text_eq bytes
not_revision = refl

only_once :
    (k key : Text) (rest : Settings)
    → k ≡ key
    → All (λ s. text_eq s.0 k ≡ false) rest
    → All (λ s. text_eq s.0 key ≡ false) rest
only_once k key rest e once =
    All-weaken _ (λ s. text_eq s.0 key ≡ false) rest (λ s p. ap (text_eq s.0) (sym e) ∙ p) once

read_settings_lem :
    (ss : Settings) (c : Text) (dirty : Bool)
    → IsTidy ss
    → read_settings ss c dirty
      ≡ (or_else c (setting_in (bytes "vcs.revision") ss), modified_in ss dirty)
unfolding read_settings setting_in
read_settings_lem [] c dirty h = λ i. (sym (or_else-nil c) i, dirty)
read_settings_lem ((k, v) ∷ rest) c dirty (once, trimmed, h) =
    elim (Bool-cases (text_eq k (bytes "vcs.revision"))) [
      | inl t ↦
          let e = text_eq→eq k _ t in
          let none_left =
            setting_in-absent (bytes "vcs.revision") rest (only_once k _ rest e once) in
          rw (t, e, not_modified, trimmed, read_settings_lem rest (or_else c v) dirty h, none_left)
            (λ i. (or_else_assoc c v i, modified_in rest dirty))
      | inr f ↦ elim (Bool-cases (text_eq k (bytes "vcs.modified"))) [
        | inl t ↦
            let none_left =
              modified_in-absent rest (text_eq v (bytes "true"))
                (only_once k _ rest (text_eq→eq k _ t) once) in
            rw (f, t, read_settings_lem rest c (text_eq v (bytes "true")) h, none_left) refl
        | inr g ↦ rw (f, g, read_settings_lem rest c dirty h) refl
      ]
    ]

modified_in-setting_in :
    (ss : Settings)
    → IsTidy ss
    → modified_in ss false ≡ text_eq (setting_in (bytes "vcs.modified") ss) (bytes "true")
unfolding setting_in
modified_in-setting_in [] h = unfold text_eq bytes in refl
modified_in-setting_in ((k, v) ∷ rest) (once, trimmed, h) =
    elim (Bool-cases (text_eq k (bytes "vcs.modified"))) [
      | inl t ↦ rw (t, trimmed) refl
      | inr f ↦ rw f (modified_in-setting_in rest h)
    ]

abbrev pub IsTidyInfo : Option Settings → Type 0
IsTidyInfo none = Unit
IsTidyInfo (some ss) = IsTidy ss

-- With the same version and commit, and build settings that are each set once and have no white space
-- around them, the command line names the same version as the daemon.
pub full_cli_version-full :
    (version commit : Text) (info : Option Settings)
    → IsTidyInfo info
    → full_cli_version version commit info ≡ full version commit info
unfolding full_cli_version full short_commit manifested
full_cli_version-full version commit none h = unfold text_eq bytes in rw (or_else-nil commit) refl
full_cli_version-full version commit (some ss) h =
    rw (read_settings_lem ss commit false h, modified_in-setting_in ss h) refl
