-- ===== src/Version.antt =====
-- The version strings of the daemon (daemon/internal/version/version.go) and of the command line
-- (cli/cmd/envorca/main.go), over the settings that debug.ReadBuildInfo gives.
pub mod Agreement
use envorca.Prelude.{
  ℕ, Bool, true, false, Option, none, some, List, [], ◌∷◌, ◌++◌, length, take, ltb, if◌then◌else◌,
}
use envorca.Text.{Text, bytes, text_eq}
use envorca.Text.Trim.{trim_space}
use envorca.Config.{or_else}

abbrev pub Settings : Type 0
Settings = List (Text × Text)

unfoldable pub setting_in : Text → Settings → Text
setting_in key [] = []
setting_in key ((k, v) ∷ rest) =
    let later = setting_in key rest in if text_eq k key then trim_space v else later

-- vcsSetting; `none` when the build has no information.
abbrev pub vcs_setting : Text → Option Settings → Text
vcs_setting key none = []
vcs_setting key (some settings) = setting_in key settings

unfoldable pub shortened : Text → Text
shortened c = if ltb 7 (length c) then take 7 c else c

-- The commit that -ldflags sets comes first.
unfoldable pub short_commit : Text → Option Settings → Text
unfolding shortened setting_in
short_commit commit info = shortened (or_else commit (vcs_setting (bytes "vcs.revision") info))

unfoldable pub manifested : Option Settings → Bool
unfolding setting_in
manifested info = text_eq (vcs_setting (bytes "vcs.modified") info) (bytes "true")

abbrev pub with_dirty : Bool → Text → Text
with_dirty true c = c ++ bytes "-dirty"
with_dirty false c = c

abbrev pub annotated : Text → Text → Bool → Text
annotated version [] dirty = version
annotated version (b ∷ c) dirty = version ++ (bytes " (" ++ (with_dirty dirty (b ∷ c) ++ bytes ")"))

unfoldable pub full : Text → Text → Option Settings → Text
unfolding short_commit manifested
full version commit info = annotated version (short_commit commit info) (manifested info)

-- The loop of fullCliVersion, from the commit and the flag so far.
unfoldable pub read_settings : Settings → Text → Bool → Text × Bool
read_settings [] c dirty = (c, dirty)
read_settings ((k, v) ∷ rest) c dirty =
    let revision = read_settings rest (or_else c v) dirty in
    let modified = read_settings rest c (text_eq v (bytes "true")) in
    let other = read_settings rest c dirty in
    if text_eq k (bytes "vcs.revision")
    then revision
    else if text_eq k (bytes "vcs.modified")
    then modified
    else other

abbrev pub read_info : Option Settings → Text → Text × Bool
read_info none c = (c, false)
read_info (some settings) c = read_settings settings c false

unfoldable pub full_cli_version : Text → Text → Option Settings → Text
unfolding read_settings shortened
full_cli_version version commit info =
    let (c, dirty) = read_info info commit in annotated version (shortened c) dirty
