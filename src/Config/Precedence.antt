-- ===== src/Config/Precedence.antt =====
-- The configurations that Load returns, and the endpoint (daemon/internal/config/config.go).
use envorca.Prelude.{◌≡◌, ◌≢◌, ◌⊎◌, inl, inr, refl, Option, none, some, List, [], ◌∷◌, All}
use envorca.Text.{Text, bytes}
use envorca.Wsl.{Result, ok, err}
use envorca.Config.{
  Config, System, or_else, default_state_dir, platform_endpoint, default_endpoint, defaults,
  runtime_dir, log_dir, endpoint, filled, parsed, read, from_path, unless_made, make_dirs,
  with_dirs, load,
}

or_else_ne : (s d : Text) → d ≢ [] → or_else s d ≢ []
or_else_ne [] d h = h
or_else_ne (c ∷ s) d h = λ e. cc

module _ (sys : System) where
  abbrev pub IsFilled : Config → Type 0
  IsFilled c = (c.state_dir ≢ []) × (c.log_level ≢ [])

  abbrev pub Made : List Text → Type 0
  Made dirs = All (λ dir. sys.mkdir_all dir ≡ none) dirs

  abbrev pub IsLoaded : Config → Type 0
  IsLoaded c = IsFilled c × Made (c.state_dir ∷ runtime_dir sys c ∷ log_dir sys c ∷ [])

  abbrev OnOk : (Config → Type 0) → Result Config → Type 0
  OnOk P (err e) = Unit
  OnOk P (ok c) = P c

  filled-IsFilled : (c : Config) → default_state_dir sys ≢ [] → IsFilled (filled sys c)
  unfolding filled defaults bytes
  filled-IsFilled c h = (or_else_ne c.state_dir _ h, or_else_ne c.log_level _ (λ e. cc))

  defaults-IsFilled : default_state_dir sys ≢ [] → IsFilled (defaults sys)
  unfolding defaults bytes
  defaults-IsFilled h = (h, (λ e. cc))

  parsed-IsFilled :
      (path : Text) (r : Result Config)
      → default_state_dir sys ≢ []
      → OnOk IsFilled (parsed sys path r)
  parsed-IsFilled path (err e) h = tt
  parsed-IsFilled path (ok c) h = filled-IsFilled c h

  read-IsFilled :
      (path : Text) (r : Result Text) → default_state_dir sys ≢ [] → OnOk IsFilled (read sys path r)
  read-IsFilled path (err e) h = tt
  read-IsFilled path (ok b) h = parsed-IsFilled path (sys.yaml b (defaults sys)) h

  from_path-IsFilled :
      (path : Text) → default_state_dir sys ≢ [] → OnOk IsFilled (from_path sys path)
  from_path-IsFilled [] h = defaults-IsFilled h
  from_path-IsFilled (c ∷ path) h = read-IsFilled (c ∷ path) (sys.read_file (c ∷ path)) h

  make_dirs-Made :
      (dirs : List Text) (c : Config) → OnOk (λ c'. (c' ≡ c) × Made dirs) (make_dirs sys dirs c)
  unfolding make_dirs
  make_dirs-Made [] c = (refl, tt)
  make_dirs-Made (dir ∷ dirs) c =
      unless dir (sys.mkdir_all dir) (make_dirs sys dirs c) refl (make_dirs-Made dirs c)
    where
      unless :
          (dir : Text) (made : Option Text) (r : Result Config)
          → sys.mkdir_all dir ≡ made
          → OnOk (λ c'. (c' ≡ c) × Made dirs) r
          → OnOk (λ c'. (c' ≡ c) × Made (dir ∷ dirs)) (unless_made sys dir made r)
      unless dir (some e) r m h = tt
      unless dir none (err e) m h = tt
      unless dir none (ok c') m (e, h) = (e, (m, h))

  with_dirs-IsLoaded : (r : Result Config) → OnOk IsFilled r → OnOk IsLoaded (with_dirs sys r)
  with_dirs-IsLoaded (err e) h = tt
  with_dirs-IsLoaded (ok c) h =
      loaded (make_dirs sys _ c)
        (make_dirs-Made (c.state_dir ∷ runtime_dir sys c ∷ log_dir sys c ∷ []) c)
    where
      loaded :
          (r : Result Config)
          → OnOk (λ c'. (c' ≡ c) × Made (c.state_dir ∷ runtime_dir sys c ∷ log_dir sys c ∷ [])) r
          → OnOk IsLoaded r
      loaded (err e) k = tt
      loaded (ok c') (e, m) = rw e (h, m)

  OnOk-ok : (r : Result Config) (c : Config) → OnOk IsLoaded r → r ≡ ok c → IsLoaded c
  OnOk-ok (err e) c h q = absurd cc
  OnOk-ok (ok c') c h q = let e : c' ≡ c = cc in rw (← e) h

  -- A configuration that Load returns names a state directory and a log level, if the platform's default
  -- state directory is not empty, and its three directories were created.
  pub load-IsLoaded :
      (path : Text) (c : Config) → default_state_dir sys ≢ [] → load sys path ≡ ok c → IsLoaded c
  unfolding load
  load-IsLoaded path c h e =
      OnOk-ok _ c (with_dirs-IsLoaded (from_path sys _) (from_path-IsFilled _ h)) e

  by_cases :
      (s e d : Text)
      → ((s ≢ []) × (or_else s (or_else e d) ≡ s))
        ⊎ ((s ≡ []) × (e ≢ []) × (or_else s (or_else e d) ≡ e))
        ⊎ ((s ≡ []) × (e ≡ []) × (or_else s (or_else e d) ≡ d))
  by_cases [] [] d = inr (inr (refl, refl, refl))
  by_cases [] (c ∷ e) d = inr (inl (refl, (λ k. cc), refl))
  by_cases (c ∷ s) e d = inl ((λ k. cc), refl)

  -- The endpoint is the configured socket, else the value of ENVORCA_SOCKET, else the platform's.
  pub endpoint-precedence :
      (c : Config)
      → ((c.socket ≢ []) × (endpoint sys c ≡ c.socket))
        ⊎ ((c.socket ≡ [])
            × (sys.env (bytes "ENVORCA_SOCKET") ≢ [])
            × (endpoint sys c ≡ sys.env (bytes "ENVORCA_SOCKET")))
        ⊎ ((c.socket ≡ [])
            × (sys.env (bytes "ENVORCA_SOCKET") ≡ [])
            × (endpoint sys c ≡ platform_endpoint sys sys.on_windows c.state_dir))
  unfolding endpoint default_endpoint
  endpoint-precedence c = by_cases c.socket (sys.env (bytes "ENVORCA_SOCKET")) _
