-- ===== src/Cli/Endpoints.antt =====
-- The endpoint that the command line dials, against the one that the daemon listens on.
use envorca.Prelude.{
  ◌≡◌, ◌≢◌, ◌⊎◌, inl, inr, refl, sym, ap, ◌∙◌, true, false, Option, some, [], ◌∷◌,
}
use envorca.Text.{Text, bytes}
use envorca.Config.{
  Config, System, or_else, default_state_dir, platform_endpoint, default_endpoint, endpoint,
}
use envorca.Cli.Commands.{or_default, command_endpoint}

module _ (sys : System) where
  default_endpoint-env :
      (d d' : Text)
      → sys.env (bytes "ENVORCA_SOCKET") ≢ []
      → default_endpoint sys d ≡ default_endpoint sys d'
  unfolding default_endpoint
  default_endpoint-env d d' h = from_env (sys.env (bytes "ENVORCA_SOCKET")) h
    where
      from_env :
          (e : Text)
          → e ≢ []
          → or_else e (platform_endpoint sys sys.on_windows d)
            ≡ or_else e (platform_endpoint sys sys.on_windows d')
      from_env [] k = absurd (k refl)
      from_env (c ∷ e) k = refl

  default_endpoint-windows :
      (d d' : Text) → sys.on_windows ≡ true → default_endpoint sys d ≡ default_endpoint sys d'
  unfolding default_endpoint platform_endpoint
  default_endpoint-windows d d' h = rw h refl

  default_endpoint-unix :
      (d : Text)
      → sys.env (bytes "ENVORCA_SOCKET") ≡ []
      → sys.on_windows ≡ false
      → default_endpoint sys d ≡ sys.join (d ∷ bytes "run" ∷ bytes "envorca.sock" ∷ [])
  unfolding default_endpoint platform_endpoint
  default_endpoint-unix d e w =
      ap (λ x. or_else x (platform_endpoint sys sys.on_windows d)) e
      ∙ ap (λ b. platform_endpoint sys b d) w

  or_default-or_else : (d s : Text) → or_default d (some s) ≡ or_else s d
  or_default-or_else d [] = refl
  or_default-or_else d (c ∷ s) = refl

  or_else-default : (s d d' : Text) → (s ≢ []) ⊎ (d ≡ d') → or_else s d ≡ or_else s d'
  or_else-default [] d d' (inl h) = absurd (h refl)
  or_else-default [] d d' (inr e) = e
  or_else-default (c ∷ s) d d' h = refl

  -- What command_endpoint comes to for a file.
  command_endpoint_file :
      (read_socket : Text → Option Text) (path s : Text) (d : Text)
      → path ≢ []
      → read_socket path ≡ some s
      → command_endpoint read_socket path d ≡ or_else s d
  unfolding command_endpoint
  command_endpoint_file read_socket [] s d p h = absurd (p refl)
  command_endpoint_file read_socket (x ∷ path) s d p h = rw h (or_default-or_else d s)

  -- The command line, given the file that the daemon was started with, dials the daemon's endpoint, if the
  -- file names a socket, ENVORCA_SOCKET is set, the system is Windows, or the daemon's state directory
  -- is the default one.
  pub command_endpoint-agrees :
      (read_socket : Text → Option Text) (path : Text) (c : Config)
      → path ≢ []
      → read_socket path ≡ some c.socket
      → (c.socket ≢ [])
        ⊎ (sys.env (bytes "ENVORCA_SOCKET") ≢ [])
        ⊎ (sys.on_windows ≡ true)
        ⊎ (c.state_dir ≡ default_state_dir sys)
      → command_endpoint read_socket path (default_endpoint sys (default_state_dir sys))
        ≡ endpoint sys c
  unfolding endpoint
  command_endpoint-agrees read_socket path c p h which =
      command_endpoint_file read_socket path c.socket _ p h
      ∙ or_else-default c.socket _ _ (reason which)
    where
      reason :
          (c.socket ≢ [])
            ⊎ (sys.env (bytes "ENVORCA_SOCKET") ≢ [])
            ⊎ (sys.on_windows ≡ true)
            ⊎ (c.state_dir ≡ default_state_dir sys)
          → (c.socket ≢ [])
            ⊎ (default_endpoint sys (default_state_dir sys) ≡ default_endpoint sys c.state_dir)
      reason (inl s) = inl s
      reason (inr (inl e)) = inr (default_endpoint-env _ _ e)
      reason (inr (inr (inl w))) = inr (default_endpoint-windows _ _ w)
      reason (inr (inr (inr d))) = inr (ap (default_endpoint sys) (sym d))

  -- Outside Windows, where neither the file nor ENVORCA_SOCKET names a socket, the command line
  -- dials another endpoint than the daemon's, if the socket files in the default state directory and in
  -- the configured one differ.
  pub command_endpoint-diverges :
      (read_socket : Text → Option Text) (path : Text) (c : Config)
      → path ≢ []
      → read_socket path ≡ some []
      → c.socket ≡ []
      → sys.env (bytes "ENVORCA_SOCKET") ≡ []
      → sys.on_windows ≡ false
      → sys.join (default_state_dir sys ∷ bytes "run" ∷ bytes "envorca.sock" ∷ [])
        ≢ sys.join (c.state_dir ∷ bytes "run" ∷ bytes "envorca.sock" ∷ [])
      → command_endpoint read_socket path (default_endpoint sys (default_state_dir sys))
        ≢ endpoint sys c
  unfolding endpoint
  command_endpoint-diverges read_socket path c p h s e w n =
      rw
        (
          command_endpoint_file read_socket path [] (default_endpoint sys (default_state_dir sys)) p
              h,
          s,
          default_endpoint-unix (default_state_dir sys) e w,
          default_endpoint-unix c.state_dir e w,
        )
        n
