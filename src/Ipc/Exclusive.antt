-- ===== src/Ipc/Exclusive.antt =====
-- Who holds an endpoint.
use envorca.Prelude.{ℕ, ◌≡◌, refl, ap, Bool, true, false, none, some, if◌then◌else◌}
use envorca.Text.{Text, bytes}
use envorca.Text.Laws.{text_eq_refl}
use envorca.Ipc.{Node, absent, served, Sockets, put_node, dial, cleanup, listen}

pub put_node_same :
    (path : Text) (node : Node) (sockets : Sockets) → put_node path node sockets path ≡ node
put_node_same path node sockets = ap (λ b. if b then node else sockets path) (text_eq_refl path)

module _ (writable : Text → Bool) where
  -- An attempt to listen where somebody answers.
  abbrev pub Refused : ℕ → Text → Sockets → Type 0
  Refused me endpoint sockets =
      listen writable me endpoint sockets ≡ (some (bytes "ipc: endpoint already in use"), sockets)

  pub listen_busy :
      (me : ℕ) (endpoint : Text) (sockets : Sockets)
      → dial endpoint sockets ≡ true
      → Refused me endpoint sockets
  unfolding listen
  listen_busy me endpoint sockets busy = rw busy refl

  pub listen_free :
      (me : ℕ) (endpoint : Text) (sockets : Sockets)
      → writable endpoint ≡ true
      → dial endpoint sockets ≡ false
      → listen writable me endpoint sockets
        ≡ (none, put_node endpoint (served me) (cleanup endpoint sockets))
  unfolding listen cleanup
  listen_free me endpoint sockets can free =
      rw (free, can, put_node_same endpoint absent sockets) refl
