-- ===== src/Ipc.antt =====
-- The local transport (api/ipc/socket_unix.go, pipe_windows.go): the files of Unix sockets, and the security
-- descriptor of the Windows pipe.
pub mod Exclusive
pub mod Race
pub mod Contest
use envorca.Prelude.{ℕ, Bool, true, false, Option, none, some, ◌++◌, if◌then◌else◌}
use envorca.Text.{Text, bytes, text_eq}

-- What is at the path of a socket: nothing, a file that nobody listens on, one on which a process listens, or one
-- on which a process listens that a dial does not reach in the 200 ms that it has.
pub data Node : Type 0 where
  absent leftover : Node
  served unheard : ℕ → Node

abbrev pub Sockets : Type 0
Sockets = Text → Node

abbrev pub put_node : Text → Node → Sockets → Sockets
put_node path node sockets other = if text_eq other path then node else sockets other

abbrev pub answers : Node → Bool
answers absent = false
answers leftover = false
answers (served owner) = true
answers (unheard owner) = false

-- dialContext, and the attempt of listen.
unfoldable pub dial : Text → Sockets → Bool
dial endpoint sockets = answers (sockets endpoint)

-- cleanup.
unfoldable pub cleanup : Text → Sockets → Sockets
cleanup endpoint sockets = put_node endpoint absent sockets

-- The os.Remove of listen, whose error is ignored: it is in vain where the directory cannot be written.
abbrev pub remove_stale : Bool → Text → Sockets → Sockets
remove_stale true endpoint sockets = cleanup endpoint sockets
remove_stale false endpoint sockets = sockets

-- net.Listen of process `me`: the path must be free, and its directory writable.
abbrev pub bind : Bool → ℕ → Text → Node → Sockets → Option Text × Sockets
bind true me endpoint absent sockets = (none, put_node endpoint (served me) sockets)
bind false me endpoint absent sockets = (some (bytes "bind: permission denied"), sockets)
bind writable me endpoint leftover sockets = (some (bytes "bind: address already in use"), sockets)
bind writable me endpoint (served owner) sockets =
    (some (bytes "bind: address already in use"), sockets)
bind writable me endpoint (unheard owner) sockets =
    (some (bytes "bind: address already in use"), sockets)

-- listen: the error, or none. `writable` says whether a path's directory can be written.
unfoldable pub listen : (Text → Bool) → ℕ → Text → Sockets → Option Text × Sockets
unfolding dial cleanup
listen writable me endpoint sockets =
    let freed = remove_stale (writable endpoint) endpoint sockets in
    if dial endpoint sockets
    then (some (bytes "ipc: endpoint already in use"), sockets)
    else bind (writable endpoint) me endpoint (freed endpoint) freed

-- buildSDDL, from the SID of the user, if the token has one.
unfoldable pub build_sddl : Option Text → Text
build_sddl none = bytes "D:P(A;;GA;;;SY)(A;;GA;;;BA)"
build_sddl (some sid) = bytes "D:P(A;;GA;;;SY)(A;;GA;;;BA)(A;;GA;;;" ++ (sid ++ bytes ")")
