-- ===== src/Daemon/Rpc.antt =====
-- Replies with gRPC status codes, and clampLimit.
use envorca.Prelude.{ℤ, pos, leb_ℤ, ltb_ℤ, if◌then◌else◌}
use envorca.Text.{Text}
use envorca.Recovery.{RecoveryError}

pub data Code : Type 0 where
  unavailable internal failed_precondition invalid_argument : Code

-- The message of a status: a text, or what Recovery's Execute says.
pub data Message : Type 0 where
  said : Text → Message
  from_recovery : RecoveryError → Message

-- `crash` is a nil dereference, which no handler recovers from.
pub data Reply (A : Type 0) : Type 0 where
  answer : A → Reply A
  status : Code → Message → Reply A
  crash : Reply A

unfoldable pub clamp_limit : ℤ → ℤ
clamp_limit limit =
    if leb_ℤ limit (pos 0) then pos 20 else if ltb_ℤ (pos 500) limit then pos 500 else limit
