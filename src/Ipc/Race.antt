-- ===== src/Ipc/Race.antt =====
-- The steps of listen (api/ipc/socket_unix.go) of two processes that start on one endpoint at the same time. Its
-- three system calls are taken one by one, and those of the other process come in between.
use envorca.Prelude.{
  ℕ, ◌+◌, ◌-◌, ◌≤◌, Bool, true, false, Option, none, some, List, [], ◌∷◌, if◌then◌else◌, arith,
}
use envorca.Text.{Text, bytes}
use envorca.Ipc.{Node, absent, leftover, served, unheard, answers}

-- How far a process is: before its dial, after a dial that nobody answered, after the removal of the file, and
-- at the end with a listener or an error.
pub data Stage : Type 0 where
  outside unanswered cleared listening : Stage
  refused : Text → Stage

-- The next system call of process `me` on what is at the endpoint, whose directory is writable.
unfoldable pub advance : ℕ → Stage → Node → Stage × Node
advance me outside node =
    (if answers node then refused (bytes "ipc: endpoint already in use") else unanswered, node)
advance me unanswered node = (cleared, absent)
advance me cleared absent = (listening, served me)
advance me cleared leftover = (refused (bytes "bind: address already in use"), leftover)
advance me cleared (served owner) = (refused (bytes "bind: address already in use"), served owner)
advance me cleared (unheard owner) = (refused (bytes "bind: address already in use"), unheard owner)
advance me listening node = (listening, node)
advance me (refused e) node = (refused e, node)

pub record Race : Type 0 where
  pub first : Stage
  pub second : Stage
  pub node : Node

-- One call of the first process, or else of the second.
unfoldable pub turn : ℕ → ℕ → Bool → Race → Race
unfolding advance
turn a b true r =
    let (stage, node) = advance a r.first r.node in
    record { first = stage; second = r.second; node = node }
turn a b false r =
    let (stage, node) = advance b r.second r.node in
    record { first = r.first; second = stage; node = node }

unfoldable pub race : ℕ → ℕ → List Bool → Race → Race
unfolding turn
race a b [] r = r
race a b (t ∷ ts) r = race a b ts (turn a b t r)

abbrev pub starting : Node → Race
starting node = record { first = outside; second = outside; node = node }

-- The turns of one of the two.
unfoldable pub turns_of : Bool → List Bool → ℕ
turns_of who [] = 0
turns_of true (true ∷ ts) = turns_of true ts + 1
turns_of true (false ∷ ts) = turns_of true ts
turns_of false (true ∷ ts) = turns_of false ts
turns_of false (false ∷ ts) = turns_of false ts + 1

-- The error of a process that was refused.
abbrev pub refusal : Stage → Option Text
refusal outside = none
refusal unanswered = none
refusal cleared = none
refusal listening = none
refusal (refused e) = some e

-- The calls that are left.
abbrev pub calls_left : Stage → ℕ
calls_left outside = 3
calls_left unanswered = 2
calls_left cleared = 1
calls_left listening = 0
calls_left (refused e) = 0

advance-calls_left :
    (me : ℕ) (x : Stage) (n : Node) → calls_left (advance me x n).0 ≤ calls_left x - 1
unfolding advance
advance-calls_left me outside absent = omega arith
advance-calls_left me outside leftover = omega arith
advance-calls_left me outside (served p) = omega arith
advance-calls_left me outside (unheard p) = omega arith
advance-calls_left me unanswered n = omega arith
advance-calls_left me cleared absent = omega arith
advance-calls_left me cleared leftover = omega arith
advance-calls_left me cleared (served p) = omega arith
advance-calls_left me cleared (unheard p) = omega arith
advance-calls_left me listening n = omega arith
advance-calls_left me (refused e) n = omega arith

pub race-calls_left :
    (a b : ℕ) (ts : List Bool) (r : Race)
    → (calls_left (race a b ts r).first ≤ calls_left r.first - turns_of true ts)
      × (calls_left (race a b ts r).second ≤ calls_left r.second - turns_of false ts)
unfolding race turn turns_of
race-calls_left a b [] r = (omega arith, omega arith)
race-calls_left a b (true ∷ ts) r =
    let (x, y) = race-calls_left a b ts (turn a b true r) in
    (omega (arith, x, advance-calls_left a r.first r.node), omega (arith, y))
race-calls_left a b (false ∷ ts) r =
    let (x, y) = race-calls_left a b ts (turn a b false r) in
    (omega (arith, x), omega (arith, y, advance-calls_left b r.second r.node))
