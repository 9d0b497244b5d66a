-- ===== src/Diagnosis/Memory.antt =====
-- The resources probe.
use envorca.Prelude.{ℕ, ◌+◌, ◌*◌, ◌/◌, ◌%◌, ◌^◌, ◌&&◌, ◌||◌, [], ◌++◌, ltb, ◌==◌, if◌then◌else◌}
use envorca.Text.{Text, bytes}
use envorca.Text.Decimal.{itoa}
use envorca.Api.{healthy, unknown, ComponentStatus, brief}
use envorca.Wsl.{Result, ok, err}
use envorca.System.{Resources}

-- gb and %.1f: tenths of 2^30 bytes, to the nearest, and to the even one of two. The float64 is the
-- exact quotient below 2^53 bytes.
unfoldable pub tenths : ℕ → ℕ
tenths n =
    let q = n * 10 / 2 ^ 30 in
    let r = n * 10 % 2 ^ 30 in if ltb (2 ^ 29) r || (r == 2 ^ 29 && q % 2 == 1) then q + 1 else q

unfoldable pub gb : ℕ → Text
unfolding tenths
gb n = itoa (tenths n / 10) ++ (bytes "." ++ itoa (tenths n % 10))

unfoldable pub memory_summary : Resources → Text
unfolding gb
memory_summary res =
    (bytes "memory: " ++ (gb res.total_memory_bytes ++ bytes " GB installed"))
    ++ (if ltb 0 res.available_memory_bytes
        then bytes ", " ++ (gb res.available_memory_bytes ++ bytes " GB available")
        else [])

-- The status for what Memory returned.
unfoldable pub resources_status : Result Resources → ComponentStatus
unfolding memory_summary
resources_status (err e) = brief unknown (bytes "memory probe failed: " ++ e)
resources_status (ok res) =
    if res.total_memory_bytes == 0
    then brief unknown (bytes "memory probe unavailable")
    else brief healthy (memory_summary res)
