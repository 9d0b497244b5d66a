-- ===== src/System/Bounds.antt =====
-- What the numbers of Memory can be.
use envorca.Prelude.{ℕ, ◌%◌, ◌^◌, ◌<◌, ◌≡◌, refl, Option, none, some, List, [], ◌∷◌, arith}
use envorca.Text.{Text}
use envorca.Text.Trim.{fields}
use envorca.Text.Decimal.{parse_uint}
use envorca.Wsl.{ok}
use envorca.System.{
  Resources, no_resources, kilobytes, second_field, parse_mem_info, scan_line, scan_from, MemInfo,
  not_opened, opened, memory,
}

-- A number of bytes that a uint64 holds, in whole kilobytes.
abbrev pub Kilobytes : ℕ → Type 0
Kilobytes n = (n < 2 ^ 64) × (n % 1024 ≡ 0)

abbrev pub InKilobytes : Resources → Type 0
InKilobytes r = Kilobytes r.total_memory_bytes × Kilobytes r.available_memory_bytes

kilobytes-Kilobytes : (o : Option ℕ) → Kilobytes (kilobytes o)
kilobytes-Kilobytes none = (omega arith, refl)
kilobytes-Kilobytes (some kb) = (omega arith, omega arith)

second_field-Kilobytes : (fs : List Text) → Kilobytes (second_field fs)
second_field-Kilobytes [] = (omega arith, refl)
second_field-Kilobytes (a ∷ []) = (omega arith, refl)
second_field-Kilobytes (a ∷ b ∷ fs) = kilobytes-Kilobytes (parse_uint b)

parse_mem_info-Kilobytes : (line : Text) → Kilobytes (parse_mem_info line)
unfolding parse_mem_info
parse_mem_info-Kilobytes line = second_field-Kilobytes (fields line)

scan_line-InKilobytes :
    (line : Text) (res : Resources) → InKilobytes res → InKilobytes (scan_line line res)
unfolding scan_line
scan_line-InKilobytes line res h = ground (arith, parse_mem_info-Kilobytes line)

scan_from-InKilobytes :
    (lines : List Text) (res : Resources) → InKilobytes res → InKilobytes (scan_from lines res)
unfolding scan_from
scan_from-InKilobytes [] res h = h
scan_from-InKilobytes (line ∷ lines) res h = ground (
  arith,
  scan_line-InKilobytes line res h,
  scan_from-InKilobytes lines (scan_line line res) (scan_line-InKilobytes line res h),
)

-- The memory read from /proc/meminfo fits a uint64 and is a whole number of kilobytes, also where the
-- multiplication by 1024 wraps around.
pub memory-InKilobytes : (m : MemInfo) (r : Resources) → memory m ≡ ok r → InKilobytes r
unfolding memory
memory-InKilobytes (not_opened e) r h = absurd cc
memory-InKilobytes (opened lines (some e)) r h = absurd cc
memory-InKilobytes (opened lines none) r h =
    let e : scan_from lines no_resources ≡ r = cc in
    rw (← e) (scan_from-InKilobytes lines no_resources ((omega arith, refl), (omega arith, refl)))
