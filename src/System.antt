-- ===== src/System.antt =====
-- The memory of the machine (daemon/internal/system): /proc/meminfo elsewhere, the answer of
-- GlobalMemoryStatusEx on Windows.
pub mod Bounds
use envorca.Prelude.{
  ℕ, zero, suc, ◌*◌, ◌%◌, ◌^◌, Bool, true, false, ◌&&◌, Option, none, some, List, [], ◌∷◌, ltb,
  if◌then◌else◌,
}
use envorca.Text.{Text, bytes, has_prefix}
use envorca.Text.Trim.{fields}
use envorca.Text.Decimal.{parse_uint}
use envorca.Wsl.{Result, ok, err}

pub record Resources : Type 0 where
  pub total_memory_bytes : ℕ
  pub available_memory_bytes : ℕ
  pub memory_note : Text

abbrev pub no_resources : Resources
no_resources = record { total_memory_bytes = 0; available_memory_bytes = 0; memory_note = [] }

-- kb * 1024 in a uint64; a number that does not parse counts as 0.
abbrev pub kilobytes : Option ℕ → ℕ
kilobytes none = 0
kilobytes (some kb) = kb * 1024 % 2 ^ 64

abbrev pub second_field : List Text → ℕ
second_field (name ∷ value ∷ rest) = kilobytes (parse_uint value)
second_field _ = 0

unfoldable pub parse_mem_info : Text → ℕ
parse_mem_info line = second_field (fields line)

-- The switch in the scanner's loop.
unfoldable pub scan_line : Text → Resources → Resources
unfolding parse_mem_info
scan_line line res =
    if has_prefix line (bytes "MemTotal:")
    then record res { total_memory_bytes = parse_mem_info line }
    else if has_prefix line (bytes "MemAvailable:")
    then record res { available_memory_bytes = parse_mem_info line }
    else res

-- The loop over the lines of the file, with its break.
unfoldable pub scan_from : List Text → Resources → Resources
unfolding scan_line
scan_from [] res = res
scan_from (line ∷ rest) res =
    let res' = scan_line line res in
    let more = scan_from rest res' in
    if ltb 0 res'.total_memory_bytes && ltb 0 res'.available_memory_bytes then res' else more

-- What os.Open and the scanner give: an error of the open, or the lines read and the scanner's error.
pub data MemInfo : Type 0 where
  not_opened : Text → MemInfo
  opened : List Text → Option Text → MemInfo

abbrev pub scanned : Option Text → Resources → Result Resources
scanned none res = ok res
scanned (some e) res = err e

unfoldable pub memory : MemInfo → Result Resources
unfolding scan_from
memory (not_opened e) = err e
memory (opened lines e) = scanned e (scan_from lines no_resources)

-- On Windows: the fields of MEMORYSTATUSEX, or the error of the call.
abbrev pub memory_windows : Result (ℕ × ℕ) → Result Resources
memory_windows (err e) = err e
memory_windows (ok (total, available)) =
    ok (record { total_memory_bytes = total; available_memory_bytes = available; memory_note = [] })
