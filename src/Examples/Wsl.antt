-- ===== src/Examples/Wsl.antt =====
-- Output of wsl.exe in several encodings, and docker's listing.
use envorca.Prelude.{ℕ, zero, suc, ◌≡◌, inl, inr, refl, true, none, List, [], ◌∷◌, All, arith}
use envorca.Text.{Text, bytes, split}
use envorca.Text.Trim.{trim_space}
use envorca.Wsl.{Result, Runner, ok, default_distro, list, default_name}
use envorca.Wsl.Output.{little_endian, big_endian, decode_output}
use envorca.Wsl.Encodings.{
  IsRune, IsAscii, to_utf16, to_bytes, to_utf8, marked, decode_output-marked, decode_output-ascii,
}
use envorca.Runtime.Listing.{Container, template_lines, IsPlain}
use envorca.Runtime.{exec, ps_args, output, list_containers}
use envorca.Runtime.Printed.{IsPrinted, list_containers-template_lines}
use envorca.Examples.{half_minute, one_distro}
use envorca.System.{MemInfo, opened, memory, Resources, scan_from, scan_line, parse_mem_info}

-- An e with an acute accent and a face: one unit, and a surrogate pair.
abbrev accents : List ℕ
accents = 0xe9 ∷ 0x1f600 ∷ []

accents-IsRune : All IsRune accents
accents-IsRune = (inl (omega arith), (inr (omega arith, omega arith), tt))

decode_output-marked_example :
    decode_output (marked big_endian (to_bytes big_endian (to_utf16 accents)))
    ≡ trim_space (to_utf8 accents)
decode_output-marked_example = decode_output-marked big_endian accents accents-IsRune

abbrev greeting : Text
greeting = 72 ∷ 105 ∷ 10 ∷ []

greeting-IsAscii : All IsAscii greeting
greeting-IsAscii =
    ((omega arith, omega arith), ((omega arith, omega arith), ((omega arith, omega arith), tt)))

decode_output-ascii_example :
    (decode_output greeting ≡ trim_space greeting)
    × (decode_output (to_bytes little_endian greeting) ≡ trim_space greeting)
    × (decode_output (marked little_endian (to_bytes little_endian greeting)) ≡ trim_space greeting)
    × (decode_output (marked big_endian (to_bytes big_endian greeting)) ≡ trim_space greeting)
decode_output-ascii_example = decode_output-ascii greeting greeting-IsAscii

abbrev web : Container
web = record {
  id = bytes "f00d";
  name = bytes "web";
  image = bytes "nginx";
  state = bytes "running";
  status = bytes "Up 5 minutes";
}

web-IsPlain : IsPlain web
unfolding bytes
web-IsPlain = ((refl, refl), (refl, refl), (refl, refl), (refl, refl), (refl, refl))

web-IsPrinted : IsPrinted web
unfolding bytes
web-IsPrinted = (
  web-IsPlain,
  (102, bytes "00d", refl, (omega arith, omega arith)),
  (bytes "Up 5 minute", 115, refl, (omega arith, omega arith)),
)

-- wsl.exe that lists its distributions first, and then runs docker.
abbrev docker_runner : Runner ℕ
docker_runner ctx args zero = (ok one_distro, 1)
docker_runner ctx args (suc w) = (ok (template_lines (web ∷ web ∷ [])), suc (suc w))

docker_printed :
    exec docker_runner half_minute (ps_args true) 0 ≡ (output (template_lines (web ∷ web ∷ [])), 2)
unfolding exec default_distro list default_name envorca.Wsl.Listing.parse_listing split
    decode_output bytes envorca.Text.index_byte trim_space envorca.Text.text_eq
    envorca.Text.trim_prefix envorca.Text.has_prefix
docker_printed = refl

list_containers-template_lines_example :
    list_containers docker_runner half_minute true 0 ≡ (output (web ∷ web ∷ []), 2)
list_containers-template_lines_example =
    list_containers-template_lines docker_runner half_minute true 0 2 (web ∷ web ∷ [])
      (web-IsPrinted, (web-IsPrinted, tt)) docker_printed

abbrev meminfo : MemInfo
meminfo = opened (bytes "MemTotal:        16 kB" ∷ bytes "MemAvailable:    8 kB" ∷ []) none

abbrev installed : Resources
installed = record { total_memory_bytes = 16384; available_memory_bytes = 8192; memory_note = [] }

meminfo_read : memory meminfo ≡ Result.ok installed
unfolding memory scan_from scan_line parse_mem_info bytes envorca.Text.has_prefix
    envorca.Text.cut_prefix envorca.Text.Trim.fields envorca.Text.Decimal.parse_uint
meminfo_read = refl
