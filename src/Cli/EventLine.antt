-- ===== src/Cli/EventLine.antt =====
-- An event of `envorca events` as one line (cli/cmd/envorca/events.go). The print of %q is the argument
-- `quoted`.
use envorca.Prelude.{
  ◌+◌, Bool, true, false, none, some, List, [], ◌∷◌, ◌++◌, length, take, drop, leb, ltb, ◌==◌,
  if◌then◌else◌,
}
use envorca.Text.{Text, bytes, index_byte}
use envorca.Api.{WireEvent}
use envorca.Cli.Render.{padded}

unfoldable pub time_only : Text → Text
time_only ts = elim (index_byte ts b'T') [
  | none ↦ []
  | some i ↦ if leb (i + 9) (length ts) then take 8 (drop (i + 1) ts) else []
]

-- s < t, byte by byte
unfoldable pub text_lt : Text → Text → Bool
text_lt [] [] = false
text_lt [] (d ∷ t) = true
text_lt (c ∷ s) [] = false
text_lt (c ∷ s) (d ∷ t) = if ltb c d then true else if c == d then text_lt s t else false

-- The fields in the order of their keys (sort.Strings).
unfoldable pub insert_field : Text × Text → List (Text × Text) → List (Text × Text)
insert_field (k, v) [] = (k, v) ∷ []
insert_field (k, v) ((j, w) ∷ rest) =
    let later = (j, w) ∷ insert_field (k, v) rest in
    if text_lt j k then later else (k, v) ∷ (j, w) ∷ rest

unfoldable pub sort_fields : List (Text × Text) → List (Text × Text)
unfolding insert_field
sort_fields [] = []
sort_fields (f ∷ fs) = insert_field f (sort_fields fs)

abbrev pub print_fields : (Text → Text) → List (Text × Text) → Text
print_fields quoted [] = []
print_fields quoted ((k, v) ∷ rest) =
    (bytes " " ++ (k ++ (bytes "=" ++ quoted v))) ++ print_fields quoted rest

abbrev pub time_part : Text → Text
time_part [] = []
time_part (c ∷ s) = (c ∷ s) ++ bytes " "

abbrev pub project_part : Text → Text
project_part [] = []
project_part (c ∷ s) = bytes " project=" ++ (c ∷ s)

unfoldable pub render_event : (Text → Text) → WireEvent → Text
unfolding time_only sort_fields
render_event quoted ev =
    time_part (time_only ev.timestamp)
    ++ (padded 5 ev.level
        ++ (bytes " "
            ++ (padded 12 ev.component
                ++ (bytes " "
                    ++ (ev.name
                        ++ (project_part ev.project
                            ++ print_fields quoted (sort_fields ev.fields)))))))
