-- ===== src/Godot/Remap/Path.antt =====
-- src/core/godot/import_remap.cpp: `normalize_path`.
pub mod Keeps
pub mod Length
pub mod Normal
pub mod Stable
use observer_modules.Prelude.{
  ℕ, ◌==◌, Bool, true, false, ◌||◌, List, [], ◌∷◌, ◌++◌, Option, none, some, if◌then◌else◌, ltb,
  length, bytes_eq,
}
use observer_modules.Extractor.{max_path_bytes}
use observer_modules.Godot.Pck.Path.{is_empty, parent, strip_resource}

abbrev pub here : List ℕ
here = b'.' ∷ []

abbrev pub is_separator : ℕ → Bool
is_separator c = c == b'/' || c == b'\\'

abbrev pub starts_with_separator : List ℕ → Bool
starts_with_separator [] = false
starts_with_separator (c ∷ rest) = is_separator c

unfoldable pub has_forbidden : List ℕ → Bool
has_forbidden [] = false
has_forbidden (c ∷ rest) = ltb c 32 || c == b':' || has_forbidden rest

-- The lambda `flush`: what `normalized` is after it, `none` where it answers false.
abbrev pub join_segment : List ℕ → List ℕ → List ℕ
join_segment normalized segment =
    if is_empty segment || bytes_eq segment here
    then normalized
    else if is_empty normalized
    then segment
    else normalized ++ (b'/' ∷ segment)

unfoldable pub flush : List ℕ → List ℕ → Option (List ℕ)
unfolding bytes_eq
flush normalized segment =
    if bytes_eq segment parent then none else some (join_segment normalized segment)

-- The loop over the bytes of the value.
unfoldable pub walk : List ℕ → List ℕ → List ℕ → Option (List ℕ)
unfolding flush
walk normalized segment [] = flush normalized segment
walk normalized segment (c ∷ rest) = elim (is_separator c) [
  | true ↦ elim (flush normalized segment) [ none ↦ none | some joined ↦ walk joined [] rest ]
  | false ↦ walk normalized (segment ++ (c ∷ [])) rest
]

abbrev pub if_present : List ℕ → Option (List ℕ)
if_present [] = none
if_present (c ∷ rest) = some (c ∷ rest)

abbrev pub normalize_value : List ℕ → Option (List ℕ)
normalize_value value =
    if starts_with_separator value
    then none
    else if has_forbidden value
    then none
    else elim (walk [] [] value) [ none ↦ none | some normalized ↦ if_present normalized ]

unfoldable pub normalize_path : List ℕ → Option (List ℕ)
unfolding has_forbidden walk bytes_eq
normalize_path raw =
    if ltb max_path_bytes (length raw) then none else normalize_value (strip_resource raw)
