-- ===== src/Godot/Remap/Found.antt =====
-- src/core/godot/import_remap.cpp: what the class `scanner` keeps of a file.
pub mod Distinct
use observer_modules.Prelude.{
  ℕ, suc, Bool, true, false, not, List, [], ◌∷◌, ◌++◌, Option, none, some, if◌then◌else◌, leb,
  length, take, drop, bytes_eq,
}
use observer_modules.Failure.{Result, ok, throw, ◌>>=◌, ◌>>◌, throw_if, metadata_error}
use observer_modules.Godot.Pck.Path.{is_empty}
use observer_modules.Godot.Remap.Value.{MetadataLimits}

-- A pair of `paths`.
pub record Variant : Type 0 where
  pub name : List ℕ
  pub path : List ℕ

-- `source_file` is there where `has_source_file`.
pub record Found : Type 0 where
  pub source_file : Option (List ℕ)
  pub paths : List Variant

abbrev pub nothing_found : Found
nothing_found = record { source_file = none; paths = [] }

abbrev pub remap_section : List ℕ
remap_section = b'r' ∷ b'e' ∷ b'm' ∷ b'a' ∷ b'p' ∷ []

abbrev pub deps_section : List ℕ
deps_section = b'd' ∷ b'e' ∷ b'p' ∷ b's' ∷ []

abbrev pub path_key : List ℕ
path_key = b'p' ∷ b'a' ∷ b't' ∷ b'h' ∷ []

abbrev pub source_file_key : List ℕ
source_file_key = b's' ∷ b'o' ∷ b'u' ∷ b'r' ∷ b'c' ∷ b'e' ∷ b'_' ∷ b'f' ∷ b'i' ∷ b'l' ∷ b'e' ∷ []

-- The loop of `add_path` over the entries that are there: the path of the first with this name.
unfoldable pub find_variant : List ℕ → List Variant → Option (List ℕ)
unfolding bytes_eq
find_variant name [] = none
find_variant name (entry ∷ rest) = elim (bytes_eq entry.name name) [
  | true ↦ some entry.path
  | false ↦ find_variant name rest
]

abbrev pub append_path : MetadataLimits → List ℕ → List ℕ → Found → Result Found
append_path limits variant value found =
    throw_if (leb limits.max_mappings (length found.paths)) metadata_error
    >> ok (record {
      source_file = found.source_file;
      paths = found.paths ++ (record { name = variant; path = value } ∷ []);
    })

abbrev pub add_path_to : MetadataLimits → List ℕ → List ℕ → Found → Option (List ℕ) → Result Found
add_path_to limits variant value found none = append_path limits variant value found
add_path_to limits variant value found (some known) =
    throw_if (not (bytes_eq known value)) metadata_error >> ok found

unfoldable pub add_path : MetadataLimits → List ℕ → List ℕ → Found → Result Found
unfolding find_variant bytes_eq
add_path limits variant value found =
    add_path_to limits variant value found (find_variant variant found.paths)

unfoldable pub require_string : Option (List ℕ) → Result (List ℕ)
require_string none = throw metadata_error
require_string (some value) = ok value

unfoldable pub add_value : MetadataLimits → List ℕ → Option (List ℕ) → Found → Result Found
unfolding add_path require_string
add_value limits variant value found =
    require_string value >>= λ path. add_path limits variant path found

unfoldable pub record_remap : MetadataLimits → List ℕ → Option (List ℕ) → Found → Result Found
unfolding bytes_eq add_path add_value require_string
record_remap limits key value found =
    if bytes_eq key path_key
    then add_value limits [] value found
    else if bytes_eq (take 5 key) (path_key ++ (b'.' ∷ []))
    then throw_if (is_empty (drop 5 key)) metadata_error
      >> add_value limits (drop 5 key) value found
    else ok found

unfoldable pub set_source : List ℕ → List Variant → Option (List ℕ) → Result Found
unfolding bytes_eq
set_source text paths none = ok (record { source_file = some text; paths = paths })
set_source text paths (some known) =
    throw_if (not (bytes_eq known text)) metadata_error
    >> ok (record { source_file = some known; paths = paths })

unfoldable pub record_deps : List ℕ → Option (List ℕ) → Found → Result Found
unfolding bytes_eq set_source require_string
record_deps key value found =
    if bytes_eq key source_file_key
    then (require_string value >>= λ text. set_source text found.paths found.source_file)
    else ok found

unfoldable pub record_value :
    MetadataLimits → List ℕ → List ℕ → Option (List ℕ) → Found → Result Found
unfolding bytes_eq record_remap record_deps
record_value limits section key value found =
    if bytes_eq section remap_section
    then record_remap limits key value found
    else if bytes_eq section deps_section
    then record_deps key value found
    else ok found
