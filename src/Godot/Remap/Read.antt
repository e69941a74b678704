-- ===== src/Godot/Remap/Read.antt =====
-- src/core/godot/import_remap.cpp: `read_import_remap`.
pub mod Safe
pub mod Printed
use observer_modules.Prelude.{
  ℕ, ◌-◌, ◌==◌, Bool, true, false, ◌||◌, List, [], ◌∷◌, Option, none, some, if◌then◌else◌, ltb,
  length, take, drop, reverse, bytes_eq,
}
use observer_modules.Failure.{Result, ok, throw, ◌>>=◌, ◌>>◌, throw_if, metadata_error}
use observer_modules.Godot.Remap.Path.{normalize_path}
use observer_modules.Godot.Remap.Value.{MetadataLimits}
use observer_modules.Godot.Remap.Found.{Variant, Found}
use observer_modules.Godot.Remap.Scan.{scan}

-- src/core/godot/import_remap.h
pub record ImportMapping : Type 0 where
  pub virtual_path : List ℕ
  pub compiled_path : List ℕ
  pub variant : List ℕ

abbrev pub import_suffix : List ℕ
import_suffix = b'.' ∷ b'i' ∷ b'm' ∷ b'p' ∷ b'o' ∷ b'r' ∷ b't' ∷ []

abbrev pub remap_suffix : List ℕ
remap_suffix = b'.' ∷ b'r' ∷ b'e' ∷ b'm' ∷ b'a' ∷ b'p' ∷ []

abbrev pub ends_with : List ℕ → List ℕ → Bool
ends_with text suffix = bytes_eq (take (length suffix) (reverse text)) (reverse suffix)

abbrev pub without_suffix : List ℕ → List ℕ → List ℕ
without_suffix text suffix = take (length text - length suffix) text

unfoldable pub stem_of : List ℕ → Result (List ℕ)
unfolding bytes_eq
stem_of metadata =
    if ends_with metadata import_suffix
    then ok (without_suffix metadata import_suffix)
    else if ends_with metadata remap_suffix
    then ok (without_suffix metadata remap_suffix)
    else throw metadata_error

abbrev pub require_path : Option (List ℕ) → Result (List ℕ)
require_path none = throw metadata_error
require_path (some path) = ok path

-- `normalize_path`, where its failure is thrown.
unfoldable pub normalized : List ℕ → Result (List ℕ)
unfolding normalize_path
normalized raw = require_path (normalize_path raw)

abbrev pub drop_nul : List ℕ → List ℕ
drop_nul text = if ends_with text (0 ∷ []) then take (length text - 1) text else text

unfoldable pub virtual_path_of : List ℕ → Option (List ℕ) → Result (List ℕ)
unfolding normalized
virtual_path_of derived none = ok derived
virtual_path_of derived (some source_file) = normalized source_file

unfoldable pub mappings_of : List ℕ → List Variant → Result (List ImportMapping)
unfolding normalized
mappings_of virtual_path [] = ok []
mappings_of virtual_path (entry ∷ rest) = do
  compiled ← normalized entry.path
  mappings ← mappings_of virtual_path rest
  ok (
      record { virtual_path = virtual_path; compiled_path = compiled; variant = entry.name }
      ∷ mappings)

unfoldable pub read_import_remap : List ℕ → List ℕ → MetadataLimits → Result (List ImportMapping)
unfolding normalized stem_of scan virtual_path_of mappings_of bytes_eq
read_import_remap bytes metadata_path limits = do
  metadata ← normalized metadata_path
  stem ← stem_of metadata
  derived_virtual ← normalized stem
  throw_if (ltb limits.max_input_bytes (length bytes)) metadata_error
  found ← scan limits (drop_nul bytes)
  virtual_path ← virtual_path_of derived_virtual found.source_file
  mappings_of virtual_path found.paths
