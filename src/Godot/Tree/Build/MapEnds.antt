-- ===== src/Godot/Tree/Build/MapEnds.antt =====
-- src/modules/godot/virtual_tree.cpp: the loops that build the maps end.
use observer_modules.Prelude.{
  ℕ, String, suc, ◌≢◌, not, List, [], ◌∷◌, ◌++◌, Option, none, some, get_elem?, bytes_eq,
}
use observer_modules.Failure.{Result, ◌>>=◌, tree_error, tree_budget_error, out_of_fuel}
use observer_modules.Failure.Halts.{
  Halts, Halts-bind, Halts-ok, Halts-throw, Halts-guard, Halts-split,
}
use observer_modules.Godot.Types.{PckEntry}
use observer_modules.Godot.Remap.Read.{ImportMapping}
use observer_modules.Godot.Tree.Host.{Host, TreeLimits, charge}
use observer_modules.Godot.Tree.Names.{is_supported_extension, presentation_normalize}
use observer_modules.Godot.Tree.Placer.Ends.{charge-Halts}
use observer_modules.Godot.Tree.Maps.{
  ConversionHint, PathAt, MappedAt, is_file_kind, is_file_entry, find_hint, find_path, find_mapping,
  emplace_hint, add_hint, hints_loop, both_paths, normalize_mapping, mappings_loop, emplace_path,
  paths_loop, emplace_mapping, add_mapping, first_mappings_loop,
}

pub error_ends : (m : String) → tree_error m ≢ out_of_fuel
error_ends m e = cc

pub budget_ends : tree_budget_error ≢ out_of_fuel
budget_ends e = cc

module _ (host : Host) (limits : TreeLimits) where
  -- A charge, and what follows it.
  pub charged :
      {A : Type 0} (bytes used : ℕ) (f : ℕ → Result A)
      → ((after : ℕ) → Halts (f after))
      → Halts (charge limits.max_metadata_bytes bytes used >>= f)
  charged bytes used f h =
      Halts-bind (charge limits.max_metadata_bytes bytes used) f
        (charge-Halts host limits bytes used) h

  pub hints_loop-Halts :
      (entries : List PckEntry) (given hints : List ConversionHint) (used : ℕ)
      → Halts (hints_loop limits.max_metadata_bytes entries given hints used)
  unfolding hints_loop add_hint emplace_hint
  hints_loop-Halts entries [] hints used = Halts-ok _
  hints_loop-Halts entries (hint ∷ rest) hints used =
      Halts-bind (add_hint limits.max_metadata_bytes entries hint hints used) _
        (Halts-guard (not (is_file_entry (get_elem? entries hint.source_index))) _ _ (error_ends _)
          (Halts-guard (not (is_supported_extension hint.extension)) _ _ (error_ends _)
            (go (find_hint hint.source_index hints))))
        λ (more, after). hints_loop-Halts entries rest more after
    where
      go : (o : Option (List ℕ)) → Halts (emplace_hint limits.max_metadata_bytes hint hints o used)
      go none = charged _ used _ λ after. Halts-ok _
      go (some known) =
          Halts-guard (not (bytes_eq known hint.extension)) _ _ (error_ends _) (Halts-ok _)

  normalize_mapping-Halts : (mapping : ImportMapping) → Halts (normalize_mapping mapping)
  unfolding normalize_mapping
  normalize_mapping-Halts mapping =
      go (presentation_normalize mapping.virtual_path)
        (presentation_normalize mapping.compiled_path)
    where
      go : (a b : Option (List ℕ)) → Halts (both_paths mapping a b)
      go (some a) (some b) = Halts-ok _
      go (some a) none = Halts-throw ImportMapping _ (error_ends _)
      go none b = Halts-throw ImportMapping _ (error_ends _)

  pub mappings_loop-Halts :
      (given maps : List ImportMapping) (used : ℕ)
      → Halts (mappings_loop host limits.max_metadata_bytes given maps used)
  unfolding mappings_loop
  mappings_loop-Halts [] maps used = Halts-ok _
  mappings_loop-Halts (mapping ∷ rest) maps used = charged _ used _ λ after.
      Halts-bind (normalize_mapping mapping) _ (normalize_mapping-Halts mapping)
        λ normalized. mappings_loop-Halts rest (maps ++ (normalized ∷ [])) after

  pub paths_loop-Halts :
      (position : ℕ) (entries : List PckEntry) (paths : List PathAt) (used : ℕ)
      → Halts (paths_loop host limits.max_metadata_bytes position entries paths used)
  unfolding paths_loop emplace_path
  paths_loop-Halts position [] paths used = Halts-ok _
  paths_loop-Halts position (entry ∷ rest) paths used =
      Halts-split (is_file_kind entry.kind) _ _
        (Halts-bind
          (emplace_path host limits.max_metadata_bytes entry position paths
            (find_path entry.path paths) used)
          _ (go (find_path entry.path paths))
          λ (more, after). paths_loop-Halts (suc position) rest more after)
        (paths_loop-Halts (suc position) rest paths used)
    where
      go :
          (o : Option ℕ)
          → Halts (emplace_path host limits.max_metadata_bytes entry position paths o used)
      go none = charged _ used _ λ after. Halts-ok _
      go (some known) = Halts-ok _

  pub first_mappings_loop-Halts :
      (paths : List PathAt) (maps : List ImportMapping) (mapped : List MappedAt) (used : ℕ)
      → Halts (first_mappings_loop host limits.max_metadata_bytes paths maps mapped used)
  unfolding first_mappings_loop add_mapping emplace_mapping
  first_mappings_loop-Halts paths [] mapped used = Halts-ok _
  first_mappings_loop-Halts paths (mapping ∷ rest) mapped used =
      Halts-bind
        (add_mapping host limits.max_metadata_bytes mapping (find_path mapping.compiled_path paths)
          mapped used)
        _ (go (find_path mapping.compiled_path paths))
        λ (more, after). first_mappings_loop-Halts paths rest more after
    where
      emplaced :
          (target : ℕ) (o : Option ImportMapping)
          → Halts (emplace_mapping host limits.max_metadata_bytes mapping target mapped o used)
      emplaced target (some known) = Halts-ok _
      emplaced target none = charged _ used _ λ after. Halts-ok _

      go : (o : Option ℕ) → Halts (add_mapping host limits.max_metadata_bytes mapping o mapped used)
      go none = Halts-ok _
      go (some target) = emplaced target (find_mapping target mapped)
