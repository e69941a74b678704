-- ===== src/Godot/Tree/Maps.antt =====
-- src/modules/godot/virtual_tree.cpp: the maps that `make_virtual_tree` builds from its arguments. A map
-- is the list of its pairs.
use observer_modules.Prelude.{
  ℕ, suc, ◌+◌, ◌*◌, ◌==◌, Bool, true, false, not, List, [], ◌∷◌, ◌++◌, Option, none, some, length,
  get_elem?, bytes_eq,
}
use observer_modules.Failure.{Result, ok, throw, ◌>>=◌, ◌>>◌, throw_if, tree_error}
use observer_modules.Godot.Types.{PckEntry, PckEntryKind, file, removal}
use observer_modules.Godot.Remap.Read.{ImportMapping}
use observer_modules.Godot.Tree.Host.{Host, map_node_overhead, row_node_overhead, charge}
use observer_modules.Godot.Tree.Names.{is_supported_extension, presentation_normalize}

-- src/modules/godot/virtual_tree.h
pub record ConversionHint : Type 0 where
  pub source_index : ℕ
  pub extension : List ℕ

-- A pair of `first_with_path`.
pub record PathAt : Type 0 where
  pub path : List ℕ
  pub position : ℕ

-- A pair of `first_mapping`, with the mapping itself for its index in `maps`.
pub record MappedAt : Type 0 where
  pub target : ℕ
  pub mapping : ImportMapping

abbrev pub is_file_kind : PckEntryKind → Bool
is_file_kind file = true
is_file_kind removal = false

abbrev pub is_file_entry : Option PckEntry → Bool
is_file_entry none = false
is_file_entry (some entry) = is_file_kind entry.kind

unfoldable pub find_hint : ℕ → List ConversionHint → Option (List ℕ)
find_hint index [] = none
find_hint index (hint ∷ rest) = elim (hint.source_index == index) [
  | true ↦ some hint.extension
  | false ↦ find_hint index rest
]

unfoldable pub find_path : List ℕ → List PathAt → Option ℕ
unfolding bytes_eq
find_path path [] = none
find_path path (entry ∷ rest) = elim (bytes_eq entry.path path) [
  | true ↦ some entry.position
  | false ↦ find_path path rest
]

unfoldable pub find_mapping : ℕ → List MappedAt → Option ImportMapping
find_mapping target [] = none
find_mapping target (entry ∷ rest) = elim (entry.target == target) [
  | true ↦ some entry.mapping
  | false ↦ find_mapping target rest
]

unfoldable pub emplace_hint :
    ℕ
    → ConversionHint
    → List ConversionHint
    → Option (List ℕ)
    → ℕ
    → Result (List ConversionHint × ℕ)
unfolding charge bytes_eq
emplace_hint limit hint hints none used = do
  charged ← charge limit (length hint.extension + map_node_overhead) used
  ok (hints ++ (hint ∷ []), charged)
emplace_hint limit hint hints (some known) used =
    throw_if (not (bytes_eq known hint.extension))
      (tree_error "conversion hint contradicts an earlier hint")
    >> ok (hints, used)

unfoldable pub add_hint :
    ℕ → List PckEntry → ConversionHint → List ConversionHint → ℕ → Result (List ConversionHint × ℕ)
unfolding emplace_hint find_hint is_supported_extension
add_hint limit entries hint hints used = do
  throw_if (not (is_file_entry (get_elem? entries hint.source_index)))
      (tree_error "conversion hint source index is out of range")
  throw_if (not (is_supported_extension hint.extension))
      (tree_error "conversion hint extension is unsupported")
  emplace_hint limit hint hints (find_hint hint.source_index hints) used

unfoldable pub hints_loop :
    ℕ
    → List PckEntry
    → List ConversionHint
    → List ConversionHint
    → ℕ
    → Result (List ConversionHint × ℕ)
unfolding add_hint
hints_loop limit entries [] hints used = ok (hints, used)
hints_loop limit entries (hint ∷ rest) hints used =
    add_hint limit entries hint hints used >>= λ (more, charged).
    hints_loop limit entries rest more charged

abbrev pub both_paths : ImportMapping → Option (List ℕ) → Option (List ℕ) → Result ImportMapping
both_paths mapping (some virtual_path) (some compiled_path) = ok (record {
  virtual_path = virtual_path;
  compiled_path = compiled_path;
  variant = mapping.variant;
})
both_paths mapping (some virtual_path) none =
    throw (tree_error "import/remap mapping path is invalid")
both_paths mapping none compiled_path = throw (tree_error "import/remap mapping path is invalid")

unfoldable pub normalize_mapping : ImportMapping → Result ImportMapping
unfolding presentation_normalize
normalize_mapping mapping =
    both_paths mapping (presentation_normalize mapping.virtual_path)
      (presentation_normalize mapping.compiled_path)

module _ (host : Host) (limit : ℕ) where
  unfoldable pub mappings_loop :
      List ImportMapping → List ImportMapping → ℕ → Result (List ImportMapping × ℕ)
  unfolding charge normalize_mapping
  mappings_loop [] maps used = ok (maps, used)
  mappings_loop (mapping ∷ rest) maps used = do
    charged ←
        charge limit
          (length mapping.virtual_path
            + length mapping.compiled_path
            + length mapping.variant
            + host.sizeof_mapping
            + row_node_overhead)
          used
    normalized ← normalize_mapping mapping
    mappings_loop rest (maps ++ (normalized ∷ [])) charged

  unfoldable pub emplace_path : PckEntry → ℕ → List PathAt → Option ℕ → ℕ → Result (List PathAt × ℕ)
  unfolding charge
  emplace_path entry position paths (some known) used = ok (paths, used)
  emplace_path entry position paths none used = do
    charged ← charge limit (length entry.path + map_node_overhead) used
    ok (paths ++ (record { path = entry.path; position = position } ∷ []), charged)

  unfoldable pub paths_loop : ℕ → List PckEntry → List PathAt → ℕ → Result (List PathAt × ℕ)
  unfolding emplace_path find_path
  paths_loop position [] paths used = ok (paths, used)
  paths_loop position (entry ∷ rest) paths used = elim (is_file_kind entry.kind) [
    | true ↦
        emplace_path entry position paths (find_path entry.path paths) used >>= λ (more, charged).
        paths_loop (suc position) rest more charged
    | false ↦ paths_loop (suc position) rest paths used
  ]

  unfoldable pub emplace_mapping :
      ImportMapping → ℕ → List MappedAt → Option ImportMapping → ℕ → Result (List MappedAt × ℕ)
  unfolding charge
  emplace_mapping mapping target mapped (some known) used = ok (mapped, used)
  emplace_mapping mapping target mapped none used = do
    charged ← charge limit (map_node_overhead + host.sizeof_size * 2) used
    ok (mapped ++ (record { target = target; mapping = mapping } ∷ []), charged)

  unfoldable pub add_mapping :
      ImportMapping → Option ℕ → List MappedAt → ℕ → Result (List MappedAt × ℕ)
  unfolding emplace_mapping find_mapping
  add_mapping mapping none mapped used = ok (mapped, used)
  add_mapping mapping (some target) mapped used =
      emplace_mapping mapping target mapped (find_mapping target mapped) used

  unfoldable pub first_mappings_loop :
      List PathAt → List ImportMapping → List MappedAt → ℕ → Result (List MappedAt × ℕ)
  unfolding add_mapping find_path
  first_mappings_loop paths [] mapped used = ok (mapped, used)
  first_mappings_loop paths (mapping ∷ rest) mapped used =
      add_mapping mapping (find_path mapping.compiled_path paths) mapped used >>= λ (more, charged).
      first_mappings_loop paths rest more charged
