-- ===== src/Godot/Tree/Rows.antt =====
-- src/modules/godot/virtual_tree.cpp: the rows that `make_virtual_tree` presents, with their names.
use observer_modules.Prelude.{
  ℕ, suc, ◌+◌, Bool, true, false, List, [], ◌∷◌, ◌++◌, Option, none, some, if◌then◌else◌, ltb,
  length,
}
use observer_modules.Failure.{Result, ok, ◌>>=◌}
use observer_modules.Godot.Types.{PckEntry}
use observer_modules.Godot.Pck.Path.{is_empty}
use observer_modules.Godot.Remap.Read.{ImportMapping}
use observer_modules.Godot.Tree.Host.{Host, TreeLimits, row_node_overhead, charge, utf16_length}
use observer_modules.Godot.Tree.Escape.{escape_component, escape_path}
use observer_modules.Godot.Tree.Names.{extension_of, stem_of, decimal, oversize}
use observer_modules.Godot.Tree.Maps.{
  ConversionHint, PathAt, MappedAt, is_file_kind, find_hint, find_path, find_mapping,
}

pub record ViewRow : Type 0 where
  pub effective : List ℕ
  pub fallback : List ℕ
  pub index : ℕ

-- The locals of `make_virtual_tree` that the loops over the rows read.
pub record Presented : Type 0 where
  pub entries : List PckEntry
  pub hints : List ConversionHint
  pub maps : List ImportMapping
  pub paths : List PathAt
  pub mapped : List MappedAt

module _ (host : Host) (limits : TreeLimits) where
  unfoldable pub with_extension : List ℕ → List ℕ → Option (List ℕ) → List ℕ
  unfolding stem_of escape_component
  with_extension preferred variant none = preferred
  with_extension preferred variant (some extension) =
      (if is_empty variant
        then stem_of preferred
        else stem_of preferred ++ (b'.' ∷ escape_component host variant))
      ++ escape_component host extension

  -- The lambda of that name.
  unfoldable pub presented_path : List ℕ → List ℕ → Option (List ℕ) → List ℕ → List ℕ
  unfolding utf16_length with_extension escape_path oversize
  presented_path path variant extension fallback =
      if ltb limits.max_path_chars (utf16_length host path)
      then fallback
      else let preferred : List ℕ = with_extension (escape_path host path) variant extension in
        if oversize host preferred limits.max_path_chars then fallback else preferred

  unfoldable pub raw_name : PckEntry → Option ImportMapping → List ℕ → List ℕ
  unfolding presented_path extension_of
  raw_name entry none fallback = presented_path entry.path [] none fallback
  raw_name entry (some mapping) fallback =
      presented_path mapping.virtual_path mapping.variant
        (some (extension_of mapping.compiled_path)) fallback

  abbrev pub is_raw : Presented → ℕ → PckEntry → Bool
  is_raw s position entry = elim (find_hint position s.hints) [
    | some extension ↦ false
    | none ↦ is_file_kind entry.kind
  ]

  unfoldable pub raw_row : Presented → ℕ → PckEntry → ViewRow
  unfolding raw_name decimal find_mapping
  raw_row s position entry = record {
    effective = raw_name entry (find_mapping position s.mapped) (decimal position);
    fallback = decimal position;
    index = position;
  }

  unfoldable pub raw_loop :
      Presented → ℕ → List PckEntry → List ViewRow → ℕ → Result (List ViewRow × ℕ)
  unfolding raw_row charge find_hint
  raw_loop s position [] rows used = ok (rows, used)
  raw_loop s position (entry ∷ rest) rows used = elim (is_raw s position entry) [
    | false ↦ raw_loop s (suc position) rest rows used
    | true ↦
        charge limits.max_metadata_bytes
          (length (raw_row s position entry).effective
            + length (raw_row s position entry).fallback
            + row_node_overhead)
          used
        >>= λ charged.
            raw_loop s (suc position) rest (rows ++ (raw_row s position entry ∷ [])) charged
  ]

  unfoldable pub converted_row : Presented → ℕ → List ℕ → List ℕ → List ℕ → List ViewRow → ViewRow
  unfolding presented_path decimal
  converted_row s position path variant extension rows =
      let fallback : List ℕ = decimal (length s.entries + length rows) in
      record {
        effective = presented_path path variant (some extension) fallback;
        fallback = fallback;
        index = position;
      }

  -- The lambda of that name.
  unfoldable pub add_converted :
      Presented → ℕ → List ℕ → List ℕ → List ℕ → List ViewRow → ℕ → Result (List ViewRow × ℕ)
  unfolding converted_row charge
  add_converted s position path variant extension rows used =
      let row : ViewRow = converted_row s position path variant extension rows in
      charge limits.max_metadata_bytes
        (length row.effective + length row.fallback + host.sizeof_row + row_node_overhead) used
      >>= λ charged. ok (rows ++ (row ∷ []), charged)

  unfoldable pub add_unmapped :
      Presented
      → ℕ
      → PckEntry
      → Option (List ℕ)
      → Option ImportMapping
      → List ViewRow
      → ℕ
      → Result (List ViewRow × ℕ)
  unfolding add_converted
  add_unmapped s position entry (some extension) none rows used =
      add_converted s position entry.path [] extension rows used
  add_unmapped s position entry (some extension) (some mapping) rows used = ok (rows, used)
  add_unmapped s position entry none mapping rows used = ok (rows, used)

  unfoldable pub unmapped_loop :
      Presented → ℕ → List PckEntry → List ViewRow → ℕ → Result (List ViewRow × ℕ)
  unfolding add_unmapped find_hint find_mapping
  unmapped_loop s position [] rows used = ok (rows, used)
  unmapped_loop s position (entry ∷ rest) rows used =
      add_unmapped s position entry (find_hint position s.hints) (find_mapping position s.mapped)
        rows used
      >>= λ (more, charged). unmapped_loop s (suc position) rest more charged

  unfoldable pub add_hinted :
      Presented → ImportMapping → ℕ → Option (List ℕ) → List ViewRow → ℕ → Result (List ViewRow × ℕ)
  unfolding add_converted
  add_hinted s mapping target none rows used = ok (rows, used)
  add_hinted s mapping target (some extension) rows used =
      add_converted s target mapping.virtual_path mapping.variant extension rows used

  unfoldable pub add_mapped :
      Presented → ImportMapping → Option ℕ → List ViewRow → ℕ → Result (List ViewRow × ℕ)
  unfolding add_hinted find_hint
  add_mapped s mapping none rows used = ok (rows, used)
  add_mapped s mapping (some target) rows used =
      add_hinted s mapping target (find_hint target s.hints) rows used

  unfoldable pub mapped_loop :
      Presented → List ImportMapping → List ViewRow → ℕ → Result (List ViewRow × ℕ)
  unfolding add_mapped find_path
  mapped_loop s [] rows used = ok (rows, used)
  mapped_loop s (mapping ∷ rest) rows used =
      add_mapped s mapping (find_path mapping.compiled_path s.paths) rows used
      >>= λ (more, charged). mapped_loop s rest more charged
