-- ===== src/Godot/Tree/Build.antt =====
-- src/modules/godot/virtual_tree.cpp: `make_virtual_tree`.
pub mod Apart
pub mod Budget
pub mod RowBudget
pub mod Rows
pub mod MappedRows
pub mod RowFor
pub mod Complete
pub mod MapEnds
pub mod RowEnds
pub mod Ends
pub mod Manifest
pub mod Whole
use observer_modules.Prelude.{
  ℕ, zero, suc, ◌+◌, ◌/◌, ◌==◌, Bool, true, false, not, ◌||◌, List, [], ◌∷◌, ◌++◌, Option, none,
  some, if◌then◌else◌, ltb, leb, length, get_elem?, bytes_eq,
}
use observer_modules.Failure.{
  Result, ok, throw, ◌>>=◌, ◌>>◌, throw_if, tree_error, tree_budget_error,
}
use observer_modules.Godot.Types.{PckEntry}
use observer_modules.Godot.Pck.Path.{is_empty}
use observer_modules.Godot.Remap.Read.{ImportMapping}
use observer_modules.Godot.Tree.Host.{
  Host, TreeLimits, entry_slot_overhead, row_node_overhead, charge, reserve_slots,
}
use observer_modules.Godot.Tree.Escape.{escape_field, escaped_field_size}
use observer_modules.Godot.Tree.Names.{decimal, digit_count}
use observer_modules.Godot.Tree.Placer.{Placer, reserve_ancestors, place}
use observer_modules.Godot.Tree.Maps.{
  ConversionHint, PathAt, MappedAt, is_file_kind, hints_loop, mappings_loop, paths_loop,
  first_mappings_loop,
}
use observer_modules.Godot.Tree.Rows.{ViewRow, Presented, raw_loop, unmapped_loop, mapped_loop}

-- src/modules/godot/virtual_tree.h
pub record VirtualEntry : Type 0 where
  pub path : List ℕ
  pub source_index : Option ℕ
  pub converted : Bool
  pub generated_text : List ℕ

-- The locals that the last part of `make_virtual_tree` changes.
pub record Output : Type 0 where
  pub placer : Placer
  pub entries : List VirtualEntry
  pub manifest : List ℕ

abbrev pub with_used : Placer → ℕ → Placer
with_used p used = record {
  used = used;
  files = p.files;
  dirs = p.dirs;
  suffix_next = p.suffix_next;
}

abbrev pub path_at : Option PckEntry → List ℕ
path_at none = []
path_at (some entry) = entry.path

abbrev pub manifest_name : List ℕ
manifest_name =
    b'n' ∷ b'a' ∷ b'm' ∷ b'e' ∷ b'-' ∷ b'm' ∷ b'a' ∷ b'p' ∷ b'.' ∷ b't' ∷ b's' ∷ b'v' ∷ []

abbrev pub removals_name : List ℕ
removals_name =
    b'p' ∷ b'a' ∷ b't' ∷ b'c' ∷ b'h' ∷ b'-' ∷ b'r' ∷ b'e' ∷ b'm' ∷ b'o' ∷ b'v' ∷ b'a' ∷ b'l' ∷ b's'
    ∷ b'.' ∷ b't' ∷ b's' ∷ b'v' ∷ []

module _ (host : Host) (limits : TreeLimits) where
  unfoldable pub reserve_all : List ViewRow → Placer → Result Placer
  unfolding reserve_ancestors
  reserve_all [] p = ok p
  reserve_all (row ∷ rest) p =
      reserve_ancestors host limits row.effective p >>= λ q. reserve_all rest q

  -- The lambda of that name.
  unfoldable pub add_entry : VirtualEntry → Output → Result Output
  unfolding charge
  add_entry entry out = do
    throw_if (leb limits.max_entries (length out.entries))
        (tree_error "godot virtual tree exceeds the entry budget")
    used ←
        charge limits.max_metadata_bytes
          (length entry.path + length entry.generated_text + entry_slot_overhead) out.placer.used
    ok (record {
      placer = with_used out.placer used;
      entries = out.entries ++ (entry ∷ []);
      manifest = out.manifest;
    })

  unfoldable pub manifest_row : ℕ → List ℕ → List ℕ → List ℕ
  unfolding decimal escape_field
  manifest_row index physical final_path =
      decimal index
      ++ (9 ∷ (escape_field host physical ++ (9 ∷ (escape_field host final_path ++ (10 ∷ [])))))

  unfoldable pub row_bound : ℕ → List ℕ → List ℕ → ℕ
  unfolding escaped_field_size digit_count
  row_bound index physical final_path =
      escaped_field_size host physical + escaped_field_size host final_path + digit_count index + 3

  -- The manifest has a row for a file that is not presented under its own name.
  unfoldable pub note_row : ℕ → List ℕ → List ℕ → Placer → Output → Result Output
  unfolding charge row_bound bytes_eq manifest_row
  note_row index physical final_path p out =
      if bytes_eq final_path physical
      then ok (record { placer = p; entries = out.entries; manifest = out.manifest })
      else (charge limits.max_metadata_bytes (row_bound index physical final_path) p.used
          >>= λ used. ok (record {
            placer = with_used p used;
            entries = out.entries;
            manifest = out.manifest ++ manifest_row index physical final_path;
          }))

  -- The lambda of that name.
  unfoldable pub append_row : List PckEntry → Bool → ViewRow → Output → Result Output
  unfolding place note_row add_entry
  append_row entries converted row out = do
    (final_path, p) ← place host limits row.effective row.fallback out.placer
    noted ← note_row row.index (path_at (get_elem? entries row.index)) final_path p out
    add_entry
        (record {
          path = final_path;
          source_index = some row.index;
          converted = converted;
          generated_text = [];
        })
        noted

  unfoldable pub append_rows : List PckEntry → Bool → List ViewRow → Output → Result Output
  unfolding append_row
  append_rows entries converted [] out = ok out
  append_rows entries converted (row ∷ rest) out =
      append_row entries converted row out >>= λ next. append_rows entries converted rest next

  unfoldable pub removal_row : ℕ → List ℕ → List ℕ
  unfolding decimal escape_field
  removal_row position physical =
      decimal position ++ (9 ∷ (escape_field host physical ++ (10 ∷ [])))

  unfoldable pub removals_loop : ℕ → List PckEntry → List ℕ → ℕ → Result (List ℕ × ℕ)
  unfolding charge digit_count escaped_field_size removal_row
  removals_loop position [] text used = ok (text, used)
  removals_loop position (entry ∷ rest) text used = elim (is_file_kind entry.kind) [
    | true ↦ removals_loop (suc position) rest text used
    | false ↦
        charge limits.max_metadata_bytes
          (digit_count position + escaped_field_size host entry.path + 2) used
        >>= λ charged.
            removals_loop (suc position) rest (text ++ removal_row position entry.path) charged
  ]

  -- A generated file, where its text is not empty.
  unfoldable pub add_generated : List ℕ → List ℕ → List ℕ → Output → Result Output
  unfolding place add_entry
  add_generated name fallback [] out = ok out
  add_generated name fallback (c ∷ text) out = do
    (final_path, p) ← place host limits name fallback out.placer
    add_entry
        (record {
          path = final_path;
          source_index = none;
          converted = false;
          generated_text = c ∷ text;
        })
        (record { placer = p; entries = out.entries; manifest = out.manifest })

  unfoldable pub check_counts : ℕ → ℕ → ℕ → Result (Unit {0})
  check_counts raw_count mapping_count hint_count = do
    throw_if
        (ltb limits.max_entries raw_count
          || ltb limits.max_entries mapping_count
          || ltb limits.max_entries hint_count)
        (tree_error "godot virtual tree exceeds the entry budget")
    throw_if (ltb (limits.max_metadata_bytes / entry_slot_overhead) raw_count) tree_budget_error

  -- From the hints to `first_mapping`.
  unfoldable pub build_maps :
      List PckEntry → List ImportMapping → List ConversionHint → Result (Presented × ℕ)
  unfolding hints_loop mappings_loop paths_loop first_mappings_loop
  build_maps entries mappings hints = do
    (kept, used₁) ← hints_loop limits.max_metadata_bytes entries hints [] 0
    (maps, used₂) ← mappings_loop host limits.max_metadata_bytes mappings [] used₁
    (paths, used₃) ← paths_loop host limits.max_metadata_bytes 0 entries [] used₂
    (mapped, used₄) ← first_mappings_loop host limits.max_metadata_bytes paths maps [] used₃
    ok (
      record { entries = entries; hints = kept; maps = maps; paths = paths; mapped = mapped },
      used₄,
    )

  -- The names of the rows, raw and converted.
  unfoldable pub build_rows : Presented → ℕ → Result ((List ViewRow × List ViewRow) × ℕ)
  unfolding reserve_slots raw_loop unmapped_loop mapped_loop
  build_rows s used = do
    used₁ ← reserve_slots limits.max_metadata_bytes (length s.entries) host.sizeof_row used
    (raw_rows, used₂) ← raw_loop host limits s 0 s.entries [] used₁
    (unmapped, used₃) ← unmapped_loop host limits s 0 s.entries [] used₂
    (converted_rows, used₄) ← mapped_loop host limits s s.maps unmapped used₃
    ok ((raw_rows, converted_rows), used₄)

  -- The placement of the rows and of the two generated files.
  unfoldable pub place_rows : Presented → List ViewRow → List ViewRow → ℕ → Result Output
  unfolding reserve_all append_rows removals_loop add_generated
  place_rows s raw_rows converted_rows used = do
    p ← reserve_all raw_rows (record { used = used; files = []; dirs = []; suffix_next = [] })
    q ← reserve_all converted_rows p
    raw ← append_rows s.entries false raw_rows (record { placer = q; entries = []; manifest = [] })
    all ← append_rows s.entries true converted_rows raw
    (removal_text, charged) ← removals_loop 0 s.entries [] all.placer.used
    removals ← add_generated removals_name (b'r' ∷ []) removal_text (record {
      placer = with_used all.placer charged;
      entries = all.entries;
      manifest = all.manifest;
    })
    add_generated manifest_name (b'n' ∷ []) removals.manifest removals

  unfoldable pub make_virtual_tree :
      List PckEntry → List ImportMapping → List ConversionHint → Result (List VirtualEntry)
  unfolding check_counts build_maps build_rows place_rows
  make_virtual_tree entries mappings hints = do
    check_counts (length entries) (length mappings) (length hints)
    (s, used) ← build_maps entries mappings hints
    ((raw_rows, converted_rows), charged) ← build_rows s used
    out ← place_rows s raw_rows converted_rows charged
    ok out.entries
