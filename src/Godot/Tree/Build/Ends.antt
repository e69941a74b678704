-- ===== src/Godot/Tree/Build/Ends.antt =====
-- src/modules/godot/virtual_tree.cpp: `make_virtual_tree` ends.
use observer_modules.Prelude.{
  ℕ, suc, ◌/◌, ◌-◌, ◌==◌, ◌≢◌, Bool, true, false, ◌||◌, List, [], ◌∷◌, ◌++◌, none, some, ltb, leb,
  length, get_elem?, bytes_eq,
}
use observer_modules.Failure.{throw, throw_if, tree_budget_error, out_of_fuel}
use observer_modules.Failure.Halts.{
  Halts, Halts-bind, Halts-ok, Halts-throw, Halts-guard, Halts-split, Halts-if,
}
use observer_modules.Godot.Types.{PckEntry}
use observer_modules.Godot.Remap.Read.{ImportMapping}
use observer_modules.Godot.Tree.Host.{Host, TreeLimits, entry_slot_overhead, reserve_slots}
use observer_modules.Godot.Tree.Placer.{
  Placer, charge_name, reserve_dir, ancestors_loop, reserve_ancestors, place,
}
use observer_modules.Godot.Tree.Placer.Ends.{IsOrdinal, place_total}
use observer_modules.Godot.Tree.Build.MapEnds.{
  error_ends, budget_ends, charged, hints_loop-Halts, mappings_loop-Halts, paths_loop-Halts,
  first_mappings_loop-Halts,
}
use observer_modules.Godot.Tree.Maps.{ConversionHint, is_file_kind}
use observer_modules.Godot.Tree.Rows.{ViewRow, Presented}
use observer_modules.Godot.Tree.Build.{
  VirtualEntry, Output, path_at, reserve_all, add_entry, note_row, append_row, append_rows,
  removals_loop, removal_row, add_generated, check_counts, build_maps, build_rows, place_rows,
  make_virtual_tree, removals_name, manifest_name,
}
use observer_modules.Godot.Tree.Build.RowEnds.{
  raw_loop-Halts, unmapped_loop-Halts, mapped_loop-Halts,
}

module _ (host : Host) (limits : TreeLimits) where
  ancestors_loop-Halts :
      (prefix path : List ℕ) (p : Placer) → Halts (ancestors_loop host limits prefix path p)
  unfolding ancestors_loop reserve_dir charge_name
  ancestors_loop-Halts prefix [] p = Halts-ok _
  ancestors_loop-Halts prefix (c ∷ rest) p =
      Halts-split (c == b'/') _ _
        (Halts-bind (reserve_dir host limits prefix p) _
          (charged host limits _ p.used _ λ after. Halts-ok _)
          λ q. ancestors_loop-Halts (prefix ++ (c ∷ [])) rest q)
        (ancestors_loop-Halts (prefix ++ (c ∷ [])) rest p)

  reserve_all-Halts : (rows : List ViewRow) (p : Placer) → Halts (reserve_all host limits rows p)
  unfolding reserve_all reserve_ancestors
  reserve_all-Halts [] p = Halts-ok _
  reserve_all-Halts (row ∷ rest) p =
      Halts-bind (reserve_ancestors host limits row.effective p) _
        (ancestors_loop-Halts [] row.effective p) λ q. reserve_all-Halts rest q

  add_entry-Halts : (entry : VirtualEntry) (out : Output) → Halts (add_entry host limits entry out)
  unfolding add_entry
  add_entry-Halts entry out =
      Halts-guard (leb limits.max_entries (length out.entries)) _ _ (error_ends _)
        (charged host limits _ out.placer.used _ λ after. Halts-ok _)

  note_row-Halts :
      (index : ℕ) (physical final_path : List ℕ) (p : Placer) (out : Output)
      → Halts (note_row host limits index physical final_path p out)
  unfolding note_row
  note_row-Halts index physical final_path p out =
      Halts-if (bytes_eq final_path physical) _ _ (Halts-ok _)
        (charged host limits _ p.used _ λ after. Halts-ok _)

  place-Halts :
      (law : IsOrdinal host limits) (preferred fallback : List ℕ) (p : Placer)
      → Halts (place host limits preferred fallback p)
  unfolding Halts
  place-Halts law preferred fallback p = place_total host limits law preferred fallback p

  append_rows-Halts :
      (law : IsOrdinal host limits) (entries : List PckEntry) (converted : Bool)
      (rows : List ViewRow) (out : Output)
      → Halts (append_rows host limits entries converted rows out)
  unfolding append_rows append_row
  append_rows-Halts law entries converted [] out = Halts-ok _
  append_rows-Halts law entries converted (row ∷ rest) out =
      Halts-bind (append_row host limits entries converted row out) _
        (Halts-bind (place host limits row.effective row.fallback out.placer) _
          (place-Halts law row.effective row.fallback out.placer)
          λ (name, p).
            Halts-bind
              (note_row host limits row.index (path_at (get_elem? entries row.index)) name p out) _
              (note_row-Halts row.index (path_at (get_elem? entries row.index)) name p out)
              λ noted.
                add_entry-Halts
                  (record {
                    path = name;
                    source_index = some row.index;
                    converted = converted;
                    generated_text = [];
                  })
                  noted)
        λ next. append_rows-Halts law entries converted rest next

  removals_loop-Halts :
      (position : ℕ) (entries : List PckEntry) (text : List ℕ) (used : ℕ)
      → Halts (removals_loop host limits position entries text used)
  unfolding removals_loop
  removals_loop-Halts position [] text used = Halts-ok _
  removals_loop-Halts position (entry ∷ rest) text used =
      Halts-split (is_file_kind entry.kind) _ _ (removals_loop-Halts (suc position) rest text used)
        (charged host limits _ used _ λ after.
          removals_loop-Halts (suc position) rest
            (text ++ removal_row host limits position entry.path) after)

  add_generated-Halts :
      (law : IsOrdinal host limits) (name fallback text : List ℕ) (out : Output)
      → Halts (add_generated host limits name fallback text out)
  unfolding add_generated
  add_generated-Halts law name fallback [] out = Halts-ok _
  add_generated-Halts law name fallback (c ∷ text) out =
      Halts-bind (place host limits name fallback out.placer) _
        (place-Halts law name fallback out.placer)
        λ (given, p).
          add_entry-Halts
            (record {
              path = given;
              source_index = none;
              converted = false;
              generated_text = c ∷ text;
            })
            (record { placer = p; entries = out.entries; manifest = out.manifest })

  place_rows-Halts :
      (law : IsOrdinal host limits) (s : Presented) (raw_rows converted_rows : List ViewRow)
      (used : ℕ)
      → Halts (place_rows host limits s raw_rows converted_rows used)
  unfolding place_rows
  place_rows-Halts law s raw_rows converted_rows used =
      Halts-bind _ _ (reserve_all-Halts raw_rows _) λ p.
        Halts-bind _ _ (reserve_all-Halts converted_rows p) λ q.
          Halts-bind _ _ (append_rows-Halts law s.entries false raw_rows _) λ raw.
            Halts-bind _ _ (append_rows-Halts law s.entries true converted_rows raw) λ all.
              Halts-bind _ _ (removals_loop-Halts 0 s.entries [] all.placer.used) λ (text, after).
                Halts-bind _ _ (add_generated-Halts law removals_name (b'r' ∷ []) text _)
                  λ removals.
                    add_generated-Halts law manifest_name (b'n' ∷ []) removals.manifest removals

  build_maps-Halts :
      (entries : List PckEntry) (mappings : List ImportMapping) (hints : List ConversionHint)
      → Halts (build_maps host limits entries mappings hints)
  unfolding build_maps
  build_maps-Halts entries mappings hints =
      Halts-bind _ _ (hints_loop-Halts host limits entries hints [] 0) λ (kept, used₁).
        Halts-bind _ _ (mappings_loop-Halts host limits mappings [] used₁) λ (maps, used₂).
          Halts-bind _ _ (paths_loop-Halts host limits 0 entries [] used₂) λ (paths, used₃).
            Halts-bind _ _ (first_mappings_loop-Halts host limits paths maps [] used₃)
              λ (mapped, used₄). Halts-ok _

  build_rows-Halts : (s : Presented) (used : ℕ) → Halts (build_rows host limits s used)
  unfolding build_rows reserve_slots
  build_rows-Halts s used =
      Halts-bind (reserve_slots limits.max_metadata_bytes (length s.entries) host.sizeof_row used) _
        (Halts-guard (ltb ((limits.max_metadata_bytes - used) / host.sizeof_row) (length s.entries))
          _ _ budget_ends (Halts-ok _))
        λ used₁. Halts-bind _ _ (raw_loop-Halts host limits s 0 s.entries [] used₁) λ (raw, used₂).
          Halts-bind _ _ (unmapped_loop-Halts host limits s 0 s.entries [] used₂)
            λ (unmapped, used₃).
              Halts-bind _ _ (mapped_loop-Halts host limits s s.maps unmapped used₃)
                λ (converted, used₄). Halts-ok _

  check_counts-Halts : (a b c : ℕ) → Halts (check_counts host limits a b c)
  unfolding check_counts
  check_counts-Halts a b c =
      Halts-guard (ltb limits.max_entries a || ltb limits.max_entries b || ltb limits.max_entries c)
        _ _ (error_ends _) (go (ltb (limits.max_metadata_bytes / entry_slot_overhead) a))
    where
      go : (x : Bool) → Halts (throw_if x tree_budget_error)
      go true = Halts-throw (Unit {0}) _ budget_ends
      go false = Halts-ok tt

  -- `make_virtual_tree` ends on every input, with a tree or an exception of the code, if the comparison
  -- of names tells the suffixed names of one base apart: the fuel of its searches is never used up.
  pub make_virtual_tree_total :
      (law : IsOrdinal host limits) (entries : List PckEntry) (mappings : List ImportMapping)
      (hints : List ConversionHint)
      → make_virtual_tree host limits entries mappings hints ≢ throw out_of_fuel
  unfolding make_virtual_tree Halts
  make_virtual_tree_total law entries mappings hints =
      Halts-bind _ _ (check_counts-Halts (length entries) (length mappings) (length hints)) λ u.
        Halts-bind _ _ (build_maps-Halts entries mappings hints) λ (s, used).
          Halts-bind _ _ (build_rows-Halts s used) λ ((raw_rows, converted_rows), after).
            Halts-bind _ _ (place_rows-Halts law s raw_rows converted_rows after) λ out. Halts-ok _
