-- ===== src/Godot/Tree/Build/Whole.antt =====
-- src/modules/godot/virtual_tree.cpp: what `make_virtual_tree` returns.
use observer_modules.Prelude.{
  ℕ, suc, ◌≤◌, ◌==◌, ◌≡◌, true, false, List, [], ◌∷◌, ◌++◌, length, arith,
}
use observer_modules.Failure.{ok}
use observer_modules.Failure.Ensures.{
  Ensures, Ensures-ok, Ensures-bind, Ensures-weaken, Ensures-any,
}
use observer_modules.Godot.Types.{PckEntry}
use observer_modules.Godot.Remap.Read.{ImportMapping}
use observer_modules.Godot.Tree.Host.{Host, TreeLimits, charge}
use observer_modules.Godot.Tree.Placer.{
  Placer, charge_name, reserve_dir, ancestors_loop, reserve_ancestors,
}
use observer_modules.Godot.Tree.Placer.Free.{charge-Ensures}
use observer_modules.Godot.Tree.Maps.{ConversionHint, is_file_kind}
use observer_modules.Godot.Tree.Rows.{ViewRow, Presented}
use observer_modules.Godot.Tree.Build.{
  VirtualEntry, reserve_all, removals_loop, check_counts, place_rows, make_virtual_tree,
  removals_name, manifest_name, removal_row,
}
use observer_modules.Godot.Tree.Build.Apart.{
  IsTree, Inv, weight, append_rows-Inv, add_generated-Inv,
}
use observer_modules.Godot.Tree.Build.Budget.{Ensures-split, build_maps-Low}
use observer_modules.Godot.Tree.Build.RowBudget.{build_rows-Low}

module _ (host : Host) (limits : TreeLimits) where
  IsLowPlacer : Placer → Type 0
  IsLowPlacer p = p.used ≤ limits.max_metadata_bytes

  ancestors_loop-Low :
      (prefix path : List ℕ) (p : Placer)
      → IsLowPlacer p
      → Ensures IsLowPlacer (ancestors_loop host limits prefix path p)
  unfolding ancestors_loop reserve_dir charge_name IsLowPlacer
  ancestors_loop-Low prefix [] p h = Ensures-ok h
  ancestors_loop-Low prefix (c ∷ rest) p h =
      Ensures-split (c == b'/') _ _
        (λ e.
          Ensures-bind (reserve_dir host limits prefix p) _
            (Ensures-bind (charge _ _ p.used) _ (charge-Ensures _ _ p.used h)
              λ used (grown, low). Ensures-ok {P = IsLowPlacer} low)
            λ q low. ancestors_loop-Low (prefix ++ (c ∷ [])) rest q low)
        λ e. ancestors_loop-Low (prefix ++ (c ∷ [])) rest p h

  reserve_all-Low :
      (rows : List ViewRow) (p : Placer)
      → IsLowPlacer p
      → Ensures IsLowPlacer (reserve_all host limits rows p)
  unfolding reserve_all reserve_ancestors
  reserve_all-Low [] p h = Ensures-ok h
  reserve_all-Low (row ∷ rest) p h =
      Ensures-bind _ _ (ancestors_loop-Low [] row.effective p h) λ q low. reserve_all-Low rest q low

  -- The budget grows and is not exceeded.
  abbrev Grows : ℕ → List ℕ × ℕ → Type 0
  Grows used (text, after) = (used ≤ after) × (after ≤ limits.max_metadata_bytes)

  removals_loop-Grows :
      (position : ℕ) (entries : List PckEntry) (text : List ℕ) (used : ℕ)
      → used ≤ limits.max_metadata_bytes
      → Ensures (Grows used) (removals_loop host limits position entries text used)
  unfolding removals_loop
  removals_loop-Grows position [] text used h = Ensures-ok (omega arith, h)
  removals_loop-Grows position (entry ∷ rest) text used h =
      Ensures-split (is_file_kind entry.kind) _ _
        (λ e. removals_loop-Grows (suc position) rest text used h)
        λ e.
          Ensures-bind _ _ (charge-Ensures limits.max_metadata_bytes _ used h) λ next (grown, low).
            Ensures-weaken _
              (removals_loop-Grows (suc position) rest
                (text ++ removal_row host limits position entry.path) next low)
              λ (all, after) (more, fits). (omega arith, fits)

  place_rows-Inv :
      (s : Presented) (raw_rows converted_rows : List ViewRow) (used : ℕ)
      → used ≤ limits.max_metadata_bytes
      → Ensures (Inv host limits) (place_rows host limits s raw_rows converted_rows used)
  unfolding place_rows IsLowPlacer
  place_rows-Inv s raw_rows converted_rows used h =
      Ensures-bind _ _ (reserve_all-Low raw_rows _ h) λ p low.
        Ensures-bind _ _ (reserve_all-Low converted_rows p low) λ q lower.
          Ensures-bind _ _
            (append_rows-Inv host limits s.entries false raw_rows _ (record {
              apart = tt;
              held = tt;
              fit = tt;
              bounded = omega arith;
              light = omega arith;
              low = lower;
            }))
            λ raw inv.
              Ensures-bind _ _ (append_rows-Inv host limits s.entries true converted_rows raw inv)
                λ all kept.
                  Ensures-bind _ _ (removals_loop-Grows 0 s.entries [] all.placer.used kept.low)
                    λ (text, charged) (grown, fits).
                      Ensures-bind _ _
                        (add_generated-Inv host limits removals_name (b'r' ∷ []) text _ (record {
                          apart = kept.apart;
                          held = kept.held;
                          fit = kept.fit;
                          bounded = kept.bounded;
                          light =
                              let before : weight all.entries ≤ all.placer.used = kept.light in
                              omega arith;
                          low = fits;
                        }))
                        λ removals after.
                          add_generated-Inv host limits manifest_name (b'n' ∷ []) removals.manifest
                            removals after

  -- The tree that `make_virtual_tree` returns, if it returns one: the paths of its rows are pairwise
  -- different as the file system compares names, each of them and each of its components is within the
  -- limits on lengths, there are no more than `max_entries` rows, and all of them, with the texts that
  -- are generated and the overhead for each row, fit in `max_metadata_bytes`.
  pub make_virtual_tree-IsTree :
      (entries : List PckEntry) (mappings : List ImportMapping) (hints : List ConversionHint)
      (tree : List VirtualEntry)
      → make_virtual_tree host limits entries mappings hints ≡ ok tree
      → IsTree host limits tree
  unfolding make_virtual_tree
  make_virtual_tree-IsTree entries mappings hints = holds.at
    where
      holds : Ensures (IsTree host limits) (make_virtual_tree host limits entries mappings hints)
      holds =
          Ensures-bind _ _
            (Ensures-any
              (check_counts host limits (length entries) (length mappings) (length hints)))
            λ u v.
              Ensures-bind _ _ (build_maps-Low host limits entries mappings hints) λ (s, used) h.
                Ensures-bind _ _ (build_rows-Low host limits s used h)
                  λ ((raw_rows, converted_rows), charged) k.
                    Ensures-bind _ _ (place_rows-Inv s raw_rows converted_rows charged k) λ out inv.
                      Ensures-ok (record {
                        apart = inv.apart;
                        fit = inv.fit;
                        bounded = inv.bounded;
                        light =
                            let below : weight out.entries ≤ out.placer.used = inv.light in
                            let low : out.placer.used ≤ limits.max_metadata_bytes = inv.low in
                            omega arith;
                      })
