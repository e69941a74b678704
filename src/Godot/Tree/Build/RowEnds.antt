-- ===== src/Godot/Tree/Build/RowEnds.antt =====
-- src/modules/godot/virtual_tree.cpp: the loops over the rows end.
use observer_modules.Prelude.{ℕ, suc, List, [], ◌∷◌, ◌++◌, Option, none, some}
use observer_modules.Failure.Halts.{Halts, Halts-bind, Halts-ok, Halts-split}
use observer_modules.Godot.Types.{PckEntry}
use observer_modules.Godot.Remap.Read.{ImportMapping}
use observer_modules.Godot.Tree.Host.{Host, TreeLimits}
use observer_modules.Godot.Tree.Build.MapEnds.{charged}
use observer_modules.Godot.Tree.Maps.{find_hint, find_path, find_mapping}
use observer_modules.Godot.Tree.Rows.{
  ViewRow, Presented, is_raw, raw_row, raw_loop, add_converted, add_unmapped, unmapped_loop,
  add_hinted, add_mapped, mapped_loop,
}

module _ (host : Host) (limits : TreeLimits) where
  add_converted-Halts :
      (s : Presented) (position : ℕ) (path variant extension : List ℕ) (rows : List ViewRow)
      (used : ℕ)
      → Halts (add_converted host limits s position path variant extension rows used)
  unfolding add_converted
  add_converted-Halts s position path variant extension rows used =
      charged host limits _ used _ λ after. Halts-ok _

  pub raw_loop-Halts :
      (s : Presented) (position : ℕ) (entries : List PckEntry) (rows : List ViewRow) (used : ℕ)
      → Halts (raw_loop host limits s position entries rows used)
  unfolding raw_loop
  raw_loop-Halts s position [] rows used = Halts-ok _
  raw_loop-Halts s position (entry ∷ rest) rows used =
      Halts-split (is_raw host limits s position entry) _ _
        (charged host limits _ used _ λ after.
          raw_loop-Halts s (suc position) rest (rows ++ (raw_row host limits s position entry ∷ []))
            after)
        (raw_loop-Halts s (suc position) rest rows used)

  pub unmapped_loop-Halts :
      (s : Presented) (position : ℕ) (entries : List PckEntry) (rows : List ViewRow) (used : ℕ)
      → Halts (unmapped_loop host limits s position entries rows used)
  unfolding unmapped_loop add_unmapped
  unmapped_loop-Halts s position [] rows used = Halts-ok _
  unmapped_loop-Halts s position (entry ∷ rest) rows used =
      Halts-bind
        (add_unmapped host limits s position entry (find_hint position s.hints)
          (find_mapping position s.mapped) rows used)
        _ (go (find_hint position s.hints) (find_mapping position s.mapped))
        λ (more, after). unmapped_loop-Halts s (suc position) rest more after
    where
      go :
          (o : Option (List ℕ)) (m : Option ImportMapping)
          → Halts (add_unmapped host limits s position entry o m rows used)
      go (some extension) none = add_converted-Halts s position entry.path [] extension rows used
      go (some extension) (some mapping) = Halts-ok _
      go none m = Halts-ok _

  pub mapped_loop-Halts :
      (s : Presented) (maps : List ImportMapping) (rows : List ViewRow) (used : ℕ)
      → Halts (mapped_loop host limits s maps rows used)
  unfolding mapped_loop add_mapped add_hinted
  mapped_loop-Halts s [] rows used = Halts-ok _
  mapped_loop-Halts s (mapping ∷ rest) rows used =
      Halts-bind
        (add_mapped host limits s mapping (find_path mapping.compiled_path s.paths) rows used) _
        (go (find_path mapping.compiled_path s.paths))
        λ (more, after). mapped_loop-Halts s rest more after
    where
      hinted :
          (target : ℕ) (o : Option (List ℕ))
          → Halts (add_hinted host limits s mapping target o rows used)
      hinted target none = Halts-ok _
      hinted target (some extension) =
          add_converted-Halts s target mapping.virtual_path mapping.variant extension rows used

      go : (o : Option ℕ) → Halts (add_mapped host limits s mapping o rows used)
      go none = Halts-ok _
      go (some target) = hinted target (find_hint target s.hints)
