-- ===== src/Godot/Tree/Build/RowBudget.antt =====
-- src/modules/godot/virtual_tree.cpp: the loops over the rows keep the metadata budget.
use observer_modules.Prelude.{
  ℕ, suc, ◌-◌, ◌*◌, ◌/◌, ◌≤◌, List, [], ◌∷◌, ◌++◌, Option, none, some, length, ltb, ltb-false,
  arith,
}
use native.Mathlib.Nat.{div-mul-le_self, mul-le-mul_right, le_trans}
use observer_modules.Failure.Ensures.{Ensures, Ensures-ok, Ensures-bind, Ensures-guard}
use observer_modules.Godot.Types.{PckEntry}
use observer_modules.Godot.Remap.Read.{ImportMapping}
use observer_modules.Godot.Tree.Host.{Host, TreeLimits, reserve_slots}
use observer_modules.Godot.Tree.Maps.{find_hint, find_path, find_mapping}
use observer_modules.Godot.Tree.Rows.{
  ViewRow, Presented, is_raw, raw_loop, raw_row, add_converted, add_unmapped, unmapped_loop,
  add_hinted, add_mapped, mapped_loop,
}
use observer_modules.Godot.Tree.Build.{build_rows}
use observer_modules.Godot.Tree.Build.Budget.{charge-Low, Ensures-split}

quotient_fits : (count slot room : ℕ) → count ≤ room / slot → count * slot ≤ room
quotient_fits count slot room h = le_trans (mul-le-mul_right slot h) (div-mul-le_self room slot)

reserve_slots-Ensures :
    (limit count slot used : ℕ)
    → used ≤ limit
    → Ensures (λ after. after ≤ limit) (reserve_slots limit count slot used)
unfolding reserve_slots
reserve_slots-Ensures limit count slot used h =
    Ensures-guard (ltb ((limit - used) / slot) count) _ _
      λ e. Ensures-ok (omega (arith, quotient_fits count slot (limit - used) (ltb-false _ _ e)))

module _ (host : Host) (limits : TreeLimits) where
  abbrev pub IsLow : {A : Type 0} → A × ℕ → Type 0
  IsLow (a, used) = used ≤ limits.max_metadata_bytes

  raw_loop-Low :
      (s : Presented) (position : ℕ) (entries : List PckEntry) (rows : List ViewRow) (used : ℕ)
      → used ≤ limits.max_metadata_bytes
      → Ensures IsLow (raw_loop host limits s position entries rows used)
  unfolding raw_loop
  raw_loop-Low s position [] rows used h = Ensures-ok h
  raw_loop-Low s position (entry ∷ rest) rows used h =
      Ensures-split (is_raw host limits s position entry) _ _
        (λ e. charge-Low limits.max_metadata_bytes _ used _ h λ after low.
          raw_loop-Low s (suc position) rest (rows ++ (raw_row host limits s position entry ∷ []))
            after low)
        λ e. raw_loop-Low s (suc position) rest rows used h

  add_converted-Low :
      (s : Presented) (position : ℕ) (path variant extension : List ℕ) (rows : List ViewRow)
      (used : ℕ)
      → used ≤ limits.max_metadata_bytes
      → Ensures IsLow (add_converted host limits s position path variant extension rows used)
  unfolding add_converted
  add_converted-Low s position path variant extension rows used h =
      charge-Low limits.max_metadata_bytes _ used _ h λ after low. Ensures-ok low

  add_unmapped-Low :
      (s : Presented) (position : ℕ) (entry : PckEntry) (o : Option (List ℕ))
      (m : Option ImportMapping) (rows : List ViewRow) (used : ℕ)
      → used ≤ limits.max_metadata_bytes
      → Ensures IsLow (add_unmapped host limits s position entry o m rows used)
  unfolding add_unmapped
  add_unmapped-Low s position entry (some extension) none rows used h =
      add_converted-Low s position entry.path [] extension rows used h
  add_unmapped-Low s position entry (some extension) (some mapping) rows used h = Ensures-ok h
  add_unmapped-Low s position entry none m rows used h = Ensures-ok h

  unmapped_loop-Low :
      (s : Presented) (position : ℕ) (entries : List PckEntry) (rows : List ViewRow) (used : ℕ)
      → used ≤ limits.max_metadata_bytes
      → Ensures IsLow (unmapped_loop host limits s position entries rows used)
  unfolding unmapped_loop
  unmapped_loop-Low s position [] rows used h = Ensures-ok h
  unmapped_loop-Low s position (entry ∷ rest) rows used h =
      Ensures-bind _ _
        (add_unmapped-Low s position entry (find_hint position s.hints)
          (find_mapping position s.mapped) rows used h)
        λ (more, charged) low. unmapped_loop-Low s (suc position) rest more charged low

  add_mapped-Low :
      (s : Presented) (mapping : ImportMapping) (o : Option ℕ) (rows : List ViewRow) (used : ℕ)
      → used ≤ limits.max_metadata_bytes
      → Ensures IsLow (add_mapped host limits s mapping o rows used)
  unfolding add_mapped add_hinted
  add_mapped-Low s mapping none rows used h = Ensures-ok h
  add_mapped-Low s mapping (some target) rows used h = go (find_hint target s.hints)
    where
      go :
          (o : Option (List ℕ))
          → Ensures IsLow (add_hinted host limits s mapping target o rows used)
      go none = Ensures-ok h
      go (some extension) =
          add_converted-Low s target mapping.virtual_path mapping.variant extension rows used h

  mapped_loop-Low :
      (s : Presented) (maps : List ImportMapping) (rows : List ViewRow) (used : ℕ)
      → used ≤ limits.max_metadata_bytes
      → Ensures IsLow (mapped_loop host limits s maps rows used)
  unfolding mapped_loop
  mapped_loop-Low s [] rows used h = Ensures-ok h
  mapped_loop-Low s (mapping ∷ rest) rows used h =
      Ensures-bind _ _
        (add_mapped-Low s mapping (find_path mapping.compiled_path s.paths) rows used h)
        λ (more, charged) low. mapped_loop-Low s rest more charged low

  pub build_rows-Low :
      (s : Presented) (used : ℕ)
      → used ≤ limits.max_metadata_bytes
      → Ensures IsLow (build_rows host limits s used)
  unfolding build_rows
  build_rows-Low s used h =
      Ensures-bind _ _
        (reserve_slots-Ensures limits.max_metadata_bytes (length s.entries) host.sizeof_row used h)
        λ used₁ h₁. Ensures-bind _ _ (raw_loop-Low s 0 s.entries [] used₁ h₁) λ (raw, used₂) h₂.
          Ensures-bind _ _ (unmapped_loop-Low s 0 s.entries [] used₂ h₂) λ (unmapped, used₃) h₃.
            Ensures-bind _ _ (mapped_loop-Low s s.maps unmapped used₃ h₃)
              λ (converted, used₄) h₄. Ensures-ok h₄
