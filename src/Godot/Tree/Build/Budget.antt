-- ===== src/Godot/Tree/Build/Budget.antt =====
-- src/modules/godot/virtual_tree.cpp: the loops of `make_virtual_tree` keep the metadata budget.
use observer_modules.Prelude.{
  ℕ, suc, ◌≤◌, ◌≡◌, refl, Bool, true, false, not, List, [], ◌∷◌, ◌++◌, Option, none, some,
  get_elem?, bytes_eq, arith,
}
use observer_modules.Failure.{Result, ◌>>=◌}
use observer_modules.Failure.Ensures.{Ensures, Ensures-ok, Ensures-bind, Ensures-guard, Ensures-any}
use observer_modules.Godot.Types.{PckEntry}
use observer_modules.Godot.Remap.Read.{ImportMapping}
use observer_modules.Godot.Tree.Host.{Host, TreeLimits, charge}
use observer_modules.Godot.Tree.Names.{is_supported_extension}
use observer_modules.Godot.Tree.Placer.Free.{charge-Ensures}
use observer_modules.Godot.Tree.Maps.{
  ConversionHint, PathAt, MappedAt, is_file_kind, is_file_entry, find_hint, find_path, find_mapping,
  emplace_hint, add_hint, hints_loop, normalize_mapping, mappings_loop, emplace_path, paths_loop,
  emplace_mapping, add_mapping, first_mappings_loop,
}
use observer_modules.Godot.Tree.Build.{build_maps}

-- The budget is not exceeded.
abbrev pub Low : {A : Type 0} → ℕ → A × ℕ → Type 0
Low limit (a, used) = used ≤ limit

pub Ensures-split {ℓ} :
    {A : Type ℓ} {P : A → Type 0} (b : Bool) (r s : Result A)
    → (b ≡ true → Ensures P r)
    → (b ≡ false → Ensures P s)
    → Ensures P (elim b [ true ↦ r | false ↦ s ])
Ensures-split true r s h k = h refl
Ensures-split false r s h k = k refl

-- A charge, and what is returned with it.
pub charge-Low :
    {A : Type 0} (limit bytes used : ℕ) (f : ℕ → Result (A × ℕ))
    → used ≤ limit
    → ((after : ℕ) → after ≤ limit → Ensures (Low limit) (f after))
    → Ensures (Low limit) (charge limit bytes used >>= f)
charge-Low limit bytes used f h k =
    Ensures-bind (charge limit bytes used) f (charge-Ensures limit bytes used h)
      λ after (grown, low). k after low

module _ (limit : ℕ) where
  add_hint-Low :
      (entries : List PckEntry) (hint : ConversionHint) (hints : List ConversionHint) (used : ℕ)
      → used ≤ limit
      → Ensures (Low limit) (add_hint limit entries hint hints used)
  unfolding add_hint emplace_hint
  add_hint-Low entries hint hints used h =
      Ensures-guard (not (is_file_entry (get_elem? entries hint.source_index))) _ _ λ e.
        Ensures-guard (not (is_supported_extension hint.extension)) _ _
          λ f. go (find_hint hint.source_index hints)
    where
      go : (o : Option (List ℕ)) → Ensures (Low limit) (emplace_hint limit hint hints o used)
      go none = charge-Low limit _ used _ h λ after low. Ensures-ok low
      go (some known) = Ensures-guard (not (bytes_eq known hint.extension)) _ _ λ g. Ensures-ok h

  pub hints_loop-Low :
      (entries : List PckEntry) (given hints : List ConversionHint) (used : ℕ)
      → used ≤ limit
      → Ensures (Low limit) (hints_loop limit entries given hints used)
  unfolding hints_loop
  hints_loop-Low entries [] hints used h = Ensures-ok h
  hints_loop-Low entries (hint ∷ rest) hints used h =
      Ensures-bind (add_hint limit entries hint hints used) _
        (add_hint-Low entries hint hints used h)
        λ (more, charged) low. hints_loop-Low entries rest more charged low

module _ (host : Host) (limit : ℕ) where
  pub mappings_loop-Low :
      (given maps : List ImportMapping) (used : ℕ)
      → used ≤ limit
      → Ensures (Low limit) (mappings_loop host limit given maps used)
  unfolding mappings_loop
  mappings_loop-Low [] maps used h = Ensures-ok h
  mappings_loop-Low (mapping ∷ rest) maps used h = charge-Low limit _ used _ h λ after low.
      Ensures-bind (normalize_mapping mapping) _ (Ensures-any (normalize_mapping mapping))
        λ normalized u. mappings_loop-Low rest (maps ++ (normalized ∷ [])) after low

  pub paths_loop-Low :
      (position : ℕ) (entries : List PckEntry) (paths : List PathAt) (used : ℕ)
      → used ≤ limit
      → Ensures (Low limit) (paths_loop host limit position entries paths used)
  unfolding paths_loop emplace_path
  paths_loop-Low position [] paths used h = Ensures-ok h
  paths_loop-Low position (entry ∷ rest) paths used h =
      Ensures-split (is_file_kind entry.kind) _ _
        (λ e.
          Ensures-bind
            (emplace_path host limit entry position paths (find_path entry.path paths) used) _
            (go (find_path entry.path paths))
            λ (more, charged) low. paths_loop-Low (suc position) rest more charged low)
        λ e. paths_loop-Low (suc position) rest paths used h
    where
      go :
          (o : Option ℕ) → Ensures (Low limit) (emplace_path host limit entry position paths o used)
      go none = charge-Low limit _ used _ h λ after low. Ensures-ok low
      go (some known) = Ensures-ok h

  add_mapping-Low :
      (mapping : ImportMapping) (target : Option ℕ) (mapped : List MappedAt) (used : ℕ)
      → used ≤ limit
      → Ensures (Low limit) (add_mapping host limit mapping target mapped used)
  unfolding add_mapping emplace_mapping
  add_mapping-Low mapping none mapped used h = Ensures-ok h
  add_mapping-Low mapping (some target) mapped used h = go (find_mapping target mapped)
    where
      go :
          (o : Option ImportMapping)
          → Ensures (Low limit) (emplace_mapping host limit mapping target mapped o used)
      go none = charge-Low limit _ used _ h λ after low. Ensures-ok low
      go (some known) = Ensures-ok h

  pub first_mappings_loop-Low :
      (paths : List PathAt) (maps : List ImportMapping) (mapped : List MappedAt) (used : ℕ)
      → used ≤ limit
      → Ensures (Low limit) (first_mappings_loop host limit paths maps mapped used)
  unfolding first_mappings_loop
  first_mappings_loop-Low paths [] mapped used h = Ensures-ok h
  first_mappings_loop-Low paths (mapping ∷ rest) mapped used h =
      Ensures-bind
        (add_mapping host limit mapping (find_path mapping.compiled_path paths) mapped used) _
        (add_mapping-Low mapping (find_path mapping.compiled_path paths) mapped used h)
        λ (more, charged) low. first_mappings_loop-Low paths rest more charged low

module _ (host : Host) (limits : TreeLimits) where
  pub build_maps-Low :
      (entries : List PckEntry) (mappings : List ImportMapping) (hints : List ConversionHint)
      → Ensures (Low limits.max_metadata_bytes) (build_maps host limits entries mappings hints)
  unfolding build_maps
  build_maps-Low entries mappings hints =
      Ensures-bind (hints_loop limits.max_metadata_bytes entries hints [] 0) _
        (hints_loop-Low limits.max_metadata_bytes entries hints [] 0 (omega arith))
        λ (kept, used₁) h₁.
          Ensures-bind (mappings_loop host limits.max_metadata_bytes mappings [] used₁) _
            (mappings_loop-Low host limits.max_metadata_bytes mappings [] used₁ h₁)
            λ (maps, used₂) h₂.
              Ensures-bind (paths_loop host limits.max_metadata_bytes 0 entries [] used₂) _
                (paths_loop-Low host limits.max_metadata_bytes 0 entries [] used₂ h₂)
                λ (paths, used₃) h₃.
                  Ensures-bind
                    (first_mappings_loop host limits.max_metadata_bytes paths maps [] used₃) _
                    (first_mappings_loop-Low host limits.max_metadata_bytes paths maps [] used₃ h₃)
                    λ (mapped, used₄) h₄. Ensures-ok h₄
