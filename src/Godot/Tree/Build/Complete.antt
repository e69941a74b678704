-- ===== src/Godot/Tree/Build/Complete.antt =====
-- src/modules/godot/virtual_tree.cpp: `make_virtual_tree` drops no file.
use observer_modules.Prelude.{
  ℕ, leb, ◌≡◌, refl, sym, subst, Bool, true, false, List, [], ◌∷◌, none, some, ◌⊎◌, inl, inr,
  length, get_elem?, bytes_eq, Exists, Exists-left, Exists-last,
}
use observer_modules.Failure.{ok}
use observer_modules.Failure.Ensures.{
  Ensures, Ensures-ok, Ensures-if, Ensures-bind, Ensures-guard, Ensures-weaken, Ensures-any,
}
use observer_modules.Godot.Types.{PckEntry}
use observer_modules.Godot.Remap.Read.{ImportMapping}
use observer_modules.Godot.Tree.Host.{Host, TreeLimits, charge}
use observer_modules.Godot.Tree.Placer.{Placer, place}
use observer_modules.Godot.Tree.Maps.{ConversionHint, is_file_kind}
use observer_modules.Godot.Tree.Rows.{ViewRow, Presented}
use observer_modules.Godot.Tree.Build.{
  VirtualEntry, Output, path_at, reserve_all, add_entry, note_row, append_row, append_rows,
  removals_loop, add_generated, check_counts, place_rows, make_virtual_tree, removals_name,
  manifest_name,
}
use observer_modules.Godot.Tree.Build.Rows.{HasIndex}
use observer_modules.Godot.Tree.Build.RowFor.{build_maps-IsBuilt, HasRows, build_rows-HasRows}

-- A row of the tree is bound to the file with this index.
abbrev pub Shows : ℕ → VirtualEntry → Type 0
Shows i entry = entry.source_index ≡ some i

module _ (host : Host) (limits : TreeLimits) where
  KeepsShown : Output → Output → Type 0
  KeepsShown out next = (i : ℕ) → Exists (Shows i) out.entries → Exists (Shows i) next.entries

  -- An entry that is added.
  add_entry-shown :
      (entry : VirtualEntry) (out : Output)
      → Ensures
          (λ next. KeepsShown out next × ((i : ℕ) → Shows i entry → Exists (Shows i) next.entries))
          (add_entry host limits entry out)
  unfolding add_entry KeepsShown
  add_entry-shown entry out =
      Ensures-guard (leb limits.max_entries (length out.entries)) _ _ λ room.
        Ensures-bind _ _ (Ensures-any (charge limits.max_metadata_bytes _ out.placer.used))
          λ used w. Ensures-ok (
            λ i h. Exists-left (Shows i) out.entries (entry ∷ []) h,
            λ i h. Exists-last (Shows i) out.entries entry h,
          )

  note_row-entries :
      (index : ℕ) (physical final_path : List ℕ) (p : Placer) (out : Output)
      → Ensures
          (λ noted. noted.entries ≡ out.entries)
          (note_row host limits index physical final_path p out)
  unfolding note_row
  note_row-entries index physical final_path p out =
      Ensures-if (bytes_eq final_path physical) (λ e. Ensures-ok refl)
        λ e.
          Ensures-bind _ _ (Ensures-any (charge limits.max_metadata_bytes _ p.used))
            λ used u. Ensures-ok refl

  append_row-shown :
      (entries : List PckEntry) (converted : Bool) (row : ViewRow) (out : Output)
      → Ensures
          (λ next. KeepsShown out next × Exists (Shows row.index) next.entries)
          (append_row host limits entries converted row out)
  unfolding append_row KeepsShown
  append_row-shown entries converted row out =
      Ensures-bind _ _ (Ensures-any (place host limits row.effective row.fallback out.placer))
        λ (name, p) u.
          Ensures-bind _ _
            (note_row-entries row.index (path_at (get_elem? entries row.index)) name p out)
            λ noted same.
              Ensures-weaken _
                (add_entry-shown
                  (record {
                    path = name;
                    source_index = some row.index;
                    converted = converted;
                    generated_text = [];
                  })
                  noted)
                λ next (keeps, here).
                  (λ i h. keeps i (subst (Exists (Shows i)) (sym same) h), here row.index refl)

  append_rows-shown :
      (entries : List PckEntry) (converted : Bool) (rows : List ViewRow) (out : Output)
      → Ensures
          (λ next.
            KeepsShown out next
            × ((i : ℕ) → Exists (HasIndex i) rows → Exists (Shows i) next.entries))
          (append_rows host limits entries converted rows out)
  unfolding append_rows KeepsShown
  append_rows-shown entries converted [] out = Ensures-ok (λ i h. h, λ i h. absurd h)
  append_rows-shown entries converted (row ∷ rest) out =
      Ensures-bind _ _ (append_row-shown entries converted row out) λ next (keeps, here).
        Ensures-weaken _ (append_rows-shown entries converted rest next)
          λ last (kept, others). (λ i h. kept i (keeps i h), go next last here kept others)
    where
      go :
          (next last : Output)
          → Exists (Shows row.index) next.entries
          → KeepsShown next last
          → ((i : ℕ) → Exists (HasIndex i) rest → Exists (Shows i) last.entries)
          → (i : ℕ) → Exists (HasIndex i) (row ∷ rest)
          → Exists (Shows i) last.entries
      go next last here kept others i (inl e) =
          kept i (subst (λ j. Exists (Shows j) next.entries) e here)
      go next last here kept others i (inr later) = others i later

  add_generated-shown :
      (name fallback text : List ℕ) (out : Output)
      → Ensures (KeepsShown out) (add_generated host limits name fallback text out)
  unfolding add_generated KeepsShown
  add_generated-shown name fallback [] out = Ensures-ok λ i h. h
  add_generated-shown name fallback (c ∷ text) out =
      Ensures-bind _ _ (Ensures-any (place host limits name fallback out.placer)) λ (given, p) u.
        Ensures-weaken _
          (add_entry-shown
            (record {
              path = given;
              source_index = none;
              converted = false;
              generated_text = c ∷ text;
            })
            (record { placer = p; entries = out.entries; manifest = out.manifest }))
          λ next (keeps, here). keeps

  place_rows-shown :
      (s : Presented) (raw_rows converted_rows : List ViewRow) (used : ℕ)
      → Ensures
          (λ out.
            (i : ℕ)
            → Exists (HasIndex i) raw_rows ⊎ Exists (HasIndex i) converted_rows
            → Exists (Shows i) out.entries)
          (place_rows host limits s raw_rows converted_rows used)
  unfolding place_rows KeepsShown
  place_rows-shown s raw_rows converted_rows used =
      Ensures-bind _ _ (Ensures-any (reserve_all host limits raw_rows _)) λ p u.
        Ensures-bind _ _ (Ensures-any (reserve_all host limits converted_rows p)) λ q v.
          Ensures-bind _ _ (append_rows-shown s.entries false raw_rows _) λ raw a.
            Ensures-bind _ _ (append_rows-shown s.entries true converted_rows raw) λ all b.
              Ensures-bind _ _
                (Ensures-any (removals_loop host limits 0 s.entries [] all.placer.used))
                λ (text, charged) w.
                  Ensures-bind _ _ (add_generated-shown removals_name (b'r' ∷ []) text _)
                    λ removals c.
                      Ensures-weaken _
                        (add_generated-shown manifest_name (b'n' ∷ []) removals.manifest removals)
                        λ out d i h. d i (c i (either raw all a.1 b i h))
    where
      either :
          (raw all : Output)
          → ((i : ℕ) → Exists (HasIndex i) raw_rows → Exists (Shows i) raw.entries)
          → KeepsShown raw all
            × ((i : ℕ) → Exists (HasIndex i) converted_rows → Exists (Shows i) all.entries)
          → (i : ℕ) → Exists (HasIndex i) raw_rows ⊎ Exists (HasIndex i) converted_rows
          → Exists (Shows i) all.entries
      either raw all a b i (inl h) = b.0 i (a i h)
      either raw all a b i (inr h) = b.1 i h

  -- If `make_virtual_tree` returns a tree, then each file of the pack has a row in it, raw or converted,
  -- whatever its name, its hints and its mappings are.
  pub make_virtual_tree-Shows :
      (entries : List PckEntry) (mappings : List ImportMapping) (hints : List ConversionHint)
      (tree : List VirtualEntry) (i : ℕ) (entry : PckEntry)
      → make_virtual_tree host limits entries mappings hints ≡ ok tree
      → get_elem? entries i ≡ some entry
      → is_file_kind entry.kind ≡ true
      → Exists (Shows i) tree
  unfolding make_virtual_tree HasRows
  make_virtual_tree-Shows entries mappings hints tree i entry made at file = holds.at tree made
    where
      holds : Ensures (Exists (Shows i)) (make_virtual_tree host limits entries mappings hints)
      holds =
          Ensures-bind _ _
            (Ensures-any
              (check_counts host limits (length entries) (length mappings) (length hints)))
            λ u v.
              Ensures-bind _ _ (build_maps-IsBuilt host limits entries mappings hints)
                λ (s, used) built.
                  Ensures-bind _ _ (build_rows-HasRows host limits entries s used built)
                    λ ((raw_rows, converted_rows), charged) rows.
                      Ensures-bind _ _ (place_rows-shown s raw_rows converted_rows charged)
                        λ out shown. Ensures-ok (
                          shown i (
                            rows i entry
                              (subst (λ es. get_elem? es i ≡ some entry) (sym built.same) at) file))
