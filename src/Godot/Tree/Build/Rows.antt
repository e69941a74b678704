-- ===== src/Godot/Tree/Build/Rows.antt =====
-- src/modules/godot/virtual_tree.cpp: the rows that the loops of `make_virtual_tree` make.
use observer_modules.Prelude.{
  ℕ, zero, suc, ◌+◌, ◌≡◌, refl, sym, subst, true, false, List, [], ◌∷◌, ◌++◌, Option, none, some,
  get_elem?, Exists, Exists-left, Exists-last, arith,
}
use observer_modules.Failure.Ensures.{
  Ensures, Ensures-ok, Ensures-bind, Ensures-weaken, Ensures-any,
}
use observer_modules.Godot.Types.{PckEntry}
use observer_modules.Godot.Remap.Read.{ImportMapping}
use observer_modules.Godot.Tree.Host.{Host, TreeLimits, charge}
use observer_modules.Godot.Tree.Maps.{is_file_kind, find_hint, find_mapping}
use observer_modules.Godot.Tree.Rows.{
  ViewRow, Presented, is_raw, raw_row, raw_loop, converted_row, add_converted, add_unmapped,
  unmapped_loop,
}
use observer_modules.Godot.Tree.Build.Budget.{Ensures-split}

abbrev pub HasIndex : ℕ → ViewRow → Type 0
HasIndex i row = row.index ≡ i

-- What has a row keeps it.
abbrev pub Keeps : List ViewRow → List ViewRow → Type 0
Keeps rows all = (i : ℕ) → Exists (HasIndex i) rows → Exists (HasIndex i) all

module _ (host : Host) (limits : TreeLimits) (s : Presented) where
  -- The files from `position` on that have no hint.
  abbrev RawAll : ℕ → List PckEntry → List ViewRow → Type 0
  RawAll position entries all =
      (i k : ℕ) (entry : PckEntry)
      → i ≡ position + k
      → get_elem? entries k ≡ some entry
      → is_file_kind entry.kind ≡ true
      → find_hint i s.hints ≡ none
      → Exists (HasIndex i) all

  is_raw-true :
      (position : ℕ) (entry : PckEntry)
      → find_hint position s.hints ≡ none
      → is_file_kind entry.kind ≡ true
      → is_raw host limits s position entry ≡ true
  is_raw-true position entry h k = rw (h, is_raw) k

  pub raw_loop-All :
      (position : ℕ) (entries : List PckEntry) (rows : List ViewRow) (used : ℕ)
      → Ensures
          (λ (all, after). Keeps rows all × RawAll position entries all)
          (raw_loop host limits s position entries rows used)
  unfolding raw_loop raw_row
  raw_loop-All position [] rows used = Ensures-ok (λ i h. h, λ i k entry at e. cc)
  raw_loop-All position (entry ∷ rest) rows used =
      Ensures-split (is_raw host limits s position entry) _ _
        (λ e. Ensures-bind _ _ (Ensures-any (charge _ _ used)) λ after u.
          Ensures-weaken _
            (raw_loop-All (suc position) rest (rows ++ (raw_row host limits s position entry ∷ []))
              after)
            λ (all, end) (keeps, others). (
              λ i h.
                  keeps i
                    (Exists-left (HasIndex i) rows (raw_row host limits s position entry ∷ []) h),
              added all keeps others,
            ))
        λ e.
          Ensures-weaken _ (raw_loop-All (suc position) rest rows used)
            λ (all, end) (keeps, others). (keeps, skipped all e others)
    where
      added :
          (all : List ViewRow)
          → Keeps (rows ++ (raw_row host limits s position entry ∷ [])) all
          → RawAll (suc position) rest all
          → RawAll position (entry ∷ rest) all
      added all keeps others i zero other at e f g =
          keeps i
            (Exists-last (HasIndex i) rows (raw_row host limits s position entry) (omega arith))
      added all keeps others i (suc k) other at e f g = others i k other (omega arith) e f g

      skipped :
          (all : List ViewRow)
          → is_raw host limits s position entry ≡ false
          → RawAll (suc position) rest all
          → RawAll position (entry ∷ rest) all
      skipped all out others i zero other at e f g =
          let same : entry ≡ other = cc in
          let here : i ≡ position = omega arith in
          let raw : is_raw host limits s position entry ≡ true =
            is_raw-true position entry (subst (λ j. find_hint j s.hints ≡ none) here g)
              (subst (λ o. is_file_kind o.kind ≡ true) (sym same) f) in
          cc
      skipped all out others i (suc k) other at e f g = others i k other (omega arith) e f g

  -- The files from `position` on that have a hint and no mapping.
  abbrev UnmappedAll : ℕ → List PckEntry → List ViewRow → Type 0
  UnmappedAll position entries all =
      (i k : ℕ) (entry : PckEntry) (extension : List ℕ)
      → i ≡ position + k
      → get_elem? entries k ≡ some entry
      → find_hint i s.hints ≡ some extension
      → find_mapping i s.mapped ≡ none
      → Exists (HasIndex i) all

  pub add_converted-Keeps :
      (position : ℕ) (path variant extension : List ℕ) (rows : List ViewRow) (used : ℕ)
      → Ensures
          (λ (all, after). Keeps rows all × Exists (HasIndex position) all)
          (add_converted host limits s position path variant extension rows used)
  unfolding add_converted converted_row
  add_converted-Keeps position path variant extension rows used =
      let row : ViewRow = converted_row host limits s position path variant extension rows in
      Ensures-bind _ _ (Ensures-any (charge _ _ used)) λ after u. Ensures-ok (
        λ i h. Exists-left (HasIndex i) rows (row ∷ []) h,
        Exists-last (HasIndex position) rows row refl,
      )

  add_unmapped-Keeps :
      (position : ℕ) (entry : PckEntry) (o : Option (List ℕ)) (m : Option ImportMapping)
      (rows : List ViewRow) (used : ℕ)
      → Ensures
          (λ (all, after).
            Keeps rows all
            × ((extension : List ℕ)
                → o ≡ some extension
                → m ≡ none
                → Exists (HasIndex position) all))
          (add_unmapped host limits s position entry o m rows used)
  unfolding add_unmapped
  add_unmapped-Keeps position entry (some extension) none rows used =
      Ensures-weaken _ (add_converted-Keeps position entry.path [] extension rows used)
        λ (all, after) (keeps, here). (keeps, λ x e f. here)
  add_unmapped-Keeps position entry (some extension) (some mapping) rows used =
      Ensures-ok (λ i h. h, λ x e f. cc)
  add_unmapped-Keeps position entry none m rows used = Ensures-ok (λ i h. h, λ x e f. cc)

  pub unmapped_loop-All :
      (position : ℕ) (entries : List PckEntry) (rows : List ViewRow) (used : ℕ)
      → Ensures
          (λ (all, after). Keeps rows all × UnmappedAll position entries all)
          (unmapped_loop host limits s position entries rows used)
  unfolding unmapped_loop
  unmapped_loop-All position [] rows used = Ensures-ok (λ i h. h, λ i k entry x at e. cc)
  unmapped_loop-All position (entry ∷ rest) rows used =
      Ensures-bind _ _
        (add_unmapped-Keeps position entry (find_hint position s.hints)
          (find_mapping position s.mapped) rows used)
        λ (more, charged) (keeps, here).
          Ensures-weaken _ (unmapped_loop-All (suc position) rest more charged)
            λ (all, end) (kept, others). (λ i h. kept i (keeps i h), go more all here kept others)
    where
      go :
          (more all : List ViewRow)
          → ((extension : List ℕ)
              → find_hint position s.hints ≡ some extension
              → find_mapping position s.mapped ≡ none
              → Exists (HasIndex position) more)
          → Keeps more all
          → UnmappedAll (suc position) rest all
          → UnmappedAll position (entry ∷ rest) all
      go more all here kept others i zero other x at e f g =
          let same : i ≡ position = omega arith in
          kept i (
            subst (λ j. Exists (HasIndex j) more) (sym same)
              (here x (subst (λ j. find_hint j s.hints ≡ some x) same f)
                (subst (λ j. find_mapping j s.mapped ≡ none) same g)))
      go more all here kept others i (suc k) other x at e f g =
          others i k other x (omega arith) e f g
