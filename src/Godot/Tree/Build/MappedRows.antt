-- ===== src/Godot/Tree/Build/MappedRows.antt =====
-- src/modules/godot/virtual_tree.cpp: the rows of the converted files that mappings lead to.
use observer_modules.Prelude.{
  ℕ, ◌≡◌, refl, subst, List, [], ◌∷◌, Option, none, some, inl, inr, Exists,
}
use observer_modules.Failure.Ensures.{Ensures, Ensures-ok, Ensures-bind, Ensures-weaken}
use observer_modules.Godot.Remap.Read.{ImportMapping}
use observer_modules.Godot.Tree.Host.{Host, TreeLimits}
use observer_modules.Godot.Tree.Maps.{find_hint, find_path}
use observer_modules.Godot.Tree.Rows.{ViewRow, Presented, add_hinted, add_mapped, mapped_loop}
use observer_modules.Godot.Tree.Build.Rows.{HasIndex, Keeps, add_converted-Keeps}

module _ (host : Host) (limits : TreeLimits) (s : Presented) where
  -- A mapping leads to the file.
  abbrev pub LeadsTo : ImportMapping → ℕ → Type 0
  LeadsTo mapping i = find_path mapping.compiled_path s.paths ≡ some i

  abbrev MappedAll : List ImportMapping → List ViewRow → Type 0
  MappedAll maps all =
      (i : ℕ) (extension : List ℕ)
      → Exists (λ mapping. LeadsTo mapping i) maps
      → find_hint i s.hints ≡ some extension
      → Exists (HasIndex i) all

  add_mapped-Keeps :
      (mapping : ImportMapping) (o : Option ℕ) (rows : List ViewRow) (used : ℕ)
      → Ensures
          (λ (all, after).
            Keeps rows all
            × ((i : ℕ) (extension : List ℕ)
                → o ≡ some i
                → find_hint i s.hints ≡ some extension
                → Exists (HasIndex i) all))
          (add_mapped host limits s mapping o rows used)
  unfolding add_mapped add_hinted
  add_mapped-Keeps mapping none rows used = Ensures-ok (λ i h. h, λ i x e f. cc)
  add_mapped-Keeps mapping (some target) rows used = go (find_hint target s.hints) refl
    where
      go :
          (o : Option (List ℕ))
          → find_hint target s.hints ≡ o
          → Ensures
              (λ (all, after).
                Keeps rows all
                × ((i : ℕ) (extension : List ℕ)
                    → some target ≡ some i
                    → find_hint i s.hints ≡ some extension
                    → Exists (HasIndex i) all))
              (add_hinted host limits s mapping target o rows used)
      go none e = Ensures-ok (
        λ i h. h,
        λ i x f g.
            let same : target ≡ i = cc in
            let none_here : find_hint i s.hints ≡ none =
              subst (λ j. find_hint j s.hints ≡ none) same e in
            cc,
      )
      go (some extension) e =
          Ensures-weaken _
            (add_converted-Keeps host limits s target mapping.virtual_path mapping.variant extension
              rows used)
            λ (all, after) (keeps, here). (
              keeps,
              λ i x f g.
                  let same : target ≡ i = cc in subst (λ j. Exists (HasIndex j) all) same here,
            )

  pub mapped_loop-All :
      (maps : List ImportMapping) (rows : List ViewRow) (used : ℕ)
      → Ensures
          (λ (all, after). Keeps rows all × MappedAll maps all)
          (mapped_loop host limits s maps rows used)
  unfolding mapped_loop
  mapped_loop-All [] rows used = Ensures-ok (λ i h. h, λ i x e f. absurd e)
  mapped_loop-All (mapping ∷ rest) rows used =
      Ensures-bind _ _
        (add_mapped-Keeps mapping (find_path mapping.compiled_path s.paths) rows used)
        λ (more, charged) (keeps, here).
          Ensures-weaken _ (mapped_loop-All rest more charged)
            λ (all, end) (kept, others). (λ i h. kept i (keeps i h), go more all here kept others)
    where
      go :
          (more all : List ViewRow)
          → ((i : ℕ) (extension : List ℕ)
              → LeadsTo mapping i
              → find_hint i s.hints ≡ some extension
              → Exists (HasIndex i) more)
          → Keeps more all
          → MappedAll rest all
          → MappedAll (mapping ∷ rest) all
      go more all here kept others i x (inl first) f = kept i (here i x first f)
      go more all here kept others i x (inr later) f = others i x later f
