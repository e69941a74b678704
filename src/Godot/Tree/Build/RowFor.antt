-- ===== src/Godot/Tree/Build/RowFor.antt =====
-- src/modules/godot/virtual_tree.cpp: the maps and the rows leave no file out.
use observer_modules.Prelude.{
  ℕ, ◌==◌, ◌≡◌, refl, subst, Bool, true, false, List, [], ◌∷◌, Option, none, some, ◌⊎◌, inl, inr,
  get_elem?, All, All-append, All-Exists, Exists, Option-cases, arith,
}
use observer_modules.Failure.Ensures.{Ensures, Ensures-ok, Ensures-bind, Ensures-any}
use observer_modules.Godot.Types.{PckEntry}
use observer_modules.Godot.Remap.Read.{ImportMapping}
use observer_modules.Godot.Tree.Host.{Host, TreeLimits, charge, reserve_slots}
use observer_modules.Godot.Tree.Maps.{
  ConversionHint, PathAt, MappedAt, is_file_kind, find_hint, find_path, find_mapping,
  emplace_mapping, add_mapping, first_mappings_loop, hints_loop, mappings_loop, paths_loop,
}
use observer_modules.Godot.Tree.Rows.{ViewRow, Presented}
use observer_modules.Godot.Tree.Build.{build_maps, build_rows}
use observer_modules.Godot.Tree.Build.Rows.{HasIndex, raw_loop-All, unmapped_loop-All}
use observer_modules.Godot.Tree.Build.MappedRows.{LeadsTo, mapped_loop-All}

find_mapping-All :
    (Q : ℕ → Type 0) (i : ℕ) (mapped : List MappedAt) {mapping : ImportMapping}
    → All (λ entry. Q entry.target) mapped
    → find_mapping i mapped ≡ some mapping
    → Q i
unfolding find_mapping
find_mapping-All Q i [] h e = cc
find_mapping-All Q i (entry ∷ rest) {mapping} h e =
    go (entry.target == i) refl e (find_mapping-All Q i rest {mapping = mapping} h.1)
  where
    go :
        (b : Bool)
        → (entry.target == i) ≡ b
        → elim b [ true ↦ some entry.mapping | false ↦ find_mapping i rest ] ≡ some mapping
        → (find_mapping i rest ≡ some mapping → Q i)
        → Q i
    go true same f later = let at : entry.target ≡ i = ground arith in subst Q at h.0
    go false same f later = later f

module _ (host : Host) (limit : ℕ) (paths : List PathAt) (Q : ℕ → Type 0) where
  abbrev Leads : ImportMapping → Type 0
  Leads mapping = (i : ℕ) → find_path mapping.compiled_path paths ≡ some i → Q i

  first_mappings_loop-All :
      (maps : List ImportMapping) (mapped : List MappedAt) (used : ℕ)
      → All Leads maps
      → All (λ entry. Q entry.target) mapped
      → Ensures
          (λ (all, after). All (λ entry. Q entry.target) all)
          (first_mappings_loop host limit paths maps mapped used)
  unfolding first_mappings_loop add_mapping emplace_mapping
  first_mappings_loop-All [] mapped used h k = Ensures-ok k
  first_mappings_loop-All (mapping ∷ rest) mapped used h k =
      Ensures-bind _ _ (go (find_path mapping.compiled_path paths) refl)
        λ (more, charged) kept. first_mappings_loop-All rest more charged h.1 kept
    where
      emplaced :
          (target : ℕ) (o : Option ImportMapping)
          → Q target
          → Ensures
              (λ (all, after). All (λ entry. Q entry.target) all)
              (emplace_mapping host limit mapping target mapped o used)
      emplaced target (some known) q = Ensures-ok k
      emplaced target none q = Ensures-bind _ _ (Ensures-any (charge _ _ used)) λ after u.
          Ensures-ok (
            All-append (λ entry. Q entry.target) mapped
              (record { target = target; mapping = mapping } ∷ []) k (q, tt))

      go :
          (o : Option ℕ)
          → find_path mapping.compiled_path paths ≡ o
          → Ensures
              (λ (all, after). All (λ entry. Q entry.target) all)
              (add_mapping host limit mapping o mapped used)
      go none e = Ensures-ok k
      go (some target) e = emplaced target (find_mapping target mapped) (h.0 target e)

module _ (host : Host) (limits : TreeLimits) where
  -- The entries are those given, and a file with a mapping is one that a mapping leads to.
  pub record IsBuilt (entries : List PckEntry) (s : Presented) : Type 0 where
    pub same : s.entries ≡ entries
    pub mapped :
        (i : ℕ) (mapping : ImportMapping)
        → find_mapping i s.mapped ≡ some mapping
        → Exists (λ other. LeadsTo host limits s other i) s.maps

  pub build_maps-IsBuilt :
      (entries : List PckEntry) (mappings : List ImportMapping) (hints : List ConversionHint)
      → Ensures (λ (s, used). IsBuilt entries s) (build_maps host limits entries mappings hints)
  unfolding build_maps
  build_maps-IsBuilt entries mappings hints =
      Ensures-bind _ _ (Ensures-any (hints_loop limits.max_metadata_bytes entries hints [] 0))
        λ (kept, used₁) a.
          Ensures-bind _ _
            (Ensures-any (mappings_loop host limits.max_metadata_bytes mappings [] used₁))
            λ (maps, used₂) b.
              Ensures-bind _ _
                (Ensures-any (paths_loop host limits.max_metadata_bytes 0 entries [] used₂))
                λ (paths, used₃) c.
                  Ensures-bind _ _
                    (first_mappings_loop-All host limits.max_metadata_bytes paths
                      (λ i. Exists (λ other. find_path other.compiled_path paths ≡ some i) maps)
                      maps [] used₃
                      (All-Exists (λ other i. find_path other.compiled_path paths ≡ some i) maps)
                      tt)
                    λ (mapped, used₄) all. Ensures-ok (record {
                      same = refl;
                      mapped = λ i mapping e.
                          find_mapping-All
                            (λ j.
                              Exists (λ other. find_path other.compiled_path paths ≡ some j) maps)
                            i mapped all e;
                    })

  -- A row for each file.
  unfoldable pub HasRows : Presented → (List ViewRow × List ViewRow) × ℕ → Type 0
  HasRows s ((raw_rows, converted_rows), used) =
      (i : ℕ) (entry : PckEntry)
      → get_elem? s.entries i ≡ some entry
      → is_file_kind entry.kind ≡ true
      → Exists (HasIndex i) raw_rows ⊎ Exists (HasIndex i) converted_rows

  pub build_rows-HasRows :
      (entries : List PckEntry) (s : Presented) (used : ℕ)
      → IsBuilt entries s
      → Ensures (HasRows s) (build_rows host limits s used)
  unfolding build_rows HasRows
  build_rows-HasRows entries s used built =
      Ensures-bind _ _ (Ensures-any (reserve_slots _ _ _ used)) λ used₁ u.
        Ensures-bind _ _ (raw_loop-All host limits s 0 s.entries [] used₁) λ (raw, used₂) a.
          Ensures-bind _ _ (unmapped_loop-All host limits s 0 s.entries [] used₂)
            λ (unmapped, used₃) b.
              Ensures-bind _ _ (mapped_loop-All host limits s s.maps unmapped used₃)
                λ (converted, used₄) c. Ensures-ok λ i entry at file.
                  elim (Option-cases (find_hint i s.hints)) [
                    | inl e ↦ inl (a.1 i i entry (omega arith) at file e)
                    | inr (x, e) ↦ elim (Option-cases (find_mapping i s.mapped)) [
                      | inl f ↦ inr (c.0 i (b.1 i i entry x (omega arith) at e f))
                      | inr (mapping, f) ↦ inr (c.1 i x (built.mapped i mapping f) e)
                    ]
                  ]
