-- ===== src/Godot/Tree/Build/Apart.antt =====
-- src/modules/godot/virtual_tree.cpp: the paths of a virtual tree, and its size.
use observer_modules.Prelude.{
  ℕ, ◌+◌, ◌≤◌, ◌≡◌, refl, sym, Bool, true, false, List, [], ◌∷◌, ◌++◌, none, some, leb, length,
  length-append, get_elem?, bytes_eq, All, All-append, All-widen, Pairwise, Pairwise-append,
  ||-eq-false, arith,
}
use observer_modules.Failure.Ensures.{Ensures, Ensures-ok, Ensures-if, Ensures-bind, Ensures-guard}
use observer_modules.Godot.Types.{PckEntry}
use observer_modules.Godot.Tree.Host.{Host, TreeLimits, entry_slot_overhead, charge}
use observer_modules.Godot.Tree.Placer.{Placer, member, taken, fits, place}
use observer_modules.Godot.Tree.Placer.Free.{Charged, Placed, charge-Ensures, place-Placed}
use observer_modules.Godot.Tree.Rows.{ViewRow}
use observer_modules.Godot.Tree.Build.{
  VirtualEntry, Output, path_at, add_entry, note_row, append_row, append_rows, add_generated,
}

abbrev pub weight : List VirtualEntry → ℕ
weight [] = 0
weight (entry ∷ rest) =
    length entry.path + length entry.generated_text + entry_slot_overhead + weight rest

weight-append :
    (entries : List VirtualEntry) (entry : VirtualEntry)
    → weight (entries ++ (entry ∷ []))
      ≡ weight entries + (length entry.path + length entry.generated_text + entry_slot_overhead)
weight-append [] entry = omega arith
weight-append (other ∷ rest) entry = omega (arith, weight-append rest entry)

module _ (host : Host) (limits : TreeLimits) where
  -- Two rows have different names, as the file system compares them.
  abbrev pub Apart : VirtualEntry → VirtualEntry → Type 0
  Apart earlier later = host.ordinal_equal (host.widen later.path) (host.widen earlier.path) ≡ false

  pub record IsTree (entries : List VirtualEntry) : Type 0 where
    pub apart : Pairwise Apart entries
    pub fit : All (λ entry. fits host limits entry.path ≡ true) entries
    pub bounded : length entries ≤ limits.max_entries
    pub light : weight entries ≤ limits.max_metadata_bytes

  -- What is not equal to any file is not equal to this name.
  abbrev pub Held : List (List ℕ) → VirtualEntry → Type 0
  Held files entry =
      (key : List ℕ)
      → member host limits key files ≡ false
      → host.ordinal_equal key (host.widen entry.path) ≡ false

  pub record Inv (out : Output) : Type 0 where
    pub apart : Pairwise Apart out.entries
    pub held : All (Held out.placer.files) out.entries
    pub fit : All (λ entry. fits host limits entry.path ≡ true) out.entries
    pub bounded : length out.entries ≤ limits.max_entries
    pub light : weight out.entries ≤ out.placer.used
    pub low : out.placer.used ≤ limits.max_metadata_bytes

  Held-cons :
      (name : List ℕ) (files : List (List ℕ)) (entries : List VirtualEntry)
      → All (Held files) entries
      → All (Held (name ∷ files)) entries
  unfolding member
  Held-cons name files entries h =
      All-widen (Held files) (Held (name ∷ files)) entries
        (λ entry held key k.
          held key (||-eq-false (host.ordinal_equal key name) (member host limits key files) k).1)
        h

  Held-here :
      (entry : VirtualEntry) (files : List (List ℕ)) → Held (host.widen entry.path ∷ files) entry
  unfolding member
  Held-here entry files key h =
      (||-eq-false (host.ordinal_equal key (host.widen entry.path)) (member host limits key files)
        h).0

  no_file :
      (entry : VirtualEntry) (p : Placer)
      → taken host limits entry.path p ≡ false
      → member host limits (host.widen entry.path) p.files ≡ false
  unfolding taken
  no_file entry p free =
      (||-eq-false (member host limits (host.widen entry.path) p.files)
        (member host limits (host.widen entry.path) p.dirs) free).0

  add_entry-Inv :
      (out noted : Output) (q : Placer) (entry : VirtualEntry)
      → Inv out
      → Placed host limits out.placer entry.path q
      → Charged host limits q noted.placer
      → noted.entries ≡ out.entries
      → Ensures Inv (add_entry host limits entry noted)
  unfolding add_entry taken
  add_entry-Inv out noted q entry inv placed charged same =
      Ensures-guard (leb limits.max_entries (length noted.entries)) _ _ λ room.
        Ensures-bind (charge _ _ noted.placer.used) _
          (charge-Ensures _ _ noted.placer.used charged.bounded)
          λ used (grown, low). Ensures-ok (record {
            apart = rw same (
                Pairwise-append Apart out.entries entry inv.apart (
                  All-widen (Held out.placer.files) (λ other. Apart other entry) out.entries
                    (λ other held.
                      held (host.widen entry.path) (no_file entry out.placer placed.free))
                    inv.held));
            held =
                rw (same, charged.files, placed.files)
                  (All-append (Held (host.widen entry.path ∷ out.placer.files)) out.entries
                    (entry ∷ [])
                    (Held-cons (host.widen entry.path) out.placer.files out.entries inv.held)
                    (Held-here entry out.placer.files, tt));
            fit = rw same (
                All-append (λ other. fits host limits other.path ≡ true) out.entries (entry ∷ [])
                  inv.fit (placed.fit, tt));
            bounded =
                let free : leb limits.max_entries (length out.entries) ≡ false =
                  rw (sym same) room in
                rw same (ground (arith, length-append out.entries (entry ∷ [])));
            light =
                let before : weight out.entries ≤ out.placer.used = inv.light in
                let placing : out.placer.used ≤ q.used = placed.grows in
                let noting : q.used ≤ noted.placer.used = charged.grows in
                rw same (omega (arith, weight-append out.entries entry));
            low = low;
          })

  -- The same names are reserved, and the same entries are there.
  Noted : Placer → Output → Output → Type 0
  Noted q out noted = Charged host limits q noted.placer × (noted.entries ≡ out.entries)

  note_row-Noted :
      (index : ℕ) (physical final_path : List ℕ) (q : Placer) (out : Output)
      → q.used ≤ limits.max_metadata_bytes
      → Ensures (Noted q out) (note_row host limits index physical final_path q out)
  unfolding note_row Noted
  note_row-Noted index physical final_path q out h =
      Ensures-if (bytes_eq final_path physical)
        (λ e.
          Ensures-ok (record { files = refl; dirs = refl; grows = omega arith; bounded = h }, refl))
        λ e. Ensures-bind (charge _ _ q.used) _ (charge-Ensures _ _ q.used h) λ used (grown, low).
          Ensures-ok
            (record { files = refl; dirs = refl; grows = omega arith; bounded = low }, refl)

  append_row-Inv :
      (entries : List PckEntry) (converted : Bool) (row : ViewRow) (out : Output)
      → Inv out
      → Ensures Inv (append_row host limits entries converted row out)
  unfolding append_row Noted
  append_row-Inv entries converted row out inv =
      Ensures-bind (place host limits row.effective row.fallback out.placer) _
        (place-Placed host limits row.effective row.fallback out.placer inv.low)
        λ (name, q) placed.
          Ensures-bind
            (note_row host limits row.index (path_at (get_elem? entries row.index)) name q out) _
            (note_row-Noted row.index (path_at (get_elem? entries row.index)) name q out
              placed.bounded)
            λ noted (charged, same).
              add_entry-Inv out noted q
                (record {
                  path = name;
                  source_index = some row.index;
                  converted = converted;
                  generated_text = [];
                })
                inv placed charged same

  pub append_rows-Inv :
      (entries : List PckEntry) (converted : Bool) (rows : List ViewRow) (out : Output)
      → Inv out
      → Ensures Inv (append_rows host limits entries converted rows out)
  unfolding append_rows
  append_rows-Inv entries converted [] out inv = Ensures-ok inv
  append_rows-Inv entries converted (row ∷ rest) out inv =
      Ensures-bind (append_row host limits entries converted row out) _
        (append_row-Inv entries converted row out inv)
        λ next kept. append_rows-Inv entries converted rest next kept

  pub add_generated-Inv :
      (name fallback text : List ℕ) (out : Output)
      → Inv out
      → Ensures Inv (add_generated host limits name fallback text out)
  unfolding add_generated
  add_generated-Inv name fallback [] out inv = Ensures-ok inv
  add_generated-Inv name fallback (c ∷ text) out inv =
      Ensures-bind (place host limits name fallback out.placer) _
        (place-Placed host limits name fallback out.placer inv.low)
        λ (given, q) placed.
          add_entry-Inv out (record { placer = q; entries = out.entries; manifest = out.manifest })
            q
            (record {
              path = given;
              source_index = none;
              converted = false;
              generated_text = c ∷ text;
            })
            inv placed
            (record { files = refl; dirs = refl; grows = omega arith; bounded = placed.bounded })
            refl
