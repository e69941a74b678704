-- ===== src/Godot/Remap/Found/Distinct.antt =====
-- src/core/godot/import_remap.cpp: what `scanner::record` keeps of the paths that are found.
use observer_modules.Prelude.{
  ℕ, ◌≤◌, ◌≡◌, ◌≢◌, refl, not, List, [], ◌∷◌, ◌++◌, Option, none, some, leb, length, length-append,
  take, drop, All, All-append, bytes_eq, bytes_eq_refl, Bool-cases, inl, inr, arith,
}
use observer_modules.Failure.{metadata_error}
use observer_modules.Failure.Only.{Only, Only-ok, Only-throw, Only-if, Only-bind, Only-guard, Any}
use observer_modules.Godot.Pck.Path.{is_empty}
use observer_modules.Godot.Remap.Value.{MetadataLimits}
use observer_modules.Godot.Remap.Found.{
  Variant, Found, remap_section, deps_section, path_key, source_file_key, find_variant, add_path_to,
  add_path, require_string, add_value, record_remap, set_source, record_deps, record_value,
}

abbrev pub Differs : Variant → Variant → Type 0
Differs entry other = other.name ≢ entry.name

-- No two entries have one name.
abbrev pub IsDistinct : List Variant → Type 0
IsDistinct [] = Unit
IsDistinct (entry ∷ rest) = All (Differs entry) rest × IsDistinct rest

pub record IsFound (limits : MetadataLimits) (found : Found) : Type 0 where
  pub bounded : length found.paths ≤ limits.max_mappings
  pub distinct : IsDistinct found.paths

find_variant-none :
    (entry : Variant) (rest : List Variant)
    → find_variant entry.name rest ≡ none
    → All (λ other. entry.name ≢ other.name) rest
unfolding find_variant
find_variant-none entry [] h = tt
find_variant-none entry (other ∷ rest) h = elim (Bool-cases (bytes_eq other.name entry.name)) [
  | inl e ↦ ground (arith)
  | inr e ↦ (
    λ same. ground (arith, bytes_eq_refl entry.name),
    find_variant-none entry rest (ground arith),
  )
]

IsDistinct-append :
    (entries : List Variant) (entry : Variant)
    → IsDistinct entries
    → All (λ other. entry.name ≢ other.name) entries
    → IsDistinct (entries ++ (entry ∷ []))
IsDistinct-append [] entry h k = (tt, tt)
IsDistinct-append (other ∷ rest) entry h k = (
  All-append (Differs other) rest (entry ∷ []) h.0 (k.0, tt),
  IsDistinct-append rest entry h.1 k.1,
)

module _ (limits : MetadataLimits) where
  add_path-IsFound :
      (variant value : List ℕ) (found : Found)
      → IsFound limits found
      → Only metadata_error (IsFound limits) (add_path limits variant value found)
  unfolding add_path
  add_path-IsFound variant value found h = go (find_variant variant found.paths) refl
    where
      go :
          (o : Option (List ℕ))
          → find_variant variant found.paths ≡ o
          → Only metadata_error (IsFound limits) (add_path_to limits variant value found o)
      go none e = Only-guard (leb limits.max_mappings (length found.paths)) _ λ room.
          let added : Variant = record { name = variant; path = value } in
          Only-ok (record {
            bounded = ground (arith, length-append found.paths (added ∷ []));
            distinct =
                IsDistinct-append found.paths added h.distinct
                  (find_variant-none added found.paths e);
          })
      go (some known) e = Only-guard (not (bytes_eq known value)) _ λ same. Only-ok h

  require_string-Any : (value : Option (List ℕ)) → Only metadata_error Any (require_string value)
  unfolding require_string
  require_string-Any none = Only-throw
  require_string-Any (some value) = Only-ok tt

  add_value-IsFound :
      (variant : List ℕ) (value : Option (List ℕ)) (found : Found)
      → IsFound limits found
      → Only metadata_error (IsFound limits) (add_value limits variant value found)
  unfolding add_value
  add_value-IsFound variant value found h =
      Only-bind (require_string value) _ (require_string-Any value)
        λ path u. add_path-IsFound variant path found h

  record_remap-IsFound :
      (key : List ℕ) (value : Option (List ℕ)) (found : Found)
      → IsFound limits found
      → Only metadata_error (IsFound limits) (record_remap limits key value found)
  unfolding record_remap add_value
  record_remap-IsFound key value found h =
      Only-if (bytes_eq key path_key) (λ e. add_value-IsFound [] value found h)
        λ e.
          Only-if (bytes_eq (take 5 key) (path_key ++ (b'.' ∷ [])))
            (λ f.
              Only-guard (is_empty (drop 5 key)) _
                λ g. add_value-IsFound (drop 5 key) value found h)
            λ f. Only-ok h

  record_deps-IsFound :
      (key : List ℕ) (value : Option (List ℕ)) (found : Found)
      → IsFound limits found
      → Only metadata_error (IsFound limits) (record_deps key value found)
  unfolding record_deps set_source
  record_deps-IsFound key value found h =
      Only-if (bytes_eq key source_file_key)
        (λ e.
          Only-bind (require_string value) _ (require_string-Any value)
            λ text u. go text found.source_file)
        λ e. Only-ok h
    where
      go :
          (text : List ℕ) (o : Option (List ℕ))
          → Only metadata_error (IsFound limits) (set_source text found.paths o)
      go text none = Only-ok (record { bounded = h.bounded; distinct = h.distinct })
      go text (some known) =
          Only-guard (not (bytes_eq known text)) _
            λ same. Only-ok (record { bounded = h.bounded; distinct = h.distinct })

  pub record_value-IsFound :
      (section key : List ℕ) (value : Option (List ℕ)) (found : Found)
      → IsFound limits found
      → Only metadata_error (IsFound limits) (record_value limits section key value found)
  unfolding record_value
  record_value-IsFound section key value found h =
      Only-if (bytes_eq section remap_section) (λ e. record_remap-IsFound key value found h)
        λ e.
          Only-if (bytes_eq section deps_section) (λ f. record_deps-IsFound key value found h)
            λ f. Only-ok h
