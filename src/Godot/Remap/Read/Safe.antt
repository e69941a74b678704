-- ===== src/Godot/Remap/Read/Safe.antt =====
-- src/core/godot/import_remap.cpp: what `read_import_remap` returns and throws.
use observer_modules.Prelude.{
  ℕ, ◌≤◌, ◌≡◌, ◌≢◌, ◌⊎◌, refl, sym, subst, ap, List, [], ◌∷◌, Option, none, some, ltb, length, All,
  arith,
}
use observer_modules.Extractor.{max_path_bytes}
use observer_modules.Failure.{ok, throw, metadata_error}
use observer_modules.Failure.Only.{
  Only, Only-ok, Only-throw, Only-if, Only-bind, Only-guard, Only-weaken, Only-cases, Any,
}
use observer_modules.Godot.Remap.Path.{normalize_path}
use observer_modules.Godot.Remap.Path.Normal.{IsNormal, normalize_path-IsNormal}
use observer_modules.Godot.Remap.Value.{MetadataLimits}
use observer_modules.Godot.Remap.Found.{Variant}
use observer_modules.Godot.Remap.Found.Distinct.{Differs, IsDistinct}
use observer_modules.Godot.Remap.Scan.{scan}
use observer_modules.Godot.Remap.Scan.Total.{scan-IsFound}
use observer_modules.Godot.Remap.Read.{
  ImportMapping, import_suffix, remap_suffix, ends_with, stem_of, require_path, normalized,
  drop_nul, virtual_path_of, mappings_of, read_import_remap,
}

-- A path inside the archive.
abbrev pub IsArchivePath : List ℕ → Type 0
IsArchivePath path = IsNormal path × (length path ≤ max_path_bytes)

abbrev pub IsMapping : ImportMapping → Type 0
IsMapping m = IsArchivePath m.virtual_path × IsArchivePath m.compiled_path

abbrev pub names : List ImportMapping → List (List ℕ)
names [] = []
names (m ∷ rest) = m.variant ∷ names rest

-- The names of the paths that are found, in their order.
abbrev found_names : List Variant → List (List ℕ)
found_names [] = []
found_names (entry ∷ rest) = entry.name ∷ found_names rest

abbrev pub AreDistinct : List (List ℕ) → Type 0
AreDistinct [] = Unit
AreDistinct (name ∷ rest) = All (λ other. other ≢ name) rest × AreDistinct rest

pub record AreMappings (limits : MetadataLimits) (mappings : List ImportMapping) : Type 0 where
  pub paths : All IsMapping mappings
  pub bounded : length mappings ≤ limits.max_mappings
  pub distinct : AreDistinct (names mappings)

Differs-names :
    (entry : Variant) (rest : List Variant)
    → All (Differs entry) rest
    → All (λ other. other ≢ entry.name) (found_names rest)
Differs-names entry [] h = tt
Differs-names entry (other ∷ rest) h = (h.0, Differs-names entry rest h.1)

distinct_names : (entries : List Variant) → IsDistinct entries → AreDistinct (found_names entries)
distinct_names [] h = tt
distinct_names (entry ∷ rest) h = (Differs-names entry rest h.0, distinct_names rest h.1)

names-length : (mappings : List ImportMapping) → length (names mappings) ≡ length mappings
names-length [] = refl
names-length (m ∷ rest) = omega (arith, names-length rest)

found_names-length : (entries : List Variant) → length (found_names entries) ≡ length entries
found_names-length [] = refl
found_names-length (entry ∷ rest) = omega (arith, found_names-length rest)

normalized-IsArchivePath : (raw : List ℕ) → Only metadata_error IsArchivePath (normalized raw)
unfolding normalized
normalized-IsArchivePath raw = go (normalize_path raw) refl
  where
    go :
        (o : Option (List ℕ))
        → normalize_path raw ≡ o
        → Only metadata_error IsArchivePath (require_path o)
    go none e = Only-throw
    go (some path) e = Only-ok (normalize_path-IsNormal raw e)

stem_of-Any : (metadata : List ℕ) → Only metadata_error Any (stem_of metadata)
unfolding stem_of
stem_of-Any metadata =
    Only-if (ends_with metadata import_suffix) (λ e. Only-ok tt)
      λ e. Only-if (ends_with metadata remap_suffix) (λ f. Only-ok tt) λ f. Only-throw

virtual_path_of-IsArchivePath :
    (derived : List ℕ) (source_file : Option (List ℕ))
    → IsArchivePath derived
    → Only metadata_error IsArchivePath (virtual_path_of derived source_file)
unfolding virtual_path_of
virtual_path_of-IsArchivePath derived none h = Only-ok h
virtual_path_of-IsArchivePath derived (some source_file) h = normalized-IsArchivePath source_file

mappings_of-names :
    (virtual_path : List ℕ) (entries : List Variant)
    → IsArchivePath virtual_path
    → Only metadata_error
        (λ mappings. All IsMapping mappings × (names mappings ≡ found_names entries))
        (mappings_of virtual_path entries)
unfolding mappings_of
mappings_of-names virtual_path [] h = Only-ok (tt, refl)
mappings_of-names virtual_path (entry ∷ rest) h =
    Only-bind (normalized entry.path) _ (normalized-IsArchivePath entry.path) λ compiled k.
      Only-bind (mappings_of virtual_path rest) _ (mappings_of-names virtual_path rest h)
        λ mappings (all, same). Only-ok (((h, k), all), ap (λ others. entry.name ∷ others) same)

read_import_remap-Only :
    (bytes metadata_path : List ℕ) (limits : MetadataLimits)
    → Only metadata_error (AreMappings limits) (read_import_remap bytes metadata_path limits)
unfolding read_import_remap
read_import_remap-Only bytes metadata_path limits =
    Only-bind (normalized metadata_path) _ (normalized-IsArchivePath metadata_path) λ metadata a.
      Only-bind (stem_of metadata) _ (stem_of-Any metadata) λ stem u.
        Only-bind (normalized stem) _ (normalized-IsArchivePath stem) λ derived b.
          Only-guard (ltb limits.max_input_bytes (length bytes)) _ λ small.
            Only-bind (scan limits (drop_nul bytes)) _ (scan-IsFound limits (drop_nul bytes))
              λ found c.
                Only-bind (virtual_path_of derived found.source_file) _
                  (virtual_path_of-IsArchivePath derived found.source_file b)
                  λ virtual_path d.
                    Only-weaken _ (mappings_of-names virtual_path found.paths d)
                      λ mappings (all, same). record {
                        paths = all;
                        bounded = omega (
                          arith,
                          c.bounded,
                          names-length mappings,
                          found_names-length found.paths,
                          ap length same,
                        );
                        distinct =
                            subst AreDistinct (sym same) (distinct_names found.paths c.distinct);
                      }

-- On every input the reader ends: it returns mappings or throws a `metadata_error`, and nothing else.
-- No loop of the scanner runs out of its fuel, which would be another exception.
pub read_import_remap_total :
    (bytes metadata_path : List ℕ) (limits : MetadataLimits)
    → ((mappings : List ImportMapping) × (read_import_remap bytes metadata_path limits
          ≡ ok mappings))
      ⊎ (read_import_remap bytes metadata_path limits ≡ throw metadata_error)
read_import_remap_total bytes metadata_path limits =
    Only-cases (read_import_remap bytes metadata_path limits)
      (read_import_remap-Only bytes metadata_path limits)

-- If the reader returns mappings, then their virtual and their compiled paths stay inside the archive:
-- relative, of components that are neither empty nor `.` nor `..`, without control characters, colons
-- and backslashes, and no longer than `max_path_bytes`. There are no more than `max_mappings` of them,
-- no two for one variant.
pub read_import_remap-AreMappings :
    (bytes metadata_path : List ℕ) (limits : MetadataLimits) (mappings : List ImportMapping)
    → read_import_remap bytes metadata_path limits ≡ ok mappings
    → AreMappings limits mappings
read_import_remap-AreMappings bytes metadata_path limits =
    (read_import_remap-Only bytes metadata_path limits).at
