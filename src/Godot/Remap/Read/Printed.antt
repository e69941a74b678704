-- ===== src/Godot/Remap/Read/Printed.antt =====
-- src/core/godot/import_remap.cpp: `read_import_remap` on what an exporter writes for one resource.
use observer_modules.Prelude.{
  ℕ, ◌≤◌, ◌≡◌, subst, ap, List, [], ◌∷◌, ◌++◌, append_assoc, none, some, le→ltb, bytes_eq, length,
  arith,
}
use mathlib.Core.List.{reverse-append}
use observer_modules.Failure.{ok}
use observer_modules.Godot.Remap.Path.{normalize_path}
use observer_modules.Godot.Remap.Text.{
  skip_trivia, trivia_loop, skip_inline_spaces, parse_section_name, section_loop, parse_key,
  key_loop,
}
use observer_modules.Godot.Remap.Text.Quoted.{quoted, parse_string-quoted}
use observer_modules.Godot.Remap.Chars.{trim_edges, trim_left, unescape_section_name}
use observer_modules.Godot.Remap.Value.{MetadataLimits, parse_value, string_value}
use observer_modules.Godot.Remap.Found.{
  Found, nothing_found, remap_section, record_value, record_remap, add_value, add_path,
  find_variant, require_string,
}
use observer_modules.Godot.Remap.Scan.{scan_assignment, scan_loop, scan}
use observer_modules.Godot.Remap.Read.{
  stem_of, normalized, drop_nul, virtual_path_of, mappings_of, read_import_remap,
}

abbrev pub assignment : List ℕ → List ℕ
assignment path = b'p' ∷ b'a' ∷ b't' ∷ b'h' ∷ b'=' ∷ b'"' ∷ (quoted path ++ (b'"' ∷ 10 ∷ []))

-- The fragment that sends a resource to `path`.
abbrev pub printed : List ℕ → List ℕ
printed path = b'[' ∷ b'r' ∷ b'e' ∷ b'm' ∷ b'a' ∷ b'p' ∷ b']' ∷ 10 ∷ assignment path

abbrev found_path : List ℕ → Found
found_path path = record { source_file = none; paths = record { name = []; path = path } ∷ [] }

module _ (limits : MetadataLimits) (path : List ℕ) (room : 1 ≤ limits.max_mappings) where
  scan_assignment-printed :
      scan_assignment limits remap_section nothing_found (assignment path)
      ≡ ok (found_path path, 10 ∷ [])
  unfolding scan_assignment parse_key key_loop skip_inline_spaces parse_value string_value
      record_value record_remap add_value add_path find_variant require_string bytes_eq
  scan_assignment-printed = rw (parse_string-quoted path (10 ∷ [])) (ground arith)

  scan-printed : scan limits (printed path) ≡ ok (found_path path)
  unfolding scan scan_loop skip_trivia trivia_loop parse_section_name section_loop trim_edges
      trim_left unescape_section_name
  scan-printed = rw scan_assignment-printed

drop_nul-line : (line : List ℕ) → drop_nul (line ++ (10 ∷ [])) ≡ line ++ (10 ∷ [])
unfolding bytes_eq
drop_nul-line line = rw (reverse-append line (10 ∷ []))

-- The text has no NUL at its end.
drop_nul-printed : (path : List ℕ) → drop_nul (printed path) ≡ printed path
drop_nul-printed path =
    subst (λ text. drop_nul text ≡ text)
      (ap
        (λ rest.
          b'[' ∷ b'r' ∷ b'e' ∷ b'm' ∷ b'a' ∷ b'p' ∷ b']' ∷ 10 ∷ b'p' ∷ b'a' ∷ b't' ∷ b'h' ∷ b'='
          ∷ b'"' ∷ rest)
        (append_assoc (quoted path) (b'"' ∷ []) (10 ∷ [])))
      (drop_nul-line (
        b'['
        ∷ b'r'
        ∷ b'e'
        ∷ b'm'
        ∷ b'a'
        ∷ b'p'
        ∷ b']'
        ∷ 10
        ∷ b'p'
        ∷ b'a'
        ∷ b't'
        ∷ b'h'
        ∷ b'='
        ∷ b'"'
        ∷ (quoted path ++ (b'"' ∷ []))))

-- A fragment that an exporter writes for one resource, with its path between quotes, is read back as
-- one mapping, from the metadata's path without its suffix to that path, both normalised, if these have
-- a normal form, the text is no longer than `max_input_bytes`, and one mapping is allowed.
pub read_import_remap-printed :
    (limits : MetadataLimits) (path metadata_path : List ℕ)
    {metadata stem derived compiled : List ℕ}
    → 1 ≤ limits.max_mappings
    → length (printed path) ≤ limits.max_input_bytes
    → normalize_path metadata_path ≡ some metadata
    → stem_of metadata ≡ ok stem
    → normalize_path stem ≡ some derived
    → normalize_path path ≡ some compiled
    → read_import_remap (printed path) metadata_path limits
      ≡ ok (record { virtual_path = derived; compiled_path = compiled; variant = [] } ∷ [])
unfolding read_import_remap normalized virtual_path_of mappings_of
read_import_remap-printed limits path metadata_path room small a b c d = rw (
  a,
  b,
  c,
  le→ltb limits.max_input_bytes (length (printed path)) small,
  drop_nul-printed path,
  scan-printed limits path room,
  d,
)
