-- ===== src/Tests/Remap.antt =====
-- src/core/godot/import_remap.cpp: runs on small files.
use observer_modules.Prelude.{
  ℕ, length, ◌≤◌, List, [], ◌∷◌, ◌++◌, ◌≡◌, ◌⊎◌, refl, some, none, bytes_eq, arith,
}
use observer_modules.Failure.{ok, throw, metadata_error}
use observer_modules.Extractor.{max_path_bytes}
use observer_modules.Godot.Remap.Chars.{encode_utf8, hex_value}
use observer_modules.Godot.Remap.Path.{normalize_path, has_forbidden, walk, flush}
use observer_modules.Godot.Remap.Path.Normal.{IsNormal, normalize_path-IsNormal}
use observer_modules.Godot.Remap.Path.Stable.{normalize_path_idempotent}
use observer_modules.Godot.Remap.Text.{
  parse_string, string_loop, append_plain, append_escape, append_value, close_string,
  parse_escape_value, escape_value, parse_hex_escape, hex_loop, skip_trivia, trivia_loop,
  parse_section_name, section_loop,
}
use observer_modules.Godot.Remap.Text.Quoted.{quoted, parse_string-quoted}
use observer_modules.Godot.Remap.Value.{default_limits}
use observer_modules.Godot.Remap.Scan.{scan, scan_loop}
use observer_modules.Godot.Remap.Read.{ImportMapping, read_import_remap, normalized, stem_of}
use observer_modules.Godot.Remap.Read.Safe.{
  AreMappings, read_import_remap_total, read_import_remap-AreMappings,
}
use observer_modules.Godot.Remap.Read.Printed.{printed, read_import_remap-printed}

-- `res://x/./y` and `x/y`.
abbrev dotted : List ℕ
dotted = b'r' ∷ b'e' ∷ b's' ∷ b':' ∷ b'/' ∷ b'/' ∷ b'x' ∷ b'/' ∷ b'.' ∷ b'/' ∷ b'y' ∷ []

abbrev plain : List ℕ
plain = b'x' ∷ b'/' ∷ b'y' ∷ []

normalize_path-dotted : normalize_path dotted ≡ some plain
unfolding normalize_path has_forbidden walk flush bytes_eq
normalize_path-dotted = refl

-- `../y`
normalize_path-parent : normalize_path (b'.' ∷ b'.' ∷ b'/' ∷ b'y' ∷ []) ≡ none
unfolding normalize_path has_forbidden walk flush bytes_eq
normalize_path-parent = refl

normalize_path_idempotent_example : normalize_path plain ≡ some plain
normalize_path_idempotent_example = normalize_path_idempotent dotted normalize_path-dotted

-- The surrogate pair of the emoji U+1F600, which has four bytes in UTF-8.
abbrev emoji : List ℕ
emoji =
    b'\\' ∷ b'u' ∷ b'd' ∷ b'8' ∷ b'3' ∷ b'd' ∷ b'\\' ∷ b'u' ∷ b'd' ∷ b'e' ∷ b'0' ∷ b'0' ∷ b'"' ∷ []

parse_string-emoji : parse_string emoji ≡ ok (0xf0 ∷ 0x9f ∷ 0x98 ∷ 0x80 ∷ [], [])
unfolding parse_string string_loop append_escape append_value close_string parse_escape_value
    escape_value parse_hex_escape hex_loop hex_value encode_utf8
parse_string-emoji = refl

-- An escaped letter of two bytes, U+00E9: the first of them is encoded again.
parse_string-accented :
    parse_string (b'\\' ∷ 0xc3 ∷ 0xa9 ∷ b'"' ∷ []) ≡ ok (0xc3 ∷ 0x83 ∷ 0xa9 ∷ [], [])
unfolding parse_string string_loop append_escape append_value append_plain close_string
    parse_escape_value escape_value encode_utf8
parse_string-accented = refl

parse_string-quoted_example :
    parse_string (quoted (b'a' ∷ b'"' ∷ b'\\' ∷ []) ++ (b'"' ∷ 10 ∷ []))
    ≡ ok (b'a' ∷ b'"' ∷ b'\\' ∷ [], 10 ∷ [])
parse_string-quoted_example = parse_string-quoted (b'a' ∷ b'"' ∷ b'\\' ∷ []) (10 ∷ [])

-- `a.import`
abbrev metadata : List ℕ
metadata = b'a' ∷ b'.' ∷ b'i' ∷ b'm' ∷ b'p' ∷ b'o' ∷ b'r' ∷ b't' ∷ []

abbrev mapping : ImportMapping
mapping = record { virtual_path = b'a' ∷ []; compiled_path = plain; variant = [] }

normalize_path-metadata : normalize_path metadata ≡ some metadata
unfolding normalize_path has_forbidden walk flush bytes_eq
normalize_path-metadata = refl

stem_of-metadata : stem_of metadata ≡ ok (b'a' ∷ [])
unfolding stem_of bytes_eq
stem_of-metadata = refl

normalize_path-stem : normalize_path (b'a' ∷ []) ≡ some (b'a' ∷ [])
unfolding normalize_path has_forbidden walk flush bytes_eq
normalize_path-stem = refl

short : length (printed dotted) ≤ 4194304
unfolding quoted
short = omega arith

read_import_remap-printed_example :
    read_import_remap (printed dotted) metadata default_limits ≡ ok (mapping ∷ [])
read_import_remap-printed_example =
    read_import_remap-printed default_limits dotted metadata (omega arith) short
      normalize_path-metadata stem_of-metadata normalize_path-stem normalize_path-dotted

read_import_remap-AreMappings_example : AreMappings default_limits (mapping ∷ [])
read_import_remap-AreMappings_example =
    read_import_remap-AreMappings (printed dotted) metadata default_limits (mapping ∷ [])
      read_import_remap-printed_example

-- `[` alone is no section.
read_import_remap-open :
    read_import_remap (b'[' ∷ []) metadata default_limits ≡ throw metadata_error
unfolding read_import_remap normalized stem_of scan scan_loop normalize_path has_forbidden walk
    flush bytes_eq skip_trivia trivia_loop parse_section_name section_loop
read_import_remap-open = refl

read_import_remap_total_example :
    ((mappings : List ImportMapping) × (read_import_remap (b'[' ∷ []) metadata default_limits
        ≡ ok mappings))
    ⊎ (read_import_remap (b'[' ∷ []) metadata default_limits ≡ throw metadata_error)
read_import_remap_total_example = read_import_remap_total (b'[' ∷ []) metadata default_limits

normalize_path-IsNormal_example : IsNormal plain × (length plain ≤ max_path_bytes)
normalize_path-IsNormal_example = normalize_path-IsNormal dotted normalize_path-dotted
