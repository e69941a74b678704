-- ===== src/Godot/Remap/Scan.antt =====
-- src/core/godot/import_remap.cpp: `scanner::scan`.
pub mod Total
use observer_modules.Prelude.{
  ℕ, zero, suc, ◌==◌, Bool, true, false, List, [], ◌∷◌, Option, none, some, if◌then◌else◌, length,
}
use observer_modules.Failure.{Result, ok, throw, ◌>>=◌, metadata_error, out_of_fuel}
use observer_modules.Godot.Remap.Text.{
  Scanned, skip_trivia, skip_inline_spaces, parse_section_name, parse_key,
}
use observer_modules.Godot.Remap.Value.{MetadataLimits, parse_value}
use observer_modules.Godot.Remap.Found.{Found, nothing_found, record_value}

abbrev pub expect_equals : List ℕ → Result (List ℕ)
expect_equals [] = throw metadata_error
expect_equals (c ∷ rest) = if c == b'=' then ok rest else throw metadata_error

-- The rest of a round behind the key of an assignment.
unfoldable pub scan_assignment : MetadataLimits → List ℕ → Found → List ℕ → Scanned Found
unfolding skip_inline_spaces parse_key parse_value record_value
scan_assignment limits section found text = do
  (key, after_key) ← parse_key text
  after_equals ← expect_equals (skip_inline_spaces after_key)
  (value, rest) ← parse_value limits (skip_inline_spaces after_equals)
  updated ← record_value limits section key value found
  ok (updated, rest)

-- Each round reads a character or more. The text begins behind the white space and the comments.
unfoldable pub scan_loop : MetadataLimits → ℕ → List ℕ → Found → List ℕ → Result Found
unfolding parse_section_name scan_assignment skip_trivia
scan_loop limits zero section found text = throw out_of_fuel
scan_loop limits (suc fuel) section found [] = ok found
scan_loop limits (suc fuel) section found (c ∷ rest) = elim (c == b'[') [
  | true ↦ parse_section_name rest >>= λ (name, left).
      scan_loop limits fuel name found (skip_trivia left)
  | false ↦ scan_assignment limits section found (c ∷ rest) >>= λ (updated, left).
      scan_loop limits fuel section updated (skip_trivia left)
]

unfoldable pub scan : MetadataLimits → List ℕ → Result Found
unfolding scan_loop skip_trivia
scan limits text = scan_loop limits (suc (length text)) [] nothing_found (skip_trivia text)
