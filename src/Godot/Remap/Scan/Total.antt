-- ===== src/Godot/Remap/Scan/Total.antt =====
-- src/core/godot/import_remap.cpp: the end of `scanner::scan`, and what it has found.
use observer_modules.Prelude.{ℕ, zero, suc, ◌<◌, ◌==◌, List, [], ◌∷◌, length, arith}
use observer_modules.Failure.{metadata_error}
use observer_modules.Failure.Only.{Only, Only-ok, Only-throw, Only-if, Only-split, Only-bind}
use observer_modules.Godot.Remap.Text.{
  skip_trivia, skip_inline_spaces, parse_section_name, parse_key,
}
use observer_modules.Godot.Remap.Text.Bounds.{
  length-skip_trivia, length-skip_inline_spaces, parse_section_name-Within, parse_key-Within,
}
use observer_modules.Godot.Remap.Value.{MetadataLimits, parse_value}
use observer_modules.Godot.Remap.Value.Bounds.{parse_value-Within}
use observer_modules.Godot.Remap.Found.{Found, nothing_found, record_value}
use observer_modules.Godot.Remap.Found.Distinct.{IsFound, record_value-IsFound}
use observer_modules.Godot.Remap.Scan.{expect_equals, scan_assignment, scan_loop, scan}

module _ (limits : MetadataLimits) where
  -- A round has read a character or more.
  abbrev Progress : ℕ → Found × List ℕ → Type 0
  Progress n (found, rest) = IsFound limits found × (length rest < n)

  expect_equals-shorter :
      (text : List ℕ) → Only metadata_error (λ rest. length rest < length text) (expect_equals text)
  expect_equals-shorter [] = Only-throw
  expect_equals-shorter (c ∷ rest) =
      Only-if (c == b'=') (λ e. Only-ok (omega arith)) λ e. Only-throw

  scan_assignment-Progress :
      (section : List ℕ) (found : Found) (text : List ℕ)
      → IsFound limits found
      → Only metadata_error (Progress (length text)) (scan_assignment limits section found text)
  unfolding scan_assignment
  scan_assignment-Progress section found text h =
      Only-bind (parse_key text) _ (parse_key-Within text) λ (key, after_key) k.
        Only-bind (expect_equals (skip_inline_spaces after_key)) _
          (expect_equals-shorter (skip_inline_spaces after_key))
          λ after_equals l.
            Only-bind (parse_value limits (skip_inline_spaces after_equals)) _
              (parse_value-Within limits (skip_inline_spaces after_equals))
              λ (value, rest) m.
                Only-bind (record_value limits section key value found) _
                  (record_value-IsFound limits section key value found h)
                  λ updated n. Only-ok (
                    n,
                    omega (
                      arith,
                      length-skip_inline_spaces after_key,
                      length-skip_inline_spaces after_equals,
                    ),
                  )

  scan_loop-IsFound :
      (fuel : ℕ) (section : List ℕ) (found : Found) (text : List ℕ)
      → length text < fuel
      → IsFound limits found
      → Only metadata_error (IsFound limits) (scan_loop limits fuel section found text)
  unfolding scan_loop
  scan_loop-IsFound zero section found text low h = absurd (omega arith)
  scan_loop-IsFound (suc fuel) section found [] low h = Only-ok h
  scan_loop-IsFound (suc fuel) section found (c ∷ rest) low h =
      Only-split (c == b'[') _ _
        (λ e.
          Only-bind (parse_section_name rest) _ (parse_section_name-Within rest) λ (name, left) l.
            scan_loop-IsFound fuel name found (skip_trivia left)
              (omega (arith, length-skip_trivia left)) h)
        λ e.
          Only-bind (scan_assignment limits section found (c ∷ rest)) _
            (scan_assignment-Progress section found (c ∷ rest) h)
            λ (updated, left) (n, l).
              scan_loop-IsFound fuel section updated (skip_trivia left)
                (omega (arith, length-skip_trivia left)) n

  -- The scanner ends on every text: it never runs out of its fuel, and what it throws is a
  -- `metadata_error`. It has found no more than `max_mappings` paths, no two under one name.
  pub scan-IsFound : (text : List ℕ) → Only metadata_error (IsFound limits) (scan limits text)
  unfolding scan
  scan-IsFound text =
      scan_loop-IsFound (suc (length text)) [] nothing_found (skip_trivia text)
        (omega (arith, length-skip_trivia text)) (record { bounded = omega arith; distinct = tt })
