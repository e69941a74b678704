-- ===== src/Godot/Tree/Build/Manifest.antt =====
-- src/modules/godot/virtual_tree.cpp: the size of the manifest's rows.
use observer_modules.Prelude.{ℕ, ◌≡◌, List, [], ◌∷◌, ◌++◌, length, length-append, arith}
use observer_modules.Godot.Tree.Host.{Host, TreeLimits}
use observer_modules.Godot.Tree.Escape.{escape_field}
use observer_modules.Godot.Tree.Escape.Reversible.{escaped_field_size-length}
use observer_modules.Godot.Tree.Names.{decimal}
use observer_modules.Godot.Tree.Names.Decimal.{digit_count-length}
use observer_modules.Godot.Tree.Build.{row_bound, manifest_row}

-- The size that is charged for a row of the manifest before it is written is the size of the row.
pub row_bound-manifest_row :
    (host : Host) (limits : TreeLimits) (index : ℕ) (physical final_path : List ℕ)
    → row_bound host limits index physical final_path
      ≡ length (manifest_row host limits index physical final_path)
unfolding row_bound manifest_row
row_bound-manifest_row host limits index physical final_path = omega (
  arith,
  digit_count-length index,
  escaped_field_size-length host physical,
  escaped_field_size-length host final_path,
  length-append (decimal index)
      (9 ∷ (escape_field host physical ++ (9 ∷ (escape_field host final_path ++ (10 ∷ []))))),
  length-append (escape_field host physical) (9 ∷ (escape_field host final_path ++ (10 ∷ []))),
  length-append (escape_field host final_path) (10 ∷ []),
)
