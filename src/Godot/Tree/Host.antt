-- ===== src/Godot/Tree/Host.antt =====
-- src/modules/godot/virtual_tree.cpp: the calls of the operating system, the limits and the budget.
use observer_modules.Prelude.{ℕ, ◌+◌, ◌-◌, ◌*◌, ◌/◌, Bool, true, List, [], ◌∷◌, ltb, length}
use observer_modules.Failure.{Result, ok, ◌>>◌, throw_if, tree_budget_error}

-- MultiByteToWideChar, strict and lenient, CompareStringOrdinal without case, and the sizes of two
-- records of the code and of a size_t in bytes.
pub record Host : Type 0 where
  pub is_utf8 : List ℕ → Bool
  pub widen : List ℕ → List ℕ
  pub ordinal_equal : List ℕ → List ℕ → Bool
  pub sizeof_mapping : ℕ
  pub sizeof_row : ℕ
  pub sizeof_size : ℕ

-- src/modules/godot/virtual_tree.h
pub record TreeLimits : Type 0 where
  pub max_entries : ℕ
  pub max_metadata_bytes : ℕ
  pub max_path_chars : ℕ

abbrev pub entry_slot_overhead : ℕ
entry_slot_overhead = 64

abbrev pub row_node_overhead : ℕ
row_node_overhead = 64

abbrev pub name_node_overhead : ℕ
name_node_overhead = 48

abbrev pub map_node_overhead : ℕ
map_node_overhead = 48

abbrev pub max_component_chars : ℕ
max_component_chars = 255

-- The members of `budget`: `limit_` is the first argument, `used_` the last one and the result.
unfoldable pub charge : ℕ → ℕ → ℕ → Result ℕ
charge limit bytes used = throw_if (ltb (limit - used) bytes) tree_budget_error >> ok (used + bytes)

unfoldable pub reserve_slots : ℕ → ℕ → ℕ → ℕ → Result ℕ
reserve_slots limit count slot_bytes used =
    throw_if (ltb ((limit - used) / slot_bytes) count) tree_budget_error
    >> ok (used + count * slot_bytes)

module _ (host : Host) where
  unfoldable pub is_valid_utf8 : List ℕ → Bool
  is_valid_utf8 [] = true
  is_valid_utf8 (c ∷ rest) = host.is_utf8 (c ∷ rest)

  unfoldable pub utf16_length : List ℕ → ℕ
  utf16_length text = length (host.widen text)
