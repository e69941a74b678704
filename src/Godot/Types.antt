-- ===== src/Godot/Types.antt =====
-- src/core/godot/pck.h: the values that the readers of a pack exchange, and 64-bit arithmetic.
use observer_modules.Prelude.{ℕ, ◌+◌, ◌-◌, ◌*◌, ◌%◌, ◌^◌, List, Bool, ltb, if◌then◌else◌}
use observer_modules.Failure.{pck_error, Result, ok, throw}

abbrev pub u64_mod : ℕ
u64_mod = 2 ^ 64

-- std::uint64_t l - r
abbrev pub sub_u64 : ℕ → ℕ → ℕ
sub_u64 l r = (l + u64_mod - r) % u64_mod

pub record ByteRange : Type 0 where
  pub offset : ℕ
  pub size : ℕ

pub data ContainerKind : Type 0 where
  standalone pe_section footer : ContainerKind

pub record PackLocation : Type 0 where
  pub pack : ByteRange
  pub container : ContainerKind

pub data PckEntryKind : Type 0 where
  file removal : PckEntryKind

pub record PckEntry : Type 0 where
  pub path : List ℕ
  pub body : ByteRange
  pub md5 : List ℕ
  pub logical_size : ℕ
  pub kind : PckEntryKind
  pub encrypted : Bool

pub record PckIndex : Type 0 where
  pub format_version : ℕ
  pub engine_version : List ℕ
  pub entries : List PckEntry
  pub key_evidence : Bool

-- The field `max_index_bytes` of pck_limits, by default.
abbrev pub max_index_bytes : ℕ
max_index_bytes = 64 * 1024 * 1024

unfoldable pub checked_add : ℕ → ℕ → Result ℕ
checked_add left right =
    let sum : ℕ = (left + right) % u64_mod in
    if ltb sum left then throw (pck_error "pck offset arithmetic overflow") else ok sum

-- `charge_budget` under the limit `max`.
unfoldable pub charge_budget : ℕ → ℕ → ℕ → Result ℕ
unfolding checked_add
charge_budget limit used amount = elim (checked_add used amount) [
  | throw e ↦ throw e
  | ok total ↦
      if ltb limit total
      then throw (pck_error "pack index exceeds the allocation budget")
      else ok total
]
