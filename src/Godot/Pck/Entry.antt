-- ===== src/Godot/Pck/Entry.antt =====
-- src/core/godot/pck.cpp: `read_entry` and `read_directory`. `limit` is the end of the pack_reader
-- that the directory is read with; the limits of a pack_limits are the default ones.
pub mod Bounds
use observer_modules.Prelude.{
  ℕ, zero, suc, ◌+◌, ◌*◌, ◌%◌, ◌^◌, ◌-◌, Bool, true, false, not, ◌&&◌, ◌||◌, List, [], ◌∷◌, ltb,
  leb, ◌==◌, bit_and, length,
}
use observer_modules.Failure.{pck_error}
use observer_modules.Stream.{Reader, pure, lift, ◌>>=◌, ◌>>◌, reject_if, choose, position}
use observer_modules.Extractor.{max_path_bytes}
use observer_modules.Godot.Types.{
  u64_mod, sub_u64, PckEntry, PckEntryKind, file, removal, max_index_bytes, checked_add,
  charge_budget,
}
use observer_modules.Godot.Pck.Reader.{pack_read, pack_read_trivial}
use observer_modules.Godot.Pck.Path.{sanitize_path, trim_nuls}

abbrev pub max_name_padding : ℕ
max_name_padding = 3

-- The complement of `bits` in a word of 32 bits.
abbrev pub not_u32 : ℕ → ℕ
not_u32 bits = 2 ^ 32 - 1 - bits

abbrev pub has_flag : ℕ → ℕ → Bool
has_flag flags bits = not (bit_and flags bits == 0)

abbrev pub known_file_flags : ℕ
known_file_flags = 7

abbrev pub file_flag_encrypted : ℕ
file_flag_encrypted = 1

abbrev pub file_flag_removal : ℕ
file_flag_removal = 2

abbrev pub file_flag_delta : ℕ
file_flag_delta = 4

abbrev pub minimum_entry_bytes : ℕ → ℕ
minimum_entry_bytes zero = 37
minimum_entry_bytes (suc zero) = 37
minimum_entry_bytes (suc (suc v)) = 41

-- The kind of an entry, and whether it is encrypted.
abbrev pub Mode : Type 0
Mode = PckEntryKind × Bool

unfoldable pub read_mode : ℕ → ℕ → ℕ → Reader Mode
unfolding pack_read_trivial
read_mode limit version logical_size =
    choose (leb 2 version)
      (do
        flags ← pack_read_trivial limit 4
        reject_if (has_flag flags (not_u32 known_file_flags)) (pck_error "unknown pack entry flag")
        reject_if (has_flag flags file_flag_delta || bit_and flags 3 == 3)
            (pck_error "unsupported pack entry mode")
        choose (has_flag flags file_flag_removal)
            (do
              reject_if (not (logical_size == 0)) (pck_error "pack removal record has a file body")
              pure (removal, has_flag flags file_flag_encrypted))
            (pure (file, has_flag flags file_flag_encrypted)))
      (pure (file, false))

-- The path of an entry under its stored name, and the budget that is used with it.
unfoldable pub read_path : List ℕ → ℕ → Reader (List ℕ × ℕ)
unfolding trim_nuls charge_budget sanitize_path
read_path raw budget = do
  reject_if (ltb max_path_bytes (length (trim_nuls raw)))
      (pck_error "pack entry name length out of range")
  budget' ← lift (charge_budget max_index_bytes budget (length (trim_nuls raw)))
  path ← lift (sanitize_path (trim_nuls raw))
  pure (path, budget')

unfoldable pub read_entry : ℕ → ℕ → ℕ → ℕ → ℕ → Reader (PckEntry × ℕ)
unfolding pack_read pack_read_trivial read_mode read_path
read_entry limit version file_base file_size budget = do
  name_size ← pack_read_trivial limit 4
  reject_if (name_size == 0 || ltb (max_path_bytes + max_name_padding) name_size)
      (pck_error "pack entry name length out of range")
  charged ← lift (charge_budget max_index_bytes budget name_size)
  raw ← pack_read limit name_size
  stored_offset ← pack_read_trivial limit 8
  body_size ← pack_read_trivial limit 8
  md5 ← pack_read limit 16
  mode ← read_mode limit version body_size
  named ← read_path raw charged
  offset ← lift (checked_add file_base stored_offset)
  end ← lift (checked_add offset body_size)
  reject_if (ltb file_size end) (pck_error "pack entry range exceeds the file")
  pure (
    record {
      path = named.0;
      body = record { offset = offset; size = body_size };
      md5 = md5;
      logical_size = body_size;
      kind = mode.0;
      encrypted = mode.1;
    },
    named.1,
  )

-- The loop over the entries, with those that are left.
unfoldable pub entry_loop : ℕ → ℕ → ℕ → ℕ → ℕ → ℕ → Reader (List PckEntry)
unfolding read_entry
entry_loop zero limit version file_base file_size budget = pure []
entry_loop (suc left) limit version file_base file_size budget = do
  entry ← read_entry limit version file_base file_size budget
  rest ← entry_loop left limit version file_base file_size entry.1
  pure (entry.0 ∷ rest)

-- `entry_bytes` is sizeof(pck_entry).
module _ (entry_bytes : ℕ) where
  unfoldable pub read_directory : ℕ → ℕ → ℕ → ℕ → ℕ → ℕ → Reader (List PckEntry)
  unfolding entry_loop charge_budget
  read_directory limit version entry_count file_base file_size workspace = do
    cursor ← position
    reject_if (ltb (sub_u64 limit cursor) (entry_count * minimum_entry_bytes version))
        (pck_error "pack directory is too small for its entry count")
    budget ← lift (charge_budget max_index_bytes workspace (entry_count * entry_bytes % u64_mod))
    entry_loop entry_count limit version file_base file_size budget
