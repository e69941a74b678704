-- ===== src/Godot/Pck/Layout.antt =====
-- src/core/godot/pck.cpp: the header of a pack behind its version.
pub mod Steps
use observer_modules.Prelude.{
  ℕ, zero, suc, ◌+◌, ◌*◌, ◌-◌, ◌%◌, min, Bool, true, false, not, ◌||◌, if◌then◌else◌, List, [], ◌∷◌,
  ltb, leb, ◌==◌, Option, none, some,
}
use observer_modules.Failure.{
  stream_read, encryption_error, pck_error, pck_key_required, Exception, Result, ok, throw,
}
use observer_modules.Stream.{
  BoundedStream, Istream, Reader, pure, fail, lift, ◌>>=◌, ◌>>◌, reject_if, choose, size, position,
  with_stream,
}
use observer_modules.Extractor.{max_entry_count}
use observer_modules.Godot.Types.{
  u64_mod, sub_u64, ByteRange, PackLocation, PckEntry, PckIndex, max_index_bytes, checked_add,
  charge_budget,
}
use observer_modules.Godot.Encrypted.{
  EncryptedPayload, key_evidence, encryption_chunk_bytes, max_u64, read_encrypted_payload,
  verified_plaintext,
}
use observer_modules.Godot.Pck.Reader.{
  pack_magic, max_format_version, pack_seek, pack_read_trivial, skip_reserved,
}
use observer_modules.Godot.Pck.Entry.{not_u32, has_flag, read_directory}

abbrev pub known_pack_flags : ℕ
known_pack_flags = 7

abbrev pub pack_flag_directory_encrypted : ℕ
pack_flag_directory_encrypted = 1

abbrev pub pack_flag_relative_base : ℕ
pack_flag_relative_base = 2

abbrev pub pack_flag_sparse_bundle : ℕ
pack_flag_sparse_bundle = 4

-- What the header says of the directory.
pub record Layout : Type 0 where
  pub file_base : ℕ
  pub directory_offset : ℕ
  pub encrypted_directory : Bool

abbrev pub resolve_base : Bool → ℕ → ℕ → Result ℕ
resolve_base true start stored = checked_add start stored
resolve_base false start stored = ok stored

unfoldable pub read_layout : ℕ → ℕ → ℕ → Reader Layout
unfolding pack_read_trivial skip_reserved checked_add
read_layout limit start version =
    choose (leb version 1)
      (do
        skip_reserved limit
        at ← position
        pure (record { file_base = 0; directory_offset = at; encrypted_directory = false }))
      do
        flags ← pack_read_trivial limit 4
        reject_if (has_flag flags (not_u32 known_pack_flags)) (pck_error "unknown pack flag")
        reject_if (has_flag flags pack_flag_sparse_bundle)
            (pck_error "sparse pack bundle is unsupported")
        stored_base ← pack_read_trivial limit 8
        base ← lift (
            resolve_base (leb 3 version || has_flag flags pack_flag_relative_base) start
              stored_base)
        choose (leb 3 version)
            (do
              stored_directory ← pack_read_trivial limit 8
              directory ← lift (checked_add start stored_directory)
              pure (record {
                file_base = base;
                directory_offset = directory;
                encrypted_directory = has_flag flags pack_flag_directory_encrypted;
              }))
            (do
              skip_reserved limit
              at ← position
              pure (record {
                file_base = base;
                directory_offset = at;
                encrypted_directory = has_flag flags pack_flag_directory_encrypted;
              }))
