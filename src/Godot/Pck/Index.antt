-- ===== src/Godot/Pck/Index.antt =====
-- src/core/godot/pck.cpp: `read_pack`. `entry_bytes` is sizeof(pck_entry); `decrypt` and `md5` are the
-- crypto provider's.
pub mod Bounds
pub mod Opened
pub mod Whole
use observer_modules.Prelude.{
  ℕ, zero, suc, ◌+◌, ◌*◌, ◌-◌, ◌%◌, min, Bool, true, false, not, ◌||◌, if◌then◌else◌, List, [], ◌∷◌,
  ltb, leb, ◌==◌, Option, none, some,
}
use observer_modules.Failure.{
  stream_read, encryption_error, pck_error, pck_key_required, Exception, Result, ok, throw,
}
use observer_modules.Stream.{
  BoundedStream, Istream, Reader, pure, fail, lift, ◌>>=◌, ◌>>◌, reject_if, choose, size, position,
  with_stream,
}
use observer_modules.Extractor.{max_entry_count}
use observer_modules.Godot.Types.{
  u64_mod, sub_u64, ByteRange, PackLocation, PckEntry, PckIndex, max_index_bytes, checked_add,
  charge_budget,
}
use observer_modules.Godot.Encrypted.{
  EncryptedPayload, key_evidence, encryption_chunk_bytes, max_u64, read_encrypted_payload,
  verified_plaintext,
}
use observer_modules.Godot.Pck.Reader.{
  pack_magic, max_format_version, pack_seek, pack_read_trivial, skip_reserved,
}
use observer_modules.Godot.Pck.Entry.{not_u32, has_flag, read_directory}
use observer_modules.Godot.Pck.Layout.{
  known_pack_flags, pack_flag_directory_encrypted, pack_flag_relative_base, pack_flag_sparse_bundle,
  Layout, resolve_base, read_layout,
}

-- The physical stream behind a bounded one.
abbrev pub physical : Reader Istream
physical s = ok (record { content = s.content; cursor = s.cursor }, s)

abbrev pub resolved : PckEntry → EncryptedPayload → PckEntry
resolved entry payload = record entry { body = payload.envelope }

unfoldable pub resolve_member : PackLocation → PckEntry → Istream → Result PckEntry
unfolding read_encrypted_payload
resolve_member location entry stream =
    let relative : ℕ = sub_u64 entry.body.offset location.pack.offset in
    if ltb location.pack.size relative
    then throw (pck_error "encrypted member begins outside the located pack")
    else elim (read_encrypted_payload stream
        (record { offset = entry.body.offset; size = location.pack.size - relative }) max_u64) [
          | throw e ↦ throw e
          | ok payload ↦
              if payload.logical_size == entry.logical_size
              then ok (resolved entry payload)
              else throw (pck_error "encrypted member length disagrees with its directory entry")
        ]

unfoldable pub resolve_members : PackLocation → Istream → List PckEntry → Result (List PckEntry)
unfolding resolve_member
resolve_members location stream [] = ok []
resolve_members location stream (entry ∷ entries) =
    elim (if entry.encrypted then resolve_member location entry stream else ok entry) [
      | throw e ↦ throw e
      | ok resolved ↦ elim (resolve_members location stream entries) [
        | throw e ↦ throw e
        | ok rest ↦ ok (resolved ∷ rest)
      ]
    ]

abbrev zeros : ℕ → List ℕ
zeros zero = []
zeros (suc n) = 0 ∷ zeros n

module _ (entry_bytes : ℕ) (decrypt : List ℕ → List ℕ → List ℕ → List ℕ)
    (md5 : List ℕ → List ℕ) where
  abbrev pub empty_key : List ℕ
  empty_key = zeros 32

  abbrev pub key_or_empty : Option (List ℕ) → List ℕ
  key_or_empty none = empty_key
  key_or_empty (some key) = key

  abbrev pub needs_key : Option (List ℕ) → EncryptedPayload → Bool
  needs_key none payload = key_evidence payload
  needs_key (some key) payload = false

  -- The directory in the plaintext of an encrypted one: the plaintext is read as a stream of its own.
  unfoldable pub read_plaintext : ℕ → ℕ → ℕ → ℕ → ℕ → ℕ → Reader (List PckEntry)
  unfolding read_directory
  read_plaintext logical_size version entry_count file_base file_size workspace = do
    entries ←
        read_directory entry_bytes logical_size version entry_count file_base file_size workspace
    at ← position
    reject_if (not (at == logical_size))
        (pck_error "encrypted pack directory has trailing plaintext")
    pure entries

  abbrev pub workspace_of : EncryptedPayload → ℕ
  workspace_of payload = min payload.ciphertext.size encryption_chunk_bytes

  unfoldable pub open_directory :
      EncryptedPayload → Option (List ℕ) → ℕ → ℕ → ℕ → ℕ → Istream → Result (List PckEntry)
  unfolding charge_budget verified_plaintext read_plaintext
  open_directory payload key version entry_count file_base file_size stream =
      if needs_key key payload
      then throw
          (pck_key_required "encrypted pack directory requires a key" payload.ciphertext.size)
      else elim (charge_budget max_index_bytes (workspace_of payload)
          (entry_count * entry_bytes % u64_mod)) [
            | throw e ↦ throw e
            | ok charged ↦ elim (verified_plaintext decrypt md5 stream payload (key_or_empty key)) [
              | throw e ↦ throw e
              | ok plain ↦
                  with_stream
                    (read_plaintext payload.logical_size version entry_count file_base file_size
                      (workspace_of payload))
                    (record { content = plain; cursor = 0 })
            ]
          ]

  -- The entries, and whether the key of the directory was put to the test.
  abbrev pub Directory : Type 0
  Directory = List PckEntry × Bool

  unfoldable pub read_encrypted_directory : ℕ → Option (List ℕ) → ℕ → ℕ → ℕ → ℕ → Reader Directory
  unfolding read_encrypted_payload open_directory
  read_encrypted_directory limit key version entry_count file_base file_size = do
    begin ← position
    stream ← physical
    payload ← lift (
        read_encrypted_payload stream (record { offset = begin; size = limit - begin })
          max_index_bytes)
    entries ← lift (open_directory payload key version entry_count file_base file_size stream)
    pure (entries, key_evidence payload)

  unfoldable pub read_plain_directory : ℕ → ℕ → ℕ → ℕ → ℕ → Reader Directory
  unfolding read_directory
  read_plain_directory limit version entry_count file_base file_size = do
    entries ← read_directory entry_bytes limit version entry_count file_base file_size 0
    pure (entries, false)

  -- `read_pack_impl` behind the header: what the directory says, with the encrypted members' bodies
  -- resolved.
  unfoldable pub read_entries : PackLocation → Option (List ℕ) → ℕ → ℕ → Layout → Reader Directory
  unfolding pack_seek pack_read_trivial read_encrypted_directory read_plain_directory
      resolve_members
  read_entries location key version file_size layout = do
    let limit : ℕ = location.pack.offset + location.pack.size
    pack_seek limit layout.directory_offset
    entry_count ← pack_read_trivial limit 4
    reject_if (ltb max_entry_count entry_count) (pck_error "pack entry count exceeds the budget")
    directory ←
        choose layout.encrypted_directory
          (read_encrypted_directory limit key version entry_count layout.file_base file_size)
          (read_plain_directory limit version entry_count layout.file_base file_size)
    stream ← physical
    entries ← lift (resolve_members location stream directory.0)
    pure (entries, directory.1)

  unfoldable pub read_pack_impl : PackLocation → Option (List ℕ) → Reader PckIndex
  unfolding pack_seek pack_read_trivial read_layout read_entries
  read_pack_impl location key = do
    file_size ← size
    let start : ℕ = location.pack.offset
    reject_if (ltb file_size start || ltb (file_size - start) location.pack.size)
        (pck_error "pack location exceeds the file")
    let limit : ℕ = start + location.pack.size
    pack_seek limit start
    magic ← pack_read_trivial limit 4
    reject_if (not (magic == pack_magic)) (pck_error "pack header magic missing")
    version ← pack_read_trivial limit 4
    major ← pack_read_trivial limit 4
    minor ← pack_read_trivial limit 4
    patch ← pack_read_trivial limit 4
    reject_if (ltb max_format_version version) (pck_error "unsupported pack format version")
    layout ← read_layout limit start version
    directory ← read_entries location key version file_size layout
    pure (record {
      format_version = version;
      engine_version = major ∷ minor ∷ patch ∷ [];
      entries = directory.0;
      key_evidence = directory.1;
    })

  -- The handlers: a key_mismatch passes, another encryption_error keeps its message.
  unfoldable pub pack_errors {ℓ} : {A : Type ℓ} → Result A → Result A
  pack_errors (throw stream_read) = throw (pck_error "pack data is truncated or unreadable")
  pack_errors (throw (encryption_error message)) = throw (pck_error message)
  pack_errors (throw e) = throw e
  pack_errors (ok a) = ok a

  unfoldable pub read_pack : Istream → PackLocation → Option (List ℕ) → Result PckIndex
  unfolding read_pack_impl pack_errors
  read_pack stream location key = pack_errors (with_stream (read_pack_impl location key) stream)
