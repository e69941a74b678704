-- ===== src/RpgMaker.antt =====
-- src/modules/rpgmaker/rpgmaker.cpp: RGSSAD archives, the legacy layout (XP, VX) and the Ace layout.
pub mod Cipher
pub mod Extract
pub mod Bounds
pub mod Total
use observer_modules.Prelude.{
  ℕ, zero, suc, ◌+◌, ◌-◌, ◌*◌, ◌/◌, ◌%◌, ◌^◌, Bool, true, false, not, ◌||◌, List, [], ◌∷◌, ◌++◌,
  ltb, ◌==◌, if◌then◌else◌, length, take, get_or, bytes_eq, bit_xor, Option, none, some, String,
}
use observer_modules.Prelude.Int.{ℤ, pos}
use observer_modules.Failure.{extractor_read, Result, ok, throw}
use observer_modules.Stream.{
  Istream, Reader, pure, fail, lift, ◌>>=◌, ◌>>◌, reject_if, choose, size, position, remaining,
  seek_absolute, read_exact, read_trivial, with_stream,
}
use observer_modules.Extractor.{File, max_path_bytes, max_entry_count}
use observer_modules.RpgMaker.Cipher.{advance, low_byte}

abbrev pub signature_prefix : List ℕ
signature_prefix = 0x52 ∷ 0x47 ∷ 0x53 ∷ 0x53 ∷ 0x41 ∷ 0x44 ∷ 0x00 ∷ []

abbrev pub legacy_version : ℕ
legacy_version = 1

abbrev pub ace_version : ℕ
ace_version = 3

abbrev pub header_size : ℕ
header_size = 8

abbrev pub legacy_initial_key : ℕ
legacy_initial_key = 0xDEADCAFE

unfoldable pub has_signature_prefix : List ℕ → Bool
has_signature_prefix bytes = bytes_eq (take (length signature_prefix) bytes) signature_prefix

unfoldable pub validate_header : List ℕ → Result ℕ
validate_header bytes =
    if ltb (length bytes) header_size || not (has_signature_prefix bytes)
    then throw extractor_read
    else ok (get_or bytes 7 0)

-- The loop over the name: each byte takes one step of the key.
unfoldable pub decode_name : ℕ → List ℕ → List ℕ
decode_name key [] = []
decode_name key (b ∷ bs) = bit_xor b (low_byte key) ∷ decode_name (advance key) bs

unfoldable pub key_after : ℕ → ℕ → ℕ
key_after zero key = key
key_after (suc n) key = key_after n (advance key)

unfoldable pub has_nul : List ℕ → Bool
has_nul [] = false
has_nul (b ∷ bs) = b == 0 || has_nul bs

-- An entry of either layout.
unfoldable pub new_file : List ℕ → ℕ → ℕ → ℕ → File
new_file path offset size magic = record {
  path = path;
  header = [];
  offset = pos offset;
  compressed_body_size_in_bytes = pos size;
  uncompressed_body_size_in_bytes = pos size;
  magic = magic;
  extract = none;
}

-- One round of the legacy loop behind its two tests: the entry and the key that goes on.
unfoldable pub read_legacy_entry : ℕ → Reader (File × ℕ)
read_legacy_entry key = do
  encrypted_name_length ← read_trivial 4
  let name_length : ℕ = bit_xor encrypted_name_length key
  left ← remaining
  reject_if (name_length == 0 || ltb max_path_bytes name_length || ltb left name_length)
      extractor_read
  encrypted_name ← read_exact name_length
  let name : List ℕ = decode_name (advance key) encrypted_name
  let size_key : ℕ = key_after name_length (advance key)
  reject_if (has_nul name) extractor_read
  encrypted_size ← read_trivial 4
  let body_size : ℕ = bit_xor encrypted_size size_key
  body_offset ← position
  room ← remaining
  reject_if (ltb room body_size) extractor_read
  seek_absolute (pos (body_offset + body_size))
  pure (new_file name body_offset body_size (advance size_key), advance size_key)

-- `room` is max_entry_count - files.size(): at zero another entry is refused.
unfoldable pub legacy_loop : ℕ → List File → ℕ → Reader (List File)
legacy_loop zero files key = do
  left ← remaining
  choose (left == 0) (pure files) (fail extractor_read)
legacy_loop (suc room) files key = do
  left ← remaining
  choose (left == 0) (pure files)
      do (file, key') ← read_legacy_entry key; legacy_loop room (files ++ (file ∷ [])) key'

unfoldable pub list_legacy_files : Reader (List File)
list_legacy_files = legacy_loop max_entry_count [] legacy_initial_key

-- Byte i of a name, under byte i % 4 of the key.
unfoldable pub decode_ace_name : ℕ → ℕ → List ℕ → List ℕ
decode_ace_name magic i [] = []
decode_ace_name magic i (b ∷ bs) =
    bit_xor b (low_byte (magic / 2 ^ (8 * (i % 4)))) ∷ decode_ace_name magic (i + 1) bs

-- One round of the Ace loop behind its first test.
unfoldable pub read_ace_entry : ℕ → ℕ → ℕ → Reader File
read_ace_entry archive_size magic offset = do
  size_word ← read_trivial 4
  magic_word ← read_trivial 4
  name_word ← read_trivial 4
  let name_len : ℕ = bit_xor name_word magic
  name_position ← position
  reject_if (ltb max_path_bytes name_len || ltb (archive_size - name_position) name_len)
      extractor_read
  encrypted_name ← read_exact name_len
  pure (
      new_file (decode_ace_name magic 0 encrypted_name) offset (bit_xor size_word magic)
        (bit_xor magic_word magic))

-- `none` means that the fuel ran out.
unfoldable pub ace_loop : ℕ → ℕ → ℕ → List File → Reader (Option (List File))
ace_loop zero archive_size magic files = pure none
ace_loop (suc fuel) archive_size magic files = do
  offset_word ← read_trivial 4
  let offset : ℕ = bit_xor offset_word magic
  choose (offset == 0) (pure (some files)) do
    file ← read_ace_entry archive_size magic offset
    ace_loop fuel archive_size magic (files ++ (file ∷ []))

-- Each round reads sixteen bytes or more, so the size of the archive is fuel enough.
unfoldable pub list_ace_files : Reader (Option (List File))
list_ace_files = do
  archive_size ← size
  word ← read_trivial 4
  ace_loop (archive_size + 1) archive_size ((word * 9 + 3) % 2 ^ 32) []

unfoldable pub list_by_version : ℕ → Reader (Option (List File))
list_by_version version =
    choose (version == legacy_version) (do files ← list_legacy_files; pure (some files))
      (choose (version == ace_version) list_ace_files (fail extractor_read))

unfoldable pub list_entries : Reader (Option (List File))
list_entries = do
  seek_absolute (pos 0)
  header ← read_exact header_size
  version ← lift (validate_header header)
  list_by_version version

unfoldable pub list_files : Istream → Result (Option (List File))
list_files stream = with_stream list_entries stream

pub record ArchiveInfo : Type 0 where
  pub format : String
  pub compression : String
  pub comment : String

-- `get_archive_info` on the first bytes of the file, if the caller has them.
unfoldable pub get_archive_info : List ℕ → Result ArchiveInfo
get_archive_info [] =
    ok (record { format = "RPG Maker"; compression = "-"; comment = "RPG Maker archive" })
get_archive_info (b ∷ bs) = elim (validate_header (b ∷ bs)) [
  | throw e ↦ throw e
  | ok version ↦
      if version == legacy_version
      then ok (record { format = "RGSS"; compression = "-"; comment = "RPG Maker XP/VX" })
      else if version == ace_version
      then ok (record { format = "RGSS3"; compression = "-"; comment = "RPG Maker VX Ace" })
      else throw extractor_read
]
