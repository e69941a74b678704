-- ===== src/Zanzarah.antt =====
-- src/modules/zanzarah/zanzarah.cpp: the directory of a Zanzarah archive.
pub mod Directory
pub mod Placed
pub mod Bounds
use observer_modules.Prelude.{
  none, ℕ, zero, suc, ◌+◌, ◌*◌, ◌/◌, Bool, true, false, not, ◌||◌, List, [], ◌∷◌, ltb, ◌==◌,
  if◌then◌else◌, length, take, drop, bytes_eq,
}
use observer_modules.Prelude.Int.{ℤ, pos, negsuc, ◌+ℤ◌, ◌-ℤ◌, lt_ℤ}
use observer_modules.Prelude.Words.{to_int32, to_uint64}
use observer_modules.Failure.{extractor_read, Result, ok, throw}
use observer_modules.Stream.{
  Istream, Reader, pure, lift, ◌>>=◌, ◌>>◌, reject_if, choose, size, position, remaining,
  seek_absolute, read_exact, read_trivial, with_stream,
}
use observer_modules.Extractor.{File, max_path_bytes, max_entry_count}

abbrev pub signature : List ℕ
signature = 0 ∷ 0 ∷ 0 ∷ 0 ∷ []

abbrev pub is_negative : ℤ → Bool
is_negative value = lt_ℤ value (pos 0)

unfoldable pub read_positive_or_zero_int32 : Reader ℤ
read_positive_or_zero_int32 = do
  word ← read_trivial 4
  reject_if (is_negative (to_int32 word)) extractor_read
  pure (to_int32 word)

abbrev pub is_zero : ℤ → Bool
is_zero (pos n) = n == 0
is_zero (negsuc n) = false

unfoldable pub read_positive_int32 : Reader ℤ
read_positive_int32 = do
  value ← read_positive_or_zero_int32
  reject_if (is_zero value) extractor_read
  pure value

abbrev pub attr_size : ℤ
attr_size = pos 4

-- The entry of a directory record. An offset counts from the end of the directory.
unfoldable pub new_file : List ℕ → ℤ → ℤ → File
new_file path block_offset block_size = record {
  path = path;
  header = [];
  offset = block_offset +ℤ attr_size;
  compressed_body_size_in_bytes = block_size -ℤ attr_size;
  uncompressed_body_size_in_bytes = block_size -ℤ attr_size;
  magic = 0;
  extract = none;
}

-- One round of the directory loop.
unfoldable pub read_entry : Reader File
read_entry = do
  path_len ← read_positive_int32
  left ← remaining
  reject_if (ltb max_path_bytes (to_uint64 path_len) || ltb left (to_uint64 path_len))
      extractor_read
  path ← read_exact (to_uint64 path_len)
  block_offset ← read_positive_or_zero_int32
  block_size ← read_positive_int32
  reject_if (lt_ℤ block_size attr_size) extractor_read
  pure (new_file path block_offset block_size)

unfoldable pub read_entries : ℕ → Reader (List File)
read_entries zero = pure []
read_entries (suc n) = do entry ← read_entry; rest ← read_entries n; pure (entry ∷ rest)

abbrev pub relative_prefix : List ℕ
relative_prefix = b'.' ∷ b'.' ∷ b'\\' ∷ []

unfoldable pub strip_prefix : List ℕ → List ℕ
strip_prefix path =
    if bytes_eq (take (length relative_prefix) path) relative_prefix
    then drop (length relative_prefix) path
    else path

-- One round of the loop over `files`: the bound on the extent, then the absolute offset.
unfoldable pub place : ℕ → ℤ → File → Result File
place body_position body_bytes file =
    if lt_ℤ body_bytes file.offset
      || lt_ℤ (body_bytes -ℤ file.offset) file.compressed_body_size_in_bytes
    then throw extractor_read
    else ok
        (record file { offset = file.offset +ℤ pos body_position; path = strip_prefix file.path })

unfoldable pub place_all : ℕ → ℤ → List File → Result (List File)
place_all body_position body_bytes [] = ok []
place_all body_position body_bytes (file ∷ files) = elim (place body_position body_bytes file) [
  | throw e ↦ throw e
  | ok placed ↦ elim (place_all body_position body_bytes files) [
    | throw e ↦ throw e
    | ok rest ↦ ok (placed ∷ rest)
  ]
]

abbrev pub framing_marker_size : ℤ
framing_marker_size = pos 4

abbrev pub framing_prefix_marker : ℕ
framing_prefix_marker = 0x101

abbrev pub framing_suffix_marker : ℕ
framing_suffix_marker = 0x202

unfoldable pub has_canonical_framing : File → Reader Bool
has_canonical_framing entry =
    choose (lt_ℤ entry.compressed_body_size_in_bytes framing_marker_size) (pure false) do
      seek_absolute (entry.offset -ℤ framing_marker_size)
      first ← read_trivial 4
      choose (not (first == framing_prefix_marker)) (pure false) do
        seek_absolute (entry.offset +ℤ entry.compressed_body_size_in_bytes -ℤ framing_marker_size)
        last ← read_trivial 4
        pure (last == framing_suffix_marker)

-- `std::ranges::all_of`, which stops at the first entry that fails.
unfoldable pub all_framed : List File → Reader Bool
all_framed [] = pure true
all_framed (entry ∷ rest) = do
  framed ← has_canonical_framing entry
  choose framed (all_framed rest) (pure false)

unfoldable pub trim_suffix : File → File
trim_suffix entry = record entry {
  compressed_body_size_in_bytes = entry.compressed_body_size_in_bytes -ℤ framing_marker_size;
  uncompressed_body_size_in_bytes = entry.uncompressed_body_size_in_bytes -ℤ framing_marker_size;
}

unfoldable pub trim_all : List File → List File
trim_all [] = []
trim_all (entry ∷ rest) = trim_suffix entry ∷ trim_all rest

-- sizeof(std::int32_t) * 3 + 1
abbrev pub minimum_entry_metadata_bytes : ℕ
minimum_entry_metadata_bytes = 4 * 3 + 1

-- The count of entries, and the bounds that it must keep before anything is reserved.
unfoldable pub read_count : Reader ℕ
read_count = do
  seek_absolute (pos (length signature))
  count ← read_positive_int32
  left ← remaining
  reject_if
      (ltb max_entry_count (to_uint64 count)
        || ltb (left / minimum_entry_metadata_bytes) (to_uint64 count))
      extractor_read
  pure (to_uint64 count)

unfoldable pub list_entries : Reader (List File)
list_entries = do
  file_count ← read_count
  files ← read_entries file_count
  archive_size ← size
  body_position ← position
  placed ← lift (place_all body_position (pos archive_size -ℤ pos body_position) files)
  framed ← all_framed placed
  pure (if framed then trim_all placed else placed)

unfoldable pub list_files : Istream → Result (List File)
list_files stream = with_stream list_entries stream
