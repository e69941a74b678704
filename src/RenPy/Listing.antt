-- ===== src/RenPy/Listing.antt =====
-- src/modules/renpy/renpy.cpp: the header of an RPA archive and the listing of its index.
use observer_modules.Prelude.{
  ℕ, ◌-◌, ◌*◌, List, [], ◌∷◌, ltb, leb, if◌then◌else◌, length, bytes_eq, Option, none, some,
}
use observer_modules.Prelude.Int.{ℤ, pos, negsuc, lt_ℤ}
use observer_modules.Failure.{extractor_read, runtime_error, out_of_range, Result, ok, throw}
use observer_modules.Stream.{
  Istream, Reader, pure, fail, lift, ◌>>=◌, ◌>>◌, reject_if, choose, size, seek_absolute,
  read_exact, with_stream,
}
use observer_modules.Extractor.{File}
use observer_modules.RenPy.Entries.{Decoder, plain, keyed, entries_of}
use observer_modules.RenPy.Number.{strtoll_hex}
use observer_modules.RenPy.Pickle.Value.{Value, Fields, as_dict}
use observer_modules.RenPy.Pickle.Run.{loads}
use observer_modules.RenPy.Pickle.Parser.{unexpected_end}

abbrev pub signature : List ℕ
signature = b'R' ∷ b'P' ∷ b'A' ∷ b'-' ∷ []

-- The test of `read_int64` behind `strtoll`: a number above zero.
unfoldable pub positive_int64 : Option ℤ → Result ℤ
positive_int64 none = throw (out_of_range "NumberReadNotANumberError")
positive_int64 (some n) =
    if lt_ℤ (pos 0) n then ok n else throw (out_of_range "NumberReadNotANumberError")

unfoldable pub read_int64 : Reader ℤ
read_int64 = do buffer ← read_exact 16; lift (positive_int64 (strtoll_hex buffer))

abbrev pub header_length : ℕ
header_length = 8

unfoldable pub parse_header : Reader (ℤ × Decoder)
parse_header = do
  seek_absolute (pos (length signature))
  version ← read_exact 3
  choose (bytes_eq version (b'2' ∷ b'.' ∷ b'0' ∷ []))
      (do seek_absolute (pos header_length); index_offset ← read_int64; pure (index_offset, plain))
      (choose (bytes_eq version (b'3' ∷ b'.' ∷ b'0' ∷ []))
        (do
          seek_absolute (pos header_length)
          index_offset ← read_int64
          encryption_key ← read_int64
          pure (index_offset, keyed encryption_key))
        (fail (runtime_error "Unsupported RPA version")))

-- 64 MiB, for the stored index and for the decompressed one.
abbrev pub max_index_size : ℕ
max_index_size = 64 * 1024 * 1024

-- Out of fuel would read as the end of the data.
unfoldable pub load_index : Option (Result Value) → Result Fields
load_index none = throw unexpected_end
load_index (some (throw e)) = throw e
load_index (some (ok root)) = as_dict root

-- `decompress_zlib` is src/core/compression/zlib_codec.h's: the bytes and the limit on its output.
module _ (decompress_zlib : List ℕ → ℕ → Result (List ℕ)) where
  unfoldable pub read_index : ℤ × Decoder → Reader (List File)
  unfolding load_index entries_of
  read_index (negsuc n, decoder) = fail extractor_read
  read_index (pos index_offset, decoder) = do
    archive_size ← size
    reject_if (leb archive_size index_offset) extractor_read
    seek_absolute (pos index_offset)
    let compressed_size : ℕ = archive_size - index_offset
    reject_if (ltb max_index_size compressed_size)
        (runtime_error "RPA compressed index exceeds the metadata budget")
    compressed ← read_exact compressed_size
    index ← lift (decompress_zlib compressed max_index_size)
    fields ← lift (load_index (loads index))
    lift (entries_of decoder fields)

  pub list_files : Istream → Result (List File)
  list_files = with_stream (parse_header >>= read_index)
