-- ===== src/Tests/Zanzarah.antt =====
-- src/modules/zanzarah/zanzarah.cpp on an archive of one entry, whose body carries both markers.
use observer_modules.Prelude.{none, [], ◌∷◌, ◌≡◌, refl, bytes_eq}
use observer_modules.Prelude.Int.{pos, ◌+ℤ◌, ◌-ℤ◌}
use observer_modules.Failure.{ok}
use observer_modules.Stream.{
  Istream, bounded_stream, size, position, remaining, seek_absolute, read_raw, read_exact,
  read_trivial,
}
use observer_modules.Extractor.{File}
use observer_modules.Zanzarah.{
  read_positive_or_zero_int32, read_positive_int32, new_file, read_entry, read_entries,
  strip_prefix, place, place_all, has_canonical_framing, all_framed, trim_suffix, trim_all,
  read_count, list_entries, list_files,
}
use observer_modules.Zanzarah.Bounds.{IsListing, list_files-IsListing}

abbrev archive : Istream
archive = record {
  content =
      0 ∷ 0 ∷ 0 ∷ 0 ∷ 1 ∷ 0 ∷ 0 ∷ 0 ∷ 1 ∷ 0 ∷ 0 ∷ 0 ∷ b'a' ∷ 0 ∷ 0 ∷ 0 ∷ 0 ∷ 8 ∷ 0 ∷ 0 ∷ 0 ∷ 1 ∷ 1
      ∷ 0 ∷ 0 ∷ 2 ∷ 2 ∷ 0 ∷ 0 ∷ [];
  cursor = 0;
}

abbrev entry : File
entry = record {
  path = b'a' ∷ [];
  header = [];
  offset = pos 25;
  compressed_body_size_in_bytes = pos 0;
  uncompressed_body_size_in_bytes = pos 0;
  magic = 0;
  extract = none;
}

list_files_archive : list_files archive ≡ ok (entry ∷ [])
unfolding list_files list_entries read_count read_entries read_entry read_positive_int32
    read_positive_or_zero_int32 new_file place place_all strip_prefix has_canonical_framing
    all_framed trim_suffix trim_all bounded_stream size position remaining seek_absolute read_raw
    read_exact read_trivial bytes_eq ◌+ℤ◌ ◌-ℤ◌
list_files_archive = refl

list_files-IsListing_example : IsListing archive.content 29 (entry ∷ [])
list_files-IsListing_example = list_files-IsListing archive (entry ∷ []) list_files_archive
