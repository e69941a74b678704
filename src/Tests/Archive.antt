-- ===== src/Tests/Archive.antt =====
-- src/archive.cpp with a module that lists one entry, `a/b`.
use observer_modules.Prelude.{none, ℕ, List, [], ◌∷◌, ◌≡◌, refl, some, true}
use observer_modules.Prelude.Int.{pos}
use observer_modules.Failure.{ok}
use observer_modules.Stream.{Istream}
use observer_modules.Extractor.{File}
use observer_modules.Archive.{
  Extractor, Archive, to_backslashes, normalise, translate, prepare_files,
}
use observer_modules.Archive.Listing.{IsPrepared, prepare_files-IsPrepared}

abbrev entry : List ℕ → File
entry path = record {
  path = path;
  header = [];
  offset = pos 0;
  compressed_body_size_in_bytes = pos 0;
  uncompressed_body_size_in_bytes = pos 0;
  magic = 0;
  extract = none;
}

abbrev extractor : Extractor (Unit {0})
extractor = record {
  get_signature = [];
  get_archive_info = λ stream bytes. (ok tt, 0);
  list_files = λ stream. (ok (entry (b'a' ∷ b'/' ∷ b'b' ∷ []) ∷ []), 2);
  decrypt = λ magic bytes. (magic, bytes);
}

abbrev source : Istream
source = record { content = 1 ∷ 2 ∷ []; cursor = 0 }

abbrev opened : Archive
opened = record { stream = some source; files = []; opened = true }

abbrev listed : Archive
listed = record {
  stream = some (record { content = 1 ∷ 2 ∷ []; cursor = 2 });
  files = entry (b'a' ∷ b'\\' ∷ b'b' ∷ []) ∷ [];
  opened = true;
}

prepare_files-opened : prepare_files extractor opened ≡ (ok tt, listed)
unfolding prepare_files translate normalise to_backslashes
prepare_files-opened = refl

prepare_files-IsPrepared_example : IsPrepared extractor opened (prepare_files extractor opened)
prepare_files-IsPrepared_example = prepare_files-IsPrepared extractor opened
