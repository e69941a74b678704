-- ===== src/Tests/RpgMaker.antt =====
-- src/modules/rpgmaker/rpgmaker.cpp: runs of the cipher and of the legacy listing.
use observer_modules.Prelude.{ℕ, List, [], ◌∷◌, ◌++◌, ◌≡◌, refl, take, drop}
use observer_modules.Prelude.Int.{pos}
use observer_modules.Failure.{ok, user_interrupt}
use observer_modules.Stream.{BoundedStream}
use observer_modules.Extractor.{File, Progress}
use observer_modules.Archive.{Archive}
use observer_modules.Archive.Extract.{
  Destination, extract_file, done, stuck, failed, holds, removed,
}
use observer_modules.Archive.Rounds.{total}
use observer_modules.Archive.Total.{extract_file_total}
use observer_modules.RpgMaker.{list_files}
use observer_modules.RpgMaker.Total.{list_files_total}
use observer_modules.Stream.{Istream}
use observer_modules.Prelude.{◌≢◌, none, some, true}
use observer_modules.Archive.Copy.{extract_file-decrypt}
use observer_modules.RpgMaker.Cipher.{decrypt}
use observer_modules.RpgMaker.Cipher.Pieces.{in_pieces, decrypt-append}
use observer_modules.RpgMaker.Extract.{decrypt-IsChunked}
use native.Mathlib.Omega.{arith}

abbrev word : List ℕ
word = 1 ∷ 2 ∷ 3 ∷ 4 ∷ []

abbrev tail : List ℕ
tail = 5 ∷ 6 ∷ []

decrypt-append_example : decrypt 7 (word ++ tail) ≡ in_pieces decrypt 7 word tail
decrypt-append_example = decrypt-append 7 word tail refl

abbrev entry : File
entry = record {
  path = b'a' ∷ [];
  header = b'h' ∷ [];
  offset = pos 1;
  compressed_body_size_in_bytes = pos 5;
  uncompressed_body_size_in_bytes = pos 5;
  magic = 7;
  extract = none;
}

abbrev body : List ℕ
body = 0 ∷ word ++ tail

abbrev opened : Archive
opened = record {
  stream = some (record { content = body; cursor = 3 });
  files = entry ∷ [];
  opened = true;
}

abbrev roomy : Destination
roomy = record { opens = true; capacity = 10; closes = true }

-- The callback throws nothing.
abbrev quiet : Progress
quiet reports size = none

extract_file-decrypt_example :
    ((extract_file decrypt roomy quiet opened 0).status ≡ done)
    × ((extract_file decrypt roomy quiet opened 0).output
        ≡ holds (b'h' ∷ [] ++ (decrypt 7 (take 5 (drop 1 body))).1))
    × (total (extract_file decrypt roomy quiet opened 0).reports ≡ 5)
extract_file-decrypt_example =
    extract_file-decrypt decrypt roomy quiet opened 0 entry (record { content = body; cursor = 3 })
      1 5 decrypt-IsChunked (λ reports size. refl) refl refl refl refl refl refl refl (omega arith)
      (omega arith)

-- A handler that the host interrupts.
abbrev interrupted : File
interrupted = record entry {
  extract = some (λ stream capacity progress. record {
    failure = some user_interrupt;
    written = b'h' ∷ [];
    reports = 1 ∷ [];
  });
}

extract_file-interrupted :
    extract_file decrypt roomy quiet (record opened { files = interrupted ∷ [] }) 0
    ≡ record { status = failed user_interrupt; output = removed; reports = 1 ∷ [] }
unfolding extract_file
extract_file-interrupted = refl

-- Behind the eight bytes of a header: a name of one byte, `a`, and a body of two bytes.
abbrev at : ℕ → BoundedStream
at cursor = record {
  content =
      0x52 ∷ 0x47 ∷ 0x53 ∷ 0x53 ∷ 0x41 ∷ 0x44 ∷ 0 ∷ 1 ∷ 255 ∷ 202 ∷ 173 ∷ 222 ∷ 148 ∷ 180 ∷ 218 ∷ 67
      ∷ 159 ∷ 1 ∷ 2 ∷ [];
  cursor = cursor;
  size = 19;
}

abbrev listed : File
listed = record {
  path = b'a' ∷ [];
  header = [];
  offset = pos 17;
  compressed_body_size_in_bytes = pos 2;
  uncompressed_body_size_in_bytes = pos 2;
  magic = 0x5ADAFAFD;
  extract = none;
}

extract_file_total_example : (extract_file decrypt roomy quiet opened 0).status ≢ stuck
extract_file_total_example = extract_file_total decrypt roomy quiet opened 0

-- An Ace archive whose directory is its end mark: the seed 0 gives the key 3.
abbrev ace : Istream
ace = record {
  content = 0x52 ∷ 0x47 ∷ 0x53 ∷ 0x53 ∷ 0x41 ∷ 0x44 ∷ 0 ∷ 3 ∷ 0 ∷ 0 ∷ 0 ∷ 0 ∷ 3 ∷ 0 ∷ 0 ∷ 0 ∷ [];
  cursor = 0;
}

list_files_total_example : list_files ace ≢ ok none
list_files_total_example = list_files_total ace
