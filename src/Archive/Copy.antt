-- ===== src/Archive/Copy.antt =====
-- archive.cpp: the extraction of an entry without a handler of its own.
use observer_modules.Prelude.{
  ℕ, ◌+◌, ◌/◌, ◌≤◌, ◌≡◌, true, none, some, get_elem?, refl, ap, List, [], ◌++◌, arith, length, take,
  drop,
}
use observer_modules.Prelude.Int.{pos}
use observer_modules.Stream.{Istream}
use observer_modules.Extractor.{File, Progress}
use observer_modules.Archive.{Archive, get_file}
use observer_modules.Archive.Extract.{
  Extraction, Destination, holds, buffer_size, done, copy_body, copy_from, copy_entry, closed,
  extract_with, extract_from, extract_file,
}
use observer_modules.Archive.Rounds.{IsChunked, total, copy_loop-Copies}

module _ (decrypt : ℕ → List ℕ → ℕ × List ℕ) (laws : IsChunked decrypt) (content : List ℕ)
    (capacity : ℕ) (report_progress : Progress)
    (quiet : (reports : List ℕ) (n : ℕ) → report_progress reports n ≡ none) where
  copy_entry-Copies :
      (file : File) (at n : ℕ)
      → file.offset ≡ pos at
      → file.compressed_body_size_in_bytes ≡ pos n
      → at + n ≤ length content
      → length file.header + n ≤ capacity
      → ((copy_entry decrypt content capacity report_progress file).status ≡ done)
        × ((copy_entry decrypt content capacity report_progress file).written
            ≡ file.header ++ (decrypt file.magic (take n (drop at content))).1)
        × (total (copy_entry decrypt content capacity report_progress file).reports ≡ n)
  unfolding copy_entry copy_from copy_body
  copy_entry-Copies file at n o s h k = ground (
    arith,
    copy_loop-Copies decrypt laws content capacity report_progress quiet (n / buffer_size + 1) at
        file.magic n file.header [],
  )

-- What an extraction leaves, if `copy_entry` is through.
closed_done :
    (extraction : Extraction) (bytes : List ℕ) (n : ℕ)
    → (extraction.status ≡ done) × (extraction.written ≡ bytes) × (total extraction.reports ≡ n)
    → ((closed true extraction).status ≡ done)
      × ((closed true extraction).output ≡ holds bytes)
      × (total (closed true extraction).reports ≡ n)
unfolding closed
closed_done extraction bytes n (s, w, r) = (rw s refl, ap holds w, r)

extract_file-closed :
    (decrypt : ℕ → List ℕ → ℕ × List ℕ) (destination : Destination) (report_progress : Progress)
    (self : Archive) (index : ℕ) (file : File) (stream : Istream)
    → get_elem? self.files index ≡ some file
    → destination.opens ≡ true
    → file.extract ≡ none
    → self.stream ≡ some stream
    → extract_file decrypt destination report_progress self index
      ≡ closed destination.closes
          (copy_entry decrypt stream.content destination.capacity report_progress file)
unfolding extract_file get_file extract_from extract_with
extract_file-closed decrypt destination report_progress self index file stream found opens own
      open_stream =
    ground (arith, found, opens, own, open_stream)

-- Given: the index is that of an entry without a handler of its own, whose body lies in the source; a
-- destination that opens, closes and has room for the entry; a callback that throws nothing; and a
-- module whose `decrypt` keeps the count of bytes, gives nothing for nothing, and may be cut behind
-- whole buffers of 128 KiB. Then the extraction is through, the destination holds the header and behind
-- it the body as one run of `decrypt` gives it, and the reported sizes add up to that of the body.
pub extract_file-decrypt :
    (decrypt : ℕ → List ℕ → ℕ × List ℕ) (destination : Destination) (report_progress : Progress)
    (self : Archive) (index : ℕ) (file : File) (stream : Istream) (at n : ℕ)
    → IsChunked decrypt
    → ((reports : List ℕ) (size : ℕ) → report_progress reports size ≡ none)
    → destination.opens ≡ true
    → destination.closes ≡ true
    → get_elem? self.files index ≡ some file
    → file.extract ≡ none
    → self.stream ≡ some stream
    → file.offset ≡ pos at
    → file.compressed_body_size_in_bytes ≡ pos n
    → at + n ≤ length stream.content
    → length file.header + n ≤ destination.capacity
    → ((extract_file decrypt destination report_progress self index).status ≡ done)
      × ((extract_file decrypt destination report_progress self index).output
          ≡ holds (file.header ++ (decrypt file.magic (take n (drop at stream.content))).1))
      × (total (extract_file decrypt destination report_progress self index).reports ≡ n)
extract_file-decrypt decrypt destination report_progress self index file stream at n laws quiet
      opens closes found own open_stream o s h k =
    rw
      (
        extract_file-closed decrypt destination report_progress self index file stream found opens
            own open_stream,
        closes,
      )
      (closed_done (copy_entry decrypt stream.content destination.capacity report_progress file) _ n
        (copy_entry-Copies decrypt laws stream.content destination.capacity report_progress quiet
          file at n o s h k))
