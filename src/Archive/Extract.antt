-- ===== src/Archive/Extract.antt =====
-- src/archive.cpp: `extract_file`, with the loop over the body and the handlers of entries.
use observer_modules.Prelude.{
  ℕ, zero, suc, ◌+◌, ◌-◌, ◌*◌, ◌/◌, Bool, not, List, [], ◌∷◌, ◌++◌, min, ltb, ◌==◌, if◌then◌else◌,
  length, take, drop, Option, none, some,
}
use observer_modules.Prelude.Int.{ℤ, pos, negsuc}
use observer_modules.Failure.{
  Exception, extractor_read, archive_read, archive_write, ios_failure, ok, throw,
}
use observer_modules.Stream.{Istream}
use observer_modules.Extractor.{File, Progress, Transfer, Handler}
use observer_modules.Archive.{Archive, get_file}

abbrev pub buffer_size : ℕ
buffer_size = 128 * 1024

-- How an extraction stands: it is through, it has thrown, or the fuel of the model ran out.
pub data Status : Type 0 where
  done : Status
  failed : Exception → Status
  stuck : Status

-- What has been written, and the calls of `report_progress`.
pub record Extraction : Type 0 where
  pub status : Status
  pub written : List ℕ
  pub reports : List ℕ

-- The path of the destination: whether it can be opened, how many bytes it takes in all, and whether
-- the stream closes without a failure.
pub record Destination : Type 0 where
  pub opens : Bool
  pub capacity : ℕ
  pub closes : Bool

-- What stands at the path at the end.
pub data Output : Type 0 where
  untouched removed : Output
  holds : List ℕ → Output

pub record Extracted : Type 0 where
  pub status : Status
  pub output : Output
  pub reports : List ℕ

-- One `output.write`: the destination takes `capacity` bytes in all.
abbrev pub overflows : ℕ → List ℕ → List ℕ → Bool
overflows capacity written bytes = ltb capacity (length written + length bytes)

-- The outer handler of the loop.
unfoldable pub as_write_error : Exception → Exception
as_write_error ios_failure = archive_write
as_write_error e = e

-- A call of `report_progress`, and what follows it.
unfoldable pub reported : Option Exception → List ℕ → List ℕ → Extraction → Extraction
unfolding as_write_error
reported none written reports rest = rest
reported (some e) written reports rest = record {
  status = failed (as_write_error e);
  written = written;
  reports = reports;
}

module _ (decrypt : ℕ → List ℕ → ℕ × List ℕ) (content : List ℕ) (capacity : ℕ)
    (report_progress : Progress) where
  -- `while (bytes_left > 0)`, at the position `at` of the source.
  unfoldable pub copy_loop : ℕ → ℕ → ℕ → ℕ → List ℕ → List ℕ → Extraction
  unfolding reported
  copy_loop fuel at magic zero written reports = record {
    status = done;
    written = written;
    reports = reports;
  }
  copy_loop zero at magic (suc left) written reports = record {
    status = stuck;
    written = written;
    reports = reports;
  }
  copy_loop (suc fuel) at magic (suc left) written reports =
      let chunk_size : ℕ = min (suc left) buffer_size in
      let buffer : List ℕ = take chunk_size (drop at content) in
      let magic' : ℕ = (decrypt magic buffer).0 in
      let plain : List ℕ = (decrypt magic buffer).1 in
      let rest : Extraction =
        copy_loop fuel (at + chunk_size) magic' (suc left - chunk_size) (written ++ plain)
          (reports ++ chunk_size ∷ []) in
      if not (length buffer == chunk_size)
      then record { status = failed archive_read; written = written; reports = reports }
      else if overflows capacity written plain
      then record { status = failed archive_write; written = written; reports = reports }
      else reported (report_progress reports chunk_size) (written ++ plain)
          (reports ++ chunk_size ∷ []) rest

  -- The count of the loop: a negative size is no round at all.
  unfoldable pub copy_body : ℕ → ℕ → ℤ → List ℕ → Extraction
  unfolding copy_loop
  copy_body at magic (negsuc n) written = record { status = done; written = written; reports = [] }
  copy_body at magic (pos n) written = copy_loop (n / buffer_size + 1) at magic n written []

  -- `stream_->seekg(file.offset)`
  unfoldable pub copy_from : ℤ → ℕ → ℤ → List ℕ → Extraction
  unfolding copy_body
  copy_from (negsuc n) magic size written = record {
    status = failed archive_read;
    written = written;
    reports = [];
  }
  copy_from (pos at) magic size written = copy_body at magic size written

  -- The header and the body of an entry with no handler of its own.
  unfoldable pub copy_entry : File → Extraction
  unfolding copy_from
  copy_entry file =
      if overflows capacity [] file.header
      then record { status = failed archive_write; written = []; reports = [] }
      else copy_from file.offset file.magic file.compressed_body_size_in_bytes file.header

-- `output.close()` behind the loop: what was written stays, also behind an exception.
unfoldable pub closed : Bool → Extraction → Extracted
closed closes extraction = record {
  status = elim extraction.status [
    | done ↦ if closes then done else failed archive_write
    | failed e ↦ failed e
    | stuck ↦ stuck
  ];
  output = holds extraction.written;
  reports = extraction.reports;
}

-- The exceptions of a handler as the archive's.
unfoldable pub as_archive_error : Exception → Exception
as_archive_error extractor_read = archive_read
as_archive_error ios_failure = archive_write
as_archive_error e = e

-- Behind a handler: any failure, also one of the close, removes the partial destination.
unfoldable pub handled : Bool → Transfer → Option Exception → Extracted
unfolding as_archive_error
handled closes transfer (some e) = record {
  status = failed (as_archive_error e);
  output = removed;
  reports = transfer.reports;
}
handled closes transfer none = record {
  status = if closes then done else failed archive_write;
  output = if closes then holds transfer.written else removed;
  reports = transfer.reports;
}

module _ (decrypt : ℕ → List ℕ → ℕ × List ℕ) (destination : Destination)
    (report_progress : Progress) where
  unfoldable pub extract_with : File → Istream → Option Handler → Extracted
  unfolding closed copy_entry handled
  extract_with file stream none =
      closed destination.closes
        (copy_entry decrypt stream.content destination.capacity report_progress file)
  extract_with file stream (some extract) =
      let transfer : Transfer = extract stream destination.capacity report_progress in
      handled destination.closes transfer transfer.failure

  -- Where the destination is open. An archive with a listing has a stream.
  unfoldable pub extract_from : File → Option Istream → Extracted
  unfolding extract_with
  extract_from file none = record { status = failed archive_read; output = holds []; reports = [] }
  extract_from file (some stream) = extract_with file stream file.extract

  abbrev pub refused : Exception → Extracted
  refused e = record { status = failed e; output = untouched; reports = [] }

  -- The position in which an extraction leaves the stream is not kept: the loop seeks before it reads.
  unfoldable pub extract_file : Archive → ℕ → Extracted
  unfolding get_file extract_from
  extract_file self index = elim (get_file self index) [
    | throw e ↦ refused e
    | ok file ↦ if destination.opens then extract_from file self.stream else refused archive_write
  ]
