-- ===== src/Archive/Total.antt =====
-- src/archive.cpp: the end of the extraction loop.
use observer_modules.Prelude.{
  ℕ, zero, suc, ◌+◌, ◌-◌, ◌*◌, ◌/◌, ◌≤◌, ◌≡◌, refl, ◌≢◌, Option, none, some, Bool, true, false, not,
  List, [], ◌∷◌, ◌++◌, min, if◌then◌else◌, ◌==◌, length, take, drop, arith,
}
use observer_modules.Prelude.Int.{ℤ, pos, negsuc}
use observer_modules.Failure.{Exception, Result, ok, throw, archive_read, archive_write}
use observer_modules.Stream.{Istream}
use observer_modules.Extractor.{File, Progress, Transfer, Handler}
use observer_modules.Archive.{Archive, get_file}
use observer_modules.Archive.Extract.{
  Status, Extraction, Extracted, Destination, done, stuck, failed, buffer_size, overflows, reported,
  as_write_error, copy_loop, copy_body, copy_from, copy_entry, closed, handled, extract_with,
  extract_from, refused, extract_file,
}

record Ends (extraction : Extraction) : Type 0 where
  ends : extraction.status ≢ stuck

failed-Ends :
    (e : Exception) (w rs : List ℕ) → Ends (record { status = failed e; written = w; reports = rs })
failed-Ends e w rs = record { ends = λ h. cc }

Ends-if : (b : Bool) {x y : Extraction} → Ends x → Ends y → Ends (if b then x else y)
Ends-if true h k = h
Ends-if false h k = k

reported-Ends :
    (o : Option Exception) (w rs : List ℕ) {rest : Extraction}
    → Ends rest
    → Ends (reported o w rs rest)
unfolding reported
reported-Ends none w rs h = h
reported-Ends (some e) w rs h = failed-Ends (as_write_error e) w rs

module _ (decrypt : ℕ → List ℕ → ℕ × List ℕ) (content : List ℕ) (capacity : ℕ)
    (report_progress : Progress) where
  copy_loop-Ends :
      (fuel at magic left : ℕ) (written reports : List ℕ)
      → left ≤ fuel * buffer_size
      → Ends (copy_loop decrypt content capacity report_progress fuel at magic left written reports)
  unfolding copy_loop
  copy_loop-Ends fuel at magic zero written reports h = record { ends = λ e. cc }
  copy_loop-Ends zero at magic (suc left) written reports h = absurd (omega arith)
  copy_loop-Ends (suc fuel) at magic (suc left) written reports h =
      Ends-if
        (not (
          length (take (min (suc left) buffer_size) (drop at content))
          == min (suc left) buffer_size))
        (failed-Ends archive_read written reports)
        (Ends-if
          (overflows capacity written
            (decrypt magic (take (min (suc left) buffer_size) (drop at content))).1)
          (failed-Ends archive_write written reports)
          (reported-Ends (report_progress reports (min (suc left) buffer_size)) _ _ (
            copy_loop-Ends fuel (at + min (suc left) buffer_size)
              (decrypt magic (take (min (suc left) buffer_size) (drop at content))).0
              (suc left - min (suc left) buffer_size)
              (written ++ (decrypt magic (take (min (suc left) buffer_size) (drop at content))).1)
              (reports ++ min (suc left) buffer_size ∷ []) (omega arith))))

  copy_from-Ends :
      (offset : ℤ) (magic : ℕ) (size : ℤ) (written : List ℕ)
      → Ends (copy_from decrypt content capacity report_progress offset magic size written)
  unfolding copy_from copy_body
  copy_from-Ends (negsuc n) magic size written = record { ends = λ e. cc }
  copy_from-Ends (pos at) magic (negsuc n) written = record { ends = λ e. cc }
  copy_from-Ends (pos at) magic (pos n) written =
      copy_loop-Ends (n / buffer_size + 1) at magic n written [] (omega arith)

  copy_entry-Ends : (file : File) → Ends (copy_entry decrypt content capacity report_progress file)
  unfolding copy_entry
  copy_entry-Ends file =
      Ends-if (overflows capacity [] file.header) (failed-Ends _ _ _)
        (copy_from-Ends file.offset file.magic file.compressed_body_size_in_bytes file.header)

record AllEnds (extracted : Extracted) : Type 0 where
  ends : extracted.status ≢ stuck

closed-AllEnds :
    (closes : Bool) (extraction : Extraction) → Ends extraction → AllEnds (closed closes extraction)
unfolding closed
closed-AllEnds closes extraction h = record { ends = go closes extraction.status h.ends }
  where
    go :
        (b : Bool) (status : Status)
        → status ≢ stuck
        → (elim status [
          | done ↦ if b then done else failed archive_write
          | failed e ↦ failed e
          | stuck ↦ stuck
        ])
          ≢ stuck
    go true done k e = cc
    go false done k e = cc
    go b (failed x) k e = cc
    go b stuck k e = k e

handled-AllEnds :
    (closes : Bool) (transfer : Transfer) (o : Option Exception)
    → AllEnds (handled closes transfer o)
unfolding handled
handled-AllEnds closes transfer (some x) = record { ends = λ e. cc }
handled-AllEnds true transfer none = record { ends = λ e. cc }
handled-AllEnds false transfer none = record { ends = λ e. cc }

module _ (decrypt : ℕ → List ℕ → ℕ × List ℕ) (destination : Destination)
    (report_progress : Progress) where
  extract_from-AllEnds :
      (file : File) (stream : Option Istream) (extract : Option Handler)
      → file.extract ≡ extract
      → AllEnds (extract_from decrypt destination report_progress file stream)
  unfolding extract_from extract_with
  extract_from-AllEnds file none extract h = record { ends = λ e. cc }
  extract_from-AllEnds file (some stream) none h = rw h (
      closed-AllEnds destination.closes _
        (copy_entry-Ends decrypt stream.content destination.capacity report_progress file))
  extract_from-AllEnds file (some stream) (some extract) h = rw h (
      handled-AllEnds destination.closes (extract stream destination.capacity report_progress)
        (extract stream destination.capacity report_progress).failure)

  -- Whatever the archive, the index, the destination and the callback, an extraction comes to its end or
  -- to an exception: one round more than there are whole buffers in the body is enough. A handler that
  -- an entry has of its own is taken to end.
  pub extract_file_total :
      (self : Archive) (index : ℕ)
      → (extract_file decrypt destination report_progress self index).status ≢ stuck
  unfolding extract_file
  extract_file_total self index = (go (get_file self index) destination.opens).ends
    where
      go :
          (r : Result File) (opens : Bool)
          → AllEnds (elim r [
            | throw e ↦ refused decrypt destination report_progress e
            | ok file ↦
                if opens
                then extract_from decrypt destination report_progress file self.stream
                else refused decrypt destination report_progress archive_write
          ])
      go (throw x) opens = record { ends = λ e. cc }
      go (ok file) true = extract_from-AllEnds file self.stream file.extract refl
      go (ok file) false = record { ends = λ e. cc }
