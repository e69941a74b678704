-- ===== src/Archive.antt =====
-- src/archive.cpp: the object that opens a file with a module's extractor, lists it once and
-- extracts its entries.
pub mod Extract
pub mod Rounds
pub mod Copy
pub mod Total
pub mod Listing
use observer_modules.Prelude.{
  ℕ, zero, suc, ◌+◌, ◌-◌, ◌*◌, ◌/◌, ◌≡◌, Bool, true, false, not, ◌&&◌, List, [], ◌∷◌, ◌++◌, min,
  ltb, ◌==◌, if◌then◌else◌, length, take, drop, get_elem?, bytes_eq, Option, none, some,
}
use observer_modules.Prelude.Int.{ℤ, pos, negsuc}
use observer_modules.Failure.{
  Exception, extractor_read, archive_read, archive_write, ios_failure, runtime_error, out_of_range,
  Result, ok, throw,
}
use observer_modules.Stream.{Istream}
use observer_modules.Extractor.{File, Progress, Transfer, Handler}

-- What archive.cpp calls of a module: `get_signature`, `get_archive_info` on the first bytes,
-- `list_files` and `decrypt`. A module is one value of this type. A call that gets the stream also
-- gives the position in which it leaves it.
pub record Extractor (Info : Type 0) : Type 0 where
  pub get_signature : List ℕ
  pub get_archive_info : Istream → List ℕ → Result Info × ℕ
  pub list_files : Istream → Result (List File) × ℕ
  pub decrypt : ℕ → List ℕ → ℕ × List ℕ

-- `stream` is the open source, if there is one.
pub record Archive : Type 0 where
  pub stream : Option Istream
  pub files : List File
  pub opened : Bool

unfoldable pub starts_with_bytes : List ℕ → List ℕ → Bool
starts_with_bytes bytes signature =
    if ltb (length bytes) (length signature)
    then false
    else bytes_eq signature (take (length signature) bytes)

abbrev pub is_empty {ℓ} : {A : Type ℓ} → List A → Bool
is_empty [] = true
is_empty (x ∷ xs) = false

-- std::ranges::replace(path, '/', '\\')
unfoldable pub to_backslashes : List ℕ → List ℕ
to_backslashes [] = []
to_backslashes (b ∷ bs) = (if b == b'/' then b'\\' else b) ∷ to_backslashes bs

unfoldable pub normalise : List File → List File
normalise [] = []
normalise (f ∷ fs) = record f { path = to_backslashes f.path } ∷ normalise fs

abbrev pub at_position : Istream → ℕ → Istream
at_position stream cursor = record { content = stream.content; cursor = cursor }

-- The archive behind a call of `get_archive_info`; the old list and stream are gone either way.
unfoldable pub opened_with : {Info : Type 0} → Istream → Result Info × ℕ → Result Info × Archive
opened_with stream (ok info, cursor) =
    (ok info, record { stream = some (at_position stream cursor); files = []; opened = true })
opened_with stream (throw e, cursor) =
    (throw e, record { stream = some (at_position stream cursor); files = []; opened = false })

-- The handler of `extractor::read_error`.
unfoldable pub as_read_error : Exception → Exception
as_read_error extractor_read = archive_read
as_read_error e = e

-- The listing, with the module's read error as the archive's.
unfoldable pub translate : Result (List File) → Result (List File)
unfolding as_read_error
translate (ok files) = ok (normalise files)
translate (throw e) = throw (as_read_error e)

-- The archive behind a call of `list_files`: the stream has moved, and a listing is kept.
unfoldable pub listed_with :
    Archive → Istream → Result (List File) × ℕ → Result (Unit {0}) × Archive
unfolding translate
listed_with self stream (listing, cursor) = elim (translate listing) [
  | throw e ↦ (throw e, record self { stream = some (at_position stream cursor) })
  | ok files ↦ (ok tt, record self { stream = some (at_position stream cursor); files = files })
]

module _ {Info : Type 0} (extractor : Extractor Info) where
  -- `source` is what the path names, `none` if it cannot be opened.
  unfoldable pub open_archive : Archive → Option Istream → List ℕ → Result Info × Archive
  open_archive self source bytes =
      if not (is_empty bytes) && not (starts_with_bytes bytes extractor.get_signature)
      then (throw (runtime_error "Signature mismatch"), self)
      else elim source [
        | none ↦ (throw (runtime_error "Failed to open file"), self)
        | some stream ↦ opened_with stream (extractor.get_archive_info stream bytes)
      ]

  unfoldable pub prepare_files : Archive → Result (Unit {0}) × Archive
  unfolding listed_with
  prepare_files self =
      if not self.opened
      then (throw archive_read, self)
      else if not (is_empty self.files)
      then (ok tt, self)
      else elim self.stream [
        | none ↦ (throw archive_read, self)
        | some stream ↦ listed_with self stream (extractor.list_files stream)
      ]

unfoldable pub get_file : Archive → ℕ → Result File
get_file self index = elim (get_elem? self.files index) [
  | none ↦ throw (out_of_range "Index out of range")
  | some file ↦ ok file
]
