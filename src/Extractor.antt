-- ===== src/Extractor.antt =====
-- src/modules/extractor.h, src/core/archive_limits.h: what a module's listing returns, and the
-- limits that every listing keeps.
use observer_modules.Prelude.{ℕ, ◌*◌, ◌-◌, ◌≡◌, List, Option}
use observer_modules.Failure.{Exception}
use observer_modules.Stream.{Istream}
use observer_modules.Prelude.Int.{ℤ, pos, ◌+ℤ◌, ◌≤ℤ◌}

-- `report_progress`: the exception of a call, if it throws one, by the sizes that were reported before
-- it and the size that it reports.
abbrev pub Progress : Type 0
Progress = List ℕ → ℕ → Option Exception

-- What a handler of an entry did: the exception that it ended with, if any, the bytes that it wrote and
-- the sizes that it reported.
pub record Transfer : Type 0 where
  pub failure : Option Exception
  pub written : List ℕ
  pub reports : List ℕ

-- A handler of an entry gets the source, the destination, by the bytes that it takes in all, and the
-- callback; it ends. The Godot module alone sets one.
abbrev pub Handler : Type 0
Handler = Istream → ℕ → Progress → Transfer

pub record File : Type 0 where
  pub path : List ℕ
  pub header : List ℕ
  pub offset : ℤ
  pub compressed_body_size_in_bytes : ℤ
  pub uncompressed_body_size_in_bytes : ℤ
  pub magic : ℕ
  pub extract : Option Handler

abbrev pub max_path_bytes : ℕ
max_path_bytes = 4 * (1024 - 1)

abbrev pub max_entry_count : ℕ
max_entry_count = 100000

-- The body of `f` stands between `low` and `high` in the archive.
pub record IsWithin (low high : ℕ) (f : File) : Type 0 where
  pub begins : pos low ≤ℤ f.offset
  pub sized : pos 0 ≤ℤ f.compressed_body_size_in_bytes
  pub ends : f.offset +ℤ f.compressed_body_size_in_bytes ≤ℤ pos high
  pub stored : f.uncompressed_body_size_in_bytes ≡ f.compressed_body_size_in_bytes
