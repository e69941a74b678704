-- ===== src/RpgMaker/Bounds.antt =====
-- The legacy listing of rpgmaker.cpp: the ranges and the names of its entries.
use observer_modules.Prelude.{ℕ, ◌≤◌, ◌<◌, ◌≡◌, false, length}
use observer_modules.Failure.Ensures.{Ensures}
use observer_modules.Stream.{BoundedStream}
use observer_modules.Stream.Reads.{Later}
use observer_modules.Extractor.{File, IsWithin, max_path_bytes}
use observer_modules.RpgMaker.{has_nul}

-- A name that can be shown: not empty, within the limit, and without NUL.
pub record IsNamed (f : File) : Type 0 where
  pub some_byte : 0 < length f.path
  pub bounded : length f.path ≤ max_path_bytes
  pub no_nul : has_nul f.path ≡ false

abbrev pub IsLegacy : ℕ → File → Type 0
IsLegacy size f = IsWithin 16 size f × IsNamed f

abbrev LegacyEntry : BoundedStream → (File × ℕ) × BoundedStream → Type 0
LegacyEntry s ((f, key), t) = IsLegacy s.size f × Later s t × (8 ≤ t.cursor)
