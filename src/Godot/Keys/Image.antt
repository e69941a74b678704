-- ===== src/Godot/Keys/Image.antt =====
-- src/core/godot/key_recovery.cpp: the class `image`, a PE file.
pub mod Inside
pub mod Parsed
pub mod Mapped
use observer_modules.Prelude.{
  ℕ, zero, suc, ◌+◌, ◌-◌, ◌*◌, ◌/◌, ◌%◌, ◌^◌, ◌==◌, Bool, true, false, not, ◌&&◌, ◌||◌, List, [],
  ◌∷◌, ◌++◌, Option, none, some, if◌then◌else◌, ltb, leb, length, take, drop, max,
}
use observer_modules.Prelude.Int.{pos}
use observer_modules.Prelude.Words.{from_le}
use observer_modules.Failure.{key_recovery_error}
use observer_modules.Stream.{BoundedStream, seek_absolute, read_exact}
use observer_modules.Godot.Keys.State.{
  KeyRecoveryLimits, Recovery, Search, done, failed, pure, fail, reading, ◌>>=◌, ◌>>◌, reject_if,
  choose, charge_scanned,
}

pub record Section : Type 0 where
  pub address : ℕ
  pub virtual_size : ℕ
  pub raw_offset : ℕ
  pub raw_size : ℕ
  pub executable : Bool
  pub code : List ℕ

-- What `parse` finds out.
pub record Image : Type 0 where
  pub sections : List Section
  pub base : ℕ
  pub wide : Bool

-- The bytes are ored at different digits, so this is their sum.
unfoldable pub integer : List ℕ → ℕ → ℕ → ℕ
integer bytes offset width = from_le (take width (drop offset bytes))

abbrev pub max_u64 : ℕ
max_u64 = 2 ^ 64 - 1

-- `reader_.size()`
abbrev pub image_size : Search ℕ
image_size s = done s.stream.size s

-- The test of `mapped`.
unfoldable pub holds_range : Section → ℕ → ℕ → Bool → Bool → Bool
holds_range entry address count code backed =
    let size : ℕ = if backed then entry.raw_size else entry.virtual_size in
    let offset : ℕ = address - entry.address in
    (if code then entry.executable else not entry.executable)
    && leb entry.address address
    && leb offset size
    && leb count (size - offset)

unfoldable pub mapped : List Section → ℕ → ℕ → Bool → Bool → Option Section
unfolding holds_range
mapped [] address count code backed = none
mapped (entry ∷ rest) address count code backed =
    elim (holds_range entry address count code backed) [
      | true ↦ some entry
      | false ↦ mapped rest address count code backed
    ]

abbrev pub overlaps : Section → Section → Bool
overlaps entry previous =
    not (entry.virtual_size == 0)
    && not (previous.virtual_size == 0)
    && ltb entry.address (previous.address + previous.virtual_size)
    && ltb previous.address (entry.address + entry.virtual_size)

unfoldable pub overlaps_any : Section → List Section → Bool
overlaps_any entry [] = false
overlaps_any entry (previous ∷ rest) = overlaps entry previous || overlaps_any entry rest

abbrev pub executable_flag : ℕ → Bool
executable_flag flags = not (flags / 0x20000000 % 2 == 0)

-- A row of the section table, without its code.
unfoldable pub parse_row : ℕ → List ℕ → Section
unfolding integer
parse_row base row = record {
  address = base + integer row 12 4;
  virtual_size = max (integer row 8 4) (integer row 16 4);
  raw_offset = integer row 20 4;
  raw_size = integer row 16 4;
  executable = executable_flag (integer row 36 4);
  code = [];
}

abbrev pub with_code : Section → List ℕ → Section
with_code entry code = record {
  address = entry.address;
  virtual_size = entry.virtual_size;
  raw_offset = entry.raw_offset;
  raw_size = entry.raw_size;
  executable = entry.executable;
  code = code;
}

abbrev pub overflows : ℕ → List ℕ → Bool
overflows base row =
    ltb (max_u64 - base) (integer row 12 4)
    || ltb (max_u64 - base - integer row 12 4) (parse_row base row).virtual_size

abbrev pub is_outside : ℕ → Section → Bool
is_outside size entry = ltb size entry.raw_offset || ltb (size - entry.raw_offset) entry.raw_size

abbrev pub is_inconsistent : List ℕ → Bool → Bool
is_inconsistent optional wide = not (integer optional 0 2 == (if wide then 0x20b else 0x10b))

abbrev pub image_base : List ℕ → Bool → ℕ
image_base optional wide = integer optional (if wide then 24 else 28) (if wide then 8 else 4)

abbrev pub is_unsupported : ℕ → ℕ → ℕ → Bool
is_unsupported machine count optional_size =
    (not (machine == 0x14c) && not (machine == 0x8664))
    || count == 0
    || ltb 96 count
    || ltb optional_size 64
    || ltb 4096 optional_size

module _ (limits : KeyRecoveryLimits) where
  unfoldable pub authorize_read : ℕ → ℕ → Search (Unit {0})
  unfolding charge_scanned
  authorize_read offset count = do
    size ← image_size
    reject_if (ltb size offset || ltb (size - offset) count)
        (key_recovery_error "PE range outside source")
    charge_scanned limits count

  unfoldable pub read_bytes : ℕ → ℕ → Search (List ℕ)
  unfolding seek_absolute read_exact
  read_bytes offset count = do reading (seek_absolute (pos offset)); reading (read_exact count)

  unfoldable pub read : ℕ → ℕ → Search (List ℕ)
  unfolding authorize_read read_bytes
  read offset count = do authorize_read offset count; read_bytes offset count

  unfoldable pub read_at : Option Section → ℕ → ℕ → Search (Option (List ℕ))
  unfolding authorize_read read_bytes
  read_at none address count = pure none
  read_at (some entry) address count = do
    authorize_read (entry.raw_offset + (address - entry.address)) count
    bytes ← read_bytes (entry.raw_offset + (address - entry.address)) count
    pure (some bytes)

  -- `none` where it answers false and fills nothing in.
  unfoldable pub data_at : List Section → ℕ → ℕ → Search (Option (List ℕ))
  unfolding read_at mapped
  data_at sections address count = read_at (mapped sections address count false true) address count

  unfoldable pub read_code : Section → Search (List ℕ)
  unfolding read
  read_code entry = choose entry.executable (read entry.raw_offset entry.raw_size) (pure [])

  unfoldable pub parse_section : ℕ → List Section → List ℕ → Search Section
  unfolding parse_row overlaps_any read_code integer
  parse_section base sections row = do
    reject_if (overflows base row) (key_recovery_error "PE virtual range overflow")
    size ← image_size
    reject_if (is_outside size (parse_row base row))
        (key_recovery_error "PE section outside source")
    reject_if (overlaps_any (parse_row base row) sections)
        (key_recovery_error "overlapping PE virtual sections")
    code ← read_code (parse_row base row)
    pure (with_code (parse_row base row) code)

  unfoldable pub sections_loop : ℕ → ℕ → List Section → List ℕ → Search (List Section)
  unfolding parse_section
  sections_loop base zero sections table = pure sections
  sections_loop base (suc count) sections table = do
    entry ← parse_section base sections (take 40 table)
    sections_loop base count (sections ++ (entry ∷ [])) (drop 40 table)

  -- From the optional header on.
  unfoldable pub parse_optional : ℕ → ℕ → ℕ → Bool → Search (Option Image)
  unfolding read integer sections_loop
  parse_optional optional_offset optional_size count wide = do
    optional ← read optional_offset optional_size
    reject_if (is_inconsistent optional wide) (key_recovery_error "inconsistent PE mode")
    table ← read (optional_offset + optional_size) (count * 40)
    sections ← sections_loop (image_base optional wide) count [] table
    pure (some (record { sections = sections; base = image_base optional wide; wide = wide }))

  unfoldable pub parse_pe : ℕ → Search (Option Image)
  unfolding read integer parse_optional
  parse_pe offset = do
    pe ← read offset 24
    reject_if (not (integer pe 0 4 == 0x4550)) (key_recovery_error "invalid PE signature")
    let machine : ℕ = integer pe 4 2
    let count : ℕ = integer pe 6 2
    let optional_size : ℕ = integer pe 20 2
    reject_if (is_unsupported machine count optional_size)
        (key_recovery_error "unsupported PE header")
    parse_optional (offset + 24) optional_size count (machine == 0x8664)

  unfoldable pub parse_dos : Search (Option Image)
  unfolding read integer parse_pe
  parse_dos = do
    dos ← read 0 64
    choose (integer dos 0 2 == 0x5a4d) (parse_pe (integer dos 0x3c 4)) (pure none)

  -- `none` where it answers false.
  unfoldable pub parse : Search (Option Image)
  unfolding parse_dos
  parse = do size ← image_size; choose (ltb size 64) (pure none) parse_dos
