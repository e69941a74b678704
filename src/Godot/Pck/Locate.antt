-- ===== src/Godot/Pck/Locate.antt =====
-- src/core/godot/pck.cpp: where a pack stands in a file: from its start, in a section of a PE image,
-- or in front of a footer.
pub mod Section
pub mod Inside
use observer_modules.Prelude.{
  ℕ, zero, suc, ◌+◌, ◌-◌, ◌/◌, Bool, true, false, not, ◌&&◌, ◌||◌, List, [], ◌∷◌, ltb, leb, ◌==◌,
  if◌then◌else◌, Option, none, some, bytes_eq,
}
use observer_modules.Prelude.Int.{pos}
use observer_modules.Failure.{stream_read, pck_error, Result, ok, throw}
use observer_modules.Stream.{
  Istream, Reader, pure, fail, ◌>>=◌, ◌>>◌, reject_if, choose, size, seek_absolute, read_exact,
  read_trivial, with_stream,
}
use observer_modules.Godot.Types.{PackLocation, ContainerKind, standalone, pe_section, footer}
use observer_modules.Godot.Pck.Reader.{pack_magic}

-- "MZ", "PE\0\0"
abbrev pub dos_signature : ℕ
dos_signature = 0x5A4D

abbrev pub pe_signature : ℕ
pe_signature = 0x00004550

abbrev pub section_header_size : ℕ
section_header_size = 40

abbrev pub alignment_search_span : ℕ
alignment_search_span = 8

abbrev pub minimum_pe_header : ℕ
minimum_pe_header = 0x40

unfoldable pub all_zero : List ℕ → Bool
all_zero [] = true
all_zero (b ∷ bs) = b == 0 && all_zero bs

abbrev pub location : ℕ → ℕ → ContainerKind → PackLocation
location offset size kind = record {
  pack = record { offset = offset; size = size };
  container = kind;
}

-- The loop over `shift`, with the rounds that are left.
unfoldable pub search_header : ℕ → ℕ → ℕ → Reader (Option PackLocation)
search_header zero position limit = fail (pck_error "pck section does not contain a pack header")
search_header (suc rounds) position limit =
    choose (ltb limit (position + 4))
      (fail (pck_error "pck section does not contain a pack header"))
      do
        seek_absolute (pos position)
        magic ← read_trivial 4
        choose (magic == pack_magic) (pure (some (location position (limit - position) pe_section)))
            (search_header rounds (position + 1) limit)

-- The eight-byte zero symbol of Godot's template in a section of 512 bytes is no pack.
unfoldable pub is_placeholder : ℕ → ℕ → ℕ → Reader Bool
unfolding all_zero
is_placeholder raw_offset raw_size virtual_size =
    choose (virtual_size == 8 && raw_size == 512)
      (do seek_absolute (pos raw_offset); placeholder ← read_exact 512; pure (all_zero placeholder))
      (pure false)

unfoldable pub locate_embedded_pack : ℕ → ℕ → ℕ → ℕ → Reader (Option PackLocation)
unfolding is_placeholder search_header
locate_embedded_pack file_size raw_offset raw_size virtual_size = do
  reject_if (leb file_size raw_offset) (pck_error "pck section offset out of range")
  reject_if (ltb file_size (raw_offset + raw_size)) (pck_error "pck section range exceeds the file")
  empty ← is_placeholder raw_offset raw_size virtual_size
  choose empty (pure none) (search_header alignment_search_span raw_offset (raw_offset + raw_size))

-- The bytes in front of the first NUL.
unfoldable pub until_nul : List ℕ → List ℕ
until_nul [] = []
until_nul (b ∷ bs) = let rest = until_nul bs in if b == 0 then [] else b ∷ rest

-- The section that is named pck: its pack, if it holds data.
unfoldable pub read_section : ℕ → ℕ → Reader (Option PackLocation)
unfolding locate_embedded_pack
read_section file_size header = do
  seek_absolute (pos (header + 8))
  virtual_size ← read_trivial 4
  seek_absolute (pos (header + 16))
  raw_size ← read_trivial 4
  raw_offset ← read_trivial 4
  choose (raw_offset == 0) (pure none)
      (locate_embedded_pack file_size raw_offset raw_size virtual_size)

-- The loop over the section table: the sections that are left, and the header of the next.
unfoldable pub find_section : ℕ → ℕ → ℕ → Reader (Option PackLocation)
unfolding until_nul read_section
find_section zero file_size header = pure none
find_section (suc left) file_size header = do
  seek_absolute (pos header)
  name ← read_exact 8
  choose (bytes_eq (until_nul name) (b'p' ∷ b'c' ∷ b'k' ∷ [])) (read_section file_size header)
      (find_section left file_size (header + section_header_size))

-- The part of `locate_pe_section` behind the PE signature.
unfoldable pub read_section_table : ℕ → ℕ → Reader (Option PackLocation)
unfolding find_section
read_section_table file_size nt_header = do
  seek_absolute (pos (nt_header + 6))
  section_count ← read_trivial 2
  seek_absolute (pos (nt_header + 20))
  optional_size ← read_trivial 2
  let table : ℕ = nt_header + 24 + optional_size
  reject_if (ltb file_size table || ltb ((file_size - table) / section_header_size) section_count)
      (pck_error "PE section table out of range")
  find_section section_count file_size table

unfoldable pub locate_pe_section : ℕ → Reader (Option PackLocation)
unfolding read_section_table
locate_pe_section file_size = choose (ltb file_size 2) (pure none) do
  seek_absolute (pos 0)
  dos ← read_trivial 2
  choose (not (dos == dos_signature)) (pure none) do
    reject_if (ltb file_size minimum_pe_header) (pck_error "truncated PE header")
    seek_absolute (pos 0x3C)
    pe_offset ← read_trivial 4
    reject_if (ltb file_size pe_offset || ltb (file_size - pe_offset) 24)
        (pck_error "PE header offset out of range")
    seek_absolute (pos pe_offset)
    signature ← read_trivial 4
    choose (not (signature == pe_signature)) (pure none) (read_section_table file_size pe_offset)

unfoldable pub locate_footer : ℕ → Reader (Option PackLocation)
locate_footer file_size = choose (ltb file_size 4) (pure none) do
  seek_absolute (pos (file_size - 4))
  magic ← read_trivial 4
  choose (not (magic == pack_magic)) (pure none) do
    reject_if (ltb file_size 12) (pck_error "truncated pck footer")
    seek_absolute (pos (file_size - 12))
    payload_size ← read_trivial 8
    reject_if (ltb payload_size 4 || ltb (file_size - 12) payload_size)
        (pck_error "invalid embedded pck size")
    let start : ℕ = file_size - 12 - payload_size
    seek_absolute (pos start)
    header ← read_trivial 4
    reject_if (not (header == pack_magic)) (pck_error "embedded pck header missing")
    pure (some (location start payload_size footer))

unfoldable pub or_footer : ℕ → Option PackLocation → Reader (Option PackLocation)
or_footer file_size none = locate_footer file_size
or_footer file_size (some place) = pure (some place)

-- The strategies behind the one for a pack that is the whole file.
unfoldable pub locate_inside : ℕ → Reader (Option PackLocation)
unfolding or_footer
locate_inside file_size = do embedded ← locate_pe_section file_size; or_footer file_size embedded

unfoldable pub locate_pack_impl : Reader (Option PackLocation)
unfolding locate_inside
locate_pack_impl = do
  file_size ← size
  choose (leb 4 file_size)
      (do
        seek_absolute (pos 0)
        magic ← read_trivial 4
        choose (magic == pack_magic) (pure (some (location 0 file_size standalone)))
            (locate_inside file_size))
      (locate_inside file_size)

-- The handler of both entry points.
unfoldable pub truncation {ℓ} : {A : Type ℓ} → Result A → Result A
truncation (throw stream_read) = throw (pck_error "pack data is truncated or unreadable")
truncation (throw e) = throw e
truncation (ok a) = ok a

unfoldable pub locate_pack : Istream → Result (Option PackLocation)
unfolding truncation
locate_pack stream = truncation (with_stream locate_pack_impl stream)
