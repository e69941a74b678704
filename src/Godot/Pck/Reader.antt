-- ===== src/Godot/Pck/Reader.antt =====
-- src/core/godot/pck.cpp: the constants, and `pack_reader`, which reads below the end of a pack.
use observer_modules.Prelude.{ℕ, ltb, List}
use observer_modules.Prelude.Int.{pos}
use observer_modules.Prelude.Words.{from_le}
use observer_modules.Failure.{Exception, pck_error}
use observer_modules.Stream.{
  Reader, pure, ◌>>=◌, ◌>>◌, reject_if, position, seek_absolute, read_exact,
}
use observer_modules.Godot.Types.{sub_u64}

-- "GDPC"
abbrev pub pack_magic : ℕ
pack_magic = 0x43504447

abbrev pub max_format_version : ℕ
max_format_version = 4

abbrev pub reserved_header_bytes : ℕ
reserved_header_bytes = 64

abbrev pub outside_pack : Exception
outside_pack = pck_error "pack access outside the located range"

-- The methods of pack_reader; `limit` is its member.
unfoldable pub pack_seek : ℕ → ℕ → Reader (Unit {0})
pack_seek limit absolute = do
  reject_if (ltb limit absolute) outside_pack
  seek_absolute (pos absolute)

unfoldable pub pack_read : ℕ → ℕ → Reader (List ℕ)
pack_read limit byte_count = do
  cursor ← position
  reject_if (ltb (sub_u64 limit cursor) byte_count) outside_pack
  read_exact byte_count

unfoldable pub pack_read_trivial : ℕ → ℕ → Reader ℕ
unfolding pack_read
pack_read_trivial limit n = do bytes ← pack_read limit n; pure (from_le bytes)

unfoldable pub skip_reserved : ℕ → Reader (Unit {0})
unfolding pack_read
skip_reserved limit = do reserved ← pack_read limit reserved_header_bytes; pure tt
