-- ===== src/Lib.antt =====
-- The archive modules of ObserverModules: readers that list and extract the archives of games for
-- the Observer plug-in of Far Manager. Each reader gets an untrusted file.
--
-- The parts, and the files that model them:
-- - src/core/io/bounded_stream.*: Stream. A stream is its bytes and its position; a member function is
--   a state-passing `Reader` that throws. Stream/Reads, Stream/Ensures, Stream/Fixed and Stream/Ahead
--   hold rules for chains of reads.
-- - src/archive.*: Archive. The object opens a source, asks a module for its listing once and, in
--   Archive/Extract, copies bodies in rounds of 128 KiB or leaves an entry to its own handler; a module
--   is the record `Extractor` and a handler a function (src/modules/extractor.h). The destination is
--   whether it opens, how much it takes and whether it closes; the callback says which exception it
--   throws. The error bits of a stream are not kept from one extraction to the next.
-- - src/modules/zanzarah/zanzarah.cpp: Zanzarah. A directory of paths, offsets and sizes.
-- - src/modules/rpgmaker/rpgmaker.cpp: RpgMaker (the two directory layouts), RpgMaker/Cipher.
-- - src/modules/renpy/pickle.*: RenPy/Pickle (Value, Opcode, Parser, Scalars, Containers, Memo, Run);
--   src/modules/renpy/renpy.cpp: RenPy/Entries, RenPy/Listing. The pickle reader is a stack machine;
--   a value is a tree whose containers cache their depth, with a limit of 64.
-- - src/core/godot/pck.*: Godot/Pck (Locate, Reader, Path, Entry, Layout, Index), on the envelopes of
--   src/core/godot/encrypted_payload.* (Godot/Encrypted); src/core/godot/rscc.* (Godot/Rscc);
--   src/core/codecs/godot_ima_codec.cpp (Godot/Ima).
-- - src/core/godot/import_remap.*: Godot/Remap (Chars, Path, Text, Value, Found, Scan, Read). A scanner
--   of ConfigFile fragments that bind a virtual path to compiled ones; its cursor is the list of the
--   characters that are left.
-- - src/modules/godot/virtual_tree.*: Godot/Tree (Host, Escape, Names, Placer, Maps, Rows, Build). The
--   listing of a pack: hints and mappings name the rows, and a placer gives each row a free name, all
--   under one budget, whose counter is passed on from call to call.
-- - src/core/godot/key_recovery.*: Godot/Keys (State, Image, Pattern, Consume, Run). The search of a PE
--   file for keys: the image, the patterns of instructions, the candidates that they give, and the
--   passes over the executable sections. A call returns, exhausts its allowance or throws, and keeps
--   the state in each case, since the caller goes on with the budget.
-- - Failure: the exceptions as values. Prelude: tests on numbers, lists, integers, words and bits.
--
-- Numbers are natural; a machine word keeps its wrap-around written out (`% 2 ^ w`), and signed words
-- are read by `to_int32` and `to_int64`. Bytes are numbers, and a theorem that needs them below 256
-- says so. An exception ends a chain of calls, so it carries no state, apart from the archive,
-- whose stream has moved and whose destination keeps what was written, and the key recovery.
--
-- Fuel: the loop of the pickle reader has the length of the input, since each round reads a byte; the
-- extraction has one round more than whole buffers; the Ace listing of RPG Maker has one round for
-- each byte; each loop of the scanner has a round for each character and one more; the search for a
-- free name has one round for each reserved name and one more; a number is written in decimal in as
-- many rounds as its value, which is more than its digits. The window of an instruction pattern counts
-- down from the limit on instructions, and the legacy listing of RPG Maker from the limit on entries,
-- that the code has. `out_of_fuel` is no exception of the program.
--
-- Parameters: zlib (`decompress_zlib`), the block decoders of RSCC (`decompress_block`), AES
-- (`decrypt`), MD5 (`md5`), the instruction decoder (`decode_x86`, which calls Zydis),
-- sizeof(pck_entry) and, in the record `Host`, the calls of Windows on strings and the sizes of records.
-- Not modelled: the other Godot resource readers and codecs, which are larger and call third-party
-- decoders; the plug-in entry points, wide strings and the file system, which are the host's; and the
-- bodies of the handlers that the Godot module installs.
pub mod Prelude
pub mod Failure
pub mod Stream
pub mod Extractor
pub mod Archive
pub mod Zanzarah
pub mod RpgMaker
pub mod RenPy
pub mod Godot
pub mod Tests
