-- ===== src/RenPy/Entries/Keyed.antt =====
-- src/modules/renpy/renpy.cpp: the entries of an index that a writer of archives makes.
use observer_modules.Prelude.{none, ℕ, ◌^◌, ◌<◌, List, [], ◌∷◌, length, bit_xor}
use observer_modules.Prelude.Int.{ℤ, pos, negsuc, ◌-ℤ◌}
use observer_modules.Prelude.Words.{to_int64, to_uint64}
use observer_modules.Extractor.{File}
use observer_modules.RenPy.Pickle.Value.{
  Value, Items, Fields, null, int64, string, list, tuple, nil, cons, end, field,
}
use observer_modules.RenPy.Entries.{Decoder, plain, keyed}

-- A value of int64_t.
abbrev pub IsInt64 : ℤ → Type 0
IsInt64 (pos n) = n < 2 ^ 63
IsInt64 (negsuc n) = n < 2 ^ 63

-- A file of an index: its size has the header in it, which is absent, None or a string.
pub data Header : Type 0 where
  absent none_given : Header
  given : List ℕ → Header

pub record Listed : Type 0 where
  pub name : List ℕ
  pub header : Header
  pub offset : ℤ
  pub size : ℤ

abbrev pub IsListed : Listed → Type 0
IsListed entry = IsInt64 entry.offset × IsInt64 entry.size

-- A number as an archive stores it: version 3.0 has each bit combined with the key's.
abbrev pub stored : Decoder → ℤ → Value
stored plain number = int64 number
stored (keyed key) number = int64 (to_int64 (bit_xor (to_uint64 number) (to_uint64 key)))

abbrev pub header_items : Header → Items
header_items absent = nil
header_items none_given = cons null nil
header_items (given text) = cons (string text) nil

abbrev pub header_text : Header → List ℕ
header_text absent = []
header_text none_given = []
header_text (given text) = text

-- The index that a writer of archives makes.
abbrev pub index_of : Decoder → List Listed → Fields
index_of decoder [] = end
index_of decoder (entry ∷ entries) =
    field entry.name
      (list 2 (
        cons
          (tuple 1 (
            cons (stored decoder entry.offset)
              (cons (stored decoder entry.size) (header_items entry.header))))
          nil))
      (index_of decoder entries)

abbrev pub file_of : Listed → File
file_of entry = record {
  path = entry.name;
  header = header_text entry.header;
  offset = entry.offset;
  compressed_body_size_in_bytes = entry.size -ℤ pos (length (header_text entry.header));
  uncompressed_body_size_in_bytes = entry.size -ℤ pos (length (header_text entry.header));
  magic = 0;
  extract = none;
}

abbrev pub files_of : List Listed → List File
files_of [] = []
files_of (entry ∷ entries) = file_of entry ∷ files_of entries
