-- ===== src/RenPy/Entries.antt =====
-- src/modules/renpy/renpy.cpp: the loop of `list_files` over the index, and its decoder.
pub mod Keyed
use observer_modules.Prelude.{none, ℕ, List, [], ◌∷◌, length, bit_xor}
use observer_modules.Prelude.Int.{ℤ, pos, ◌-ℤ◌}
use observer_modules.Prelude.Words.{to_int64, to_uint64}
use observer_modules.Failure.{runtime_error, Result, ok, throw, ◌>>=◌}
use observer_modules.Extractor.{File}
use observer_modules.RenPy.Pickle.Value.{
  null, Items, nil, cons, Fields, end, field, as_int64, as_string, as_list, as_tuple,
}

-- The function that `parse_header` returns beside the offset.
pub data Decoder : Type 0 where
  plain : Decoder
  keyed : ℤ → Decoder

abbrev pub xor_int64 : ℤ → ℤ → ℤ
xor_int64 a b = to_int64 (bit_xor (to_uint64 a) (to_uint64 b))

unfoldable pub decode : Decoder → ℤ × ℤ → ℤ × ℤ
decode plain extent = extent
decode (keyed key) (offset, length) = (xor_int64 offset key, xor_int64 length key)

-- The header string of an entry: the third element, unless it is None.
unfoldable pub header_of : Items → Result (List ℕ)
header_of nil = ok []
header_of (cons null rest) = ok []
header_of (cons v rest) = as_string v

-- An element of the tuple, then one more, then the header.
unfoldable pub entry_of_props : Decoder → List ℕ → Items → Result File
unfolding header_of as_int64
entry_of_props decoder file_name (cons first (cons second rest)) = do
  offset ← as_int64 first
  body ← as_int64 second
  header ← header_of rest
  let (at, body_size) = decode decoder (offset, body)
  ok (record {
    path = file_name;
    header = header;
    offset = at;
    compressed_body_size_in_bytes = body_size -ℤ pos (length header);
    uncompressed_body_size_in_bytes = body_size -ℤ pos (length header);
    magic = 0;
    extract = none;
  })
entry_of_props decoder file_name props =
    throw (runtime_error "Expected at least 2 elements in tuple")

-- The list of one tuple that stands for a file.
unfoldable pub entry_of_list : Decoder → List ℕ → Items → Result File
unfolding entry_of_props as_tuple
entry_of_list decoder file_name (cons only nil) = do
  props ← as_tuple only
  entry_of_props decoder file_name props
entry_of_list decoder file_name props_container =
    throw (runtime_error "Expected exactly one property tuple")

-- The loop over the index.
unfoldable pub entries_of : Decoder → Fields → Result (List File)
unfolding entry_of_list as_list
entries_of decoder end = ok []
entries_of decoder (field file_name value rest) = do
  props_container ← as_list value
  item ← entry_of_list decoder file_name props_container
  files ← entries_of decoder rest
  ok (item ∷ files)
