-- ===== src/RenPy/Pickle/Opcode.antt =====
-- src/modules/renpy/pickle.cpp: the opcodes that the reader knows, and the bytes that stand for them.
use observer_modules.Prelude.{ℕ, List, [], ◌∷◌, Option, none, some, ◌==◌, if◌then◌else◌}

pub data Opcode : Type 0 where
  mark stop int binint binint1 binint2 none_value binstring short_binstring binunicode : Opcode
  append dict empty_dict appends binget long_binget list empty_list binput long_binput : Opcode
  setitem tuple empty_tuple setitems binfloat proto tuple1 tuple2 tuple3 : Opcode
  newtrue newfalse long1 binbytes short_binbytes short_binunicode memoize frame : Opcode

abbrev pub table : List (ℕ × Opcode)
table =
    (b'(', mark)
    ∷ (b'.', stop)
    ∷ (b'I', int)
    ∷ (b'J', binint)
    ∷ (b'K', binint1)
    ∷ (b'M', binint2)
    ∷ (b'N', none_value)
    ∷ (b'T', binstring)
    ∷ (b'U', short_binstring)
    ∷ (b'X', binunicode)
    ∷ (b'a', append)
    ∷ (b'd', dict)
    ∷ (b'}', empty_dict)
    ∷ (b'e', appends)
    ∷ (b'h', binget)
    ∷ (b'j', long_binget)
    ∷ (b'l', list)
    ∷ (b']', empty_list)
    ∷ (b'q', binput)
    ∷ (b'r', long_binput)
    ∷ (b's', setitem)
    ∷ (b't', tuple)
    ∷ (b')', empty_tuple)
    ∷ (b'u', setitems)
    ∷ (b'G', binfloat)
    ∷ (0x80, proto)
    ∷ (0x85, tuple1)
    ∷ (0x86, tuple2)
    ∷ (0x87, tuple3)
    ∷ (0x88, newtrue)
    ∷ (0x89, newfalse)
    ∷ (0x8a, long1)
    ∷ (b'B', binbytes)
    ∷ (b'C', short_binbytes)
    ∷ (0x8c, short_binunicode)
    ∷ (0x94, memoize)
    ∷ (0x95, frame)
    ∷ []

unfoldable pub find_opcode : ℕ → List (ℕ × Opcode) → Option Opcode
find_opcode byte [] = none
find_opcode byte ((b, op) ∷ rest) =
    let later = find_opcode byte rest in if b == byte then some op else later

unfoldable pub opcode_of : ℕ → Option Opcode
unfolding find_opcode
opcode_of byte = find_opcode byte table
