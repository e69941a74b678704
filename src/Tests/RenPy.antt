-- ===== src/Tests/RenPy.antt =====
-- src/modules/renpy/pickle.cpp on the pickle of {'a': [5]}, and on inputs that it refuses.
use observer_modules.Prelude.{ℕ, List, [], ◌∷◌, ◌≡◌, refl, some, arith, bytes_eq}
use observer_modules.Prelude.Int.{pos}
use observer_modules.RenPy.Entries.Keyed.{Listed, given}
use observer_modules.Failure.{runtime_error, Result, ok, throw}
use observer_modules.RenPy.Pickle.Value.{
  Value, int64, list, dict, nil, cons, end, field, clone, make_dict, make_list, append_child,
  set_field, checked_child_depth, items_depth, fields_depth, find, assign, must_recompute,
  with_depth,
}
use observer_modules.RenPy.Pickle.Run.{parse_loop, parse_value, run_opcode, loads}
use observer_modules.RenPy.Pickle.Parser.{read_byte, push_made, push, read_string, read_uint_le}
use observer_modules.RenPy.Pickle.Opcode.{opcode_of, find_opcode}
use observer_modules.RenPy.Pickle.Memo.{op_skip, op_stop}
use observer_modules.RenPy.Pickle.Scalars.{read_text, read_int}
use observer_modules.RenPy.Pickle.Containers.{
  op_append, append_to, op_setitem, set_top, set_on, key_of,
}
use observer_modules.RenPy.Pickle.Depth.{IsSound}
use observer_modules.RenPy.Pickle.Depth.Clone.{clone-eq-ok}
use observer_modules.RenPy.Pickle.Depth.Assign.{set_field-IsSound}
use observer_modules.RenPy.Pickle.Sound.Loads.{loads_total, loads-IsSound}

abbrev input : List ℕ
input = 0x80 ∷ 2 ∷ b'}' ∷ b'U' ∷ 1 ∷ b'a' ∷ b']' ∷ b'K' ∷ 5 ∷ b'a' ∷ b's' ∷ b'.' ∷ []

abbrev five : Value
five = list 1 (cons (int64 (pos 5)) nil)

abbrev index : Value
index = dict 2 (field (b'a' ∷ []) five end)

loads-input : loads input ≡ some (ok index)
unfolding parse_loop parse_value run_opcode loads read_byte push_made push read_string read_uint_le
    opcode_of find_opcode op_skip op_stop make_dict make_list append_child set_field
    checked_child_depth items_depth fields_depth find assign must_recompute with_depth read_text
    read_int op_append append_to op_setitem set_top set_on key_of bytes_eq
loads-input = refl

loads_no_stop : loads (b'N' ∷ []) ≡ some (throw (runtime_error "Unexpected end of pickle data"))
unfolding loads parse_loop parse_value read_byte opcode_of run_opcode push
loads_no_stop = refl

loads-IsSound_example : IsSound index
loads-IsSound_example = loads-IsSound input index loads-input

loads_total_example : (r : Result Value) × (loads input ≡ some r)
loads_total_example = loads_total input

clone-eq-ok_example : clone five ≡ ok five
clone-eq-ok_example = clone-eq-ok five (refl, omega arith, (tt, tt))

set_field_index :
    set_field 2 (field (b'a' ∷ []) five end) (b'a' ∷ []) (int64 (pos 7))
    ≡ ok (dict 1 (field (b'a' ∷ []) (int64 (pos 7)) end))
unfolding set_field bytes_eq
set_field_index = refl

set_field-IsSound_example : IsSound (dict 1 (field (b'a' ∷ []) (int64 (pos 7)) end))
set_field-IsSound_example =
    set_field-IsSound 2 (field (b'a' ∷ []) five end) (b'a' ∷ []) (int64 (pos 7))
      loads-IsSound_example tt set_field_index

-- An entry with a header of one byte, in front of a body of four.
abbrev shown : Listed
shown = record { name = b'a' ∷ []; header = given (b'h' ∷ []); offset = pos 9; size = pos 5 }
