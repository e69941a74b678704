-- ===== src/RenPy/Pickle/Run.antt =====
-- src/modules/renpy/pickle.cpp: the switch of the reader and its loop.
use observer_modules.Prelude.{
  ℕ, zero, suc, true, false, List, [], ◌==◌, if◌then◌else◌, length, Option, none, some,
}
use observer_modules.Prelude.Int.{pos}
use observer_modules.Prelude.Words.{to_int32}
use observer_modules.Failure.{runtime_error, Result, ok, throw, ◌>>=◌}
use observer_modules.RenPy.Pickle.Value.{
  Value, null, boolean, bytes, string, nil, end, make_list, make_tuple, make_dict,
}
use observer_modules.RenPy.Pickle.Parser.{
  Parser, Step, go_on, finished, unexpected_end, read_byte, push, push_made, push_mark,
}
use observer_modules.RenPy.Pickle.Opcode.{Opcode, opcode_of}
use observer_modules.RenPy.Pickle.Scalars.{read_text, read_int, op_int, op_binfloat, op_long1}
use observer_modules.RenPy.Pickle.Containers.{
  op_append, op_appends, op_make, op_tuple, op_dict, op_setitem, op_setitems,
}
use observer_modules.RenPy.Pickle.Memo.{op_put, op_memoize, op_get, op_skip, op_stop}

-- The switch of `parse_value`, behind the opcode.
unfoldable pub run_opcode : Opcode → Parser → Result Step
run_opcode Opcode.mark p = ok (push_mark p)
run_opcode Opcode.stop p = op_stop p.stack
run_opcode Opcode.int p = op_int p
run_opcode Opcode.binint p = read_int 4 to_int32 p
run_opcode Opcode.binint1 p = read_int 1 pos p
run_opcode Opcode.binint2 p = read_int 2 pos p
run_opcode Opcode.none_value p = ok (push null p)
run_opcode Opcode.binstring p = read_text 4 string p
run_opcode Opcode.short_binstring p = read_text 1 string p
run_opcode Opcode.binunicode p = read_text 4 string p
run_opcode Opcode.append p = op_append p
run_opcode Opcode.dict p = op_dict p
run_opcode Opcode.empty_dict p = push_made p (make_dict end)
run_opcode Opcode.appends p = op_appends p
run_opcode Opcode.binget p = op_get 1 p
run_opcode Opcode.long_binget p = op_get 4 p
run_opcode Opcode.list p = op_make make_list p
run_opcode Opcode.empty_list p = push_made p (make_list nil)
run_opcode Opcode.binput p = op_put 1 (runtime_error "No item on stack for BINPUT") p
run_opcode Opcode.long_binput p = op_put 4 (runtime_error "No item on stack for LONG_BINPUT") p
run_opcode Opcode.setitem p = op_setitem p
run_opcode Opcode.tuple p = op_make make_tuple p
run_opcode Opcode.empty_tuple p = push_made p (make_tuple nil)
run_opcode Opcode.setitems p = op_setitems p
run_opcode Opcode.binfloat p = op_binfloat p
run_opcode Opcode.proto p = op_skip 1 p
run_opcode Opcode.tuple1 p = op_tuple 1 (runtime_error "Not enough items on stack for TUPLE1") p
run_opcode Opcode.tuple2 p = op_tuple 2 (runtime_error "Not enough items on stack for TUPLE2") p
run_opcode Opcode.tuple3 p = op_tuple 3 (runtime_error "Not enough items on stack for TUPLE3") p
run_opcode Opcode.newtrue p = ok (push (boolean true) p)
run_opcode Opcode.newfalse p = ok (push (boolean false) p)
run_opcode Opcode.long1 p = op_long1 p
run_opcode Opcode.binbytes p = read_text 4 bytes p
run_opcode Opcode.short_binbytes p = read_text 1 bytes p
run_opcode Opcode.short_binunicode p = read_text 1 string p
run_opcode Opcode.memoize p = op_memoize p
run_opcode Opcode.frame p = op_skip 8 p

-- The number of an unknown opcode is left out of the message.
unfoldable pub run_byte : Option Opcode → Parser → Result Step
run_byte none p = throw (runtime_error "Unsupported pickle opcode")
run_byte (some op) p = run_opcode op p

unfoldable pub parse_value : Parser → Result Step
unfolding run_byte
parse_value p = do
  (byte, rest) ← read_byte p.rest
  run_byte (opcode_of byte) (record p { rest = rest })

-- The loop of `parse`; `none` means that the fuel ran out.
unfoldable pub parse_loop : ℕ → Parser → Option (Result Value)
parse_loop zero p = if length p.rest == 0 then some (throw unexpected_end) else none
parse_loop (suc fuel) p =
    if length p.rest == 0 then some (throw unexpected_end) else elim (parse_value p) [
      | throw e ↦ some (throw e)
      | ok (finished v) ↦ some (ok v)
      | ok (go_on q) ↦ parse_loop fuel q
    ]

abbrev pub initial : List ℕ → Parser
initial input = record { rest = input; stack = []; marks = []; memo = [] }

-- Each round reads a byte or more, so the length of the input is fuel enough.
unfoldable pub loads : List ℕ → Option (Result Value)
loads input = parse_loop (length input) (initial input)
