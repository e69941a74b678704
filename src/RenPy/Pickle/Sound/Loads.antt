-- ===== src/RenPy/Pickle/Sound/Loads.antt =====
-- The reader of pickle.cpp as a whole.
use observer_modules.Prelude.{
  ℕ, zero, suc, ◌≡◌, refl, ap, true, false, List, [], ◌∷◌, arith, ◌==◌, length, Bool-cases, inl,
  inr, Option, none, some,
}
use observer_modules.Prelude.Int.{pos}
use observer_modules.Prelude.Words.{to_int32}
use observer_modules.Failure.{Result, ok, throw}
use observer_modules.Failure.Ensures.{Ensures, Ensures-ok, Ensures-throw}
use observer_modules.RenPy.Pickle.Value.{
  Value, null, boolean, bytes, string, Items, nil, end, make_list, make_tuple, make_dict,
}
use observer_modules.RenPy.Pickle.Opcode.{Opcode, opcode_of}
use observer_modules.RenPy.Pickle.Parser.{
  Parser, Step, go_on, finished, read_byte, push_mark, unexpected_end,
}
use observer_modules.RenPy.Pickle.Run.{
  run_opcode, run_byte, parse_value, parse_loop, initial, loads,
}
use observer_modules.RenPy.Pickle.Depth.{IsSound, SoundItems}
use observer_modules.RenPy.Pickle.Depth.Make.{
  make_list-IsSound, make_tuple-IsSound, make_dict-IsSound,
}
use observer_modules.RenPy.Pickle.Sound.{SoundParser, SoundStep, push-SoundStep, push_made-Ensures}
use observer_modules.RenPy.Pickle.Sound.Scalars.{
  read_text-SoundStep, read_int-SoundStep, op_int-SoundStep, op_binfloat-SoundStep,
  op_skip-SoundStep, op_long1-SoundStep, op_put-SoundStep, op_memoize-SoundStep, op_get-SoundStep,
  op_stop-SoundStep,
}
use observer_modules.RenPy.Pickle.Sound.Containers.{
  op_append-SoundStep, op_setitem-SoundStep, op_appends-SoundStep, op_setitems-SoundStep,
  op_make-SoundStep, op_dict-SoundStep, op_tuple-SoundStep,
}

list_made : (xs : Items) → SoundItems xs → Ensures IsSound (make_list xs)
list_made xs s = record { at = λ v e. make_list-IsSound xs s e }

tuple_made : (xs : Items) → SoundItems xs → Ensures IsSound (make_tuple xs)
tuple_made xs s = record { at = λ v e. make_tuple-IsSound xs s e }

run_opcode-SoundStep :
    (n : ℕ) (op : Opcode) (p : Parser) → SoundParser n p → Ensures (SoundStep n) (run_opcode op p)
unfolding run_opcode push_mark
run_opcode-SoundStep n Opcode.mark p h =
    Ensures-ok {a = push_mark p} (record { stack = h.stack; memo = h.memo; left = h.left })
run_opcode-SoundStep n Opcode.stop p h = op_stop-SoundStep n p.stack h.stack
run_opcode-SoundStep n Opcode.int p h = op_int-SoundStep n p h
run_opcode-SoundStep n Opcode.binint p h = read_int-SoundStep n p h 4 to_int32
run_opcode-SoundStep n Opcode.binint1 p h = read_int-SoundStep n p h 1 pos
run_opcode-SoundStep n Opcode.binint2 p h = read_int-SoundStep n p h 2 pos
run_opcode-SoundStep n Opcode.none_value p h = Ensures-ok (push-SoundStep n null p tt h)
run_opcode-SoundStep n Opcode.binstring p h = read_text-SoundStep n p h 4 string (λ t. tt)
run_opcode-SoundStep n Opcode.short_binstring p h = read_text-SoundStep n p h 1 string (λ t. tt)
run_opcode-SoundStep n Opcode.binunicode p h = read_text-SoundStep n p h 4 string (λ t. tt)
run_opcode-SoundStep n Opcode.append p h = op_append-SoundStep n p h
run_opcode-SoundStep n Opcode.dict p h = op_dict-SoundStep n p h
run_opcode-SoundStep n Opcode.empty_dict p h =
    push_made-Ensures n p (make_dict end) h (record { at = λ v e. make_dict-IsSound end tt e })
run_opcode-SoundStep n Opcode.appends p h = op_appends-SoundStep n p h
run_opcode-SoundStep n Opcode.binget p h = op_get-SoundStep n p 1 h
run_opcode-SoundStep n Opcode.long_binget p h = op_get-SoundStep n p 4 h
run_opcode-SoundStep n Opcode.list p h = op_make-SoundStep n p h make_list list_made
run_opcode-SoundStep n Opcode.empty_list p h =
    push_made-Ensures n p (make_list nil) h (list_made nil tt)
run_opcode-SoundStep n Opcode.binput p h = op_put-SoundStep n p 1 _ h
run_opcode-SoundStep n Opcode.long_binput p h = op_put-SoundStep n p 4 _ h
run_opcode-SoundStep n Opcode.setitem p h = op_setitem-SoundStep n p h
run_opcode-SoundStep n Opcode.tuple p h = op_make-SoundStep n p h make_tuple tuple_made
run_opcode-SoundStep n Opcode.empty_tuple p h =
    push_made-Ensures n p (make_tuple nil) h (tuple_made nil tt)
run_opcode-SoundStep n Opcode.setitems p h = op_setitems-SoundStep n p h
run_opcode-SoundStep n Opcode.binfloat p h = op_binfloat-SoundStep n p h
run_opcode-SoundStep n Opcode.proto p h = op_skip-SoundStep n p h 1
run_opcode-SoundStep n Opcode.tuple1 p h = op_tuple-SoundStep n p h 1 _
run_opcode-SoundStep n Opcode.tuple2 p h = op_tuple-SoundStep n p h 2 _
run_opcode-SoundStep n Opcode.tuple3 p h = op_tuple-SoundStep n p h 3 _
run_opcode-SoundStep n Opcode.newtrue p h = Ensures-ok (push-SoundStep n (boolean true) p tt h)
run_opcode-SoundStep n Opcode.newfalse p h = Ensures-ok (push-SoundStep n (boolean false) p tt h)
run_opcode-SoundStep n Opcode.long1 p h = op_long1-SoundStep n p h
run_opcode-SoundStep n Opcode.binbytes p h = read_text-SoundStep n p h 4 bytes (λ t. tt)
run_opcode-SoundStep n Opcode.short_binbytes p h = read_text-SoundStep n p h 1 bytes (λ t. tt)
run_opcode-SoundStep n Opcode.short_binunicode p h = read_text-SoundStep n p h 1 string (λ t. tt)
run_opcode-SoundStep n Opcode.memoize p h = op_memoize-SoundStep n p h
run_opcode-SoundStep n Opcode.frame p h = op_skip-SoundStep n p h 8

run_byte-SoundStep :
    (n : ℕ) (op : Option Opcode) (p : Parser)
    → SoundParser n p
    → Ensures (SoundStep n) (run_byte op p)
unfolding run_byte
run_byte-SoundStep n none p h = Ensures-throw _
run_byte-SoundStep n (some op) p h = run_opcode-SoundStep n op p h

-- A byte fewer after each round.
parse_value-SoundStep :
    (n : ℕ) (p : Parser) → SoundParser (suc n) p → Ensures (SoundStep n) (parse_value p)
unfolding parse_value read_byte
parse_value-SoundStep n p h = go p.rest refl
  where
    go : (rest : List ℕ) → p.rest ≡ rest → Ensures (SoundStep n) (parse_value p)
    go [] e = rw (e, parse_value, read_byte) (Ensures-throw _)
    go (b ∷ rest) e =
        rw (e, parse_value, read_byte)
          (run_byte-SoundStep n (opcode_of b) (record p { rest = rest })
            (record { stack = h.stack; memo = h.memo; left = omega (arith, ap length e, h.left) }))

-- What the loop comes to from a sound state: a result, which is sound if it is a value.
pub record Loaded (r : Option (Result Value)) : Type 0 where
  pub result : Result Value
  pub ends : r ≡ some result
  pub sound : Ensures IsSound result

parse_loop-Loaded : (fuel : ℕ) (p : Parser) → SoundParser fuel p → Loaded (parse_loop fuel p)
unfolding parse_loop
parse_loop-Loaded zero p h =
    let e : (length p.rest == 0) ≡ true = ground (arith, h.left) in
    rw e (record { result = throw unexpected_end; ends = refl; sound = Ensures-throw _ })
parse_loop-Loaded (suc fuel) p h = elim (Bool-cases (length p.rest == 0)) [
  | inl e ↦ rw e (record { result = throw unexpected_end; ends = refl; sound = Ensures-throw _ })
  | inr e ↦ rw e (go (parse_value p) refl (parse_loop-Loaded fuel))
]
  where
    go :
        (r : Result Step)
        → parse_value p ≡ r
        → ((q : Parser) → SoundParser fuel q → Loaded (parse_loop fuel q))
        → Loaded (elim (parse_value p) [
          | throw e ↦ some (throw e)
          | ok (finished v) ↦ some (ok v)
          | ok (go_on q) ↦ parse_loop fuel q
        ])
    go (throw x) e ih = rw e (record { result = throw x; ends = refl; sound = Ensures-throw x })
    go (ok (finished v)) e ih = rw e (record {
      result = ok v;
      ends = refl;
      sound = Ensures-ok ((parse_value-SoundStep fuel p h).at (finished v) e);
    })
    go (ok (go_on q)) e ih = rw e (ih q ((parse_value-SoundStep fuel p h).at (go_on q) e))

loads-Loaded : (input : List ℕ) → Loaded (loads input)
unfolding loads
loads-Loaded input =
    parse_loop-Loaded (length input) (initial input)
      (record { stack = tt; memo = tt; left = omega arith })

-- On every input the reader ends, with a value or an exception: the fuel of its loop, the length of
-- the input, is always enough.
pub loads_total : (input : List ℕ) → (r : Result Value) × (loads input ≡ some r)
loads_total input = ((loads-Loaded input).result, (loads-Loaded input).ends)

-- In a value that the reader returns, every list, tuple and dictionary at any level carries a depth
-- that is exactly its nesting, and no nesting passes 64 levels.
pub loads-IsSound : (input : List ℕ) (v : Value) → loads input ≡ some (ok v) → IsSound v
loads-IsSound input v h = (loads-Loaded input).sound.at v (cc ((loads-Loaded input).ends))
