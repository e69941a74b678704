-- ===== src/RenPy/Pickle/Memo.antt =====
-- src/modules/renpy/pickle.cpp: the opcodes of the memo, those that are skipped, and the last.
use observer_modules.Prelude.{
  ℕ, ◌^◌, ◌%◌, List, [], ◌∷◌, ◌==◌, if◌then◌else◌, length, Option, none, some,
}
use observer_modules.Failure.{Exception, runtime_error, Result, ok, throw, ◌>>=◌}
use observer_modules.RenPy.Pickle.Value.{Value, clone}
use observer_modules.RenPy.Pickle.Parser.{Parser, Step, go_on, finished, read_uint_le, push}

-- `memo_[id] = v`, `memo_.find(id)`
unfoldable pub remember : ℕ → Value → List (ℕ × Value) → List (ℕ × Value)
remember id v [] = (id, v) ∷ []
remember id v ((i, w) ∷ rest) = if i == id then (id, v) ∷ rest else (i, w) ∷ remember id v rest

unfoldable pub recall : ℕ → List (ℕ × Value) → Option Value
recall id [] = none
recall id ((i, w) ∷ rest) = if i == id then some w else recall id rest

-- A clone of the top of the stack goes into the memo.
unfoldable pub put_top : Exception → ℕ → Parser → List Value → Result Step
unfolding remember
put_top missing id p [] = throw missing
put_top missing id p (top ∷ below) = do
  copy ← clone top
  ok (go_on (record p { memo = remember id copy p.memo }))

-- BINPUT, LONG_BINPUT
unfoldable pub op_put : ℕ → Exception → Parser → Result Step
unfolding put_top read_uint_le
op_put width missing p = do
  (id, rest) ← read_uint_le width p.rest
  put_top missing id (record p { rest = rest }) p.stack

unfoldable pub op_memoize : Parser → Result Step
unfolding put_top
op_memoize p =
    put_top (runtime_error "No item on stack for MEMOIZE") (length p.memo % 2 ^ 32) p p.stack

-- A clone of what the memo holds goes onto the stack.
unfoldable pub push_found : Parser → Option Value → Result Step
unfolding push
push_found p none = throw (runtime_error "Memo key not found")
push_found p (some v) = do copy ← clone v; ok (push copy p)

-- BINGET, LONG_BINGET
unfoldable pub op_get : ℕ → Parser → Result Step
unfolding read_uint_le recall push_found
op_get width p = do
  (id, rest) ← read_uint_le width p.rest
  push_found (record p { rest = rest }) (recall id p.memo)

-- PROTO and FRAME read a number and drop it.
unfoldable pub op_skip : ℕ → Parser → Result Step
unfolding read_uint_le
op_skip width p = do (word, rest) ← read_uint_le width p.rest; ok (go_on (record p { rest = rest }))

-- STOP
unfoldable pub op_stop : List Value → Result Step
op_stop (v ∷ []) = ok (finished v)
op_stop stack = throw (runtime_error "Invalid stack size at end of pickle")
