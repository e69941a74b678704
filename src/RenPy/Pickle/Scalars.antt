-- ===== src/RenPy/Pickle/Scalars.antt =====
-- src/modules/renpy/pickle.cpp: the opcodes of numbers and strings.
use observer_modules.Prelude.{
  ℕ, ◌+◌, ◌-◌, ◌*◌, ◌^◌, ◌&&◌, List, [], ◌∷◌, ltb, leb, ◌==◌, if◌then◌else◌, length, reverse,
}
use observer_modules.Prelude.Int.{ℤ, pos}
use observer_modules.Prelude.Words.{from_le, to_int64}
use observer_modules.Failure.{runtime_error, Result, ok, ◌>>=◌, ◌>>◌, throw_if}
use observer_modules.RenPy.Number.{stoll}
use observer_modules.RenPy.Pickle.Value.{Value, int64, float64}
use observer_modules.RenPy.Pickle.Parser.{
  Parser, Step, read_byte, read_string, read_uint_le, read_line, push,
}

-- The strings of one length byte, or of four.
unfoldable pub read_text : ℕ → (List ℕ → Value) → Parser → Result Step
unfolding read_uint_le push
read_text width make p = do
  (n, rest) ← read_uint_le width p.rest
  (text, rest') ← read_string n rest
  ok (push (make text) (record p { rest = rest' }))

-- An integer of `width` bytes.
unfoldable pub read_int : ℕ → (ℕ → ℤ) → Parser → Result Step
unfolding read_uint_le push
read_int width convert p = do
  (word, rest) ← read_uint_le width p.rest
  ok (push (int64 (convert word)) (record p { rest = rest }))

-- A trailing L is dropped; the text is not empty.
unfoldable pub drop_l : List ℕ → List ℕ
drop_l [] = []
drop_l (c ∷ []) = if c == b'L' then [] else c ∷ []
drop_l (c ∷ d ∷ cs) = c ∷ drop_l (d ∷ cs)

unfoldable pub op_int : Parser → Result Step
unfolding read_line drop_l push
op_int p = do
  (line, rest) ← read_line p.rest
  throw_if (length line == 0) (runtime_error "Empty INT opcode argument")
  n ← stoll (drop_l line)
  ok (push (int64 n) (record p { rest = rest }))

-- std::byteswap of the little-endian word
unfoldable pub op_binfloat : Parser → Result Step
unfolding read_string push
op_binfloat p = do
  (word, rest) ← read_string 8 p.rest
  ok (push (float64 (from_le (reverse word))) (record p { rest = rest }))

-- The sign bits above `n` bytes, if the last byte has its top bit set and is not the eighth.
unfoldable pub sign_extension : ℕ → List ℕ → ℕ
sign_extension n word =
    if ltb n 8 && leb (2 ^ (8 * n - 1)) (from_le word) then 2 ^ 64 - 2 ^ (8 * n) else 0

unfoldable pub op_long1 : Parser → Result Step
unfolding read_byte read_string sign_extension push
op_long1 p = do
  (n, rest) ← read_byte p.rest
  throw_if (ltb 8 n) (runtime_error "LONG1 value does not fit in int64")
  (word, rest') ← read_string n rest
  ok (
      push (int64 (if n == 0 then pos 0 else to_int64 (from_le word + sign_extension n word)))
        (record p { rest = rest' }))
