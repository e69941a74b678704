-- ===== src/RenPy/Pickle/Parser.antt =====
-- src/modules/renpy/pickle.cpp: the state of the reader and its reads. `rest` is what stands behind
-- `pos_`, which only moves forward; the top of the stack and of the marks comes first.
use observer_modules.Prelude.{
  ℕ, ◌-◌, List, [], ◌∷◌, ltb, ◌==◌, if◌then◌else◌, length, take, drop, reverse,
}
use observer_modules.Prelude.Words.{from_le}
use observer_modules.Failure.{Exception, runtime_error, Result, ok, throw, ◌>>=◌}
use observer_modules.RenPy.Pickle.Value.{Value, Items, to_items}

pub record Parser : Type 0 where
  pub rest : List ℕ
  pub stack : List Value
  pub marks : List ℕ
  pub memo : List (ℕ × Value)

-- What an opcode does: the reader goes on, or the value is there.
pub data Step : Type 0 where
  go_on : Parser → Step
  finished : Value → Step

abbrev pub unexpected_end : Exception
unexpected_end = runtime_error "Unexpected end of pickle data"

-- read_byte
unfoldable pub read_byte : List ℕ → Result (ℕ × List ℕ)
read_byte [] = throw unexpected_end
read_byte (b ∷ rest) = ok (b, rest)

-- read_string
unfoldable pub read_string : ℕ → List ℕ → Result (List ℕ × List ℕ)
read_string n rest =
    if ltb (length rest) n then throw unexpected_end else ok (take n rest, drop n rest)

-- read_uint16_le, read_uint32_le, read_uint64_le for n = 2, 4, 8
unfoldable pub read_uint_le : ℕ → List ℕ → Result (ℕ × List ℕ)
unfolding read_string
read_uint_le n rest = do (word, rest') ← read_string n rest; ok (from_le word, rest')

-- read_line: the bytes before the newline, and those behind it
unfoldable pub read_line : List ℕ → Result (List ℕ × List ℕ)
read_line [] = throw unexpected_end
read_line (b ∷ rest) =
    let later = read_line rest in
    if b == b'\n' then ok ([], rest) else (do (line, rest') ← later; ok (b ∷ line, rest'))

unfoldable pub push : Value → Parser → Step
push v p = go_on (record p { stack = v ∷ p.stack })

-- The `push_back` of a value that may not have been made.
unfoldable pub push_made : Parser → Result Value → Result Step
push_made p made = do v ← made; ok (push v p)

-- push_mark
unfoldable pub push_mark : Parser → Step
push_mark p = go_on (record p { marks = length p.stack ∷ p.marks })

-- pop_to_mark: the items above the mark, the lowest first, and the reader without them.
unfoldable pub pop_to_mark : Parser → Result (Items × Parser)
pop_to_mark p = elim p.marks [
  | [] ↦ throw (runtime_error "No mark on stack")
  | mark_pos ∷ marks ↦
      if ltb (length p.stack) mark_pos
      then throw (runtime_error "Invalid mark position")
      else let count : ℕ = length p.stack - mark_pos in
        ok (
          to_items (reverse (take count p.stack)),
          record p { stack = drop count p.stack; marks = marks },
        )
]
