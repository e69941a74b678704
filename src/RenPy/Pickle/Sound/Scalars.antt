-- ===== src/RenPy/Pickle/Sound/Scalars.antt =====
-- The opcodes of numbers, strings and the memo, and the reader's invariant.
use observer_modules.Prelude.{
  ℕ, ◌≤◌, List, [], ◌∷◌, arith, ltb, ◌==◌, length, All, Bool-cases, inl, inr,
}
use observer_modules.Prelude.Int.{ℤ}
use observer_modules.Failure.{Exception}
use observer_modules.Failure.Ensures.{
  Ensures, Ensures-ok, Ensures-throw, Ensures-any, Ensures-bind, Ensures-guard,
}
use observer_modules.RenPy.Number.{stoll}
use observer_modules.RenPy.Pickle.Value.{Value, int64, float64}
use observer_modules.RenPy.Pickle.Parser.{
  Parser, go_on, finished, read_byte, read_string, read_uint_le, read_line,
}
use observer_modules.RenPy.Pickle.Scalars.{
  read_text, read_int, drop_l, op_int, op_binfloat, op_long1,
}
use observer_modules.RenPy.Pickle.Memo.{
  remember, recall, put_top, op_put, op_memoize, push_found, op_get, op_skip, op_stop,
}
use observer_modules.RenPy.Pickle.Depth.{IsSound}
use observer_modules.RenPy.Pickle.Depth.Clone.{clone-eq-ok}
use observer_modules.RenPy.Pickle.Sound.{
  SoundEntry, SoundParser, SoundStep, read_string-Ensures, read_uint_le-Ensures, read_line-Ensures,
  push-SoundStep, at_rest,
}

module _ (n : ℕ) (p : Parser) (h : SoundParser n p) where
  pub read_text-SoundStep :
      (width : ℕ) (make : List ℕ → Value)
      → ((text : List ℕ) → IsSound (make text))
      → Ensures (SoundStep n) (read_text width make p)
  unfolding read_text
  read_text-SoundStep width make sound =
      Ensures-bind (read_uint_le width p.rest) _ (read_uint_le-Ensures width n p.rest h.left)
        λ (k, rest) g.
          Ensures-bind (read_string k rest) _ (read_string-Ensures k n rest g) λ (text, rest') g'.
            Ensures-ok (push-SoundStep n _ _ (sound text) (at_rest p rest' h g'))

  pub read_int-SoundStep :
      (width : ℕ) (convert : ℕ → ℤ) → Ensures (SoundStep n) (read_int width convert p)
  unfolding read_int
  read_int-SoundStep width convert =
      Ensures-bind (read_uint_le width p.rest) _ (read_uint_le-Ensures width n p.rest h.left)
        λ (k, rest) g. Ensures-ok (push-SoundStep n (int64 (convert k)) _ tt (at_rest p rest h g))

  pub op_int-SoundStep : Ensures (SoundStep n) (op_int p)
  unfolding op_int
  op_int-SoundStep =
      Ensures-bind (read_line p.rest) _ (read_line-Ensures n p.rest h.left) λ (line, rest) g.
        Ensures-guard (length line == 0) _ _ λ e.
          Ensures-bind (stoll (drop_l line)) _ (Ensures-any _)
            λ k _. Ensures-ok (push-SoundStep n (int64 k) _ tt (at_rest p rest h g))

  pub op_binfloat-SoundStep : Ensures (SoundStep n) (op_binfloat p)
  unfolding op_binfloat
  op_binfloat-SoundStep =
      Ensures-bind (read_string 8 p.rest) _ (read_string-Ensures 8 n p.rest h.left)
        λ (word, rest) g. Ensures-ok (push-SoundStep n (float64 _) _ tt (at_rest p rest h g))

  pub op_skip-SoundStep : (width : ℕ) → Ensures (SoundStep n) (op_skip width p)
  unfolding op_skip
  op_skip-SoundStep width =
      Ensures-bind (read_uint_le width p.rest) _ (read_uint_le-Ensures width n p.rest h.left)
        λ (word, rest) g. Ensures-ok {a = go_on (record p { rest = rest })} (at_rest p rest h g)

read_byte-Ensures :
    (n : ℕ) (rest : List ℕ)
    → length rest ≤ n
    → Ensures (λ (r : ℕ × List ℕ). length r.1 ≤ n) (read_byte rest)
unfolding read_byte
read_byte-Ensures n [] h = Ensures-throw _
read_byte-Ensures n (b ∷ rest) h = Ensures-ok (omega arith)

pub op_long1-SoundStep : (n : ℕ) (p : Parser) → SoundParser n p → Ensures (SoundStep n) (op_long1 p)
unfolding op_long1
op_long1-SoundStep n p h =
    Ensures-bind (read_byte p.rest) _ (read_byte-Ensures n p.rest h.left) λ (k, rest) g.
      Ensures-guard (ltb 8 k) _ _ λ e.
        Ensures-bind (read_string k rest) _ (read_string-Ensures k n rest g)
          λ (word, rest') g'. Ensures-ok (push-SoundStep n (int64 _) _ tt (at_rest p rest' h g'))

remember-Sound :
    (id : ℕ) (v : Value) (memo : List (ℕ × Value))
    → IsSound v
    → All SoundEntry memo
    → All SoundEntry (remember id v memo)
unfolding remember
remember-Sound id v [] s h = (s, tt)
remember-Sound id v ((i, w) ∷ rest) s h = elim (Bool-cases (i == id)) [
  | inl e ↦ rw e (s, h.1)
  | inr e ↦ rw e (h.0, remember-Sound id v rest s h.1)
]

put_top-SoundStep :
    (n : ℕ) (missing : Exception) (id : ℕ) (p : Parser) (stack : List Value)
    → SoundParser n p
    → All IsSound stack
    → Ensures (SoundStep n) (put_top missing id p stack)
unfolding put_top
put_top-SoundStep n missing id p [] h s = Ensures-throw _
put_top-SoundStep n missing id p (top ∷ below) h s = rw (clone-eq-ok top s.0) (
    Ensures-ok {a = go_on (record p { memo = remember id top p.memo })}
      (record { stack = h.stack; memo = remember-Sound id top p.memo s.0 h.memo; left = h.left }))

pub op_put-SoundStep :
    (n : ℕ) (p : Parser) (width : ℕ) (missing : Exception)
    → SoundParser n p
    → Ensures (SoundStep n) (op_put width missing p)
unfolding op_put
op_put-SoundStep n p width missing h =
    Ensures-bind (read_uint_le width p.rest) _ (read_uint_le-Ensures width n p.rest h.left)
      λ (id, rest) g. put_top-SoundStep n missing id _ p.stack (at_rest p rest h g) h.stack

pub op_memoize-SoundStep :
    (n : ℕ) (p : Parser) → SoundParser n p → Ensures (SoundStep n) (op_memoize p)
unfolding op_memoize
op_memoize-SoundStep n p h = put_top-SoundStep n _ _ p p.stack h h.stack

recall-push :
    (n id : ℕ) (p : Parser) (memo : List (ℕ × Value))
    → SoundParser n p
    → All SoundEntry memo
    → Ensures (SoundStep n) (push_found p (recall id memo))
unfolding recall push_found
recall-push n id p [] h s = Ensures-throw _
recall-push n id p ((i, w) ∷ rest) h s = elim (Bool-cases (i == id)) [
  | inl e ↦ rw (e, clone-eq-ok w s.0) (Ensures-ok (push-SoundStep n w p s.0 h))
  | inr e ↦ rw e (recall-push n id p rest h s.1)
]

pub op_get-SoundStep :
    (n : ℕ) (p : Parser) (width : ℕ) → SoundParser n p → Ensures (SoundStep n) (op_get width p)
unfolding op_get
op_get-SoundStep n p width h =
    Ensures-bind (read_uint_le width p.rest) _ (read_uint_le-Ensures width n p.rest h.left)
      λ (id, rest) g. recall-push n id _ p.memo (at_rest p rest h g) h.memo

pub op_stop-SoundStep :
    (n : ℕ) (stack : List Value) → All IsSound stack → Ensures (SoundStep n) (op_stop stack)
unfolding op_stop
op_stop-SoundStep n [] s = Ensures-throw _
op_stop-SoundStep n (v ∷ []) s = Ensures-ok {a = finished v} s.0
op_stop-SoundStep n (v ∷ w ∷ vs) s = Ensures-throw _
