-- ===== src/RenPy/Pickle/Sound.antt =====
-- The invariant of the pickle reader: every value it holds has its depth right, and no step gives
-- bytes back.
pub mod Scalars
pub mod Containers
pub mod Loads
use observer_modules.Prelude.{
  ℕ, zero, suc, ◌+◌, ◌-◌, ◌≤◌, ◌<◌, ◌≡◌, refl, Bool, true, false, List, [], ◌∷◌, arith, ltb, ◌==◌,
  length, take, drop, reverse, All, All-take, All-drop, All-reverse, length-drop, Option, none,
  some,
}
use observer_modules.Failure.{Result, ok, throw, ◌>>=◌}
use observer_modules.Failure.Ensures.{
  Ensures, Ensures-ok, Ensures-throw, Ensures-if, Ensures-any, Ensures-bind, Ensures-guard,
}
use observer_modules.RenPy.Pickle.Value.{Value, Items, nil, cons, to_items, from_items}
use observer_modules.RenPy.Pickle.Parser.{
  Parser, Step, go_on, finished, read_byte, read_string, read_uint_le, read_line, push, push_made,
  push_mark, pop_to_mark,
}
use observer_modules.RenPy.Pickle.Depth.{IsSound, SoundItems}

abbrev pub SoundEntry : ℕ × Value → Type 0
SoundEntry (id, v) = IsSound v

-- A reader whose stack and memo are sound, with at most n bytes to go.
pub record SoundParser (n : ℕ) (p : Parser) : Type 0 where
  pub stack : All IsSound p.stack
  pub memo : All SoundEntry p.memo
  pub left : length p.rest ≤ n

abbrev pub SoundStep : ℕ → Step → Type 0
SoundStep n (go_on p) = SoundParser n p
SoundStep n (finished v) = IsSound v

abbrev pub Shorter {ℓ} : {A : Type ℓ} → ℕ → A × List ℕ → Type 0
Shorter n (a, rest) = length rest ≤ n

pub read_string-Ensures :
    (k n : ℕ) (rest : List ℕ) → length rest ≤ n → Ensures (Shorter n) (read_string k rest)
unfolding read_string
read_string-Ensures k n rest h =
    Ensures-if (ltb (length rest) k) (λ e. Ensures-throw _)
      (λ e. Ensures-ok {a = (take k rest, drop k rest)} (omega (arith, length-drop k rest)))

pub read_uint_le-Ensures :
    (k n : ℕ) (rest : List ℕ) → length rest ≤ n → Ensures (Shorter n) (read_uint_le k rest)
unfolding read_uint_le
read_uint_le-Ensures k n rest h =
    Ensures-bind (read_string k rest) _ (read_string-Ensures k n rest h) (λ (a, b) g. Ensures-ok g)

pub read_line-Ensures :
    (n : ℕ) (rest : List ℕ) → length rest ≤ n → Ensures (Shorter n) (read_line rest)
unfolding read_line
read_line-Ensures n [] h = Ensures-throw _
read_line-Ensures n (b ∷ rest) h =
    Ensures-if (b == b'\n') (λ e. Ensures-ok {a = ([], rest)} (omega arith))
      (λ e.
        Ensures-bind (read_line rest) _ (read_line-Ensures n rest (omega arith))
          (λ (a, c) g. Ensures-ok g))

-- A read in front of the rest of an operation.
pub push-SoundStep :
    (n : ℕ) (v : Value) (p : Parser) → IsSound v → SoundParser n p → SoundStep n (push v p)
unfolding push
push-SoundStep n v p s h = record { stack = (s, h.stack); memo = h.memo; left = h.left }

pub at_rest :
    {n : ℕ} (p : Parser) (rest : List ℕ)
    → SoundParser n p
    → length rest ≤ n
    → SoundParser n (record p { rest = rest })
at_rest p rest h k = record { stack = h.stack; memo = h.memo; left = k }

pub push_made-Ensures :
    (n : ℕ) (p : Parser) (made : Result Value)
    → SoundParser n p
    → Ensures IsSound made
    → Ensures (SoundStep n) (push_made p made)
unfolding push_made
push_made-Ensures n p made h s =
    Ensures-bind made _ s (λ v t. Ensures-ok {a = push v p} (push-SoundStep n v p t h))

pub to_items-Sound : (vs : List Value) → All IsSound vs → SoundItems (to_items vs)
to_items-Sound [] h = tt
to_items-Sound (v ∷ vs) h = (h.0, to_items-Sound vs h.1)

pub from_items-Sound : (xs : Items) → SoundItems xs → All IsSound (from_items xs)
from_items-Sound nil h = tt
from_items-Sound (cons v vs) h = (h.0, from_items-Sound vs h.1)

abbrev pub Popped : ℕ → Items × Parser → Type 0
Popped n (items, q) = SoundItems items × SoundParser n q

pub pop_to_mark-Ensures :
    (n : ℕ) (p : Parser) → SoundParser n p → Ensures (Popped n) (pop_to_mark p)
unfolding pop_to_mark
pop_to_mark-Ensures n p h = go p.marks refl
  where
    go : (marks : List ℕ) → p.marks ≡ marks → Ensures (Popped n) (pop_to_mark p)
    go [] e = rw (e, pop_to_mark) (Ensures-throw _)
    go (mark_pos ∷ marks) e =
        rw (e, pop_to_mark)
          (Ensures-if (ltb (length p.stack) mark_pos) (λ b. Ensures-throw _)
            (λ b. Ensures-ok (
              to_items-Sound (reverse (take (length p.stack - mark_pos) p.stack)) (
                  All-reverse IsSound _
                    (All-take IsSound (length p.stack - mark_pos) p.stack h.stack)),
              record {
                stack = All-drop IsSound (length p.stack - mark_pos) p.stack h.stack;
                memo = h.memo;
                left = h.left;
              },
            )))
