-- ===== src/RenPy/Number.antt =====
-- The number readers of the standard library that src/modules/renpy calls: `std::stoll` in base 10
-- (pickle.cpp) and `std::strtoll` in base 16 (renpy.cpp), on the bytes of a string.
use observer_modules.Prelude.{
  ℕ, zero, suc, ◌+◌, ◌-◌, ◌*◌, ◌^◌, Bool, true, false, not, ◌&&◌, ◌||◌, List, [], ◌∷◌, ltb, leb,
  ◌==◌, if◌then◌else◌, Option, none, some,
}
use observer_modules.Prelude.Int.{ℤ, pos, negsuc}
use observer_modules.Failure.{out_of_range, invalid_argument, Result, ok, throw}

-- std::isspace
abbrev is_space : ℕ → Bool
is_space c = c == b' ' || leb 9 c && leb c 13

pub skip_spaces : List ℕ → List ℕ
skip_spaces [] = []
skip_spaces (c ∷ cs) = let rest = skip_spaces cs in if is_space c then rest else c ∷ cs

-- The value of a digit below `base`.
pub digit_value : ℕ → ℕ → Option ℕ
digit_value base c =
    let v : ℕ =
      if leb b'0' c && leb c b'9'
      then c - b'0'
      else if leb b'a' c && leb c b'f'
      then c - b'a' + 10
      else if leb b'A' c && leb c b'F'
      then c - b'A' + 10
      else base in
    if ltb v base then some v else none

-- The digits in front: their value, and whether there is one.
pub digits_from : ℕ → ℕ → Bool → List ℕ → ℕ × Bool
digits_from base acc seen [] = (acc, seen)
digits_from base acc seen (c ∷ cs) = elim (digit_value base c) [
  | none ↦ (acc, seen)
  | some d ↦ digits_from base (acc * base + d) true cs
]

-- A sign, if there is one: whether it is a minus, and what follows.
pub sign_of : List ℕ → Bool × List ℕ
sign_of [] = (false, [])
sign_of (c ∷ cs) =
    if c == b'-' then (true, cs) else if c == b'+' then (false, cs) else (false, c ∷ cs)

-- The prefix 0x of base 16 counts only before a digit.
pub skip_hex : List ℕ → List ℕ
skip_hex (z ∷ x ∷ d ∷ cs) = elim (digit_value 16 d) [
  | none ↦ z ∷ x ∷ d ∷ cs
  | some v ↦ if z == b'0' && (x == b'x' || x == b'X') then d ∷ cs else z ∷ x ∷ d ∷ cs
]
skip_hex text = text

-- A magnitude with its sign, if it fits an int64_t.
unfoldable pub in_int64 : Bool → ℕ → Option ℤ
in_int64 false n = if ltb n (2 ^ 63) then some (pos n) else none
in_int64 true zero = some (pos 0)
in_int64 true (suc n) = if ltb n (2 ^ 63) then some (negsuc n) else none

unfoldable pub stoll : List ℕ → Result ℤ
stoll text =
    let (negative, body) = sign_of (skip_spaces text) in
    let (value, seen) = digits_from 10 0 false body in
    if not seen
    then throw (invalid_argument "stoll")
    else elim (in_int64 negative value) [ none ↦ throw (out_of_range "stoll") | some n ↦ ok n ]

-- `none` is ERANGE; a text with no number gives zero.
unfoldable pub strtoll_hex : List ℕ → Option ℤ
strtoll_hex text =
    let (negative, body) = sign_of (skip_spaces text) in
    in_int64 negative (digits_from 16 0 false (skip_hex body)).0
