-- ===== src/Stream/Ahead.antt =====
-- Reads at known content: what a written file gives back.
use observer_modules.Prelude.{
  ℕ, ◌+◌, ◌≤◌, ◌<◌, ◌^◌, ◌≡◌, refl, sym, ap, ◌∙◌, List, ◌++◌, arith, length, take, drop,
  length-append, length-drop, take-append, drop-append, drop-drop,
}
use observer_modules.Prelude.Words.{to_le, length-to_le, from_le-to_le}
use observer_modules.Failure.{ok}
use observer_modules.Stream.{
  BoundedStream, position, remaining, max_streamsize, read_exact, read_trivial, IsOpen,
}

-- The stream is well formed, and `bytes` is what stands from its position on.
pub record Ahead (s : BoundedStream) (bytes : List ℕ) : Type 0 where
  pub opened : IsOpen s
  pub bytes_are : drop s.cursor s.content ≡ bytes

abbrev pub skip : ℕ → BoundedStream → BoundedStream
skip n s = record s { cursor = s.cursor + n }

pub Ahead-length :
    {s : BoundedStream} (bytes : List ℕ) → Ahead s bytes → s.cursor + length bytes ≡ s.size
Ahead-length {s} bytes h = omega (
  arith,
  ap length h.bytes_are,
  length-drop s.cursor s.content,
  h.opened.measured,
  h.opened.within,
)

pub Ahead-skip :
    {s : BoundedStream} (xs rest : List ℕ) → Ahead s (xs ++ rest) → Ahead (skip (length xs) s) rest
Ahead-skip {s} xs rest h = record {
  opened = record {
    measured = h.opened.measured;
    within = omega (arith, Ahead-length (xs ++ rest) h, length-append xs rest);
  };
  bytes_are =
      sym (drop-drop s.cursor (length xs) (s.cursor + length xs) s.content refl)
      ∙ ap (drop (length xs)) h.bytes_are
      ∙ drop-append xs rest;
}

pub read_exact-Ahead :
    {s : BoundedStream} (xs rest : List ℕ)
    → Ahead s (xs ++ rest)
    → length xs ≤ max_streamsize
    → read_exact (length xs) s ≡ ok (xs, skip (length xs) s)
unfolding read_exact
read_exact-Ahead {s} xs rest h small = ground (
  arith,
  ap (take (length xs)) h.bytes_are,
  take-append xs rest,
  Ahead-length (xs ++ rest) h,
  length-append xs rest,
)

pub read_trivial-Ahead :
    {s : BoundedStream} (n v : ℕ) (rest : List ℕ)
    → Ahead s (to_le n v ++ rest)
    → n ≤ 8
    → v < 256 ^ n
    → read_trivial n s ≡ ok (v, skip n s)
unfolding read_trivial
read_trivial-Ahead {s} n v rest h small fits =
    ground (arith, read_exact-Ahead (to_le n v) rest h, length-to_le n v, from_le-to_le n v fits)

pub remaining-Ahead :
    {s : BoundedStream} (bytes : List ℕ) → Ahead s bytes → remaining s ≡ ok (length bytes, s)
unfolding remaining
remaining-Ahead bytes h = ground (arith, Ahead-length bytes h, h.opened.within)

pub position-Ahead :
    {s : BoundedStream} (bytes : List ℕ) → Ahead s bytes → position s ≡ ok (s.cursor, s)
unfolding position
position-Ahead bytes h = ground (arith, h.opened.within)
