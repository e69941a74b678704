-- ===== src/Stream/Reads.antt =====
-- What the reads of a bounded stream do on success.
use observer_modules.Prelude.{ℕ, ◌+◌, ◌-◌, ◌≤◌, ◌≡◌, refl, List, arith, length, take, drop}
use observer_modules.Prelude.Int.{pos}
use observer_modules.Prelude.Words.{from_le}
use observer_modules.Failure.{ok}
use observer_modules.Stream.{
  BoundedStream, Istream, bounded_stream, position, remaining, seek_absolute, read_exact,
  read_trivial, IsOpen, >>=-eq-ok,
}

-- The same stream, further on.
pub record Later (s t : BoundedStream) : Type 0 where
  pub content : t.content ≡ s.content
  pub size : t.size ≡ s.size

pub Later-refl : (s : BoundedStream) → Later s s
Later-refl s = record { content = refl; size = refl }

pub Later-trans : {s t u : BoundedStream} → Later s t → Later t u → Later s u
Later-trans h k = ground arith

-- A read that returned.
pub record ReadsExact (n : ℕ) (s : BoundedStream) (got : List ℕ) (t : BoundedStream) : Type 0 where
  pub bytes : got ≡ take n (drop s.cursor s.content)
  pub count : length got ≡ n
  pub moved : t.cursor ≡ s.cursor + n
  pub fits : s.cursor + n ≤ s.size
  pub later : Later s t

pub read_exact-eq-ok :
    (n : ℕ) (s : BoundedStream) {got : List ℕ} {t : BoundedStream}
    → read_exact n s ≡ ok (got, t)
    → ReadsExact n s got t
unfolding read_exact
read_exact-eq-ok n s h = ground arith

pub read_trivial-eq-ok :
    (n : ℕ) (s : BoundedStream) {v : ℕ} {t : BoundedStream}
    → read_trivial n s ≡ ok (v, t)
    → (got : List ℕ) × ReadsExact n s got t × (v ≡ from_le got)
unfolding read_trivial
read_trivial-eq-ok n s h =
    let (got, s', e, k) = >>=-eq-ok (read_exact n) _ s h in
    (got, ground (arith, read_exact-eq-ok n s e), ground arith)

pub position-eq-ok :
    (s : BoundedStream) {at : ℕ} {t : BoundedStream}
    → position s ≡ ok (at, t)
    → (at ≡ s.cursor) × (t ≡ s) × (s.cursor ≤ s.size)
unfolding position
position-eq-ok s h = ground arith

pub remaining-eq-ok :
    (s : BoundedStream) {left : ℕ} {t : BoundedStream}
    → remaining s ≡ ok (left, t)
    → (left ≡ s.size - s.cursor) × (t ≡ s) × (s.cursor ≤ s.size)
unfolding remaining
remaining-eq-ok s h = ground arith

pub seek_absolute-eq-ok :
    (n : ℕ) (s : BoundedStream) {u : Unit {0}} {t : BoundedStream}
    → seek_absolute (pos n) s ≡ ok (u, t)
    → (t ≡ record s { cursor = n }) × (n ≤ s.size)
unfolding seek_absolute
seek_absolute-eq-ok n s h = ground arith

-- A stream that is opened is well formed, and every read and move keeps it so.
pub bounded_stream-IsOpen : (f : Istream) {s : BoundedStream} → bounded_stream f ≡ ok s → IsOpen s
unfolding bounded_stream
bounded_stream-IsOpen f h = ground arith

pub read_exact-IsOpen :
    (n : ℕ) (s : BoundedStream) {got : List ℕ} {t : BoundedStream}
    → read_exact n s ≡ ok (got, t)
    → IsOpen s
    → IsOpen t
read_exact-IsOpen n s h o = ground (arith, read_exact-eq-ok n s h)

pub content-bounded_stream :
    (f : Istream) {s : BoundedStream} → bounded_stream f ≡ ok s → s.content ≡ f.content
unfolding bounded_stream
content-bounded_stream f h = ground arith
