-- ===== src/Stream.antt =====
-- src/core/io/bounded_stream.h, bounded_stream.cpp: reads checked against the size of an input
-- stream. The stream below (std::istream over a file) is its bytes and its position; on a failed
-- read the object is given up by every caller, so an error carries no stream.
pub mod Reads
pub mod Ahead
pub mod Ensures
pub mod Fixed
use observer_modules.Prelude.{
  ℕ, ◌+◌, ◌-◌, ◌^◌, ◌≤◌, ◌≡◌, refl, Bool, true, false, not, List, arith, ltb, ◌==◌, if◌then◌else◌,
  length, take, drop,
}
use observer_modules.Prelude.Int.{ℤ, pos, negsuc}
use observer_modules.Prelude.Words.{from_le}
use observer_modules.Failure.{Exception, stream_read, Result, ok, throw}

pub record Istream : Type 0 where
  pub content : List ℕ
  pub cursor : ℕ

pub record BoundedStream : Type 0 where
  pub content : List ℕ
  pub cursor : ℕ
  pub size : ℕ

-- A member function that reads or moves the stream.
abbrev pub Reader {ℓ} : Type ℓ → Type ℓ
Reader A = BoundedStream → Result (A × BoundedStream)

module _ {ℓ} {A : Type ℓ} where
  abbrev pub pure : A → Reader A
  pure a s = ok (a, s)

  abbrev pub fail : Exception → Reader A
  fail e s = throw e

  abbrev pub lift : Result A → Reader A
  lift r s = elim r [ ok a ↦ ok (a, s) | throw e ↦ throw e ]

infixl 5 ◌>>=◌ ◌>>◌
abbrev pub ◌>>=◌ {ℓ κ} : {A : Type ℓ} {B : Type κ} → Reader A → (A → Reader B) → Reader B
◌>>=◌ m f s = elim (m s) [ ok (a, s') ↦ f a s' | throw e ↦ throw e ]

abbrev pub ◌>>◌ {ℓ} : {B : Type ℓ} → Reader (Unit {0}) → Reader B → Reader B
m >> k = m >>= λ _. k

-- `if (bad) throw e;`
abbrev pub reject_if : Bool → Exception → Reader (Unit {0})
reject_if true e s = throw e
reject_if false e s = ok (tt, s)

-- A branch of a chain.
abbrev pub choose {ℓ} : {A : Type ℓ} → Bool → Reader A → Reader A → Reader A
choose true m k s = m s
choose false m k s = k s

-- The constructor: it measures the stream and goes back to where it stood.
unfoldable pub bounded_stream : Istream → Result BoundedStream
bounded_stream stream =
    let end : ℕ = length stream.content in
    if ltb end stream.cursor
    then throw stream_read
    else ok (record { content = stream.content; cursor = stream.cursor; size = end })

unfoldable pub size : Reader ℕ
size s = ok (s.size, s)

unfoldable pub position : Reader ℕ
position s = (do reject_if (ltb s.size s.cursor) stream_read; pure s.cursor) s

unfoldable pub remaining : Reader ℕ
unfolding position
remaining s = (do at ← position; pure (s.size - at)) s

unfoldable pub seek_absolute : ℤ → Reader (Unit {0})
seek_absolute (negsuc n) s = throw stream_read
seek_absolute (pos n) s =
    (do reject_if (ltb s.size n) stream_read; λ t. ok (tt, record t { cursor = n })) s

-- std::numeric_limits<std::streamsize>::max()
abbrev pub max_streamsize : ℕ
max_streamsize = 2 ^ 63 - 1

-- `stream_.read` and the test of `gcount`.
unfoldable pub read_raw : ℕ → Reader (List ℕ)
read_raw n s =
    let got : List ℕ = take n (drop s.cursor s.content) in
    (do
      reject_if (not (length got == n)) stream_read
      λ t. ok (got, record t { cursor = t.cursor + n }))
      s

unfoldable pub read_exact : ℕ → Reader (List ℕ)
unfolding remaining read_raw
read_exact n = do
  reject_if (ltb max_streamsize n) stream_read
  left ← remaining
  reject_if (ltb left n) stream_read
  read_raw n

-- `read_trivial<Value>` for an unsigned integer of n bytes.
unfoldable pub read_trivial : ℕ → Reader ℕ
unfolding read_exact
read_trivial n = do bytes ← read_exact n; pure (from_le bytes)

-- A function that opens the stream and gives it up at its end.
abbrev pub with_stream {ℓ} : {A : Type ℓ} → Reader A → Istream → Result A
with_stream m stream = elim (bounded_stream stream) [
  | throw e ↦ throw e
  | ok s ↦ elim (m s) [ ok (a, s') ↦ ok a | throw e ↦ throw e ]
]

-- The size is that of the content, and the position does not pass it.
pub record IsOpen (s : BoundedStream) : Type 0 where
  pub measured : s.size ≡ length s.content
  pub within : s.cursor ≤ s.size

-- Inversion of a chain that returned.
pub >>=-eq-ok {ℓ κ} :
    {A : Type ℓ} {B : Type κ} (m : Reader A) (f : A → Reader B) (s : BoundedStream) {b : B}
    {t : BoundedStream}
    → (m >>= f) s ≡ ok (b, t)
    → (a : A) × (s' : BoundedStream) × (m s ≡ ok (a, s')) × (f a s' ≡ ok (b, t))
>>=-eq-ok m f s {b} {t} h = go (m s) refl h
  where
    go :
        (r : Result (_ × BoundedStream))
        → m s ≡ r
        → (elim r [ ok (a, s') ↦ f a s' | throw e ↦ throw e ]) ≡ ok (b, t)
        → (a : _) × (s' : BoundedStream) × (m s ≡ ok (a, s')) × (f a s' ≡ ok (b, t))
    go (ok (a, s')) e k = (a, s', e, k)
    go (throw x) e k = cc
