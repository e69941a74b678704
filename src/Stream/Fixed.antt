-- ===== src/Stream/Fixed.antt =====
-- Steps of a chain of reads over one content: each rule passes on where the stream stands and what
-- was read.
use mathlib.Core.Path.{subst}
use observer_modules.Prelude.{ℕ, ◌+◌, ◌≤◌, ◌≡◌, List, take, drop, arith}
use observer_modules.Prelude.Int.{pos}
use observer_modules.Prelude.Words.{from_le}
use observer_modules.Failure.Ensures.{Ensures}
use observer_modules.Stream.{
  BoundedStream, Reader, ◌>>=◌, ◌>>◌, position, seek_absolute, read_exact, read_trivial,
}
use observer_modules.Stream.Reads.{read_trivial-eq-ok}
use observer_modules.Stream.Ensures.{
  Ensures-then, position-Ensures, seek_absolute-Ensures, read_exact-Ensures,
}

-- The stream holds `content`, whose size is `n`.
pub record Holds (content : List ℕ) (n : ℕ) (s : BoundedStream) : Type 0 where
  pub same : s.content ≡ content
  pub size : s.size ≡ n

module _ {content : List ℕ} {n : ℕ} {B : Type 0} {Q : B × BoundedStream → Type 0} where
  pub seek-Holds :
      (k : ℕ) (f : Reader B) (s : BoundedStream)
      → Holds content n s
      → ((t : BoundedStream) → Holds content n t → t.cursor ≡ k → k ≤ n → Ensures Q (f t))
      → Ensures Q ((seek_absolute (pos k) >> f) s)
  seek-Holds k f s h next =
      Ensures-then (seek_absolute (pos k)) _ s (seek_absolute-Ensures s k) λ u t m.
        next t (record { same = ground arith; size = ground arith }) (ground arith)
          (omega (arith, h))

  pub position-Holds :
      (f : ℕ → Reader B) (s : BoundedStream)
      → Holds content n s
      → (s.cursor ≤ n → Ensures Q (f s.cursor s))
      → Ensures Q ((position >>= f) s)
  position-Holds f s h next = Ensures-then position f s (position-Ensures s) λ at t (a, b, c).
      let e : (f s.cursor s) ≡ (f at t) = cc in subst (Ensures Q) e (next (omega (arith, h)))

  pub read-Holds :
      (k : ℕ) (f : List ℕ → Reader B) (s : BoundedStream)
      → Holds content n s
      → ((got : List ℕ) (t : BoundedStream)
          → Holds content n t
          → got ≡ take k (drop s.cursor content)
          → s.cursor + k ≤ n
          → t.cursor ≡ s.cursor + k
          → Ensures Q (f got t))
      → Ensures Q ((read_exact k >>= f) s)
  read-Holds k f s h next = Ensures-then (read_exact k) f s (read_exact-Ensures k s) λ got t r.
      next got t (record { same = ground arith; size = ground arith }) (ground arith)
        (omega (arith, h, r)) (omega (arith, r))

  pub read_trivial-Holds :
      (k : ℕ) (f : ℕ → Reader B) (s : BoundedStream)
      → Holds content n s
      → ((v : ℕ) (t : BoundedStream)
          → Holds content n t
          → v ≡ from_le (take k (drop s.cursor content))
          → s.cursor + k ≤ n
          → t.cursor ≡ s.cursor + k
          → Ensures Q (f v t))
      → Ensures Q ((read_trivial k >>= f) s)
  read_trivial-Holds k f s h next =
      Ensures-then (read_trivial k) f s (record { at = λ r e. read_trivial-eq-ok k s e })
        λ v t (got, r, e).
          next v t (record { same = ground arith; size = ground arith }) (ground arith)
            (omega (arith, h, r)) (omega (arith, r))
