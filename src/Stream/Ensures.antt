-- ===== src/Stream/Ensures.antt =====
-- Postconditions of chains of reads.
use observer_modules.Prelude.{ℕ, ◌+◌, ◌≤◌, ◌≡◌, refl, Bool, true, false, List}
use observer_modules.Prelude.Int.{pos}
use observer_modules.Failure.{Exception, Result, ok, throw}
use observer_modules.Failure.Ensures.{Ensures, Ensures-ok, Ensures-throw}
use observer_modules.Stream.{
  BoundedStream, Istream, Reader, ◌>>=◌, reject_if, choose, lift, bounded_stream, position,
  remaining, seek_absolute, read_exact, read_trivial, with_stream, IsOpen,
}
use observer_modules.Stream.Reads.{
  Later, ReadsExact, read_exact-eq-ok, read_trivial-eq-ok, position-eq-ok, remaining-eq-ok,
  seek_absolute-eq-ok, bounded_stream-IsOpen, content-bounded_stream,
}

module _ {ℓ} {A B : Type ℓ} {P : A × BoundedStream → Type 0} {Q : B × BoundedStream → Type 0} where
  pub Ensures-then :
      (m : Reader A) (f : A → Reader B) (s : BoundedStream)
      → Ensures P (m s)
      → ((a : A) (t : BoundedStream) → P (a, t) → Ensures Q (f a t))
      → Ensures Q ((m >>= f) s)
  Ensures-then m f s h k = go (m s) h
    where
      go :
          (r : Result (A × BoundedStream))
          → Ensures P r
          → Ensures Q (elim r [ ok (a, t) ↦ f a t | throw e ↦ throw e ])
      go (ok (a, t)) g = k a t (g.at (a, t) refl)
      go (throw e) g = Ensures-throw e

module _ {B : Type 0} {Q : B × BoundedStream → Type 0} where
  pub Ensures-reject :
      (b : Bool) (e : Exception) (f : Unit {0} → Reader B) (s : BoundedStream)
      → (b ≡ false → Ensures Q (f tt s))
      → Ensures Q ((reject_if b e >>= f) s)
  Ensures-reject true e f s h = Ensures-throw e
  Ensures-reject false e f s h = h refl

  pub Ensures-choose :
      (b : Bool) (m k : Reader B) (s : BoundedStream)
      → (b ≡ true → Ensures Q (m s))
      → (b ≡ false → Ensures Q (k s))
      → Ensures Q (choose b m k s)
  Ensures-choose true m k s h g = h refl
  Ensures-choose false m k s h g = g refl

  pub Ensures-lift :
      {A : Type 0} {P : A → Type 0} (r : Result A) (f : A → Reader B) (s : BoundedStream)
      → Ensures P r
      → ((a : A) → P a → Ensures Q (f a s))
      → Ensures Q ((lift r >>= f) s)
  Ensures-lift (ok a) f s h k = k a (h.at a refl)
  Ensures-lift (throw e) f s h k = Ensures-throw e

module _ (n : ℕ) (s : BoundedStream) where
  pub read_exact-Ensures :
      Ensures (λ (r : List ℕ × BoundedStream). ReadsExact n s r.0 r.1) (read_exact n s)
  read_exact-Ensures = record { at = λ r e. read_exact-eq-ok n s e }

  pub read_trivial-Ensures :
      Ensures
        (λ (r : ℕ × BoundedStream).
          Later s r.1 × (r.1.cursor ≡ s.cursor + n) × (s.cursor + n ≤ s.size))
        (read_trivial n s)
  read_trivial-Ensures = record {
    at = λ r e.
        let (got, reads, v) = read_trivial-eq-ok n s e in (reads.later, reads.moved, reads.fits);
  }

module _ (s : BoundedStream) where
  pub position-Ensures :
      Ensures
        (λ (r : ℕ × BoundedStream). (r.0 ≡ s.cursor) × (r.1 ≡ s) × (s.cursor ≤ s.size))
        (position s)
  position-Ensures = record { at = λ r e. position-eq-ok s e }

  pub remaining-Ensures : Ensures (λ (r : ℕ × BoundedStream). r.1 ≡ s) (remaining s)
  remaining-Ensures = record { at = λ r e. (remaining-eq-ok s e).1 }

  pub seek_absolute-Ensures :
      (n : ℕ)
      → Ensures
          (λ (r : Unit {0} × BoundedStream). (r.1 ≡ record s { cursor = n }) × (n ≤ s.size))
          (seek_absolute (pos n) s)
  seek_absolute-Ensures n = record { at = λ r e. seek_absolute-eq-ok n s e }

-- A function that opens the stream: what holds behind its body on a fresh stream.
pub with_stream-Ensures {ℓ} :
    {A : Type ℓ} {P : A → Type 0} (m : Reader A) (f : Istream)
    → ((s : BoundedStream)
        → IsOpen s
        → s.content ≡ f.content
        → Ensures (λ (r : A × BoundedStream). P r.0) (m s))
    → Ensures P (with_stream m f)
with_stream-Ensures {A} {P} m f h = go (bounded_stream f) refl
  where
    closed :
        (r : Result (A × BoundedStream))
        → Ensures (λ (x : A × BoundedStream). P x.0) r
        → Ensures P (elim r [ ok (a, t) ↦ ok a | throw e ↦ throw e ])
    closed (ok (a, t)) g = Ensures-ok (g.at (a, t) refl)
    closed (throw e) g = Ensures-throw e

    go :
        (r : Result BoundedStream)
        → bounded_stream f ≡ r
        → Ensures P (elim r [
          | throw e ↦ throw e
          | ok s ↦ elim (m s) [ ok (a, s') ↦ ok a | throw e ↦ throw e ]
        ])
    go (ok s) e = closed (m s) (h s (bounded_stream-IsOpen f e) (content-bounded_stream f e))
    go (throw x) e = Ensures-throw x
