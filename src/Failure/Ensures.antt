-- ===== src/Failure/Ensures.antt =====
-- Postconditions of chains that may throw: one rule for each way to build a chain.
use observer_modules.Prelude.{Bool, true, false, ◌≡◌, refl, if◌then◌else◌}
use observer_modules.Failure.{Exception, Result, ok, throw, ◌>>=◌, throw_if, from_ok}

-- `P` holds of what `r` returns, if it returns.
pub record Ensures {ℓ} {A : Type ℓ} (P : A → Type 0) (r : Result A) : Type ℓ where
  pub at : (a : A) → r ≡ ok a → P a

module _ {ℓ} {A : Type ℓ} {P : A → Type 0} where
  pub Ensures-ok : {a : A} → P a → Ensures P (ok a)
  Ensures-ok h = record { at = λ b e. from_ok P h e }

  pub Ensures-throw : (e : Exception) → Ensures P (throw e)
  Ensures-throw e = record { at = λ b h. cc }

  pub Ensures-if :
      (b : Bool) {r s : Result A}
      → (b ≡ true → Ensures P r)
      → (b ≡ false → Ensures P s)
      → Ensures P (if b then r else s)
  Ensures-if true h k = h refl
  Ensures-if false h k = k refl

pub Ensures-any {ℓ} : {A : Type ℓ} (r : Result A) → Ensures (λ (a : A). Unit {0}) r
Ensures-any r = record { at = λ a e. tt }

module _ {ℓ} {A B : Type ℓ} {P : A → Type 0} {Q : B → Type 0} where
  pub Ensures-bind :
      (m : Result A) (f : A → Result B)
      → Ensures P m
      → ((a : A) → P a → Ensures Q (f a))
      → Ensures Q (m >>= f)
  Ensures-bind (ok a) f h k = k a (h.at a refl)
  Ensures-bind (throw e) f h k = Ensures-throw e

  -- The same of a bind that is written out.
  pub Ensures-elim :
      (m : Result A) (f : A → Result B)
      → Ensures P m
      → ((a : A) → P a → Ensures Q (f a))
      → Ensures Q (elim m [ throw e ↦ throw e | ok a ↦ f a ])
  Ensures-elim (ok a) f h k = k a (h.at a refl)
  Ensures-elim (throw e) f h k = Ensures-throw e

-- A test in front of the rest of the chain.
pub Ensures-guard {ℓ} :
    {B : Type ℓ} {Q : B → Type 0} (b : Bool) (e : Exception) (f : Unit {0} → Result B)
    → (b ≡ false → Ensures Q (f tt))
    → Ensures Q (throw_if b e >>= f)
Ensures-guard true e f k = Ensures-throw e
Ensures-guard false e f k = k refl

pub Ensures-weaken {ℓ} :
    {A : Type ℓ} {P Q : A → Type 0} (r : Result A)
    → Ensures P r
    → ((a : A) → P a → Q a)
    → Ensures Q r
Ensures-weaken r h k = record { at = λ a e. k a (h.at a e) }
