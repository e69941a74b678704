-- ===== src/Failure/Only.antt =====
-- Calls that throw one exception and no other: one rule for each way to build a chain.
use observer_modules.Prelude.{Bool, true, false, ◌≡◌, ◌⊎◌, inl, inr, refl, ap, if◌then◌else◌}
use observer_modules.Failure.{Exception, Result, ok, throw, ◌>>=◌, throw_if, from_ok}

-- `P` holds of what `r` returns, if it returns, and what it throws, if it throws, is `e`.
pub record Only {ℓ} {A : Type ℓ} (e : Exception) (P : A → Type 0) (r : Result A) : Type ℓ where
  pub at : (a : A) → r ≡ ok a → P a
  pub fails : (x : Exception) → r ≡ throw x → x ≡ e

module _ {ℓ} {A : Type ℓ} {e : Exception} {P : A → Type 0} where
  pub Only-ok : {a : A} → P a → Only e P (ok a)
  Only-ok h = record { at = λ b k. from_ok P h k; fails = λ x k. cc }

  pub Only-throw : Only e P (throw e)
  Only-throw = record { at = λ b h. cc; fails = λ x h. cc }

  pub Only-if :
      (b : Bool) {r s : Result A}
      → (b ≡ true → Only e P r)
      → (b ≡ false → Only e P s)
      → Only e P (if b then r else s)
  Only-if true h k = h refl
  Only-if false h k = k refl

-- A test in front of a recursive call.
pub Only-split {ℓ} :
    {A : Type ℓ} {e : Exception} {P : A → Type 0} (b : Bool) (r s : Result A)
    → (b ≡ true → Only e P r)
    → (b ≡ false → Only e P s)
    → Only e P (elim b [ true ↦ r | false ↦ s ])
Only-split true r s h k = h refl
Only-split false r s h k = k refl

module _ {ℓ} {A B : Type ℓ} {e : Exception} {P : A → Type 0} {Q : B → Type 0} where
  pub Only-bind :
      (m : Result A) (f : A → Result B)
      → Only e P m
      → ((a : A) → P a → Only e Q (f a))
      → Only e Q (m >>= f)
  Only-bind (ok a) f h k = k a (h.at a refl)
  Only-bind (throw x) f h k = record {
    at = λ b q. cc;
    fails = λ y q. let same : x ≡ e = h.fails x refl in cc;
  }

-- The postcondition of a call that returns nothing more than the test.
pub Only-guard {ℓ} :
    {B : Type ℓ} {e : Exception} {Q : B → Type 0} (b : Bool) (f : Unit {0} → Result B)
    → (b ≡ false → Only e Q (f tt))
    → Only e Q (throw_if b e >>= f)
Only-guard true f k = Only-throw
Only-guard false f k = k refl

pub Only-weaken {ℓ} :
    {A : Type ℓ} {e : Exception} {P Q : A → Type 0} (r : Result A)
    → Only e P r
    → ((a : A) → P a → Q a)
    → Only e Q r
Only-weaken r h k = record { at = λ a q. k a (h.at a q); fails = λ x q. h.fails x q }

-- Nothing is said of what is returned.
abbrev pub Any {ℓ} : {A : Type ℓ} → A → Type 0
Any a = Unit

-- The two ends that such a call has.
pub Only-cases {ℓ} :
    {A : Type ℓ} {e : Exception} {P : A → Type 0} (r : Result A)
    → Only e P r
    → ((a : A) × (r ≡ ok a)) ⊎ (r ≡ throw e)
Only-cases (ok a) h = inl (a, refl)
Only-cases (throw x) h = inr (ap throw (h.fails x refl))
