-- ===== src/Failure/Halts.antt =====
-- Calls that do not run out of the fuel of the model: one rule for each way to build a chain.
use observer_modules.Prelude.{Bool, true, false, ◌≡◌, ◌≢◌, ap, if◌then◌else◌}
use observer_modules.Failure.{Exception, Result, ok, throw, ◌>>=◌, throw_if, out_of_fuel}

-- The call returns or throws an exception of the program.
unfoldable pub Halts {ℓ} : {A : Type ℓ} → Result A → Type ℓ
Halts r = r ≢ throw out_of_fuel

pub Halts-bind {ℓ} :
    {A B : Type ℓ} (m : Result A) (f : A → Result B)
    → Halts m
    → ((a : A) → Halts (f a))
    → Halts (m >>= f)
unfolding Halts
Halts-bind (ok a) f h k e = k a e
Halts-bind (throw x) f h k e = let same : x ≡ out_of_fuel = cc in h (ap throw same)

pub Halts-throw {ℓ} : (A : Type ℓ) (x : Exception) → x ≢ out_of_fuel → Halts {A = A} (throw x)
unfolding Halts
Halts-throw A x h e = let same : x ≡ out_of_fuel = cc in h same

module _ {ℓ} {A : Type ℓ} where
  pub Halts-ok : (a : A) → Halts (ok a)
  unfolding Halts
  Halts-ok a e = cc

  pub Halts-guard :
      (b : Bool) (x : Exception) (f : Unit {0} → Result A)
      → x ≢ out_of_fuel
      → Halts (f tt)
      → Halts (throw_if b x >>= f)
  Halts-guard true x f h k = Halts-throw A x h
  Halts-guard false x f h k = k

  pub Halts-split :
      (b : Bool) (r s : Result A) → Halts r → Halts s → Halts (elim b [ true ↦ r | false ↦ s ])
  Halts-split true r s h k = h
  Halts-split false r s h k = k

  pub Halts-if : (b : Bool) (r s : Result A) → Halts r → Halts s → Halts (if b then r else s)
  Halts-if true r s h k = h
  Halts-if false r s h k = k
