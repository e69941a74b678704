-- ===== src/Godot/Keys/State.antt =====
-- src/core/godot/key_recovery.cpp, key_recovery.h: the limits, and the state that the search changes.
pub mod Keeps
use observer_modules.Prelude.{
  ℕ, ◌+◌, ◌-◌, ◌*◌, Bool, true, false, not, ◌||◌, List, [], ◌∷◌, ◌++◌, Option, none, some,
  if◌then◌else◌, ltb, min,
}
use observer_modules.Failure.{Exception, Result, ok, throw, key_recovery_error}
use observer_modules.Stream.{BoundedStream, Reader}

abbrev pub max_recovered_keys : ℕ
max_recovered_keys = 128

pub record KeyRecoveryLimits : Type 0 where
  pub max_scanned_bytes : ℕ
  pub max_instructions : ℕ
  pub max_candidates : ℕ
  pub max_pattern_instructions : ℕ

pub record KeyRecoveryBudget : Type 0 where
  pub scanned_bytes : ℕ
  pub instructions : ℕ
  pub candidates : ℕ

-- The stream of the image, the budget that the caller passes, and the members of `recognizer`; the
-- candidates are the first `candidate_count_` ones of the array.
pub record Recovery : Type 0 where
  pub stream : BoundedStream
  pub budget : KeyRecoveryBudget
  pub globals : List ℕ
  pub candidates : List (List ℕ)

-- How a call ends: it returns, `allowance_exhausted` is thrown, or another exception; the state is the
-- one at that point, but a read that fails leaves the stream in it as it was before.
pub data Outcome (A : Type 0) : Type 0 where
  done : A → Recovery → Outcome A
  exhausted : Recovery → Outcome A
  failed : Exception → Recovery → Outcome A

abbrev pub Search : Type 0 → Type 0
Search A = Recovery → Outcome A

module _ {A : Type 0} where
  abbrev pub pure : A → Search A
  pure a s = done a s

  abbrev pub fail : Exception → Search A
  fail e s = failed e s

  -- A read of the image.
  abbrev pub after_read : Recovery → Result (A × BoundedStream) → Outcome A
  after_read s (throw e) = failed e s
  after_read s (ok (a, t)) =
      done a
        (record { stream = t; budget = s.budget; globals = s.globals; candidates = s.candidates })

  abbrev pub reading : Reader A → Search A
  reading m s = after_read s (m s.stream)

infixl 5 ◌>>=◌ ◌>>◌
abbrev pub ◌>>=◌ : {A B : Type 0} → Search A → (A → Search B) → Search B
◌>>=◌ m f s = elim (m s) [ done a t ↦ f a t | exhausted t ↦ exhausted t | failed e t ↦ failed e t ]

abbrev pub ◌>>◌ : {B : Type 0} → Search (Unit {0}) → Search B → Search B
m >> k = m >>= λ _. k

-- `if (bad) throw key_recovery_error(…);`
abbrev pub reject_if : Bool → Exception → Search (Unit {0})
reject_if true e s = failed e s
reject_if false e s = done tt s

abbrev pub choose : {A : Type 0} → Bool → Search A → Search A → Search A
choose true m k s = m s
choose false m k s = k s

-- The function `charge`: the counter after it, `none` where it answers false.
unfoldable pub charge : ℕ → ℕ → ℕ → Option ℕ
charge used amount limit =
    if ltb limit used || ltb (limit - used) amount then none else some (used + amount)

abbrev pub with_budget : Recovery → KeyRecoveryBudget → Recovery
with_budget s budget = record {
  stream = s.stream;
  budget = budget;
  globals = s.globals;
  candidates = s.candidates;
}

abbrev pub with_globals : Recovery → List ℕ → Recovery
with_globals s globals = record {
  stream = s.stream;
  budget = s.budget;
  globals = globals;
  candidates = s.candidates;
}

abbrev pub with_candidates : Recovery → List (List ℕ) → Recovery
with_candidates s candidates = record {
  stream = s.stream;
  budget = s.budget;
  globals = s.globals;
  candidates = candidates;
}

-- A charge whose failure is thrown: `put` writes the counter back.
abbrev pub charged : Option ℕ → (ℕ → KeyRecoveryBudget) → Search (Unit {0})
charged none put s = exhausted s
charged (some used) put s = done tt (with_budget s (put used))

module _ (limits : KeyRecoveryLimits) where
  unfoldable pub charge_scanned : ℕ → Search (Unit {0})
  unfolding charge
  charge_scanned amount s =
      charged (charge s.budget.scanned_bytes amount limits.max_scanned_bytes)
        (λ used. record {
          scanned_bytes = used;
          instructions = s.budget.instructions;
          candidates = s.budget.candidates;
        })
        s

  unfoldable pub charge_instruction : Search (Unit {0})
  unfolding charge
  charge_instruction s =
      charged (charge s.budget.instructions 1 limits.max_instructions)
        (λ used. record {
          scanned_bytes = s.budget.scanned_bytes;
          instructions = used;
          candidates = s.budget.candidates;
        })
        s

  unfoldable pub charge_candidate : Search (Unit {0})
  unfolding charge
  charge_candidate s =
      charged (charge s.budget.candidates 1 (min limits.max_candidates max_recovered_keys))
        (λ used. record {
          scanned_bytes = s.budget.scanned_bytes;
          instructions = s.budget.instructions;
          candidates = used;
        })
        s
