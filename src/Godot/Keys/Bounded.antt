-- ===== src/Godot/Keys/Bounded.antt =====
-- src/core/godot/key_recovery.cpp: the allowance of a search, and the keys that it keeps.
pub mod Reads
pub mod Patterns
pub mod Passes
use observer_modules.Prelude.{
  ℕ, ◌+◌, ◌-◌, ◌≤◌, ◌≡◌, refl, sym, ◌∙◌, ◌==◌, Bool, true, false, ◌||◌, ◌&&◌, List, [], ◌∷◌, ◌++◌,
  Option, none, some, if◌then◌else◌, ltb, min, length, length-append, bytes_eq, All, Pairwise,
  Pairwise-append, arith,
}
use observer_modules.Failure.{Exception, Result, ok, throw}
use observer_modules.Stream.{BoundedStream, Reader}
use observer_modules.Godot.Keys.State.{
  KeyRecoveryLimits, KeyRecoveryBudget, Recovery, Search, done, exhausted, failed, pure, reading,
  after_read, ◌>>=◌, ◌>>◌, choose, reject_if, charge, charged, charge_scanned, charge_instruction,
  charge_candidate, with_globals, with_budget,
}
use observer_modules.Godot.Keys.State.Keeps.{
  Ended, Leaves, Any, Leaves-pure, Leaves-bind, Leaves-reject, Leaves-choose, Leaves-weaken,
}
use observer_modules.Godot.Keys.Consume.{has_key, put_candidate, admit, put_global}

charge-sum :
    (used amount limit after : ℕ)
    → charge used amount limit ≡ some after
    → (after ≡ used + amount) × (after ≤ limit)
unfolding charge
charge-sum used amount limit after h = ground arith

abbrev pub DiffersKey : List ℕ → List ℕ → Type 0
DiffersKey known key = bytes_eq known key ≡ false

module _ (limits : KeyRecoveryLimits) where
  pub record WithinLimits (budget : KeyRecoveryBudget) : Type 0 where
    pub scanned : budget.scanned_bytes ≤ limits.max_scanned_bytes
    pub decoded : budget.instructions ≤ limits.max_instructions
    pub admitted : budget.candidates ≤ min limits.max_candidates 128

  -- `start` is the counter of candidates at the start of the search.
  pub record IsBounded (start : ℕ) (s : Recovery) : Type 0 where
    pub budget : WithinLimits s.budget
    pub counted : start + length s.candidates ≡ s.budget.candidates
    pub distinct : Pairwise DiffersKey s.candidates

  module _ (start : ℕ) where
    abbrev pub Bounds : {A : Type 0} → Search A → Type 0
    Bounds m = Leaves (IsBounded start) Any m

    pub reading-Bounds : {A : Type 0} (m : Reader A) → Bounds (reading m)
    reading-Bounds {A = A} m = record { ends = λ s i. go s i (m s.stream) }
      where
        go :
            (s : Recovery)
            → IsBounded start s
            → (r : Result (A × BoundedStream)) → Ended (IsBounded start) Any (after_read s r)
        go s i (throw e) = i
        go s i (ok (a, t)) =
            (tt, record { budget = i.budget; counted = i.counted; distinct = i.distinct })

    charged-Bounds :
        (o : Option ℕ) (put : ℕ → KeyRecoveryBudget) (s : Recovery)
        → IsBounded start s
        → ((used : ℕ)
            → o ≡ some used
            → WithinLimits (put used) × ((put used).candidates ≡ s.budget.candidates))
        → Ended (IsBounded start) Any (charged o put s)
    charged-Bounds none put s i h = i
    charged-Bounds (some used) put s i h = (
      tt,
      record {
        budget = (h used refl).0;
        counted = i.counted ∙ sym (h used refl).1;
        distinct = i.distinct;
      },
    )

    pub charge_scanned-Bounds : (amount : ℕ) → Bounds (charge_scanned limits amount)
    unfolding charge_scanned
    charge_scanned-Bounds amount = record {
      ends = λ s i. charged-Bounds _ _ s i λ used e. (
        record {
          scanned = (charge-sum _ _ _ _ e).1;
          decoded = i.budget.decoded;
          admitted = i.budget.admitted;
        },
        refl,
      );
    }

    pub charge_instruction-Bounds : Bounds (charge_instruction limits)
    unfolding charge_instruction
    charge_instruction-Bounds = record {
      ends = λ s i. charged-Bounds _ _ s i λ used e. (
        record {
          scanned = i.budget.scanned;
          decoded = (charge-sum _ _ _ _ e).1;
          admitted = i.budget.admitted;
        },
        refl,
      );
    }

    has_key-DiffersKey :
        (key : List ℕ) (known : List (List ℕ))
        → has_key key known ≡ false
        → All (λ x. DiffersKey x key) known
    unfolding has_key
    has_key-DiffersKey key [] h = tt
    has_key-DiffersKey key (x ∷ known) h =
        (ground arith, has_key-DiffersKey key known (ground arith))

    -- A key that is new, once its charge is made.
    put_candidate-Bounds :
        (o : Option ℕ) (key : List ℕ) (s : Recovery)
        → IsBounded start s
        → has_key key s.candidates ≡ false
        → ((used : ℕ)
            → o ≡ some used
            → (used ≡ s.budget.candidates + 1) × (used ≤ min limits.max_candidates 128))
        → Ended (IsBounded start) Any (
            (charged o (λ used. record {
              scanned_bytes = s.budget.scanned_bytes;
              instructions = s.budget.instructions;
              candidates = used;
            })
                >> put_candidate key)
              s)
    put_candidate-Bounds none key s i h k = i
    put_candidate-Bounds (some used) key s i h k = (
      tt,
      record {
        budget = record {
          scanned = i.budget.scanned;
          decoded = i.budget.decoded;
          admitted = (k used refl).1;
        };
        counted = omega (arith, length-append s.candidates (key ∷ []), i.counted, (k used refl).0);
        distinct =
            Pairwise-append DiffersKey s.candidates key i.distinct
              (has_key-DiffersKey key s.candidates h);
      },
    )

    admit_choice-Bounds :
        (b : Bool) (key : List ℕ) (s : Recovery)
        → IsBounded start s
        → has_key key s.candidates ≡ b
        → Ended
            (IsBounded start)
            Any
            (choose b (pure tt) (charge_candidate limits >> put_candidate key) s)
    unfolding charge_candidate
    admit_choice-Bounds true key s i h = (tt, i)
    admit_choice-Bounds false key s i h =
        put_candidate-Bounds _ key s i h λ used e. charge-sum _ _ _ _ e

    pub admit-Bounds : (key : List ℕ) → Bounds (admit limits key)
    unfolding admit
    admit-Bounds key = record { ends = λ s i. admit_choice-Bounds _ key s i refl }

    pub pure-Bounds : {A : Type 0} (a : A) → Bounds (pure a)
    pure-Bounds a = Leaves-pure (IsBounded start) Any a tt

    pub bind-Bounds :
        {A B : Type 0} (m : Search A) (f : A → Search B)
        → Bounds m
        → ((a : A) → Bounds (f a))
        → Bounds (m >>= f)
    bind-Bounds m f h k = Leaves-bind (IsBounded start) Any Any m f h λ a u. k a

    pub choose-Bounds :
        {A : Type 0} (b : Bool) (m n : Search A) → Bounds m → Bounds n → Bounds (choose b m n)
    choose-Bounds b m n h k = Leaves-choose (IsBounded start) Any b m n (λ e. h) (λ e. k)

    pub reject-Bounds : (b : Bool) (e : Exception) → Bounds (reject_if b e)
    reject-Bounds b e =
        Leaves-weaken (IsBounded start) (λ (u : Unit {0}). b ≡ false) Any (reject_if b e)
          (Leaves-reject (IsBounded start) b e) λ u h. tt
