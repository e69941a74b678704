-- ===== src/Godot/Keys/State/Keeps.antt =====
-- src/core/godot/key_recovery.cpp: invariants of a search, on every way that a call can end, and
-- postconditions of what it returns. One rule for each way to build a chain.
use observer_modules.Prelude.{◌≡◌, refl, Bool, true, false}
use observer_modules.Failure.{Exception}
use observer_modules.Godot.Keys.State.{
  Recovery, Outcome, done, exhausted, failed, Search, pure, ◌>>=◌, reject_if, choose,
}

abbrev pub Ended : {A : Type 0} → (Recovery → Type 0) → (A → Type 0) → Outcome A → Type 0
Ended I P (done a s) = P a × I s
Ended I P (exhausted s) = I s
Ended I P (failed e s) = I s

-- A call keeps `I`, and `P` holds of what it returns.
pub record Leaves {A : Type 0} (I : Recovery → Type 0) (P : A → Type 0) (m : Search A)
    : Type 0 where
  pub ends : (s : Recovery) → I s → Ended I P (m s)

abbrev pub Any : {A : Type 0} → A → Type 0
Any a = Unit

module _ (I : Recovery → Type 0) where
  pub Leaves-pure : {A : Type 0} (P : A → Type 0) (a : A) → P a → Leaves I P (pure a)
  Leaves-pure P a h = record { ends = λ s i. (h, i) }

  pub Leaves-bind :
      {A B : Type 0} (P : A → Type 0) (Q : B → Type 0) (m : Search A) (f : A → Search B)
      → Leaves I P m
      → ((a : A) → P a → Leaves I Q (f a))
      → Leaves I Q (m >>= f)
  Leaves-bind P Q m f h k = record { ends = λ s i. go (m s) (h.ends s i) }
    where
      go :
          (o : Outcome _)
          → Ended I P o
          → Ended I Q
              (elim o [ done a t ↦ f a t | exhausted t ↦ exhausted t | failed e t ↦ failed e t ])
      go (done a t) (p, i) = (k a p).ends t i
      go (exhausted t) i = i
      go (failed e t) i = i

  pub Leaves-reject :
      (b : Bool) (e : Exception) → Leaves I (λ (u : Unit {0}). b ≡ false) (reject_if b e)
  Leaves-reject true e = record { ends = λ s i. i }
  Leaves-reject false e = record { ends = λ s i. (refl, i) }

  pub Leaves-choose :
      {A : Type 0} (P : A → Type 0) (b : Bool) (m n : Search A)
      → (b ≡ true → Leaves I P m)
      → (b ≡ false → Leaves I P n)
      → Leaves I P (choose b m n)
  Leaves-choose P true m n h k = record { ends = λ s i. (h refl).ends s i }
  Leaves-choose P false m n h k = record { ends = λ s i. (k refl).ends s i }

  pub Leaves-weaken :
      {A : Type 0} (P Q : A → Type 0) (m : Search A)
      → Leaves I P m
      → ((a : A) → P a → Q a)
      → Leaves I Q m
  Leaves-weaken P Q m h k = record { ends = λ s i. go (m s) (h.ends s i) }
    where
      go : (o : Outcome _) → Ended I P o → Ended I Q o
      go (done a t) (p, i) = (k a p, i)
      go (exhausted t) i = i
      go (failed e t) i = i

  -- A call that returns in a state of `J`, which the next one starts from.
  abbrev pub ReturnsIn : {A : Type 0} → (Recovery → Type 0) → Outcome A → Type 0
  ReturnsIn J (done a s) = J s
  ReturnsIn J (exhausted s) = I s
  ReturnsIn J (failed e s) = I s

  pub Leaves-after :
      {A B : Type 0} (J : Recovery → Type 0) (Q : B → Type 0) (m : Search A) (f : A → Search B)
      → ((s : Recovery) → I s → ReturnsIn J (m s))
      → ((a : A) (s : Recovery) → J s → Ended I Q (f a s))
      → Leaves I Q (m >>= f)
  Leaves-after {A = A} J Q m f h k = record { ends = λ s i. go (m s) (h s i) }
    where
      go :
          (o : Outcome A)
          → ReturnsIn J o
          → Ended I Q
              (elim o [ done a t ↦ f a t | exhausted t ↦ exhausted t | failed e t ↦ failed e t ])
      go (done a t) j = k a t j
      go (exhausted t) i = i
      go (failed e t) i = i
