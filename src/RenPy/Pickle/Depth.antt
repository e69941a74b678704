-- ===== src/RenPy/Pickle/Depth.antt =====
-- The nesting of a pickle value, and what `depth_` in pickle.cpp has to say of it.
pub mod Make
pub mod Assign
pub mod Clone
use observer_modules.Prelude.{ℕ, suc, ◌+◌, ◌≤◌, ◌<◌, ◌≡◌, refl, max, arith}
use observer_modules.Failure.{ok}
use observer_modules.RenPy.Pickle.Value.{
  Value, null, boolean, int64, float64, bytes, string, list, tuple, dict, Items, nil, cons, Fields,
  end, field, depth_, max_depth, items_depth, fields_depth,
}

-- The container levels of a value, counted in full.
abbrev mutual
  pub nesting : Value → ℕ
  nesting (list d xs) = suc (nesting_items xs)
  nesting (tuple d xs) = suc (nesting_items xs)
  nesting (dict d fs) = suc (nesting_fields fs)
  nesting null = 0
  nesting (boolean b) = 0
  nesting (int64 n) = 0
  nesting (float64 n) = 0
  nesting (bytes s) = 0
  nesting (string s) = 0

  pub nesting_items : Items → ℕ
  nesting_items nil = 0
  nesting_items (cons v vs) = max (nesting v) (nesting_items vs)

  pub nesting_fields : Fields → ℕ
  nesting_fields end = 0
  nesting_fields (field k v rest) = max (nesting v) (nesting_fields rest)

-- Every container in a value caches its nesting, which is within the limit.
abbrev mutual
  pub IsSound : Value → Type 0
  IsSound (list d xs) = (d ≡ suc (nesting_items xs)) × (d ≤ max_depth) × SoundItems xs
  IsSound (tuple d xs) = (d ≡ suc (nesting_items xs)) × (d ≤ max_depth) × SoundItems xs
  IsSound (dict d fs) = (d ≡ suc (nesting_fields fs)) × (d ≤ max_depth) × SoundFields fs
  IsSound null = Unit {0}
  IsSound (boolean b) = Unit {0}
  IsSound (int64 n) = Unit {0}
  IsSound (float64 n) = Unit {0}
  IsSound (bytes s) = Unit {0}
  IsSound (string s) = Unit {0}

  pub SoundItems : Items → Type 0
  SoundItems nil = Unit {0}
  SoundItems (cons v vs) = IsSound v × SoundItems vs

  pub SoundFields : Fields → Type 0
  SoundFields end = Unit {0}
  SoundFields (field k v rest) = IsSound v × SoundFields rest

pub depth_nesting : (v : Value) → IsSound v → depth_ v ≡ nesting v
depth_nesting (list d xs) h = h.0
depth_nesting (tuple d xs) h = h.0
depth_nesting (dict d fs) h = h.0
depth_nesting _ h = refl

-- The folds of the code over sound children.
pub items_depth-eq-ok :
    (d₀ : ℕ) (xs : Items) {d : ℕ}
    → 1 ≤ d₀
    → d₀ ≤ max_depth
    → SoundItems xs
    → items_depth d₀ xs ≡ ok d
    → (d ≡ max d₀ (suc (nesting_items xs))) × (d ≤ max_depth)
unfolding items_depth
items_depth-eq-ok d₀ nil {d} one small s e = ground arith
items_depth-eq-ok d₀ (cons v vs) {d} one small s e =
    ground (arith, depth_nesting v s.0, items_depth-eq-ok (max d₀ (depth_ v + 1)) vs {d = d})

pub fields_depth-eq-ok :
    (d₀ : ℕ) (fs : Fields) {d : ℕ}
    → 1 ≤ d₀
    → d₀ ≤ max_depth
    → SoundFields fs
    → fields_depth d₀ fs ≡ ok d
    → (d ≡ max d₀ (suc (nesting_fields fs))) × (d ≤ max_depth)
unfolding fields_depth
fields_depth-eq-ok d₀ end {d} one small s e = ground arith
fields_depth-eq-ok d₀ (field k v rest) {d} one small s e =
    ground (arith, depth_nesting v s.0, fields_depth-eq-ok (max d₀ (depth_ v + 1)) rest {d = d})

-- The folds do not throw below the limit.
pub items_depth_fits :
    (d₀ : ℕ) (xs : Items)
    → SoundItems xs
    → nesting_items xs < max_depth
    → 1 ≤ d₀
    → items_depth d₀ xs ≡ ok (max d₀ (suc (nesting_items xs)))
unfolding items_depth
items_depth_fits d₀ nil s small one = ground arith
items_depth_fits d₀ (cons v vs) s small one =
    ground (arith, depth_nesting v s.0, items_depth_fits (max d₀ (depth_ v + 1)) vs)

pub fields_depth_fits :
    (d₀ : ℕ) (fs : Fields)
    → SoundFields fs
    → nesting_fields fs < max_depth
    → 1 ≤ d₀
    → fields_depth d₀ fs ≡ ok (max d₀ (suc (nesting_fields fs)))
unfolding fields_depth
fields_depth_fits d₀ end s small one = ground arith
fields_depth_fits d₀ (field k v rest) s small one =
    ground (arith, depth_nesting v s.0, fields_depth_fits (max d₀ (depth_ v + 1)) rest)
