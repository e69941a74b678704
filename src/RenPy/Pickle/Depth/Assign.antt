-- ===== src/RenPy/Pickle/Depth/Assign.antt =====
-- `value::set` of pickle.cpp: the cached depth of a dictionary after an entry is stored or replaced.
use mathlib.Core.Path.{subst}
use observer_modules.Prelude.{
  ℕ, suc, ◌≤◌, ◌≡◌, refl, Bool, true, false, List, max, arith, bytes_eq, Bool-cases, Option-cases,
  none, some, inl, inr,
}
use observer_modules.Failure.{ok, >>=-eq-ok, from_ok}
use observer_modules.RenPy.Pickle.Value.{
  Value, dict, Fields, end, field, max_depth, checked_child_depth, fields_depth, find, assign,
  set_field, must_recompute, with_depth,
}
use observer_modules.RenPy.Pickle.Depth.{
  nesting, nesting_fields, IsSound, SoundFields, depth_nesting, fields_depth-eq-ok,
}
use observer_modules.RenPy.Pickle.Depth.Make.{checked_child_depth-eq-ok}

pub assign-Sound :
    (key : List ℕ) (child : Value) (fs : Fields)
    → IsSound child
    → SoundFields fs
    → SoundFields (assign key child fs)
unfolding assign
assign-Sound key child end s t = (s, tt)
assign-Sound key child (field k v rest) s t = elim (Bool-cases (bytes_eq k key)) [
  | inl e ↦ rw e (s, t.1)
  | inr e ↦ rw e (t.0, assign-Sound key child rest s t.1)
]

find-IsSound :
    (key : List ℕ) (fs : Fields) {v : Value} → SoundFields fs → find key fs ≡ some v → IsSound v
unfolding find
find-IsSound key end s e = cc
find-IsSound key (field k v rest) {v = w} s e = elim (Bool-cases (bytes_eq k key)) [
  | inl b ↦ subst IsSound (ground arith) s.0
  | inr b ↦ find-IsSound key rest s.1 (ground arith)
]

-- A new key joins the entries.
nesting-assign_new :
    (key : List ℕ) (child : Value) (fs : Fields)
    → find key fs ≡ none
    → nesting_fields (assign key child fs) ≡ max (nesting_fields fs) (nesting child)
unfolding find assign
nesting-assign_new key child end e = omega arith
nesting-assign_new key child (field k v rest) e = ground (arith, nesting-assign_new key child rest)

-- A known key takes the place of its entry; the other entries stay.
record Replaces (child old : Value) (before after : ℕ) : Type 0 where
  below : after ≤ max before (nesting child)
  kept : before ≤ max after (nesting old)
  covers : nesting child ≤ after
  counted : nesting old ≤ before

nesting-assign_old :
    (key : List ℕ) (child : Value) (fs : Fields) {old : Value}
    → find key fs ≡ some old
    → Replaces child old (nesting_fields fs) (nesting_fields (assign key child fs))
unfolding find assign
nesting-assign_old key child end e = cc
nesting-assign_old key child (field k v rest) {old = old} e =
    ground (arith, nesting-assign_old key child rest {old = old})

-- Both ends of `value::set`: counted anew, or from the depths at hand.
with_depth-IsSound :
    (recount : Bool) (depth : ℕ) (fs : Fields) {v : Value}
    → SoundFields fs
    → depth ≤ max_depth
    → (recount ≡ false → depth ≡ suc (nesting_fields fs))
    → with_depth recount depth fs ≡ ok v
    → IsSound v
unfolding with_depth
with_depth-IsSound true depth fs s small exact e =
    let (d, counted, made) = >>=-eq-ok (fields_depth 1 fs) (λ d. ok (dict d fs)) e in
    let (d_is, within) = fields_depth-eq-ok 1 fs (omega arith) (omega arith) s counted in
    from_ok IsSound (omega arith, within, s) made
with_depth-IsSound false depth fs s small exact e = from_ok IsSound (exact refl, small, s) e

-- Without a recount the larger of the two depths is right.
depth_kept :
    (depth : ℕ) (fs : Fields) (key : List ℕ) (child : Value) (child_depth : ℕ)
    → depth ≡ suc (nesting_fields fs)
    → SoundFields fs
    → child_depth ≡ suc (nesting child)
    → must_recompute depth child_depth (find key fs) ≡ false
    → max depth child_depth ≡ suc (nesting_fields (assign key child fs))
unfolding must_recompute
depth_kept depth fs key child child_depth d s c r = elim (Option-cases (find key fs)) [
  | inl missing ↦ omega (arith, nesting-assign_new key child fs missing)
  | inr (old, found) ↦ ground (
    arith,
    nesting-assign_old key child fs found,
    depth_nesting old (find-IsSound key fs s found),
  )
]

-- `set`, if it returns, keeps the cached depth of a dictionary exact and within the limit, also when
-- it replaces the deepest value.
pub set_field-IsSound :
    (depth : ℕ) (fs : Fields) (key : List ℕ) (child : Value) {v : Value}
    → IsSound (dict depth fs)
    → IsSound child
    → set_field depth fs key child ≡ ok v
    → IsSound v
unfolding set_field
set_field-IsSound depth fs key child s t e =
    let (d, checked, made) = >>=-eq-ok (checked_child_depth child) _ e in
    let (exact, within) = checked_child_depth-eq-ok child t checked in
    with_depth-IsSound (must_recompute depth d (find key fs)) (max depth d) (assign key child fs)
      (assign-Sound key child fs t s.2) (omega arith)
      (depth_kept depth fs key child d s.0 s.2 exact) made
