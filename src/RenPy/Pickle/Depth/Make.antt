-- ===== src/RenPy/Pickle/Depth/Make.antt =====
-- The functions of pickle.cpp that make or change a container, and its cached depth.
use observer_modules.Prelude.{ℕ, suc, ◌≤◌, ◌≡◌, max, arith}
use observer_modules.Failure.{ok, >>=-eq-ok, from_ok}
use observer_modules.RenPy.Pickle.Value.{
  Value, list, tuple, dict, Items, nil, cons, Fields, max_depth, append_items, make_list,
  make_tuple, make_dict, append_child, append_children, checked_child_depth, items_depth,
  fields_depth,
}
use observer_modules.RenPy.Pickle.Depth.{
  nesting, nesting_items, IsSound, SoundItems, SoundFields, depth_nesting, items_depth-eq-ok,
  fields_depth-eq-ok,
}

-- A container over sound children, at the depth that the fold returned.
pub make_list-IsSound : (xs : Items) {v : Value} → SoundItems xs → make_list xs ≡ ok v → IsSound v
unfolding make_list
make_list-IsSound xs s e =
    let (d, counted, made) = >>=-eq-ok (items_depth 1 xs) (λ d. ok (list d xs)) e in
    let (exact, within) = items_depth-eq-ok 1 xs (omega arith) (omega arith) s counted in
    from_ok IsSound (omega arith, within, s) made

pub make_tuple-IsSound : (xs : Items) {v : Value} → SoundItems xs → make_tuple xs ≡ ok v → IsSound v
unfolding make_tuple
make_tuple-IsSound xs s e =
    let (d, counted, made) = >>=-eq-ok (items_depth 1 xs) (λ d. ok (tuple d xs)) e in
    let (exact, within) = items_depth-eq-ok 1 xs (omega arith) (omega arith) s counted in
    from_ok IsSound (omega arith, within, s) made

pub make_dict-IsSound : (fs : Fields) {v : Value} → SoundFields fs → make_dict fs ≡ ok v → IsSound v
unfolding make_dict
make_dict-IsSound fs s e =
    let (d, counted, made) = >>=-eq-ok (fields_depth 1 fs) (λ d. ok (dict d fs)) e in
    let (exact, within) = fields_depth-eq-ok 1 fs (omega arith) (omega arith) s counted in
    from_ok IsSound (omega arith, within, s) made

pub append_items-Sound :
    (xs ys : Items) → SoundItems xs → SoundItems ys → SoundItems (append_items xs ys)
append_items-Sound nil ys s t = t
append_items-Sound (cons x xs) ys s t = (s.0, append_items-Sound xs ys s.1 t)

nesting-append_items :
    (xs ys : Items) → nesting_items (append_items xs ys) ≡ max (nesting_items xs) (nesting_items ys)
nesting-append_items nil ys = omega arith
nesting-append_items (cons x xs) ys = omega (arith, nesting-append_items xs ys)

-- A child below the limit.
pub checked_child_depth-eq-ok :
    (child : Value) {d : ℕ}
    → IsSound child
    → checked_child_depth child ≡ ok d
    → (d ≡ suc (nesting child)) × (d ≤ max_depth)
unfolding checked_child_depth
checked_child_depth-eq-ok child s e = ground (arith, depth_nesting child s)

pub append_child-IsSound :
    (depth : ℕ) (xs : Items) (child : Value) {v : Value}
    → IsSound (list depth xs)
    → IsSound child
    → append_child depth xs child ≡ ok v
    → IsSound v
unfolding append_child
append_child-IsSound depth xs child s t e =
    let (d, checked, made) =
      >>=-eq-ok (checked_child_depth child)
        (λ d. ok (list (max depth d) (append_items xs (cons child nil)))) e in
    let (exact, within) = checked_child_depth-eq-ok child t checked in
    from_ok IsSound
      (
        omega (arith, nesting-append_items xs (cons child nil)),
        omega arith,
        append_items-Sound xs (cons child nil) s.2 (t, tt),
      )
      made

pub append_children-IsSound :
    (depth : ℕ) (xs children : Items) {v : Value}
    → IsSound (list depth xs)
    → SoundItems children
    → append_children depth xs children ≡ ok v
    → IsSound v
unfolding append_children
append_children-IsSound depth xs children s t e =
    let (d, counted, made) =
      >>=-eq-ok (items_depth 1 children) (λ d. ok (list (max depth d) (append_items xs children)))
        e in
    let (exact, within) = items_depth-eq-ok 1 children (omega arith) (omega arith) t counted in
    from_ok IsSound
      (
        omega (arith, nesting-append_items xs children),
        omega arith,
        append_items-Sound xs children s.2 t,
      )
      made
