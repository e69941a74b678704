-- ===== src/RenPy/Pickle/Depth/Clone.antt =====
-- `clone` of pickle.cpp, which the memo makes its copies with.
use observer_modules.Prelude.{ℕ, ◌≡◌, refl, arith}
use observer_modules.Failure.{ok}
use observer_modules.RenPy.Pickle.Value.{
  Value, null, boolean, int64, float64, bytes, string, list, tuple, dict, Items, nil, cons, Fields,
  end, field, clone, clone_items, clone_fields, make_list, make_tuple, make_dict,
}
use observer_modules.RenPy.Pickle.Depth.{
  IsSound, SoundItems, SoundFields, items_depth_fits, fields_depth_fits,
}

make_list_fits : (d : ℕ) (xs : Items) → IsSound (list d xs) → make_list xs ≡ ok (list d xs)
unfolding make_list
make_list_fits d xs s = ground (arith, items_depth_fits 1 xs s.2)

make_tuple_fits : (d : ℕ) (xs : Items) → IsSound (tuple d xs) → make_tuple xs ≡ ok (tuple d xs)
unfolding make_tuple
make_tuple_fits d xs s = ground (arith, items_depth_fits 1 xs s.2)

make_dict_fits : (d : ℕ) (fs : Fields) → IsSound (dict d fs) → make_dict fs ≡ ok (dict d fs)
unfolding make_dict
make_dict_fits d fs s = ground (arith, fields_depth_fits 1 fs s.2)

mutual
  unfolding clone

  clone_same : (v : Value) → IsSound v → clone v ≡ ok v
  clone_same (list d xs) s = rw (clone_items_same xs s.2) (make_list_fits d xs s)
  clone_same (tuple d xs) s = rw (clone_items_same xs s.2) (make_tuple_fits d xs s)
  clone_same (dict d fs) s = rw (clone_fields_same fs s.2) (make_dict_fits d fs s)
  clone_same null s = refl
  clone_same (boolean b) s = refl
  clone_same (int64 n) s = refl
  clone_same (float64 n) s = refl
  clone_same (bytes t) s = refl
  clone_same (string t) s = refl

  clone_items_same : (xs : Items) → SoundItems xs → clone_items xs ≡ ok xs
  clone_items_same nil s = refl
  clone_items_same (cons v vs) s = rw (clone_same v s.0, clone_items_same vs s.1)

  clone_fields_same : (fs : Fields) → SoundFields fs → clone_fields fs ≡ ok fs
  clone_fields_same end s = refl
  clone_fields_same (field k v rest) s = rw (clone_same v s.0, clone_fields_same rest s.1)

-- A value whose containers cache their nesting within the limit is copied without an error, and the
-- copy is the value.
pub clone-eq-ok : (v : Value) → IsSound v → clone v ≡ ok v
clone-eq-ok v s = clone_same v s
