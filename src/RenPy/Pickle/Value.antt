-- ===== src/RenPy/Pickle/Value.antt =====
-- src/modules/renpy/pickle.h, pickle.cpp: the values. Each container carries the depth that the code
-- caches in `depth_`. An unordered_map is a list of keys and values in the order of insertion; the
-- program depends on that order nowhere but in the order of a listing.
use observer_modules.Prelude.{
  ℕ, ◌+◌, Bool, true, false, ◌&&◌, List, [], ◌∷◌, max, ltb, leb, ◌==◌, if◌then◌else◌, bytes_eq,
  Option, none, some,
}
use observer_modules.Prelude.Int.{ℤ}
use observer_modules.Failure.{runtime_error, Result, ok, throw, ◌>>=◌}

mutual
  pub data Value : Type 0 where
    null : Value
    boolean : Bool → Value
    int64 : ℤ → Value
    -- the bits of the double
    float64 : ℕ → Value
    bytes : List ℕ → Value
    string : List ℕ → Value
    list : ℕ → Items → Value
    tuple : ℕ → Items → Value
    dict : ℕ → Fields → Value

  pub data Items : Type 0 where
    nil : Items
    cons : Value → Items → Items

  pub data Fields : Type 0 where
    end : Fields
    field : List ℕ → Value → Fields → Fields

abbrev pub max_depth : ℕ
max_depth = 64

-- The member `depth_`: zero for what is no container.
abbrev pub depth_ : Value → ℕ
depth_ (list d xs) = d
depth_ (tuple d xs) = d
depth_ (dict d fs) = d
depth_ v = 0

abbrev pub to_items : List Value → Items
to_items [] = nil
to_items (v ∷ vs) = cons v (to_items vs)

abbrev pub from_items : Items → List Value
from_items nil = []
from_items (cons v vs) = v ∷ from_items vs

abbrev pub append_items : Items → Items → Items
append_items nil ys = ys
append_items (cons x xs) ys = cons x (append_items xs ys)

-- A value_ptr on the stack is never null, so the first test of the code has no counterpart.
unfoldable pub checked_child_depth : Value → Result ℕ
checked_child_depth child =
    if leb max_depth (depth_ child)
    then throw (runtime_error "Pickle nesting limit exceeded")
    else ok (depth_ child + 1)

-- The fold of both overloads of `container_depth`, from the depth so far.
unfoldable pub items_depth : ℕ → Items → Result ℕ
unfolding checked_child_depth
items_depth depth nil = ok depth
items_depth depth (cons child children) = do
  d ← checked_child_depth child
  items_depth (max depth d) children

unfoldable pub fields_depth : ℕ → Fields → Result ℕ
unfolding checked_child_depth
fields_depth depth end = ok depth
fields_depth depth (field key child rest) = do
  d ← checked_child_depth child
  fields_depth (max depth d) rest

-- value::list, value::tuple, value::dict
unfoldable pub make_list : Items → Result Value
unfolding items_depth
make_list xs = do d ← items_depth 1 xs; ok (list d xs)

unfoldable pub make_tuple : Items → Result Value
unfolding items_depth
make_tuple xs = do d ← items_depth 1 xs; ok (tuple d xs)

unfoldable pub make_dict : Fields → Result Value
unfolding fields_depth
make_dict fs = do d ← fields_depth 1 fs; ok (dict d fs)

-- `value::append` of one child and of a list, on the list of depth `depth`.
unfoldable pub append_child : ℕ → Items → Value → Result Value
unfolding checked_child_depth
append_child depth xs child = do
  d ← checked_child_depth child
  ok (list (max depth d) (append_items xs (cons child nil)))

unfoldable pub append_children : ℕ → Items → Items → Result Value
unfolding items_depth
append_children depth xs children = do
  d ← items_depth 1 children
  ok (list (max depth d) (append_items xs children))

-- unordered_map: find, insert_or_assign, size
unfoldable pub find : List ℕ → Fields → Option Value
find key end = none
find key (field k v rest) = if bytes_eq k key then some v else find key rest

unfoldable pub assign : List ℕ → Value → Fields → Fields
assign key child end = field key child end
assign key child (field k v rest) =
    if bytes_eq k key then field k child rest else field k v (assign key child rest)

-- Whether the child that goes was the deepest and the new one is not.
unfoldable pub must_recompute : ℕ → ℕ → Option Value → Bool
must_recompute depth child_depth none = false
must_recompute depth child_depth (some existing) =
    depth_ existing + 1 == depth && ltb child_depth depth

-- The end of `value::set`: the depth is counted anew, or is `depth`.
unfoldable pub with_depth : Bool → ℕ → Fields → Result Value
unfolding fields_depth
with_depth true depth target = do d ← fields_depth 1 target; ok (dict d target)
with_depth false depth target = ok (dict depth target)

-- value::set
unfoldable pub set_field : ℕ → Fields → List ℕ → Value → Result Value
unfolding checked_child_depth find assign must_recompute with_depth
set_field depth fs key child = do
  child_depth ← checked_child_depth child
  let target : Fields = assign key child fs
  with_depth (must_recompute depth child_depth (find key fs)) (max depth child_depth) target

-- clone, clone_list, clone_dict
unfoldable mutual
  unfolding make_list make_tuple make_dict

  pub clone : Value → Result Value
  clone (list d xs) = do ys ← clone_items xs; make_list ys
  clone (tuple d xs) = do ys ← clone_items xs; make_tuple ys
  clone (dict d fs) = do gs ← clone_fields fs; make_dict gs
  clone null = ok null
  clone (boolean b) = ok (boolean b)
  clone (int64 n) = ok (int64 n)
  clone (float64 n) = ok (float64 n)
  clone (bytes s) = ok (bytes s)
  clone (string s) = ok (string s)

  pub clone_items : Items → Result Items
  clone_items nil = ok nil
  clone_items (cons v vs) = do w ← clone v; ws ← clone_items vs; ok (cons w ws)

  pub clone_fields : Fields → Result Fields
  clone_fields end = ok end
  clone_fields (field k v rest) = do w ← clone v; ws ← clone_fields rest; ok (field k w ws)

-- The accessors.
unfoldable pub as_int64 : Value → Result ℤ
as_int64 (int64 n) = ok n
as_int64 v = throw (runtime_error "Value is not an int64")

unfoldable pub as_string : Value → Result (List ℕ)
as_string (string s) = ok s
as_string (bytes s) = ok s
as_string v = throw (runtime_error "Value is not a string")

unfoldable pub as_list : Value → Result Items
as_list (list d xs) = ok xs
as_list v = throw (runtime_error "Value is not a list")

unfoldable pub as_tuple : Value → Result Items
as_tuple (tuple d xs) = ok xs
as_tuple v = throw (runtime_error "Value is not a tuple")

unfoldable pub as_dict : Value → Result Fields
as_dict (dict d fs) = ok fs
as_dict v = throw (runtime_error "Value is not a dict")
