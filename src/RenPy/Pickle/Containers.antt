-- ===== src/RenPy/Pickle/Containers.antt =====
-- src/modules/renpy/pickle.cpp: the opcodes of lists, tuples and dictionaries.
use observer_modules.Prelude.{
  ℕ, ◌%◌, Bool, List, [], ◌∷◌, ltb, ◌==◌, if◌then◌else◌, length, take, drop, reverse,
}
use observer_modules.Failure.{Exception, runtime_error, Result, ok, throw, ◌>>=◌, ◌>>◌, throw_if}
use observer_modules.RenPy.Pickle.Value.{
  Value, string, list, dict, Items, Fields, end, to_items, from_items, checked_child_depth,
  make_tuple, make_dict, append_child, append_children, assign, set_field,
}
use observer_modules.RenPy.Pickle.Parser.{Parser, Step, go_on, push_made, pop_to_mark}

-- The test of the target's type, and `append` on it.
unfoldable pub append_to : Value → Value → Result Value
append_to (list depth xs) child = append_child depth xs child
append_to v child = throw (runtime_error "APPEND target is not a list")

unfoldable pub append_all_to : Value → Items → Result Value
append_all_to (list depth xs) children = append_children depth xs children
append_all_to v children = throw (runtime_error "APPENDS target is not a list")

unfoldable pub op_append : Parser → Result Step
unfolding append_to
op_append p = elim p.stack [
  | item ∷ target ∷ below ↦ do
    made ← append_to target item
    ok (go_on (record p { stack = made ∷ below }))
  | _ ↦ throw (runtime_error "Not enough items on stack for APPEND")
]

-- The end of APPENDS, on the stack below the items.
unfoldable pub append_items_on : Parser → Items → List Value → Result Step
unfolding append_all_to
append_items_on q items [] = throw (runtime_error "No list on stack for APPENDS")
append_items_on q items (target ∷ below) = do
  made ← append_all_to target items
  ok (go_on (record q { stack = made ∷ below }))

unfoldable pub op_appends : Parser → Result Step
unfolding append_items_on pop_to_mark
op_appends p = do (items, q) ← pop_to_mark p; append_items_on q items q.stack

-- LIST and TUPLE
unfoldable pub op_make : (Items → Result Value) → Parser → Result Step
unfolding pop_to_mark push_made
op_make make p = do (items, q) ← pop_to_mark p; push_made q (make items)

-- TUPLE1, TUPLE2, TUPLE3
unfoldable pub op_tuple : ℕ → Exception → Parser → Result Step
unfolding push_made
op_tuple n short p =
    if ltb (length p.stack) n
    then throw short
    else push_made (record p { stack = drop n p.stack })
        (make_tuple (to_items (reverse (take n p.stack))))

-- The key of a dictionary entry.
unfoldable pub key_of : Value → Result (List ℕ)
key_of (string key) = ok key
key_of v = throw (runtime_error "Dict key must be string")

-- The loop of DICT over the items, two at a time, into the map `fs`.
unfoldable pub collect : Fields → List Value → Result Fields
unfolding key_of
collect fs (k ∷ v ∷ rest) = do key ← key_of k; collect (assign key v fs) rest
collect fs items = ok fs

unfoldable pub is_odd : ℕ → Bool
is_odd n = n % 2 == 1

unfoldable pub op_dict : Parser → Result Step
unfolding pop_to_mark push_made collect is_odd
op_dict p = do
  (items, q) ← pop_to_mark p
  throw_if (is_odd (length (from_items items))) (runtime_error "Odd number of items for DICT")
  fs ← collect end (from_items items)
  push_made q (make_dict fs)

unfoldable pub require_dict : Value → Exception → Result (Unit {0})
require_dict (dict depth fs) wrong = ok tt
require_dict v wrong = throw wrong

-- `set` on a target that has been tested.
unfoldable pub set_on : Value → List ℕ → Value → Result Value
set_on (dict depth fs) key child = set_field depth fs key child
set_on v key child = ok v

-- SETITEM on the three topmost values.
unfoldable pub set_top : Parser → Value → Value → Value → List Value → Result Step
unfolding key_of set_on require_dict
set_top p child key target below = do
  require_dict target (runtime_error "SETITEM target is not a dict")
  text ← key_of key
  made ← set_on target text child
  ok (go_on (record p { stack = made ∷ below }))

unfoldable pub op_setitem : Parser → Result Step
unfolding set_top
op_setitem p = elim p.stack [
  | child ∷ key ∷ target ∷ below ↦ set_top p child key target below
  | _ ↦ throw (runtime_error "Not enough items on stack for SETITEM")
]

-- The two loops of SETITEMS: every key and child is tested before the first is stored.
unfoldable pub check_pairs : List Value → Result (Unit {0})
unfolding key_of checked_child_depth
check_pairs (k ∷ v ∷ rest) = do key ← key_of k; d ← checked_child_depth v; check_pairs rest
check_pairs items = ok tt

unfoldable pub set_pairs : Value → List Value → Result Value
unfolding key_of set_on
set_pairs target (k ∷ v ∷ rest) = do key ← key_of k; made ← set_on target key v; set_pairs made rest
set_pairs target items = ok target

-- The end of SETITEMS, on the stack below the items.
unfoldable pub set_items_on : Parser → Items → List Value → Result Step
unfolding require_dict check_pairs set_pairs
set_items_on q items [] = throw (runtime_error "No dict on stack for SETITEMS")
set_items_on q items (target ∷ below) = do
  require_dict target (runtime_error "SETITEMS target is not a dict")
  check_pairs (from_items items)
  made ← set_pairs target (from_items items)
  ok (go_on (record q { stack = made ∷ below }))

unfoldable pub op_setitems : Parser → Result Step
unfolding pop_to_mark is_odd set_items_on
op_setitems p = do
  (items, q) ← pop_to_mark p
  throw_if (is_odd (length (from_items items))) (runtime_error "Odd number of items for SETITEMS")
  set_items_on q items q.stack
