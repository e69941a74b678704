-- ===== src/RenPy/Pickle/Sound/Containers.antt =====
-- The opcodes of lists, tuples and dictionaries, and the reader's invariant.
use observer_modules.Prelude.{
  ℕ, ◌≡◌, refl, List, [], ◌∷◌, ltb, length, take, drop, reverse, All, All-take, All-drop,
  All-reverse,
}
use observer_modules.Failure.{Exception, Result}
use observer_modules.Failure.Ensures.{
  Ensures, Ensures-ok, Ensures-throw, Ensures-if, Ensures-any, Ensures-bind, Ensures-guard,
}
use observer_modules.RenPy.Pickle.Value.{
  Value, list, dict, null, Items, Fields, end, to_items, from_items, make_dict, assign,
}
use observer_modules.RenPy.Pickle.Parser.{Parser, go_on, pop_to_mark}
use observer_modules.RenPy.Pickle.Containers.{
  append_to, append_all_to, op_append, append_items_on, op_appends, op_make, op_tuple, key_of,
  collect, is_odd, op_dict, require_dict, set_on, set_top, op_setitem, check_pairs, set_pairs,
  set_items_on, op_setitems,
}
use observer_modules.RenPy.Pickle.Depth.{IsSound, SoundItems, SoundFields}
use observer_modules.RenPy.Pickle.Depth.Make.{
  make_tuple-IsSound, make_dict-IsSound, append_child-IsSound, append_children-IsSound,
}
use observer_modules.RenPy.Pickle.Depth.Assign.{assign-Sound, set_field-IsSound}
use observer_modules.RenPy.Pickle.Sound.{
  SoundParser, SoundStep, push_made-Ensures, to_items-Sound, from_items-Sound, pop_to_mark-Ensures,
}

-- The changed container takes its place on the stack.
replaced :
    {n : ℕ} (p : Parser) (v : Value) (below : List Value)
    → SoundParser n p
    → IsSound v
    → All IsSound below
    → SoundStep n (go_on (record p { stack = v ∷ below }))
replaced p v below h s t = record { stack = (s, t); memo = h.memo; left = h.left }

append_to-IsSound :
    (target item : Value) → IsSound target → IsSound item → Ensures IsSound (append_to target item)
unfolding append_to
append_to-IsSound (list depth xs) item s t = record {
  at = λ v e. append_child-IsSound depth xs item s t e;
}
append_to-IsSound _ item s t = Ensures-throw _

append_all_to-IsSound :
    (target : Value) (items : Items)
    → IsSound target
    → SoundItems items
    → Ensures IsSound (append_all_to target items)
unfolding append_all_to
append_all_to-IsSound (list depth xs) items s t = record {
  at = λ v e. append_children-IsSound depth xs items s t e;
}
append_all_to-IsSound _ items s t = Ensures-throw _

set_on-IsSound :
    (target : Value) (key : List ℕ) (child : Value)
    → IsSound target
    → IsSound child
    → Ensures IsSound (set_on target key child)
unfolding set_on
set_on-IsSound (dict depth fs) key child s t = record {
  at = λ v e. set_field-IsSound depth fs key child s t e;
}
set_on-IsSound null key child s t = Ensures-ok s
set_on-IsSound _ key child s t = Ensures-ok s

collect-Sound :
    (fs : Fields) (vs : List Value)
    → SoundFields fs
    → All IsSound vs
    → Ensures SoundFields (collect fs vs)
unfolding collect
collect-Sound fs [] s t = Ensures-ok s
collect-Sound fs (k ∷ []) s t = Ensures-ok s
collect-Sound fs (k ∷ v ∷ rest) s t =
    Ensures-bind (key_of k) _ (Ensures-any _)
      λ key _. collect-Sound (assign key v fs) rest (assign-Sound key v fs t.1.0 s) t.1.1

set_pairs-IsSound :
    (target : Value) (vs : List Value)
    → IsSound target
    → All IsSound vs
    → Ensures IsSound (set_pairs target vs)
unfolding set_pairs
set_pairs-IsSound target [] s t = Ensures-ok s
set_pairs-IsSound target (k ∷ []) s t = Ensures-ok s
set_pairs-IsSound target (k ∷ v ∷ rest) s t = Ensures-bind (key_of k) _ (Ensures-any _) λ key _.
    Ensures-bind (set_on target key v) _ (set_on-IsSound target key v s t.1.0)
      λ made m. set_pairs-IsSound made rest m t.1.1

append_items_on-SoundStep :
    (n : ℕ) (q : Parser) (items : Items) (stack : List Value)
    → SoundParser n q
    → SoundItems items
    → All IsSound stack
    → Ensures (SoundStep n) (append_items_on q items stack)
unfolding append_items_on
append_items_on-SoundStep n q items [] h s t = Ensures-throw _
append_items_on-SoundStep n q items (target ∷ below) h s t =
    Ensures-bind (append_all_to target items) _ (append_all_to-IsSound target items t.0 s)
      λ v m. Ensures-ok (replaced q v below h m t.1)

set_items_on-SoundStep :
    (n : ℕ) (q : Parser) (items : Items) (stack : List Value)
    → SoundParser n q
    → SoundItems items
    → All IsSound stack
    → Ensures (SoundStep n) (set_items_on q items stack)
unfolding set_items_on
set_items_on-SoundStep n q items [] h s t = Ensures-throw _
set_items_on-SoundStep n q items (target ∷ below) h s t =
    Ensures-bind (require_dict target _) _ (Ensures-any _) λ _ _.
      Ensures-bind (check_pairs (from_items items)) _ (Ensures-any _) λ _ _.
        Ensures-bind (set_pairs target (from_items items)) _
          (set_pairs-IsSound target (from_items items) t.0 (from_items-Sound items s))
          λ v m. Ensures-ok (replaced q v below h m t.1)

set_top-SoundStep :
    (n : ℕ) (p : Parser) (child key target : Value) (below : List Value)
    → SoundParser n p
    → All IsSound (child ∷ key ∷ target ∷ below)
    → Ensures (SoundStep n) (set_top p child key target below)
unfolding set_top
set_top-SoundStep n p child key target below h t =
    Ensures-bind (require_dict target _) _ (Ensures-any _) λ _ _.
      Ensures-bind (key_of key) _ (Ensures-any _) λ text _.
        Ensures-bind (set_on target text child) _ (set_on-IsSound target text child t.1.1.0 t.0)
          λ v m. Ensures-ok (replaced p v below h m t.1.1.1)

module _ (n : ℕ) (p : Parser) (h : SoundParser n p) where
  pub op_append-SoundStep : Ensures (SoundStep n) (op_append p)
  unfolding op_append
  op_append-SoundStep = go p.stack refl
    where
      go : (stack : List Value) → p.stack ≡ stack → Ensures (SoundStep n) (op_append p)
      go [] e = rw (e, op_append) (Ensures-throw _)
      go (item ∷ []) e = rw (e, op_append) (Ensures-throw _)
      go (item ∷ target ∷ below) e =
          let s : All IsSound (item ∷ target ∷ below) = rw e at h.stack in
          rw (e, op_append)
            (Ensures-bind (append_to target item) _ (append_to-IsSound target item s.1.0 s.0)
              (λ v m. Ensures-ok (replaced p v below h m s.1.1)))

  pub op_setitem-SoundStep : Ensures (SoundStep n) (op_setitem p)
  unfolding op_setitem
  op_setitem-SoundStep = go p.stack refl
    where
      go : (stack : List Value) → p.stack ≡ stack → Ensures (SoundStep n) (op_setitem p)
      go [] e = rw (e, op_setitem) (Ensures-throw _)
      go (a ∷ []) e = rw (e, op_setitem) (Ensures-throw _)
      go (a ∷ b ∷ []) e = rw (e, op_setitem) (Ensures-throw _)
      go (a ∷ b ∷ c ∷ below) e =
          rw (e, op_setitem) (set_top-SoundStep n p a b c below h (rw e at h.stack))

  pub op_appends-SoundStep : Ensures (SoundStep n) (op_appends p)
  unfolding op_appends
  op_appends-SoundStep =
      Ensures-bind (pop_to_mark p) _ (pop_to_mark-Ensures n p h)
        λ (items, q) g. append_items_on-SoundStep n q items q.stack g.1 g.0 g.1.stack

  pub op_setitems-SoundStep : Ensures (SoundStep n) (op_setitems p)
  unfolding op_setitems
  op_setitems-SoundStep = Ensures-bind (pop_to_mark p) _ (pop_to_mark-Ensures n p h) λ (items, q) g.
      Ensures-guard (is_odd (length (from_items items))) _ _
        λ e. set_items_on-SoundStep n q items q.stack g.1 g.0 g.1.stack

  pub op_make-SoundStep :
      (make : Items → Result Value)
      → ((xs : Items) → SoundItems xs → Ensures IsSound (make xs))
      → Ensures (SoundStep n) (op_make make p)
  unfolding op_make
  op_make-SoundStep make sound =
      Ensures-bind (pop_to_mark p) _ (pop_to_mark-Ensures n p h)
        λ (items, q) g. push_made-Ensures n q (make items) g.1 (sound items g.0)

  pub op_dict-SoundStep : Ensures (SoundStep n) (op_dict p)
  unfolding op_dict
  op_dict-SoundStep = Ensures-bind (pop_to_mark p) _ (pop_to_mark-Ensures n p h) λ (items, q) g.
      Ensures-guard (is_odd (length (from_items items))) _ _ λ e.
        Ensures-bind (collect end (from_items items)) _
          (collect-Sound end (from_items items) tt (from_items-Sound items g.0))
          λ fs s.
            push_made-Ensures n q (make_dict fs) g.1
              (record { at = λ v k. make_dict-IsSound fs s k })

  pub op_tuple-SoundStep : (k : ℕ) (short : Exception) → Ensures (SoundStep n) (op_tuple k short p)
  unfolding op_tuple
  op_tuple-SoundStep k short =
      Ensures-if (ltb (length p.stack) k) (λ e. Ensures-throw _)
        λ e.
          push_made-Ensures n (record p { stack = drop k p.stack }) _
            (record { stack = All-drop IsSound k p.stack h.stack; memo = h.memo; left = h.left })
            (record {
              at = λ v m.
                  make_tuple-IsSound (to_items (reverse (take k p.stack)))
                    (to_items-Sound _ (All-reverse IsSound _ (All-take IsSound k p.stack h.stack)))
                    m;
            })
