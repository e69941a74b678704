-- ===== src/Godot/Tree/Names/Suffixes.antt =====
-- src/modules/godot/virtual_tree.cpp: the suffixed names of one base are different.
use observer_modules.Prelude.{
  ℕ, ◌-◌, ◌≤◌, ◌<◌, ◌≡◌, sym, ap, ◌∙◌, Bool, true, false, List, ◌∷◌, ◌++◌, Option, none, some,
  if◌then◌else◌, length, length-append, length-take, length-drop, take, arith,
}
use mathlib.Core.List.{append_cancel_left, append_cancel_right}
use observer_modules.Godot.Pck.Path.{is_empty}
use observer_modules.Godot.Tree.Names.{find_last, extension_at, extension_of, decimal, suffixed}
use observer_modules.Godot.Tree.Names.Decimal.{read_decimal, read-decimal}

length-extension_at :
    (path : List ℕ) (slash dot : Option ℕ) → length (extension_at path slash dot) ≤ length path
length-extension_at path slash none = omega arith
length-extension_at path none (some dot) = ground (arith, length-drop dot path)
length-extension_at path (some slash) (some dot) = ground (arith, length-drop dot path)

pub length-extension_of : (path : List ℕ) → length (extension_of path) ≤ length path
unfolding extension_of
length-extension_of path = length-extension_at path (find_last b'/' path) (find_last b'.' path)

decimal-injective : (i j : ℕ) → decimal i ≡ decimal j → i ≡ j
decimal-injective i j e = sym (read-decimal i) ∙ ap (read_decimal 0) e ∙ read-decimal j

-- `counter` can be read off a suffixed name of `base`.
pub suffixed-injective : (base : List ℕ) (i j : ℕ) → suffixed base i ≡ suffixed base j → i ≡ j
unfolding suffixed
suffixed-injective base i j = go (is_empty (extension_of base))
  where
    tail : {x y : ℕ} {xs ys : List ℕ} → x ∷ xs ≡ y ∷ ys → xs ≡ ys
    tail e = cc

    go :
        (b : Bool)
        → (if b
            then base ++ (b'~' ∷ decimal i)
            else take (length base - length (extension_of base)) base
              ++ (b'~' ∷ decimal i)
              ++ extension_of base)
          ≡ (if b
              then base ++ (b'~' ∷ decimal j)
              else take (length base - length (extension_of base)) base
                ++ (b'~' ∷ decimal j)
                ++ extension_of base)
        → i ≡ j
    go true e =
        decimal-injective i j
          (tail (append_cancel_left base (b'~' ∷ decimal i) (b'~' ∷ decimal j) e))
    go false e =
        let stem : List ℕ = take (length base - length (extension_of base)) base in
        decimal-injective i j (
          tail (
            append_cancel_left stem (b'~' ∷ decimal i) (b'~' ∷ decimal j) (
              append_cancel_right (stem ++ (b'~' ∷ decimal i)) (stem ++ (b'~' ∷ decimal j))
                (extension_of base) e)))

-- A suffixed name is longer than its base.
pub length-suffixed : (base : List ℕ) (i : ℕ) → length base < length (suffixed base i)
unfolding suffixed
length-suffixed base i = go (is_empty (extension_of base))
  where
    go :
        (b : Bool)
        → length base
          < length (
              if b
              then base ++ (b'~' ∷ decimal i)
              else take (length base - length (extension_of base)) base
                ++ (b'~' ∷ decimal i)
                ++ extension_of base)
    go true = omega (arith, length-append base (b'~' ∷ decimal i))
    go false =
        let stem : List ℕ = take (length base - length (extension_of base)) base in
        omega (
          arith,
          length-append (stem ++ (b'~' ∷ decimal i)) (extension_of base),
          length-append stem (b'~' ∷ decimal i),
          length-take (length base - length (extension_of base)) base,
          length-extension_of base,
        )
