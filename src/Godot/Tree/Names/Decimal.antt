-- ===== src/Godot/Tree/Names/Decimal.antt =====
-- src/modules/godot/virtual_tree.cpp: decimal numbers in names and in the manifest.
use observer_modules.Prelude.{
  ℕ, zero, suc, ◌+◌, ◌-◌, ◌*◌, ◌/◌, ◌%◌, ◌<◌, ◌≡◌, refl, ap, ◌∙◌, Bool, true, false, List, [], ◌∷◌,
  ltb, length, arith,
}
use observer_modules.Godot.Tree.Names.{decimal_loop, decimal, digit_count_loop, digit_count}

-- The number that digits stand for, behind `value`.
unfoldable pub read_decimal : ℕ → List ℕ → ℕ
read_decimal value [] = value
read_decimal value (d ∷ rest) = read_decimal (value * 10 + (d - b'0')) rest

read-decimal_loop :
    (fuel value : ℕ) (acc : List ℕ)
    → value < fuel
    → read_decimal 0 (decimal_loop fuel value acc) ≡ read_decimal value acc
unfolding read_decimal decimal_loop
read-decimal_loop zero value acc h = absurd (omega arith)
read-decimal_loop (suc fuel) value acc h =
    go (ltb value 10) refl
      λ big. read-decimal_loop fuel (value / 10) ((b'0' + value % 10) ∷ acc) (ground arith)
  where
    last : ℕ
    last = b'0' + value % 10

    go :
        (b : Bool)
        → ltb value 10 ≡ b
        → (ltb value 10 ≡ false
            → read_decimal 0 (decimal_loop fuel (value / 10) (last ∷ acc))
              ≡ read_decimal (value / 10) (last ∷ acc))
        → read_decimal 0 (elim b [
          | true ↦ (b'0' + value) ∷ acc
          | false ↦ decimal_loop fuel (value / 10) (last ∷ acc)
        ])
          ≡ read_decimal value acc
    go true e ih = ap (λ v. read_decimal v acc) (omega arith)
    go false e ih = ih e ∙ ap (λ v. read_decimal v acc) (omega arith)

-- A number that is written in decimal is read back.
pub read-decimal : (value : ℕ) → read_decimal 0 (decimal value) ≡ value
unfolding decimal read_decimal
read-decimal value = read-decimal_loop (suc value) value [] (omega arith)

digit_count_loop-length :
    (fuel value digits : ℕ) (acc : List ℕ)
    → value < fuel
    → digits ≡ suc (length acc)
    → digit_count_loop fuel value digits ≡ length (decimal_loop fuel value acc)
unfolding digit_count_loop decimal_loop
digit_count_loop-length zero value digits acc h e = absurd (omega arith)
digit_count_loop-length (suc fuel) value digits acc h e =
    ground
      (arith, digit_count_loop-length fuel (value / 10) (suc digits) ((b'0' + value % 10) ∷ acc))

-- The digits are counted as they are written.
pub digit_count-length : (value : ℕ) → digit_count value ≡ length (decimal value)
unfolding digit_count decimal
digit_count-length value = digit_count_loop-length (suc value) value 1 [] (omega arith) refl
