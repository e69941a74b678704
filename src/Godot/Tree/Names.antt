-- ===== src/Godot/Tree/Names.antt =====
-- src/modules/godot/virtual_tree.cpp: extensions, suffixes, the normal form of a mapping's path, and
-- the sizes of presented paths.
pub mod Decimal
pub mod Suffixes
use observer_modules.Prelude.{
  ℕ, zero, suc, ◌+◌, ◌-◌, ◌/◌, ◌%◌, ◌==◌, Bool, true, false, ◌&&◌, ◌||◌, List, [], ◌∷◌, ◌++◌,
  Option, none, some, if◌then◌else◌, ltb, length, take, drop, bytes_eq,
}
use observer_modules.Godot.Pck.Path.{parent, is_empty, strip_resource}
use observer_modules.Godot.Remap.Path.{
  starts_with_separator, is_separator, join_segment, if_present,
}
use observer_modules.Godot.Tree.Host.{Host, TreeLimits, max_component_chars, utf16_length}

abbrev pub later_index : Option ℕ → Bool → Option ℕ
later_index (some i) b = some (suc i)
later_index none true = some 0
later_index none false = none

-- `find_last_of`: the index of the last `c`.
unfoldable pub find_last : ℕ → List ℕ → Option ℕ
find_last c [] = none
find_last c (x ∷ xs) = later_index (find_last c xs) (x == c)

abbrev pub extension_from : List ℕ → Option ℕ → ℕ → List ℕ
extension_from path none dot = if dot == 0 then [] else drop dot path
extension_from path (some slash) dot =
    if ltb dot slash then [] else if dot == suc slash then [] else drop dot path

abbrev pub extension_at : List ℕ → Option ℕ → Option ℕ → List ℕ
extension_at path slash none = []
extension_at path slash (some dot) = extension_from path slash dot

unfoldable pub extension_of : List ℕ → List ℕ
unfolding find_last
extension_of path = extension_at path (find_last b'/' path) (find_last b'.' path)

unfoldable pub stem_of : List ℕ → List ℕ
unfolding extension_of
stem_of path = take (length path - length (extension_of path)) path

-- `std::to_string`, in front of `acc`. A round for each digit; the value itself is more than enough.
unfoldable pub decimal_loop : ℕ → ℕ → List ℕ → List ℕ
decimal_loop zero value acc = acc
decimal_loop (suc fuel) value acc = elim (ltb value 10) [
  | true ↦ (b'0' + value) ∷ acc
  | false ↦ decimal_loop fuel (value / 10) ((b'0' + value % 10) ∷ acc)
]

unfoldable pub decimal : ℕ → List ℕ
unfolding decimal_loop
decimal value = decimal_loop (suc value) value []

unfoldable pub suffixed : List ℕ → ℕ → List ℕ
unfolding extension_of decimal
suffixed base counter =
    let suffix : List ℕ = b'~' ∷ decimal counter in
    let extension : List ℕ = extension_of base in
    if is_empty extension
    then base ++ suffix
    else take (length base - length extension) base ++ suffix ++ extension

unfoldable pub is_supported_extension : List ℕ → Bool
unfolding bytes_eq
is_supported_extension extension =
    bytes_eq extension (b'.' ∷ b'p' ∷ b'n' ∷ b'g' ∷ [])
    || bytes_eq extension (b'.' ∷ b'w' ∷ b'e' ∷ b'b' ∷ b'p' ∷ [])
    || bytes_eq extension (b'.' ∷ b'w' ∷ b'a' ∷ b'v' ∷ [])
    || bytes_eq extension (b'.' ∷ b'm' ∷ b'p' ∷ b'3' ∷ [])
    || bytes_eq extension (b'.' ∷ b'o' ∷ b'g' ∷ b'g' ∷ [])
    || bytes_eq extension (b'.' ∷ b't' ∷ b't' ∷ b'f' ∷ [])
    || bytes_eq extension (b'.' ∷ b'o' ∷ b't' ∷ b'f' ∷ [])
    || bytes_eq extension (b'.' ∷ b't' ∷ b't' ∷ b'c' ∷ [])
    || bytes_eq extension (b'.' ∷ b'w' ∷ b'o' ∷ b'f' ∷ b'f' ∷ [])
    || bytes_eq extension (b'.' ∷ b'w' ∷ b'o' ∷ b'f' ∷ b'f' ∷ b'2' ∷ [])

-- The lambda `flush` of `presentation_normalize`: the path after it, `none` where it answers false.
unfoldable pub flush_component : List ℕ → List ℕ → Option (List ℕ)
unfolding bytes_eq
flush_component out component =
    if bytes_eq component parent then none else some (join_segment out component)

unfoldable pub presentation_loop : List ℕ → List ℕ → List ℕ → Option (List ℕ)
unfolding flush_component
presentation_loop out component [] = flush_component out component
presentation_loop out component (c ∷ rest) = elim (ltb c 32 || c == 127 || c == b':') [
  | true ↦ none
  | false ↦ elim (is_separator c) [
    | true ↦ elim (flush_component out component) [
      | none ↦ none
      | some joined ↦ presentation_loop joined [] rest
    ]
    | false ↦ presentation_loop out (component ++ (c ∷ [])) rest
  ]
]

unfoldable pub present_value : List ℕ → Option (List ℕ)
unfolding presentation_loop
present_value value =
    if starts_with_separator value
    then none
    else elim (presentation_loop [] [] value) [ none ↦ none | some out ↦ if_present out ]

unfoldable pub presentation_normalize : List ℕ → Option (List ℕ)
unfolding present_value bytes_eq
presentation_normalize raw = present_value (strip_resource raw)

unfoldable pub digit_count_loop : ℕ → ℕ → ℕ → ℕ
digit_count_loop zero value digits = digits
digit_count_loop (suc fuel) value digits = elim (ltb value 10) [
  | true ↦ digits
  | false ↦ digit_count_loop fuel (value / 10) (suc digits)
]

unfoldable pub digit_count : ℕ → ℕ
unfolding digit_count_loop
digit_count value = digit_count_loop (suc value) value 1

module _ (host : Host) where
  -- The loop of `oversize`: a component is too long.
  unfoldable pub has_long_component : List ℕ → List ℕ → Bool
  unfolding utf16_length
  has_long_component component [] = ltb max_component_chars (utf16_length host component)
  has_long_component component (c ∷ rest) = elim (c == b'/') [
    | true ↦ elim (ltb max_component_chars (utf16_length host component)) [
      | true ↦ true
      | false ↦ has_long_component [] rest
    ]
    | false ↦ has_long_component (component ++ (c ∷ [])) rest
  ]

  unfoldable pub oversize : List ℕ → ℕ → Bool
  unfolding utf16_length has_long_component
  oversize path max_total =
      if ltb max_total (utf16_length host path) then true else has_long_component [] path
