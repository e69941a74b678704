-- ===== src/Godot/Tree/Escape/Reversible.antt =====
-- src/modules/godot/virtual_tree.cpp: escaped names are read back, and their size is known beforehand.
use observer_modules.Prelude.{
  ℕ, suc, ◌+◌, ◌-◌, ◌*◌, ◌<◌, ◌==◌, ◌≡◌, refl, ap, ◌∙◌, Bool, true, false, List, [], ◌∷◌,
  if◌then◌else◌, leb, length, All, Bool-cases, inl, inr, arith,
}
use observer_modules.Godot.Tree.Host.{Host, is_valid_utf8}
use observer_modules.Godot.Tree.Escape.{
  escape_byte, escape_where, escape_component, field_byte_escaped, escape_field, field_size_loop,
  escaped_field_size,
}

abbrev hex_value_of : ℕ → ℕ
hex_value_of digit = if leb digit b'9' then digit - b'0' else digit - b'A' + 10

-- A reader of escaped names: three characters from a percent sign on are one byte.
unfoldable pub unescape : List ℕ → List ℕ
unescape [] = []
unescape (c ∷ []) = c ∷ []
unescape (c ∷ d ∷ []) = c ∷ d ∷ []
unescape (c ∷ d ∷ e ∷ rest) = elim (c == b'%') [
  | true ↦ (hex_value_of d * 16 + hex_value_of e) ∷ unescape rest
  | false ↦ c ∷ unescape (d ∷ e ∷ rest)
]

unescape_plain : (c : ℕ) (xs : List ℕ) → (c == b'%') ≡ false → unescape (c ∷ xs) ≡ c ∷ unescape xs
unfolding unescape
unescape_plain c [] h = refl
unescape_plain c (d ∷ []) h = refl
unescape_plain c (d ∷ e ∷ xs) h = ground arith

unescape_byte : (b : ℕ) (xs : List ℕ) → b < 256 → unescape (escape_byte b xs) ≡ b ∷ unescape xs
unfolding unescape
unescape_byte b xs h = ap (λ c. c ∷ unescape xs) (ground arith)

unescape-escape_where :
    (escaped : ℕ → ℕ → Bool) (index : ℕ) (xs : List ℕ)
    → ((i : ℕ) → escaped i b'%' ≡ true)
    → All (λ b. b < 256) xs
    → unescape (escape_where escaped index xs) ≡ xs
unfolding escape_where unescape
unescape-escape_where escaped index [] h k = refl
unescape-escape_where escaped index (b ∷ xs) h k =
    go (escaped index b) refl (unescape-escape_where escaped (suc index) xs h k.1)
  where
    later : List ℕ
    later = escape_where escaped (suc index) xs

    not_percent : escaped index b ≡ false → (b == b'%') ≡ false
    not_percent e = elim (Bool-cases (b == b'%')) [
      | inl same ↦
          let eq : b ≡ b'%' = ground arith in
          let p : escaped index b ≡ escaped index b'%' = ap (escaped index) eq in
          let q : escaped index b'%' ≡ true = h index in cc
      | inr other ↦ other
    ]

    go :
        (e : Bool)
        → escaped index b ≡ e
        → unescape later ≡ xs
        → unescape (if e then escape_byte b later else b ∷ later) ≡ b ∷ xs
    go true e ih = unescape_byte b later k.0 ∙ ap (λ rest. b ∷ rest) ih
    go false e ih = unescape_plain b later (not_percent e) ∙ ap (λ rest. b ∷ rest) ih

module _ (host : Host) where
  -- The escaping of a component is undone by reading three characters from each percent sign on as one
  -- byte, so different components have different escaped names, if its characters are bytes.
  pub unescape-escape_component :
      (component : List ℕ)
      → All (λ b. b < 256) component
      → unescape (escape_component host component) ≡ component
  unfolding escape_component
  unescape-escape_component component h = unescape-escape_where _ 0 component (λ i. ground arith) h

  -- The fields of the manifest are escaped without loss, too.
  unescape-escape_field :
      (text : List ℕ) → All (λ b. b < 256) text → unescape (escape_field host text) ≡ text
  unfolding escape_field
  unescape-escape_field text h = unescape-escape_where _ 0 text (λ i. ground arith) h

  field_size_loop-length :
      (valid : Bool) (index : ℕ) (text : List ℕ)
      → field_size_loop host valid text
        ≡ length (escape_where (λ i. field_byte_escaped host valid) index text)
  unfolding field_size_loop escape_where
  field_size_loop-length valid index [] = refl
  field_size_loop-length valid index (b ∷ rest) =
      ground (arith, field_size_loop-length valid (suc index) rest)

  -- The size that the budget is charged with before a field is escaped is the size of the escaped field.
  pub escaped_field_size-length :
      (text : List ℕ) → escaped_field_size host text ≡ length (escape_field host text)
  unfolding escaped_field_size escape_field
  escaped_field_size-length text = field_size_loop-length (is_valid_utf8 host text) 0 text
