-- ===== src/Godot/Remap/Chars.antt =====
-- src/core/godot/import_remap.cpp: the characters of a ConfigFile.
use observer_modules.Prelude.{
  ℕ, ◌+◌, ◌-◌, ◌/◌, ◌%◌, ◌==◌, Bool, true, false, ◌&&◌, ◌||◌, List, [], ◌∷◌, Option, none, some,
  if◌then◌else◌, leb, ltb, reverse, bit_or,
}

abbrev pub is_inline_space : ℕ → Bool
is_inline_space c = c == b' ' || c == 9

abbrev pub is_newline : ℕ → Bool
is_newline c = c == 10 || c == 13

abbrev pub is_trivia_space : ℕ → Bool
is_trivia_space c = c == b' ' || c == 9 || c == 13 || c == 10

-- The two loops of `trim_edges`: the second one reads from the end.
unfoldable pub trim_left : List ℕ → List ℕ
trim_left [] = []
trim_left (c ∷ rest) = elim (is_trivia_space c) [ true ↦ trim_left rest | false ↦ c ∷ rest ]

unfoldable pub trim_edges : List ℕ → List ℕ
unfolding trim_left
trim_edges text = reverse (trim_left (reverse (trim_left text)))

unfoldable pub unescape_section_name : List ℕ → List ℕ
unescape_section_name [] = []
unescape_section_name (c ∷ []) = c ∷ []
unescape_section_name (c ∷ d ∷ rest) = elim (c == b'\\' && d == b']') [
  | true ↦ b']' ∷ unescape_section_name rest
  | false ↦ c ∷ unescape_section_name (d ∷ rest)
]

abbrev pub is_key_punctuation : ℕ → Bool
is_key_punctuation c = c == b'[' || c == b']' || c == b'{' || c == b'}' || c == b'"' || c == b';'

abbrev pub is_value_prefix : ℕ → Bool
is_value_prefix c = c == b'&' || c == b'^'

abbrev pub is_between : ℕ → ℕ → ℕ → Bool
is_between low c high = leb low c && leb c high

abbrev pub is_identifier_char : ℕ → Bool
is_identifier_char c =
    is_between b'0' c b'9' || is_between b'A' c b'Z' || is_between b'a' c b'z' || c == b'_'

-- `none` stands for -1.
unfoldable pub hex_value : ℕ → Option ℕ
hex_value c =
    if is_between b'0' c b'9'
    then some (c - b'0')
    else if is_between b'a' c b'f'
    then some (c - b'a' + 10)
    else if is_between b'A' c b'F'
    then some (c - b'A' + 10)
    else none

-- `static_cast<char>` of an unsigned number.
abbrev pub to_char : ℕ → ℕ
to_char n = n % 256

abbrev pub continuation : ℕ → ℕ
continuation n = to_char (bit_or 128 (n % 64))

unfoldable pub encode_utf8 : ℕ → List ℕ
encode_utf8 code_point =
    if ltb code_point 128
    then to_char code_point ∷ []
    else if ltb code_point 2048
    then to_char (bit_or 192 (code_point / 64)) ∷ continuation code_point ∷ []
    else if ltb code_point 65536
    then to_char (bit_or 224 (code_point / 4096))
      ∷ continuation (code_point / 64)
      ∷ continuation code_point
      ∷ []
    else to_char (bit_or 240 (code_point / 262144))
      ∷ continuation (code_point / 4096)
      ∷ continuation (code_point / 64)
      ∷ continuation code_point
      ∷ []
