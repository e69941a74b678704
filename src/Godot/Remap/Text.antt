-- ===== src/Godot/Remap/Text.antt =====
-- src/core/godot/import_remap.cpp: the class `scanner` on strings, comments and white space. `text_` at
-- `position_` is the list of the characters that are left.
pub mod Bounds
pub mod Quoted
use observer_modules.Prelude.{
  ℕ, zero, suc, ◌+◌, ◌-◌, ◌*◌, ◌/◌, ◌%◌, ◌^◌, ◌==◌, Bool, true, false, ◌&&◌, ◌||◌, not, List, [],
  ◌∷◌, ◌++◌, Option, none, some, if◌then◌else◌, ltb, length, bit_or,
}
use observer_modules.Failure.{Result, ok, throw, ◌>>=◌, ◌>>◌, throw_if, metadata_error, out_of_fuel}
use observer_modules.Godot.Remap.Chars.{
  is_inline_space, is_newline, is_trivia_space, trim_edges, unescape_section_name,
  is_key_punctuation, hex_value, encode_utf8,
}

-- What a member reads, and the characters that are left.
abbrev pub Scanned : Type 0 → Type 0
Scanned A = Result (A × List ℕ)

unfoldable pub skip_comment : List ℕ → List ℕ
skip_comment [] = []
skip_comment (c ∷ rest) = elim (c == 10) [ true ↦ c ∷ rest | false ↦ skip_comment rest ]

-- The loop of `skip_trivia`, behind a `;` where `in_comment`. A comment ends with its newline, which
-- the loop then skips as a space.
unfoldable pub trivia_loop : Bool → List ℕ → List ℕ
trivia_loop in_comment [] = []
trivia_loop true (c ∷ rest) = trivia_loop (not (c == 10)) rest
trivia_loop false (c ∷ rest) = elim (is_trivia_space c || c == b';') [
  | true ↦ trivia_loop (c == b';') rest
  | false ↦ c ∷ rest
]

unfoldable pub skip_trivia : List ℕ → List ℕ
unfolding trivia_loop
skip_trivia text = trivia_loop false text

unfoldable pub skip_inline_spaces : List ℕ → List ℕ
skip_inline_spaces [] = []
skip_inline_spaces (c ∷ rest) = elim (is_inline_space c) [
  | true ↦ skip_inline_spaces rest
  | false ↦ c ∷ rest
]

-- `digits` is the number of rounds that are left.
unfoldable pub hex_loop : ℕ → ℕ → List ℕ → Scanned ℕ
unfolding hex_value
hex_loop zero value text = ok (value, text)
hex_loop (suc digits) value [] = throw metadata_error
hex_loop (suc digits) value (c ∷ rest) = elim (hex_value c) [
  | none ↦ throw metadata_error
  | some digit ↦ hex_loop digits (bit_or (value * 16 % 2 ^ 32) digit) rest
]

unfoldable pub parse_hex_escape : ℕ → List ℕ → Scanned ℕ
unfolding hex_loop
parse_hex_escape digits text = hex_loop digits 0 text

unfoldable pub escape_value : ℕ → List ℕ → Scanned ℕ
unfolding parse_hex_escape
escape_value c rest =
    if c == b'b'
    then ok (8, rest)
    else if c == b't'
    then ok (9, rest)
    else if c == b'n'
    then ok (10, rest)
    else if c == b'f'
    then ok (12, rest)
    else if c == b'r'
    then ok (13, rest)
    else if c == b'u'
    then parse_hex_escape 4 rest
    else if c == b'U'
    then parse_hex_escape 6 rest
    else ok (c, rest)

unfoldable pub parse_escape_value : List ℕ → Scanned ℕ
unfolding escape_value
parse_escape_value [] = throw metadata_error
parse_escape_value (c ∷ rest) = escape_value c rest

-- `out` and `pending_lead`.
pub record Pending : Type 0 where
  pub out : List ℕ
  pub lead : ℕ

-- `value & 0xFFFFFC00`.
abbrev pub surrogate_block : ℕ → ℕ
surrogate_block value = value - value % 1024

abbrev pub merge_surrogates : ℕ → ℕ → ℕ
merge_surrogates lead value =
    (lead * 1024 % 2 ^ 32 + value + (2 ^ 32 - (55296 * 1024 + 56320 - 65536))) % 2 ^ 32

unfoldable pub append_value : ℕ → Pending → Result Pending
unfolding encode_utf8
append_value value p =
    if surrogate_block value == 55296
    then (throw_if (not (p.lead == 0)) metadata_error >> ok (record { out = p.out; lead = value }))
    else if surrogate_block value == 56320
    then (throw_if (p.lead == 0) metadata_error
        >> ok (record { out = p.out ++ encode_utf8 (merge_surrogates p.lead value); lead = 0 }))
    else (throw_if (not (p.lead == 0)) metadata_error
        >> (throw_if (ltb 1114111 value) metadata_error
            >> ok (record { out = p.out ++ encode_utf8 value; lead = 0 })))

unfoldable pub append_escape : Pending → List ℕ → Scanned Pending
unfolding parse_escape_value append_value
append_escape p text = do
  (value, rest) ← parse_escape_value text
  q ← append_value value p
  ok (q, rest)

-- The character at the cursor is not the closing quote.
unfoldable pub append_plain : ℕ → Pending → Result Pending
append_plain c p =
    throw_if (not (p.lead == 0)) metadata_error >> ok (record { out = p.out ++ (c ∷ []); lead = 0 })

unfoldable pub close_string : Pending → List ℕ → Scanned (List ℕ)
close_string p rest = throw_if (not (p.lead == 0)) metadata_error >> ok (p.out, rest)

-- Each round reads a character or more, so a round for each of them and one more is fuel enough.
unfoldable pub string_loop : ℕ → Pending → List ℕ → Scanned (List ℕ)
unfolding append_escape append_plain close_string
string_loop zero p text = throw out_of_fuel
string_loop (suc fuel) p [] = throw metadata_error
string_loop (suc fuel) p (c ∷ rest) = elim (c == b'"') [
  | true ↦ close_string p rest
  | false ↦ elim (c == b'\\') [
    | true ↦ append_escape p rest >>= λ (q, left). string_loop fuel q left
    | false ↦ append_plain c p >>= λ q. string_loop fuel q rest
  ]
]

-- `text` is what stands behind the opening quote.
unfoldable pub parse_string : List ℕ → Scanned (List ℕ)
unfolding string_loop
parse_string text = string_loop (suc (length text)) (record { out = []; lead = 0 }) text

unfoldable pub section_loop : Bool → List ℕ → List ℕ → Scanned (List ℕ)
unfolding trim_edges unescape_section_name
section_loop escaping name [] = throw metadata_error
section_loop escaping name (c ∷ rest) = elim (c == b']' && not escaping) [
  | true ↦ ok (unescape_section_name (trim_edges name), rest)
  | false ↦ elim (is_newline c) [
    | true ↦ throw metadata_error
    | false ↦ section_loop (c == b'\\') (name ++ (c ∷ [])) rest
  ]
]

-- `text` is what stands behind the `[`.
unfoldable pub parse_section_name : List ℕ → Scanned (List ℕ)
unfolding section_loop
parse_section_name text = section_loop false [] text

abbrev pub finish_key : List ℕ → List ℕ → Scanned (List ℕ)
finish_key [] rest = throw metadata_error
finish_key (k ∷ ks) rest = ok (k ∷ ks, rest)

unfoldable pub key_loop : List ℕ → List ℕ → Scanned (List ℕ)
key_loop key [] = throw metadata_error
key_loop key (c ∷ rest) = elim (c == b'=' || is_inline_space c) [
  | true ↦ finish_key key (c ∷ rest)
  | false ↦ elim (is_newline c || is_key_punctuation c) [
    | true ↦ throw metadata_error
    | false ↦ key_loop (key ++ (c ∷ [])) rest
  ]
]

unfoldable pub parse_key : List ℕ → Scanned (List ℕ)
unfolding parse_string key_loop
parse_key [] = throw metadata_error
parse_key (c ∷ rest) = elim (c == b'"') [
  | true ↦ parse_string rest
  | false ↦ key_loop [] (c ∷ rest)
]
