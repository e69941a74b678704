-- ===== src/Godot/Remap/Value.antt =====
-- src/core/godot/import_remap.cpp: the class `scanner` on values.
pub mod Bounds
use observer_modules.Prelude.{
  ℕ, zero, suc, ◌*◌, ◌==◌, Bool, true, false, ◌&&◌, ◌||◌, List, [], ◌∷◌, Option, none, some,
  if◌then◌else◌, ltb, length,
}
use observer_modules.Failure.{Result, ok, throw, ◌>>=◌, ◌>>◌, throw_if, metadata_error, out_of_fuel}
use observer_modules.Godot.Remap.Chars.{
  is_newline, is_trivia_space, is_value_prefix, is_identifier_char,
}
use observer_modules.Godot.Remap.Text.{Scanned, skip_comment, trivia_loop, parse_string}

-- src/core/godot/import_remap.h
pub record MetadataLimits : Type 0 where
  pub max_input_bytes : ℕ
  pub max_mappings : ℕ
  pub max_nesting : ℕ

abbrev pub default_limits : MetadataLimits
default_limits = record { max_input_bytes = 4 * 1024 * 1024; max_mappings = 128; max_nesting = 16 }

-- The brackets that are open, the innermost first.
unfoldable pub push_bracket : MetadataLimits → List ℕ → ℕ → Result (List ℕ)
push_bracket limits stack bracket =
    throw_if (ltb limits.max_nesting (suc (length stack))) metadata_error >> ok (bracket ∷ stack)

abbrev pub expected_open : ℕ → ℕ
expected_open close = if close == b']' then b'[' else if close == b'}' then b'{' else b'('

unfoldable pub pop_bracket : List ℕ → ℕ → Result (List ℕ)
pop_bracket [] close = throw metadata_error
pop_bracket (bracket ∷ stack) close =
    if bracket == expected_open close then ok stack else throw metadata_error

abbrev pub is_open : ℕ → Bool
is_open c = c == b'[' || c == b'{' || c == b'('

abbrev pub is_close : ℕ → Bool
is_close c = c == b']' || c == b'}' || c == b')'

-- What one round of the loop does with a character that is neither a quote nor a `;`.
unfoldable pub step_bracket : MetadataLimits → List ℕ → ℕ → Result (List ℕ)
unfolding push_bracket pop_bracket
step_bracket limits stack c =
    if is_open c
    then push_bracket limits stack c
    else if is_close c
    then pop_bracket stack c
    else ok stack

-- Each round reads a character or more.
unfoldable pub balanced_loop : MetadataLimits → ℕ → List ℕ → List ℕ → Result (List ℕ)
unfolding parse_string skip_comment step_bracket
balanced_loop limits zero stack text = throw out_of_fuel
balanced_loop limits (suc fuel) [] text = ok text
balanced_loop limits (suc fuel) (bracket ∷ stack) [] = throw metadata_error
balanced_loop limits (suc fuel) (bracket ∷ stack) (c ∷ rest) = elim (c == b'"') [
  | true ↦ parse_string rest >>= λ (ignored, left). balanced_loop limits fuel (bracket ∷ stack) left
  | false ↦ elim (c == b';') [
    | true ↦ balanced_loop limits fuel (bracket ∷ stack) (skip_comment rest)
    | false ↦ step_bracket limits (bracket ∷ stack) c >>= λ brackets.
        balanced_loop limits fuel brackets rest
  ]
]

-- The cursor stands at an opening bracket.
unfoldable pub skip_balanced : MetadataLimits → List ℕ → Result (List ℕ)
unfolding push_bracket balanced_loop
skip_balanced limits [] = throw metadata_error
skip_balanced limits (bracket ∷ rest) =
    push_bracket limits [] bracket >>= λ stack. balanced_loop limits (suc (length rest)) stack rest

unfoldable pub skip_identifier : List ℕ → List ℕ
skip_identifier [] = []
skip_identifier (c ∷ rest) = elim (is_identifier_char c) [
  | true ↦ skip_identifier rest
  | false ↦ c ∷ rest
]

-- What is left at the first significant character; nothing where there is none.
unfoldable pub skip_value_trivia : List ℕ → List ℕ
unfolding trivia_loop
skip_value_trivia text = trivia_loop false text

abbrev pub at_parenthesis : List ℕ → Option (List ℕ)
at_parenthesis [] = none
at_parenthesis (c ∷ rest) = if c == b'(' then some (c ∷ rest) else none

-- The text at the parenthesis, where there is one; the cursor moves only then.
unfoldable pub is_constructor_call : List ℕ → Option (List ℕ)
unfolding skip_identifier skip_value_trivia
is_constructor_call text = at_parenthesis (skip_value_trivia (skip_identifier text))

unfoldable pub scalar_loop : List ℕ → List ℕ
scalar_loop [] = []
scalar_loop (c ∷ rest) = elim (is_trivia_space c || c == b';') [
  | true ↦ c ∷ rest
  | false ↦ scalar_loop rest
]

unfoldable pub skip_scalar_token : List ℕ → Result (List ℕ)
unfolding scalar_loop
skip_scalar_token start =
    throw_if (length (scalar_loop start) == length start) metadata_error >> ok (scalar_loop start)

-- A value that is no plain string: only its end matters.
abbrev pub ignored_value : Result (List ℕ) → Scanned (Option (List ℕ))
ignored_value skipped = skipped >>= λ rest. ok (none, rest)

unfoldable pub string_value : List ℕ → Scanned (Option (List ℕ))
unfolding parse_string
string_value text = parse_string text >>= λ (value, rest). ok (some value, rest)

unfoldable pub prefixed_value : List ℕ → Scanned (Option (List ℕ))
unfolding parse_string
prefixed_value [] = throw metadata_error
prefixed_value (c ∷ rest) =
    if c == b'"'
    then (parse_string rest >>= λ (value, left). ok (none, left))
    else throw metadata_error

unfoldable pub scalar_or_call :
    MetadataLimits → List ℕ → Option (List ℕ) → Scanned (Option (List ℕ))
unfolding skip_balanced skip_scalar_token
scalar_or_call limits text none = ignored_value (skip_scalar_token text)
scalar_or_call limits text (some call) = ignored_value (skip_balanced limits call)

unfoldable pub parse_value : MetadataLimits → List ℕ → Scanned (Option (List ℕ))
unfolding parse_string skip_balanced string_value scalar_or_call prefixed_value is_constructor_call
    skip_scalar_token
parse_value limits [] = throw metadata_error
parse_value limits (c ∷ rest) =
    if c == b'"'
    then string_value rest
    else if is_open c
    then ignored_value (skip_balanced limits (c ∷ rest))
    else if is_newline c
    then throw metadata_error
    else if is_value_prefix c
    then prefixed_value rest
    else if is_identifier_char c
    then scalar_or_call limits (c ∷ rest) (is_constructor_call (c ∷ rest))
    else scalar_or_call limits (c ∷ rest) none
