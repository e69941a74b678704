-- ===== src/Godot/Remap/Value/Bounds.antt =====
-- src/core/godot/import_remap.cpp: how far the members of `scanner` move the cursor over a value.
use observer_modules.Prelude.{
  ℕ, zero, suc, ◌≤◌, ◌<◌, ◌==◌, ◌≡◌, refl, ap, false, List, [], ◌∷◌, Option, none, some, ltb,
  length, arith,
}
use observer_modules.Failure.{Result, metadata_error}
use observer_modules.Failure.Only.{
  Only, Only-ok, Only-throw, Only-if, Only-split, Only-bind, Only-guard, Only-weaken, Any,
}
use observer_modules.Godot.Remap.Chars.{is_newline, is_value_prefix, is_identifier_char}
use observer_modules.Godot.Remap.Text.{skip_comment, trivia_loop, parse_string}
use observer_modules.Godot.Remap.Text.Bounds.{
  Within, length-skip_comment, length-trivia_loop, parse_string-Within,
}
use observer_modules.Godot.Remap.Value.{
  MetadataLimits, push_bracket, expected_open, pop_bracket, is_open, is_close, step_bracket,
  balanced_loop, skip_balanced, skip_identifier, skip_value_trivia, at_parenthesis,
  is_constructor_call, scalar_loop, skip_scalar_token, ignored_value, string_value, prefixed_value,
  scalar_or_call, parse_value,
}

-- No more than `n` characters are left.
abbrev Rest : ℕ → List ℕ → Type 0
Rest n rest = length rest ≤ n

module _ (limits : MetadataLimits) where
  step_bracket-Any :
      (stack : List ℕ) (c : ℕ) → Only metadata_error Any (step_bracket limits stack c)
  unfolding step_bracket push_bracket pop_bracket
  step_bracket-Any stack c =
      Only-if (is_open c)
        (λ e. Only-guard (ltb limits.max_nesting (suc (length stack))) _ λ f. Only-ok tt)
        λ e. Only-if (is_close c) (λ f. popped stack) λ f. Only-ok tt
    where
      popped : (brackets : List ℕ) → Only metadata_error Any (pop_bracket brackets c)
      popped [] = Only-throw
      popped (top ∷ below) = Only-if (top == expected_open c) (λ g. Only-ok tt) λ g. Only-throw

  balanced_loop-Rest :
      (fuel : ℕ) (stack text : List ℕ)
      → length text < fuel
      → Only metadata_error (Rest (length text)) (balanced_loop limits fuel stack text)
  unfolding balanced_loop
  balanced_loop-Rest zero stack text h = absurd (omega arith)
  balanced_loop-Rest (suc fuel) [] text h = Only-ok (omega arith)
  balanced_loop-Rest (suc fuel) (top ∷ stack) [] h = Only-throw
  balanced_loop-Rest (suc fuel) (top ∷ stack) (c ∷ rest) h =
      Only-split (c == b'"') _ _
        (λ e. Only-bind (parse_string rest) _ (parse_string-Within rest) λ (s, left) l.
          Only-weaken _ (balanced_loop-Rest fuel (top ∷ stack) left (omega arith))
            λ end m. omega arith)
        λ e.
          Only-split (c == b';') _ _
            (λ f.
              Only-weaken _
                (balanced_loop-Rest fuel (top ∷ stack) (skip_comment rest)
                  (omega (arith, length-skip_comment rest)))
                λ end m. omega (arith, length-skip_comment rest))
            λ f.
              Only-bind (step_bracket limits (top ∷ stack) c) _ (step_bracket-Any (top ∷ stack) c)
                λ brackets u.
                  Only-weaken _ (balanced_loop-Rest fuel brackets rest (omega arith))
                    λ end m. omega arith

  skip_balanced-Rest :
      (text : List ℕ) → Only metadata_error (Rest (length text)) (skip_balanced limits text)
  unfolding skip_balanced push_bracket
  skip_balanced-Rest [] = Only-throw
  skip_balanced-Rest (c ∷ rest) =
      Only-bind (push_bracket limits [] c) _
        (Only-guard (ltb limits.max_nesting 1) _ λ f. Only-ok {P = Any} tt)
        λ stack u.
          Only-weaken _ (balanced_loop-Rest (suc (length rest)) stack rest (omega arith))
            λ end m. omega arith

  length-skip_identifier : (text : List ℕ) → length (skip_identifier text) ≤ length text
  unfolding skip_identifier
  length-skip_identifier [] = omega arith
  length-skip_identifier (c ∷ rest) = ground (arith, length-skip_identifier rest)

  at_parenthesis-same :
      (text : List ℕ) {call : List ℕ} → at_parenthesis text ≡ some call → call ≡ text
  at_parenthesis-same [] h = cc
  at_parenthesis-same (c ∷ rest) h = ground arith

  is_constructor_call-Rest :
      (text : List ℕ) {call : List ℕ}
      → is_constructor_call text ≡ some call
      → length call ≤ length text
  unfolding is_constructor_call skip_value_trivia
  is_constructor_call-Rest text {call} h = omega (
    arith,
    ap length (at_parenthesis-same (trivia_loop false (skip_identifier text)) {call = call} h),
    length-skip_identifier text,
    length-trivia_loop false (skip_identifier text),
  )

  length-scalar_loop : (text : List ℕ) → length (scalar_loop text) ≤ length text
  unfolding scalar_loop
  length-scalar_loop [] = omega arith
  length-scalar_loop (c ∷ rest) = ground (arith, length-scalar_loop rest)

  ignored_value-Within :
      (n : ℕ) (r : Result (List ℕ))
      → Only metadata_error (Rest n) r
      → Only metadata_error (Within n) (ignored_value r)
  ignored_value-Within n r h = Only-bind r _ h λ rest m. Only-ok m

  scalar_or_call-Within :
      (text : List ℕ) (o : Option (List ℕ))
      → ((call : List ℕ) → o ≡ some call → length call ≤ length text)
      → Only metadata_error (Within (length text)) (scalar_or_call limits text o)
  unfolding skip_scalar_token scalar_or_call skip_balanced
  scalar_or_call-Within text none h = ignored_value-Within (length text) (skip_scalar_token text) (
      Only-guard (length (scalar_loop text) == length text) _
        λ f. Only-ok (length-scalar_loop text))
  scalar_or_call-Within text (some call) h =
      ignored_value-Within (length text) (skip_balanced limits call)
        (Only-weaken _ (skip_balanced-Rest call) λ end m. omega (arith, h call refl))

  pub parse_value-Within :
      (text : List ℕ) → Only metadata_error (Within (length text)) (parse_value limits text)
  unfolding parse_value prefixed_value string_value scalar_or_call
  parse_value-Within [] = Only-throw
  parse_value-Within (c ∷ rest) =
      Only-if (c == b'"')
        (λ e.
          Only-bind (parse_string rest) _ (parse_string-Within rest)
            λ (s, end) m. Only-ok (omega arith))
        λ e.
          Only-if (is_open c)
            (λ f.
              ignored_value-Within (suc (length rest)) (skip_balanced limits (c ∷ rest))
                (skip_balanced-Rest (c ∷ rest)))
            λ f.
              Only-if (is_newline c) (λ g. Only-throw)
                λ g.
                  Only-if (is_value_prefix c) (λ i. prefixed rest)
                    λ i.
                      Only-if (is_identifier_char c)
                        (λ j.
                          scalar_or_call-Within (c ∷ rest) (is_constructor_call (c ∷ rest))
                            λ call. is_constructor_call-Rest (c ∷ rest))
                        λ j. scalar_or_call-Within (c ∷ rest) none λ call k. cc
    where
      prefixed :
          (text : List ℕ) → Only metadata_error (Within (suc (length text))) (prefixed_value text)
      prefixed [] = Only-throw
      prefixed (c ∷ rest) =
          Only-if (c == b'"')
            (λ e.
              Only-bind (parse_string rest) _ (parse_string-Within rest)
                λ (s, end) m. Only-ok (omega arith))
            λ e. Only-throw
