-- ===== src/Godot/Remap/Text/Quoted.antt =====
-- src/core/godot/import_remap.cpp: `parse_string` on what a writer of strings writes.
use observer_modules.Prelude.{
  ℕ, zero, suc, ◌<◌, ◌==◌, ◌≡◌, refl, ap, ◌∙◌, true, false, ◌||◌, List, [], ◌∷◌, ◌++◌, append_assoc,
  append-nil, Bool-cases, inl, inr, length, length-append, arith,
}
use observer_modules.Failure.{ok}
use observer_modules.Godot.Remap.Chars.{encode_utf8}
use observer_modules.Godot.Remap.Text.{
  Pending, escape_value, parse_escape_value, append_value, append_escape, append_plain,
  close_string, string_loop, parse_string,
}

-- A backslash in front of each quote and each backslash.
abbrev quote_char : ℕ → List ℕ → List ℕ
quote_char c rest = elim (c == b'"' || c == b'\\') [ true ↦ b'\\' ∷ c ∷ rest | false ↦ c ∷ rest ]

unfoldable pub quoted : List ℕ → List ℕ
quoted [] = []
quoted (c ∷ s) = quote_char c (quoted s)

abbrev opened : List ℕ → Pending
opened out = record { out = out; lead = 0 }

step_quote :
    (fuel : ℕ) (out rest : List ℕ)
    → string_loop (suc fuel) (opened out) (b'\\' ∷ b'"' ∷ rest)
      ≡ string_loop fuel (opened (out ++ (b'"' ∷ []))) rest
unfolding string_loop append_escape parse_escape_value escape_value append_value encode_utf8
step_quote fuel out rest = refl

step_backslash :
    (fuel : ℕ) (out rest : List ℕ)
    → string_loop (suc fuel) (opened out) (b'\\' ∷ b'\\' ∷ rest)
      ≡ string_loop fuel (opened (out ++ (b'\\' ∷ []))) rest
unfolding string_loop append_escape parse_escape_value escape_value append_value encode_utf8
step_backslash fuel out rest = refl

step_plain :
    (fuel : ℕ) (out rest : List ℕ) (c : ℕ)
    → (c == b'"') ≡ false
    → (c == b'\\') ≡ false
    → string_loop (suc fuel) (opened out) (c ∷ rest)
      ≡ string_loop fuel (opened (out ++ (c ∷ []))) rest
unfolding string_loop append_plain
step_plain fuel out rest c h k = ground arith

quoted_plain :
    (c : ℕ) (s : List ℕ)
    → (c == b'"') ≡ false
    → (c == b'\\') ≡ false
    → quoted (c ∷ s) ≡ c ∷ quoted s
unfolding quoted
quoted_plain c s e f = ground arith

step_char :
    (fuel : ℕ) (out s rest : List ℕ) (c : ℕ)
    → string_loop (suc fuel) (opened out) (quoted (c ∷ s) ++ rest)
      ≡ string_loop fuel (opened (out ++ (c ∷ []))) (quoted s ++ rest)
unfolding quoted
step_char fuel out s rest c = elim (Bool-cases (c == b'"')) [
  | inl e ↦ let same : c ≡ b'"' = ground arith in rw same (step_quote fuel out (quoted s ++ rest))
  | inr e ↦ elim (Bool-cases (c == b'\\')) [
    | inl f ↦
        let same : c ≡ b'\\' = ground arith in rw same (step_backslash fuel out (quoted s ++ rest))
    | inr f ↦
        ap (λ text. string_loop (suc fuel) (opened out) (text ++ rest)) (quoted_plain c s e f)
        ∙ step_plain fuel out (quoted s ++ rest) c e f
  ]
]

length-quoted : (c : ℕ) (s : List ℕ) → length (quoted s) < length (quoted (c ∷ s))
unfolding quoted
length-quoted c s = ground arith

close :
    (fuel : ℕ) (out rest : List ℕ)
    → string_loop (suc fuel) (opened out) (b'"' ∷ rest) ≡ ok (out, rest)
unfolding string_loop close_string
close fuel out rest = refl

-- The characters of a string, and the quote that ends it.
string_loop-quoted :
    (fuel : ℕ) (out s rest : List ℕ)
    → length (quoted s) < fuel
    → string_loop fuel (opened out) (quoted s ++ (b'"' ∷ rest)) ≡ ok (out ++ s, rest)
unfolding quoted
string_loop-quoted zero out s rest h = absurd (omega arith)
string_loop-quoted (suc fuel) out [] rest h = rw append-nil (close fuel out rest)
string_loop-quoted (suc fuel) out (c ∷ s) rest h =
    step_char fuel out s (b'"' ∷ rest) c
    ∙ string_loop-quoted fuel (out ++ (c ∷ [])) s rest (omega (arith, length-quoted c s))
    ∙ ap (λ o. ok (o, rest)) (append_assoc out (c ∷ []) s)

-- A string that is written between quotes, with a backslash in front of each quote and each backslash
-- in it, is read back whatever its bytes are, and the cursor stands behind the closing quote.
pub parse_string-quoted :
    (s rest : List ℕ) → parse_string (quoted s ++ (b'"' ∷ rest)) ≡ ok (s, rest)
unfolding parse_string
parse_string-quoted s rest =
    string_loop-quoted (suc (length (quoted s ++ (b'"' ∷ rest)))) [] s rest
      (omega (arith, length-append (quoted s) (b'"' ∷ rest)))
