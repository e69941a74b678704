-- ===== src/Godot/Remap/Text/Bounds.antt =====
-- src/core/godot/import_remap.cpp: how far the members of `scanner` move the cursor.
use observer_modules.Prelude.{
  ℕ, zero, suc, ◌*◌, ◌%◌, ◌^◌, ◌≤◌, ◌<◌, ◌==◌, Bool, true, false, ◌&&◌, ◌||◌, not, List, [], ◌∷◌,
  ◌++◌, Option, none, some, ltb, length, bit_or, arith,
}
use observer_modules.Failure.{throw, metadata_error}
use observer_modules.Failure.Only.{
  Only, Only-ok, Only-throw, Only-if, Only-split, Only-bind, Only-guard, Only-weaken, Any,
}
use observer_modules.Godot.Remap.Chars.{is_inline_space, is_newline, is_key_punctuation, hex_value}
use observer_modules.Godot.Remap.Text.{
  skip_comment, trivia_loop, skip_trivia, skip_inline_spaces, hex_loop, parse_hex_escape,
  escape_value, parse_escape_value, Pending, surrogate_block, append_value, append_escape,
  append_plain, close_string, string_loop, parse_string, section_loop, parse_section_name,
  finish_key, key_loop, parse_key,
}

-- No more than `n` characters are left.
abbrev pub Within : {A : Type 0} → ℕ → A × List ℕ → Type 0
Within n (a, rest) = length rest ≤ n

pub length-skip_comment : (text : List ℕ) → length (skip_comment text) ≤ length text
unfolding skip_comment
length-skip_comment [] = omega arith
length-skip_comment (c ∷ rest) = ground (arith, length-skip_comment rest)

pub length-trivia_loop : (b : Bool) (text : List ℕ) → length (trivia_loop b text) ≤ length text
unfolding trivia_loop
length-trivia_loop b [] = omega arith
length-trivia_loop true (c ∷ rest) = omega (arith, length-trivia_loop (not (c == 10)) rest)
length-trivia_loop false (c ∷ rest) = ground (arith, length-trivia_loop (c == b';') rest)

pub length-skip_trivia : (text : List ℕ) → length (skip_trivia text) ≤ length text
unfolding skip_trivia
length-skip_trivia text = length-trivia_loop false text

pub length-skip_inline_spaces : (text : List ℕ) → length (skip_inline_spaces text) ≤ length text
unfolding skip_inline_spaces
length-skip_inline_spaces [] = omega arith
length-skip_inline_spaces (c ∷ rest) = ground (arith, length-skip_inline_spaces rest)

hex_loop-Within :
    (n digits value : ℕ) (text : List ℕ)
    → length text ≤ n
    → Only metadata_error (Within n) (hex_loop digits value text)
unfolding hex_loop
hex_loop-Within n zero value text h = Only-ok h
hex_loop-Within n (suc digits) value [] h = Only-throw
hex_loop-Within n (suc digits) value (c ∷ rest) h =
    go (hex_value c) λ next. hex_loop-Within n digits next rest (omega arith)
  where
    go :
        (o : Option ℕ)
        → ((next : ℕ) → Only metadata_error (Within n) (hex_loop digits next rest))
        → Only metadata_error (Within n) (elim o [
          | none ↦ throw metadata_error
          | some digit ↦ hex_loop digits (bit_or (value * 16 % 2 ^ 32) digit) rest
        ])
    go none k = Only-throw
    go (some digit) k = k (bit_or (value * 16 % 2 ^ 32) digit)

parse_escape_value-Within :
    (text : List ℕ) → Only metadata_error (Within (length text)) (parse_escape_value text)
unfolding parse_escape_value escape_value parse_hex_escape
parse_escape_value-Within [] = Only-throw
parse_escape_value-Within (c ∷ rest) =
    Only-if (c == b'b') (λ e. Only-ok (omega arith))
      λ _.
        Only-if (c == b't') (λ e. Only-ok (omega arith))
          λ _.
            Only-if (c == b'n') (λ e. Only-ok (omega arith))
              λ _.
                Only-if (c == b'f') (λ e. Only-ok (omega arith))
                  λ _.
                    Only-if (c == b'r') (λ e. Only-ok (omega arith))
                      λ _.
                        Only-if (c == b'u')
                          (λ e. hex_loop-Within (suc (length rest)) 4 0 rest (omega arith))
                          λ _.
                            Only-if (c == b'U')
                              (λ e. hex_loop-Within (suc (length rest)) 6 0 rest (omega arith))
                              λ _. Only-ok (omega arith)

append_value-Any : (value : ℕ) (p : Pending) → Only metadata_error Any (append_value value p)
unfolding append_value
append_value-Any value p =
    Only-if (surrogate_block value == 55296) (λ e. Only-guard (not (p.lead == 0)) _ λ f. Only-ok tt)
      λ e.
        Only-if (surrogate_block value == 56320) (λ e. Only-guard (p.lead == 0) _ λ f. Only-ok tt)
          λ e.
            Only-guard (not (p.lead == 0)) _ λ f. Only-guard (ltb 1114111 value) _ λ g. Only-ok tt

append_escape-Within :
    (p : Pending) (text : List ℕ)
    → Only metadata_error (Within (length text)) (append_escape p text)
unfolding append_escape
append_escape-Within p text =
    Only-bind (parse_escape_value text) _ (parse_escape_value-Within text) λ (value, rest) h.
      Only-bind (append_value value p) _ (append_value-Any value p) λ q u. Only-ok h

string_loop-Within :
    (fuel : ℕ) (p : Pending) (text : List ℕ)
    → length text < fuel
    → Only metadata_error (Within (length text)) (string_loop fuel p text)
unfolding string_loop append_plain close_string
string_loop-Within zero p text h = absurd (omega arith)
string_loop-Within (suc fuel) p [] h = Only-throw
string_loop-Within (suc fuel) p (c ∷ rest) h =
    Only-split (c == b'"') _ _ (λ e. Only-guard (not (p.lead == 0)) _ λ f. Only-ok (omega arith))
      λ e.
        Only-split (c == b'\\') _ _
          (λ g. Only-bind (append_escape p rest) _ (append_escape-Within p rest) λ (q, left) l.
            Only-weaken _ (string_loop-Within fuel q left (omega arith)) λ (s, end) m. omega arith)
          λ g.
            Only-bind (append_plain c p) _
              (Only-guard (not (p.lead == 0)) _ λ f. Only-ok {P = Any} tt)
              λ q l.
                Only-weaken _ (string_loop-Within fuel q rest (omega arith))
                  λ (s, end) m. omega arith

pub parse_string-Within :
    (text : List ℕ) → Only metadata_error (Within (length text)) (parse_string text)
unfolding parse_string
parse_string-Within text =
    string_loop-Within (suc (length text)) (record { out = []; lead = 0 }) text (omega arith)

section_loop-Within :
    (escaping : Bool) (name text : List ℕ)
    → Only metadata_error (Within (length text)) (section_loop escaping name text)
unfolding section_loop
section_loop-Within escaping name [] = Only-throw
section_loop-Within escaping name (c ∷ rest) =
    Only-split (c == b']' && not escaping) _ _ (λ e. Only-ok (omega arith))
      λ e.
        Only-split (is_newline c) _ _ (λ f. Only-throw)
          λ f.
            Only-weaken _ (section_loop-Within (c == b'\\') (name ++ (c ∷ [])) rest)
              λ (s, end) m. omega arith

pub parse_section_name-Within :
    (text : List ℕ) → Only metadata_error (Within (length text)) (parse_section_name text)
unfolding parse_section_name
parse_section_name-Within text = section_loop-Within false [] text

finish_key-Within :
    (key rest : List ℕ) → Only metadata_error (Within (length rest)) (finish_key key rest)
finish_key-Within [] rest = Only-throw
finish_key-Within (k ∷ ks) rest = Only-ok (omega arith)

key_loop-Within :
    (key text : List ℕ) → Only metadata_error (Within (length text)) (key_loop key text)
unfolding key_loop
key_loop-Within key [] = Only-throw
key_loop-Within key (c ∷ rest) =
    Only-split (c == b'=' || is_inline_space c) _ _ (λ e. finish_key-Within key (c ∷ rest))
      λ e.
        Only-split (is_newline c || is_key_punctuation c) _ _ (λ f. Only-throw)
          λ f. Only-weaken _ (key_loop-Within (key ++ (c ∷ [])) rest) λ (s, end) m. omega arith

pub parse_key-Within : (text : List ℕ) → Only metadata_error (Within (length text)) (parse_key text)
unfolding parse_key
parse_key-Within [] = Only-throw
parse_key-Within (c ∷ rest) =
    Only-split (c == b'"') _ _
      (λ e. Only-weaken _ (parse_string-Within rest) λ (s, end) m. omega arith)
      λ e. key_loop-Within [] (c ∷ rest)
