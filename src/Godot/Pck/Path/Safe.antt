-- ===== src/Godot/Pck/Path/Safe.antt =====
-- src/core/godot/pck.cpp: the names that `sanitize_path` passes.
use observer_modules.Prelude.{
  ℕ, ◌==◌, ◌≡◌, ◌≢◌, Bool, true, false, ◌&&◌, ◌||◌, List, [], ◌∷◌, ◌++◌, if◌then◌else◌, All,
  All-drop, take, drop, length, length-drop, ◌≤◌, bytes_eq, bytes_eq_refl, ||-eq-false, arith,
}
use observer_modules.Failure.Ensures.{Ensures, Ensures-ok, Ensures-guard}
use observer_modules.Godot.Pck.Path.{
  resource_prefix, parent, has_byte, strip_resource, is_empty, is_absolute, has_unsafe_byte,
  escapes, sanitize_path,
}

-- The components of a path, behind `part`.
unfoldable pub components : List ℕ → List ℕ → List (List ℕ)
components part [] = part ∷ []
components part (b ∷ bs) =
    let rest : List (List ℕ) = components (if b == b'/' then [] else part ++ (b ∷ [])) bs in
    if b == b'/' then part ∷ rest else rest

-- A path that names a file below the directory it is extracted to.
pub record IsSafe (name : List ℕ) : Type 0 where
  pub present : name ≢ []
  pub relative : is_absolute name ≡ false
  pub terminated : All (λ b. b ≢ 0) name
  pub plain : All (λ b. (b ≢ b'\\') × (b ≢ b':')) name
  pub descends : All (λ part. part ≢ parent) (components [] name)

has_byte-All : (b : ℕ) (xs : List ℕ) → has_byte b xs ≡ false → All (λ x. x ≢ b) xs
unfolding has_byte
has_byte-All b [] h = tt
has_byte-All b (x ∷ xs) h =
    let (here, rest) = ||-eq-false (x == b) (has_byte b xs) h in
    (λ e. ground arith, has_byte-All b xs rest)

has_unsafe_byte-All :
    (xs : List ℕ) → has_unsafe_byte xs ≡ false → All (λ b. (b ≢ b'\\') × (b ≢ b':')) xs
unfolding has_unsafe_byte
has_unsafe_byte-All [] h = tt
has_unsafe_byte-All (x ∷ xs) h =
    let (unsafe, rest) = ||-eq-false (x == b'\\' || x == b':') (has_unsafe_byte xs) h in
    let (back, colon) = ||-eq-false (x == b'\\') (x == b':') unsafe in
    ((λ e. ground arith, λ e. ground arith), has_unsafe_byte-All xs rest)

not_parent : (part : List ℕ) → bytes_eq part parent ≡ false → part ≢ parent
not_parent part h e = ground (arith, bytes_eq_refl part)

escapes-components :
    (found : Bool) (part bs : List ℕ)
    → escapes found part bs ≡ false
    → (found ≡ false) × All (λ p. p ≢ parent) (components part bs)
unfolding escapes components
escapes-components found part [] h =
    let (a, b) = ||-eq-false found (bytes_eq part parent) h in (a, (not_parent part b, tt))
escapes-components found part (b ∷ bs) h =
    go (b == b'/') (λ found' part'. escapes-components found' part' bs) h
  where
    -- What stands behind the byte, which ends a component or not.
    next : Bool → List ℕ
    next slash = if slash then [] else part ++ (b ∷ [])

    go :
        (slash : Bool)
        → ((found' : Bool) (part' : List ℕ)
            → escapes found' part' bs ≡ false
            → (found' ≡ false) × All (λ p. p ≢ parent) (components part' bs))
        → escapes (found || (slash && bytes_eq part parent)) (next slash) bs ≡ false
        → (found ≡ false)
          × All
              (λ p. p ≢ parent)
              (if slash then part ∷ components (next slash) bs else components (next slash) bs)
    go true ih k =
        let (before, rest) = ih (found || bytes_eq part parent) [] k in
        let (a, b) = ||-eq-false found (bytes_eq part parent) before in
        (a, (not_parent part b, rest))
    go false ih k =
        let (before, rest) = ih (found || false) (part ++ (b ∷ [])) k in
        ((||-eq-false found false before).0, rest)

strip_resource-All : (P : ℕ → Type 0) (raw : List ℕ) → All P raw → All P (strip_resource raw)
strip_resource-All P raw h = go (bytes_eq (take 6 raw) resource_prefix)
  where
    go : (b : Bool) → All P (if b then drop 6 raw else raw)
    go true = All-drop P 6 raw h
    go false = h

is_empty-present : (name : List ℕ) → is_empty name ≡ false → name ≢ []
is_empty-present [] h e = cc
is_empty-present (x ∷ xs) h e = cc

pub length-strip_resource : (raw : List ℕ) → length (strip_resource raw) ≤ length raw
length-strip_resource raw = go (bytes_eq (take 6 raw) resource_prefix)
  where
    go : (b : Bool) → length (if b then drop 6 raw else raw) ≤ length raw
    go true = omega (arith, length-drop 6 raw)
    go false = omega arith

-- A name that `sanitize_path` returns is not empty, is relative, has no NUL, backslash or colon and no
-- component `..`, and is no longer than the stored name.
pub sanitize_path-IsSafe :
    (raw : List ℕ)
    → Ensures (λ (name : List ℕ). IsSafe name × (length name ≤ length raw)) (sanitize_path raw)
unfolding sanitize_path
sanitize_path-IsSafe raw =
    let name : List ℕ = strip_resource raw in
    Ensures-guard (has_byte 0 raw) _ _ λ nul. Ensures-guard (is_empty name) _ _ λ some.
      Ensures-guard (is_absolute name) _ _ λ relative.
        Ensures-guard (has_unsafe_byte name) _ _ λ plain.
          Ensures-guard (escapes false [] name) _ _ λ inside. Ensures-ok (
            record {
              present = λ e. is_empty-present name some e;
              relative = relative;
              terminated = strip_resource-All (λ b. b ≢ 0) raw (has_byte-All 0 raw nul);
              plain = has_unsafe_byte-All name plain;
              descends = (escapes-components false [] name inside).1;
            },
            length-strip_resource raw,
          )
