-- ===== src/Godot/Remap/Path/Normal.antt =====
-- src/core/godot/import_remap.cpp: the paths that `normalize_path` returns.
use observer_modules.Prelude.{
  ℕ, ◌≤◌, ◌==◌, ◌≡◌, ◌≢◌, ◌⊎◌, inl, inr, refl, Bool, true, false, ◌||◌, List, [], ◌∷◌, ◌++◌, Option,
  none, some, if◌then◌else◌, ltb, ltb-false, length, All, All-append, bytes_eq, bytes_eq_refl,
  ||-eq-false, arith,
}
use observer_modules.Extractor.{max_path_bytes}
use observer_modules.Godot.Pck.Path.Safe.{length-strip_resource}
use observer_modules.Godot.Pck.Path.{is_empty, parent, strip_resource}
use observer_modules.Godot.Remap.Path.Keeps.{Keeps, Keeps-at, Keeps-both, normalize_value-Keeps}
use observer_modules.Godot.Remap.Path.Length.{IsWithin, walk-IsWithin}
use observer_modules.Godot.Remap.Path.{
  here, is_separator, has_forbidden, join_segment, flush, walk, normalize_value, normalize_path,
}

-- A byte of a path's component.
abbrev pub IsPlain : ℕ → Type 0
IsPlain c = (32 ≤ c) × (c ≢ b':') × (is_separator c ≡ false)

pub record IsSegment (segment : List ℕ) : Type 0 where
  pub present : segment ≢ []
  pub moves : segment ≢ here
  pub descends : segment ≢ parent
  pub plain : All IsPlain segment

-- A path below the archive's root: components with a slash between each two.
pub data IsNormal : List ℕ → Type 0 where
  top : {segment : List ℕ} → IsSegment segment → IsNormal segment
  below :
      {path segment : List ℕ}
      → IsNormal path
      → IsSegment segment
      → IsNormal (path ++ (b'/' ∷ segment))

abbrev IsPrefix : List ℕ → Type 0
IsPrefix path = (path ≡ []) ⊎ IsNormal path

is_empty-[] : (xs : List ℕ) → is_empty xs ≡ true → xs ≡ []
is_empty-[] [] h = refl
is_empty-[] (x ∷ xs) h = cc

is_empty-present : (xs : List ℕ) → is_empty xs ≡ false → xs ≢ []
is_empty-present [] h e = cc
is_empty-present (x ∷ xs) h e = cc

bytes_eq-differ : (xs ys : List ℕ) → bytes_eq xs ys ≡ false → xs ≢ ys
bytes_eq-differ xs ys h e = ground (arith, bytes_eq_refl xs)

add_segment :
    (normalized segment : List ℕ)
    → IsPrefix normalized
    → IsSegment segment
    → IsPrefix (if is_empty normalized then segment else normalized ++ (b'/' ∷ segment))
add_segment normalized segment (inl e) h = rw e (inr (top h))
add_segment [] segment (inr n) h = inr (top h)
add_segment (c ∷ rest) segment (inr n) h = inr (below n h)

join_segment-IsPrefix :
    (normalized segment : List ℕ)
    → IsPrefix normalized
    → All IsPlain segment
    → bytes_eq segment parent ≡ false
    → IsPrefix (join_segment normalized segment)
join_segment-IsPrefix normalized segment before plain inside =
    go (is_empty segment || bytes_eq segment here) refl
  where
    go :
        (b : Bool)
        → (is_empty segment || bytes_eq segment here) ≡ b
        → IsPrefix (
            if b
            then normalized
            else if is_empty normalized
            then segment
            else normalized ++ (b'/' ∷ segment))
    go true e = before
    go false e =
        let (some_byte, moves) = ||-eq-false (is_empty segment) (bytes_eq segment here) e in
        add_segment normalized segment before (record {
          present = is_empty-present segment some_byte;
          moves = bytes_eq-differ segment here moves;
          descends = bytes_eq-differ segment parent inside;
          plain = plain;
        })

flush-Keeps :
    (normalized segment : List ℕ)
    → IsPrefix normalized
    → All IsPlain segment
    → Keeps IsPrefix (flush normalized segment)
unfolding flush
flush-Keeps normalized segment before plain = go (bytes_eq segment parent) refl
  where
    go :
        (b : Bool)
        → bytes_eq segment parent ≡ b
        → Keeps IsPrefix (if b then none else some (join_segment normalized segment))
    go true e = tt
    go false e = join_segment-IsPrefix normalized segment before plain e

walk-Keeps :
    (normalized segment value : List ℕ)
    → IsPrefix normalized
    → All IsPlain segment
    → has_forbidden value ≡ false
    → Keeps IsPrefix (walk normalized segment value)
unfolding walk has_forbidden
walk-Keeps normalized segment [] before plain clean = flush-Keeps normalized segment before plain
walk-Keeps normalized segment (c ∷ rest) before plain clean =
    let (here, later) = ||-eq-false (ltb c 32 || c == b':') (has_forbidden rest) clean in
    let (low, colon) = ||-eq-false (ltb c 32) (c == b':') here in
    go (is_separator c) refl (λ joined h. walk-Keeps joined [] rest h tt later)
      λ e.
        walk-Keeps normalized (segment ++ (c ∷ [])) rest before
          (All-append IsPlain segment (c ∷ []) plain
            ((ltb-false c 32 low, (λ same. ground arith), e), tt))
          later
  where
    next :
        (o : Option (List ℕ))
        → Keeps IsPrefix o
        → ((joined : List ℕ) → IsPrefix joined → Keeps IsPrefix (walk joined [] rest))
        → Keeps IsPrefix (elim o [ none ↦ none | some joined ↦ walk joined [] rest ])
    next none h k = tt
    next (some joined) h k = k joined h

    go :
        (b : Bool)
        → is_separator c ≡ b
        → ((joined : List ℕ) → IsPrefix joined → Keeps IsPrefix (walk joined [] rest))
        → (is_separator c ≡ false → Keeps IsPrefix (walk normalized (segment ++ (c ∷ [])) rest))
        → Keeps IsPrefix (elim b [
          | true ↦ elim (flush normalized segment) [
            | none ↦ none
            | some joined ↦ walk joined [] rest
          ]
          | false ↦ walk normalized (segment ++ (c ∷ [])) rest
        ])
    go true e split stay =
        next (flush normalized segment) (flush-Keeps normalized segment before plain) split
    go false e split stay = stay e

-- A path that `normalize_path` returns has a component or more, separated by slashes, none of them
-- empty, `.` or `..`, without control characters, colons and backslashes, and no more than
-- `max_path_bytes` bytes.
pub normalize_path-IsNormal :
    (raw : List ℕ) {path : List ℕ}
    → normalize_path raw ≡ some path
    → IsNormal path × (length path ≤ max_path_bytes)
unfolding normalize_path
normalize_path-IsNormal raw =
    Keeps-at Both (normalize_path raw) (go (ltb max_path_bytes (length raw)) refl)
  where
    Both : List ℕ → Type 0
    Both path = IsNormal path × (length path ≤ max_path_bytes)

    nonempty : (path : List ℕ) → IsPrefix path → path ≢ [] → IsNormal path
    nonempty path (inl e) h = absurd (h e)
    nonempty path (inr n) h = n

    go :
        (b : Bool)
        → ltb max_path_bytes (length raw) ≡ b
        → Keeps Both (if b then none else normalize_value (strip_resource raw))
    go true e = tt
    go false e =
        normalize_value-Keeps (λ path. IsPrefix path × IsWithin max_path_bytes path) Both
          (strip_resource raw) (λ path h some_byte. (nonempty path h.0 some_byte, h.1))
          λ clean.
            Keeps-both IsPrefix (IsWithin max_path_bytes) _
              (walk-Keeps [] [] (strip_resource raw) (inl refl) tt clean)
              (walk-IsWithin [] [] (strip_resource raw) max_path_bytes
                (omega (arith, length-strip_resource raw, ltb-false max_path_bytes (length raw) e)))
