-- ===== src/Godot/Remap/Path/Length.antt =====
-- src/core/godot/import_remap.cpp: the length of the paths that `normalize_path` returns.
use observer_modules.Prelude.{
  ℕ, ◌≤◌, ◌+◌, Bool, true, false, List, [], ◌∷◌, ◌++◌, Option, none, some, length, length-append,
  arith,
}
use observer_modules.Godot.Remap.Path.{is_separator, join_segment, flush, walk}
use observer_modules.Godot.Remap.Path.Keeps.{Keeps}

-- How much of the path that `walk` returns stands in `normalized`, with the slash that follows.
abbrev weight : List ℕ → ℕ
weight [] = 0
weight (c ∷ rest) = length (c ∷ rest) + 1

abbrev pub IsWithin : ℕ → List ℕ → Type 0
IsWithin bound path = length path ≤ bound

join_segment-weight :
    (normalized segment : List ℕ) (bound : ℕ)
    → weight normalized + length segment ≤ bound
    → (length (join_segment normalized segment) ≤ bound)
      × (weight (join_segment normalized segment) ≤ bound + 1)
join_segment-weight [] [] bound h = ground arith
join_segment-weight [] (d ∷ segment) bound h = ground arith
join_segment-weight (c ∷ rest) segment bound h = ground (arith, length-append rest (b'/' ∷ segment))

flush-weight :
    (normalized segment : List ℕ) (bound : ℕ)
    → weight normalized + length segment ≤ bound
    → Keeps (λ path. (length path ≤ bound) × (weight path ≤ bound + 1)) (flush normalized segment)
unfolding flush
flush-weight normalized segment bound h =
    ground (arith, join_segment-weight normalized segment bound h)

pub walk-IsWithin :
    (normalized segment value : List ℕ) (bound : ℕ)
    → weight normalized + length segment + length value ≤ bound
    → Keeps (IsWithin bound) (walk normalized segment value)
unfolding walk flush
walk-IsWithin normalized segment [] bound h =
    go (flush normalized segment) (flush-weight normalized segment bound (omega arith))
  where
    go :
        (o : Option (List ℕ))
        → Keeps (λ path. (length path ≤ bound) × (weight path ≤ bound + 1)) o
        → Keeps (IsWithin bound) o
    go none k = tt
    go (some path) k = k.0
walk-IsWithin normalized segment (c ∷ rest) bound h =
    go (is_separator c) _ _
      (next _ (flush normalized segment)
        (flush-weight normalized segment (weight normalized + length segment) (omega arith))
        λ joined k. walk-IsWithin joined [] rest bound (omega (arith, k)))
      (walk-IsWithin normalized (segment ++ (c ∷ [])) rest bound
        (omega (arith, h, length-append segment (c ∷ []))))
  where
    go :
        (b : Bool) (o r : Option (List ℕ))
        → Keeps (IsWithin bound) o
        → Keeps (IsWithin bound) r
        → Keeps (IsWithin bound) (elim b [ true ↦ o | false ↦ r ])
    go true o r k l = k
    go false o r k l = l

    next :
        (Q : List ℕ → Type 0) (o : Option (List ℕ))
        → Keeps Q o
        → ((joined : List ℕ) → Q joined → Keeps (IsWithin bound) (walk joined [] rest))
        → Keeps (IsWithin bound) (elim o [ none ↦ none | some joined ↦ walk joined [] rest ])
    next Q none k l = tt
    next Q (some joined) k l = l joined k
