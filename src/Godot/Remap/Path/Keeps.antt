-- ===== src/Godot/Remap/Path/Keeps.antt =====
-- src/core/godot/import_remap.cpp: what `normalize_path` keeps from its loop.
use observer_modules.Prelude.{
  ℕ, ◌≡◌, ◌≢◌, refl, subst, Bool, true, false, List, [], ◌∷◌, Option, none, some, if◌then◌else◌,
}
use observer_modules.Godot.Remap.Path.{
  starts_with_separator, has_forbidden, walk, if_present, normalize_value,
}

-- What is known of a path, where there is one.
abbrev pub Keeps : (List ℕ → Type 0) → Option (List ℕ) → Type 0
Keeps P none = Unit
Keeps P (some path) = P path

pub Keeps-at :
    (P : List ℕ → Type 0) (o : Option (List ℕ)) {path : List ℕ} → Keeps P o → o ≡ some path → P path
Keeps-at P none h e = cc
Keeps-at P (some path) h e = subst (Keeps P) e h

pub normalize_value-Keeps :
    (P Q : List ℕ → Type 0) (value : List ℕ)
    → ((path : List ℕ) → P path → path ≢ [] → Q path)
    → (has_forbidden value ≡ false → Keeps P (walk [] [] value))
    → Keeps Q (normalize_value value)
normalize_value-Keeps P Q value widen h =
    go (starts_with_separator value) (has_forbidden value) refl
  where
    nonempty :
        (o : Option (List ℕ))
        → Keeps P o
        → Keeps Q (elim o [ none ↦ none | some normalized ↦ if_present normalized ])
    nonempty none k = tt
    nonempty (some []) k = tt
    nonempty (some (c ∷ rest)) k = widen (c ∷ rest) k (λ e. cc)

    go :
        (absolute forbidden : Bool)
        → has_forbidden value ≡ forbidden
        → Keeps Q (
            if absolute
            then none
            else if forbidden
            then none
            else elim (walk [] [] value) [ none ↦ none | some normalized ↦ if_present normalized ])
    go true forbidden e = tt
    go false true e = tt
    go false false e = nonempty (walk [] [] value) (h e)

pub Keeps-both :
    (P Q : List ℕ → Type 0) (o : Option (List ℕ))
    → Keeps P o
    → Keeps Q o
    → Keeps (λ path. P path × Q path) o
Keeps-both P Q none h k = tt
Keeps-both P Q (some path) h k = (h, k)
