-- ===== src/Godot/Remap/Path/Stable.antt =====
-- src/core/godot/import_remap.cpp: `normalize_path` of a path that it returned.
use observer_modules.Prelude.{
  ℕ, ◌≡◌, ◌≢◌, refl, sym, ap, ◌∙◌, false, List, [], ◌∷◌, ◌++◌, append_assoc, append-nil, some,
  if◌then◌else◌, le→ltb, length, All, bytes_eq, bytes_eq→eq, arith,
}
use observer_modules.Extractor.{max_path_bytes}
use observer_modules.Godot.Pck.Path.{is_empty, parent, strip_resource}
use observer_modules.Godot.Remap.Path.{
  here, starts_with_separator, has_forbidden, flush, walk, if_present, normalize_path,
}
use observer_modules.Godot.Remap.Path.Normal.{
  IsPlain, IsSegment, IsNormal, top, below, normalize_path-IsNormal,
}

walk_plain :
    (normalized segment more rest : List ℕ)
    → All IsPlain more
    → walk normalized segment (more ++ rest) ≡ walk normalized (segment ++ more) rest
unfolding walk
walk_plain normalized segment [] rest h = rw append-nil
walk_plain normalized segment (c ∷ more) rest h =
    rw (h.0.2, walk)
      (walk_plain normalized (segment ++ (c ∷ [])) more rest h.1
        ∙ ap (λ behind. walk normalized behind rest) (append_assoc segment (c ∷ []) more))

eq_false : (xs ys : List ℕ) → xs ≢ ys → bytes_eq xs ys ≡ false
eq_false xs ys h = ground (arith, bytes_eq→eq xs ys)

is_empty-false : (xs : List ℕ) → xs ≢ [] → is_empty xs ≡ false
is_empty-false [] h = absurd (h refl)
is_empty-false (x ∷ xs) h = refl

flush-IsSegment :
    (normalized segment : List ℕ)
    → IsSegment segment
    → flush normalized segment
      ≡ some (if is_empty normalized then segment else normalized ++ (b'/' ∷ segment))
unfolding flush
flush-IsSegment normalized segment h = ground (
  arith,
  eq_false segment parent h.descends,
  eq_false segment here h.moves,
  is_empty-false segment h.present,
)

-- The loop has `path` in `normalized` when it is through with it, and with a slash behind it.
record IsStable (path : List ℕ) : Type 0 where
  present : path ≢ []
  again : (rest : List ℕ) → walk [] [] (path ++ (b'/' ∷ rest)) ≡ walk path [] rest
  whole : walk [] [] path ≡ some path
  plain : has_forbidden path ≡ false

has_forbidden-append :
    (xs ys : List ℕ)
    → has_forbidden xs ≡ false
    → has_forbidden ys ≡ false
    → has_forbidden (xs ++ ys) ≡ false
unfolding has_forbidden
has_forbidden-append [] ys h k = k
has_forbidden-append (x ∷ xs) ys h k = ground (arith, has_forbidden-append xs ys)

has_forbidden-plain : (xs : List ℕ) → All IsPlain xs → has_forbidden xs ≡ false
unfolding has_forbidden
has_forbidden-plain [] h = refl
has_forbidden-plain (x ∷ xs) h = ground (arith, has_forbidden-plain xs h.1)

has_forbidden-slash : (xs : List ℕ) → All IsPlain xs → has_forbidden (b'/' ∷ xs) ≡ false
unfolding has_forbidden
has_forbidden-slash xs h = has_forbidden-plain xs h

append-present : (xs ys : List ℕ) → xs ≢ [] → xs ++ ys ≢ []
append-present [] ys h e = absurd (h refl)
append-present (x ∷ xs) ys h e = cc

-- A component, and what stands behind the slash after it.
walk_segment :
    (normalized segment rest : List ℕ)
    → IsSegment segment
    → walk normalized [] (segment ++ (b'/' ∷ rest))
      ≡ walk (if is_empty normalized then segment else normalized ++ (b'/' ∷ segment)) [] rest
unfolding walk
walk_segment normalized segment rest h =
    walk_plain normalized [] segment (b'/' ∷ rest) h.plain
    ∙ (rw (flush-IsSegment normalized segment h, walk))

walk_last :
    (normalized segment : List ℕ)
    → IsSegment segment
    → walk normalized [] segment
      ≡ some (if is_empty normalized then segment else normalized ++ (b'/' ∷ segment))
unfolding walk
walk_last normalized segment h =
    ap (walk normalized []) (sym (append-nil segment))
    ∙ walk_plain normalized [] segment [] h.plain
    ∙ flush-IsSegment normalized segment h

IsNormal-IsStable : {path : List ℕ} → IsNormal path → IsStable path
IsNormal-IsStable (top {segment} h) = record {
  present = h.present;
  again = λ rest. walk_segment [] segment rest h;
  whole = walk_last [] segment h;
  plain = has_forbidden-plain segment h.plain;
}
IsNormal-IsStable (below {path} {segment} n h) =
    let before : IsStable path = IsNormal-IsStable n in
    let apart : is_empty path ≡ false = is_empty-false path before.present in
    record {
      present = append-present path (b'/' ∷ segment) before.present;
      again = λ rest.
          ap (walk [] []) (append_assoc path (b'/' ∷ segment) (b'/' ∷ rest))
          ∙ before.again (segment ++ (b'/' ∷ rest))
          ∙ walk_segment path segment rest h
          ∙ (rw apart);
      whole = before.again segment ∙ walk_last path segment h ∙ (rw apart);
      plain =
          has_forbidden-append path (b'/' ∷ segment) before.plain
            (has_forbidden-slash segment h.plain);
    }

segment_first : (segment : List ℕ) → All IsPlain segment → starts_with_separator segment ≡ false
segment_first [] h = refl
segment_first (c ∷ rest) h = h.0.2

append_first :
    (xs ys : List ℕ)
    → xs ≢ []
    → starts_with_separator xs ≡ false
    → starts_with_separator (xs ++ ys) ≡ false
append_first [] ys h k = absurd (h refl)
append_first (x ∷ xs) ys h k = k

if_present-present : (path : List ℕ) → path ≢ [] → if_present path ≡ some path
if_present-present [] h = absurd (h refl)
if_present-present (c ∷ rest) h = refl

first_plain : {path : List ℕ} → IsNormal path → starts_with_separator path ≡ false
first_plain (top {segment} h) = segment_first segment h.plain
first_plain (below {path} {segment} n h) =
    append_first path (b'/' ∷ segment) (IsNormal-IsStable n).present (first_plain n)

unprefixed : (path : List ℕ) → has_forbidden path ≡ false → strip_resource path ≡ path
unfolding has_forbidden bytes_eq
unprefixed [] h = refl
unprefixed (a ∷ []) h = ground arith
unprefixed (a ∷ b ∷ []) h = ground arith
unprefixed (a ∷ b ∷ c ∷ []) h = ground arith
unprefixed (a ∷ b ∷ c ∷ d ∷ rest) h = ground arith

-- What `normalize_path` returns it returns unchanged when it is normalised again.
pub normalize_path_idempotent :
    (raw : List ℕ) {path : List ℕ}
    → normalize_path raw ≡ some path
    → normalize_path path ≡ some path
unfolding normalize_path
normalize_path_idempotent raw {path} h =
    let (normal, short) = normalize_path-IsNormal raw h in
    let stable : IsStable path = IsNormal-IsStable normal in
    rw
      (
        le→ltb max_path_bytes (length path) short,
        unprefixed path stable.plain,
        first_plain normal,
        stable.plain,
        stable.whole,
      )
      (if_present-present path stable.present)
