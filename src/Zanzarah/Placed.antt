-- ===== src/Zanzarah/Placed.antt =====
-- src/modules/zanzarah/zanzarah.cpp: entries behind the directory, and the trim of their markers.
use observer_modules.Prelude.{
  ℕ, suc, ◌+◌, ◌≤◌, ◌≡◌, refl, ap, ||-eq-false, ltb-false, Bool, true, false, ◌||◌, List, [], ◌∷◌,
  arith, length, All,
}
use observer_modules.Prelude.Int.{ℤ, pos, ◌+ℤ◌, ◌-ℤ◌, ◌≤ℤ◌, lt_ℤ, int_laws, +ℤ_parts, -ℤ_parts}
use observer_modules.Failure.{Result, ok, throw}
use observer_modules.Failure.Ensures.{Ensures, Ensures-ok, Ensures-throw, Ensures-if}
use observer_modules.Stream.{BoundedStream, pure}
use observer_modules.Stream.Ensures.{Ensures-then, Ensures-choose}
use observer_modules.Extractor.{File, IsWithin}
use observer_modules.Zanzarah.{
  place, place_all, strip_prefix, has_canonical_framing, all_framed, trim_suffix, trim_all,
  framing_marker_size,
}
use observer_modules.Zanzarah.Directory.{IsRaw, names_of}

-- The second loop makes the offset absolute, after the bound on the extent.
-- Each entry is shown under its stored name without the prefix `..\`.
abbrev pub AreNamed : List (List ℕ) → List File → Type 0
AreNamed [] [] = Unit
AreNamed [] (f ∷ fs) = ⊥
AreNamed (name ∷ names) [] = ⊥
AreNamed (name ∷ names) (f ∷ fs) = (f.path ≡ strip_prefix name) × AreNamed names fs

abbrev pub IsPlacedAs : ℕ → ℕ → File → File → Type 0
IsPlacedAs low high f g = IsWithin (low + 4) high g × (g.path ≡ strip_prefix f.path)

pub place-IsPlacedAs :
    (low high : ℕ) (f : File)
    → low ≤ high
    → IsRaw f
    → Ensures (IsPlacedAs low high f) (place low (pos high -ℤ pos low) f)
unfolding place
place-IsPlacedAs low high f h raw =
    Ensures-if (lt_ℤ body f.offset || lt_ℤ (body -ℤ f.offset) f.compressed_body_size_in_bytes)
      (λ e. Ensures-throw _)
      λ e.
        let (starts, ends) =
          ||-eq-false (lt_ℤ body f.offset) (lt_ℤ (body -ℤ f.offset) f.compressed_body_size_in_bytes)
            e in
        Ensures-ok (
          record {
            begins = omega (int_laws, +ℤ_parts f.offset (pos low), raw.begins);
            sized = raw.sized;
            ends = omega (
              int_laws,
              +ℤ_parts (f.offset +ℤ pos low) f.compressed_body_size_in_bytes,
              +ℤ_parts f.offset (pos low),
              -ℤ_parts body f.offset,
              -ℤ_parts (pos high) (pos low),
              ltb-false _ _ starts,
              ltb-false _ _ ends,
            );
            stored = raw.stored;
          },
          refl,
        )
  where
    body : ℤ
    body = pos high -ℤ pos low

pub place_all-IsWithin :
    (low high : ℕ) (fs : List File)
    → low ≤ high
    → All IsRaw fs
    → Ensures
        (λ (gs : List File).
          All (IsWithin (low + 4) high) gs × (length gs ≡ length fs) × AreNamed (names_of fs) gs)
        (place_all low (pos high -ℤ pos low) fs)
unfolding place_all
place_all-IsWithin low high [] h raw = Ensures-ok (tt, refl, tt)
place_all-IsWithin low high (f ∷ fs) h raw =
    go (place low (pos high -ℤ pos low) f) (place-IsPlacedAs low high f h raw.0)
      (place_all low (pos high -ℤ pos low) fs) (place_all-IsWithin low high fs h raw.1)
  where
    go :
        (r : Result File)
        → Ensures (IsPlacedAs low high f) r
        → (rs : Result (List File))
        → Ensures
            (λ (gs : List File).
              All (IsWithin (low + 4) high) gs
              × (length gs ≡ length fs)
              × AreNamed (names_of fs) gs)
            rs
        → Ensures
            (λ (gs : List File).
              All (IsWithin (low + 4) high) gs
              × (length gs ≡ suc (length fs))
              × AreNamed (names_of (f ∷ fs)) gs)
            (elim r [
              | throw e ↦ throw e
              | ok placed ↦ elim rs [ throw e ↦ throw e | ok rest ↦ ok (placed ∷ rest) ]
            ])
    go (throw e) k rs l = Ensures-throw e
    go (ok g) k (throw e) l = Ensures-throw e
    go (ok g) k (ok gs) l =
        let (within, count, named) = l.at gs refl in
        let (placed, path) = k.at g refl in
        Ensures-ok ((placed, within), omega (arith, count), (path, named))

-- An entry that carries both markers has room for the one that is cut off.
abbrev pub HasRoom : File → Type 0
HasRoom f = pos 4 ≤ℤ f.compressed_body_size_in_bytes

pub has_canonical_framing-Ensures :
    (f : File) (s : BoundedStream)
    → Ensures (λ (r : Bool × BoundedStream). r.0 ≡ true → HasRoom f) (has_canonical_framing f s)
unfolding has_canonical_framing
has_canonical_framing-Ensures f s =
    Ensures-choose (lt_ℤ f.compressed_body_size_in_bytes framing_marker_size) (pure false) _ s
      (λ small. Ensures-ok {a = (false, s)} (λ e. cc))
      λ large. record { at = λ r e t. ltb-false _ _ large }

pub all_framed-Ensures :
    (fs : List File) (s : BoundedStream)
    → Ensures (λ (r : Bool × BoundedStream). r.0 ≡ true → All HasRoom fs) (all_framed fs s)
unfolding all_framed
all_framed-Ensures [] s = Ensures-ok {a = (true, s)} (λ e. tt)
all_framed-Ensures (f ∷ fs) s =
    Ensures-then (has_canonical_framing f) _ s (has_canonical_framing-Ensures f s) λ framed t h.
      Ensures-choose framed (all_framed fs) (pure false) t
        (λ e. record { at = λ r k b. (h e, (all_framed-Ensures fs t).at r k b) })
        λ e. Ensures-ok {a = (false, t)} (λ b. cc)

pub trim_all-IsWithin :
    (low high : ℕ) (fs : List File)
    → All (IsWithin low high) fs
    → All HasRoom fs
    → All (IsWithin low high) (trim_all fs) × (length (trim_all fs) ≡ length fs)
unfolding trim_all trim_suffix
trim_all-IsWithin low high [] h room = (tt, refl)
trim_all-IsWithin low high (f ∷ fs) h room =
    let (rest, count) = trim_all-IsWithin low high fs h.1 room.1 in
    ((trimmed h.0 room.0, rest), omega (arith, count))
  where
    size : ℤ
    size = f.compressed_body_size_in_bytes

    trimmed : IsWithin low high f → HasRoom f → IsWithin low high (trim_suffix f)
    trimmed w r = record {
      begins = w.begins;
      sized = omega (arith, -ℤ_parts size (pos 4));
      ends = omega (
        arith,
        -ℤ_parts size (pos 4),
        +ℤ_parts f.offset (size -ℤ pos 4),
        +ℤ_parts f.offset size,
        w.ends,
      );
      stored = ap (λ (z : ℤ). z -ℤ pos 4) w.stored;
    }

pub trim_all-AreNamed :
    (names : List (List ℕ)) (fs : List File) → AreNamed names fs → AreNamed names (trim_all fs)
unfolding trim_all trim_suffix
trim_all-AreNamed [] [] h = tt
trim_all-AreNamed [] (f ∷ fs) h = h
trim_all-AreNamed (name ∷ names) [] h = h
trim_all-AreNamed (name ∷ names) (f ∷ fs) h = (h.0, trim_all-AreNamed names fs h.1)
