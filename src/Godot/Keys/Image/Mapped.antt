-- ===== src/Godot/Keys/Image/Mapped.antt =====
-- src/core/godot/key_recovery.cpp: which section `mapped` finds.
use observer_modules.Prelude.{
  ℕ, ◌≤◌, ◌≡◌, refl, sym, subst, ap, Bool, true, false, List, [], ◌∷◌, Option, some, inl, inr, All,
  All-widen, Pairwise, Exists, arith,
}
use observer_modules.Godot.Keys.State.{KeyRecoveryLimits, Recovery, done}
use observer_modules.Godot.Keys.Image.{Section, Image, holds_range, mapped, parse}
use observer_modules.Godot.Keys.Image.Inside.{Holds, Apart, IsSection, IsPlaced}
use observer_modules.Godot.Keys.Image.Parsed.{parse-IsPlaced}

abbrev pub IsIn : Section → List Section → Type 0
IsIn entry sections = Exists (λ x. x ≡ entry) sections

All-IsIn :
    (P : Section → Type 0) (sections : List Section) (entry : Section)
    → All P sections
    → IsIn entry sections
    → P entry
All-IsIn P [] entry h i = absurd i
All-IsIn P (x ∷ sections) entry h (inl e) = subst P e h.0
All-IsIn P (x ∷ sections) entry h (inr i) = All-IsIn P sections entry h.1 i

-- A section that holds a range which is not empty holds its address.
holds_range-Holds :
    (entry : Section) (address count : ℕ) (code backed : Bool)
    → entry.raw_size ≤ entry.virtual_size
    → 1 ≤ count
    → holds_range entry address count code backed ≡ true
    → Holds entry address
unfolding holds_range
holds_range-Holds entry address count code backed covers some_bytes h = ground arith

-- A round of the loop.
mapped_round :
    (b : Bool) (x entry : Section) (later : Option Section)
    → (b ≡ true → x ≡ entry)
    → (b ≡ false → later ≡ some entry)
    → (elim b [ true ↦ some x | false ↦ later ]) ≡ some entry
mapped_round true x entry later h k = ap some (h refl)
mapped_round false x entry later h k = k refl

mapped_only :
    (sections : List Section) (address count : ℕ) (code backed : Bool) (entry : Section)
    → All (λ x. x.raw_size ≤ x.virtual_size) sections
    → Pairwise Apart sections
    → 1 ≤ count
    → IsIn entry sections
    → holds_range entry address count code backed ≡ true
    → mapped sections address count code backed ≡ some entry
unfolding mapped
mapped_only [] address count code backed entry c p n i h = absurd i
mapped_only (x ∷ rest) address count code backed entry c p n (inl e) h =
    mapped_round (holds_range x address count code backed) x entry _ (λ k. e)
      λ k.
        let yes_here : holds_range x address count code backed ≡ true =
          subst (λ y. holds_range y address count code backed ≡ true) (sym e) h in
        cc
mapped_only (x ∷ rest) address count code backed entry c p n (inr i) h =
    mapped_round (holds_range x address count code backed) x entry _
      (λ k. absurd (
        All-IsIn (Apart x) rest entry p.0 i address
          (holds_range-Holds x address count code backed c.0 n k)
          (holds_range-Holds entry address count code backed
            (All-IsIn (λ y. y.raw_size ≤ y.virtual_size) rest entry c.1 i) n h)))
      λ k. mapped_only rest address count code backed entry c.1 p.1 n i h

-- In an image that `parse` returned, a section of the table that holds a range which is not empty is
-- the one that `mapped` returns for it, in whatever order the sections stand.
pub mapped-parse :
    (limits : KeyRecoveryLimits) (s t : Recovery) (image : Image) (address count : ℕ)
    (code backed : Bool) (entry : Section)
    → parse limits s ≡ done (some image) t
    → 1 ≤ count
    → IsIn entry image.sections
    → holds_range entry address count code backed ≡ true
    → mapped image.sections address count code backed ≡ some entry
mapped-parse limits s t image address count code backed entry e n i h =
    let placed : IsPlaced s.stream image.sections = parse-IsPlaced limits s t image e in
    mapped_only image.sections address count code backed entry
      (All-widen (IsSection s.stream) (λ x. x.raw_size ≤ x.virtual_size) image.sections
        (λ x k. k.covers) placed.each)
      placed.apart n i h
