-- ===== src/Godot/Keys/Image/Parsed.antt =====
-- src/core/godot/key_recovery.cpp: the sections of the image that `parse` gives.
use observer_modules.Prelude.{
  ℕ, zero, suc, ◌+◌, ◌*◌, ◌≡◌, subst, ◌==◌, Bool, false, not, List, [], ◌∷◌, ◌++◌, Option, none,
  some, ltb, take, drop, All, Pairwise-append, All-append, arith,
}
use observer_modules.Stream.{BoundedStream}
use observer_modules.Stream.Reads.{Later-refl}
use observer_modules.Failure.{key_recovery_error}
use observer_modules.Godot.Keys.State.{KeyRecoveryLimits, Recovery, done}
use observer_modules.Godot.Keys.State.Keeps.{
  Ended, Leaves-pure, Leaves-bind, Leaves-reject, Leaves-choose,
}
use observer_modules.Godot.Keys.Image.{
  Section, Image, image_size, parse_section, sections_loop, parse_optional, parse_pe, parse_dos,
  parse, integer, parse_row, image_base, overflows, is_outside, overlaps_any, with_code,
  is_inconsistent, is_unsupported,
}
use observer_modules.Godot.Keys.Image.Inside.{
  Apart, IsSection, IsPlaced, IsOf, IsSlice, Gives, IsCode, Gives-image_size, Gives-read,
  Gives-read_code, overlaps_any-Apart,
}

module _ (file : BoundedStream) where
  module _ (limits : KeyRecoveryLimits) where
    abbrev Fits : List Section → Section → Type 0
    Fits sections entry = IsSection file entry × All (λ previous. Apart previous entry) sections

    Gives-parse_section :
        (base : ℕ) (sections : List Section) (row : List ℕ)
        → Gives file (Fits sections) (parse_section limits base sections row)
    unfolding parse_section
    Gives-parse_section base sections row =
        let entry : Section = parse_row base row in
        let Q : Section → Type 0 = Fits sections in
        Leaves-bind (IsOf file) (λ u. overflows base row ≡ false) Q _ _
          (Leaves-reject (IsOf file) (overflows base row) _)
          λ u a.
            Leaves-bind (IsOf file) (λ size. size ≡ file.size) Q image_size _
              (Gives-image_size file)
              λ size e.
                Leaves-bind (IsOf file) (λ u. is_outside size entry ≡ false) Q _ _
                  (Leaves-reject (IsOf file) (is_outside size entry)
                    (key_recovery_error "PE section outside source"))
                  λ v b.
                    Leaves-bind (IsOf file) (λ u. overlaps_any entry sections ≡ false) Q _ _
                      (Leaves-reject (IsOf file) (overlaps_any entry sections)
                        (key_recovery_error "overlapping PE virtual sections"))
                      λ w c.
                        Leaves-bind (IsOf file) (IsCode file limits entry) Q _ _
                          (Gives-read_code file limits entry)
                          λ code h. Leaves-pure (IsOf file) Q (with_code entry code) (
                            record { inside = ground arith; covers = ground arith; whole = h },
                            overlaps_any-Apart entry sections c,
                          )

    Gives-sections_loop :
        (base count : ℕ) (sections : List Section) (table : List ℕ)
        → IsPlaced file sections
        → Gives file (IsPlaced file) (sections_loop limits base count sections table)
    unfolding sections_loop
    Gives-sections_loop base zero sections table h =
        Leaves-pure (IsOf file) (IsPlaced file) sections h
    Gives-sections_loop base (suc count) sections table h =
        Leaves-bind (IsOf file) (Fits sections) (IsPlaced file) _ _
          (Gives-parse_section base sections (take 40 table))
          λ entry k.
            Gives-sections_loop base count (sections ++ (entry ∷ [])) (drop 40 table) (record {
              each = All-append (IsSection file) sections (entry ∷ []) h.each (k.0, tt);
              apart = Pairwise-append Apart sections entry h.apart k.1;
            })

    -- What `parse` gives: no image, or one whose sections are placed.
    abbrev pub IsImage : Option Image → Type 0
    IsImage none = Unit
    IsImage (some image) = IsPlaced file image.sections

    Gives-parse_optional :
        (optional_offset optional_size count : ℕ) (wide : Bool)
        → Gives file IsImage (parse_optional limits optional_offset optional_size count wide)
    unfolding parse_optional
    Gives-parse_optional optional_offset optional_size count wide =
        Leaves-bind (IsOf file) (IsSlice file optional_offset optional_size) IsImage _ _
          (Gives-read file limits optional_offset optional_size)
          λ optional a.
            Leaves-bind (IsOf file) (λ u. is_inconsistent optional wide ≡ false) IsImage _ _
              (Leaves-reject (IsOf file) (is_inconsistent optional wide) _)
              λ u b.
                Leaves-bind (IsOf file)
                  (IsSlice file (optional_offset + optional_size) (count * 40)) IsImage _ _
                  (Gives-read file limits (optional_offset + optional_size) (count * 40))
                  λ table c.
                    Leaves-bind (IsOf file) (IsPlaced file) IsImage _ _
                      (Gives-sections_loop (image_base optional wide) count [] table
                        (record { each = tt; apart = tt }))
                      λ sections d.
                        Leaves-pure (IsOf file) IsImage
                          (some (record {
                            sections = sections;
                            base = image_base optional wide;
                            wide = wide;
                          }))
                          d

    Gives-parse_pe : (offset : ℕ) → Gives file IsImage (parse_pe limits offset)
    unfolding parse_pe
    Gives-parse_pe offset =
        Leaves-bind (IsOf file) (IsSlice file offset 24) IsImage _ _
          (Gives-read file limits offset 24)
          λ pe a.
            Leaves-bind (IsOf file) (λ u. not (integer pe 0 4 == 0x4550) ≡ false) IsImage _ _
              (Leaves-reject (IsOf file) (not (integer pe 0 4 == 0x4550)) _)
              λ u b.
                Leaves-bind (IsOf file)
                  (λ u. is_unsupported (integer pe 4 2) (integer pe 6 2) (integer pe 20 2) ≡ false)
                  IsImage _ _
                  (Leaves-reject (IsOf file)
                    (is_unsupported (integer pe 4 2) (integer pe 6 2) (integer pe 20 2)) _)
                  λ v c.
                    Gives-parse_optional (offset + 24) (integer pe 20 2) (integer pe 6 2)
                      (integer pe 4 2 == 0x8664)

    Gives-parse : Gives file IsImage (parse limits)
    unfolding parse parse_dos
    Gives-parse =
        Leaves-bind (IsOf file) (λ size. size ≡ file.size) IsImage image_size _
          (Gives-image_size file)
          λ size a.
            Leaves-choose (IsOf file) IsImage (ltb size 64) _ _
              (λ b. Leaves-pure (IsOf file) IsImage none tt)
              (λ b.
                Leaves-bind (IsOf file) (IsSlice file 0 64) IsImage _ _
                  (Gives-read file limits 0 64)
                  λ dos c.
                    Leaves-choose (IsOf file) IsImage (integer dos 0 2 == 0x5a4d) _ _
                      (λ d. Gives-parse_pe (integer dos 0x3c 4))
                      (λ d. Leaves-pure (IsOf file) IsImage none tt))

-- Where `parse` returns an image, each section's range lies in the file and is not longer than the
-- section is in memory; the code of an executable section is the bytes that the file has in that
-- range; and no address belongs to two sections.
pub parse-IsPlaced :
    (limits : KeyRecoveryLimits) (s t : Recovery) (image : Image)
    → parse limits s ≡ done (some image) t
    → IsPlaced s.stream image.sections
parse-IsPlaced limits s t image e =
    (subst (λ o. Ended (IsOf s.stream) (IsImage s.stream limits) o) e
      ((Gives-parse s.stream limits).ends s (record { later = Later-refl s.stream }))).0
