-- ===== src/Godot/Pck/Locate/Inside.antt =====
-- src/core/godot/pck.cpp: what the search for a pack finds.
use mathlib.Core.Path.{subst}
use observer_modules.Prelude.{
  ℕ, ◌-◌, ◌≡◌, refl, not, ◌||◌, List, length, ltb, leb, ◌==◌, Option, none, some, arith, ltb-false,
  ||-eq-false,
}
use observer_modules.Failure.{Result, ok}
use observer_modules.Failure.Ensures.{Ensures, Ensures-ok}
use observer_modules.Stream.{BoundedStream, Istream, size}
use observer_modules.Stream.Ensures.{
  Ensures-then, Ensures-reject, Ensures-choose, with_stream-Ensures,
}
use observer_modules.Stream.Fixed.{Holds, seek-Holds, read_trivial-Holds}
use observer_modules.Godot.Types.{PackLocation}
use observer_modules.Godot.Pck.Reader.{pack_magic}
use observer_modules.Godot.Pck.Locate.{
  dos_signature, minimum_pe_header, pe_signature, locate_pe_section, locate_footer, or_footer,
  locate_inside, locate_pack_impl, truncation, locate_pack,
}
use observer_modules.Godot.Pck.Locate.Section.{
  IsPack, IsLocated, Found, missing, read_section_table-Found,
}

module _ (content : List ℕ) (n : ℕ) where
  locate_pe_section-Found :
      (s : BoundedStream) → Holds content n s → Ensures (Found content n) (locate_pe_section n s)
  unfolding locate_pe_section
  locate_pe_section-Found s h =
      Ensures-choose (ltb n 2) _ _ s (λ e. missing content n s h)
        λ e. seek-Holds 0 _ s h λ s₁ h₁ e₁ b₁. read_trivial-Holds 2 _ s₁ h₁ λ dos s₂ h₂ v₂ b₂ e₂.
          Ensures-choose (not (dos == dos_signature)) _ _ s₂ (λ e. missing content n s₂ h₂)
            λ e. Ensures-reject (ltb n minimum_pe_header) _ _ s₂ λ long.
              seek-Holds 0x3C _ s₂ h₂ λ s₃ h₃ e₃ b₃.
                read_trivial-Holds 4 _ s₃ h₃ λ pe_offset s₄ h₄ v₄ b₄ e₄.
                  Ensures-reject (ltb n pe_offset || ltb (n - pe_offset) 24) _ _ s₄ λ inside.
                    seek-Holds pe_offset _ s₄ h₄ λ s₅ h₅ e₅ b₅.
                      read_trivial-Holds 4 _ s₅ h₅ λ signature s₆ h₆ v₆ b₆ e₆.
                        Ensures-choose (not (signature == pe_signature)) _ _ s₆
                          (λ e. missing content n s₆ h₆)
                          λ e. read_section_table-Found content n pe_offset s₆ h₆

  locate_footer-Found :
      (s : BoundedStream) → Holds content n s → Ensures (Found content n) (locate_footer n s)
  unfolding locate_footer
  locate_footer-Found s h =
      Ensures-choose (ltb n 4) _ _ s (λ e. missing content n s h)
        λ e. seek-Holds (n - 4) _ s h λ s₁ h₁ e₁ b₁.
          read_trivial-Holds 4 _ s₁ h₁ λ magic s₂ h₂ v₂ b₂ e₂.
            Ensures-choose (not (magic == pack_magic)) _ _ s₂ (λ e. missing content n s₂ h₂)
              λ e. Ensures-reject (ltb n 12) _ _ s₂ λ long.
                seek-Holds (n - 12) _ s₂ h₂ λ s₃ h₃ e₃ b₃.
                  read_trivial-Holds 8 _ s₃ h₃ λ payload s₄ h₄ v₄ b₄ e₄.
                    Ensures-reject (ltb payload 4 || ltb (n - 12) payload) _ _ s₄ λ fits.
                      seek-Holds (n - 12 - payload) _ s₄ h₄ λ s₅ h₅ e₅ b₅.
                        read_trivial-Holds 4 _ s₅ h₅ λ header s₆ h₆ v₆ b₆ e₆.
                          Ensures-reject (not (header == pack_magic)) _ _ s₆ λ same.
                            let (large, small) =
                              ||-eq-false (ltb payload 4) (ltb (n - 12) payload) fits in
                            Ensures-ok (
                              record {
                                inside = omega (
                                  arith,
                                  ltb-false _ _ large,
                                  ltb-false _ _ small,
                                  ltb-false _ _ long,
                                );
                                header = ltb-false _ _ large;
                                magic = ground arith;
                              },
                              h₆,
                            )

  locate_inside-Found :
      (s : BoundedStream) → Holds content n s → Ensures (Found content n) (locate_inside n s)
  unfolding locate_inside or_footer
  locate_inside-Found s h =
      Ensures-then (locate_pe_section n) (or_footer n) s (locate_pe_section-Found s h)
        or_footer-Found
    where
      or_footer-Found :
          (found : Option PackLocation) (t : BoundedStream)
          → Found content n (found, t)
          → Ensures (Found content n) (or_footer n found t)
      or_footer-Found none t g = locate_footer-Found t g.1
      or_footer-Found (some place) t g = Ensures-ok g

locate_pack_impl-Found :
    (s : BoundedStream)
    → Ensures
        (λ (r : Option PackLocation × BoundedStream). IsLocated s.content s.size r.0)
        (locate_pack_impl s)
unfolding locate_pack_impl size
locate_pack_impl-Found s =
    Ensures-choose (leb 4 s.size) _ _ s
      (λ long. seek-Holds 0 _ s whole λ s₁ h₁ e₁ b₁.
        read_trivial-Holds 4 _ s₁ h₁ λ magic s₂ h₂ v₂ b₂ e₂.
          Ensures-choose (magic == pack_magic) _ _ s₂
            (λ same.
              Ensures-ok
                (record { inside = omega arith; header = ground arith; magic = ground arith }))
            λ other. inside s₂ h₂)
      λ short. inside s whole
  where
    whole : Holds s.content s.size s
    whole = record { same = refl; size = refl }

    inside :
        (t : BoundedStream)
        → Holds s.content s.size t
        → Ensures
            (λ (r : Option PackLocation × BoundedStream). IsLocated s.content s.size r.0)
            (locate_inside s.size t)
    inside t h = record { at = λ r e. ((locate_inside-Found s.content s.size t h).at r e).0 }

truncation-eq-ok :
    (r : Result (Option PackLocation)) {found : Option PackLocation}
    → truncation r ≡ ok found
    → r ≡ ok found
unfolding truncation
truncation-eq-ok r e = ground arith

-- A pack that is located in a stream has a range inside the stream's content, at least four bytes
-- long, that begins with the magic number of packs, in whichever of the three places it is found.
pub locate_pack-IsPack :
    (stream : Istream) (location : PackLocation)
    → locate_pack stream ≡ ok (some location)
    → IsPack stream.content (length stream.content) location
unfolding locate_pack
locate_pack-IsPack stream location e =
    (with_stream-Ensures {P = IsLocated stream.content (length stream.content)} locate_pack_impl
        stream
        (λ s opened same. record {
          at = λ r k.
              subst (λ c. IsLocated c (length c) r.0) same
                (subst (λ n. IsLocated s.content n r.0) opened.measured
                  ((locate_pack_impl-Found s).at r k));
        })).at
      (some location) (truncation-eq-ok _ e)
