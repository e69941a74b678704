-- ===== src/Godot/Pck/Locate/Section.antt =====
-- src/core/godot/pck.cpp: what the search in the sections of a PE image finds.
use observer_modules.Prelude.{
  ℕ, zero, suc, ◌+◌, ◌-◌, ◌/◌, ◌≤◌, ◌≡◌, Bool, false, ◌||◌, ◌&&◌, List, take, drop, ltb, leb, ◌==◌,
  bytes_eq, Option, none, some, arith, ltb-false, [], ◌∷◌,
}
use observer_modules.Prelude.Words.{from_le}
use observer_modules.Failure.Ensures.{Ensures, Ensures-ok, Ensures-throw}
use observer_modules.Stream.{BoundedStream, pure}
use observer_modules.Stream.Ensures.{Ensures-then, Ensures-reject, Ensures-choose}
use observer_modules.Stream.Fixed.{Holds, seek-Holds, read-Holds, read_trivial-Holds}
use observer_modules.Godot.Types.{PackLocation}
use observer_modules.Godot.Pck.Reader.{pack_magic}
use observer_modules.Godot.Pck.Locate.{
  section_header_size, alignment_search_span, all_zero, search_header, is_placeholder,
  locate_embedded_pack, until_nul, read_section, find_section, read_section_table,
}

-- A pack: its range is inside the content, and its magic number stands in front.
pub record IsPack (content : List ℕ) (n : ℕ) (location : PackLocation) : Type 0 where
  pub inside : location.pack.offset + location.pack.size ≤ n
  pub header : 4 ≤ location.pack.size
  pub magic : from_le (take 4 (drop location.pack.offset content)) ≡ pack_magic

abbrev pub IsLocated : List ℕ → ℕ → Option PackLocation → Type 0
IsLocated content n none = Unit {0}
IsLocated content n (some location) = IsPack content n location

module _ (content : List ℕ) (n : ℕ) where
  -- What a strategy returns, and the stream behind it.
  abbrev pub Found : Option PackLocation × BoundedStream → Type 0
  Found (found, s) = IsLocated content n found × Holds content n s

  pub missing : (s : BoundedStream) → Holds content n s → Ensures Found (pure none s)
  missing s h = Ensures-ok (tt, h)

  search_header-Found :
      (rounds at limit : ℕ) (s : BoundedStream)
      → Holds content n s
      → limit ≤ n
      → Ensures Found (search_header rounds at limit s)
  unfolding search_header
  search_header-Found zero at limit s h l = Ensures-throw _
  search_header-Found (suc rounds) at limit s h l =
      Ensures-choose (ltb limit (at + 4)) _ _ s (λ far. Ensures-throw _)
        λ near. seek-Holds at _ s h λ s₁ h₁ e₁ b₁.
          read_trivial-Holds 4 _ s₁ h₁ λ magic s₂ h₂ v b₂ e₂.
            Ensures-choose (magic == pack_magic) _ _ s₂
              (λ same. Ensures-ok (
                record {
                  inside = omega (arith, ltb-false _ _ near);
                  header = omega (arith, ltb-false _ _ near);
                  magic = ground arith;
                },
                h₂,
              ))
              λ other. search_header-Found rounds (at + 1) limit s₂ h₂ l

  is_placeholder-Holds :
      (raw_offset raw_size virtual_size : ℕ) (s : BoundedStream)
      → Holds content n s
      → Ensures
          (λ (r : Bool × BoundedStream). Holds content n r.1)
          (is_placeholder raw_offset raw_size virtual_size s)
  unfolding is_placeholder
  is_placeholder-Holds raw_offset raw_size virtual_size s h =
      Ensures-choose (virtual_size == 8 && raw_size == 512) _ _ s
        (λ small. seek-Holds raw_offset _ s h λ s₁ h₁ e₁ b₁.
          read-Holds 512 _ s₁ h₁ λ got s₂ h₂ v b₂ e₂. Ensures-ok {a = (all_zero got, s₂)} h₂)
        λ large. Ensures-ok {a = (false, s)} h

  locate_embedded_pack-Found :
      (raw_offset raw_size virtual_size : ℕ) (s : BoundedStream)
      → Holds content n s
      → Ensures Found (locate_embedded_pack n raw_offset raw_size virtual_size s)
  unfolding locate_embedded_pack
  locate_embedded_pack-Found raw_offset raw_size virtual_size s h =
      Ensures-reject (leb n raw_offset) _ _ s λ begins.
        Ensures-reject (ltb n (raw_offset + raw_size)) _ _ s λ ends.
          Ensures-then (is_placeholder raw_offset raw_size virtual_size) _ s
            (is_placeholder-Holds raw_offset raw_size virtual_size s h)
            λ empty s₁ h₁.
              Ensures-choose empty _ _ s₁ (λ e. missing s₁ h₁)
                λ e.
                  search_header-Found alignment_search_span raw_offset (raw_offset + raw_size) s₁ h₁
                    (ltb-false _ _ ends)

  read_section-Found :
      (header : ℕ) (s : BoundedStream) → Holds content n s → Ensures Found (read_section n header s)
  unfolding read_section
  read_section-Found header s h = seek-Holds (header + 8) _ s h λ s₁ h₁ e₁ b₁.
      read_trivial-Holds 4 _ s₁ h₁ λ virtual_size s₂ h₂ v₂ b₂ e₂.
        seek-Holds (header + 16) _ s₂ h₂ λ s₃ h₃ e₃ b₃.
          read_trivial-Holds 4 _ s₃ h₃ λ raw_size s₄ h₄ v₄ b₄ e₄.
            read_trivial-Holds 4 _ s₄ h₄ λ raw_offset s₅ h₅ v₅ b₅ e₅.
              Ensures-choose (raw_offset == 0) _ _ s₅ (λ e. missing s₅ h₅)
                λ e. locate_embedded_pack-Found raw_offset raw_size virtual_size s₅ h₅

  find_section-Found :
      (left header : ℕ) (s : BoundedStream)
      → Holds content n s
      → Ensures Found (find_section left n header s)
  unfolding find_section
  find_section-Found zero header s h = missing s h
  find_section-Found (suc left) header s h = seek-Holds header _ s h λ s₁ h₁ e₁ b₁.
      read-Holds 8 _ s₁ h₁ λ name s₂ h₂ v₂ b₂ e₂.
        Ensures-choose (bytes_eq (until_nul name) (b'p' ∷ b'c' ∷ b'k' ∷ [])) _ _ s₂
          (λ e. read_section-Found header s₂ h₂)
          λ e. find_section-Found left (header + section_header_size) s₂ h₂

  pub read_section_table-Found :
      (nt_header : ℕ) (s : BoundedStream)
      → Holds content n s
      → Ensures Found (read_section_table n nt_header s)
  unfolding read_section_table
  read_section_table-Found nt_header s h = seek-Holds (nt_header + 6) _ s h λ s₁ h₁ e₁ b₁.
      read_trivial-Holds 2 _ s₁ h₁ λ count s₂ h₂ v₂ b₂ e₂.
        seek-Holds (nt_header + 20) _ s₂ h₂ λ s₃ h₃ e₃ b₃.
          read_trivial-Holds 2 _ s₃ h₃ λ optional s₄ h₄ v₄ b₄ e₄.
            Ensures-reject
              (ltb n (nt_header + 24 + optional)
                || ltb ((n - (nt_header + 24 + optional)) / section_header_size) count)
              _ _ s₄ λ e. find_section-Found count (nt_header + 24 + optional) s₄ h₄
