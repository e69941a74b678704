-- ===== src/Godot/Pck/Layout/Steps.antt =====
-- src/core/godot/pck.cpp: the header of a pack is read from one content.
use observer_modules.Prelude.{ℕ, Bool, false, ◌||◌, List, length, All, ltb, leb, arith}
use observer_modules.Prelude.Words.{IsByte}
use observer_modules.Failure.Ensures.{Ensures, Ensures-ok, Ensures-any}
use observer_modules.Stream.{BoundedStream}
use observer_modules.Stream.Ensures.{Ensures-then, Ensures-reject, Ensures-choose, Ensures-lift}
use observer_modules.Stream.Fixed.{Holds, position-Holds}
use observer_modules.Stream.Reads.{seek_absolute-eq-ok}
use observer_modules.Godot.Types.{checked_add}
use observer_modules.Godot.Pck.Reader.{
  reserved_header_bytes, pack_read, pack_seek, pack_read_trivial, skip_reserved,
}
use observer_modules.Godot.Pck.Entry.{not_u32, has_flag}
use observer_modules.Godot.Pck.Entry.Bounds.{pack_read_trivial-Ensures}
use observer_modules.Godot.Pck.Entry.Bounds.{pack_read-Ensures}
use observer_modules.Godot.Pck.Layout.{
  known_pack_flags, pack_flag_directory_encrypted, pack_flag_relative_base, pack_flag_sparse_bundle,
  resolve_base, Layout, read_layout,
}

module _ (content : List ℕ) (bytes : All IsByte content) where
  abbrev pub Here : BoundedStream → Type 0
  Here s = Holds content (length content) s

  abbrev reserved_layout : ℕ → Bool → ℕ → Layout
  reserved_layout base encrypted at = record {
    file_base = base;
    directory_offset = at;
    encrypted_directory = encrypted;
  }

  pub trivial :
      (limit k : ℕ) (s : BoundedStream)
      → Here s
      → Ensures (λ (r : ℕ × BoundedStream). Here r.1) (pack_read_trivial limit k s)
  trivial limit k s h = record {
    at = λ r e. ((pack_read_trivial-Ensures content (length content) bytes limit k s h).at r e).0;
  }

  pub skip_reserved-Ensures :
      (limit : ℕ) (s : BoundedStream)
      → Here s
      → Ensures (λ (r : Unit {0} × BoundedStream). Here r.1) (skip_reserved limit s)
  unfolding skip_reserved
  skip_reserved-Ensures limit s h =
      Ensures-then (pack_read limit reserved_header_bytes) _ s
        (pack_read-Ensures content _ bytes limit reserved_header_bytes s h)
        λ got t g. Ensures-ok {a = (tt, t)} g.0

  pub pack_seek-Ensures :
      (limit at : ℕ) (s : BoundedStream)
      → Here s
      → Ensures (λ (r : Unit {0} × BoundedStream). Here r.1) (pack_seek limit at s)
  unfolding pack_seek
  pack_seek-Ensures limit at s h = Ensures-reject (ltb limit at) _ _ s λ e. record {
    at = λ r k.
        let (moved, fits) = seek_absolute-eq-ok at s k in
        record { same = ground arith; size = ground arith };
  }

  pub read_layout-Ensures :
      (limit start version : ℕ) (s : BoundedStream)
      → Here s
      → Ensures (λ (r : Layout × BoundedStream). Here r.1) (read_layout limit start version s)
  unfolding read_layout
  read_layout-Ensures limit start version s h =
      Ensures-choose (leb version 1) _ _ s
        (λ early. Ensures-then (skip_reserved limit) _ s (skip_reserved-Ensures limit s h) λ u t g.
          position-Holds _ t g λ at. Ensures-ok {a = (reserved_layout 0 false t.cursor, t)} g)
        λ late. Ensures-then (pack_read_trivial limit 4) _ s (trivial limit 4 s h) λ flags s₁ h₁.
          Ensures-reject (has_flag flags (not_u32 known_pack_flags)) _ _ s₁ λ known.
            Ensures-reject (has_flag flags pack_flag_sparse_bundle) _ _ s₁ λ dense.
              Ensures-then (pack_read_trivial limit 8) _ s₁ (trivial limit 8 s₁ h₁) λ stored s₂ h₂.
                Ensures-lift
                  (resolve_base (leb 3 version || has_flag flags pack_flag_relative_base) start
                    stored)
                  _ s₂ (Ensures-any _)
                  λ base b.
                    Ensures-choose (leb 3 version) _ _ s₂
                      (λ new.
                        Ensures-then (pack_read_trivial limit 8) _ s₂ (trivial limit 8 s₂ h₂)
                          λ directory s₃ h₃.
                            Ensures-lift (checked_add start directory) _ s₃ (Ensures-any _) λ at a.
                              Ensures-ok
                                {a = (
                                  reserved_layout base
                                      (has_flag flags pack_flag_directory_encrypted) at,
                                  s₃,
                                )}
                                h₃)
                      λ old.
                        Ensures-then (skip_reserved limit) _ s₂ (skip_reserved-Ensures limit s₂ h₂)
                          λ u s₃ h₃. position-Holds _ s₃ h₃ λ at.
                            Ensures-ok
                              {a = (
                                reserved_layout base (has_flag flags pack_flag_directory_encrypted)
                                    s₃.cursor,
                                s₃,
                              )}
                              h₃
