-- ===== src/Godot/Pck/Index/Whole.antt =====
-- src/core/godot/pck.cpp: the whole index of a pack.
use mathlib.Core.Path.{subst}
use observer_modules.Prelude.{
  ℕ, ◌+◌, ◌-◌, ◌≤◌, ◌≡◌, ap, sym, ◌∙◌, not, ◌||◌, List, length, All, ltb, ◌==◌, Option, arith,
  ltb-false,
}
use observer_modules.Prelude.Words.{IsByte}
use observer_modules.Failure.{Result, ok}
use observer_modules.Failure.Ensures.{Ensures, Ensures-ok}
use observer_modules.Stream.{BoundedStream, Istream, Reader, ◌>>=◌, size, choose}
use observer_modules.Stream.Ensures.{
  Ensures-then, Ensures-reject, Ensures-choose, Ensures-lift, with_stream-Ensures,
}
use observer_modules.Extractor.{max_entry_count}
use observer_modules.Godot.Types.{PackLocation, PckIndex}
use observer_modules.Godot.Pck.Reader.{pack_magic, pack_seek, pack_read_trivial, max_format_version}
use observer_modules.Godot.Pck.Entry.Bounds.{IsEntry}
use observer_modules.Godot.Pck.Index.{
  resolve_members, read_encrypted_directory, read_plain_directory, read_entries, read_pack_impl,
  pack_errors, read_pack,
}
use observer_modules.Godot.Pck.Layout.{Layout, read_layout}
use observer_modules.Godot.Pck.Layout.Steps.{Here, trivial, pack_seek-Ensures, read_layout-Ensures}
use observer_modules.Godot.Pck.Index.Bounds.{resolve_members-Ensures}
use observer_modules.Godot.Pck.Index.Opened.{
  here, Read, read_encrypted_directory-Ensures, read_plain_directory-Ensures,
}

-- The index of a pack in a file of `file_size` bytes.
pub record IsIndex (file_size : ℕ) (index : PckIndex) : Type 0 where
  pub known : index.format_version ≤ max_format_version
  pub count : length index.entries ≤ max_entry_count
  pub entries : All (IsEntry file_size) index.entries

module _ (entry_bytes : ℕ) (decrypt : List ℕ → List ℕ → List ℕ → List ℕ) (md5 : List ℕ → List ℕ)
    (plain : (key iv stored : List ℕ) → All IsByte (decrypt key iv stored)) where
  module _ (content : List ℕ) (bytes : All IsByte content) where
    -- A 32-bit number is read, and the chain goes on.
    word :
        {B : Type 0} {Q : B × BoundedStream → Type 0} (limit : ℕ) (s : BoundedStream)
        (f : ℕ → Reader B)
        → Here content bytes s
        → ((v : ℕ) (t : BoundedStream) → Here content bytes t → Ensures Q (f v t))
        → Ensures Q ((pack_read_trivial limit 4 >>= f) s)
    word limit s f h k =
        Ensures-then (pack_read_trivial limit 4) f s (trivial content bytes limit 4 s h) k

    read_entries-Ensures :
        (location : PackLocation) (key : Option (List ℕ)) (version : ℕ) (layout : Layout)
        (s : BoundedStream)
        → Here content bytes s
        → Ensures
            (Read entry_bytes decrypt md5 plain content bytes)
            (read_entries entry_bytes decrypt md5 location key version (length content) layout s)
    unfolding read_entries
    read_entries-Ensures location key version layout s h =
        Ensures-then (pack_seek limit layout.directory_offset) _ s
          (pack_seek-Ensures content bytes limit layout.directory_offset s h)
          λ u s₁ h₁. word limit s₁ _ h₁ λ count s₂ h₂.
            Ensures-reject (ltb max_entry_count count) _ _ s₂ λ few.
              Ensures-then
                (choose layout.encrypted_directory
                  (read_encrypted_directory entry_bytes decrypt md5 limit key version count
                    layout.file_base (length content))
                  (read_plain_directory entry_bytes decrypt md5 limit version count layout.file_base
                    (length content)))
                _ s₂
                (Ensures-choose layout.encrypted_directory _ _ s₂
                  (λ e.
                    read_encrypted_directory-Ensures entry_bytes decrypt md5 plain content bytes
                      limit key version count layout.file_base s₂ h₂ (ltb-false _ _ few))
                  λ e.
                    read_plain_directory-Ensures entry_bytes decrypt md5 plain content bytes limit
                      version count layout.file_base s₂ h₂ (ltb-false _ _ few))
                λ d s₃ (h₃, e₃, c₃).
                  Ensures-lift (resolve_members location (here s₃) d.0) _ s₃
                    (resolve_members-Ensures location (here s₃) d.0
                      (subst (λ c. All (IsEntry (length c)) d.0) (sym h₃.same) e₃))
                    λ es k.
                      Ensures-ok {a = ((es, d.1), s₃)} (
                        h₃,
                        subst (λ c. All (IsEntry (length c)) es) h₃.same k.0,
                        omega (arith, k.1),
                      )
      where
        limit : ℕ
        limit = location.pack.offset + location.pack.size

    read_pack_impl-Ensures :
        (location : PackLocation) (key : Option (List ℕ)) (s : BoundedStream)
        → Here content bytes s
        → Ensures
            (λ (r : PckIndex × BoundedStream). IsIndex (length content) r.0)
            (read_pack_impl entry_bytes decrypt md5 location key s)
    unfolding read_pack_impl size
    read_pack_impl-Ensures location key s h =
        Ensures-reject (ltb s.size start || ltb (s.size - start) location.pack.size) _ _ s λ inside.
          Ensures-then (pack_seek limit start) _ s (pack_seek-Ensures content bytes limit start s h)
            λ u s₁ h₁. word limit s₁ _ h₁ λ magic s₂ h₂.
              Ensures-reject (not (magic == pack_magic)) _ _ s₂ λ same.
                word limit s₂ _ h₂ λ version s₃ h₃. word limit s₃ _ h₃ λ major s₄ h₄.
                  word limit s₄ _ h₄ λ minor s₅ h₅. word limit s₅ _ h₅ λ patch s₆ h₆.
                    Ensures-reject (ltb max_format_version version) _ _ s₆ λ known.
                      Ensures-then (read_layout limit start version) _ s₆
                        (read_layout-Ensures content bytes limit start version s₆ h₆)
                        λ layout s₇ h₇.
                          Ensures-then
                            (read_entries entry_bytes decrypt md5 location key version s.size
                              layout)
                            _ s₇
                            (subst
                              (λ n. Ensures (Read entry_bytes decrypt md5 plain content bytes) (
                                read_entries entry_bytes decrypt md5 location key version n layout
                                  s₇))
                              (sym h.size) (read_entries-Ensures location key version layout s₇ h₇))
                            λ d s₈ (h₈, e₈, c₈).
                              Ensures-ok
                                (record { known = ltb-false _ _ known; count = c₈; entries = e₈ })
      where
        start : ℕ
        start = location.pack.offset

        limit : ℕ
        limit = start + location.pack.size

  pack_errors-eq-ok :
      (r : Result PckIndex) {index : PckIndex}
      → pack_errors entry_bytes decrypt md5 r ≡ ok index
      → r ≡ ok index
  unfolding pack_errors
  pack_errors-eq-ok r e = ground arith

  -- An index that is read from a file of bytes has a version of at most 4 and at most 100000 entries;
  -- every entry's body, the envelope of an encrypted one, is inside the file, and its path is at most
  -- `max_path_bytes` long, relative, free of NUL, backslash and colon, and has no component `..`.
  -- The decryption that is passed returns bytes.
  pub read_pack-IsIndex :
      (stream : Istream) (location : PackLocation) (key : Option (List ℕ)) (index : PckIndex)
      → All IsByte stream.content
      → read_pack entry_bytes decrypt md5 stream location key ≡ ok index
      → IsIndex (length stream.content) index
  unfolding read_pack
  read_pack-IsIndex stream location key index bytes e =
      (with_stream-Ensures {P = IsIndex (length stream.content)}
          (read_pack_impl entry_bytes decrypt md5 location key) stream
          λ s opened same.
            read_pack_impl-Ensures stream.content bytes location key s
              (record { same = same; size = opened.measured ∙ ap length same })).at
        index (pack_errors-eq-ok _ e)
