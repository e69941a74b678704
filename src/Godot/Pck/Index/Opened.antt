-- ===== src/Godot/Pck/Index/Opened.antt =====
-- src/core/godot/pck.cpp: the directory of a pack, encrypted or not.
use observer_modules.Prelude.{
  ℕ, ◌*◌, ◌-◌, ◌%◌, ◌≤◌, ◌≡◌, refl, false, not, List, length, All, ◌==◌, bytes_eq, All-take, Option,
  arith,
}
use observer_modules.Prelude.Words.{IsByte}
use observer_modules.Failure.Ensures.{
  Ensures, Ensures-ok, Ensures-throw, Ensures-if, Ensures-any, Ensures-elim,
}
use observer_modules.Stream.{BoundedStream, Istream}
use observer_modules.Stream.Ensures.{
  Ensures-then, Ensures-reject, Ensures-lift, with_stream-Ensures,
}
use observer_modules.Stream.Fixed.{position-Holds}
use observer_modules.Extractor.{max_entry_count}
use observer_modules.Godot.Types.{PckEntry, max_index_bytes, charge_budget, u64_mod}
use observer_modules.Godot.Encrypted.{
  EncryptedPayload, read_encrypted_payload, verified_plaintext, key_evidence,
}
use observer_modules.Godot.Pck.Entry.{read_directory}
use observer_modules.Godot.Pck.Entry.Bounds.{IsEntry, read_directory-Ensures}
use observer_modules.Godot.Pck.Index.{
  Directory, needs_key, key_or_empty, workspace_of, read_plaintext, open_directory,
  read_encrypted_directory, read_plain_directory,
}
use observer_modules.Godot.Pck.Layout.Steps.{Here}

abbrev pub here : BoundedStream → Istream
here s = record { content = s.content; cursor = s.cursor }

module _ (entry_bytes : ℕ) (decrypt : List ℕ → List ℕ → List ℕ → List ℕ) (md5 : List ℕ → List ℕ)
    (plain : (key iv stored : List ℕ) → All IsByte (decrypt key iv stored)) where
  verified_plaintext-Ensures :
      (stream : Istream) (payload : EncryptedPayload) (key : List ℕ)
      → Ensures (All IsByte) (verified_plaintext decrypt md5 stream payload key)
  unfolding verified_plaintext
  verified_plaintext-Ensures stream payload key =
      Ensures-if (bytes_eq _ payload.md5)
        (λ e. Ensures-ok (All-take IsByte payload.logical_size _ (plain key payload.iv _)))
        λ e. Ensures-throw _

  open_directory-Ensures :
      (payload : EncryptedPayload) (key : Option (List ℕ)) (version count file_base file_size : ℕ)
      (stream : Istream)
      → Ensures
          (λ (es : List PckEntry). All (IsEntry file_size) es × (length es ≡ count))
          (open_directory entry_bytes decrypt md5 payload key version count file_base file_size
            stream)
  unfolding open_directory read_plaintext
  open_directory-Ensures payload key version count file_base file_size stream =
      Ensures-if (needs_key entry_bytes decrypt md5 key payload) (λ e. Ensures-throw _)
        λ e.
          Ensures-elim
            (charge_budget max_index_bytes (workspace_of entry_bytes decrypt md5 payload)
              (count * entry_bytes % u64_mod))
            _ (Ensures-any _)
            λ charged c.
              Ensures-elim
                (verified_plaintext decrypt md5 stream payload
                  (key_or_empty entry_bytes decrypt md5 key))
                _
                (verified_plaintext-Ensures stream payload
                  (key_or_empty entry_bytes decrypt md5 key))
                λ bytes b. with_stream-Ensures _ _ λ s opened same.
                  Ensures-then
                    (read_directory entry_bytes payload.logical_size version count file_base
                      file_size (workspace_of entry_bytes decrypt md5 payload))
                    _ s
                    (read_directory-Ensures bytes s.size b entry_bytes payload.logical_size version
                      count file_base file_size (workspace_of entry_bytes decrypt md5 payload) s
                      (record { same = same; size = refl }))
                    λ es t (h, within, counted). position-Holds _ t h λ at.
                      Ensures-reject (not (t.cursor == payload.logical_size)) _ _ t
                        λ whole. Ensures-ok {a = (es, t)} (within, counted)

  module _ (content : List ℕ) (bytes : All IsByte content) where
    -- A directory that was read, and the stream behind it.
    abbrev pub Read : Directory entry_bytes decrypt md5 × BoundedStream → Type 0
    Read (d, t) =
        Here content bytes t × All (IsEntry (length content)) d.0 × (length d.0 ≤ max_entry_count)

    pub read_encrypted_directory-Ensures :
        (limit : ℕ) (key : Option (List ℕ)) (version count file_base : ℕ) (s : BoundedStream)
        → Here content bytes s
        → count ≤ max_entry_count
        → Ensures Read (
            read_encrypted_directory entry_bytes decrypt md5 limit key version count file_base
              (length content)
              s)
    unfolding read_encrypted_directory
    read_encrypted_directory-Ensures limit key version count file_base s h few =
        position-Holds _ s h λ at.
          Ensures-lift
            (read_encrypted_payload (here s) (record { offset = s.cursor; size = limit - s.cursor })
              max_index_bytes)
            _ s (Ensures-any _)
            λ payload p.
              Ensures-lift
                (open_directory entry_bytes decrypt md5 payload key version count file_base
                  (length content) (here s))
                _ s
                (open_directory-Ensures payload key version count file_base (length content)
                  (here s))
                λ es e.
                  Ensures-ok {a = ((es, key_evidence payload), s)} (h, e.0, omega (arith, e.1))

    pub read_plain_directory-Ensures :
        (limit version count file_base : ℕ) (s : BoundedStream)
        → Here content bytes s
        → count ≤ max_entry_count
        → Ensures Read (
            read_plain_directory entry_bytes decrypt md5 limit version count file_base
              (length content)
              s)
    unfolding read_plain_directory
    read_plain_directory-Ensures limit version count file_base s h few =
        Ensures-then (read_directory entry_bytes limit version count file_base (length content) 0) _
          s
          (read_directory-Ensures content (length content) bytes entry_bytes limit version count
            file_base (length content) 0 s h)
          λ es t (k, e, c). Ensures-ok {a = ((es, false), t)} (k, e, omega (arith, c))
