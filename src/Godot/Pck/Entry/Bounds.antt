-- ===== src/Godot/Pck/Entry/Bounds.antt =====
-- src/core/godot/pck.cpp: what the entries of a directory promise. The bytes of the stream that the
-- directory is read from are below 256.
use mathlib.Core.Path.{subst}
use observer_modules.Prelude.{
  ℕ, zero, suc, ◌+◌, ◌*◌, ◌%◌, ◌^◌, ◌≤◌, ◌<◌, ◌≡◌, refl, sym, ap, false, not, ◌||◌, List, ◌∷◌,
  length, All, All-take, All-drop, ltb, leb, ◌==◌, bit_and, arith, ltb-false,
}
use observer_modules.Prelude.Words.{IsByte, from_le, from_le-lt}
use observer_modules.Failure.Ensures.{Ensures, Ensures-ok, Ensures-throw, Ensures-if, Ensures-any}
use observer_modules.Stream.{BoundedStream}
use observer_modules.Stream.Ensures.{Ensures-then, Ensures-reject, Ensures-choose, Ensures-lift}
use observer_modules.Stream.Fixed.{Holds, position-Holds}
use observer_modules.Stream.Reads.{ReadsExact, read_exact-eq-ok}
use observer_modules.Extractor.{max_path_bytes}
use observer_modules.Godot.Types.{
  u64_mod, sub_u64, PckEntry, removal, file, max_index_bytes, checked_add, charge_budget,
}
use observer_modules.Godot.Pck.Reader.{pack_read, pack_read_trivial}
use observer_modules.Godot.Pck.Path.{sanitize_path, trim_nuls}
use observer_modules.Godot.Pck.Path.Safe.{IsSafe, sanitize_path-IsSafe}
use observer_modules.Godot.Pck.Entry.{
  Mode, not_u32, known_file_flags, file_flag_delta, file_flag_removal, file_flag_encrypted,
  max_name_padding, has_flag, read_mode, read_path, read_entry, entry_loop, read_directory,
  minimum_entry_bytes,
}

-- An entry of a pack in a file of `file_size` bytes.
pub record IsEntry (file_size : ℕ) (entry : PckEntry) : Type 0 where
  pub inside : entry.body.offset + entry.body.size ≤ file_size
  pub safe : IsSafe entry.path
  pub short : length entry.path ≤ max_path_bytes

checked_add-Ensures :
    (l r : ℕ)
    → Ensures
        (λ (sum : ℕ). (sum < u64_mod) × (l < u64_mod → r < u64_mod → sum ≡ l + r))
        (checked_add l r)
unfolding checked_add
checked_add-Ensures l r =
    Ensures-if (ltb ((l + r) % u64_mod) l) (λ h. Ensures-throw _)
      λ h. Ensures-ok (omega arith, λ hl hr. omega (arith, ltb-false _ _ h))

module _ (content : List ℕ) (n : ℕ) (bytes : All IsByte content) where
  -- What a read of `k` bytes returns.
  abbrev pub Got : ℕ → List ℕ × BoundedStream → Type 0
  Got k (got, t) = Holds content n t × All IsByte got × (length got ≡ k)

  pub pack_read-Ensures :
      (limit k : ℕ) (s : BoundedStream) → Holds content n s → Ensures (Got k) (pack_read limit k s)
  unfolding pack_read
  pack_read-Ensures limit k s h = position-Holds _ s h λ within.
      Ensures-reject (ltb (sub_u64 limit s.cursor) k) _ _ s λ fits. record {
        at = λ r e.
            let reads : ReadsExact k s r.0 r.1 = read_exact-eq-ok k s e in
            (
              record { same = ground arith; size = ground arith },
              subst (All IsByte) (sym reads.bytes) (
                  All-take IsByte k _
                    (All-drop IsByte s.cursor s.content (subst (All IsByte) (sym h.same) bytes))),
              reads.count,
            );
      }

  pub pack_read_trivial-Ensures :
      (limit k : ℕ) (s : BoundedStream)
      → Holds content n s
      → Ensures
          (λ (r : ℕ × BoundedStream). Holds content n r.1 × (r.0 < 256 ^ k))
          (pack_read_trivial limit k s)
  unfolding pack_read_trivial
  pack_read_trivial-Ensures limit k s h =
      Ensures-then (pack_read limit k) _ s (pack_read-Ensures limit k s h) λ got t (g, b, c).
        Ensures-ok {a = (from_le got, t)}
          (g, subst (λ m. from_le got < 256 ^ m) c (from_le-lt got b))

  read_mode-Ensures :
      (limit version logical_size : ℕ) (s : BoundedStream)
      → Holds content n s
      → Ensures
          (λ (r : Mode × BoundedStream). Holds content n r.1)
          (read_mode limit version logical_size s)
  unfolding read_mode
  read_mode-Ensures limit version logical_size s h =
      Ensures-choose (leb 2 version) _ _ s
        (λ late.
          Ensures-then (pack_read_trivial limit 4) _ s (pack_read_trivial-Ensures limit 4 s h)
            λ flags t (g, b).
              Ensures-reject (has_flag flags (not_u32 known_file_flags)) _ _ t λ known.
                Ensures-reject (has_flag flags file_flag_delta || bit_and flags 3 == 3) _ _ t
                  λ supported.
                    Ensures-choose (has_flag flags file_flag_removal) _ _ t
                      (λ removes. Ensures-reject (not (logical_size == 0)) _ _ t λ empty.
                        Ensures-ok {a = ((removal, has_flag flags file_flag_encrypted), t)} g)
                      λ keeps. Ensures-ok {a = ((file, has_flag flags file_flag_encrypted), t)} g)
        λ early. Ensures-ok {a = ((file, false), s)} h

  abbrev Named : (List ℕ × ℕ) × BoundedStream → Type 0
  Named (r, t) = Holds content n t × IsSafe r.0 × (length r.0 ≤ max_path_bytes)

  read_path-Ensures :
      (raw : List ℕ) (budget : ℕ) (s : BoundedStream)
      → Holds content n s
      → Ensures Named (read_path raw budget s)
  unfolding read_path
  read_path-Ensures raw budget s h =
      Ensures-reject (ltb max_path_bytes (length (trim_nuls raw))) _ _ s λ short.
        Ensures-lift (charge_budget max_index_bytes budget (length (trim_nuls raw))) _ s
          (Ensures-any _)
          λ used u.
            Ensures-lift (sanitize_path (trim_nuls raw)) _ s (sanitize_path-IsSafe (trim_nuls raw))
              λ path p.
                Ensures-ok {a = ((path, used), s)} (h, p.0, omega (arith, p.1, ltb-false _ _ short))

  abbrev EntryRead : ℕ → (PckEntry × ℕ) × BoundedStream → Type 0
  EntryRead file_size (r, t) = Holds content n t × IsEntry file_size r.0

  read_entry-Ensures :
      (limit version file_base file_size budget : ℕ) (s : BoundedStream)
      → Holds content n s
      → Ensures (EntryRead file_size) (read_entry limit version file_base file_size budget s)
  unfolding read_entry
  read_entry-Ensures limit version file_base file_size budget s h =
      Ensures-then (pack_read_trivial limit 4) _ s (pack_read_trivial-Ensures limit 4 s h)
        λ name_size s₁ h₁.
          Ensures-reject (name_size == 0 || ltb (max_path_bytes + max_name_padding) name_size) _ _
            s₁
            λ named.
              Ensures-lift (charge_budget max_index_bytes budget name_size) _ s₁ (Ensures-any _)
                λ charged c.
                  Ensures-then (pack_read limit name_size) _ s₁
                    (pack_read-Ensures limit name_size s₁ h₁.0)
                    λ raw s₂ h₂.
                      Ensures-then (pack_read_trivial limit 8) _ s₂
                        (pack_read_trivial-Ensures limit 8 s₂ h₂.0)
                        λ stored s₃ h₃.
                          Ensures-then (pack_read_trivial limit 8) _ s₃
                            (pack_read_trivial-Ensures limit 8 s₃ h₃.0)
                            λ body_size s₄ h₄.
                              Ensures-then (pack_read limit 16) _ s₄
                                (pack_read-Ensures limit 16 s₄ h₄.0)
                                λ md5 s₅ h₅.
                                  Ensures-then (read_mode limit version body_size) _ s₅
                                    (read_mode-Ensures limit version body_size s₅ h₅.0)
                                    λ mode s₆ h₆.
                                      Ensures-then (read_path raw charged) _ s₆
                                        (read_path-Ensures raw charged s₆ h₆)
                                        λ path s₇ h₇.
                                          Ensures-lift (checked_add file_base stored) _ s₇
                                            (checked_add-Ensures file_base stored)
                                            λ offset o.
                                              Ensures-lift (checked_add offset body_size) _ s₇
                                                (checked_add-Ensures offset body_size)
                                                λ end e.
                                                  Ensures-reject (ltb file_size end) _ _ s₇ λ fits.
                                                    Ensures-ok (
                                                      h₇.0,
                                                      record {
                                                        inside = omega (
                                                          arith,
                                                          ltb-false _ _ fits,
                                                          e.1 o.0 (omega (arith, h₄.1)),
                                                        );
                                                        safe = h₇.1;
                                                        short = h₇.2;
                                                      },
                                                    )

  abbrev pub EntriesRead : ℕ → ℕ → List PckEntry × BoundedStream → Type 0
  EntriesRead count file_size (entries, t) =
      Holds content n t × All (IsEntry file_size) entries × (length entries ≡ count)

  entry_loop-Ensures :
      (left limit version file_base file_size budget : ℕ) (s : BoundedStream)
      → Holds content n s
      → Ensures
          (EntriesRead left file_size)
          (entry_loop left limit version file_base file_size budget s)
  unfolding entry_loop
  entry_loop-Ensures zero limit version file_base file_size budget s h = Ensures-ok (h, tt, refl)
  entry_loop-Ensures (suc left) limit version file_base file_size budget s h =
      Ensures-then (read_entry limit version file_base file_size budget) _ s
        (read_entry-Ensures limit version file_base file_size budget s h)
        λ entry t (g, e).
          Ensures-then (entry_loop left limit version file_base file_size entry.1) _ t
            (entry_loop-Ensures left limit version file_base file_size entry.1 t g)
            λ rest u (k, es, c). Ensures-ok {a = (entry.0 ∷ rest, u)} (k, (e, es), ap suc c)

  pub read_directory-Ensures :
      (entry_bytes limit version count file_base file_size workspace : ℕ) (s : BoundedStream)
      → Holds content n s
      → Ensures
          (EntriesRead count file_size)
          (read_directory entry_bytes limit version count file_base file_size workspace s)
  unfolding read_directory
  read_directory-Ensures entry_bytes limit version count file_base file_size workspace s h =
      position-Holds _ s h λ within.
        Ensures-reject (ltb (sub_u64 limit s.cursor) (count * minimum_entry_bytes version)) _ _ s
          λ roomy.
            Ensures-lift (charge_budget max_index_bytes workspace (count * entry_bytes % u64_mod)) _
              s (Ensures-any _)
              λ budget b. entry_loop-Ensures count limit version file_base file_size budget s h
