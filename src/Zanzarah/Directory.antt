-- ===== src/Zanzarah/Directory.antt =====
-- src/modules/zanzarah/zanzarah.cpp: what the directory loop returns.
use observer_modules.Prelude.{
  ℕ, zero, suc, ◌+◌, ◌≡◌, refl, false, ◌||◌, List, [], ◌∷◌, arith, ltb, length, take, drop, All,
  subst, sym, ap, ◌∙◌,
}
use observer_modules.Prelude.Int.{ℤ, pos, ◌≤ℤ◌, lt_ℤ, int_laws, +ℤ_parts, -ℤ_parts}
use observer_modules.Prelude.Words.{to_int32, to_uint64, from_le}
use observer_modules.Failure.Ensures.{Ensures, Ensures-ok}
use observer_modules.Stream.{BoundedStream, remaining, read_trivial, read_exact}
use observer_modules.Stream.Reads.{Later, Later-refl, Later-trans, ReadsExact, read_trivial-eq-ok}
use observer_modules.Stream.Ensures.{
  Ensures-then, Ensures-reject, read_exact-Ensures, remaining-Ensures,
}
use observer_modules.Extractor.{File, max_path_bytes}
use observer_modules.Zanzarah.{
  read_positive_or_zero_int32, read_positive_int32, is_zero, is_negative, read_entry, read_entries,
  attr_size, new_file,
}

-- The signed number that stands at an offset.
abbrev pub number_at : List ℕ → ℕ → ℤ
number_at content at = to_int32 (from_le (take 4 (drop at content)))

-- Both readers of a signed number return none below zero, and read four bytes.
abbrev pub NotNegative : BoundedStream → ℤ × BoundedStream → Type 0
NotNegative s (v, t) =
    (pos 0 ≤ℤ v) × Later s t × (t.cursor ≡ s.cursor + 4) × (v ≡ number_at s.content s.cursor)

word-Ensures :
    (s : BoundedStream)
    → Ensures
        (λ (r : ℕ × BoundedStream).
          Later s r.1
          × (r.1.cursor ≡ s.cursor + 4)
          × (r.0 ≡ from_le (take 4 (drop s.cursor s.content))))
        (read_trivial 4 s)
word-Ensures s = record {
  at = λ r e.
      let (got, reads, v) = read_trivial-eq-ok 4 s e in
      (reads.later, reads.moved, v ∙ ap from_le reads.bytes);
}

pub read_positive_or_zero_int32-Ensures :
    (s : BoundedStream) → Ensures (NotNegative s) (read_positive_or_zero_int32 s)
unfolding read_positive_or_zero_int32
read_positive_or_zero_int32-Ensures s =
    Ensures-then (read_trivial 4) _ s (word-Ensures s) λ word t h.
      Ensures-reject (is_negative (to_int32 word)) _ _ t
        λ e. Ensures-ok (ground arith, h.0, h.1, ap to_int32 h.2)

pub read_positive_int32-Ensures :
    (s : BoundedStream) → Ensures (NotNegative s) (read_positive_int32 s)
unfolding read_positive_int32
read_positive_int32-Ensures s =
    Ensures-then read_positive_or_zero_int32 _ s (read_positive_or_zero_int32-Ensures s)
      λ v t h. Ensures-reject (is_zero v) _ _ t λ e. Ensures-ok h

-- An entry as the directory loop leaves it, before its offset is made absolute.
pub record IsRaw (f : File) : Type 0 where
  pub begins : pos 4 ≤ℤ f.offset
  pub sized : pos 0 ≤ℤ f.compressed_body_size_in_bytes
  pub stored : f.uncompressed_body_size_in_bytes ≡ f.compressed_body_size_in_bytes

-- The bytes of a directory record: the length of the name, the name, the offset and the size.
abbrev pub record_size : List ℕ → ℕ
record_size name = 4 + length name + 4 + 4

abbrev pub records_size : List (List ℕ) → ℕ
records_size [] = 0
records_size (name ∷ names) = record_size name + records_size names

abbrev pub names_of : List File → List (List ℕ)
names_of [] = []
names_of (f ∷ fs) = f.path ∷ names_of fs

-- The length of a name and then the name stand at `at`.
abbrev pub HasName : List ℕ → ℕ → List ℕ → Type 0
HasName content at name =
    (number_at content at ≡ pos (length name)) × (name ≡ take (length name) (drop (at + 4) content))

-- The names of the records from `at` on.
abbrev pub HasNames : List ℕ → ℕ → List (List ℕ) → Type 0
HasNames content at [] = Unit
HasNames content at (name ∷ names) =
    HasName content at name × HasNames content (at + record_size name) names

-- The names behind a record, in terms of the stream in front of it.
names_moved :
    (s t : BoundedStream) (names : List (List ℕ)) (size : ℕ)
    → Later s t
    → t.cursor ≡ s.cursor + size
    → HasNames t.content t.cursor names
    → HasNames s.content (s.cursor + size) names
names_moved s t names size l c h =
    subst (λ at. HasNames s.content at names) c
      (subst (λ content. HasNames content t.cursor names) l.content h)

-- A length that is not negative is the number of bytes that are read.
to_int32-to_uint64 :
    (word : ℕ) → pos 0 ≤ℤ to_int32 word → to_int32 word ≡ pos (to_uint64 (to_int32 word))
to_int32-to_uint64 word h = ground arith

read_name :
    (s s₁ s₂ s₃ : BoundedStream) (path_len : ℤ) (path : List ℕ)
    → NotNegative s (path_len, s₁)
    → s₂ ≡ s₁
    → ReadsExact (to_uint64 path_len) s₂ path s₃
    → HasName s.content s.cursor path
read_name s s₁ s₂ s₃ path_len path h e r = (
  to_int32-to_uint64 (from_le (take 4 (drop s.cursor s.content))) (subst (λ v. pos 0 ≤ℤ v) h.3 h.0)
      ∙ ap (λ (v : ℤ). pos (to_uint64 v)) (sym h.3)
      ∙ ap pos (sym r.count),
  ground (arith, r.bytes, r.count, h.1, h.2, e),
)

abbrev pub RawEntry : BoundedStream → File × BoundedStream → Type 0
RawEntry s (f, t) =
    IsRaw f
    × Later s t
    × (t.cursor ≡ s.cursor + record_size f.path)
    × HasName s.content s.cursor f.path

pub new_file-IsRaw :
    (path : List ℕ) (block_offset block_size : ℤ)
    → pos 0 ≤ℤ block_offset
    → lt_ℤ block_size attr_size ≡ false
    → IsRaw (new_file path block_offset block_size)
unfolding new_file
new_file-IsRaw path block_offset block_size h large = record {
  begins = omega (int_laws, +ℤ_parts block_offset attr_size);
  sized = ground (arith, -ℤ_parts block_size attr_size);
  stored = refl;
}

pub read_entry-Ensures : (s : BoundedStream) → Ensures (RawEntry s) (read_entry s)
unfolding read_entry new_file
read_entry-Ensures s =
    Ensures-then read_positive_int32 _ s (read_positive_int32-Ensures s) λ path_len s₁ h₁.
      Ensures-then remaining _ s₁ (remaining-Ensures s₁) λ left s₂ h₂.
        Ensures-reject (ltb max_path_bytes (to_uint64 path_len) || ltb left (to_uint64 path_len)) _
          _ s₂
          λ fits.
            Ensures-then (read_exact (to_uint64 path_len)) _ s₂
              (read_exact-Ensures (to_uint64 path_len) s₂)
              λ path s₃ h₃.
                Ensures-then read_positive_or_zero_int32 _ s₃
                  (read_positive_or_zero_int32-Ensures s₃)
                  λ block_offset s₄ h₄.
                    Ensures-then read_positive_int32 _ s₄ (read_positive_int32-Ensures s₄)
                      λ block_size s₅ h₅. Ensures-reject (lt_ℤ block_size attr_size) _ _ s₅ λ large.
                        Ensures-ok {a = (new_file path block_offset block_size, s₅)} (
                          new_file-IsRaw path block_offset block_size h₄.0 large,
                          ground arith,
                          ground arith,
                          read_name s s₁ s₂ s₃ path_len path h₁ h₂ h₃,
                        )

abbrev pub RawEntries : BoundedStream → List File × BoundedStream → Type 0
RawEntries s (fs, t) =
    All IsRaw fs
    × Later s t
    × (t.cursor ≡ s.cursor + records_size (names_of fs))
    × HasNames s.content s.cursor (names_of fs)

pub read_entries-Ensures :
    (n : ℕ) (s : BoundedStream)
    → Ensures
        (λ (r : List File × BoundedStream). RawEntries s r × (length r.0 ≡ n))
        (read_entries n s)
unfolding read_entries
read_entries-Ensures zero s = Ensures-ok {a = ([], s)} ((tt, Later-refl s, omega arith, tt), refl)
read_entries-Ensures (suc n) s = Ensures-then read_entry _ s (read_entry-Ensures s) λ f s₁ h₁.
    Ensures-then (read_entries n) _ s₁ (read_entries-Ensures n s₁) λ fs s₂ h₂.
      Ensures-ok {a = (f ∷ fs, s₂)} (
        (
          (h₁.0, h₂.0.0),
          Later-trans h₁.1 h₂.0.1,
          omega (arith, h₁.2, h₂.0.2),
          (h₁.3, names_moved s s₁ (names_of fs) (record_size f.path) h₁.1 h₁.2 h₂.0.3),
        ),
        omega arith,
      )
