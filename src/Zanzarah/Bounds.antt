-- ===== src/Zanzarah/Bounds.antt =====
-- src/modules/zanzarah/zanzarah.cpp: the whole listing.
use mathlib.Core.Path.{subst}
use observer_modules.Prelude.{
  ℕ, ◌+◌, ◌≤◌, ◌≡◌, refl, ap, ◌∙◌, ◌/◌, ||-eq-false, ltb-false, Bool, true, false, ◌||◌, List,
  arith, ltb, length, All, if◌then◌else◌,
}
use observer_modules.Prelude.Int.{pos, ◌-ℤ◌}
use observer_modules.Prelude.Words.{to_uint64}
use observer_modules.Failure.{ok}
use observer_modules.Failure.Ensures.{Ensures, Ensures-ok}
use observer_modules.Stream.{BoundedStream, Istream, remaining, position, size, seek_absolute}
use observer_modules.Stream.Reads.{Later}
use observer_modules.Stream.Ensures.{
  Ensures-then, Ensures-reject, Ensures-lift, position-Ensures, remaining-Ensures,
  seek_absolute-Ensures, with_stream-Ensures,
}
use observer_modules.Extractor.{File, IsWithin, max_entry_count}
use observer_modules.Zanzarah.{
  signature, read_positive_int32, read_entries, place_all, all_framed, trim_all, read_count,
  list_entries, list_files, minimum_entry_metadata_bytes, minimum_entry_metadata_bytes,
}
use observer_modules.Zanzarah.Directory.{
  HasNames, records_size, names_of, read_positive_int32-Ensures, read_entries-Ensures,
}
use observer_modules.Zanzarah.Placed.{
  place_all-IsWithin, HasRoom, all_framed-Ensures, trim_all-IsWithin, AreNamed, trim_all-AreNamed,
}

-- The bytes in front of the bodies: the signature, the count and a record for each name.
abbrev pub directory_size : List (List ℕ) → ℕ
directory_size names = 4 + 4 + records_size names

-- What a listing promises of an archive of `size` bytes; `names` are the names of the directory, which
-- begins behind the signature and the count.
pub record IsListing (content : List ℕ) (size : ℕ) (files : List File) : Type 0 where
  pub names : List (List ℕ)
  pub stored : HasNames content 8 names
  pub named : AreNamed names files
  pub directory : directory_size names ≤ size
  pub inside : All (IsWithin (directory_size names + 4) size) files
  pub count : length files ≤ max_entry_count

trimmed-IsListing :
    (content : List ℕ) (high : ℕ) (names : List (List ℕ)) (files : List File) (framed : Bool)
    → HasNames content 8 names
    → directory_size names ≤ high
    → All (IsWithin (directory_size names + 4) high) files
    → length files ≤ max_entry_count
    → AreNamed names files
    → (framed ≡ true → All HasRoom files)
    → IsListing content high (if framed then trim_all files else files)
trimmed-IsListing content high names files true k l h c n room =
    let (within, same) = trim_all-IsWithin (directory_size names + 4) high files h (room refl) in
    record {
      names = names;
      stored = k;
      named = trim_all-AreNamed names files n;
      directory = l;
      inside = within;
      count = omega (arith, same);
    }
trimmed-IsListing content high names files false k l h c n room = record {
  names = names;
  stored = k;
  named = n;
  directory = l;
  inside = h;
  count = c;
}

abbrev Counted : BoundedStream → ℕ × BoundedStream → Type 0
Counted s (n, t) = (n ≤ max_entry_count) × Later s t × (t.cursor ≡ 8)

read_count-Ensures : (s : BoundedStream) → Ensures (Counted s) (read_count s)
unfolding read_count
read_count-Ensures s =
    Ensures-then (seek_absolute (pos (length signature))) _ s
      (seek_absolute-Ensures s (length signature))
      λ u s₁ h₁.
        Ensures-then read_positive_int32 _ s₁ (read_positive_int32-Ensures s₁) λ count s₂ h₂.
          Ensures-then remaining _ s₂ (remaining-Ensures s₂) λ left s₃ h₃.
            Ensures-reject
              (ltb max_entry_count (to_uint64 count)
                || ltb (left / minimum_entry_metadata_bytes) (to_uint64 count))
              _ _ s₃
              λ fits. Ensures-ok {a = (to_uint64 count, s₃)} (
                ltb-false _ _
                    (||-eq-false (ltb max_entry_count (to_uint64 count))
                      (ltb (left / minimum_entry_metadata_bytes) (to_uint64 count)) fits).0,
                ground arith,
                ground arith,
              )

list_entries-Ensures :
    (s : BoundedStream)
    → Ensures (λ (r : List File × BoundedStream). IsListing s.content s.size r.0) (list_entries s)
unfolding list_entries size
list_entries-Ensures s = Ensures-then read_count _ s (read_count-Ensures s) λ n s₁ h₁.
    Ensures-then (read_entries n) _ s₁ (read_entries-Ensures n s₁) λ raw s₂ h₂.
      Ensures-then position _ s₂ (position-Ensures s₂) λ at s₃ h₃.
        Ensures-lift (place_all at (pos s₂.size -ℤ pos at) raw) _ s₃
          (place_all-IsWithin at s₂.size raw (omega arith) h₂.0.0)
          λ placed h₄.
            Ensures-then (all_framed placed) _ s₃ (all_framed-Ensures placed s₃) λ framed s₅ h₅.
              let front : at ≡ directory_size (names_of raw) = omega (arith, h₁.2, h₂.0.2, h₃.0) in
              Ensures-ok (
                subst (λ z. IsListing s.content z (if framed then trim_all placed else placed))
                  (ground arith)
                  (trimmed-IsListing s.content s₂.size (names_of raw) placed framed
                    (subst (λ o. HasNames s.content o (names_of raw)) h₁.2
                      (subst (λ bytes. HasNames bytes s₁.cursor (names_of raw)) h₁.1.content
                        h₂.0.3))
                    (omega (arith, front, h₃.0, h₃.2))
                    (subst (λ low. All (IsWithin (low + 4) s₂.size) placed) front h₄.0)
                    (omega arith) h₄.2 h₅))

-- A listing that returns has at most 100000 entries. The archive has their names, each behind its
-- length, in a directory of records behind the signature and the count, and an entry is shown under
-- its name without the prefix `..\`. Its body begins at least four bytes behind the end of the
-- directory, has no negative size and ends inside the archive.
pub list_files-IsListing :
    (stream : Istream) (files : List File)
    → list_files stream ≡ ok files
    → IsListing stream.content (length stream.content) files
unfolding list_files
list_files-IsListing stream files e =
    (with_stream-Ensures list_entries stream (λ s opened same. record {
      at = λ r k.
          subst (λ content. IsListing content (length stream.content) r.0) same
            (subst (λ z. IsListing s.content z r.0) (opened.measured ∙ ap length same)
              ((list_entries-Ensures s).at r k));
    })).at
      files e
