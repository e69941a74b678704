-- ===== src/RpgMaker/Total.antt =====
-- src/modules/rpgmaker/rpgmaker.cpp: the end of the Ace listing.
use observer_modules.Prelude.{
  ℕ, zero, suc, ◌+◌, ◌-◌, ◌*◌, ◌%◌, ◌^◌, ◌≤◌, ◌<◌, ◌≡◌, ◌≢◌, refl, ◌||◌, List, [], ◌∷◌, ◌++◌,
  Option, none, some, ◌==◌, bit_xor, arith, ltb,
}
use observer_modules.Prelude.Int.{pos}
use observer_modules.Failure.{ok}
use observer_modules.Failure.Ensures.{Ensures, Ensures-ok, Ensures-throw, Ensures-any}
use observer_modules.Stream.{
  BoundedStream, Istream, size, position, read_exact, read_trivial, seek_absolute,
}
use observer_modules.Stream.Ensures.{
  Ensures-then, Ensures-reject, Ensures-choose, Ensures-lift, read_trivial-Ensures,
  read_exact-Ensures, position-Ensures, seek_absolute-Ensures, with_stream-Ensures,
}
use observer_modules.Extractor.{File, max_path_bytes}
use observer_modules.RpgMaker.{
  read_ace_entry, ace_loop, list_ace_files, list_legacy_files, legacy_version, ace_version,
  header_size, validate_header, list_by_version, list_entries, list_files, new_file,
  decode_ace_name,
}

-- The listing is through: it has not run out of fuel.
abbrev IsListed : Option (List File) → Type 0
IsListed listed = listed ≢ none

abbrev Listed : Option (List File) × BoundedStream → Type 0
Listed (listed, s) = IsListed listed

abbrev Moved : BoundedStream → File × BoundedStream → Type 0
Moved s (file, t) = (t.size ≡ s.size) × (s.cursor ≤ t.cursor) × (t.cursor ≤ t.size)

read_ace_entry-Ensures :
    (archive_size magic offset : ℕ) (s : BoundedStream)
    → Ensures (Moved s) (read_ace_entry archive_size magic offset s)
unfolding read_ace_entry
read_ace_entry-Ensures archive_size magic offset s =
    Ensures-then (read_trivial 4) _ s (read_trivial-Ensures 4 s) λ size_word s₁ h₁.
      Ensures-then (read_trivial 4) _ s₁ (read_trivial-Ensures 4 s₁) λ magic_word s₂ h₂.
        Ensures-then (read_trivial 4) _ s₂ (read_trivial-Ensures 4 s₂) λ name_word s₃ h₃.
          Ensures-then position _ s₃ (position-Ensures s₃) λ at s₄ h₄.
            Ensures-reject
              (ltb max_path_bytes (bit_xor name_word magic)
                || ltb (archive_size - at) (bit_xor name_word magic))
              _ _ s₄
              λ fits.
                Ensures-then (read_exact (bit_xor name_word magic)) _ s₄
                  (read_exact-Ensures (bit_xor name_word magic) s₄)
                  λ name s₅ h₅.
                    Ensures-ok
                      {a = (
                        new_file (decode_ace_name magic 0 name) offset (bit_xor size_word magic)
                            (bit_xor magic_word magic),
                        s₅,
                      )}
                      (ground arith)

ace_loop-Listed :
    (fuel archive_size magic : ℕ) (files : List File) (s : BoundedStream)
    → s.cursor ≤ s.size
    → s.size < s.cursor + fuel
    → Ensures Listed (ace_loop fuel archive_size magic files s)
unfolding ace_loop
ace_loop-Listed zero archive_size magic files s low h = absurd (omega arith)
ace_loop-Listed (suc fuel) archive_size magic files s low h =
    Ensures-then (read_trivial 4) _ s (read_trivial-Ensures 4 s) λ word s₁ h₁.
      Ensures-choose (bit_xor word magic == 0) _ _ s₁
        (λ e. Ensures-ok {a = (some files, s₁)} (λ e. cc))
        λ e.
          Ensures-then (read_ace_entry archive_size magic (bit_xor word magic)) _ s₁
            (read_ace_entry-Ensures archive_size magic (bit_xor word magic) s₁)
            λ file s₂ h₂.
              ace_loop-Listed fuel archive_size magic (files ++ file ∷ []) s₂ (omega (arith, h₂))
                (omega (arith, h₁, h₂))

list_ace_files-Listed : (s : BoundedStream) → Ensures Listed (list_ace_files s)
unfolding list_ace_files size
list_ace_files-Listed s = Ensures-then (read_trivial 4) _ s (read_trivial-Ensures 4 s) λ word t h.
    ace_loop-Listed (s.size + 1) s.size ((word * 9 + 3) % 2 ^ 32) [] t (ground arith) (ground arith)

list_entries-Listed : (s : BoundedStream) → Ensures Listed (list_entries s)
unfolding list_entries list_by_version
list_entries-Listed s =
    Ensures-then (seek_absolute (pos 0)) _ s (seek_absolute-Ensures s 0) λ u s₁ h₁.
      Ensures-then (read_exact header_size) _ s₁ (read_exact-Ensures header_size s₁) λ header s₂ h₂.
        Ensures-lift (validate_header header) _ s₂ (Ensures-any _) λ version v.
          Ensures-choose (version == legacy_version) _ _ s₂
            (λ e.
              Ensures-then list_legacy_files _ s₂ (Ensures-any _)
                λ files t h. Ensures-ok {a = (some files, t)} (λ k. cc))
            λ e.
              Ensures-choose (version == ace_version) _ _ s₂ (λ k. list_ace_files-Listed s₂)
                λ k. Ensures-throw _

-- A listing of an RPG Maker archive, of whichever layout, comes to its end: it returns a list of
-- entries or throws, and its fuel, a round for each byte of the file, is never used up.
pub list_files_total : (stream : Istream) → list_files stream ≢ ok none
unfolding list_files
list_files_total stream e =
    (with_stream-Ensures {P = IsListed} list_entries stream
        λ s opened same. list_entries-Listed s).at
      none e refl
