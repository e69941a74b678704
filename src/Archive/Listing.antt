-- ===== src/Archive/Listing.antt =====
-- src/archive.cpp: the listing that an archive keeps.
use observer_modules.Prelude.{
  ℕ, ◌≡◌, ◌≢◌, refl, sym, subst, Bool, true, false, not, List, [], ◌∷◌, All, ◌==◌, if◌then◌else◌,
  Option, none, some, arith, ◌⊎◌, inl, inr,
}
use observer_modules.Failure.{Exception, Result, ok, throw, extractor_read, archive_read}
use observer_modules.Stream.{Istream}
use observer_modules.Extractor.{File}
use observer_modules.Archive.{
  Extractor, Archive, is_empty, at_position, to_backslashes, normalise, as_read_error, translate,
  listed_with, prepare_files,
}

-- A path in the host's spelling.
abbrev pub IsNormal : File → Type 0
IsNormal f = All (λ b. b ≢ b'/') f.path

-- Each slash has become a backslash, and no other byte has changed.
abbrev pub IsRespelled : List ℕ → List ℕ → Type 0
IsRespelled [] [] = Unit
IsRespelled [] (c ∷ cs) = ⊥
IsRespelled (b ∷ bs) [] = ⊥
IsRespelled (b ∷ bs) (c ∷ cs) =
    (((b ≡ b'/') × (c ≡ b'\\')) ⊎ ((b ≢ b'/') × (c ≡ b))) × IsRespelled bs cs

-- The same entries, but for the spelling of their paths.
abbrev pub AreRespelled : List File → List File → Type 0
AreRespelled [] [] = Unit
AreRespelled [] (g ∷ gs) = ⊥
AreRespelled (f ∷ fs) [] = ⊥
AreRespelled (f ∷ fs) (g ∷ gs) =
    IsRespelled f.path g.path × (g ≡ record f { path = g.path }) × AreRespelled fs gs

to_backslashes-IsRespelled : (path : List ℕ) → IsRespelled path (to_backslashes path)
unfolding to_backslashes
to_backslashes-IsRespelled [] = tt
to_backslashes-IsRespelled (b ∷ bs) = (replaced (b == b'/') refl, to_backslashes-IsRespelled bs)
  where
    replaced :
        (slash : Bool)
        → (b == b'/') ≡ slash
        → ((b ≡ b'/') × ((if slash then b'\\' else b) ≡ b'\\'))
          ⊎ ((b ≢ b'/') × ((if slash then b'\\' else b) ≡ b))
    replaced true e = inl (ground arith, refl)
    replaced false e = inr (ground arith, refl)

normalise-AreRespelled : (files : List File) → AreRespelled files (normalise files)
unfolding normalise
normalise-AreRespelled [] = tt
normalise-AreRespelled (f ∷ fs) =
    (to_backslashes-IsRespelled f.path, refl, normalise-AreRespelled fs)

IsRespelled-All : (path new : List ℕ) → IsRespelled path new → All (λ b. b ≢ b'/') new
IsRespelled-All [] [] h = tt
IsRespelled-All [] (c ∷ cs) h = absurd h
IsRespelled-All (b ∷ bs) [] h = tt
IsRespelled-All (b ∷ bs) (c ∷ cs) (inl (e, k), h) = (λ s. ground arith, IsRespelled-All bs cs h)
IsRespelled-All (b ∷ bs) (c ∷ cs) (inr (e, k), h) = (λ s. ground arith, IsRespelled-All bs cs h)

AreRespelled-IsNormal : (files new : List File) → AreRespelled files new → All IsNormal new
AreRespelled-IsNormal [] [] h = tt
AreRespelled-IsNormal [] (g ∷ gs) h = absurd h
AreRespelled-IsNormal (f ∷ fs) [] h = tt
AreRespelled-IsNormal (f ∷ fs) (g ∷ gs) h =
    (IsRespelled-All f.path g.path h.0, AreRespelled-IsNormal fs gs h.2)

-- A source that stays open on the same bytes, in whatever position.
abbrev pub SameBytes : Option Istream → Option Istream → Type 0
SameBytes none none = Unit
SameBytes none (some t) = ⊥
SameBytes (some s) none = ⊥
SameBytes (some s) (some t) = t.content ≡ s.content

SameBytes-refl : (stream : Option Istream) → SameBytes stream stream
SameBytes-refl none = tt
SameBytes-refl (some s) = refl

as_read_error-extractor_read : (e : Exception) → as_read_error e ≢ extractor_read
unfolding as_read_error
as_read_error-extractor_read e h = ground arith

same_bytes :
    (self : Archive) (stream : Istream) (cursor : ℕ)
    → self.stream ≡ some stream
    → SameBytes self.stream (some (at_position stream cursor))
same_bytes self stream cursor s =
    subst (λ from. SameBytes from (some (at_position stream cursor))) (sym s) refl

module _ {Info : Type 0} (extractor : Extractor Info) where
  abbrev pub ListsOf : Option Istream → List File → Type 0
  ListsOf none files = ⊥
  ListsOf (some stream) files =
      (raw : List File) × ((extractor.list_files stream).0 ≡ ok raw) × AreRespelled raw files

  abbrev pub IsPrepared : Archive → Result (Unit {0}) × Archive → Type 0
  IsPrepared self (throw e, next) =
      SameBytes self.stream next.stream
      × (next.opened ≡ self.opened)
      × (next.files ≡ self.files)
      × (e ≢ extractor_read)
  IsPrepared self (ok u, next) =
      SameBytes self.stream next.stream
      × (next.opened ≡ true)
      × (self.opened ≡ true)
      × (((self.files ≢ []) × (next ≡ self))
          ⊎ ((self.files ≡ []) × ListsOf self.stream next.files × All IsNormal next.files))

  listed_with-IsPrepared :
      (self : Archive) (stream : Istream) (r : Result (List File)) (cursor : ℕ)
      → self.opened ≡ true
      → self.files ≡ []
      → self.stream ≡ some stream
      → (extractor.list_files stream).0 ≡ r
      → IsPrepared self (listed_with self stream (r, cursor))
  unfolding listed_with translate
  listed_with-IsPrepared self stream (ok raw) cursor o h s l = (
    same_bytes self stream cursor s,
    o,
    o,
    inr (
      h,
      subst (λ from. ListsOf from (normalise raw)) (sym s) (raw, l, normalise-AreRespelled raw),
      AreRespelled-IsNormal raw (normalise raw) (normalise-AreRespelled raw),
    ),
  )
  listed_with-IsPrepared self stream (throw e) cursor o h s l =
      (same_bytes self stream cursor s, refl, refl, as_read_error-extractor_read e)

  -- What `prepare_files` does with an archive that is open and has no list.
  prepare_empty-IsPrepared :
      (self : Archive) (stream : Option Istream)
      → self.stream ≡ stream
      → self.opened ≡ true
      → self.files ≡ []
      → IsPrepared self (elim stream [
        | none ↦ (throw archive_read, self)
        | some s ↦ listed_with self s (extractor.list_files s)
      ])
  prepare_empty-IsPrepared self none s o h = (SameBytes-refl self.stream, refl, refl, λ e. cc)
  prepare_empty-IsPrepared self (some stream) s o h =
      listed_with-IsPrepared self stream (extractor.list_files stream).0
        (extractor.list_files stream).1 o h s refl

  -- What a call of `prepare_files` leaves: the source open on the same bytes, the archive as open as
  -- before, and, where it throws, the old list; what it throws is never the module's read error. Where
  -- it returns, the archive is open, and either it had a list and is as before, or it had none and has
  -- the list that the module gives, whose entries are the same but for each slash in a path, which is
  -- a backslash.
  pub prepare_files-IsPrepared : (self : Archive) → IsPrepared self (prepare_files extractor self)
  unfolding prepare_files
  prepare_files-IsPrepared self = go self.opened self.files refl refl
    where
      go :
          (opened : Bool) (files : List File)
          → self.opened ≡ opened
          → self.files ≡ files
          → IsPrepared self (
              if not opened
              then (throw archive_read, self)
              else if not (is_empty files)
              then (ok tt, self)
              else elim self.stream [
                | none ↦ (throw archive_read, self)
                | some s ↦ listed_with self s (extractor.list_files s)
              ])
      go false files o h = (SameBytes-refl self.stream, refl, refl, λ e. cc)
      go true [] o h = prepare_empty-IsPrepared self self.stream refl o h
      go true (f ∷ fs) o h = (SameBytes-refl self.stream, o, o, inl (λ e. cc, refl))
