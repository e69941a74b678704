-- ===== src/Godot/Keys/Image/Inside.antt =====
-- src/core/godot/key_recovery.cpp: where the sections of a parsed image stand.
use observer_modules.Prelude.{
  ℕ, take, drop, ap, ◌∙◌, ◌+◌, ◌-◌, ◌≤◌, ◌<◌, ◌≡◌, refl, true, false, ◌||◌, List, [], ◌∷◌, Option,
  none, some, ltb, length, All, Pairwise, arith,
}
use observer_modules.Prelude.Int.{pos}
use observer_modules.Failure.{Result, ok, throw, key_recovery_error}
use observer_modules.Failure.Ensures.{Ensures}
use observer_modules.Stream.{BoundedStream, seek_absolute, read_exact}
use observer_modules.Stream.Reads.{Later, Later-trans, ReadsExact}
use observer_modules.Stream.Ensures.{read_exact-Ensures, seek_absolute-Ensures}
use observer_modules.Godot.Keys.State.{
  KeyRecoveryLimits, KeyRecoveryBudget, Recovery, Search, reading, after_read, charge_scanned,
  charge, charged,
}
use observer_modules.Godot.Keys.State.Keeps.{
  Ended, Leaves, Any, Leaves-pure, Leaves-bind, Leaves-reject, Leaves-choose, Leaves-weaken,
  ReturnsIn, Leaves-after,
}
use observer_modules.Godot.Keys.Image.{
  Section, image_size, authorize_read, read_bytes, read, read_code, overlaps_any,
}

abbrev pub Holds : Section → ℕ → Type 0
Holds entry address = (entry.address ≤ address) × (address < entry.address + entry.virtual_size)

-- No address belongs to both.
abbrev pub Apart : Section → Section → Type 0
Apart a b = (address : ℕ) → Holds a address → Holds b address → ⊥

-- The rows that `overlaps_any` lets through.
pub overlaps_any-Apart :
    (entry : Section) (sections : List Section)
    → overlaps_any entry sections ≡ false
    → All (λ previous. Apart previous entry) sections
unfolding overlaps_any
overlaps_any-Apart entry [] h = tt
overlaps_any-Apart entry (previous ∷ rest) h =
    (λ address a b. ground arith, overlaps_any-Apart entry rest (ground arith))

-- `count` bytes of the file from `offset` on.
pub record IsSlice (file : BoundedStream) (offset count : ℕ) (bytes : List ℕ) : Type 0 where
  pub bytes_there : bytes ≡ take count (drop offset file.content)
  pub counted : length bytes ≡ count

-- A section of a file: its range lies in the file, it is loaded whole, and its code is what the file
-- has in that range.
pub record IsSection (file : BoundedStream) (entry : Section) : Type 0 where
  pub inside : entry.raw_offset + entry.raw_size ≤ file.size
  pub covers : entry.raw_size ≤ entry.virtual_size
  pub whole : entry.executable ≡ true → IsSlice file entry.raw_offset entry.raw_size entry.code

pub record IsPlaced (file : BoundedStream) (sections : List Section) : Type 0 where
  pub each : All (IsSection file) sections
  pub apart : Pairwise Apart sections

pub record IsOf (file : BoundedStream) (s : Recovery) : Type 0 where
  pub later : Later file s.stream

module _ (file : BoundedStream) where
  abbrev pub Gives : {A : Type 0} → (A → Type 0) → Search A → Type 0
  Gives P m = Leaves (IsOf file) P m

  -- The image behind a move to `offset`.
  record IsAt (offset : ℕ) (s : Recovery) : Type 0 where
    later : Later file s.stream
    moved : s.stream.cursor ≡ offset

  seek-IsAt :
      (offset : ℕ) (s : Recovery)
      → IsOf file s
      → ReturnsIn (IsOf file) (IsAt offset) (reading (seek_absolute (pos offset)) s)
  seek-IsAt offset s i =
      go (seek_absolute (pos offset) s.stream) (seek_absolute-Ensures s.stream offset)
    where
      go :
          (r : Result (Unit {0} × BoundedStream))
          → Ensures
              (λ (p : Unit {0} × BoundedStream).
                (p.1 ≡ record s.stream { cursor = offset }) × (offset ≤ s.stream.size))
              r
          → ReturnsIn (IsOf file) (IsAt offset) (after_read s r)
      go (throw e) k = i
      go (ok (u, t)) k =
          let same : t ≡ record s.stream { cursor = offset } = (k.at (u, t) refl).0 in
          record { later = ground (arith, i.later, same); moved = ground (arith, same) }

  read-IsSlice :
      (offset count : ℕ) (s : Recovery)
      → IsAt offset s
      → Ended (IsOf file) (IsSlice file offset count) (reading (read_exact count) s)
  read-IsSlice offset count s at =
      go (read_exact count s.stream) (read_exact-Ensures count s.stream)
    where
      go :
          (r : Result (List ℕ × BoundedStream))
          → Ensures (λ (p : List ℕ × BoundedStream). ReadsExact count s.stream p.0 p.1) r
          → Ended (IsOf file) (IsSlice file offset count) (after_read s r)
      go (throw e) k = record { later = at.later }
      go (ok (bytes, t)) k =
          let reads : ReadsExact count s.stream bytes t = k.at (bytes, t) refl in
          (
            record {
              bytes_there =
                  reads.bytes
                  ∙ ap (λ (c : List ℕ). take count (drop s.stream.cursor c)) at.later.content
                  ∙ ap (λ (o : ℕ). take count (drop o file.content)) at.moved;
              counted = reads.count;
            },
            record { later = Later-trans at.later reads.later },
          )

  pub Gives-image_size : Gives (λ size. size ≡ file.size) image_size
  Gives-image_size = record { ends = λ s i. (i.later.size, i) }

  module _ (limits : KeyRecoveryLimits) where
    Gives-charge_scanned : (amount : ℕ) → Gives Any (charge_scanned limits amount)
    unfolding charge_scanned
    Gives-charge_scanned amount = record {
      ends = λ s i. go s i (charge s.budget.scanned_bytes amount limits.max_scanned_bytes) _;
    }
      where
        go :
            (s : Recovery)
            → IsOf file s
            → (o : Option ℕ) (put : ℕ → KeyRecoveryBudget) → Ended (IsOf file) Any (charged o put s)
        go s i none put = i
        go s i (some used) put = (tt, record { later = i.later })

    Gives-authorize_read : (offset count : ℕ) → Gives Any (authorize_read limits offset count)
    unfolding authorize_read
    Gives-authorize_read offset count =
        Leaves-bind (IsOf file) (λ size. size ≡ file.size) Any image_size _ Gives-image_size
          λ size e.
            Leaves-bind (IsOf file) (λ u. (ltb size offset || ltb (size - offset) count) ≡ false)
              Any _ _
              (Leaves-reject (IsOf file) (ltb size offset || ltb (size - offset) count)
                (key_recovery_error "PE range outside source"))
              λ u f. Gives-charge_scanned count

    Gives-read_bytes :
        (offset count : ℕ) → Gives (IsSlice file offset count) (read_bytes limits offset count)
    unfolding read_bytes
    Gives-read_bytes offset count =
        Leaves-after (IsOf file) (IsAt offset) (IsSlice file offset count)
          (reading (seek_absolute (pos offset))) _ (seek-IsAt offset)
          λ u s at. read-IsSlice offset count s at

    pub Gives-read :
        (offset count : ℕ) → Gives (IsSlice file offset count) (read limits offset count)
    unfolding read
    Gives-read offset count =
        Leaves-bind (IsOf file) Any (IsSlice file offset count) _ _
          (Gives-authorize_read offset count) λ u v. Gives-read_bytes offset count

    abbrev pub IsCode : Section → List ℕ → Type 0
    IsCode entry code = entry.executable ≡ true → IsSlice file entry.raw_offset entry.raw_size code

    pub Gives-read_code : (entry : Section) → Gives (IsCode entry) (read_code limits entry)
    unfolding read_code
    Gives-read_code entry =
        Leaves-choose (IsOf file) (IsCode entry) entry.executable _ _
          (λ e.
            Leaves-weaken (IsOf file) (IsSlice file entry.raw_offset entry.raw_size) (IsCode entry)
              _ (Gives-read entry.raw_offset entry.raw_size) λ code h k. h)
          (λ e. Leaves-pure (IsOf file) (IsCode entry) [] λ k. cc)
