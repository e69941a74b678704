-- ===== src/Godot/Keys/Bounded/Reads.antt =====
-- src/core/godot/key_recovery.cpp: the reads of the image stay inside the allowance.
use observer_modules.Prelude.{
  ℕ, zero, suc, ◌+◌, ◌*◌, ◌==◌, Bool, not, List, [], ◌∷◌, ◌++◌, Option, none, some, ltb, take, drop,
}
use observer_modules.Prelude.Int.{pos}
use observer_modules.Stream.{seek_absolute, read_exact}
use observer_modules.Godot.Keys.State.{KeyRecoveryLimits}
use observer_modules.Godot.Keys.Image.{
  Section, image_size, authorize_read, read_bytes, read, read_at, data_at, read_code, parse_section,
  sections_loop, parse_optional, parse_pe, parse_dos, parse, integer, parse_row, image_base,
  overflows, is_outside, overlaps_any, with_code, is_inconsistent, is_unsupported,
}
use observer_modules.Godot.Keys.Bounded.{
  Bounds, reading-Bounds, charge_scanned-Bounds, pure-Bounds, bind-Bounds, choose-Bounds,
  reject-Bounds,
}

module _ (limits : KeyRecoveryLimits) (start : ℕ) where
  image_size-Bounds : Bounds limits start image_size
  image_size-Bounds = record { ends = λ s i. (tt, i) }

  authorize_read-Bounds :
      (offset count : ℕ) → Bounds limits start (authorize_read limits offset count)
  unfolding authorize_read
  authorize_read-Bounds offset count = bind-Bounds limits start _ _ image_size-Bounds λ size.
      bind-Bounds limits start _ _ (reject-Bounds limits start _ _)
        λ u. charge_scanned-Bounds limits start count

  read_bytes-Bounds : (offset count : ℕ) → Bounds limits start (read_bytes limits offset count)
  unfolding read_bytes
  read_bytes-Bounds offset count =
      bind-Bounds limits start _ _ (reading-Bounds limits start (seek_absolute (pos offset)))
        λ u. reading-Bounds limits start (read_exact count)

  read-Bounds : (offset count : ℕ) → Bounds limits start (read limits offset count)
  unfolding read
  read-Bounds offset count =
      bind-Bounds limits start _ _ (authorize_read-Bounds offset count)
        λ u. read_bytes-Bounds offset count

  read_at-Bounds :
      (entry : Option Section) (address count : ℕ)
      → Bounds limits start (read_at limits entry address count)
  unfolding read_at
  read_at-Bounds none address count = pure-Bounds limits start none
  read_at-Bounds (some entry) address count =
      bind-Bounds limits start _ _ (authorize_read-Bounds _ count) λ u.
        bind-Bounds limits start _ _ (read_bytes-Bounds _ count)
          λ bytes. pure-Bounds limits start (some bytes)

  pub data_at-Bounds :
      (sections : List Section) (address count : ℕ)
      → Bounds limits start (data_at limits sections address count)
  unfolding data_at
  data_at-Bounds sections address count = read_at-Bounds _ address count

  read_code-Bounds : (entry : Section) → Bounds limits start (read_code limits entry)
  unfolding read_code
  read_code-Bounds entry =
      choose-Bounds limits start entry.executable _ _ (read-Bounds _ _)
        (pure-Bounds limits start [])

  parse_section-Bounds :
      (base : ℕ) (sections : List Section) (row : List ℕ)
      → Bounds limits start (parse_section limits base sections row)
  unfolding parse_section
  parse_section-Bounds base sections row =
      bind-Bounds limits start _ _ (reject-Bounds limits start (overflows base row) _) λ u.
        bind-Bounds limits start _ _ image_size-Bounds λ size.
          bind-Bounds limits start _ _
            (reject-Bounds limits start (is_outside size (parse_row base row)) _)
            λ v.
              bind-Bounds limits start _ _
                (reject-Bounds limits start (overlaps_any (parse_row base row) sections) _)
                λ w.
                  bind-Bounds limits start _ _ (read_code-Bounds (parse_row base row))
                    λ code. pure-Bounds limits start (with_code (parse_row base row) code)

  sections_loop-Bounds :
      (base count : ℕ) (sections : List Section) (table : List ℕ)
      → Bounds limits start (sections_loop limits base count sections table)
  unfolding sections_loop
  sections_loop-Bounds base zero sections table = pure-Bounds limits start sections
  sections_loop-Bounds base (suc count) sections table =
      bind-Bounds limits start _ _ (parse_section-Bounds base sections (take 40 table))
        λ entry. sections_loop-Bounds base count (sections ++ (entry ∷ [])) (drop 40 table)

  parse_optional-Bounds :
      (optional_offset optional_size count : ℕ) (wide : Bool)
      → Bounds limits start (parse_optional limits optional_offset optional_size count wide)
  unfolding parse_optional
  parse_optional-Bounds optional_offset optional_size count wide =
      bind-Bounds limits start _ _ (read-Bounds optional_offset optional_size) λ optional.
        bind-Bounds limits start _ _ (reject-Bounds limits start (is_inconsistent optional wide) _)
          λ u.
            bind-Bounds limits start _ _
              (read-Bounds (optional_offset + optional_size) (count * 40))
              λ table.
                bind-Bounds limits start _ _
                  (sections_loop-Bounds (image_base optional wide) count [] table)
                  λ sections. pure-Bounds limits start (
                    some (record {
                      sections = sections;
                      base = image_base optional wide;
                      wide = wide;
                    }))

  parse_pe-Bounds : (offset : ℕ) → Bounds limits start (parse_pe limits offset)
  unfolding parse_pe
  parse_pe-Bounds offset = bind-Bounds limits start _ _ (read-Bounds offset 24) λ pe.
      bind-Bounds limits start _ _ (reject-Bounds limits start (not (integer pe 0 4 == 0x4550)) _)
        λ u.
          bind-Bounds limits start _ _
            (reject-Bounds limits start
              (is_unsupported (integer pe 4 2) (integer pe 6 2) (integer pe 20 2)) _)
            λ v.
              parse_optional-Bounds (offset + 24) (integer pe 20 2) (integer pe 6 2)
                (integer pe 4 2 == 0x8664)

  pub parse-Bounds : Bounds limits start (parse limits)
  unfolding parse parse_dos
  parse-Bounds = bind-Bounds limits start _ _ image_size-Bounds λ size.
      choose-Bounds limits start (ltb size 64) _ _ (pure-Bounds limits start none) (
        bind-Bounds limits start _ _ (read-Bounds 0 64) λ dos.
          choose-Bounds limits start (integer dos 0 2 == 0x5a4d) _ _
            (parse_pe-Bounds (integer dos 0x3c 4)) (pure-Bounds limits start none))
