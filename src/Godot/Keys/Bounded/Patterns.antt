-- ===== src/Godot/Keys/Bounded/Patterns.antt =====
-- src/core/godot/key_recovery.cpp: the windows and their candidates stay inside the allowance.
use observer_modules.Prelude.{
  ℕ, zero, suc, ◌+◌, ◌==◌, Bool, true, false, ◌&&◌, List, [], ◌∷◌, Option, none, some,
  if◌then◌else◌, ltb, leb, length, drop,
}
use observer_modules.Godot.Keys.State.{
  KeyRecoveryLimits, Recovery, Search, pure, ◌>>=◌, with_globals,
}
use observer_modules.Godot.Keys.Image.{Section, Image, mapped, integer}
use observer_modules.Godot.Keys.Pattern.{
  Instruction, Decoder, Pattern, empty_pattern, add_instruction, is_mapped, unique_address, decode,
  window_step, window_loop, window,
}
use observer_modules.Godot.Keys.Consume.{
  zeros, filled, xor_bytes, admit_found, constant, arrays_of, xor_arrays, consume_arrays,
  put_global, consume_pointer, consume_reference, consume_references, consume, pointer_width,
}
use observer_modules.Godot.Keys.Bounded.{
  IsBounded, Bounds, charge_instruction-Bounds, admit-Bounds, pure-Bounds, bind-Bounds,
  choose-Bounds,
}
use observer_modules.Godot.Keys.Bounded.Reads.{data_at-Bounds}

module _ (limits : KeyRecoveryLimits) (start : ℕ) (image : Image) where
  module _ (decode_x86 : Decoder) where
    pub decode-Bounds :
        (entry : Section) (at : ℕ) → Bounds limits start (decode decode_x86 limits image entry at)
    unfolding decode
    decode-Bounds entry at =
        bind-Bounds limits start _ _ (charge_instruction-Bounds limits start) λ u.
          pure-Bounds limits start (decode_x86 (drop at entry.code) (entry.address + at) image.wide)

    window_step-Bounds :
        (p : Pattern) (instruction : Option Instruction) (next : Pattern → ℕ → Search Pattern)
        → ((q : Pattern) (size : ℕ) → Bounds limits start (next q size))
        → Bounds limits start (window_step decode_x86 limits image p instruction next)
    unfolding window_step
    window_step-Bounds p none next h = pure-Bounds limits start p
    window_step-Bounds p (some instruction) next h =
        elim instruction.returns
          as (λ b. Bounds limits start (
            if b
            then pure (add_instruction image instruction p)
            else next (add_instruction image instruction p) instruction.length)) [
              | true ↦ pure-Bounds limits start (add_instruction image instruction p)
              | false ↦ h (add_instruction image instruction p) instruction.length
            ]

    window_loop-Bounds :
        (count : ℕ) (entry : Section) (at : ℕ) (p : Pattern)
        → Bounds limits start (window_loop decode_x86 limits image count entry at p)
    unfolding window_loop
    window_loop-Bounds zero entry at p = pure-Bounds limits start p
    window_loop-Bounds (suc count) entry at p =
        elim (ltb at (length entry.code))
          as (λ b. Bounds limits start (
            if b
            then (decode decode_x86 limits image entry at >>= λ instruction.
                window_step decode_x86 limits image p instruction
                  λ q size. window_loop decode_x86 limits image count entry (at + size) q)
            else pure p)) [
              | true ↦ bind-Bounds limits start _ _ (decode-Bounds entry at) λ instruction.
                  window_step-Bounds p instruction _
                    λ q size. window_loop-Bounds count entry (at + size) q
              | false ↦ pure-Bounds limits start p
            ]

    pub window-Bounds :
        (entry : Section) (at : ℕ) → Bounds limits start (window decode_x86 limits image entry at)
    unfolding window
    window-Bounds entry at =
        window_loop-Bounds limits.max_pattern_instructions entry at empty_pattern

  constant-Bounds : (address : ℕ) → Bounds limits start (constant limits image address)
  unfolding constant
  constant-Bounds address =
      bind-Bounds limits start _ _ (data_at-Bounds limits start image.sections address 32)
        admit_found-Bounds
    where
      admit_found-Bounds : (key : Option (List ℕ)) → Bounds limits start (admit_found limits key)
      admit_found-Bounds none = pure-Bounds limits start tt
      admit_found-Bounds (some key) = admit-Bounds limits start key

  xor_arrays-Bounds :
      (arrays : List ℕ) (key : List ℕ) → Bounds limits start (xor_arrays limits image arrays key)
  unfolding xor_arrays
  xor_arrays-Bounds [] key = pure-Bounds limits start key
  xor_arrays-Bounds (address ∷ rest) key =
      bind-Bounds limits start _ _ (data_at-Bounds limits start image.sections address 32)
        λ bytes. xor_arrays-Bounds rest (xor_bytes key (filled 32 bytes))

  consume_arrays-Bounds :
      (arrays : List ℕ) → Bounds limits start (consume_arrays limits image arrays)
  unfolding consume_arrays
  consume_arrays-Bounds arrays =
      choose-Bounds limits start (length arrays == 3) _ _
        (bind-Bounds limits start _ _ (xor_arrays-Bounds arrays (zeros 32))
          λ key. admit-Bounds limits start key)
        (pure-Bounds limits start tt)

  put_global-Bounds : (address : ℕ) → Bounds limits start (put_global limits image address)
  unfolding put_global
  put_global-Bounds address = record { ends = λ s i. go s i (ltb (length s.globals) 32) }
    where
      go :
          (s : Recovery)
          → IsBounded limits start s
          → (b : Bool)
          → Unit {0}
            × IsBounded limits start
                (if b then with_globals s (unique_address s.globals address) else s)
      go s i true = (tt, record { budget = i.budget; counted = i.counted; distinct = i.distinct })
      go s i false = (tt, i)

  consume_pointer-Bounds :
      (address : ℕ) → Bounds limits start (consume_pointer limits image address)
  unfolding consume_pointer
  consume_pointer-Bounds address =
      bind-Bounds limits start _ _
        (data_at-Bounds limits start image.sections address (pointer_width limits image))
        λ pointer.
          bind-Bounds limits start _ _
            (constant-Bounds (integer (filled 32 pointer) 0 (pointer_width limits image)))
            λ u. constant-Bounds address

  consume_references-Bounds :
      (references : List ℕ) → Bounds limits start (consume_references limits image references)
  unfolding consume_references consume_reference
  consume_references-Bounds [] = pure-Bounds limits start tt
  consume_references-Bounds (address ∷ rest) =
      bind-Bounds limits start _ _
        (choose-Bounds limits start (is_mapped (mapped image.sections address 32 false true)) _ _
          (consume_pointer-Bounds address) (put_global-Bounds address))
        λ u. consume_references-Bounds rest

  pub consume-Bounds : (value : Pattern) → Bounds limits start (consume limits image value)
  unfolding consume
  consume-Bounds value =
      choose-Bounds limits start value.width32 _ _
        (bind-Bounds limits start _ _
          (choose-Bounds limits start (value.image_base && leb 2 value.xors) _ _
            (consume_arrays-Bounds (arrays_of limits image value.displacements []))
            (pure-Bounds limits start tt))
          λ u. consume_references-Bounds value.references)
        (pure-Bounds limits start tt)
