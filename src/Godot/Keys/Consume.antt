-- ===== src/Godot/Keys/Consume.antt =====
-- src/core/godot/key_recovery.cpp: the candidates that a pattern gives.
use observer_modules.Prelude.{
  ℕ, zero, suc, ◌+◌, ◌-◌, ◌==◌, Bool, true, false, ◌&&◌, ◌||◌, List, [], ◌∷◌, ◌++◌, Option, none,
  some, if◌then◌else◌, ltb, leb, length, bit_xor, bytes_eq,
}
use observer_modules.Godot.Keys.State.{
  KeyRecoveryLimits, Search, done, pure, ◌>>=◌, ◌>>◌, choose, charge_candidate, with_globals,
  with_candidates,
}
use observer_modules.Godot.Keys.Image.{Image, integer, max_u64, mapped, data_at}
use observer_modules.Godot.Keys.Pattern.{Pattern, unique_address, is_mapped}

unfoldable pub has_key : List ℕ → List (List ℕ) → Bool
unfolding bytes_eq
has_key key [] = false
has_key key (known ∷ rest) = bytes_eq known key || has_key key rest

unfoldable pub zeros : ℕ → List ℕ
zeros zero = []
zeros (suc n) = 0 ∷ zeros n

unfoldable pub xor_bytes : List ℕ → List ℕ → List ℕ
xor_bytes [] bytes = []
xor_bytes (k ∷ key) [] = k ∷ key
xor_bytes (k ∷ key) (b ∷ bytes) = bit_xor k b ∷ xor_bytes key bytes

-- What a buffer of zeros holds after a call of `data`.
unfoldable pub filled : ℕ → Option (List ℕ) → List ℕ
unfolding zeros
filled width none = zeros width
filled width (some bytes) = bytes

abbrev pub put_candidate : List ℕ → Search (Unit {0})
put_candidate key s = done tt (with_candidates s (s.candidates ++ (key ∷ [])))

module _ (limits : KeyRecoveryLimits) where
  unfoldable pub admit : List ℕ → Search (Unit {0})
  unfolding has_key charge_candidate
  admit key s =
      choose (has_key key s.candidates) (pure tt) (charge_candidate limits >> put_candidate key) s

  unfoldable pub admit_found : Option (List ℕ) → Search (Unit {0})
  unfolding admit
  admit_found none = pure tt
  admit_found (some key) = admit key

module _ (limits : KeyRecoveryLimits) (image : Image) where
  unfoldable pub constant : ℕ → Search (Unit {0})
  unfolding data_at admit_found
  constant address = do key ← data_at limits image.sections address 32; admit_found limits key

  -- The image-relative constant arrays that the displacements name.
  unfoldable pub arrays_of : List ℕ → List ℕ → List ℕ
  unfolding mapped unique_address
  arrays_of [] arrays = arrays
  arrays_of (displacement ∷ rest) arrays = arrays_of rest (
      if leb displacement (max_u64 - image.base)
        && is_mapped (mapped image.sections (image.base + displacement) 32 false true)
      then unique_address arrays (image.base + displacement)
      else arrays)

  unfoldable pub xor_arrays : List ℕ → List ℕ → Search (List ℕ)
  unfolding data_at filled xor_bytes
  xor_arrays [] key = pure key
  xor_arrays (address ∷ rest) key = do
    bytes ← data_at limits image.sections address 32
    xor_arrays rest (xor_bytes key (filled 32 bytes))

  unfoldable pub consume_arrays : List ℕ → Search (Unit {0})
  unfolding xor_arrays admit zeros
  consume_arrays arrays =
      choose (length arrays == 3) (xor_arrays arrays (zeros 32) >>= λ key. admit limits key)
        (pure tt)

  unfoldable pub put_global : ℕ → Search (Unit {0})
  unfolding unique_address
  put_global address s =
      done tt
        (if ltb (length s.globals) 32 then with_globals s (unique_address s.globals address) else s)

  abbrev pub pointer_width : ℕ
  pointer_width = if image.wide then 8 else 4

  unfoldable pub consume_pointer : ℕ → Search (Unit {0})
  unfolding data_at filled constant integer
  consume_pointer address = do
    pointer ← data_at limits image.sections address pointer_width
    constant (integer (filled 32 pointer) 0 pointer_width)
    constant address

  unfoldable pub consume_reference : ℕ → Search (Unit {0})
  unfolding mapped consume_pointer put_global
  consume_reference address =
      choose (is_mapped (mapped image.sections address 32 false true)) (consume_pointer address)
        (put_global address)

  unfoldable pub consume_references : List ℕ → Search (Unit {0})
  unfolding consume_reference
  consume_references [] = pure tt
  consume_references (address ∷ rest) = consume_reference address >> consume_references rest

  unfoldable pub consume : Pattern → Search (Unit {0})
  unfolding arrays_of consume_arrays consume_references
  consume value =
      choose value.width32
        (choose (value.image_base && leb 2 value.xors)
            (consume_arrays (arrays_of value.displacements [])) (pure tt)
          >> consume_references value.references)
        (pure tt)
