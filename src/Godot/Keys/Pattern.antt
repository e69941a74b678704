-- ===== src/Godot/Keys/Pattern.antt =====
-- src/core/godot/key_recovery.cpp: the patterns of instructions; the decoder of src/core/codecs is a
-- parameter, since it only calls Zydis.
use observer_modules.Prelude.{
  ℕ, zero, suc, ◌+◌, ◌==◌, Bool, true, false, ◌||◌, List, [], ◌∷◌, ◌++◌, Option, none, some,
  if◌then◌else◌, ltb, length, drop,
}
use observer_modules.Godot.Keys.State.{
  KeyRecoveryLimits, Search, pure, ◌>>=◌, ◌>>◌, charge_instruction,
}
use observer_modules.Godot.Keys.Image.{Section, Image, mapped}

-- src/core/codecs/x86_decoder.h: `addresses` is the first `address_count` ones.
pub record Instruction : Type 0 where
  pub addresses : List ℕ
  pub call_target : Option ℕ
  pub indexed_displacement : Option ℕ
  pub length : ℕ
  pub size32 : Bool
  pub pack_magic : Bool
  pub bit_xor : Bool
  pub returns : Bool

-- `decode_x86`: the bytes, their address, and whether the mode is x64.
abbrev pub Decoder : Type 0
Decoder = List ℕ → ℕ → Bool → Option Instruction

pub record Pattern : Type 0 where
  pub references : List ℕ
  pub displacements : List ℕ
  pub calls : List ℕ
  pub xors : ℕ
  pub width32 : Bool
  pub image_base : Bool

abbrev pub empty_pattern : Pattern
empty_pattern = record {
  references = [];
  displacements = [];
  calls = [];
  xors = 0;
  width32 = false;
  image_base = false;
}

unfoldable pub has_address : ℕ → List ℕ → Bool
has_address value [] = false
has_address value (x ∷ xs) = x == value || has_address value xs

unfoldable pub unique_address : List ℕ → ℕ → List ℕ
unfolding has_address
unique_address values value = if has_address value values then values else values ++ (value ∷ [])

unfoldable pub add_unique : List ℕ → Option ℕ → List ℕ
unfolding unique_address
add_unique values none = values
add_unique values (some value) = unique_address values value

abbrev pub is_mapped : Option Section → Bool
is_mapped none = false
is_mapped (some entry) = true

-- The loop over the addresses of an instruction.
unfoldable pub add_references : Image → List ℕ → List ℕ → List ℕ
unfolding mapped unique_address
add_references image [] references = references
add_references image (address ∷ rest) references = add_references image rest (
    if is_mapped (mapped image.sections address 32 false false)
    then unique_address references address
    else references)

unfoldable pub add_instruction : Image → Instruction → Pattern → Pattern
unfolding add_references add_unique has_address
add_instruction image instruction p = record {
  references = add_references image instruction.addresses p.references;
  displacements = add_unique p.displacements instruction.indexed_displacement;
  calls = add_unique p.calls instruction.call_target;
  xors = if instruction.bit_xor then suc p.xors else p.xors;
  width32 = p.width32 || instruction.size32;
  image_base = p.image_base || has_address image.base instruction.addresses;
}

module _ (decode_x86 : Decoder) (limits : KeyRecoveryLimits) (image : Image) where
  unfoldable pub decode : Section → ℕ → Search (Option Instruction)
  unfolding charge_instruction
  decode entry start = do
    charge_instruction limits
    pure (decode_x86 (drop start entry.code) (entry.address + start) image.wide)

  -- What a round does with the instruction; `next` is the rest of the loop.
  unfoldable pub window_step :
      Pattern → Option Instruction → (Pattern → ℕ → Search Pattern) → Search Pattern
  unfolding add_instruction
  window_step p none next = pure p
  window_step p (some instruction) next =
      if instruction.returns
      then pure (add_instruction image instruction p)
      else next (add_instruction image instruction p) instruction.length

  -- The first argument is the number of rounds that are left.
  unfoldable pub window_loop : ℕ → Section → ℕ → Pattern → Search Pattern
  unfolding decode window_step
  window_loop zero entry start p = pure p
  window_loop (suc count) entry start p =
      if ltb start (length entry.code)
      then (decode entry start >>= λ instruction.
          window_step p instruction λ q size. window_loop count entry (start + size) q)
      else pure p

  unfoldable pub window : Section → ℕ → Search Pattern
  unfolding window_loop
  window entry start = window_loop limits.max_pattern_instructions entry start empty_pattern
