-- ===== src/Tests/Keys.antt =====
-- src/core/godot/key_recovery.cpp on an image of two sections, one of them executable, with a decoder
-- that knows the instruction at the entry.
use observer_modules.Prelude.{
  ℕ, ◌≡◌, refl, inl, inr, ◌==◌, true, false, List, [], ◌∷◌, ◌++◌, none, some, if◌then◌else◌, arith,
}
use observer_modules.Failure.{ok}
use observer_modules.Godot.Keys.State.{KeyRecoveryLimits, KeyRecoveryBudget, Recovery, done}
use observer_modules.Godot.Keys.Image.{Section, parse}
use observer_modules.Godot.Keys.Image.Inside.{IsPlaced}
use observer_modules.Godot.Keys.Image.{holds_range, mapped}
use observer_modules.Godot.Keys.Image.Mapped.{mapped-parse}
use observer_modules.Godot.Keys.Image.Parsed.{parse-IsPlaced}
use observer_modules.Godot.Keys.Pattern.{Instruction, Decoder}
use observer_modules.Godot.Keys.Consume.{zeros}
use observer_modules.Godot.Keys.Run.{recover_key_candidates}
use observer_modules.Godot.Keys.Bounded.Passes.{StaysInside, recover_key_candidates-StaysInside}

abbrev limits : KeyRecoveryLimits
limits = record {
  max_scanned_bytes = 10000;
  max_instructions = 100;
  max_candidates = 4;
  max_pattern_instructions = 8;
}

abbrev fresh : KeyRecoveryBudget
fresh = record { scanned_bytes = 0; instructions = 0; candidates = 0 }

abbrev code : List ℕ
code = 71 ∷ 68 ∷ 80 ∷ 67 ∷ 144 ∷ 144 ∷ 144 ∷ 144 ∷ []

abbrev key : List ℕ
key =
    1 ∷ 2 ∷ 3 ∷ 4 ∷ 5 ∷ 6 ∷ 7 ∷ 8 ∷ 9 ∷ 10 ∷ 11 ∷ 12 ∷ 13 ∷ 14 ∷ 15 ∷ 16 ∷ 17 ∷ 18 ∷ 19 ∷ 20 ∷ 21
    ∷ 22 ∷ 23 ∷ 24 ∷ 25 ∷ 26 ∷ 27 ∷ 28 ∷ 29 ∷ 30 ∷ 31 ∷ 32 ∷ []

unfoldable portable : List ℕ
unfolding zeros
portable =
    (77 ∷ 90 ∷ [])
    ++ zeros 58
    ++ (64 ∷ 0 ∷ 0 ∷ 0 ∷ [])
    ++ (80 ∷ 69 ∷ 0 ∷ 0 ∷ 76 ∷ 1 ∷ 2 ∷ [])
    ++ zeros 13
    ++ (64 ∷ 0 ∷ 0 ∷ 0 ∷ [])
    ++ (11 ∷ 1 ∷ [])
    ++ zeros 62
    ++ zeros 8
    ++ (8 ∷ [])
    ++ zeros 4
    ++ (16 ∷ 0 ∷ 0 ∷ 8 ∷ 0 ∷ 0 ∷ 0 ∷ 232 ∷ [])
    ++ zeros 18
    ++ (32 ∷ [])
    ++ zeros 8
    ++ (32 ∷ [])
    ++ zeros 4
    ++ (32 ∷ 0 ∷ 0 ∷ 32 ∷ 0 ∷ 0 ∷ 0 ∷ 240 ∷ [])
    ++ zeros 19
    ++ code
    ++ key

abbrev loads_key : Instruction
loads_key = record {
  addresses = 0x2000 ∷ [];
  call_target = none;
  indexed_displacement = none;
  length = 4;
  size32 = true;
  pack_magic = true;
  bit_xor = false;
  returns = false;
}

abbrev leaves : Instruction
leaves = record {
  addresses = [];
  call_target = none;
  indexed_displacement = none;
  length = 1;
  size32 = false;
  pack_magic = false;
  bit_xor = false;
  returns = true;
}

abbrev decoder : Decoder
decoder bytes address wide = if address == 0x1000 then some loads_key else some leaves

recovers :
    recover_key_candidates decoder limits (record { content = portable; cursor = 0 }) fresh
    ≡ (ok (key ∷ []), record { scanned_bytes = 276; instructions = 3; candidates = 1 })
unfolding recover_key_candidates portable
recovers = refl

recover_key_candidates-StaysInside_example :
    StaysInside decoder limits fresh
      (recover_key_candidates decoder limits (record { content = portable; cursor = 0 }) fresh)
recover_key_candidates-StaysInside_example =
    recover_key_candidates-StaysInside decoder limits (record { content = portable; cursor = 0 })
      fresh (record { scanned = omega arith; decoded = omega arith; admitted = omega arith })

abbrev opened : Recovery
opened = record {
  stream = record { content = portable; cursor = 0; size = 272 };
  budget = fresh;
  globals = [];
  candidates = [];
}

abbrev code_section : Section
code_section = record {
  address = 0x1000;
  virtual_size = 8;
  raw_offset = 232;
  raw_size = 8;
  executable = true;
  code = code;
}

abbrev key_section : Section
key_section = record {
  address = 0x2000;
  virtual_size = 32;
  raw_offset = 240;
  raw_size = 32;
  executable = false;
  code = [];
}

abbrev sections : List Section
sections = code_section ∷ key_section ∷ []

abbrev parsed : Recovery
parsed = record {
  stream = record { content = portable; cursor = 240; size = 272 };
  budget = record { scanned_bytes = 240; instructions = 0; candidates = 0 };
  globals = [];
  candidates = [];
}

parses :
    parse limits opened
    ≡ done (some (record { sections = sections; base = 0; wide = false })) parsed
unfolding parse portable
parses = refl

parse-IsPlaced_example : IsPlaced opened.stream sections
parse-IsPlaced_example =
    parse-IsPlaced limits opened parsed (record { sections = sections; base = 0; wide = false })
      parses

key_section-holds_range : holds_range key_section 0x2000 32 false true ≡ true
unfolding holds_range
key_section-holds_range = refl

mapped-parse_example : mapped sections 0x2000 32 false true ≡ some key_section
mapped-parse_example =
    mapped-parse limits opened parsed (record { sections = sections; base = 0; wide = false })
      0x2000 32 false true key_section parses (omega arith) (inr (inl refl)) key_section-holds_range
