-- ===== src/Godot/Keys/Run.antt =====
-- src/core/godot/key_recovery.cpp: the passes over the executable sections.
use observer_modules.Prelude.{
  ℕ, zero, suc, ◌+◌, ◌-◌, ◌==◌, Bool, true, false, ◌&&◌, ◌||◌, List, [], ◌∷◌, Option, none, some,
  if◌then◌else◌, ltb, leb, length, take, bytes_eq,
}
use observer_modules.Failure.{Exception, Result, ok, throw, stream_read, key_recovery_error}
use observer_modules.Stream.{BoundedStream, Istream, bounded_stream}
use observer_modules.Godot.Keys.State.{
  KeyRecoveryLimits, KeyRecoveryBudget, Outcome, Search, done, exhausted, failed, pure, ◌>>=◌, ◌>>◌,
  choose, charge_scanned,
}
use observer_modules.Godot.Keys.Image.{Section, Image, mapped, parse}
use observer_modules.Godot.Keys.Pattern.{Decoder, Instruction, Pattern, has_address, decode, window}
use observer_modules.Godot.Keys.Consume.{consume}

abbrev pub magic : List ℕ
magic = 0x47 ∷ 0x44 ∷ 0x50 ∷ 0x43 ∷ []

abbrev pub is_candidate_byte : ℕ → Bool
is_candidate_byte first =
    (leb 0x48 first && leb first 0x4f)
    || (leb 0xb8 first && leb first 0xbf)
    || first == 0x8d
    || first == 0x8b

abbrev pub has_magic_at : ℕ → ℕ → Option Instruction → Bool
has_magic_at start position none = false
has_magic_at start position (some instruction) =
    instruction.pack_magic && leb (position + 4) (start + instruction.length)

unfoldable pub names_global : List ℕ → List ℕ → Bool
unfolding has_address
names_global globals [] = false
names_global globals (address ∷ rest) = has_address address globals || names_global globals rest

unfoldable pub names_global_of : List ℕ → Option Instruction → Bool
unfolding names_global
names_global_of globals none = false
names_global_of globals (some instruction) = names_global globals instruction.addresses

module _ (decode_x86 : Decoder) (limits : KeyRecoveryLimits) (image : Image) where
  unfoldable pub consume_window : Section → ℕ → Search Pattern
  unfolding window consume
  consume_window entry start = do
    found ← window decode_x86 limits image entry start
    consume limits image found
    pure found

  unfoldable pub consume_call : ℕ → Option Section → Search (Unit {0})
  unfolding consume_window
  consume_call call none = pure tt
  consume_call call (some target) =
      consume_window target (call - target.address) >>= λ found. pure tt

  unfoldable pub consume_calls : List ℕ → Search (Unit {0})
  unfolding consume_call mapped
  consume_calls [] = pure tt
  consume_calls (call ∷ rest) =
      consume_call call (mapped image.sections call 1 true true) >> consume_calls rest

  -- The loop from `begin` to `position`; the first argument is the number of starts that are left.
  unfoldable pub starts_loop : ℕ → Section → ℕ → ℕ → Search (Unit {0})
  unfolding decode consume_window consume_calls
  starts_loop zero entry position start = pure tt
  starts_loop (suc left) entry position start = do
    decoded ← decode decode_x86 limits image entry start
    choose (has_magic_at start position decoded)
        (consume_window entry start >>= λ found. consume_calls found.calls)
        (starts_loop left entry position (suc start))

  abbrev pub starts_before : ℕ → ℕ
  starts_before position = if ltb 14 position then 15 else suc position

  -- The loop over the places of the magic; the third argument is the code from `position` on.
  unfoldable pub magic_loop : Section → ℕ → List ℕ → Search (Unit {0})
  unfolding starts_loop bytes_eq
  magic_loop entry position [] = pure tt
  magic_loop entry position (c ∷ code) =
      choose (bytes_eq (take 4 (c ∷ code)) magic)
        (starts_loop (starts_before position) entry position (position - 14)) (pure tt)
      >> magic_loop entry (suc position) code

  unfoldable pub search_sections : List Section → Search (Unit {0})
  unfolding magic_loop
  search_sections [] = pure tt
  search_sections (entry ∷ rest) =
      choose entry.executable (magic_loop entry 0 entry.code) (pure tt) >> search_sections rest

  unfoldable pub try_initializer : Section → ℕ → Option Instruction → Search (Unit {0})
  unfolding names_global_of consume_window
  try_initializer entry start instruction s =
      choose (names_global_of s.globals instruction)
        (consume_window entry start >>= λ found. pure tt) (pure tt) s

  unfoldable pub initializers_loop : Section → ℕ → List ℕ → Search (Unit {0})
  unfolding try_initializer decode
  initializers_loop entry start [] = pure tt
  initializers_loop entry start (first ∷ code) =
      choose (is_candidate_byte first)
        (decode decode_x86 limits image entry start >>= λ instruction.
          try_initializer entry start instruction)
        (pure tt)
      >> initializers_loop entry (suc start) code

  unfoldable pub initializer_sections : List Section → Search (Unit {0})
  unfolding initializers_loop charge_scanned
  initializer_sections [] = pure tt
  initializer_sections (entry ∷ rest) =
      choose entry.executable
        (charge_scanned limits (length entry.code) >> initializers_loop entry 0 entry.code)
        (pure tt)
      >> initializer_sections rest

  abbrev pub has_globals : List ℕ → Bool
  has_globals [] = false
  has_globals (g ∷ gs) = true

  unfoldable pub find_initializers : Search (Unit {0})
  unfolding initializer_sections
  find_initializers s =
      choose (has_globals s.globals) (initializer_sections image.sections) (pure tt) s

  unfoldable pub scan_image : Search (Unit {0})
  unfolding search_sections find_initializers
  scan_image = search_sections image.sections >> find_initializers

module _ (decode_x86 : Decoder) (limits : KeyRecoveryLimits) where
  unfoldable pub scan_parsed : Option Image → Search (Unit {0})
  unfolding scan_image
  scan_parsed none = pure tt
  scan_parsed (some image) = scan_image decode_x86 limits image

  -- `recognizer::run`, up to what is collected.
  unfoldable pub run : Search (Unit {0})
  unfolding parse scan_parsed
  run =
      choose (limits.max_candidates == 0 || limits.max_pattern_instructions == 0) (pure tt)
        (parse limits >>= λ image. scan_parsed image)

  -- The handler of `io::read_error`.
  abbrev pub as_key_error : Exception → Exception
  as_key_error stream_read = key_recovery_error "PE source read failed"
  as_key_error e = e

  -- What `run` returns, whether the search was exhausted or not, or what leaves the function.
  abbrev pub collected : Outcome (Unit {0}) → Result (List (List ℕ)) × KeyRecoveryBudget
  collected (done u s) = (ok s.candidates, s.budget)
  collected (exhausted s) = (ok s.candidates, s.budget)
  collected (failed e s) = (throw (as_key_error e), s.budget)

  unfoldable pub recover_from :
      KeyRecoveryBudget → Result BoundedStream → Result (List (List ℕ)) × KeyRecoveryBudget
  unfolding run
  recover_from budget (throw e) = (throw (key_recovery_error "PE source read failed"), budget)
  recover_from budget (ok stream) =
      collected (run (record { stream = stream; budget = budget; globals = []; candidates = [] }))

  -- The budget that the caller passes is in the result, as the call leaves it.
  unfoldable pub recover_key_candidates :
      Istream → KeyRecoveryBudget → Result (List (List ℕ)) × KeyRecoveryBudget
  unfolding recover_from bounded_stream
  recover_key_candidates source budget = recover_from budget (bounded_stream source)
