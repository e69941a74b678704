-- ===== src/Godot/Keys/Bounded/Passes.antt =====
-- src/core/godot/key_recovery.cpp: the whole search stays inside the allowance.
use observer_modules.Prelude.{
  ℕ, zero, suc, ◌+◌, ◌-◌, ◌≤◌, ◌≡◌, ◌==◌, true, ◌||◌, List, [], ◌∷◌, Option, none, some, length,
  take, bytes_eq, Pairwise, arith,
}
use observer_modules.Failure.{Result, ok, throw}
use observer_modules.Stream.{BoundedStream, Istream, bounded_stream}
use observer_modules.Godot.Keys.State.{
  KeyRecoveryLimits, KeyRecoveryBudget, Recovery, Outcome, done, exhausted, failed, pure,
}
use observer_modules.Godot.Keys.State.Keeps.{Ended, Any}
use observer_modules.Godot.Keys.Image.{Section, Image, mapped}
use observer_modules.Godot.Keys.Pattern.{Instruction, Decoder}
use observer_modules.Godot.Keys.Run.{
  magic, is_candidate_byte, has_magic_at, names_global_of, consume_window, consume_call,
  consume_calls, starts_loop, starts_before, magic_loop, search_sections, try_initializer,
  initializers_loop, initializer_sections, has_globals, find_initializers, scan_image, scan_parsed,
  run, collected, recover_from, recover_key_candidates,
}
use observer_modules.Godot.Keys.Bounded.{
  WithinLimits, DiffersKey, IsBounded, Bounds, charge_scanned-Bounds, pure-Bounds, bind-Bounds,
  choose-Bounds,
}
use observer_modules.Godot.Keys.Bounded.Reads.{parse-Bounds}
use observer_modules.Godot.Keys.Bounded.Patterns.{decode-Bounds, window-Bounds, consume-Bounds}

module _ (decode_x86 : Decoder) (limits : KeyRecoveryLimits) (start : ℕ) (image : Image) where
  abbrev nothing : Bounds limits start (pure tt)
  nothing = pure-Bounds limits start tt

  consume_window-Bounds :
      (entry : Section) (at : ℕ)
      → Bounds limits start (consume_window decode_x86 limits image entry at)
  unfolding consume_window
  consume_window-Bounds entry at =
      bind-Bounds limits start _ _ (window-Bounds limits start image decode_x86 entry at) λ found.
        bind-Bounds limits start _ _ (consume-Bounds limits start image found)
          λ u. pure-Bounds limits start found

  consume_call-Bounds :
      (call : ℕ) (target : Option Section)
      → Bounds limits start (consume_call decode_x86 limits image call target)
  unfolding consume_call
  consume_call-Bounds call none = nothing
  consume_call-Bounds call (some target) =
      bind-Bounds limits start _ _ (consume_window-Bounds target (call - target.address))
        λ found. nothing

  consume_calls-Bounds :
      (calls : List ℕ) → Bounds limits start (consume_calls decode_x86 limits image calls)
  unfolding consume_calls
  consume_calls-Bounds [] = nothing
  consume_calls-Bounds (call ∷ rest) =
      bind-Bounds limits start _ _
        (consume_call-Bounds call (mapped image.sections call 1 true true))
        λ u. consume_calls-Bounds rest

  starts_loop-Bounds :
      (left : ℕ) (entry : Section) (position at : ℕ)
      → Bounds limits start (starts_loop decode_x86 limits image left entry position at)
  unfolding starts_loop
  starts_loop-Bounds zero entry position at = nothing
  starts_loop-Bounds (suc left) entry position at =
      bind-Bounds limits start _ _ (decode-Bounds limits start image decode_x86 entry at) λ decoded.
        choose-Bounds limits start (has_magic_at at position decoded) _ _
          (bind-Bounds limits start _ _ (consume_window-Bounds entry at)
            λ found. consume_calls-Bounds found.calls)
          (starts_loop-Bounds left entry position (suc at))

  magic_loop-Bounds :
      (entry : Section) (position : ℕ) (code : List ℕ)
      → Bounds limits start (magic_loop decode_x86 limits image entry position code)
  unfolding magic_loop
  magic_loop-Bounds entry position [] = nothing
  magic_loop-Bounds entry position (c ∷ code) =
      bind-Bounds limits start _ _
        (choose-Bounds limits start (bytes_eq (take 4 (c ∷ code)) magic) _ _
          (starts_loop-Bounds (starts_before decode_x86 limits image position) entry position
            (position - 14))
          nothing)
        λ u. magic_loop-Bounds entry (suc position) code

  search_sections-Bounds :
      (sections : List Section)
      → Bounds limits start (search_sections decode_x86 limits image sections)
  unfolding search_sections
  search_sections-Bounds [] = nothing
  search_sections-Bounds (entry ∷ rest) =
      bind-Bounds limits start _ _
        (choose-Bounds limits start entry.executable _ _ (magic_loop-Bounds entry 0 entry.code)
          nothing)
        λ u. search_sections-Bounds rest

  try_initializer-Bounds :
      (entry : Section) (at : ℕ) (instruction : Option Instruction)
      → Bounds limits start (try_initializer decode_x86 limits image entry at instruction)
  unfolding try_initializer
  try_initializer-Bounds entry at instruction = record {
    ends = λ s i.
        (choose-Bounds limits start (names_global_of s.globals instruction) _ _
            (bind-Bounds limits start _ _ (consume_window-Bounds entry at) λ found. nothing)
            nothing).ends
          s i;
  }

  initializers_loop-Bounds :
      (entry : Section) (at : ℕ) (code : List ℕ)
      → Bounds limits start (initializers_loop decode_x86 limits image entry at code)
  unfolding initializers_loop
  initializers_loop-Bounds entry at [] = nothing
  initializers_loop-Bounds entry at (first ∷ code) =
      bind-Bounds limits start _ _
        (choose-Bounds limits start (is_candidate_byte first) _ _
          (bind-Bounds limits start _ _ (decode-Bounds limits start image decode_x86 entry at)
            λ instruction. try_initializer-Bounds entry at instruction)
          nothing)
        λ u. initializers_loop-Bounds entry (suc at) code

  initializer_sections-Bounds :
      (sections : List Section)
      → Bounds limits start (initializer_sections decode_x86 limits image sections)
  unfolding initializer_sections
  initializer_sections-Bounds [] = nothing
  initializer_sections-Bounds (entry ∷ rest) =
      bind-Bounds limits start _ _
        (choose-Bounds limits start entry.executable _ _
          (bind-Bounds limits start _ _ (charge_scanned-Bounds limits start (length entry.code))
            λ v. initializers_loop-Bounds entry 0 entry.code)
          nothing)
        λ u. initializer_sections-Bounds rest

  scan_image-Bounds : Bounds limits start (scan_image decode_x86 limits image)
  unfolding scan_image find_initializers
  scan_image-Bounds = bind-Bounds limits start _ _ (search_sections-Bounds image.sections) λ u.
      record {
        ends = λ s i.
            (choose-Bounds limits start (has_globals decode_x86 limits image s.globals) _ _
                (initializer_sections-Bounds image.sections) nothing).ends
              s i;
      }

module _ (decode_x86 : Decoder) (limits : KeyRecoveryLimits) where
  run-Bounds : (start : ℕ) → Bounds limits start (run decode_x86 limits)
  unfolding run
  run-Bounds start =
      choose-Bounds limits start
        (limits.max_candidates == 0 || limits.max_pattern_instructions == 0) _ _
        (pure-Bounds limits start tt)
        (bind-Bounds limits start _ _ (parse-Bounds limits start) scan_parsed-Bounds)
    where
      scan_parsed-Bounds :
          (image : Option Image) → Bounds limits start (scan_parsed decode_x86 limits image)
      scan_parsed-Bounds none = pure-Bounds limits start tt
      scan_parsed-Bounds (some image) = scan_image-Bounds decode_x86 limits start image

  -- What a search that was given `before` leaves behind: the counters are inside their limits, and
  -- the keys that it returns are at most 128 different ones, each of them counted.
  abbrev pub StaysInside : KeyRecoveryBudget → Result (List (List ℕ)) × KeyRecoveryBudget → Type 0
  StaysInside before (throw e, after) = WithinLimits limits after
  StaysInside before (ok keys, after) =
      WithinLimits limits after
      × (length keys ≤ 128)
      × (before.candidates + length keys ≡ after.candidates)
      × Pairwise DiffersKey keys

  keys-StaysInside :
      (before : KeyRecoveryBudget) (s : Recovery)
      → IsBounded limits before.candidates s
      → StaysInside before (ok s.candidates, s.budget)
  keys-StaysInside before s i =
      (i.budget, omega (arith, i.counted, i.budget.admitted), i.counted, i.distinct)

  collected-StaysInside :
      (before : KeyRecoveryBudget) (o : Outcome (Unit {0}))
      → Ended (IsBounded limits before.candidates) Any o
      → StaysInside before (collected decode_x86 limits o)
  collected-StaysInside before (done u s) i = keys-StaysInside before s i.1
  collected-StaysInside before (exhausted s) i = keys-StaysInside before s i
  collected-StaysInside before (failed e s) i = i.budget

  -- A search whose budget is inside the limits leaves it inside them, also where it throws. The keys
  -- that it returns, whether its allowance lasts or not, are at most 128 and differ from each other,
  -- and the budget counts each of them.
  pub recover_key_candidates-StaysInside :
      (source : Istream) (budget : KeyRecoveryBudget)
      → WithinLimits limits budget
      → StaysInside budget (recover_key_candidates decode_x86 limits source budget)
  unfolding recover_key_candidates recover_from
  recover_key_candidates-StaysInside source budget h = go (bounded_stream source)
    where
      go :
          (stream : Result BoundedStream)
          → StaysInside budget (recover_from decode_x86 limits budget stream)
      go (throw e) = h
      go (ok stream) = collected-StaysInside budget _ (
          (run-Bounds budget.candidates).ends
            (record { stream = stream; budget = budget; globals = []; candidates = [] })
            (record { budget = h; counted = omega arith; distinct = tt }))
