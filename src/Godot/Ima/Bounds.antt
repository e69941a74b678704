-- ===== src/Godot/Ima/Bounds.antt =====
-- src/core/codecs/godot_ima_codec.cpp: the range of the samples, and how many there are.
use mathlib.Core.Path.{subst}
use observer_modules.Prelude.{
  ℕ, zero, suc, ◌+◌, ◌*◌, ◌%◌, ◌≤◌, ◌<◌, ◌≡◌, refl, Bool, List, [], ◌∷◌, length, ◌/◌, bit_and,
  get_or, if◌then◌else◌, ap, sym, ◌∙◌, ◌⊎◌, inl, inr, length-append, length-drop, All, All-append,
  drop, ◌==◌, arith,
}
use observer_modules.Prelude.Int.{ℤ, pos, negsuc, ◌+ℤ◌}
use observer_modules.Godot.Ima.{
  ChannelState, clamp_index, clamp_predictor, ima_max_step_index, difference_of, ima_index_table,
  ima_step_table, decode_nibble, decode_lanes, decode_frames,
}

-- A value of int16_t.
abbrev pub IsInt16 : ℤ → Type 0
IsInt16 (pos n) = n < 0x8000
IsInt16 (negsuc n) = n < 0x8000

pub record IsChannel (state : ChannelState) : Type 0 where
  pub in_table : state.step_index ≤ ima_max_step_index
  pub in_range : IsInt16 state.predictor

clamp_predictor-IsInt16 : (z : ℤ) → IsInt16 (clamp_predictor z)
clamp_predictor-IsInt16 (pos n) = ground arith
clamp_predictor-IsInt16 (negsuc n) = ground arith

clamp_index_bound : (z : ℤ) → clamp_index z ≤ ima_max_step_index
clamp_index_bound (pos n) = ground arith
clamp_index_bound (negsuc n) = omega arith

decode_nibble-IsChannel :
    (packed : ℕ) (high : Bool) (state : ChannelState) → IsChannel (decode_nibble packed high state)
unfolding decode_nibble
decode_nibble-IsChannel packed high state =
    let nibble : ℕ = if high then packed / 16 else bit_and packed 0x0F in
    record {
      in_table = clamp_index_bound (pos state.step_index +ℤ get_or ima_index_table nibble (pos 0));
      in_range =
          clamp_predictor-IsInt16
            (state.predictor +ℤ difference_of nibble (get_or ima_step_table state.step_index 0));
    }

-- One frame gives a sample for each channel.
abbrev IsFrame : ℕ → List ℤ × List ChannelState → Type 0
IsFrame channels (samples, states) =
    All IsInt16 samples × (length samples ≡ channels) × (length states ≡ channels)

decode_lanes-IsFrame :
    (high : Bool) (lanes : List ℕ) (states : List ChannelState)
    → length states ≤ length lanes
    → IsFrame (length states) (decode_lanes high lanes states)
unfolding decode_lanes
decode_lanes-IsFrame high lanes [] h = (tt, refl, refl)
decode_lanes-IsFrame high [] (state ∷ states) h = absurd (omega arith)
decode_lanes-IsFrame high (packed ∷ lanes) (state ∷ states) h =
    let (sound, count, same) = decode_lanes-IsFrame high lanes states (omega arith) in
    (((decode_nibble-IsChannel packed high state).in_range, sound), ap suc count, ap suc same)

-- The bytes of a frame are in the payload, if those of the last one are.
frame_fits :
    (channels frame left bytes : ℕ)
    → (channels ≡ 1) ⊎ (channels ≡ 2)
    → (frame + suc left + 1) / 2 * channels ≤ bytes
    → frame / 2 * channels + channels ≤ bytes
frame_fits channels frame left bytes (inl e) h =
    subst (λ c. frame / 2 * c + c ≤ bytes) (sym e)
      (one (subst (λ c. (frame + suc left + 1) / 2 * c ≤ bytes) e h))
  where
    one : (frame + suc left + 1) / 2 * 1 ≤ bytes → frame / 2 * 1 + 1 ≤ bytes
    one k = omega arith
frame_fits channels frame left bytes (inr e) h =
    subst (λ c. frame / 2 * c + c ≤ bytes) (sym e)
      (two (subst (λ c. (frame + suc left + 1) / 2 * c ≤ bytes) e h))
  where
    two : (frame + suc left + 1) / 2 * 2 ≤ bytes → frame / 2 * 2 + 2 ≤ bytes
    two k = omega arith

abbrev pub IsPcm : ℕ → List ℤ × List ChannelState → Type 0
IsPcm count (samples, states) = All IsInt16 samples × (length samples ≡ count)

pub decode_frames-IsPcm :
    (left frame channels : ℕ) (packed : List ℕ) (states : List ChannelState)
    → (channels ≡ 1) ⊎ (channels ≡ 2)
    → length states ≡ channels
    → (frame + left + 1) / 2 * channels ≤ length packed
    → IsPcm (left * channels) (decode_frames left frame channels packed states)
unfolding decode_frames
decode_frames-IsPcm zero frame channels packed states c s h = (tt, omega arith)
decode_frames-IsPcm (suc left) frame channels packed states c s h =
    let lanes : List ℕ = drop (frame / 2 * channels) packed in
    let (sound, count, same) = decode_lanes-IsFrame (frame % 2 == 1) lanes states (
      omega (
        arith,
        s,
        length-drop (frame / 2 * channels) packed,
        frame_fits channels frame left (length packed) c h,
      )) in
    let (rest, total) =
      decode_frames-IsPcm left (frame + 1) channels packed
        (decode_lanes (frame % 2 == 1) lanes states).1 c (same ∙ s)
        (subst (λ m. m / 2 * channels ≤ length packed) (omega arith) h) in
    (
      All-append IsInt16 _ _ sound rest,
      omega (
        arith,
        length-append (decode_lanes (frame % 2 == 1) lanes states).0
            (decode_frames left (frame + 1) channels packed
              (decode_lanes (frame % 2 == 1) lanes states).1).0,
        count,
        s,
        total,
      ),
    )
