-- ===== src/Godot/Ima.antt =====
-- src/core/codecs/godot_ima_codec.cpp, audio_preflight.cpp: Godot's IMA ADPCM samples. A sample is an
-- integer; the output of `decode_godot_ima_chunk` is what it returns beside the state, which holds
-- the channels in use.
pub mod Bounds
pub mod Decoded
use observer_modules.Prelude.{
  ℕ, zero, suc, ◌+◌, ◌-◌, ◌*◌, ◌/◌, ◌%◌, ◌^◌, min, Bool, true, false, not, ◌&&◌, ◌||◌, List, [],
  ◌∷◌, ◌++◌, ltb, ◌==◌, if◌then◌else◌, length, take, drop, get_or, bit_and, Option, none, some,
}
use observer_modules.Prelude.Int.{ℤ, pos, negsuc, ◌+ℤ◌, lt_ℤ}
use observer_modules.Failure.{audio_error, Result, ok, throw, throw_if, ◌>>=◌, ◌>>◌}

abbrev pub ima_step_table : List ℕ
ima_step_table =
    7 ∷ 8 ∷ 9 ∷ 10 ∷ 11 ∷ 12 ∷ 13 ∷ 14 ∷ 16 ∷ 17 ∷ 19 ∷ 21 ∷ 23 ∷ 25 ∷ 28 ∷ 31 ∷ 34 ∷ 37 ∷ 41 ∷ 45
    ∷ 50 ∷ 55 ∷ 60 ∷ 66 ∷ 73 ∷ 80 ∷ 88 ∷ 97 ∷ 107 ∷ 118 ∷ 130 ∷ 143 ∷ 157 ∷ 173 ∷ 190 ∷ 209 ∷ 230
    ∷ 253 ∷ 279 ∷ 307 ∷ 337 ∷ 371 ∷ 408 ∷ 449 ∷ 494 ∷ 544 ∷ 598 ∷ 658 ∷ 724 ∷ 796 ∷ 876 ∷ 963 ∷ 1060
    ∷ 1166 ∷ 1282 ∷ 1411 ∷ 1552 ∷ 1707 ∷ 1878 ∷ 2066 ∷ 2272 ∷ 2499 ∷ 2749 ∷ 3024 ∷ 3327 ∷ 3660
    ∷ 4026 ∷ 4428 ∷ 4871 ∷ 5358 ∷ 5894 ∷ 6484 ∷ 7132 ∷ 7845 ∷ 8630 ∷ 9493 ∷ 10442 ∷ 11487 ∷ 12635
    ∷ 13899 ∷ 15289 ∷ 16818 ∷ 18500 ∷ 20350 ∷ 22385 ∷ 24623 ∷ 27086 ∷ 29794 ∷ 32767 ∷ []

abbrev pub half_index_table : List ℤ
half_index_table = negsuc 0 ∷ negsuc 0 ∷ negsuc 0 ∷ negsuc 0 ∷ pos 2 ∷ pos 4 ∷ pos 6 ∷ pos 8 ∷ []

abbrev pub ima_index_table : List ℤ
ima_index_table = half_index_table ++ half_index_table

abbrev pub ima_max_step_index : ℕ
ima_max_step_index = 88

pub record ChannelState : Type 0 where
  pub step_index : ℕ
  pub predictor : ℤ

abbrev pub clamp_index : ℤ → ℕ
clamp_index (negsuc n) = 0
clamp_index (pos n) = if ltb ima_max_step_index n then ima_max_step_index else n

abbrev pub clamp_predictor : ℤ → ℤ
clamp_predictor z =
    if lt_ℤ z (negsuc 0x7FFF) then negsuc 0x7FFF else if lt_ℤ (pos 0x7FFF) z then pos 0x7FFF else z

abbrev pub negated : ℕ → ℤ
negated zero = pos 0
negated (suc n) = negsuc n

-- A part of the step, where the nibble has a bit.
abbrev pub part_if : ℕ → ℕ → ℕ → ℕ
part_if nibble bit part = if bit_and nibble bit == 0 then 0 else part

unfoldable pub difference_of : ℕ → ℕ → ℤ
difference_of nibble step =
    let difference : ℕ =
      step / 8
      + part_if nibble 1 (step / 4)
      + part_if nibble 2 (step / 2)
      + part_if nibble 4 step in
    if bit_and nibble 8 == 0 then pos difference else negated difference

unfoldable pub decode_nibble : ℕ → Bool → ChannelState → ChannelState
unfolding difference_of
decode_nibble packed high_nibble state =
    let nibble : ℕ = if high_nibble then packed / 16 else bit_and packed 0x0F in
    let step : ℕ = get_or ima_step_table state.step_index 0 in
    record {
      step_index = clamp_index (pos state.step_index +ℤ get_or ima_index_table nibble (pos 0));
      predictor = clamp_predictor (state.predictor +ℤ difference_of nibble step);
    }

-- The loop over the channels of one frame: `lanes` are the bytes from the frame's base on.
unfoldable pub decode_lanes : Bool → List ℕ → List ChannelState → List ℤ × List ChannelState
unfolding decode_nibble
decode_lanes high lanes [] = ([], [])
decode_lanes high [] (state ∷ states) = ([], state ∷ states)
decode_lanes high (packed ∷ lanes) (state ∷ states) =
    let next : ChannelState = decode_nibble packed high state in
    let rest : List ℤ × List ChannelState = decode_lanes high lanes states in
    (next.predictor ∷ rest.0, next ∷ rest.1)

-- The loop over the frames, with those that are left.
unfoldable pub decode_frames : ℕ → ℕ → ℕ → List ℕ → List ChannelState → List ℤ × List ChannelState
unfolding decode_lanes
decode_frames zero frame channels packed states = ([], states)
decode_frames (suc left) frame channels packed states =
    let lanes : List ℕ = drop (frame / 2 * channels) packed in
    let now : List ℤ × List ChannelState = decode_lanes (frame % 2 == 1) lanes states in
    let rest : List ℤ × List ChannelState = decode_frames left (frame + 1) channels packed now.1 in
    (now.0 ++ rest.0, rest.1)

abbrev pub max_size : ℕ
max_size = 2 ^ 64 - 1

abbrev pub unsupported_channels : ℕ → Bool
unsupported_channels channels = not (channels == 1) && not (channels == 2)

-- `size` is the count of samples that the output has room for.
unfoldable pub decode_godot_ima_chunk :
    List ℕ → ℕ → ℕ → List ChannelState → ℕ → Result (List ℤ × List ChannelState)
unfolding decode_frames
decode_godot_ima_chunk packed channels frames state size =
    if unsupported_channels channels
      || frames == 0
      || ltb (max_size / channels) frames
      || not (size == frames * channels)
      || not (length packed == (frames + 1) / 2 * channels)
    then throw (audio_error "godot-ima: a streaming chunk has invalid geometry")
    else ok (decode_frames frames 0 channels packed state)

unfoldable pub interleaved_sample_count : ℕ → ℕ → Result ℕ
interleaved_sample_count frames channels =
    if not (frames == 0) && ltb (max_size / frames) channels
    then throw (audio_error "audio: the interleaved sample count is not representable")
    else ok (frames * channels)

pub record AudioLimits : Type 0 where
  pub max_input_bytes : ℕ
  pub max_pcm_frames : ℕ
  pub max_output_bytes : ℕ

pub record PcmAudio : Type 0 where
  pub sample_rate : ℕ
  pub channels : ℕ
  pub samples : List ℤ

-- How many frames are decoded, out of what the payload holds.
unfoldable pub frames_of : Option ℕ → ℕ → Result ℕ
frames_of none capacity = ok capacity
frames_of (some declared) capacity = do
  throw_if (declared == 0) (audio_error "godot-ima: a declared frame count must be positive")
  throw_if (ltb capacity declared || ltb (declared + 1) capacity)
      (audio_error "godot-ima: the declared frame count disagrees with the encoded capacity")
  ok declared

abbrev pub initial_states : ℕ → List ChannelState
initial_states zero = []
initial_states (suc n) = record { step_index = 0; predictor = pos 0 } ∷ initial_states n

unfoldable pub decode_ima : List ℕ → ℕ → ℕ → Option ℕ → AudioLimits → Result PcmAudio
unfolding interleaved_sample_count frames_of decode_frames
decode_ima input channels sample_rate declared_frames limits = do
  throw_if (unsupported_channels channels)
      (audio_error "godot-ima: only mono and stereo payloads are supported")
  throw_if (sample_rate == 0) (audio_error "godot-ima: the sample rate must be non-zero")
  throw_if (ltb limits.max_input_bytes (length input))
      (audio_error "godot-ima: input exceeds the configured input byte limit")
  throw_if (ltb (length input) channels)
      (audio_error "godot-ima: the payload is shorter than one interleaved frame")
  throw_if (channels == 2 && not (length input % 2 == 0))
      (audio_error "godot-ima: a stereo payload must be byte-interleaved")
  nibbles ← interleaved_sample_count (length input) 2
  frames ← frames_of declared_frames (nibbles / channels)
  throw_if (ltb limits.max_pcm_frames frames)
      (audio_error "godot-ima: the frame count exceeds the configured limit")
  throw_if (ltb (limits.max_output_bytes / 2) (frames * channels))
      (audio_error "godot-ima: decoded size exceeds the configured output byte limit")
  ok (record {
    sample_rate = sample_rate;
    channels = channels;
    samples = (decode_frames frames 0 channels input (initial_states channels)).0;
  })
