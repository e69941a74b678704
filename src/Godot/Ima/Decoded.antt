-- ===== src/Godot/Ima/Decoded.antt =====
-- src/core/codecs/godot_ima_codec.cpp: a whole payload.
use mathlib.Core.Path.{subst}
use observer_modules.Prelude.{
  ℕ, zero, suc, ◌+◌, ◌*◌, ◌%◌, ◌≤◌, ◌≡◌, refl, false, Bool, not, List, length, ◌/◌, ap, sym, ◌⊎◌,
  inl, inr, All, ltb, ◌==◌, Option, none, some, arith, ltb-false, ||-eq-false, ◌&&◌, ◌||◌,
}
use observer_modules.Prelude.Int.{ℤ}
use observer_modules.Failure.{ok}
use observer_modules.Failure.Ensures.{
  Ensures, Ensures-ok, Ensures-throw, Ensures-if, Ensures-guard, Ensures-bind,
}
use observer_modules.Godot.Ima.{
  decode_godot_ima_chunk, ChannelState, AudioLimits, PcmAudio, max_size, unsupported_channels,
  interleaved_sample_count, frames_of, initial_states, decode_ima, decode_frames,
}
use observer_modules.Godot.Ima.Bounds.{IsInt16, IsPcm, decode_frames-IsPcm}

length-initial_states : (n : ℕ) → length (initial_states n) ≡ n
length-initial_states zero = refl
length-initial_states (suc n) = ap suc (length-initial_states n)

supported : (channels : ℕ) → unsupported_channels channels ≡ false → (channels ≡ 1) ⊎ (channels ≡ 2)
supported channels h = ground arith

frames_of-Ensures :
    (declared : Option ℕ) (capacity : ℕ)
    → Ensures
        (λ (frames : ℕ). (frames ≤ capacity) × (capacity ≤ frames + 1))
        (frames_of declared capacity)
unfolding frames_of
frames_of-Ensures none capacity = Ensures-ok (omega arith)
frames_of-Ensures (some declared) capacity = Ensures-guard (declared == 0) _ _ λ some.
    Ensures-guard (ltb capacity declared || ltb (declared + 1) capacity) _ _ λ fits.
      let (small, large) = ||-eq-false (ltb capacity declared) (ltb (declared + 1) capacity) fits in
      Ensures-ok (ltb-false _ _ small, ltb-false _ _ large)

interleaved_sample_count-Ensures :
    (frames channels : ℕ)
    → Ensures (λ (count : ℕ). count ≡ frames * channels) (interleaved_sample_count frames channels)
unfolding interleaved_sample_count
interleaved_sample_count-Ensures frames channels =
    Ensures-if (not (frames == 0) && ltb (max_size / frames) channels) (λ e. Ensures-throw _)
      λ e. Ensures-ok refl

-- The frames that the payload has room for end inside it.
payload_fits :
    (channels frames bytes : ℕ)
    → (channels ≡ 1) ⊎ (channels ≡ 2)
    → (channels == 2 && not (bytes % 2 == 0)) ≡ false
    → frames ≤ bytes * 2 / channels
    → (0 + frames + 1) / 2 * channels ≤ bytes
payload_fits channels frames bytes (inl e) even h =
    subst (λ c. (0 + frames + 1) / 2 * c ≤ bytes) (sym e)
      (one (subst (λ c. frames ≤ bytes * 2 / c) e h))
  where
    one : frames ≤ bytes * 2 / 1 → (0 + frames + 1) / 2 * 1 ≤ bytes
    one k = omega arith
payload_fits channels frames bytes (inr e) even h =
    subst (λ c. (0 + frames + 1) / 2 * c ≤ bytes) (sym e)
      (two (subst (λ c. frames ≤ bytes * 2 / c) e h)
        (subst (λ c. (c == 2 && not (bytes % 2 == 0)) ≡ false) e even))
  where
    two : frames ≤ bytes * 2 / 2 → not (bytes % 2 == 0) ≡ false → (0 + frames + 1) / 2 * 2 ≤ bytes
    two k n = ground arith

-- What a decoded payload is: its samples are 16-bit, and there is one for each channel of each frame,
-- where the frames are those that the payload holds, or one fewer.
pub record IsDecoded (bytes : ℕ) (audio : PcmAudio) : Type 0 where
  pub frames : ℕ
  pub whole : (frames ≤ bytes * 2 / audio.channels) × (bytes * 2 / audio.channels ≤ frames + 1)
  pub lanes : (audio.channels ≡ 1) ⊎ (audio.channels ≡ 2)
  pub count : length audio.samples ≡ frames * audio.channels
  pub in_range : All IsInt16 audio.samples

-- A payload that is decoded, with a declared count of frames or without one, is mono or stereo; it
-- gives one 16-bit sample for each channel of each frame that it holds, or of all but the last frame.
pub decode_ima-IsDecoded :
    (input : List ℕ) (channels sample_rate : ℕ) (declared : Option ℕ) (limits : AudioLimits)
    (audio : PcmAudio)
    → decode_ima input channels sample_rate declared limits ≡ ok audio
    → IsDecoded (length input) audio
unfolding decode_ima
decode_ima-IsDecoded input channels sample_rate declared limits audio e = all.at audio e
  where
    all : Ensures (IsDecoded (length input)) (decode_ima input channels sample_rate declared limits)
    all = Ensures-guard (unsupported_channels channels) _ _ λ lanes.
        Ensures-guard (sample_rate == 0) _ _ λ rate.
          Ensures-guard (ltb limits.max_input_bytes (length input)) _ _ λ small.
            Ensures-guard (ltb (length input) channels) _ _ λ some.
              Ensures-guard (channels == 2 && not (length input % 2 == 0)) _ _ λ even.
                Ensures-bind (interleaved_sample_count (length input) 2) _
                  (interleaved_sample_count-Ensures (length input) 2)
                  λ nibbles n.
                    Ensures-bind (frames_of declared (nibbles / channels)) _
                      (frames_of-Ensures declared (nibbles / channels))
                      λ frames f. Ensures-guard (ltb limits.max_pcm_frames frames) _ _ λ few.
                        Ensures-guard (ltb (limits.max_output_bytes / 2) (frames * channels)) _ _
                          λ short.
                            let held : (frames ≤ length input * 2 / channels)
                                × (length input * 2 / channels ≤ frames + 1) =
                              subst (λ m. (frames ≤ m / channels) × (m / channels ≤ frames + 1)) n
                                f in
                            let pcm : IsPcm (frames * channels)
                                (decode_frames frames 0 channels input (initial_states channels)) =
                              decode_frames-IsPcm frames 0 channels input (initial_states channels)
                                (supported channels lanes) (length-initial_states channels)
                                (payload_fits channels frames (length input)
                                  (supported channels lanes) even held.0) in
                            Ensures-ok (record {
                              frames = frames;
                              whole = held;
                              lanes = supported channels lanes;
                              count = pcm.1;
                              in_range = pcm.0;
                            })

-- A chunk that is decoded fills the output with 16-bit samples, where the state holds the channels
-- that the chunk has.
pub decode_godot_ima_chunk-IsInt16 :
    (packed : List ℕ) (channels frames : ℕ) (state : List ChannelState) (size : ℕ)
    (samples : List ℤ) (next : List ChannelState)
    → length state ≡ channels
    → decode_godot_ima_chunk packed channels frames state size ≡ ok (samples, next)
    → All IsInt16 samples × (length samples ≡ size)
unfolding decode_godot_ima_chunk
decode_godot_ima_chunk-IsInt16 packed channels frames state size samples next s e =
    all.at (samples, next) e
  where
    invalid : Bool
    invalid =
        unsupported_channels channels
        || frames == 0
        || ltb (max_size / channels) frames
        || not (size == frames * channels)
        || not (length packed == (frames + 1) / 2 * channels)

    lanes : invalid ≡ false → (channels ≡ 1) ⊎ (channels ≡ 2)
    lanes h = supported channels (ground arith)

    whole :
        invalid ≡ false
        → (size ≡ frames * channels) × ((0 + frames + 1) / 2 * channels ≤ length packed)
    whole h = ground arith

    all : Ensures (IsPcm size) (decode_godot_ima_chunk packed channels frames state size)
    all =
        Ensures-if invalid (λ h. Ensures-throw _)
          λ h. Ensures-ok {a = decode_frames frames 0 channels packed state} (
            subst (λ n. IsPcm n (decode_frames frames 0 channels packed state)) (sym (whole h).0)
              (decode_frames-IsPcm frames 0 channels packed state (lanes h) s (whole h).1))
