-- ===== src/Tests/Godot.antt =====
-- src/core/godot/pck.cpp on a pack of version 1 with one empty file.
use observer_modules.Prelude.{
  if◌then◌else◌, ◌==◌, ℕ, ◌%◌, ◌≤◌, List, [], ◌∷◌, ◌++◌, Bool, true, false, ◌&&◌, ltb, ◌≡◌, refl,
  length, All, arith, none, some, bytes_eq, zero, suc,
}
use observer_modules.Prelude.Words.{IsByte}
use observer_modules.Failure.{Result, ok, throw, compression_error}
use observer_modules.Godot.Rscc.{
  RsccLimits, parse_rscc_header, rscc_logical_size, decompress_blocks, decompress_rscc,
}
use observer_modules.Prelude.Int.{pos, ◌+ℤ◌}
use observer_modules.Godot.Ima.{AudioLimits, PcmAudio, decode_ima}
use observer_modules.Godot.Ima.Decoded.{IsDecoded, decode_ima-IsDecoded}
use observer_modules.Godot.Ima.{decode_godot_ima_chunk, initial_states}
use observer_modules.Godot.Ima.Bounds.{IsInt16}
use observer_modules.Godot.Ima.Decoded.{decode_godot_ima_chunk-IsInt16}
use observer_modules.Godot.Rscc.Whole.{decompress_rscc-rscc_logical_size}
use observer_modules.Failure.Ensures.{Ensures}
use observer_modules.Stream.{
  Istream, bounded_stream, size, position, remaining, seek_absolute, read_raw, read_exact,
  read_trivial,
}
use observer_modules.Godot.Types.{PackLocation, standalone, file, PckIndex}
use observer_modules.Godot.Pck.Locate.{locate_pack_impl, truncation, locate_pack}
use observer_modules.Godot.Pck.Locate.Section.{IsPack}
use observer_modules.Godot.Pck.Locate.Inside.{locate_pack-IsPack}
use observer_modules.Godot.Pck.Path.{sanitize_path}
use observer_modules.Godot.Pck.Path.Safe.{IsSafe, sanitize_path-IsSafe}
use observer_modules.Godot.Pck.Index.{read_pack}
use observer_modules.Godot.Pck.Index.Whole.{IsIndex, read_pack-IsIndex}

abbrev zeros : ℕ → List ℕ
zeros zero = []
zeros (suc n) = 0 ∷ zeros n

abbrev pack : Istream
pack = record {
  content =
      (0x47 ∷ 0x44 ∷ 0x50 ∷ 0x43 ∷ 1 ∷ zeros 79)
      ++ (1 ∷ 0 ∷ 0 ∷ 0 ∷ 4 ∷ 0 ∷ 0 ∷ 0 ∷ b'a' ∷ zeros 35);
  cursor = 0;
}

abbrev whole : PackLocation
whole = record { pack = record { offset = 0; size = 128 }; container = standalone }

locate_pack_pack : locate_pack pack ≡ ok (some whole)
unfolding locate_pack locate_pack_impl truncation bounded_stream size position remaining
    seek_absolute read_raw read_exact read_trivial
locate_pack_pack = refl

locate_pack-IsPack_example : IsPack pack.content 128 whole
locate_pack-IsPack_example = locate_pack-IsPack pack whole locate_pack_pack

sanitize_path-IsSafe_example :
    Ensures
      (λ (name : List ℕ). IsSafe name × (length name ≤ 3))
      (sanitize_path (b'a' ∷ b'/' ∷ b'b' ∷ []))
sanitize_path-IsSafe_example = sanitize_path-IsSafe (b'a' ∷ b'/' ∷ b'b' ∷ [])

abbrev index : PckIndex
index = record {
  format_version = 1;
  engine_version = 0 ∷ 0 ∷ 0 ∷ [];
  entries =
      record {
        path = b'a' ∷ [];
        body = record { offset = 0; size = 0 };
        md5 = zeros 16;
        logical_size = 0;
        kind = file;
        encrypted = false;
      }
      ∷ [];
  key_evidence = false;
}

-- A stand-in for the cipher: the low bytes of what is stored.
abbrev low_bytes : List ℕ → List ℕ
low_bytes [] = []
low_bytes (b ∷ bs) = b % 256 ∷ low_bytes bs

low_bytes-IsByte : (bs : List ℕ) → All IsByte (low_bytes bs)
low_bytes-IsByte [] = tt
low_bytes-IsByte (b ∷ bs) = (omega arith, low_bytes-IsByte bs)

abbrev cipher : List ℕ → List ℕ → List ℕ → List ℕ
cipher key iv stored = low_bytes stored

abbrev digest : List ℕ → List ℕ
digest bytes = bytes

read_pack_pack : read_pack 96 cipher digest pack whole none ≡ ok index
unfolding read_pack bounded_stream size seek_absolute position read_exact bytes_eq
read_pack_pack = refl

abbrev are_bytes : List ℕ → Bool
are_bytes [] = true
are_bytes (b ∷ bs) = ltb b 256 && are_bytes bs

are_bytes→All : (bs : List ℕ) → are_bytes bs ≡ true → All IsByte bs
are_bytes→All [] h = tt
are_bytes→All (b ∷ bs) h = (ground arith, are_bytes→All bs (ground arith))

read_pack-IsIndex_example : IsIndex 128 index
read_pack-IsIndex_example =
    read_pack-IsIndex 96 cipher digest (λ key iv stored. low_bytes-IsByte stored) pack whole none
      index (are_bytes→All pack.content refl) read_pack_pack

-- Two blocks of a stream whose blocks are stored as they are.
abbrev compressed : List ℕ
compressed =
    0x52 ∷ 0x53 ∷ 0x43 ∷ 0x43 ∷ 2 ∷ 0 ∷ 0 ∷ 0 ∷ 2 ∷ 0 ∷ 0 ∷ 0 ∷ 3 ∷ 0 ∷ 0 ∷ 0 ∷ 2 ∷ 0 ∷ 0 ∷ 0 ∷ 1
    ∷ 0 ∷ 0 ∷ 0 ∷ 7 ∷ 8 ∷ 9 ∷ 0x52 ∷ 0x53 ∷ 0x43 ∷ 0x43 ∷ []

abbrev stored_block : List ℕ → ℕ → ℕ → ℕ → Result (List ℕ)
stored_block stored kind size limit =
    if length stored == size then ok stored else throw (compression_error "size")

stored_block_exact :
    (stored : List ℕ) (kind size limit : ℕ) (block : List ℕ)
    → stored_block stored kind size limit ≡ ok block
    → length block ≡ size
stored_block_exact stored kind size limit block e = ground arith

abbrev limits : RsccLimits
limits = record {
  max_input_bytes = 64;
  max_output_bytes = 64;
  max_block_bytes = 64;
  max_blocks = 4;
}

decompress_rscc-compressed : decompress_rscc stored_block compressed limits ≡ ok (7 ∷ 8 ∷ 9 ∷ [])
unfolding decompress_rscc parse_rscc_header decompress_blocks bytes_eq
decompress_rscc-compressed = refl

decompress_rscc-rscc_logical_size_example : rscc_logical_size compressed limits ≡ ok 3
decompress_rscc-rscc_logical_size_example =
    decompress_rscc-rscc_logical_size stored_block stored_block_exact compressed limits
      (7 ∷ 8 ∷ 9 ∷ []) decompress_rscc-compressed

abbrev audio_limits : AudioLimits
audio_limits = record { max_input_bytes = 8; max_pcm_frames = 8; max_output_bytes = 64 }

-- Two mono frames: the nibbles 7 and 9.
abbrev audio : PcmAudio
audio = record { sample_rate = 8000; channels = 1; samples = pos 11 ∷ pos 5 ∷ [] }

decode_ima-audio : decode_ima (0x97 ∷ []) 1 8000 none audio_limits ≡ ok audio
unfolding decode_ima ◌+ℤ◌
decode_ima-audio = refl

decode_ima-IsDecoded_example : IsDecoded 1 audio
decode_ima-IsDecoded_example =
    decode_ima-IsDecoded (0x97 ∷ []) 1 8000 none audio_limits audio decode_ima-audio

decode_chunk :
    decode_godot_ima_chunk (0x97 ∷ []) 1 2 (initial_states 1) 2
    ≡ ok (pos 11 ∷ pos 5 ∷ [], record { step_index = 7; predictor = pos 5 } ∷ [])
unfolding decode_godot_ima_chunk ◌+ℤ◌
decode_chunk = refl

decode_godot_ima_chunk-IsInt16_example :
    All IsInt16 (pos 11 ∷ pos 5 ∷ []) × (length (pos 11 ∷ pos 5 ∷ []) ≡ 2)
decode_godot_ima_chunk-IsInt16_example =
    decode_godot_ima_chunk-IsInt16 (0x97 ∷ []) 1 2 (initial_states 1) 2 (pos 11 ∷ pos 5 ∷ [])
      (record { step_index = 7; predictor = pos 5 } ∷ []) refl decode_chunk
