-- ===== src/Godot/Rscc.antt =====
-- src/core/godot/rscc.h, rscc.cpp: compressed resources. A stream is a header, a table of the blocks'
-- stored sizes, the blocks, and the magic number again. `decompress_block` of
-- src/core/codecs/resource_compression.h is a parameter: the stored bytes, the mode, the size that the
-- block has to have and the limit of the output, which fits a size_t of 64 bits.
pub mod Whole
use observer_modules.Prelude.{
  ℕ, zero, suc, ◌+◌, ◌-◌, ◌*◌, ◌/◌, ◌%◌, not, List, [], ◌∷◌, ◌++◌, ltb, ◌==◌, if◌then◌else◌, length,
  take, drop, bytes_eq,
}
use observer_modules.Prelude.Words.{from_le}
use observer_modules.Failure.{
  compression_error, rscc_error, Result, ok, throw, throw_if, ◌>>=◌, ◌>>◌,
}

-- "RSCC"
abbrev pub rscc_magic : List ℕ
rscc_magic = 0x52 ∷ 0x53 ∷ 0x43 ∷ 0x43 ∷ []

abbrev pub rscc_header_bytes : ℕ
rscc_header_bytes = 16

abbrev pub rscc_table_entry_bytes : ℕ
rscc_table_entry_bytes = 4

-- The number of codecs::compression_kind::brotli, the last one.
abbrev pub last_mode : ℕ
last_mode = 4

pub record RsccLimits : Type 0 where
  pub max_input_bytes : ℕ
  pub max_output_bytes : ℕ
  pub max_block_bytes : ℕ
  pub max_blocks : ℕ

abbrev pub read_u32_le : List ℕ → ℕ → ℕ
read_u32_le input offset = from_le (take 4 (drop offset input))

pub record RsccHeader : Type 0 where
  pub kind : ℕ
  pub block_size : ℕ
  pub total : ℕ
  pub block_count : ℕ
  pub data_start : ℕ
  pub data_end : ℕ

unfoldable pub parse_rscc_header : List ℕ → RsccLimits → Result RsccHeader
parse_rscc_header input limits = do
  let input_bytes : ℕ = length input
  throw_if (ltb limits.max_input_bytes input_bytes)
      (rscc_error "rscc stream exceeds the configured input budget")
  throw_if (ltb input_bytes rscc_header_bytes) (rscc_error "rscc stream is shorter than the header")
  throw_if (not (bytes_eq (take 4 input) rscc_magic)) (rscc_error "rscc header magic is missing")
  throw_if (not (bytes_eq (drop (input_bytes - 4) input) rscc_magic))
      (rscc_error "rscc trailing magic is missing")
  let mode : ℕ = read_u32_le input 4
  let block_size : ℕ = read_u32_le input 8
  let total : ℕ = read_u32_le input 12
  throw_if (block_size == 0) (rscc_error "rscc block size is zero")
  throw_if (ltb last_mode mode) (rscc_error "rscc compression mode is not supported")
  throw_if (ltb limits.max_output_bytes total)
      (rscc_error "rscc logical size exceeds the configured output budget")
  let block_count : ℕ = total / block_size + 1
  throw_if (ltb limits.max_blocks block_count)
      (rscc_error "rscc block count exceeds the configured limit")
  let data_start : ℕ = rscc_header_bytes + block_count * rscc_table_entry_bytes
  let data_end : ℕ = input_bytes - 4
  throw_if (ltb data_end data_start) (rscc_error "rscc block table runs past the stored data")
  ok (record {
    kind = mode;
    block_size = block_size;
    total = total;
    block_count = block_count;
    data_start = data_start;
    data_end = data_end;
  })

unfoldable pub rscc_logical_size : List ℕ → RsccLimits → Result ℕ
rscc_logical_size input limits = do header ← parse_rscc_header input limits; ok header.total

-- The codec's own error, translated.
unfoldable pub block_errors : Result (List ℕ) → Result (List ℕ)
block_errors (throw (compression_error message)) =
    throw (rscc_error "rscc block failed to decompress")
block_errors (throw e) = throw e
block_errors (ok block) = ok block

abbrev pub logical_size : RsccHeader → ℕ → ℕ
logical_size header index =
    if index + 1 == header.block_count then header.total % header.block_size else header.block_size

module _ (decompress_block : List ℕ → ℕ → ℕ → ℕ → Result (List ℕ)) where
  -- One round: the block, and where the next one begins.
  unfoldable pub decompress_one : List ℕ → RsccLimits → RsccHeader → ℕ → ℕ → Result (List ℕ × ℕ)
  unfolding block_errors
  decompress_one input limits header index offset = do
    let compressed_size : ℕ = read_u32_le input (rscc_header_bytes + index * rscc_table_entry_bytes)
    throw_if (ltb limits.max_block_bytes compressed_size)
        (rscc_error "rscc block size exceeds the configured limit")
    throw_if (ltb header.data_end (offset + compressed_size))
        (rscc_error "rscc block runs past the stored data")
    block ← block_errors (
        decompress_block (take compressed_size (drop offset input)) header.kind
          (logical_size header index) limits.max_output_bytes)
    ok (block, offset + compressed_size)

  -- The loop over the blocks, with those that are left: the output, and where the last block ends.
  unfoldable pub decompress_blocks :
      ℕ → List ℕ → RsccLimits → RsccHeader → ℕ → ℕ → List ℕ → Result (List ℕ × ℕ)
  unfolding decompress_one
  decompress_blocks zero input limits header index offset output = ok (output, offset)
  decompress_blocks (suc left) input limits header index offset output = do
    one ← decompress_one input limits header index offset
    decompress_blocks left input limits header (index + 1) one.1 (output ++ one.0)

  unfoldable pub decompress_rscc : List ℕ → RsccLimits → Result (List ℕ)
  decompress_rscc input limits = do
    header ← parse_rscc_header input limits
    done ← decompress_blocks header.block_count input limits header 0 header.data_start []
    throw_if (not (done.1 == header.data_end))
        (rscc_error "rscc stored data does not match the block table")
    ok done.0
