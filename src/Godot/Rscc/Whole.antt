-- ===== src/Godot/Rscc/Whole.antt =====
-- src/core/godot/rscc.cpp: the size of a decompressed stream.
use mathlib.Core.Path.{subst}
use native.Mathlib.Nat.{div-add-mod'}
use observer_modules.Prelude.{
  ℕ, zero, suc, ◌+◌, ◌-◌, ◌*◌, ◌/◌, ◌%◌, ◌≡◌, ◌≢◌, refl, sym, ap, ◌∙◌, not, List, [], ◌++◌, ltb,
  ◌==◌, length, length-append, take, drop, bytes_eq, arith,
}
use observer_modules.Failure.{
  Result, ok, throw, throw_if, compression_error, >>=-eq-ok, ok-injective, Exception,
}
use observer_modules.Failure.Ensures.{Ensures, Ensures-ok, Ensures-bind, Ensures-guard}
use observer_modules.Godot.Rscc.{
  RsccLimits, RsccHeader, last_mode, rscc_magic, rscc_header_bytes, rscc_table_entry_bytes,
  read_u32_le, parse_rscc_header, rscc_logical_size, block_errors, logical_size, decompress_one,
  decompress_blocks, decompress_rscc,
}

-- What a header that is passed says of its blocks.
record IsHeader (header : RsccHeader) : Type 0 where
  sized : header.block_size ≢ 0
  counted : header.block_count ≡ header.total / header.block_size + 1

parse_rscc_header-Ensures :
    (input : List ℕ) (limits : RsccLimits) → Ensures IsHeader (parse_rscc_header input limits)
unfolding parse_rscc_header
parse_rscc_header-Ensures input limits =
    let block_size : ℕ = read_u32_le input 8 in
    let total : ℕ = read_u32_le input 12 in
    Ensures-guard (ltb limits.max_input_bytes (length input)) _ _ λ e₁.
      Ensures-guard (ltb (length input) rscc_header_bytes) _ _ λ e₂.
        Ensures-guard (not (bytes_eq (take 4 input) rscc_magic)) _ _ λ e₃.
          Ensures-guard (not (bytes_eq (drop (length input - 4) input) rscc_magic)) _ _ λ e₄.
            Ensures-guard (block_size == 0) _ _ λ e₅.
              Ensures-guard (ltb last_mode (read_u32_le input 4)) _ _ λ e₆.
                Ensures-guard (ltb limits.max_output_bytes total) _ _ λ e₇.
                  Ensures-guard (ltb limits.max_blocks (total / block_size + 1)) _ _ λ e₈.
                    Ensures-guard
                      (ltb (length input - 4)
                        (rscc_header_bytes + (total / block_size + 1) * rscc_table_entry_bytes))
                      _ _ λ e₉. Ensures-ok (record { sized = λ z. ground arith; counted = refl })

-- The sizes of the blocks from `index` on, `left` of them.
abbrev sizes : RsccHeader → ℕ → ℕ → ℕ
sizes header index zero = 0
sizes header index (suc left) = logical_size header index + sizes header (index + 1) left

sizes_last :
    (header : RsccHeader) (index left : ℕ)
    → index + suc left ≡ header.block_count
    → sizes header index (suc left) ≡ left * header.block_size + header.total % header.block_size
sizes_last header index zero e = ground arith
sizes_last header index (suc left) e =
    ground (arith, sizes_last header (index + 1) left (omega arith))

sizes_total :
    (header : RsccHeader) → IsHeader header → sizes header 0 header.block_count ≡ header.total
sizes_total header h =
    let quotient : ℕ = header.total / header.block_size in
    let count : header.block_count ≡ suc quotient = omega (arith, h.counted) in
    subst (λ c. sizes header 0 c ≡ header.total) (sym count)
      (sizes_last header 0 quotient (omega (arith, count))
        ∙ div-add-mod' header.total header.block_size)

module _ (decompress_block : List ℕ → ℕ → ℕ → ℕ → Result (List ℕ))
    (exact : (stored : List ℕ) (kind size limit : ℕ) (block : List ℕ)
      → decompress_block stored kind size limit ≡ ok block
      → length block ≡ size) where
  refused : (x : Exception) {block : List ℕ} → block_errors (throw x) ≢ ok block
  unfolding block_errors
  refused (compression_error message) e = cc
  refused x e = ground arith

  decompress_one-Ensures :
      (input : List ℕ) (limits : RsccLimits) (header : RsccHeader) (index offset : ℕ)
      → Ensures
          (λ (r : List ℕ × ℕ). length r.0 ≡ logical_size header index)
          (decompress_one decompress_block input limits header index offset)
  unfolding decompress_one
  decompress_one-Ensures input limits header index offset =
      let compressed_size : ℕ =
        read_u32_le input (rscc_header_bytes + index * rscc_table_entry_bytes) in
      let call : Result (List ℕ) =
        decompress_block (take compressed_size (drop offset input)) header.kind
          (logical_size header index) limits.max_output_bytes in
      Ensures-guard (ltb limits.max_block_bytes compressed_size) _ _ λ small.
        Ensures-guard (ltb header.data_end (offset + compressed_size)) _ _ λ inside.
          Ensures-bind (block_errors call) _ (passed call (λ b e. exact _ _ _ _ b e))
            λ block k. Ensures-ok {a = (block, offset + compressed_size)} k
    where
      passed :
          (r : Result (List ℕ))
          → ((block : List ℕ) → r ≡ ok block → length block ≡ logical_size header index)
          → Ensures (λ (block : List ℕ). length block ≡ logical_size header index) (block_errors r)
      passed (ok block) h = Ensures-ok (h block refl)
      passed (throw x) h = record { at = λ block e. absurd (refused x e) }

  decompress_blocks-Ensures :
      (left : ℕ) (input : List ℕ) (limits : RsccLimits) (header : RsccHeader) (index offset : ℕ)
      (output : List ℕ)
      → Ensures
          (λ (r : List ℕ × ℕ). length r.0 ≡ length output + sizes header index left)
          (decompress_blocks decompress_block left input limits header index offset output)
  unfolding decompress_blocks
  decompress_blocks-Ensures zero input limits header index offset output =
      Ensures-ok {a = (output, offset)} (omega arith)
  decompress_blocks-Ensures (suc left) input limits header index offset output =
      Ensures-bind (decompress_one decompress_block input limits header index offset) _
        (decompress_one-Ensures input limits header index offset)
        λ one h. record {
          at = λ r e. omega (
            arith,
            h,
            length-append output one.0,
            (decompress_blocks-Ensures left input limits header (index + 1) one.1
                  (output ++ one.0)).at
                r e,
          );
        }

  -- A stream that is decompressed comes out in the size that `rscc_logical_size` reads from its header
  -- without decompressing. The decompression that is passed returns a block of the size it is asked
  -- for, or throws.
  pub decompress_rscc-rscc_logical_size :
      (input : List ℕ) (limits : RsccLimits) (output : List ℕ)
      → decompress_rscc decompress_block input limits ≡ ok output
      → rscc_logical_size input limits ≡ ok (length output)
  unfolding decompress_rscc rscc_logical_size
  decompress_rscc-rscc_logical_size input limits output e =
      let (header, parsed, rest) = >>=-eq-ok (parse_rscc_header input limits) _ e in
      let (done, blocks, end) =
        >>=-eq-ok
          (decompress_blocks decompress_block header.block_count input limits header 0
            header.data_start [])
          _ rest in
      let (u, whole, out) = >>=-eq-ok (throw_if (not (done.1 == header.data_end)) _) _ end in
      let size : length done.0 ≡ header.total = omega (
        arith,
        (decompress_blocks-Ensures header.block_count input limits header 0 header.data_start []).at
            done blocks,
        sizes_total header ((parse_rscc_header-Ensures input limits).at header parsed),
      ) in
      rw parsed (ap ok (sym size ∙ ap length (ok-injective out)))
