-- ===== src/Godot/Encrypted.antt =====
-- src/core/godot/encrypted_payload.h, encrypted_payload.cpp: the envelope of an encrypted member, and
-- the plaintext behind a verified source. AES-256-CFB128 and MD5 are the crypto provider's: the
-- arguments `decrypt` and `md5`. The chunked, seekable view of the plaintext is its bytes here.
use observer_modules.Prelude.{
  ℕ, ◌+◌, ◌-◌, ◌*◌, ◌/◌, ◌^◌, Bool, not, ◌||◌, List, ltb, ◌==◌, if◌then◌else◌, take, drop, bytes_eq,
}
use observer_modules.Prelude.Int.{pos}
use observer_modules.Prelude.Words.{from_le}
use observer_modules.Failure.{stream_read, encryption_error, key_mismatch, Result, ok, throw}
use observer_modules.Stream.{
  Istream, Reader, pure, ◌>>=◌, ◌>>◌, reject_if, size, seek_absolute, read_exact, with_stream,
}
use observer_modules.Godot.Types.{ByteRange}

abbrev pub encryption_chunk_bytes : ℕ
encryption_chunk_bytes = 64 * 1024

abbrev pub envelope_header_bytes : ℕ
envelope_header_bytes = 40

abbrev pub cipher_block_bytes : ℕ
cipher_block_bytes = 16

-- std::numeric_limits<std::uint64_t>::max(), the default limit on a plaintext.
abbrev pub max_u64 : ℕ
max_u64 = 2 ^ 64 - 1

pub record EncryptedPayload : Type 0 where
  pub envelope : ByteRange
  pub ciphertext : ByteRange
  pub logical_size : ℕ
  pub iv : List ℕ
  pub md5 : List ℕ

abbrev pub key_evidence : EncryptedPayload → Bool
key_evidence payload = not (payload.logical_size == 0)

-- (n + 15) & ~15
abbrev pub padded_size : ℕ → ℕ
padded_size n = (n + (cipher_block_bytes - 1)) / cipher_block_bytes * cipher_block_bytes

unfoldable pub read_envelope : ByteRange → ℕ → Reader EncryptedPayload
read_envelope source max_plaintext_bytes = do
  file_size ← size
  reject_if (ltb file_size source.offset || ltb (file_size - source.offset) source.size)
      (encryption_error "encrypted source range exceeds the stream")
  reject_if (ltb source.size envelope_header_bytes)
      (encryption_error "encrypted envelope header is truncated")
  seek_absolute (pos source.offset)
  header ← read_exact envelope_header_bytes
  let logical_size : ℕ = from_le (take 8 (drop 16 header))
  reject_if
      (ltb max_plaintext_bytes logical_size
        || ltb (max_u64 - (cipher_block_bytes - 1)) logical_size)
      (encryption_error "encrypted plaintext length exceeds its bound")
  reject_if (ltb (source.size - envelope_header_bytes) (padded_size logical_size))
      (encryption_error "encrypted ciphertext is truncated")
  pure (record {
    envelope = record {
      offset = source.offset;
      size = envelope_header_bytes + padded_size logical_size;
    };
    ciphertext = record {
      offset = source.offset + envelope_header_bytes;
      size = padded_size logical_size;
    };
    logical_size = logical_size;
    iv = take 16 (drop 24 header);
    md5 = take 16 header;
  })

-- The handler of the read error.
unfoldable pub encryption_errors {ℓ} : {A : Type ℓ} → Result A → Result A
encryption_errors (throw stream_read) = throw (encryption_error "encrypted source is unreadable")
encryption_errors (throw e) = throw e
encryption_errors (ok a) = ok a

unfoldable pub read_encrypted_payload : Istream → ByteRange → ℕ → Result EncryptedPayload
unfolding encryption_errors
read_encrypted_payload stream source max_plaintext_bytes =
    encryption_errors (with_stream (read_envelope source max_plaintext_bytes) stream)

module _ (decrypt : List ℕ → List ℕ → List ℕ → List ℕ) (md5 : List ℕ → List ℕ) where
  -- `verify`: the plaintext of the whole ciphertext, if its digest is the stored one.
  unfoldable pub verified_plaintext : Istream → EncryptedPayload → List ℕ → Result (List ℕ)
  verified_plaintext stream payload key =
      let stored : List ℕ =
        take payload.ciphertext.size (drop payload.ciphertext.offset stream.content) in
      let plain : List ℕ = take payload.logical_size (decrypt key payload.iv stored) in
      if bytes_eq (md5 plain) payload.md5
      then ok plain
      else throw (key_mismatch "encrypted plaintext MD5 mismatch")
