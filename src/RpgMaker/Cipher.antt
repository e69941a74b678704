-- ===== src/RpgMaker/Cipher.antt =====
-- src/modules/rpgmaker/rpgmaker.cpp: the key stream of the archives, and `extractor::decrypt`.
pub mod Involution
pub mod Pieces
use observer_modules.Prelude.{ℕ, zero, suc, ◌+◌, ◌*◌, ◌/◌, ◌%◌, ◌^◌, List, [], ◌∷◌, ◌++◌, bit_xor}
use observer_modules.Prelude.Words.{from_le, to_le}

-- What `advance_magic` leaves in its argument; it returns the value from before.
unfoldable pub advance : ℕ → ℕ
advance magic = (magic * 7 + 3) % 2 ^ 32

abbrev pub low_byte : ℕ → ℕ
low_byte word = word % 256

-- The second loop of `decrypt`, from index i on: no step of the key.
unfoldable pub decrypt_tail : ℕ → ℕ → List ℕ → List ℕ
decrypt_tail magic i [] = []
decrypt_tail magic i (b ∷ bs) =
    bit_xor b (low_byte (magic / 2 ^ (i % 4 * 8))) ∷ decrypt_tail magic (i + 1) bs

-- One word: `memcpy` in, exclusive or with the key, `memcpy` out.
unfoldable pub decrypt_word : ℕ → List ℕ → List ℕ
decrypt_word magic word = to_le 4 (bit_xor (from_le word) magic)

-- Both loops from index i on, which is a multiple of four.
unfoldable pub decrypt_from : ℕ → ℕ → List ℕ → ℕ × List ℕ
decrypt_from magic i (a ∷ b ∷ c ∷ d ∷ rest) =
    let (magic', rest') = decrypt_from (advance magic) (i + 4) rest in
    (magic', decrypt_word magic (a ∷ b ∷ c ∷ d ∷ []) ++ rest')
decrypt_from magic i bytes = (magic, decrypt_tail magic i bytes)

unfoldable pub decrypt : ℕ → List ℕ → ℕ × List ℕ
decrypt magic bytes = decrypt_from magic 0 bytes
