-- ===== src/RpgMaker/Cipher/Involution.antt =====
-- `decrypt` of rpgmaker.cpp, run twice.
use observer_modules.Prelude.{ℕ, ◌+◌, ◌^◌, ◌<◌, ◌≡◌, refl, List, [], ◌∷◌, arith}
use observer_modules.Prelude.Bits.{bit_xor_cancel}
use observer_modules.RpgMaker.Cipher.{advance, decrypt_tail, decrypt_from}

-- The key is a uint32_t.
abbrev pub IsU32 : ℕ → Type 0
IsU32 v = v < 2 ^ 32

pub advance-IsU32 : (magic : ℕ) → IsU32 (advance magic)
unfolding advance
advance-IsU32 magic = omega arith

abbrev word_of : ℕ → ℕ → ℕ → ℕ → List ℕ
word_of a b c d = a ∷ b ∷ c ∷ d ∷ []

decrypt_tail_cancel :
    (magic i : ℕ) (bytes : List ℕ) → decrypt_tail magic i (decrypt_tail magic i bytes) ≡ bytes
unfolding decrypt_tail
decrypt_tail_cancel magic i [] = refl
decrypt_tail_cancel magic i (b ∷ bs) = rw (bit_xor_cancel, decrypt_tail_cancel magic (i + 1) bs)

abbrev Undone : ℕ → ℕ → List ℕ → Type 0
Undone magic i bytes =
    decrypt_from magic i (decrypt_from magic i bytes).1 ≡ ((decrypt_from magic i bytes).0, bytes)
