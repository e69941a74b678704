-- ===== src/RpgMaker/Cipher/Pieces.antt =====
-- `decrypt` of rpgmaker.cpp run piece by piece, as the extraction loop of archive.cpp runs it.
use observer_modules.Prelude.{ℕ, suc, ◌+◌, ◌%◌, ◌≡◌, refl, ap, List, [], ◌∷◌, ◌++◌, arith, length}
use observer_modules.RpgMaker.Cipher.{advance, decrypt_tail, decrypt_word, decrypt_from, decrypt}

-- Only the remainder of the index by four matters.
decrypt_tail_index :
    (magic i j : ℕ) (bytes : List ℕ)
    → i % 4 ≡ j % 4
    → decrypt_tail magic i bytes ≡ decrypt_tail magic j bytes
unfolding decrypt_tail
decrypt_tail_index magic i j [] e = refl
decrypt_tail_index magic i j (b ∷ bs) e =
    rw (e, decrypt_tail_index magic (i + 1) (j + 1) bs (omega arith))

decrypt_from_index :
    (magic i j : ℕ) (bytes : List ℕ)
    → i % 4 ≡ j % 4
    → decrypt_from magic i bytes ≡ decrypt_from magic j bytes
unfolding decrypt_from
decrypt_from_index magic i j (a ∷ b ∷ c ∷ d ∷ rest) e =
    rw (decrypt_from_index (advance magic) (i + 4) (j + 4) rest (omega arith))
decrypt_from_index magic i j [] e = rw (decrypt_tail_index magic i j [] e)
decrypt_from_index magic i j bytes e = rw (decrypt_tail_index magic i j _ e)

-- The two pieces, one after the other.
abbrev pub in_pieces : (ℕ → List ℕ → ℕ × List ℕ) → ℕ → List ℕ → List ℕ → ℕ × List ℕ
in_pieces step magic xs ys =
    ((step (step magic xs).0 ys).0, (step magic xs).1 ++ (step (step magic xs).0 ys).1)

decrypt_from-append :
    (magic i : ℕ) (xs ys : List ℕ)
    → length xs % 4 ≡ 0
    → i % 4 ≡ 0
    → decrypt_from magic i (xs ++ ys) ≡ in_pieces (λ m bytes. decrypt_from m 0 bytes) magic xs ys
unfolding decrypt_from decrypt_tail decrypt_word
decrypt_from-append magic i (a ∷ b ∷ c ∷ d ∷ rest) ys e z = rw (
  decrypt_from-append (advance magic) (i + 4) rest ys (omega arith) (omega arith),
  decrypt_from_index (advance magic) (0 + 4) 0 rest refl,
)
decrypt_from-append magic i [] ys e z = decrypt_from_index magic i 0 ys z
decrypt_from-append magic i (a ∷ []) ys e z = absurd (omega arith)
decrypt_from-append magic i (a ∷ b ∷ []) ys e z = absurd (omega arith)
decrypt_from-append magic i (a ∷ b ∷ c ∷ []) ys e z = absurd (omega arith)

-- A stream that is cut behind whole words decrypts in two pieces, the second with the key that comes
-- out of the first.
pub decrypt-append :
    (magic : ℕ) (xs ys : List ℕ)
    → length xs % 4 ≡ 0
    → decrypt magic (xs ++ ys) ≡ in_pieces decrypt magic xs ys
unfolding decrypt
decrypt-append magic xs ys e = decrypt_from-append magic 0 xs ys e refl

length-decrypt_tail :
    (magic i : ℕ) (bytes : List ℕ) → length (decrypt_tail magic i bytes) ≡ length bytes
unfolding decrypt_tail
length-decrypt_tail magic i [] = refl
length-decrypt_tail magic i (b ∷ bs) = ap suc (length-decrypt_tail magic (i + 1) bs)

length-decrypt_from :
    (magic i : ℕ) (bytes : List ℕ) → length (decrypt_from magic i bytes).1 ≡ length bytes
unfolding decrypt_from decrypt_word
length-decrypt_from magic i (a ∷ b ∷ c ∷ d ∷ rest) =
    omega (arith, length-decrypt_from (advance magic) (i + 4) rest)
length-decrypt_from magic i [] = length-decrypt_tail magic i []
length-decrypt_from magic i bytes = length-decrypt_tail magic i _

pub length-decrypt : (magic : ℕ) (bytes : List ℕ) → length (decrypt magic bytes).1 ≡ length bytes
unfolding decrypt
length-decrypt magic bytes = length-decrypt_from magic 0 bytes

pub decrypt-nil : (magic : ℕ) → decrypt magic [] ≡ (magic, [])
unfolding decrypt decrypt_from decrypt_tail
decrypt-nil magic = refl
