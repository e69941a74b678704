-- ===== src/RpgMaker/Extract.antt =====
-- src/modules/rpgmaker/rpgmaker.cpp: `decrypt` may be cut into the rounds of archive.cpp.
use observer_modules.Prelude.{ℕ, List, ap, arith}
use observer_modules.Archive.Rounds.{IsChunked}
use observer_modules.RpgMaker.Cipher.{decrypt}
use observer_modules.RpgMaker.Cipher.Pieces.{decrypt-append, decrypt-nil, length-decrypt}

pub decrypt-IsChunked : IsChunked decrypt
decrypt-IsChunked = record {
  none_given = decrypt-nil;
  keeps_length = length-decrypt;
  in_two = λ magic xs ys e. ap (λ (p : ℕ × List ℕ). p.1) (decrypt-append magic xs ys (omega arith));
}
