-- ===== src/Archive/Rounds.antt =====
-- The loop of `extract_file` in archive.cpp against one run of the module's `decrypt` over the body.
use observer_modules.Prelude.{
  ℕ, zero, suc, ◌+◌, ◌-◌, ◌*◌, ◌%◌, ◌≤◌, ◌≡◌, none, refl, sym, ap, ◌∙◌, List, [], ◌∷◌, ◌++◌, min,
  arith, append-nil, append_assoc, length, take, drop, length-append, length-take, length-drop,
  take-add, drop-drop,
}
use mathlib.Core.Logic.{◌⊎◌, inl, inr}
use native.Mathlib.Decide.{dec_le}
use observer_modules.Extractor.{Progress}
use observer_modules.Archive.Extract.{buffer_size, done, reported, copy_loop}

-- What the loop needs of a module: no bytes change nothing, the count of bytes stays, and a stream
-- may be cut behind any whole buffer, with the key that comes out of the first piece.
pub record IsChunked (decrypt : ℕ → List ℕ → ℕ × List ℕ) : Type 0 where
  pub none_given : (magic : ℕ) → decrypt magic [] ≡ (magic, [])
  pub keeps_length : (magic : ℕ) (bytes : List ℕ) → length (decrypt magic bytes).1 ≡ length bytes
  pub in_two :
      (magic : ℕ) (xs ys : List ℕ)
      → length xs % buffer_size ≡ 0
      → (decrypt magic (xs ++ ys)).1 ≡ (decrypt magic xs).1 ++ (decrypt (decrypt magic xs).0 ys).1

abbrev pub total : List ℕ → ℕ
total [] = 0
total (n ∷ ns) = n + total ns

total-append : (ns : List ℕ) (n : ℕ) → total (ns ++ n ∷ []) ≡ total ns + n
total-append [] n = omega arith
total-append (k ∷ ns) n = omega (arith, total-append ns n)

module _ (decrypt : ℕ → List ℕ → ℕ × List ℕ) (laws : IsChunked decrypt) (content : List ℕ)
    (capacity : ℕ) (report_progress : Progress)
    (quiet : (reports : List ℕ) (n : ℕ) → report_progress reports n ≡ none) where
  length-piece : (n at : ℕ) → at + n ≤ length content → length (take n (drop at content)) ≡ n
  length-piece n at h = omega (arith, length-take n (drop at content), length-drop at content)

  -- One round that goes through.
  copy_loop_step :
      (fuel at magic left : ℕ) (written reports : List ℕ) (chunk : ℕ)
      → chunk ≡ min (suc left) buffer_size
      → at + suc left ≤ length content
      → length written + suc left ≤ capacity
      → copy_loop decrypt content capacity report_progress
          (suc fuel)
          at
          magic
          (suc left)
          written
          reports
        ≡ copy_loop decrypt content capacity report_progress fuel
            (at + chunk)
            (decrypt magic (take chunk (drop at content))).0
            (suc left - chunk)
            (written ++ (decrypt magic (take chunk (drop at content))).1)
            (reports ++ chunk ∷ [])
  unfolding copy_loop reported
  copy_loop_step fuel at magic left written reports chunk c h k = ground (
    arith,
    length-piece chunk at,
    laws.keeps_length magic (take chunk (drop at content)),
    quiet reports chunk,
  )

  abbrev pub plain : ℕ → ℕ → ℕ → List ℕ
  plain magic n at = (decrypt magic (take n (drop at content))).1

  plain_none : (magic : ℕ) → (decrypt magic []).1 ≡ []
  plain_none magic = ap (λ (p : ℕ × List ℕ). p.1) (laws.none_given magic)

  -- Either no byte is left behind the chunk, or the chunk is a whole buffer.
  plain_cut :
      (at magic left chunk rest : ℕ)
      → chunk + rest ≡ left
      → at + left ≤ length content
      → (rest ≡ 0) ⊎ (chunk ≡ buffer_size)
      → plain magic left at
        ≡ plain magic chunk at
          ++ plain (decrypt magic (take chunk (drop at content))).0 rest (at + chunk)
  plain_cut at magic left chunk rest c h (inl e) =
      let e' : left ≡ chunk = omega arith in
      rw (e, e')
        (sym (
          ap (◌++◌ (plain magic chunk at))
            (plain_none (decrypt magic (take chunk (drop at content))).0)
          ∙ append-nil (plain magic chunk at)))
  plain_cut at magic left chunk rest c h (inr e) =
      ap (λ (l : List ℕ). (decrypt magic l).1) (take-add chunk rest left (drop at content) c)
      ∙ laws.in_two magic (take chunk (drop at content)) (take rest (drop chunk (drop at content)))
          (rw (length-piece chunk at (omega arith), e))
      ∙ ap
          (λ (l : List ℕ).
            plain magic chunk at
            ++ (decrypt (decrypt magic (take chunk (drop at content))).0 (take rest l)).1)
          (drop-drop at chunk (at + chunk) content refl)

  cut_cases :
      (left chunk : ℕ)
      → chunk ≡ min (suc left) buffer_size
      → (suc left - chunk ≡ 0) ⊎ (chunk ≡ buffer_size)
  cut_cases left chunk c = elim (dec_le (suc left) buffer_size) [
    | yes h ↦ inl (omega arith)
    | no h ↦ inr (omega arith)
  ]

  abbrev pub Copies : ℕ → ℕ → ℕ → ℕ → List ℕ → List ℕ → Type 0
  Copies fuel at magic left written reports =
      ((copy_loop decrypt content capacity report_progress fuel at magic left written
          reports).status
        ≡ done)
      × ((copy_loop decrypt content capacity report_progress fuel at magic left written
            reports).written
          ≡ written ++ plain magic left at)
      × (total
            (copy_loop decrypt content capacity report_progress fuel at magic left written
              reports).reports
          ≡ total reports + left)

  pub copy_loop-Copies :
      (fuel at magic left : ℕ) (written reports : List ℕ)
      → left ≤ fuel * buffer_size
      → at + left ≤ length content
      → length written + left ≤ capacity
      → Copies fuel at magic left written reports
  copy_loop-Copies zero at magic zero written reports f h k =
      unfold copy_loop in
      (refl, sym (ap (◌++◌ written) (plain_none magic) ∙ append-nil written), omega arith)
  copy_loop-Copies zero at magic (suc left) written reports f h k = absurd (omega arith)
  copy_loop-Copies (suc fuel) at magic zero written reports f h k =
      unfold copy_loop in
      (refl, sym (ap (◌++◌ written) (plain_none magic) ∙ append-nil written), omega arith)
  copy_loop-Copies (suc fuel) at magic (suc left) written reports f h k =
      one_round (min (suc left) buffer_size) refl (
        copy_loop-Copies fuel (at + min (suc left) buffer_size)
          (decrypt magic (take (min (suc left) buffer_size) (drop at content))).0
          (suc left - min (suc left) buffer_size)
          (written ++ plain magic (min (suc left) buffer_size) at)
          (reports ++ min (suc left) buffer_size ∷ []) (omega arith) (omega arith)
          (omega (
            arith,
            length-append written (plain magic (min (suc left) buffer_size) at),
            laws.keeps_length magic (take (min (suc left) buffer_size) (drop at content)),
            length-piece (min (suc left) buffer_size) at (omega arith),
          )))
    where
      one_round :
          (chunk : ℕ)
          → chunk ≡ min (suc left) buffer_size
          → Copies fuel
              (at + chunk)
              (decrypt magic (take chunk (drop at content))).0
              (suc left - chunk)
              (written ++ plain magic chunk at)
              (reports ++ chunk ∷ [])
          → Copies (suc fuel) at magic (suc left) written reports
      one_round chunk c (d, w, r) =
          rw (copy_loop_step fuel at magic left written reports chunk c h k) (
            d,
            w
                ∙ append_assoc written (plain magic chunk at) _
                ∙ ap (◌++◌ written) (
                    sym (
                      plain_cut at magic (suc left) chunk (suc left - chunk) (omega arith) h
                        (cut_cases left chunk c))),
            omega (arith, r, total-append reports chunk, c),
          )
