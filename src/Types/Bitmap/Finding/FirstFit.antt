-- ===== src/Types/Bitmap/Finding/FirstFit.antt =====
-- The loop over the words, and what FindContiguous answers.
use native.Mathlib.Nat.{add-zero}
use memory3d.Prelude.{
  ℕ, zero, suc, ◌+◌, ◌-◌, ◌*◌, ◌^◌, ◌≤◌, ◌<◌, ◌≡◌, refl, ap, subst, ◌∙◌, inl, inr, true, not, ◌&&◌,
  Option, none, some, arith, Bool-cases, ltb, ◌==◌, ==→eq, ne→not==, length, get_or, u16, sub16,
  shr, not64,
}
use memory3d.Prelude.Bits.{
  test_bit, test_bit-zero, test_bit-and, test_bit-complement, test_bit-ones, test_bit-div_pow,
  bit_and-lt,
}
use memory3d.Types.Bitmap.{
  Bitmap, Search, found, not_found, panic, scan_word, scan_words, free_bits_at, find_contiguous,
}
use memory3d.Types.Bitmap.Positions.{bit_at, IsValid}
use memory3d.Types.Bitmap.Finding.Runs.{
  IsRun, NoRun, Outcome, Outcome-below, start_of_run, bit_at-word, Rest,
}
use memory3d.Types.Bitmap.Finding.Words.{ScanOutcome, scan_word-ScanOutcome}

test_bit-tail_mask :
    (remaining i : ℕ)
    → remaining < 64
    → test_bit (shr (not64 0) (64 - remaining)) i ≡ ltb i remaining
test_bit-tail_mask remaining i h =
    test_bit-div_pow (64 - remaining) i (2 ^ 64 - 1)
    ∙ test_bit-ones 64 (64 - remaining + i)
    ∙ ground arith

module _ (b : Bitmap) (v : IsValid b) where
  free_bits_at-lt : (wi : ℕ) → free_bits_at b wi < 2 ^ 64
  unfolding free_bits_at
  free_bits_at-lt wi = ground (
    arith,
    bit_and-lt 64 (not64 (get_or b.bits wi 0)) (shr (not64 0) (64 - sub16 b.size (u16 (wi * 64)))),
  )

  test_bit-free :
      (wi i : ℕ) → i < 64 → test_bit (not64 (get_or b.bits wi 0)) i ≡ not (bit_at b (wi * 64 + i))
  test_bit-free wi i h =
      test_bit-complement 64 i (get_or b.bits wi 0) (v.below wi)
      ∙ rw (bit_at-word b wi i h) (ground arith)

  free_bits_at-Rest : (wi : ℕ) → wi < length b.bits → Rest b wi 0 (free_bits_at b wi)
  unfolding free_bits_at
  free_bits_at-Rest wi in_map i h =
      let remaining = sub16 b.size (u16 (wi * 64)) in
      let left : remaining ≡ b.size - wi * 64 = omega (arith, v.words, v.small) in
      elim (Bool-cases ((wi == length b.bits - 1) && ltb remaining 64)) [
        | inl last ↦ rw last (
            test_bit-and i (not64 (get_or b.bits wi 0)) (shr (not64 0) (64 - remaining))
            ∙ ground (arith, test_bit-tail_mask remaining i, test_bit-free wi i h, left))
        | inr inner ↦ rw inner (ground (arith, test_bit-free wi i h, left, v.words))
      ]

  module _ (n : ℕ) (pos : 0 < n) (fits : n < 2 ^ 16) where
    full_word :
        (wi : ℕ) → (not64 (get_or b.bits wi 0) == 0) ≡ true → NoRun b n (wi * 64) (wi * 64 + 64)
    full_word wi full s p q run =
        let i = s - wi * 64 in
        let back : wi * 64 + i ≡ s = omega arith in
        let used = test_bit-free wi i (omega arith) in
        let zeros = ap (λ (t : ℕ). test_bit t i) (==→eq _ 0 full) ∙ test_bit-zero i in
        ground (arith, used, zeros, back, start_of_run b n s pos run)

    scan_words-Outcome :
        (rounds wi : ℕ)
        → wi + rounds ≡ length b.bits
        → Outcome b n (wi * 64) (scan_words rounds b n wi)
    unfolding scan_words
    scan_words-Outcome zero wi h = λ s p q. absurd (omega (arith, v.words))
    scan_words-Outcome (suc rounds) wi h =
        let later = scan_words-Outcome rounds (wi + 1) (omega arith) in
        let on : wi * 64 + 64 ≡ (wi + 1) * 64 = omega arith in
        let skip = λ (before : NoRun b n (wi * 64) (wi * 64 + 64)).
          Outcome-below b n (wi * 64) ((wi + 1) * 64) (scan_words rounds b n (wi + 1)) (omega arith)
            (subst (NoRun b n (wi * 64)) on before) later in
        elim (Bool-cases (not64 (get_or b.bits wi 0) == 0)) [
          | inl full ↦ rw full (skip (full_word wi full))
          | inr more ↦
              let word =
                scan_word-ScanOutcome b v n pos fits wi 65 0 (free_bits_at b wi)
                  (free_bits_at-lt wi) (omega arith) (omega arith)
                  (free_bits_at-Rest wi (omega arith)) in
              rw more (
                go (scan_word 65 b n wi (free_bits_at b wi)) skip (
                  subst (λ t. ScanOutcome b n wi t (scan_word 65 b n wi (free_bits_at b wi)))
                    (add-zero (wi * 64)) word))
        ]
      where
        go :
            (r : Option Search)
            → (NoRun b n (wi * 64) (wi * 64 + 64)
                → Outcome b n (wi * 64) (scan_words rounds b n (wi + 1)))
            → ScanOutcome b n wi (wi * 64) r
            → Outcome b n (wi * 64) (elim r [ none ↦ scan_words rounds b n (wi + 1) | some t ↦ t ])
        go none skip o = skip o
        go (some r) skip o = o

-- FindContiguous of a positive uint16 size on a valid bitmap answers the first free run; it
-- answers nothing only where there is no run; the exceptions are a start, or a panic, where the
-- start and the size add up to 2 ^ 16 or more.
pub find_contiguous-Outcome :
    (b : Bitmap) (n : ℕ) → IsValid b → 0 < n → n < 2 ^ 16 → Outcome b n 0 (find_contiguous b n)
unfolding find_contiguous
find_contiguous-Outcome b n v pos fits = elim (Bool-cases (ltb b.size n)) [
  | inl large ↦ rw (ne→not== n 0 (λ e. omega arith), large) (λ s p q run. ground (arith, run.0))
  | inr small ↦
      rw
        (
          ne→not== n 0 (λ e. omega arith),
          small,
          ne→not== (length b.bits) 0 (λ e. ground (arith, v.words)),
        )
        (scan_words-Outcome b v n pos fits (length b.bits) 0 (omega arith))
]

-- If a valid bitmap has a free run of n > 0 positions at s, FindContiguous answers a free run,
-- at or before s, and no run starts before it.
pub find_contiguous-IsRun :
    (b : Bitmap) (n s : ℕ)
    → IsValid b
    → 0 < n
    → IsRun b n s
    → (t : ℕ) × (find_contiguous b n ≡ found t) × (t ≤ s) × IsRun b n t × NoRun b n 0 t
find_contiguous-IsRun b n s v pos run =
    go (find_contiguous b n) (find_contiguous-Outcome b n v pos (omega (arith, v.small, run.0)))
  where
    go :
        (r : Search)
        → Outcome b n 0 r
        → (t : ℕ) × (r ≡ found t) × (t ≤ s) × IsRun b n t × NoRun b n 0 t
    go (found t) (lo, inside, free, before, is_run) = elim (Bool-cases (ltb s t)) [
      | inl earlier ↦ absurd (before s (omega arith) (ground arith) run)
      | inr first ↦ elim is_run [
        | inl good ↦ (t, refl, ground arith, good, before)
        | inr wraps ↦ absurd (ground (arith, run.0, v.small))
      ]
    ]
    go not_found o = absurd (o s (omega arith) (omega (arith, run.0)) run)
    go panic (t, lo, inside, before, wraps) = elim (Bool-cases (ltb s t)) [
      | inl earlier ↦ absurd (before s (omega arith) (ground arith) run)
      | inr first ↦ absurd (ground (arith, run.0, v.small))
    ]

-- A start whose range does not wrap is the start of a free run.
pub find_contiguous_sound :
    (b : Bitmap) (n t : ℕ)
    → IsValid b
    → 0 < n
    → n < 2 ^ 16
    → find_contiguous b n ≡ found t
    → t + n < 2 ^ 16
    → IsRun b n t
find_contiguous_sound b n t v pos fits e exact =
    elim (subst (Outcome b n 0) e (find_contiguous-Outcome b n v pos fits)).4 [
      | inl run ↦ run
      | inr wraps ↦ absurd (omega arith)
    ]
