-- ===== src/Types/Bitmap/Finding/Words.antt =====
-- The loops of FindContiguous, over the free bits of a word and over the words.
use memory3d.Prelude.{
  ℕ, zero, suc, ◌+◌, ◌-◌, ◌*◌, ◌/◌, ◌^◌, ◌≤◌, ◌<◌, ◌≡◌, sym, ap, subst, ◌∙◌, ◌⊎◌, inl, inr, Bool,
  true, false, Option, none, some, arith, Bool-cases, ltb, ◌==◌, ==→eq, le→not_ltb, if◌then◌else◌,
  u16, shl64, and_not,
}
use memory3d.Prelude.Bits.{
  test_bit, test_bit-zero, test_bit-and_not, trailing_zeros, trailing_zeros_lem, and_not-lt,
}
use memory3d.Types.Bitmap.{Bitmap, Search, found, not_found, panic, range_free, scan_word}
use memory3d.Types.Bitmap.Positions.{bit_at, IsValid, test_bit-single, shl64-lt}
use memory3d.Types.Bitmap.Candidate.{range_free-Verdict}
use memory3d.Types.Bitmap.Finding.Runs.{
  IsRun, NoRun, Outcome, Outcome-below, start_of_run, Rest, NoRun-join,
}

-- What the loop over one word may answer; `none` has excluded the whole word.
abbrev pub ScanOutcome : Bitmap → ℕ → ℕ → ℕ → Option Search → Type 0
ScanOutcome b n wi lo none = NoRun b n lo (wi * 64 + 64)
ScanOutcome b n wi lo (some r) = Outcome b n lo r

-- The verdict on the candidate from `s` to `e`.
candidate :
    (b : Bitmap) (n s e : ℕ)
    → IsValid b
    → 0 < n
    → s + n ≤ b.size
    → e ≡ s + n - 1
    → let r = range_free b.bits s e (e / 64 + 1 - s / 64) (s / 64) in
      ((r ≡ some true) × IsRun b n s) ⊎ ((r ≡ some false) × (¬ IsRun b n s))
candidate b n s e v pos h end =
    elim (range_free-Verdict b.bits v.below s e (omega arith) (e / 64 + 1 - s / 64) (s / 64)
      (omega arith) (omega arith) (omega (arith, v.words))) [
        | inl (t, free) ↦ inl (t, (h, λ p p1 p2. free p p1 (omega arith) (omega arith)))
        | inr (t, (p, p1, p2, hit)) ↦ inr (t, λ run. ground (arith, run.1 p))
      ]

module _ (b : Bitmap) (v : IsValid b) (n : ℕ) (pos : 0 < n) (fits : n < 2 ^ 16) (wi : ℕ) where
  -- No run starts below the lowest free bit.
  none_below :
      (k tz fb : ℕ)
      → tz ≤ 64
      → Rest b wi k fb
      → ((i : ℕ) → i < tz → test_bit fb i ≡ false)
      → NoRun b n (wi * 64 + k) (wi * 64 + tz)
  none_below k tz fb small rest low s p q run =
      let first = start_of_run b n s pos run in
      let back : wi * 64 + (s - wi * 64) ≡ s = omega arith in
      let r = rest (s - wi * 64) (omega arith) in
      ground (arith, back, r, low (s - wi * 64) (omega arith), first)

  -- Dropping the lowest bit leaves the free bits after it.
  drop_lowest :
      (k tz fb : ℕ)
      → tz < 64
      → k ≤ tz
      → Rest b wi k fb
      → ((i : ℕ) → i < tz → test_bit fb i ≡ false)
      → Rest b wi (tz + 1) (and_not fb (shl64 1 tz))
  drop_lowest k tz fb small after rest low i h =
      test_bit-and_not i fb (shl64 1 tz)
      ∙ ground (arith, test_bit-single tz i small h, rest i h, low i)

  -- What scan_word does with the candidate at `s`; `rest` is the scan of the bits after it.
  abbrev judge : ℕ → Option Search → Option Search
  judge s rest =
      let e = u16 (s + n + 2 ^ 16 - 1) in
      if ltb b.size (u16 (s + n))
      then some not_found
      else elim (range_free b.bits s e (e / 64 + 1 - s / 64) (s / 64)) [
        | none ↦ some panic
        | some true ↦ some (found s)
        | some false ↦ rest
      ]

  judge_wrapped :
      (lo s : ℕ) (rest : Option Search)
      → lo ≤ s
      → s < b.size
      → bit_at b s ≡ false
      → NoRun b n lo s
      → (¬ IsRun b n s → ScanOutcome b n wi lo rest)
      → 2 ^ 16 ≤ s + n
      → ScanOutcome b n wi lo (judge s rest)
  judge_wrapped lo s rest above inside free before later wraps =
      let e = u16 (s + n + 2 ^ 16 - 1) in
      rw (le→not_ltb b.size (u16 (s + n)) (omega (arith, v.small)))
        (go (range_free b.bits s e (e / 64 + 1 - s / 64) (s / 64)))
    where
      go :
          (r : Option Bool)
          → ScanOutcome b n wi lo
              (elim r [ none ↦ some panic | some true ↦ some (found s) | some false ↦ rest ])
      go none = (s, above, inside, before, wraps)
      go (some true) = (above, inside, free, before, inr wraps)
      go (some false) = later (λ run. omega (arith, v.small, run.0))

  judge_exact :
      (lo s : ℕ) (rest : Option Search)
      → lo ≤ s
      → s < b.size
      → bit_at b s ≡ false
      → NoRun b n lo s
      → (¬ IsRun b n s → ScanOutcome b n wi lo rest)
      → s + n < 2 ^ 16
      → ScanOutcome b n wi lo (judge s rest)
  judge_exact lo s rest above inside free before later exact =
      let sum : u16 (s + n) ≡ s + n = omega arith in
      elim (Bool-cases (ltb b.size (s + n))) [
        | inl over ↦
            rw (sum, over) (NoRun-join b n lo s b.size before (λ t p q run. ground (arith, run.0)))
        | inr under ↦
            elim (candidate b n s (u16 (s + n + 2 ^ 16 - 1)) v pos (ground arith) (omega arith)) [
              | inl (t, run) ↦ rw (sum, under, t) (above, inside, free, before, inl run)
              | inr (t, no_run) ↦ rw (sum, under, t) (later no_run)
            ]
      ]

  judge-ScanOutcome :
      (lo s : ℕ) (rest : Option Search)
      → lo ≤ s
      → s < b.size
      → bit_at b s ≡ false
      → NoRun b n lo s
      → (¬ IsRun b n s → ScanOutcome b n wi lo rest)
      → ScanOutcome b n wi lo (judge s rest)
  judge-ScanOutcome lo s rest above inside free before later =
      elim (Bool-cases (ltb (s + n) (2 ^ 16))) [
        | inl exact ↦ judge_exact lo s rest above inside free before later (ground arith)
        | inr wraps ↦ judge_wrapped lo s rest above inside free before later (ground arith)
      ]

  NoRun-suc : (lo s mid : ℕ) → NoRun b n lo s → ¬ IsRun b n s → mid ≡ s + 1 → NoRun b n lo mid
  NoRun-suc lo s mid before no_run e t p q run = elim (Bool-cases (t == s)) [
    | inl same ↦ no_run (rw (==→eq t s same) at run)
    | inr other ↦ before t p (ground arith) run
  ]

  -- An answer from behind a candidate that is no run.
  ScanOutcome-below :
      (lo mid : ℕ) (r : Option Search)
      → lo ≤ mid
      → mid ≤ wi * 64 + 64
      → NoRun b n lo mid
      → ScanOutcome b n wi mid r
      → ScanOutcome b n wi lo r
  ScanOutcome-below lo mid none above below before o = NoRun-join b n lo mid (wi * 64 + 64) before o
  ScanOutcome-below lo mid (some r) above below before o = Outcome-below b n lo mid r above before o

  -- The bits left are at least `k`, so the fuel that is left is enough for them.
  pub scan_word-ScanOutcome :
      (fuel k fb : ℕ)
      → fb < 2 ^ 64
      → k ≤ 64
      → 64 < fuel + k
      → Rest b wi k fb
      → ScanOutcome b n wi (wi * 64 + k) (scan_word fuel b n wi fb)
  unfolding scan_word
  scan_word-ScanOutcome zero k fb small top enough rest = absurd (omega arith)
  scan_word-ScanOutcome (suc fuel) k fb small top enough rest = elim (Bool-cases (fb == 0)) [
    | inl done ↦ rw done (
        none_below k 64 fb (omega arith) rest
          (λ i p. ap (λ (t : ℕ). test_bit t i) (==→eq fb 0 done) ∙ test_bit-zero i))
    | inr more ↦
        let (small_tz, bit, low) = trailing_zeros_lem 64 fb small (λ z. ground arith) in
        let tz = trailing_zeros 64 fb in
        let s = wi * 64 + tz in
        let at_tz = sym (rest tz small_tz) ∙ bit in
        let after : k ≤ tz = ground arith in
        let inside : s < b.size = ground arith in
        let before = none_below k tz fb (omega arith) rest low in
        let next =
          scan_word-ScanOutcome fuel (tz + 1) (and_not fb (shl64 1 tz))
            (and_not-lt 64 fb (shl64 1 tz) small (shl64-lt 1 tz)) (omega arith) (omega arith)
            (drop_lowest k tz fb small_tz after rest low) in
        let rest_of_word = scan_word fuel b n wi (and_not fb (shl64 1 tz)) in
        let exact : s ≡ u16 s = omega (arith, v.small) in
        rw more (
          subst (λ t. ScanOutcome b n wi (wi * 64 + k) (judge t rest_of_word)) exact
            (judge-ScanOutcome (wi * 64 + k) s _ (omega arith) inside (ground arith) before
              (λ no_run.
                ScanOutcome-below (wi * 64 + k) (wi * 64 + (tz + 1)) _ (omega arith) (omega arith)
                  (NoRun-suc (wi * 64 + k) s (wi * 64 + (tz + 1)) before no_run (omega arith))
                  next)))
  ]
