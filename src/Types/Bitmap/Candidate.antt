-- ===== src/Types/Bitmap/Candidate.antt =====
-- The check of one candidate range in FindContiguous: the masks of its words, and the loop over them.
use native.Mathlib.Nat.{one-le-pow, pow-le-pow_right}
use memory3d.Prelude.{
  ℕ, zero, suc, ◌+◌, ◌-◌, ◌*◌, ◌/◌, ◌%◌, ◌^◌, ◌≤◌, ◌<◌, ◌≡◌, refl, sym, ap, ◌∙◌, ◌⊎◌, inl, inr,
  Bool, true, false, ◌&&◌, Option, some, List, arith, ltb, leb, ◌==◌, Bool-cases, get_or,
  le→not_ltb, lt→not_leb, length, ==→eq, shl64, sub64, not64,
}
use memory3d.Prelude.Bits.{test_bit, test_bit-mul_pow, test_bit-mod_pow, test_bit-ones}
use memory3d.Types.Bitmap.{range_mask, range_free}
use memory3d.Types.Bitmap.Positions.{and_mask_cases}

-- `(1 << n) - 1`, also at n = 64, where the shift gives 0 and the difference wraps.
low_ones : (n : ℕ) → n ≤ 64 → sub64 (shl64 1 n) 1 ≡ 2 ^ n - 1
low_ones n h = elim (Bool-cases (n == 64)) [
  | inl top ↦ let e : n ≡ 64 = ground arith in rw e refl
  | inr below ↦ omega (
    arith,
    one-le-pow n 2 (omega arith),
    pow-le-pow_right {n = 2} (omega arith) {i = n} {j = 63} (ground arith),
  )
]

test_bit-shl64 :
    (a k i : ℕ) → test_bit (shl64 a k) i ≡ (ltb i 64 && (leb k i && test_bit a (i - k)))
test_bit-shl64 a k i =
    test_bit-mod_pow 64 i (a * 2 ^ k) ∙ ap (λ t. ltb i 64 && t) (test_bit-mul_pow k i a)

-- The mask of word `wj` covers the positions of the word that lie in the range.
pub record Covers (start_pos end_pos wj : ℕ) : Type 0 where
  pub mask : ℕ
  pub is_mask : range_mask start_pos end_pos wj ≡ some mask
  pub below : mask < 2 ^ 64
  pub exact :
      (i : ℕ)
      → i < 64
      → test_bit mask i ≡ (leb start_pos (wj * 64 + i) && leb (wj * 64 + i) end_pos)

range_mask-Covers : (s e wj : ℕ) → s ≤ e → s / 64 ≤ wj → wj ≤ e / 64 → Covers s e wj
unfolding range_mask
range_mask-Covers s e wj le lo hi = elim (Bool-cases (wj == s / 64)) [
  | inl first ↦ elim (Bool-cases (wj == e / 64)) [
    | inl last ↦ record {
      mask = shl64 (2 ^ (e % 64 + 1 - s % 64) - 1) (s % 64);
      is_mask = rw (
        first,
        last,
        le→not_ltb (e % 64 + 1) (s % 64) (ground arith),
        low_ones (e % 64 + 1 - s % 64) (omega arith),
      );
      below = omega arith;
      exact = λ i p.
          test_bit-shl64 (2 ^ (e % 64 + 1 - s % 64) - 1) (s % 64) i
          ∙ ground (arith, test_bit-ones (e % 64 + 1 - s % 64) (i - s % 64));
    }
    | inr more ↦ record {
      mask = shl64 (not64 0) (s % 64);
      is_mask = rw (first, more) refl;
      below = omega arith;
      exact = λ i p.
          test_bit-shl64 (not64 0) (s % 64) i ∙ ground (arith, test_bit-ones 64 (i - s % 64));
    }
  ]
  | inr later ↦ elim (Bool-cases (wj == e / 64)) [
    | inl last ↦ record {
      mask = 2 ^ (e % 64 + 1) - 1;
      is_mask = rw (later, last) (ap some (low_ones (e % 64 + 1) (omega arith)));
      below =
          omega
            (arith, pow-le-pow_right {n = 2} (omega arith) {i = e % 64 + 1} {j = 64} (omega arith));
      exact = λ i p. test_bit-ones (e % 64 + 1) i ∙ ground arith;
    }
    | inr more ↦ record {
      mask = not64 0;
      is_mask = rw (later, more) refl;
      below = omega arith;
      exact = λ i p. test_bit-ones 64 i ∙ ground arith;
    }
  ]
]

-- Bit `p` of the words `bits`.
abbrev pub at : List ℕ → ℕ → Bool
at bits p = test_bit (get_or bits (p / 64) 0) (p % 64)

div_place : (wj i : ℕ) → i < 64 → (wj * 64 + i) / 64 ≡ wj
div_place wj i h = omega arith

mod_place : (wj i : ℕ) → i < 64 → (wj * 64 + i) % 64 ≡ i
mod_place wj i h = omega arith

-- The outcome of the loop from word `wj` on: every position of the range from there is free, or one
-- is used.
abbrev pub Verdict : List ℕ → ℕ → ℕ → ℕ → Option Bool → Type 0
Verdict bits s e wj r =
    ((r ≡ some true) × ((p : ℕ) → s ≤ p → p ≤ e → wj ≤ p / 64 → at bits p ≡ false))
    ⊎ ((r ≡ some false) × ((p : ℕ) × (s ≤ p) × (p ≤ e) × (at bits p ≡ true)))

module _ (bits : List ℕ) (below : (i : ℕ) → get_or bits i 0 < 2 ^ 64) (s e : ℕ) (le : s ≤ e) where
  covered_free :
      (wj : ℕ) (c : Covers s e wj)
      → ((i : ℕ) → (test_bit (get_or bits wj 0) i && test_bit c.mask i) ≡ false)
      → (p : ℕ) → s ≤ p
      → p ≤ e
      → p / 64 ≡ wj
      → at bits p ≡ false
  covered_free wj c zeros p lo hi here =
      let w = get_or bits wj 0 in
      rw here (ground (arith, zeros (p % 64), c.exact (p % 64) (omega arith)))

  pub range_free-Verdict :
      (r wj : ℕ)
      → wj + r ≡ e / 64 + 1
      → s / 64 ≤ wj
      → e / 64 < length bits
      → Verdict bits s e wj (range_free bits s e r wj)
  unfolding range_free
  range_free-Verdict zero wj h lo inside = inl (refl, λ p p1 p2 p3. absurd (omega arith))
  range_free-Verdict (suc r) wj h lo there =
      let c = range_mask-Covers s e wj le lo (omega arith) in
      let known : leb (length bits) wj ≡ false = lt→not_leb (length bits) wj (omega arith) in
      elim (and_mask_cases (get_or bits wj 0) c.mask (below wj) c.below) [
        | inr (used, (i, small, in_word, in_mask)) ↦
            let inside = sym (c.exact i small) ∙ in_mask in
            inr (
              rw (c.is_mask, range_free, known, used),
              (
                wj * 64 + i,
                ground arith,
                ground arith,
                rw (div_place wj i small, mod_place wj i small) in_word,
              ),
            )
        | inl (free, zeros) ↦
            elim (range_free-Verdict r (wj + 1) (omega arith) (omega arith) there) [
              | inl (t, rest) ↦ inl (
                rw (c.is_mask, range_free, known, free) t,
                λ p p1 p2 p3. elim (Bool-cases (p / 64 == wj)) [
                  | inl here ↦ covered_free wj c zeros p p1 p2 (==→eq _ _ here)
                  | inr later ↦ rest p p1 p2 (ground arith)
                ],
              )
              | inr (t, hit) ↦ inr (rw (c.is_mask, range_free, known, free) t, hit)
            ]
      ]
