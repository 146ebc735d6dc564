-- ===== src/Prelude/Bits/Counts.antt =====
-- math/bits: OnesCount64 and TrailingZeros64, over the low `k` bits.
use Prim.Native.Nat.{ℕ, zero, suc, ◌+◌, ◌/◌, ◌%◌, ◌^◌, ◌<◌}
use mathlib.Core.Path.{◌≡◌}
use mathlib.Core.Bool.{true, false}
use mathlib.Core.Logic.{◌≢◌, inl, inr}
use native.Mathlib.Omega.{arith}
use native.Mathlib.Nat.{pow-suc}
use memory3d.Prelude.Tests.{◌==◌, Bool-cases, if◌then◌else◌}
use memory3d.Prelude.Bits.Digits.{test_bit}

unfoldable pub ones_count : ℕ → ℕ → ℕ
ones_count zero w = 0
ones_count (suc k) w = w % 2 + ones_count k (w / 2)

unfoldable pub trailing_zeros : ℕ → ℕ → ℕ
trailing_zeros zero w = 0
trailing_zeros (suc k) w = let rest = trailing_zeros k (w / 2) in if w % 2 == 1 then 0 else suc rest

-- Of a word that is not 0, the lowest bit.
pub trailing_zeros_lem :
    (k w : ℕ)
    → w < 2 ^ k
    → w ≢ 0
    → (trailing_zeros k w < k)
      × (test_bit w (trailing_zeros k w) ≡ true)
      × ((i : ℕ) → i < trailing_zeros k w → test_bit w i ≡ false)
unfolding trailing_zeros
trailing_zeros_lem zero w h ne = absurd (ne (omega arith))
trailing_zeros_lem (suc k) w h ne = elim (Bool-cases (w % 2 == 1)) [
  | inl odd ↦ rw odd (omega arith, odd, λ i p. absurd (omega arith))
  | inr even ↦
      let ih = trailing_zeros_lem k (w / 2) (omega (arith, pow-suc 2 k)) (λ e. ne (ground arith)) in
      rw even (omega (arith, ih.0), ih.1, low even ih.2)
]
  where
    low :
        (w % 2 == 1) ≡ false
        → ((i : ℕ) → i < trailing_zeros k (w / 2) → test_bit (w / 2) i ≡ false)
        → (i : ℕ) → i < suc (trailing_zeros k (w / 2))
        → test_bit w i ≡ false
    low even rest zero p = even
    low even rest (suc i) p = rest i (omega arith)

-- A word that is not 0 has a set bit.
pub bit_of_ne-zero : (k w : ℕ) → w < 2 ^ k → w ≢ 0 → (i : ℕ) × (i < k) × (test_bit w i ≡ true)
bit_of_ne-zero k w h ne = let tz = trailing_zeros_lem k w h ne in (trailing_zeros k w, tz.0, tz.1)
