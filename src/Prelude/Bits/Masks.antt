-- ===== src/Prelude/Bits/Masks.antt =====
-- Shifts, cuts, complements and masks, read bit by bit.
use Prim.Native.Nat.{ℕ, zero, suc, ◌+◌, ◌-◌, ◌*◌, ◌/◌, ◌%◌, ◌^◌, ◌≤◌, ◌<◌}
use mathlib.Core.Path.{◌≡◌, refl, sym, ap, ◌∙◌}
use mathlib.Core.Bool.{false, not, ◌&&◌}
use native.Mathlib.Omega.{arith}
use native.Mathlib.Nat.{pow-suc, one-le-pow, mod_def, mul_comm, mul_assoc, mul-div-le, mul-one}
use native.Mathlib.Nat.{div-one, zero-add, suc-add}
use native.Mathlib.Nat.{div-div-eq-div-mul, sub-zero, zero-sub, suc-sub-suc, mod-one, mod-eq_of_lt}
use memory3d.Prelude.Tests.{ltb, leb}
use memory3d.Prelude.Bits.Digits.{test_bit, test_bit-zero}

mul-two_pow-half : (a k : ℕ) → ((a * 2 ^ suc k) / 2 ≡ a * 2 ^ k) × ((a * 2 ^ suc k) % 2 ≡ 0)
mul-two_pow-half a k = omega (arith, ap (λ (t : ℕ). a * t) (pow-suc 2 k))

mod-two_pow-half : (a k : ℕ) → ((a % 2 ^ suc k) / 2 ≡ a / 2 % 2 ^ k) × ((a % 2 ^ suc k) % 2 ≡ a % 2)
mod-two_pow-half a k = rw (pow-suc 2 k) (
    omega (
      arith,
      mod_def a (2 ^ k * 2),
      mod_def (a / 2) (2 ^ k),
      ap (λ (t : ℕ). 2 ^ k * 2 * t)
          (ap (λ (t : ℕ). a / t) (mul_comm (2 ^ k) 2) ∙ sym (div-div-eq-div-mul a 2 (2 ^ k))),
      mul_assoc (2 ^ k) 2 (a / 2 / 2 ^ k),
      mul-div-le (a / 2) (2 ^ k),
    ))

-- A word that is known to be twice `q`, give or take the lowest bit.
test_bit-half : (i w q : ℕ) → w / 2 ≡ q → test_bit w (suc i) ≡ test_bit q i
test_bit-half i w q e = ap (λ (t : ℕ). test_bit t i) e

-- `a << k`.
pub test_bit-mul_pow : (k i a : ℕ) → test_bit (a * 2 ^ k) i ≡ (leb k i && test_bit a (i - k))
test_bit-mul_pow zero i a = rw (mul-one a, sub-zero i) (ground arith)
test_bit-mul_pow (suc k) zero a = ground (arith, mul-two_pow-half a k)
test_bit-mul_pow (suc k) (suc i) a =
    test_bit-half i (a * 2 ^ suc k) (a * 2 ^ k) (mul-two_pow-half a k).0
    ∙ test_bit-mul_pow k i a
    ∙ rw suc-sub-suc (ground arith)

-- Cutting a word to its low `k` bits.
pub test_bit-mod_pow : (k i a : ℕ) → test_bit (a % 2 ^ k) i ≡ (ltb i k && test_bit a i)
test_bit-mod_pow zero i a = rw mod-one (ground (arith, test_bit-zero i))
test_bit-mod_pow (suc k) zero a = ground (arith, mod-two_pow-half a k)
test_bit-mod_pow (suc k) (suc i) a =
    test_bit-half i (a % 2 ^ suc k) (a / 2 % 2 ^ k) (mod-two_pow-half a k).0
    ∙ test_bit-mod_pow k i (a / 2)
    ∙ ground arith

-- Complement within k bits.
pub test_bit-complement :
    (k i a : ℕ) → a < 2 ^ k → test_bit (2 ^ k - 1 - a) i ≡ (ltb i k && not (test_bit a i))
test_bit-complement zero i a h = rw zero-sub (ground (arith, test_bit-zero i))
test_bit-complement (suc k) zero a h = ground (arith, pow-suc 2 k)
test_bit-complement (suc k) (suc i) a h =
    test_bit-half i (2 ^ suc k - 1 - a) (2 ^ k - 1 - a / 2) (omega (arith, pow-suc 2 k))
    ∙ test_bit-complement k i (a / 2) (omega (arith, pow-suc 2 k))
    ∙ ground arith

-- k ones.
pub test_bit-ones : (k i : ℕ) → test_bit (2 ^ k - 1) i ≡ ltb i k
test_bit-ones k i =
    ap (λ (t : ℕ). test_bit t i) (sym (sub-zero (2 ^ k - 1)))
    ∙ test_bit-complement k i 0 (one-le-pow k 2 (omega arith))
    ∙ ground (arith, test_bit-zero i)

-- A word of k bits has no bit from k on.
pub test_bit-above : (k i a : ℕ) → a < 2 ^ k → k ≤ i → test_bit a i ≡ false
test_bit-above k i a h above =
    ap (λ (t : ℕ). test_bit t i) (sym (mod-eq_of_lt h)) ∙ test_bit-mod_pow k i a ∙ ground arith

-- A word that is not 0 has a bit, and a word with no bit is 0.
pub eq-zero_of_bits : (k a : ℕ) → a < 2 ^ k → ((i : ℕ) → i < k → test_bit a i ≡ false) → a ≡ 0
eq-zero_of_bits zero a h none_set = omega arith
eq-zero_of_bits (suc k) a h none_set = ground (
  arith,
  none_set 0 (omega arith),
  eq-zero_of_bits k (a / 2) (omega (arith, pow-suc 2 k)) (λ i p. none_set (suc i) (omega arith)),
)

-- Two words of k bits with the same bits are equal.
pub eq_of_bits :
    (k a b : ℕ) → a < 2 ^ k → b < 2 ^ k → ((i : ℕ) → i < k → test_bit a i ≡ test_bit b i) → a ≡ b
eq_of_bits zero a b h p same = omega arith
eq_of_bits (suc k) a b h p same = ground (
  arith,
  same 0 (omega arith),
  eq_of_bits k (a / 2) (b / 2) (omega (arith, pow-suc 2 k)) (omega (arith, pow-suc 2 k))
      (λ i q. same (suc i) (omega arith)),
)

-- A word whose bits are all below k is below 2 ^ k.
pub lt_two_pow_of_bits :
    (n k a : ℕ) → a < 2 ^ n → ((i : ℕ) → k ≤ i → i < n → test_bit a i ≡ false) → a < 2 ^ k
lt_two_pow_of_bits n zero a h high =
    omega (arith, eq-zero_of_bits n a h (λ i p. high i (omega arith) p))
lt_two_pow_of_bits zero (suc k) a h high = omega (arith, one-le-pow (suc k) 2 (omega arith))
lt_two_pow_of_bits (suc n) (suc k) a h high = omega (
  arith,
  pow-suc 2 k,
  lt_two_pow_of_bits n k (a / 2) (omega (arith, pow-suc 2 n))
      (λ i p q. high (suc i) (omega arith) (omega arith)),
)

-- `a >> k`.
pub test_bit-div_pow : (k i a : ℕ) → test_bit (a / 2 ^ k) i ≡ test_bit a (k + i)
test_bit-div_pow zero i a = rw (div-one a, zero-add i) refl
test_bit-div_pow (suc k) i a =
    ap (λ (t : ℕ). test_bit t i)
      (ap (λ (t : ℕ). a / t) (pow-suc 2 k ∙ mul_comm (2 ^ k) 2)
        ∙ sym (div-div-eq-div-mul a 2 (2 ^ k)))
    ∙ test_bit-div_pow k i (a / 2)
    ∙ ap (test_bit a) (sym (suc-add k i))
