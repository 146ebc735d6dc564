-- ===== src/Prelude/Bits/Digits.antt =====
-- A native bit operation recurs on binary digits. One lemma reads the result of that recursion bit
-- by bit, for any operation on digits; `&`, `|` and `^` are instances.
use Prim.Native.Nat.{ℕ, zero, suc, ◌+◌, ◌*◌, ◌/◌, ◌%◌, ◌^◌, ◌≤◌, ◌<◌, min, max, differ, digits}
use Prim.Native.Nat.{bit_and, bit_or, bit_xor, bit_and-bitwise, bit_or-bitwise, bit_xor-bitwise}
use mathlib.Core.Path.{◌≡◌, refl, sym, ap, ◌∙◌}
use mathlib.Core.Bool.{Bool, false, not, ◌&&◌, ◌||◌, xor}
use native.Mathlib.Omega.{arith}
use native.Mathlib.Nat.{pow-suc, one-le-pow}
use memory3d.Prelude.Tests.{◌==◌, if◌then◌else◌}
use memory3d.Prelude.Words.{and_not}

-- Bit `i` of `w`.
abbrev pub test_bit : ℕ → ℕ → Bool
test_bit w zero = w % 2 == 1
test_bit w (suc i) = test_bit (w / 2) i

pub test_bit-zero : (i : ℕ) → test_bit 0 i ≡ false
test_bit-zero zero = refl
test_bit-zero (suc i) = test_bit-zero i

half : (q r : ℕ) → r < 2 → (q * 2 + r) / 2 ≡ q
half q r h = omega arith

module _ (z : ℕ → ℕ) (f : ℕ → ℕ → ℕ) (g : Bool → Bool → Bool)
    (bound : (a b : ℕ) → f (a % 2) (b % 2) < 2)
    (low : (q a b : ℕ) → ((q * 2 + f (a % 2) (b % 2)) % 2 == 1) ≡ g (a % 2 == 1) (b % 2 == 1))
    (rest : (i b : ℕ) → test_bit (z b) i ≡ g false (test_bit b i)) where
  test_bit-digits :
      (n i a b : ℕ) → a ≤ n → test_bit (digits z f n a b) i ≡ g (test_bit a i) (test_bit b i)
  test_bit-digits zero i zero b h = rest i b ∙ ap (λ t. g t (test_bit b i)) (sym (test_bit-zero i))
  test_bit-digits zero i (suc a) b h = absurd (omega arith)
  test_bit-digits (suc n) i zero b h =
      rest i b ∙ ap (λ t. g t (test_bit b i)) (sym (test_bit-zero i))
  test_bit-digits (suc n) zero (suc a) b h = low _ (suc a) b
  test_bit-digits (suc n) (suc i) (suc a) b h =
      ap (λ (w : ℕ). test_bit w i) (half (digits z f n (suc a / 2) (b / 2)) _ (bound (suc a) b))
      ∙ test_bit-digits n i (suc a / 2) (b / 2) (omega arith)

  digits-lt :
      (n k a b : ℕ)
      → ((j c : ℕ) → c < 2 ^ j → z c < 2 ^ j)
      → a ≤ n
      → a < 2 ^ k
      → b < 2 ^ k
      → digits z f n a b < 2 ^ k
  digits-lt zero k zero b zs h p q = zs k b q
  digits-lt zero k (suc a) b zs h p q = absurd (omega arith)
  digits-lt (suc n) k zero b zs h p q = zs k b q
  digits-lt (suc n) zero (suc a) b zs h p q = absurd (omega arith)
  digits-lt (suc n) (suc k) (suc a) b zs h p q = omega (
    arith,
    pow-suc 2 k,
    bound (suc a) b,
    digits-lt n k (suc a / 2) (b / 2) zs (omega arith) (omega (arith, pow-suc 2 k))
        (omega (arith, pow-suc 2 k)),
  )

pub test_bit-and : (i a b : ℕ) → test_bit (bit_and a b) i ≡ (test_bit a i && test_bit b i)
test_bit-and i a b = rw bit_and-bitwise (
    test_bit-digits (λ b. 0) min ◌&&◌ (λ a b. omega arith) (λ q a b. ground arith)
      (λ i b. test_bit-zero i) a i a b (omega arith))

pub test_bit-or : (i a b : ℕ) → test_bit (bit_or a b) i ≡ (test_bit a i || test_bit b i)
test_bit-or i a b = rw bit_or-bitwise (
    test_bit-digits (λ b. b) max ◌||◌ (λ a b. omega arith) (λ q a b. ground arith) (λ i b. refl) a i
      a b (omega arith))

differ-lt : (a b : ℕ) → a < 2 → b < 2 → differ a b < 2
differ-lt zero b p q = q
differ-lt (suc zero) zero p q = omega arith
differ-lt (suc zero) (suc b) p q = omega arith
differ-lt (suc (suc a)) b p q = absurd (omega arith)

differ_lem : (a b : ℕ) → a < 2 → b < 2 → differ a b ≡ (if a == b then 0 else 1)
differ_lem zero zero p q = refl
differ_lem zero (suc b) p q = ground arith
differ_lem (suc zero) zero p q = refl
differ_lem (suc zero) (suc zero) p q = refl
differ_lem (suc zero) (suc (suc b)) p q = absurd (omega arith)
differ_lem (suc (suc a)) b p q = absurd (omega arith)

pub test_bit-xor : (i a b : ℕ) → test_bit (bit_xor a b) i ≡ xor (test_bit a i) (test_bit b i)
unfolding xor
test_bit-xor i a b = rw bit_xor-bitwise (
    test_bit-digits (λ b. b) differ xor (λ a b. omega (arith, differ-lt (a % 2) (b % 2)))
      (λ q a b. ground (arith, differ_lem (a % 2) (b % 2))) (λ i b. ground arith) a i a b
      (omega arith))

pub test_bit-and_not : (i a b : ℕ) → test_bit (and_not a b) i ≡ (test_bit a i && not (test_bit b i))
unfolding xor
test_bit-and_not i a b = rw (test_bit-xor i a (bit_and a b), test_bit-and i a b) (ground arith)

pub bit_and-lt : (k a b : ℕ) → a < 2 ^ k → b < 2 ^ k → bit_and a b < 2 ^ k
bit_and-lt k a b p q = rw bit_and-bitwise (
    digits-lt (λ b. 0) min ◌&&◌ (λ a b. omega arith) (λ q a b. ground arith)
      (λ i b. test_bit-zero i) a k a b (λ j c h. one-le-pow j 2 (omega arith)) (omega arith) p q)

pub bit_or-lt : (k a b : ℕ) → a < 2 ^ k → b < 2 ^ k → bit_or a b < 2 ^ k
bit_or-lt k a b p q = rw bit_or-bitwise (
    digits-lt (λ b. b) max ◌||◌ (λ a b. omega arith) (λ q a b. ground arith) (λ i b. refl) a k a b
      (λ j c h. h) (omega arith) p q)

pub bit_xor-lt : (k a b : ℕ) → a < 2 ^ k → b < 2 ^ k → bit_xor a b < 2 ^ k
unfolding xor
bit_xor-lt k a b p q = rw bit_xor-bitwise (
    digits-lt (λ b. b) differ xor (λ a b. omega (arith, differ-lt (a % 2) (b % 2)))
      (λ q a b. ground (arith, differ_lem (a % 2) (b % 2))) (λ i b. ground arith) a k a b
      (λ j c h. h) (omega arith) p q)

pub and_not-lt : (k a b : ℕ) → a < 2 ^ k → b < 2 ^ k → and_not a b < 2 ^ k
and_not-lt k a b p q = bit_xor-lt k a (bit_and a b) p (bit_and-lt k a b p q)
