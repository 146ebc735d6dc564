-- ===== src/Types/Bitmap/Positions.antt =====
-- bitmap.go read position by position: what Set, Clear and IsSet do to each bit, and the invariant.
use Prim.Native.Nat.{bit_and, bit_or}
use memory3d.Prelude.{
  ℕ, zero, suc, ◌+◌, ◌-◌, ◌*◌, ◌/◌, ◌%◌, ◌^◌, ◌≤◌, ◌<◌, ◌≡◌, refl, sym, ap, ◌∙◌, ◌⊎◌, inl, inr,
  Bool, true, false, not, ◌&&◌, arith, ltb, leb, ◌==◌, if◌then◌else◌, Bool-cases, length, get_or,
  length-replicate, get_or-replicate, get_or-set, length-set, shl64, and_not, ==→eq, leb→le,
}
use memory3d.Prelude.{set as update}
use memory3d.Prelude.Bits.{
  test_bit, test_bit-zero, test_bit-and, test_bit-or, test_bit-and_not, test_bit-mul_pow,
  test_bit-mod_pow, bit_and-lt, bit_or-lt, and_not-lt, bit_of_ne-zero,
}
use memory3d.Types.Bitmap.{Bitmap, out_of_map, new_bitmap, set, clear, is_set}

-- The bit of position `p`.
abbrev pub bit_at : Bitmap → ℕ → Bool
bit_at b p = test_bit (get_or b.bits (p / 64) 0) (p % 64)

-- One word for each 64 positions, the last one with no bit beyond the size.
pub record IsValid (b : Bitmap) : Type 0 where
  pub words : length b.bits ≡ (b.size + 63) / 64
  pub small : b.size < 2 ^ 16
  pub below : (i : ℕ) → get_or b.bits i 0 < 2 ^ 64
  pub tail_clear : (p : ℕ) → b.size ≤ p → bit_at b p ≡ false

test_bit-one : (i : ℕ) → test_bit 1 i ≡ (0 == i)
test_bit-one zero = refl
test_bit-one (suc i) = test_bit-zero i ∙ ground arith

-- `1 << k`.
pub test_bit-single : (k i : ℕ) → k < 64 → i < 64 → test_bit (shl64 1 k) i ≡ (k == i)
test_bit-single k i p q =
    test_bit-mod_pow 64 i (1 * 2 ^ k) ∙ ground (arith, test_bit-mul_pow k i 1, test_bit-one (i - k))

pub shl64-lt : (a k : ℕ) → shl64 a k < 2 ^ 64
shl64-lt a k = omega arith

-- What `word & mask == 0` decides.
pub and_mask_cases :
    (w m : ℕ)
    → w < 2 ^ 64
    → m < 2 ^ 64
    → (((bit_and w m == 0) ≡ true) × ((i : ℕ) → (test_bit w i && test_bit m i) ≡ false))
      ⊎ (((bit_and w m == 0) ≡ false)
          × ((i : ℕ) × (i < 64) × (test_bit w i ≡ true) × (test_bit m i ≡ true)))
and_mask_cases w m p q = elim (Bool-cases (bit_and w m == 0)) [
  | inl e ↦ inl (
    e,
    λ i. sym (test_bit-and i w m) ∙ ap (λ (t : ℕ). test_bit t i) (==→eq _ 0 e) ∙ test_bit-zero i,
  )
  | inr e ↦
      let b = bit_of_ne-zero 64 (bit_and w m) (bit_and-lt 64 w m p q) (λ z. ground arith) in
      let both = sym (test_bit-and b.0 w m) ∙ b.2 in inr (e, (b.0, b.1, ground arith, ground arith))
]

-- `word & (1 << k) != 0` is bit `k`.
single_test : (w k : ℕ) → w < 2 ^ 64 → k < 64 → not (bit_and w (shl64 1 k) == 0) ≡ test_bit w k
single_test w k p q = elim (and_mask_cases w (shl64 1 k) p (shl64-lt 1 k)) [
  | inl (e, zeros) ↦ ground (arith, zeros k, test_bit-single k k q q)
  | inr (e, (i, below, in_word, in_mask)) ↦
      let same : k ≡ i = ==→eq k i (sym (test_bit-single k i q below) ∙ in_mask) in
      rw e (sym in_word ∙ ap (test_bit w) (sym same))
]

-- Within a valid bitmap the guard is the bound on the position.
pub out_of_map-eq : (b : Bitmap) (p : ℕ) → IsValid b → out_of_map b p ≡ leb b.size p
out_of_map-eq b p v = ground (arith, v.words)

pub is_set-eq : (b : Bitmap) (p : ℕ) → IsValid b → is_set b p ≡ bit_at b p
unfolding is_set
is_set-eq b p v = elim (Bool-cases (leb b.size p)) [
  | inl out ↦ rw (out_of_map-eq b p v, out) (sym (v.tail_clear p (leb→le b.size p out)))
  | inr inside ↦
      rw (out_of_map-eq b p v, inside)
        (single_test (get_or b.bits (p / 64) 0) (p % 64) (v.below (p / 64)) (omega arith))
]

-- The bit of `q` after one word is replaced.
bit_at-update :
    (b : Bitmap) (p q w : ℕ)
    → p / 64 < length b.bits
    → bit_at (record b { bits = update b.bits (p / 64) w }) q
      ≡ (if p / 64 == q / 64 then test_bit w (q % 64) else bit_at b q)
bit_at-update b p q w h = rw (get_or-set b.bits (p / 64) (q / 64) w 0 h) (ground arith)

same_place : (p q : ℕ) → (p / 64 ≡ q / 64) → (p % 64 == q % 64) ≡ (p == q)
same_place p q h = ground arith

in_words : (b : Bitmap) (p : ℕ) → IsValid b → p < b.size → p / 64 < length b.bits
in_words b p v h = omega (arith, v.words)

pub bit_at-set :
    (b : Bitmap) (p q : ℕ)
    → IsValid b
    → bit_at (set b p) q ≡ (if ltb p b.size && (p == q) then true else bit_at b q)
unfolding set
bit_at-set b p q v = elim (Bool-cases (leb b.size p)) [
  | inl out ↦ rw (out_of_map-eq b p v, out) (ground arith)
  | inr inside ↦
      let w = get_or b.bits (p / 64) 0 in
      rw (out_of_map-eq b p v, inside)
        (bit_at-update b p q (bit_or w (shl64 1 (p % 64))) (in_words b p v (ground arith))
          ∙ ground (
            arith,
            test_bit-or (q % 64) w (shl64 1 (p % 64)),
            test_bit-single (p % 64) (q % 64),
            same_place p q,
          ))
]

pub bit_at-clear :
    (b : Bitmap) (p q : ℕ)
    → IsValid b
    → bit_at (clear b p) q ≡ (if ltb p b.size && (p == q) then false else bit_at b q)
unfolding clear
bit_at-clear b p q v = elim (Bool-cases (leb b.size p)) [
  | inl out ↦ rw (out_of_map-eq b p v, out) (ground arith)
  | inr inside ↦
      let w = get_or b.bits (p / 64) 0 in
      rw (out_of_map-eq b p v, inside)
        (bit_at-update b p q (and_not w (shl64 1 (p % 64))) (in_words b p v (ground arith))
          ∙ ground (
            arith,
            test_bit-and_not (q % 64) w (shl64 1 (p % 64)),
            test_bit-single (p % 64) (q % 64),
            same_place p q,
          ))
]

update-below :
    (b : Bitmap) (p w i : ℕ)
    → IsValid b
    → p < b.size
    → w < 2 ^ 64
    → get_or (update b.bits (p / 64) w) i 0 < 2 ^ 64
update-below b p w i v h fits =
    rw (get_or-set b.bits (p / 64) i w 0 (in_words b p v h)) (ground (arith, v.below i))

pub set-size : (b : Bitmap) (p : ℕ) → (set b p).size ≡ b.size
unfolding set
set-size b p = ground arith

pub clear-size : (b : Bitmap) (p : ℕ) → (clear b p).size ≡ b.size
unfolding clear
clear-size b p = ground arith

set-below : (b : Bitmap) (p i : ℕ) → IsValid b → get_or (set b p).bits i 0 < 2 ^ 64
unfolding set
set-below b p i v = elim (Bool-cases (leb b.size p)) [
  | inl out ↦ rw (out_of_map-eq b p v, out) (v.below i)
  | inr inside ↦
      rw (out_of_map-eq b p v, inside)
        (update-below b p _ i v (ground arith)
          (bit_or-lt 64 (get_or b.bits (p / 64) 0) _ (v.below (p / 64)) (shl64-lt 1 (p % 64))))
]

clear-below : (b : Bitmap) (p i : ℕ) → IsValid b → get_or (clear b p).bits i 0 < 2 ^ 64
unfolding clear
clear-below b p i v = elim (Bool-cases (leb b.size p)) [
  | inl out ↦ rw (out_of_map-eq b p v, out) (v.below i)
  | inr inside ↦
      rw (out_of_map-eq b p v, inside)
        (update-below b p _ i v (ground arith)
          (and_not-lt 64 (get_or b.bits (p / 64) 0) _ (v.below (p / 64)) (shl64-lt 1 (p % 64))))
]

set-words : (b : Bitmap) (p : ℕ) → length (set b p).bits ≡ length b.bits
unfolding set
set-words b p =
    ground
      (arith, length-set b.bits (p / 64) (bit_or (get_or b.bits (p / 64) 0) (shl64 1 (p % 64))))

clear-words : (b : Bitmap) (p : ℕ) → length (clear b p).bits ≡ length b.bits
unfolding clear
clear-words b p =
    ground
      (arith, length-set b.bits (p / 64) (and_not (get_or b.bits (p / 64) 0) (shl64 1 (p % 64))))

pub set-IsValid : (b : Bitmap) (p : ℕ) → IsValid b → IsValid (set b p)
set-IsValid b p v = record {
  words = omega (arith, set-words b p, set-size b p, v.words);
  small = omega (arith, set-size b p, v.small);
  below = λ i. set-below b p i v;
  tail_clear = λ q h. ground (arith, bit_at-set b p q v, set-size b p, v.tail_clear q);
}

pub clear-IsValid : (b : Bitmap) (p : ℕ) → IsValid b → IsValid (clear b p)
clear-IsValid b p v = record {
  words = omega (arith, clear-words b p, clear-size b p, v.words);
  small = omega (arith, clear-size b p, v.small);
  below = λ i. clear-below b p i v;
  tail_clear = λ q h. ground (arith, bit_at-clear b p q v, clear-size b p, v.tail_clear q);
}

pub bit_at-new_bitmap : (size p : ℕ) → bit_at (new_bitmap size) p ≡ false
unfolding new_bitmap
bit_at-new_bitmap size p =
    rw (get_or-replicate {A = ℕ} ((size + 63) / 64) (p / 64) 0) (test_bit-zero (p % 64))

pub new_bitmap-IsValid : (size : ℕ) → size < 2 ^ 16 → IsValid (new_bitmap size)
unfolding new_bitmap
new_bitmap-IsValid size h = record {
  words = length-replicate ((size + 63) / 64) 0;
  small = h;
  below = λ i. rw (get_or-replicate {A = ℕ} ((size + 63) / 64) i 0) (omega arith);
  tail_clear = λ p q. unfold new_bitmap in bit_at-new_bitmap size p;
}
