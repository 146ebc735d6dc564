-- ===== src/Types/Bitmap/Counting.antt =====
-- FreeBytes and UsedBytes: the population counts of the words are the number of used positions.
use native.Mathlib.Nat.{zero-add, suc-add}
use memory3d.Prelude.{
  ℕ, zero, suc, ◌+◌, ◌-◌, ◌*◌, ◌/◌, ◌%◌, ◌≤◌, ◌^◌, ◌<◌, ◌≡◌, refl, sym, ap, ◌∙◌, Bool, true, false,
  ◌&&◌, ◌||◌, List, [], ◌∷◌, arith, if◌then◌else◌, length,
}
use memory3d.Prelude.Bits.{test_bit, ones_count}
use memory3d.Types.Bitmap.{
  Bitmap, new_bitmap, total_set, free_bytes, used_bytes, set_range, clear_range,
}
use memory3d.Types.Bitmap.Positions.{IsValid, bit_at, bit_at-new_bitmap, new_bitmap-IsValid}
use memory3d.Types.Bitmap.Ranges.{
  within, bit_at-set_range, bit_at-clear_range, set_range-IsValid, clear_range-IsValid,
  set_range-size, clear_range-size,
}
use memory3d.Types.Bitmap.Candidate.{at}

-- How many of f 0, …, f (n - 1) hold.
pub count_true : ℕ → (ℕ → Bool) → ℕ
count_true zero f = 0
count_true (suc n) f = (if f 0 then 1 else 0) + count_true n (λ i. f (suc i))

count_true-ext :
    (n : ℕ) (f g : ℕ → Bool) → ((i : ℕ) → i < n → f i ≡ g i) → count_true n f ≡ count_true n g
unfolding count_true
count_true-ext zero f g same = refl
count_true-ext (suc n) f g same = ground (
  arith,
  same 0 (omega arith),
  count_true-ext n (λ i. f (suc i)) (λ i. g (suc i)) (λ i p. same (suc i) (omega arith)),
)

count_true-add :
    (m n : ℕ) (f : ℕ → Bool) → count_true (m + n) f ≡ count_true m f + count_true n (λ i. f (m + i))
unfolding count_true
count_true-add zero n f =
    rw zero-add
      (omega (arith, count_true-ext n f (λ i. f (0 + i)) (λ i p. ap f (sym (zero-add i)))))
count_true-add (suc m) n f = rw suc-add (
    omega (
      arith,
      count_true-add m n (λ i. f (suc i)),
      count_true-ext n (λ i. f (suc m + i)) (λ i. f (suc (m + i))) (λ i p. ap f (suc-add m i)),
    ))

-- Two tests that never hold together.
count_true-or :
    (n : ℕ) (f g : ℕ → Bool)
    → ((i : ℕ) → i < n → (f i && g i) ≡ false)
    → count_true n (λ i. f i || g i) ≡ count_true n f + count_true n g
unfolding count_true
count_true-or zero f g apart = refl
count_true-or (suc n) f g apart = ground (
  arith,
  apart 0 (omega arith),
  count_true-or n (λ i. f (suc i)) (λ i. g (suc i)) (λ i p. apart (suc i) (omega arith)),
)

count_true-le : (n m : ℕ) (f : ℕ → Bool) → ((i : ℕ) → m ≤ i → f i ≡ false) → count_true n f ≤ m
unfolding count_true
count_true-le zero m f above = omega arith
count_true-le (suc n) zero f above = ground (
  arith,
  above 0 (omega arith),
  count_true-le n zero (λ i. f (suc i)) (λ i p. above (suc i) (omega arith)),
)
count_true-le (suc n) (suc m) f above =
    ground (arith, count_true-le n m (λ i. f (suc i)) (λ i p. above (suc i) (omega arith)))

count_true-within : (n lo hi : ℕ) → hi ≤ n → count_true n (within lo hi) ≡ hi - lo
unfolding count_true
count_true-within zero lo hi h = omega arith
count_true-within (suc n) lo zero h =
    omega (arith, count_true-le (suc n) 0 (within lo 0) (λ i p. ground arith))
count_true-within (suc n) zero (suc hi) h = ground (
  arith,
  count_true-ext n (λ i. within 0 (suc hi) (suc i)) (within 0 hi) (λ i p. ground arith),
  count_true-within n 0 hi (omega arith),
)
count_true-within (suc n) (suc lo) (suc hi) h = ground (
  arith,
  count_true-ext n (λ i. within (suc lo) (suc hi) (suc i)) (within lo hi) (λ i p. ground arith),
  count_true-within n lo hi (omega arith),
)

ones_count-eq : (k w : ℕ) → ones_count k w ≡ count_true k (test_bit w)
unfolding ones_count count_true
ones_count-eq zero w = refl
ones_count-eq (suc k) w = ground (arith, ones_count-eq k (w / 2))

count_true-zero : (f : ℕ → Bool) → count_true 0 f ≡ 0
unfolding count_true
count_true-zero f = refl

at-cons : (w : ℕ) (ws : List ℕ) (i : ℕ) → i < 64 → at (w ∷ ws) i ≡ test_bit w i
at-cons w ws i h = let d : i / 64 ≡ 0 = omega arith in let m : i % 64 ≡ i = omega arith in rw (d, m)

at-cons_later : (w : ℕ) (ws : List ℕ) (i : ℕ) → at (w ∷ ws) (64 + i) ≡ at ws i
at-cons_later w ws i =
    let d : (64 + i) / 64 ≡ suc (i / 64) = omega arith in
    let m : (64 + i) % 64 ≡ i % 64 = omega arith in rw (d, m)

total_set-eq : (bits : List ℕ) → total_set bits ≡ count_true (length bits * 64) (at bits)
unfolding total_set
total_set-eq [] = sym (count_true-zero (at []))
total_set-eq (w ∷ ws) =
    let split : suc (length ws) * 64 ≡ 64 + length ws * 64 = omega arith in
    rw split (
      omega (
        arith,
        count_true-add 64 (length ws * 64) (at (w ∷ ws)),
        ones_count-eq 64 w,
        count_true-ext 64 (at (w ∷ ws)) (test_bit w) (at-cons w ws),
        count_true-ext (length ws * 64) (λ i. at (w ∷ ws) (64 + i)) (at ws)
            (λ i p. at-cons_later w ws i),
        total_set-eq ws,
      ))

-- The number of used positions.
pub used_count : Bitmap → ℕ
used_count b = count_true (length b.bits * 64) (bit_at b)

module _ (b : Bitmap) (v : IsValid b) where
  used_count-le : used_count b ≤ b.size
  unfolding used_count
  used_count-le = count_true-le (length b.bits * 64) b.size (bit_at b) v.tail_clear

  -- UsedBytes and FreeBytes are exact: the conversions to uint16 lose nothing.
  used_bytes-eq : used_bytes b ≡ used_count b
  unfolding used_bytes used_count
  used_bytes-eq = omega (arith, total_set-eq b.bits, used_count-le, v.small)

  pub free_bytes-add_used : free_bytes b + used_count b ≡ b.size
  unfolding free_bytes used_count
  free_bytes-add_used = omega (arith, total_set-eq b.bits, used_count-le, v.small)

  same_words : (b' : Bitmap) → IsValid b' → b'.size ≡ b.size → length b'.bits ≡ length b.bits
  same_words b' v' e = omega (arith, v.words, v'.words)

  -- `big` has the positions of `small` and the free range from `lo` to `hi`.
  used_count-or_range :
      (small big : ℕ → Bool) (lo hi : ℕ)
      → hi ≤ b.size
      → ((p : ℕ) → big p ≡ (small p || within lo hi p))
      → ((p : ℕ) → (small p && within lo hi p) ≡ false)
      → count_true (length b.bits * 64) big ≡ count_true (length b.bits * 64) small + (hi - lo)
  used_count-or_range small big lo hi h both apart =
      count_true-ext (length b.bits * 64) big (λ p. small p || within lo hi p) (λ p q. both p)
      ∙ omega (
        arith,
        count_true-or (length b.bits * 64) small (within lo hi) (λ p q. apart p),
        count_true-within (length b.bits * 64) lo hi (omega (arith, v.words)),
      )

  -- Taking a free range uses up exactly its length.
  pub used_count-set_range :
      (lo hi : ℕ)
      → hi ≤ b.size
      → ((p : ℕ) → lo ≤ p → p < hi → bit_at b p ≡ false)
      → used_count (set_range b lo hi) ≡ used_count b + (hi - lo)
  unfolding used_count
  used_count-set_range lo hi h free =
      let b' = set_range b lo hi in
      ap (λ (n : ℕ). count_true (n * 64) (bit_at b'))
        (same_words b' (set_range-IsValid b lo hi v) (set_range-size b lo hi))
      ∙ used_count-or_range (bit_at b) (bit_at b') lo hi h
          (λ p. bit_at-set_range b lo hi p v ∙ ground arith) (λ p. ground (arith, free p))

  -- Giving back a used range gives back exactly its length.
  pub used_count-clear_range :
      (lo hi : ℕ)
      → hi ≤ b.size
      → ((p : ℕ) → lo ≤ p → p < hi → bit_at b p ≡ true)
      → used_count (clear_range b lo hi) + (hi - lo) ≡ used_count b
  unfolding used_count
  used_count-clear_range lo hi h used =
      let b' = clear_range b lo hi in
      ap (λ (n : ℕ). count_true (n * 64) (bit_at b') + (hi - lo))
        (same_words b' (clear_range-IsValid b lo hi v) (clear_range-size b lo hi))
      ∙ sym (
          used_count-or_range (bit_at b') (bit_at b) lo hi h
            (λ p. ground (arith, bit_at-clear_range b lo hi p v, used p))
            (λ p. ground (arith, bit_at-clear_range b lo hi p v)))

  pub free_bytes-le : free_bytes b ≤ b.size
  free_bytes-le = omega (arith, free_bytes-add_used)

module _ (b : Bitmap) (v : IsValid b) (lo hi : ℕ) (h : hi ≤ b.size) where
  -- SetRange over a free range of a valid bitmap within its size takes exactly its length off
  -- what FreeBytes reports.
  pub free_bytes-set_range :
      ((p : ℕ) → lo ≤ p → p < hi → bit_at b p ≡ false)
      → free_bytes (set_range b lo hi) + (hi - lo) ≡ free_bytes b
  free_bytes-set_range free = omega (
    arith,
    free_bytes-add_used b v,
    free_bytes-add_used (set_range b lo hi) (set_range-IsValid b lo hi v),
    used_count-set_range b v lo hi h free,
    set_range-size b lo hi,
  )

  -- ClearRange over a used range of a valid bitmap within its size adds exactly its length to
  -- what FreeBytes reports.
  pub free_bytes-clear_range :
      ((p : ℕ) → lo ≤ p → p < hi → bit_at b p ≡ true)
      → free_bytes (clear_range b lo hi) ≡ free_bytes b + (hi - lo)
  free_bytes-clear_range used = omega (
    arith,
    free_bytes-add_used b v,
    free_bytes-add_used (clear_range b lo hi) (clear_range-IsValid b lo hi v),
    used_count-clear_range b v lo hi h used,
    clear_range-size b lo hi,
  )

-- A new bitmap is free.
pub free_bytes-new_bitmap : (size : ℕ) → size < 2 ^ 16 → free_bytes (new_bitmap size) ≡ size
unfolding used_count new_bitmap
free_bytes-new_bitmap size small =
    let b = new_bitmap size in
    omega (
      arith,
      free_bytes-add_used b (new_bitmap-IsValid size small),
      count_true-le (length b.bits * 64) 0 (bit_at b) (λ i h. bit_at-new_bitmap size i),
    )
