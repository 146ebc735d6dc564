-- ===== src/Types/Bitmap/Ranges.antt =====
-- SetRange and ClearRange of bitmap.go: exactly the positions of the range change.
use memory3d.Prelude.{
  ℕ, zero, suc, ◌+◌, ◌-◌, ◌≡◌, refl, ◌∙◌, Bool, true, false, ◌&&◌, arith, ltb, leb, if◌then◌else◌,
}
use memory3d.Types.Bitmap.{Bitmap, set, clear, set_loop, clear_loop, set_range, clear_range}
use memory3d.Types.Bitmap.Positions.{
  IsValid, bit_at, bit_at-set, bit_at-clear, set-IsValid, clear-IsValid, set-size, clear-size,
}

abbrev pub within : ℕ → ℕ → ℕ → Bool
within lo hi p = leb lo p && ltb p hi

set_loop-size : (n : ℕ) (b : Bitmap) (i : ℕ) → (set_loop n b i).size ≡ b.size
unfolding set_loop
set_loop-size zero b i = refl
set_loop-size (suc n) b i = set_loop-size n (set b i) (i + 1) ∙ set-size b i

clear_loop-size : (n : ℕ) (b : Bitmap) (i : ℕ) → (clear_loop n b i).size ≡ b.size
unfolding clear_loop
clear_loop-size zero b i = refl
clear_loop-size (suc n) b i = clear_loop-size n (clear b i) (i + 1) ∙ clear-size b i

set_loop-IsValid : (n : ℕ) (b : Bitmap) (i : ℕ) → IsValid b → IsValid (set_loop n b i)
unfolding set_loop
set_loop-IsValid zero b i v = v
set_loop-IsValid (suc n) b i v = set_loop-IsValid n (set b i) (i + 1) (set-IsValid b i v)

clear_loop-IsValid : (n : ℕ) (b : Bitmap) (i : ℕ) → IsValid b → IsValid (clear_loop n b i)
unfolding clear_loop
clear_loop-IsValid zero b i v = v
clear_loop-IsValid (suc n) b i v = clear_loop-IsValid n (clear b i) (i + 1) (clear-IsValid b i v)

bit_at-set_loop :
    (n : ℕ) (b : Bitmap) (i q : ℕ)
    → IsValid b
    → bit_at (set_loop n b i) q ≡ (if within i (i + n) q && ltb q b.size then true else bit_at b q)
unfolding set_loop
bit_at-set_loop zero b i q v = ground arith
bit_at-set_loop (suc n) b i q v = ground (
  arith,
  bit_at-set_loop n (set b i) (i + 1) q (set-IsValid b i v),
  bit_at-set b i q v,
  set-size b i,
)

bit_at-clear_loop :
    (n : ℕ) (b : Bitmap) (i q : ℕ)
    → IsValid b
    → bit_at (clear_loop n b i) q
      ≡ (if within i (i + n) q && ltb q b.size then false else bit_at b q)
unfolding clear_loop
bit_at-clear_loop zero b i q v = ground arith
bit_at-clear_loop (suc n) b i q v = ground (
  arith,
  bit_at-clear_loop n (clear b i) (i + 1) q (clear-IsValid b i v),
  bit_at-clear b i q v,
  clear-size b i,
)

pub set_range-size : (b : Bitmap) (lo hi : ℕ) → (set_range b lo hi).size ≡ b.size
unfolding set_range
set_range-size b lo hi = set_loop-size (hi - lo) b lo

pub clear_range-size : (b : Bitmap) (lo hi : ℕ) → (clear_range b lo hi).size ≡ b.size
unfolding clear_range
clear_range-size b lo hi = clear_loop-size (hi - lo) b lo

pub set_range-IsValid : (b : Bitmap) (lo hi : ℕ) → IsValid b → IsValid (set_range b lo hi)
unfolding set_range
set_range-IsValid b lo hi v = set_loop-IsValid (hi - lo) b lo v

pub clear_range-IsValid : (b : Bitmap) (lo hi : ℕ) → IsValid b → IsValid (clear_range b lo hi)
unfolding clear_range
clear_range-IsValid b lo hi v = clear_loop-IsValid (hi - lo) b lo v

pub bit_at-set_range :
    (b : Bitmap) (lo hi q : ℕ)
    → IsValid b
    → bit_at (set_range b lo hi) q ≡ (if within lo hi q && ltb q b.size then true else bit_at b q)
unfolding set_range
bit_at-set_range b lo hi q v = bit_at-set_loop (hi - lo) b lo q v ∙ ground arith

pub bit_at-clear_range :
    (b : Bitmap) (lo hi q : ℕ)
    → IsValid b
    → bit_at (clear_range b lo hi) q
      ≡ (if within lo hi q && ltb q b.size then false else bit_at b q)
unfolding clear_range
bit_at-clear_range b lo hi q v = bit_at-clear_loop (hi - lo) b lo q v ∙ ground arith
