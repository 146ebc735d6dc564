-- ===== src/Types/Bitmap/Finding/Runs.antt =====
-- Free runs of a bitmap, and what a search may answer.
use memory3d.Prelude.{
  ℕ, ◌+◌, ◌*◌, ◌/◌, ◌%◌, ◌^◌, ◌≤◌, ◌<◌, ◌≡◌, ◌⊎◌, inl, inr, false, not, ◌&&◌, arith, Bool-cases,
  leb, ltb, get_or,
}
use memory3d.Prelude.Bits.{test_bit}
use memory3d.Types.Bitmap.{Bitmap, Search, found, not_found, panic}
use memory3d.Types.Bitmap.Positions.{bit_at}

-- `n` free positions from `s` on, within the bitmap.
abbrev pub IsRun : Bitmap → ℕ → ℕ → Type 0
IsRun b n s = (s + n ≤ b.size) × ((p : ℕ) → s ≤ p → p < s + n → bit_at b p ≡ false)

abbrev pub NoRun : Bitmap → ℕ → ℕ → ℕ → Type 0
NoRun b n lo hi = (s : ℕ) → lo ≤ s → s < hi → ¬ IsRun b n s

-- What a search from position `lo` on may answer. Past `2 ^ 16` the sum of start and size wraps, and
-- the check of the candidate is void.
abbrev pub Outcome : Bitmap → ℕ → ℕ → Search → Type 0
Outcome b n lo (found s) =
    (lo ≤ s)
    × (s < b.size)
    × (bit_at b s ≡ false)
    × NoRun b n lo s
    × (IsRun b n s ⊎ (2 ^ 16 ≤ s + n))
Outcome b n lo not_found = NoRun b n lo b.size
Outcome b n lo panic = (s : ℕ) × (lo ≤ s) × (s < b.size) × NoRun b n lo s × (2 ^ 16 ≤ s + n)

pub NoRun-join :
    (b : Bitmap) (n lo mid hi : ℕ) → NoRun b n lo mid → NoRun b n mid hi → NoRun b n lo hi
NoRun-join b n lo mid hi low high s p q run = elim (Bool-cases (ltb s mid)) [
  | inl before ↦ low s p (ground arith) run
  | inr after ↦ high s (ground arith) q run
]

pub Outcome-below :
    (b : Bitmap) (n lo mid : ℕ) (r : Search)
    → lo ≤ mid
    → NoRun b n lo mid
    → Outcome b n mid r
    → Outcome b n lo r
Outcome-below b n lo mid (found s) h low o =
    (omega arith, o.1, o.2, NoRun-join b n lo mid s low o.3, o.4)
Outcome-below b n lo mid not_found h low o = NoRun-join b n lo mid b.size low o
Outcome-below b n lo mid panic h low o =
    (o.0, omega arith, o.2, NoRun-join b n lo mid o.0 low o.3, o.4)

-- A run starts at a free position of the map.
pub start_of_run :
    (b : Bitmap) (n s : ℕ) → 0 < n → IsRun b n s → (s < b.size) × (bit_at b s ≡ false)
start_of_run b n s h run = (omega (arith, run.0), run.1 s (omega arith) (omega arith))

pub bit_at-word :
    (b : Bitmap) (wi i : ℕ) → i < 64 → bit_at b (wi * 64 + i) ≡ test_bit (get_or b.bits wi 0) i
bit_at-word b wi i h =
    let d : (wi * 64 + i) / 64 ≡ wi = omega arith in
    let m : (wi * 64 + i) % 64 ≡ i = omega arith in rw (d, m)

-- The free bits of word `wi` from bit `k` on.
abbrev pub Rest : Bitmap → ℕ → ℕ → ℕ → Type 0
Rest b wi k free_bits =
    (i : ℕ)
    → i < 64
    → test_bit free_bits i ≡ (leb k i && (ltb (wi * 64 + i) b.size && not (bit_at b (wi * 64 + i))))
