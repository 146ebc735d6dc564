-- ===== src/Types/Bitmap.antt =====
-- internal/types/bitmap.go: the used and free bytes of a plane, 64 to a word.
pub mod Positions
pub mod Ranges
pub mod Candidate
pub mod Finding
pub mod Counting
use Prim.Native.Nat.{bit_and, bit_or}
use memory3d.Prelude.{
  ℕ, zero, suc, ◌+◌, ◌-◌, ◌*◌, ◌/◌, ◌%◌, ◌^◌, Bool, true, false, not, ◌&&◌, ◌||◌, Option, none,
  some, List, [], ◌∷◌, ltb, leb, ◌==◌, if◌then◌else◌, length, get_or, replicate, u16, sub16, sub64,
  not64, shl64, shr, and_not,
}
use memory3d.Prelude.{set as update}
use memory3d.Prelude.Bits.{ones_count, trailing_zeros}

pub record Bitmap : Type 0 where
  pub bits : List ℕ
  pub size : ℕ

unfoldable pub new_bitmap : ℕ → Bitmap
new_bitmap size = record { bits = replicate ((size + 63) / 64) 0; size = size }

-- The guard that Set, Clear and IsSet share: no word for this position.
abbrev pub out_of_map : Bitmap → ℕ → Bool
out_of_map b pos = (leb b.size pos || (length b.bits == 0)) || leb (length b.bits) (pos / 64)

unfoldable pub set : Bitmap → ℕ → Bitmap
set b pos = if out_of_map b pos then b else record b {
  bits = update b.bits (pos / 64) (bit_or (get_or b.bits (pos / 64) 0) (shl64 1 (pos % 64)));
}

unfoldable pub clear : Bitmap → ℕ → Bitmap
clear b pos = if out_of_map b pos then b else record b {
  bits = update b.bits (pos / 64) (and_not (get_or b.bits (pos / 64) 0) (shl64 1 (pos % 64)));
}

unfoldable pub is_set : Bitmap → ℕ → Bool
is_set b pos =
    if out_of_map b pos
    then false
    else not (bit_and (get_or b.bits (pos / 64) 0) (shl64 1 (pos % 64)) == 0)

-- The three results of FindContiguous. `panic` is Go's run-time panic, on a negative shift
-- count or an index out of range.
pub data Search : Type 0 where
  found : ℕ → Search
  not_found panic : Search

-- The bits of word `wj` that a candidate range covers; `none` is the panic on a negative shift.
unfoldable pub range_mask : ℕ → ℕ → ℕ → Option ℕ
range_mask start_pos end_pos wj =
    let start_bit = start_pos % 64 in
    let end_bit = end_pos % 64 in
    if (wj == start_pos / 64) && (wj == end_pos / 64)
    then if ltb (end_bit + 1) start_bit
      then none
      else some (shl64 (sub64 (shl64 1 (end_bit + 1 - start_bit)) 1) start_bit)
    else if wj == start_pos / 64
    then some (shl64 (not64 0) start_bit)
    else if wj == end_pos / 64
    then some (sub64 (shl64 1 (end_bit + 1)) 1)
    else some (not64 0)

-- The loop over the words from `wj` on, with `rounds` of them left. `none` is also the panic on a
-- word that is not there.
unfoldable pub range_free : List ℕ → ℕ → ℕ → ℕ → ℕ → Option Bool
range_free bits start_pos end_pos zero wj = some true
range_free bits start_pos end_pos (suc rounds) wj =
    let rest = range_free bits start_pos end_pos rounds (wj + 1) in
    elim (range_mask start_pos end_pos wj) [
      | none ↦ none
      | some mask ↦
          if leb (length bits) wj
          then none
          else if bit_and (get_or bits wj 0) mask == 0
          then rest
          else some false
    ]

-- The loop over the free bits of word `wi`; `none` goes on to the next word. The fuel is for 64 bits
-- and the last test.
unfoldable pub scan_word : ℕ → Bitmap → ℕ → ℕ → ℕ → Option Search
scan_word zero b size wi free_bits = none
scan_word (suc fuel) b size wi free_bits =
    let tz = trailing_zeros 64 free_bits in
    let start_pos = u16 (wi * 64 + tz) in
    let end_pos = u16 (start_pos + size + 2 ^ 16 - 1) in
    let rest = scan_word fuel b size wi (and_not free_bits (shl64 1 tz)) in
    if free_bits == 0
    then none
    else if ltb b.size (u16 (start_pos + size))
    then some not_found
    else elim (range_free b.bits start_pos end_pos (end_pos / 64 + 1 - start_pos / 64)
        (start_pos / 64)) [
          | none ↦ some panic
          | some true ↦ some (found start_pos)
          | some false ↦ rest
        ]

-- The free bits of word `wi`, those beyond the size masked out in the last word.
unfoldable pub free_bits_at : Bitmap → ℕ → ℕ
free_bits_at b wi =
    let free = not64 (get_or b.bits wi 0) in
    let remaining = sub16 b.size (u16 (wi * 64)) in
    if (wi == length b.bits - 1) && ltb remaining 64
    then bit_and free (shr (not64 0) (64 - remaining))
    else free

-- The loop over the words from `wi` on, with `rounds` of them left.
unfoldable pub scan_words : ℕ → Bitmap → ℕ → ℕ → Search
scan_words zero b size wi = not_found
scan_words (suc rounds) b size wi =
    let rest = scan_words rounds b size (wi + 1) in
    if not64 (get_or b.bits wi 0) == 0
    then rest
    else elim (scan_word 65 b size wi (free_bits_at b wi)) [ none ↦ rest | some r ↦ r ]

unfoldable pub find_contiguous : Bitmap → ℕ → Search
find_contiguous b size =
    if ((size == 0) || ltb b.size size) || (length b.bits == 0)
    then not_found
    else scan_words (length b.bits) b size 0

-- `for i := start; i < end; i++`, with `end - start` rounds.
pub set_loop : ℕ → Bitmap → ℕ → Bitmap
unfolding set
set_loop zero b i = b
set_loop (suc rounds) b i = set_loop rounds (set b i) (i + 1)

unfoldable pub set_range : Bitmap → ℕ → ℕ → Bitmap
unfolding set_loop
set_range b start end = set_loop (end - start) b start

pub clear_loop : ℕ → Bitmap → ℕ → Bitmap
unfolding clear
clear_loop zero b i = b
clear_loop (suc rounds) b i = clear_loop rounds (clear b i) (i + 1)

unfoldable pub clear_range : Bitmap → ℕ → ℕ → Bitmap
unfolding clear_loop
clear_range b start end = clear_loop (end - start) b start

unfoldable pub total_set : List ℕ → ℕ
total_set [] = 0
total_set (word ∷ words) = ones_count 64 word + total_set words

unfoldable pub free_bytes : Bitmap → ℕ
unfolding total_set
free_bytes b = sub16 b.size (u16 (total_set b.bits))

unfoldable pub used_bytes : Bitmap → ℕ
unfolding total_set
used_bytes b = u16 (total_set b.bits)

-- The loop of Fragmentation: holes seen, and whether the last position was in one.
unfoldable pub count_holes : ℕ → Bitmap → ℕ → ℕ → Bool → ℕ
unfolding is_set
count_holes zero b i holes in_hole = holes
count_holes (suc rounds) b i holes in_hole =
    count_holes rounds b (i + 1) (if is_set b i || in_hole then holes else holes + 1)
      (not (is_set b i))

abbrev pub bits_len : Bitmap → ℕ
bits_len b = length b.bits

unfoldable pub first_word : Bitmap → ℕ
first_word b = if length b.bits == 0 then 0 else get_or b.bits 0 0
