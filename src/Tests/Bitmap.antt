-- ===== src/Tests/Bitmap.antt =====
-- The bitmap on concrete inputs.
use memory3d.Prelude.{◌≡◌, refl, arith}
use memory3d.Prelude.Bits.{trailing_zeros}
use memory3d.Types.Bitmap.{
  Bitmap, found, panic, new_bitmap, set_range, find_contiguous, scan_words, free_bits_at, scan_word,
  range_free, range_mask,
}
use memory3d.Types.Bitmap.Positions.{IsValid, new_bitmap-IsValid}
use memory3d.Types.Bitmap.Ranges.{set_range-IsValid}
use memory3d.Types.Bitmap.Finding.{Outcome, find_contiguous-Outcome}

abbrev hole_in_large : Bitmap
hole_in_large = set_range (new_bitmap 65535) 2 3

large_request_panics : find_contiguous hole_in_large 65534 ≡ panic
unfolding find_contiguous scan_words free_bits_at scan_word range_free range_mask trailing_zeros
    set_range new_bitmap
large_request_panics = refl

unaligned : find_contiguous (set_range (new_bitmap 200) 3 100) 70 ≡ found 100
unfolding find_contiguous scan_words free_bits_at scan_word range_free range_mask trailing_zeros
    set_range new_bitmap
unaligned = refl

abbrev fresh : Bitmap
fresh = new_bitmap 200

abbrev busy : Bitmap
busy = set_range fresh 3 100

fresh-IsValid : IsValid fresh
fresh-IsValid = new_bitmap-IsValid 200 (omega arith)

busy-IsValid : IsValid busy
busy-IsValid = set_range-IsValid fresh 3 100 fresh-IsValid

find_contiguous-Outcome_example : Outcome busy 70 0 (find_contiguous busy 70)
find_contiguous-Outcome_example =
    find_contiguous-Outcome busy 70 busy-IsValid (omega arith) (omega arith)
