-- ===== src/Tests/Planes.antt =====
-- Planes, regions and the allocator on concrete inputs.
use memory3d.Prelude.{
  ℕ, ◌+◌, ◌-◌, ◌^◌, ◌≤◌, ◌≡◌, refl, arith, true, false, ◌==◌, if◌then◌else◌, none, [], ◌∷◌, lookup,
}
use memory3d.Types.Bitmap.{
  found, new_bitmap, find_contiguous, scan_words, free_bits_at, scan_word, range_free, range_mask,
  total_set,
}
use memory3d.Types.Bitmap.{free_bytes as bitmap_free}
use memory3d.Prelude.Bits.{trailing_zeros, ones_count}
use memory3d.Types.Bitmap.Positions.{bit_at, bit_at-new_bitmap}
use memory3d.Types.Bitmap.Finding.{IsRun, NoRun}
use memory3d.Types.Allocation.{Heap, new_allocation}
use memory3d.Types.Plane.{allocate as plane_allocate}
use memory3d.Types.Plane.{Plane, new_plane, free, free_bytes, record_allocation}
use memory3d.Types.Plane.Laws.{
  IsValid, Takes, new_plane-IsValid, allocate-Takes, allocate_sound, free-allocate,
}
use memory3d.Types.Region.{Region, new_region, add_plane, remove_plane, get_plane, find_plane}
use memory3d.Types.Region.Laws.{
  IsCounted, add_plane-IsCounted, remove_plane-IsCounted, remove_plane_full,
}
use memory3d.Allocator.{Config, place}
use memory3d.Allocator.Placing.{PlaceOutcome, place-PlaceOutcome}
use memory3d.Allocator.Promoter.{find_best_fit}
use memory3d.Allocator.Promoter.Plans.Covering.{PlanCovers}
use memory3d.Allocator.Promoter.Plans.{find_best_fit-PlanCovers}

abbrev plane : Plane
plane = new_plane 0 1 100

plane-IsValid : IsValid plane
plane-IsValid = new_plane-IsValid 0 1 100 (omega arith)

run_fits : 15 ≤ (new_bitmap 100).size
unfolding new_bitmap
run_fits = omega arith

plane-IsRun : IsRun plane.free_map 10 5
unfolding new_plane
plane-IsRun = (run_fits, λ p lo hi. bit_at-new_bitmap 100 p)

allocate-Takes_example :
    (t : ℕ) × ((plane_allocate plane 10).1 ≡ found t)
    × (t ≤ 5)
    × NoRun plane.free_map 10 0 t
    × Takes plane t 10 (plane_allocate plane 10).0
allocate-Takes_example = allocate-Takes plane 10 5 plane-IsValid (omega arith) plane-IsRun

abbrev taken_plane : Plane
taken_plane = (plane_allocate plane 10).0

plane_allocates : plane_allocate plane 10 ≡ (taken_plane, found 0)
unfolding plane_allocate find_contiguous scan_words free_bits_at scan_word range_free range_mask
    trailing_zeros new_plane new_bitmap
plane_allocates = refl

plane-Takes : Takes plane 0 10 taken_plane
plane-Takes =
    allocate_sound plane taken_plane 10 0 plane-IsValid (omega arith) (omega arith) plane_allocates
      (omega arith)

abbrev heap : Heap
heap = new_allocation 0 1 (record { x = 1; y = 0; z = 0 }) 10 4 ∷ []

free-allocate_example :
    let r = free heap (record_allocation taken_plane 0 0) 0 in
    (r.1 ≡ true)
    × ((pos : ℕ) → bit_at r.0.free_map pos ≡ bit_at plane.free_map pos)
    × (free_bytes r.0 ≡ free_bytes plane)
    × ((s : ℕ) → lookup s r.0.allocations ≡ (if 0 == s then none else lookup s plane.allocations))
unfolding new_allocation
free-allocate_example =
    free-allocate heap plane taken_plane 10 0 0 plane-IsValid (omega arith) plane-Takes refl

-- Regions.
abbrev region : Region
region = new_region 0 1 4

region-IsCounted : IsCounted region
unfolding new_region
region-IsCounted = record { free = refl; total = refl }

add_plane-IsCounted_example : IsCounted (add_plane region plane)
unfolding new_region new_plane bitmap_free total_set ones_count new_bitmap
add_plane-IsCounted_example =
    add_plane-IsCounted region plane region-IsCounted (omega arith) (omega arith)

abbrev one_plane : Region
one_plane = record region { planes = plane ∷ []; free_bytes = 100; total_bytes = 100 }

one_plane-IsCounted : IsCounted one_plane
unfolding new_region new_plane bitmap_free total_set ones_count new_bitmap
one_plane-IsCounted = record { free = refl; total = refl }

remove_plane-IsCounted_example : IsCounted (remove_plane one_plane 0).0
unfolding new_region new_plane bitmap_free total_set ones_count new_bitmap get_plane find_plane
remove_plane-IsCounted_example =
    remove_plane-IsCounted one_plane plane one_plane-IsCounted (omega arith) (omega arith) refl
      (omega arith) (omega arith) (omega arith) (omega arith)

abbrev full_plane : Plane
full_plane = record (new_plane 0 1 64) { free_map = record { bits = (2 ^ 64 - 1) ∷ []; size = 64 } }

abbrev full_region : Region
full_region = record region { planes = full_plane ∷ []; free_bytes = 70000 }

remove_plane_full_example : (remove_plane full_region 0).0.free_bytes + 2 ^ 16 ≡ 70000
unfolding new_region new_plane bitmap_free total_set ones_count new_bitmap get_plane find_plane
remove_plane_full_example =
    remove_plane_full full_region full_plane refl refl (omega arith) (omega arith)

-- The allocator.
place-PlaceOutcome_example : PlaceOutcome 0 10 (plane ∷ []) (place 0 10 (plane ∷ []))
place-PlaceOutcome_example =
    place-PlaceOutcome 0 10 (plane ∷ []) (plane-IsValid, tt) (omega arith) (omega arith)

abbrev config : Config
config = record {
  plane_size = 100;
  max_y_planes = 1024;
  max_y_promotions = 8;
  worker_count = 4;
  enable_concurrent = false;
  enable_pooling = false;
}

find_best_fit-PlanCovers_example :
    PlanCovers
      (plane ∷ new_plane 1 1 100 ∷ [])
      150
      (find_best_fit [] 150 (plane ∷ new_plane 1 1 100 ∷ []))
find_best_fit-PlanCovers_example =
    find_best_fit-PlanCovers [] 150 (plane ∷ new_plane 1 1 100 ∷ []) (omega arith)
