-- ===== src/Tests/Ownership.antt =====
-- Blocks of an allocator without Y-promotion on concrete inputs.
use memory3d.Prelude.{◌≡◌, refl, ap, subst, arith, false, [], ◌∷◌, u64}
use memory3d.Prelude.Bits.{trailing_zeros, ones_count}
use memory3d.Types.Allocation.{Allocation, new_allocation}
use memory3d.Types.Bitmap.{
  new_bitmap, find_contiguous, scan_words, free_bits_at, scan_word, range_free, range_mask,
  total_set, set_range,
}
use memory3d.Types.Bitmap.{free_bytes as bitmap_free}
use memory3d.Types.Plane.{allocate as plane_allocate}
use memory3d.Types.Plane.{Plane, new_plane}
use memory3d.Types.Region.{Region, new_region, add_plane, find_plane}
use memory3d.Types.Region.Laws.{plane_free}
use memory3d.Allocator.{
  Config, Allocator3D, Result, got, new_allocator3d, allocate, allocate_sync, fast_loop,
  try_fast_allocation, try_y_promotion, allocate_new_region, get_plane_from_pool, place, commit,
  promote_region_lru, remove_id,
}
use memory3d.Allocator.Ownership.Planes.{Owns}
use memory3d.Allocator.Ownership.Regions.{entries}
use memory3d.Allocator.Ownership.Paths.{Answer}
use memory3d.Allocator.Ownership.Reachability.{Unpromoted, Reachable, start, next, allocates}
use memory3d.Allocator.Ownership.Blocks.{
  Reachable-Owns, Reachable-counters, allocate-Answer, Freed, free_allocation-allocate,
}

abbrev config : Config
config = record {
  plane_size = 8;
  max_y_planes = 1024;
  max_y_promotions = 0;
  worker_count = 4;
  enable_concurrent = false;
  enable_pooling = false;
}

abbrev fresh : Allocator3D
fresh = new_allocator3d config

-- After one block of 3 bytes of the heap type.
abbrev block : Allocation
block = new_allocation 5 2 (record { x = 2; y = 0; z = 0 }) 3 4

abbrev heap_plane : Plane
heap_plane = record (new_plane 0 2 8) {
  free_map = record { bits = 7 ∷ []; size = 8 };
  allocations = (0, 0) ∷ [];
}

abbrev heap_region : Region
heap_region = record (new_region 5 2 4) {
  planes = heap_plane ∷ [];
  alloc_count = 1;
  free_bytes = 5;
  total_bytes = 8;
}

abbrev one_block : Allocator3D
one_block = record fresh {
  heap = block ∷ [];
  regions = (2, heap_region) ∷ [];
  region_lru = 2 ∷ [];
  next_region_id = 2;
  next_alloc_id = 2;
}

block_got : allocate false 5 fresh 3 4 0 ≡ (one_block, got 0)
unfolding allocate allocate_sync try_fast_allocation fast_loop try_y_promotion allocate_new_region
    get_plane_from_pool place commit promote_region_lru remove_id plane_allocate bitmap_free
    total_set ones_count trailing_zeros find_contiguous scan_words scan_word free_bits_at range_free
    range_mask set_range new_bitmap add_plane new_plane new_region new_allocation new_allocator3d
block_got = refl

fresh-Unpromoted : Unpromoted 5 fresh 3 4 0
unfolding try_y_promotion try_fast_allocation fast_loop new_allocator3d
fresh-Unpromoted = λ e. refl

one_block-Reachable : Reachable config one_block
one_block-Reachable =
    subst (Reachable config) (ap (λ (r : Allocator3D × Result). r.0) block_got)
      (next fresh _ start (allocates false 5 fresh 3 4 0 (omega arith) fresh-Unpromoted))

Reachable-Owns_example : Owns one_block.heap heap_plane
unfolding new_allocator3d find_plane new_region new_plane
Reachable-Owns_example =
    Reachable-Owns config one_block (omega arith) (omega arith) one_block-Reachable 2 0 heap_region
      heap_plane refl refl

Reachable-counters_example :
    (heap_region.free_bytes ≡ u64 (plane_free heap_region.planes))
    × (heap_region.alloc_count ≡ u64 (entries heap_region.planes))
unfolding new_allocator3d
Reachable-counters_example =
    Reachable-counters config one_block (omega arith) (omega arith) one_block-Reachable 2
      heap_region refl

allocate-Answer_example : Answer 3 (allocate false 5 fresh 3 4 0)
allocate-Answer_example =
    allocate-Answer config fresh (omega arith) (omega arith) start false 5 3 4 0 (omega arith)
      fresh-Unpromoted

free_allocation-allocate_example : (block.size ≡ 3) × Freed one_block block
unfolding new_allocator3d
free_allocation-allocate_example =
    free_allocation-allocate config fresh (omega arith) (omega arith) start false 5 3 4 0 one_block
      0 block (omega arith) fresh-Unpromoted block_got refl
