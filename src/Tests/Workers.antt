-- ===== src/Tests/Workers.antt =====
-- The worker goroutines on a pool with one request.
use memory3d.Prelude.{ℕ, ◌+◌, ◌≡◌, refl, arith, true, false, [], ◌∷◌}
use memory3d.Prelude.Bits.{trailing_zeros, ones_count}
use memory3d.Types.Allocation.{new_allocation}
use memory3d.Types.Bitmap.{
  new_bitmap, find_contiguous, scan_words, free_bits_at, scan_word, range_free, range_mask,
  total_set, set_range,
}
use memory3d.Types.Bitmap.{free_bytes as bitmap_free}
use memory3d.Types.Plane.{allocate as plane_allocate}
use memory3d.Types.Plane.{new_plane}
use memory3d.Types.Region.{region_type_heap, new_region, add_plane}
use memory3d.Allocator.{
  Config, got, new_allocator3d, do_allocate, allocate_sync, fast_loop, try_fast_allocation,
  try_y_promotion, allocate_new_region, get_plane_from_pool, place, commit, promote_region_lru,
  remove_id,
}
use memory3d.Allocator.Workers.{
  AllocRequest, Pool, start_workers, run_request, take_request, take_oldest, remove_at, deliver,
  run_taken, worked,
}
use memory3d.Allocator.Workers.Serving.{Works, rest, takes, runs, waiting, answered, work_left}
use memory3d.Allocator.Workers.Finishing.{Ends, workers_serve}

abbrev order_of_five : AllocRequest
order_of_five = record { size = 5; region_type = region_type_heap; flags = 0; result = 9 }

abbrev order_of_six : AllocRequest
order_of_six = record { size = 6; region_type = region_type_heap; flags = 1; result = 8 }

abbrev two_workers : Config
two_workers = record {
  plane_size = 8;
  max_y_planes = 1024;
  max_y_promotions = 0;
  worker_count = 2;
  enable_concurrent = true;
  enable_pooling = false;
}

abbrev both_wait : Pool
both_wait = record (start_workers (new_allocator3d two_workers)) {
  queue = order_of_five ∷ order_of_six ∷ [];
}

abbrev one_taken : Pool
one_taken = record both_wait { queue = order_of_six ∷ []; taken = order_of_five ∷ [] }

abbrev both_taken : Pool
both_taken = record both_wait { queue = []; taken = order_of_five ∷ order_of_six ∷ [] }

-- The second of the two is run first.
abbrev overtaken : Pool
overtaken = record both_taken {
  allocator = (run_request 1 both_taken.allocator order_of_six).0;
  taken = order_of_five ∷ [];
  answers = (8, got 0) ∷ [];
}

six_runs : run_taken 1 both_taken 1 ≡ worked overtaken
unfolding run_taken deliver remove_at start_workers run_request do_allocate allocate_sync
    try_fast_allocation fast_loop try_y_promotion allocate_new_region get_plane_from_pool place
    commit promote_region_lru remove_id plane_allocate bitmap_free total_set ones_count
    trailing_zeros find_contiguous scan_words scan_word free_bits_at range_free range_mask set_range
    new_bitmap add_plane new_plane new_region new_allocation new_allocator3d
six_runs = refl

overtaking : Works 3 both_wait overtaken
unfolding take_request take_oldest start_workers new_allocator3d
overtaking = takes 2 both_wait one_taken overtaken refl (
    takes 1 one_taken both_taken overtaken refl
      (runs 0 1 1 both_taken overtaken overtaken six_runs (rest overtaken)))

workers_serve_example :
    (m : ℕ) × (last : Pool) × Works m overtaken last
    × Ends 4 last
    × (3 + m + work_left last ≡ work_left both_wait)
    × ((id : ℕ)
        → answered id last.answers + waiting id last.taken + waiting id last.queue
          ≡ answered id both_wait.answers + waiting id both_wait.taken + waiting id both_wait.queue)
unfolding start_workers new_allocator3d
workers_serve_example = workers_serve 3 4 both_wait overtaken (omega arith) overtaking
