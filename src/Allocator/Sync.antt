-- ===== src/Allocator/Sync.antt =====
-- allocateNewRegion, allocateSync and Allocate.
use memory3d.Prelude.{ℕ, ◌+◌, Bool, [], ◌∷◌, leb, if◌then◌else◌, length, insert, u64}
use memory3d.Types.Plane.{free_bytes}
use memory3d.Types.Region.{new_region, add_plane}
use memory3d.Allocator.State.{
  Allocator3D, Result, got, nothing, panicked, failed, failed_in_new_plane, insufficient_memory,
  get_plane_from_pool,
}
use memory3d.Allocator.Fast.{placed, unplaced, crashed, place, commit, try_fast_allocation}
use memory3d.Allocator.Promotion.{try_y_promotion}

unfoldable pub allocate_new_region : ℕ → Allocator3D → ℕ → ℕ → ℕ → Allocator3D × Result
allocate_new_region now a size kind flags =
    let id = u64 (a.next_region_id + 1) in
    let plane = get_plane_from_pool a.config 0 id in
    let region = add_plane (new_region now id kind) plane in
    let a' = record a { next_region_id = id; regions = insert id region a.regions } in
    if leb size (free_bytes plane)
    then elim (place (length a.heap) size (plane ∷ [])) [
      | placed planes plane_id start ↦ commit now a' region planes plane_id start size kind flags
      | unplaced ↦ (a', failed failed_in_new_plane)
      | crashed ↦ (a', panicked)
    ]
    else (a', failed (insufficient_memory size))

-- The next path is tried where one has found nothing.
abbrev pub or_else :
    Allocator3D × Result → (Allocator3D → Allocator3D × Result) → Allocator3D × Result
or_else (a, nothing) next = next a
or_else (a, got ptr) next = (a, got ptr)
or_else (a, panicked) next = (a, panicked)
or_else (a, failed e) next = (a, failed e)

unfoldable pub allocate_sync : ℕ → Allocator3D → ℕ → ℕ → ℕ → Allocator3D × Result
allocate_sync now a size kind flags = or_else (try_fast_allocation now a size kind) λ a1.
    or_else (try_y_promotion now a1 size kind flags)
      λ a2. allocate_new_region now a2 size kind flags

-- A worker runs the same code under the same mutex, and so does the fallback for a full queue.
unfoldable pub do_allocate : ℕ → Allocator3D → ℕ → ℕ → ℕ → Allocator3D × Result
do_allocate = allocate_sync

unfoldable pub allocate_concurrent : Bool → ℕ → Allocator3D → ℕ → ℕ → ℕ → Allocator3D × Result
unfolding do_allocate
allocate_concurrent queue_full now a size kind flags =
    if queue_full then allocate_sync now a size kind flags else do_allocate now a size kind flags

unfoldable pub allocate : Bool → ℕ → Allocator3D → ℕ → ℕ → ℕ → Allocator3D × Result
unfolding allocate_concurrent
allocate queue_full now a size kind flags =
    if a.config.enable_concurrent
    then allocate_concurrent queue_full now a size kind flags
    else allocate_sync now a size kind flags
