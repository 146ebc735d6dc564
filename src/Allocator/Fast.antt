-- ===== src/Allocator/Fast.antt =====
-- tryFastAllocation, and the search of a region's planes that AllocateInRegion shares.
use memory3d.Prelude.{
  ℕ, ◌+◌, none, some, List, [], ◌∷◌, ◌++◌, ltb, leb, ◌==◌, not, ◌||◌, if◌then◌else◌, length, lookup,
  insert, u16, u64,
}
use memory3d.Types.Address.{Address3D}
use memory3d.Types.Allocation.{new_allocation, alloc_object}
use memory3d.Types.Bitmap.{found, not_found, panic}
use memory3d.Types.Plane.{Plane, allocate, free_bytes, record_allocation}
use memory3d.Types.Region.{Region, add_plane}
use memory3d.Allocator.State.{
  Allocator3D, Result, got, nothing, panicked, failed, failed_in_region, promote_region_lru,
  take_bytes, get_plane_from_pool,
}

-- The planes with the new entry, the plane's ID and the start.
pub data Placed : Type 0 where
  placed : List Plane → ℕ → ℕ → Placed
  unplaced crashed : Placed

abbrev pub behind : Plane → Placed → Placed
behind p (placed ps id start) = placed (p ∷ ps) id start
behind p unplaced = unplaced
behind p crashed = crashed

-- The first plane that has `size` bytes free and a free run of them; the entry leads to `ptr`.
unfoldable pub place : ℕ → ℕ → List Plane → Placed
place ptr size [] = unplaced
place ptr size (p ∷ ps) =
    let rest = behind p (place ptr size ps) in
    if leb size (free_bytes p)
    then elim ((allocate p (u16 size)).1) [
      | found start ↦ placed (record_allocation (allocate p (u16 size)).0 start ptr ∷ ps) p.id start
      | not_found ↦ rest
      | panic ↦ crashed
    ]
    else rest

-- The object, the region's counters and the LRU list after a placement in the region.
unfoldable pub commit :
    ℕ → Allocator3D → Region → List Plane → ℕ → ℕ → ℕ → ℕ → ℕ → Allocator3D × Result
commit now a region planes plane_id start size kind flags =
    let id = u64 (a.next_alloc_id + 1) in
    let addr : Address3D = record { x = region.id; y = plane_id; z = start } in
    let alloc = record (new_allocation now id addr size kind) { flags = flags } in
    let region' = record region {
      planes = planes;
      alloc_count = u64 (region.alloc_count + 1);
      free_bytes = take_bytes region.free_bytes size;
    } in
    (
      promote_region_lru
          (record a {
            heap = alloc_object a.heap alloc;
            regions = insert region.id region' a.regions;
            next_alloc_id = id;
          })
          region.id,
      got (length a.heap),
    )

-- The loop over the LRU list. The flags of the request are not stored on this path.
unfoldable pub fast_loop : ℕ → ℕ → ℕ → Allocator3D → List ℕ → Allocator3D × Result
fast_loop now size kind a [] = (a, nothing)
fast_loop now size kind a (id ∷ ids) =
    let rest = fast_loop now size kind a ids in
    elim (lookup id a.regions) [
      | none ↦ rest
      | some region ↦
          if not (region.kind == kind) || ltb region.free_bytes size
          then rest
          else elim (place (length a.heap) size region.planes) [
            | placed planes plane_id start ↦ commit now a region planes plane_id start size kind 0
            | unplaced ↦ rest
            | crashed ↦ (a, panicked)
          ]
    ]

unfoldable pub try_fast_allocation : ℕ → Allocator3D → ℕ → ℕ → Allocator3D × Result
try_fast_allocation now a size kind = fast_loop now size kind a a.region_lru

-- AllocateInRegion. The region is one of the allocator's. (AddPlane takes the region's lock, which
-- the caller is told to hold; the lock is left out here.)
unfoldable pub allocate_in_region : ℕ → Allocator3D → ℕ → Region → ℕ → Allocator3D × Result
allocate_in_region now a size region flags =
    let plane = get_plane_from_pool a.config (length region.planes) region.id in
    let region' = add_plane region plane in
    let a' = record a { regions = insert region.id region' a.regions } in
    elim (place (length a.heap) size region.planes) [
      | placed planes plane_id start ↦
          commit now a region planes plane_id start size region.kind flags
      | crashed ↦ (a, panicked)
      | unplaced ↦
          if leb size (free_bytes plane)
          then elim (place (length a.heap) size (plane ∷ [])) [
            | placed planes plane_id start ↦
                commit now a' region' (region.planes ++ planes) plane_id start size region.kind
                  flags
            | crashed ↦ (a', panicked)
            | unplaced ↦ (a', failed failed_in_region)
          ]
          else (a', failed failed_in_region)
    ]
