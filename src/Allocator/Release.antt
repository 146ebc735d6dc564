-- ===== src/Allocator/Release.antt =====
-- Free.
use memory3d.Prelude.{
  ◌+◌, Option, none, some, List, [], ◌∷◌, if◌then◌else◌, lookup, insert, u64, not64,
}
use memory3d.Types.Allocation.{Heap, Allocation, Fragment, is_y_promoted}
use memory3d.Types.Plane.{Plane, free}
use memory3d.Types.Region.{Region, find_plane, write_plane}
use memory3d.Allocator.State.{Allocator3D, Error, region_not_found, plane_not_found, free_failed}

-- `none` is success.
abbrev pub FreeResult : Type 0
FreeResult = Option Error

-- Every fragment's plane is asked to free the fragment's start; what it answers is ignored.
unfoldable pub free_fragments : Heap → List Fragment → List Plane → List Plane
free_fragments h [] planes = planes
free_fragments h (f ∷ fs) planes = free_fragments h fs (elim (find_plane f.plane_id planes) [
  | none ↦ planes
  | some p ↦ write_plane (free h p f.start_z).0 planes
])

unfoldable pub free_in_region : Heap → Allocation → List Plane → List Plane × FreeResult
unfolding free_fragments
free_in_region h alloc planes =
    if is_y_promoted alloc
    then (free_fragments h alloc.fragments planes, none)
    else elim (find_plane alloc.address.y planes) [
      | none ↦ (planes, some (plane_not_found alloc.address.y))
      | some p ↦
          if (free h p alloc.address.z).1
          then (write_plane (free h p alloc.address.z).0 planes, none)
          else (planes, some (free_failed alloc.address))
    ]

-- The counters of the region and of the allocator after a success.
abbrev pub settle_free :
    Allocator3D → Allocation → Region → List Plane × FreeResult → Allocator3D × FreeResult
settle_free a alloc region (planes, some e) = (a, some e)
settle_free a alloc region (planes, none) = (
  record a {
    regions =
        insert region.id
          (record region {
            planes = planes;
            alloc_count = u64 (region.alloc_count + not64 0);
            free_bytes = u64 (region.free_bytes + alloc.size);
          })
          a.regions;
    stats = record a.stats { frees = u64 (a.stats.frees + 1) };
  },
  none,
)

unfoldable pub free_sync : Allocator3D → Allocation → Allocator3D × FreeResult
unfolding free_in_region
free_sync a alloc = elim (lookup alloc.address.x a.regions) [
  | none ↦ (a, some (region_not_found alloc.address.x))
  | some region ↦ settle_free a alloc region (free_in_region a.heap alloc region.planes)
]

unfoldable pub free_concurrent : Allocator3D → Allocation → Allocator3D × FreeResult
free_concurrent = free_sync

unfoldable pub free_allocation : Allocator3D → Allocation → Allocator3D × FreeResult
unfolding free_concurrent free_sync
free_allocation a alloc =
    if a.config.enable_concurrent then free_concurrent a alloc else free_sync a alloc
