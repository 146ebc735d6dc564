-- ===== src/Allocator/Ownership/Blocks.antt =====
-- What callers of allocator.go may rely on while Y-promotion serves no request: blocks are apart, the
-- counters are exact, and a block that was allocated is freed once.
use memory3d.Prelude.{
  ℕ, ◌+◌, ◌^◌, ◌≤◌, ◌<◌, ◌≡◌, refl, ap, subst, ◌∙◌, Bool, false, none, some, ==_refl, either,
  lookup, insert, lookup-erase, lookup-insert_self, u64, not64,
}
use memory3d.Types.Allocation.{Allocation, deref, size_at, is_y_promoted}
use memory3d.Types.Plane.{Plane, free_bytes}
use memory3d.Types.Region.{Region, find_plane, write_plane}
use memory3d.Types.Region.Laws.{plane_free, find_plane-write_plane}
use memory3d.Allocator.{
  Config, Allocator3D, got, free_failed, allocate, FreeResult, free_in_region, free_sync,
  free_concurrent, free_allocation,
}
use memory3d.Allocator.Ownership.Planes.{Owns, without, freed_eq, free_bytes-without}
use memory3d.Allocator.Ownership.Regions.{entries}
use memory3d.Allocator.Ownership.Releasing.{found_plane, free_absent}
use memory3d.Allocator.Ownership.Paths.{Holds, lookup-Kept, Located, Answer, Settled}
use memory3d.Allocator.Ownership.Reachability.{
  Unpromoted, allocate-Settled, Reachable, Reachable-Holds,
}

module _ (config : Config) (a : Allocator3D) (sized : 0 < config.plane_size)
    (half : config.plane_size ≤ 2 ^ 15) (reached : Reachable config a) where
  -- In every state of an allocator whose plane size is between 1 and 2 ^ 15, that calls for
  -- sizes above 0 of Allocate and, with one of its regions, of AllocateInRegion and calls of
  -- Free lead to from a new one, where in each Allocate tryYPromotion, if the fast path found
  -- nothing, finds nothing too and changes nothing, and where each Free is of a block whose
  -- region is not there, or that has fewer than two fragments and, if its start is entered in
  -- its plane, the size entered there, the objects entered in a plane own its used positions:
  -- each has a byte or more and lies in the plane on used positions, no start is entered twice,
  -- no two overlap, and the bytes free and the bytes of the objects add up to the plane's size.
  pub Reachable-Owns :
      (id y : ℕ) (r : Region) (p : Plane)
      → lookup id a.regions ≡ some r
      → find_plane y r.planes ≡ some p
      → Owns a.heap p
  Reachable-Owns id y r p is_region is_plane =
      let s = Reachable-Holds config a sized half reached in
      let k = (lookup-Kept a.heap id a.regions r is_region s.kept).1 in
      (found_plane a.heap y r.planes p is_plane k.owned).1

  -- In every state of an allocator whose plane size is between 1 and 2 ^ 15, that calls for
  -- sizes above 0 of Allocate and, with one of its regions, of AllocateInRegion and calls of
  -- Free lead to from a new one, where in each Allocate tryYPromotion, if the fast path found
  -- nothing, finds nothing too and changes nothing, and where each Free is of a block whose
  -- region is not there, or that has fewer than two fragments and, if its start is entered in
  -- its plane, the size entered there, each region's FreeBytes is the sum of what its planes
  -- have free, and its AllocCount the number of entries of its planes, both modulo 2 ^ 64.
  pub Reachable-counters :
      (id : ℕ) (r : Region)
      → lookup id a.regions ≡ some r
      → (r.free_bytes ≡ u64 (plane_free r.planes)) × (r.alloc_count ≡ u64 (entries r.planes))
  Reachable-counters id r is_region =
      let s = Reachable-Holds config a sized half reached in
      let k = (lookup-Kept a.heap id a.regions r is_region s.kept).1 in (k.free, k.count)

  -- In every state of an allocator whose plane size is between 1 and 2 ^ 15, that calls for
  -- sizes above 0 of Allocate and, with one of its regions, of AllocateInRegion and calls of
  -- Free lead to from a new one, where in each Allocate tryYPromotion, if the fast path found
  -- nothing, finds nothing too and changes nothing, and where each Free is of a block whose
  -- region is not there, or that has fewer than two fragments and, if its start is entered in
  -- its plane, the size entered there, an Allocate of a size above 0, with tryYPromotion again
  -- finding nothing and changing nothing if it is reached, does not panic, and a pointer that it
  -- returns leads to an object of that size without fragments whose address leads, by its region
  -- and its plane, to the entry of that pointer.
  pub allocate-Answer :
      (full : Bool) (now size kind flags : ℕ)
      → 0 < size
      → Unpromoted now a size kind flags
      → Answer size (allocate full now a size kind flags)
  allocate-Answer full now size kind flags pos unpromoted =
      (allocate-Settled full now a size kind flags pos unpromoted
        (Reachable-Holds config a sized half reached)).1

free_allocation_sync : (a : Allocator3D) (o : Allocation) → free_allocation a o ≡ free_sync a o
unfolding free_allocation free_concurrent
free_allocation_sync a o =
    either (λ (r : Allocator3D × FreeResult). r ≡ free_sync a o) a.config.enable_concurrent refl
      refl

-- The region and the plane of a block after the block is freed: it succeeds, the entry is gone, its
-- bytes are free in the plane and counted in the region, and another attempt is refused.
pub record Freed (b : Allocator3D) (o : Allocation) : Type 0 where
  pub succeeds : (free_allocation b o).1 ≡ none
  pub region : Region
  pub region' : Region
  pub plane : Plane
  pub plane' : Plane
  pub is_region : lookup o.address.x b.regions ≡ some region
  pub is_region' : lookup o.address.x (free_allocation b o).0.regions ≡ some region'
  pub is_plane : find_plane o.address.y region.planes ≡ some plane
  pub is_plane' : find_plane o.address.y region'.planes ≡ some plane'
  pub gone : lookup o.address.z plane'.allocations ≡ none
  pub more : free_bytes plane' ≡ free_bytes plane + o.size
  pub counted : region'.free_bytes ≡ u64 (region.free_bytes + o.size)
  pub once :
      free_allocation (free_allocation b o).0 o
      ≡ ((free_allocation b o).0, some (free_failed o.address))

module _ (b : Allocator3D) (ptr size : ℕ) (s : Holds b) (t : Located b ptr size) where
  abbrev o : Allocation
  o = t.object

  own : Owns b.heap t.plane
  own =
      let k = (lookup-Kept b.heap o.address.x b.regions t.region t.is_region s.kept).1 in
      (found_plane b.heap o.address.y t.region.planes t.plane t.is_plane k.owned).1

  plane_left : Plane
  plane_left = without b.heap t.plane o.address.z ptr own t.entered

  freed_region : Region
  freed_region = record t.region {
    planes = write_plane plane_left t.region.planes;
    alloc_count = u64 (t.region.alloc_count + not64 0);
    free_bytes = u64 (t.region.free_bytes + o.size);
  }

  freed_state : Allocator3D
  freed_state = record b {
    regions = insert t.region.id freed_region b.regions;
    stats = record b.stats { frees = u64 (b.stats.frees + 1) };
  }

  one_plane : is_y_promoted o ≡ false
  unfolding is_y_promoted
  one_plane = rw t.whole refl

  in_region :
      free_in_region b.heap o t.region.planes ≡ (write_plane plane_left t.region.planes, none)
  unfolding plane_left free_in_region
  in_region =
      rw
        (
          one_plane,
          t.is_plane,
          free_in_region,
          freed_eq b.heap t.plane o.address.z ptr own t.entered,
        )
        refl

  frees_once : free_allocation b o ≡ (freed_state, none)
  unfolding freed_region freed_state free_sync
  frees_once = free_allocation_sync b o ∙ rw (free_sync, t.is_region, in_region) refl

  region_after : lookup o.address.x freed_state.regions ≡ some freed_region
  unfolding freed_state
  region_after =
      let (same_id, _) = lookup-Kept b.heap o.address.x b.regions t.region t.is_region s.kept in
      subst (λ (x : ℕ). lookup x (insert t.region.id freed_region b.regions) ≡ some freed_region)
        same_id (lookup-insert_self t.region.id freed_region b.regions)

  plane_after : find_plane o.address.y freed_region.planes ≡ some plane_left
  unfolding freed_region plane_left
  plane_after =
      find_plane-write_plane o.address.y t.region.planes t.plane plane_left t.is_plane refl

  entry_after : lookup o.address.z plane_left.allocations ≡ none
  unfolding plane_left
  entry_after =
      lookup-erase o.address.z o.address.z t.plane.allocations ∙ rw (==_refl o.address.z) refl

  refused_again : free_allocation freed_state o ≡ (freed_state, some (free_failed o.address))
  unfolding free_sync free_in_region
  refused_again =
      free_allocation_sync freed_state o
      ∙ rw
          (
            free_sync,
            region_after,
            one_plane,
            plane_after,
            free_in_region,
            free_absent freed_state.heap plane_left o.address.z entry_after,
          )
          refl

  more_bytes : free_bytes plane_left ≡ free_bytes t.plane + o.size
  unfolding plane_left
  more_bytes =
      free_bytes-without b.heap t.plane o.address.z ptr own t.entered
      ∙ rw (t.is_object, size_at) refl

  pub located-Freed : Freed b o
  unfolding freed_region
  located-Freed = record {
    succeeds = ap (λ (r : Allocator3D × FreeResult). r.1) frees_once;
    region = t.region;
    region' = freed_region;
    plane = t.plane;
    plane' = plane_left;
    is_region = t.is_region;
    is_region' = rw frees_once region_after;
    is_plane = t.is_plane;
    is_plane' = plane_after;
    gone = entry_after;
    more = more_bytes;
    counted = refl;
    once = rw frees_once refused_again;
  }

module _ (config : Config) (a : Allocator3D) (sized : 0 < config.plane_size)
    (half : config.plane_size ≤ 2 ^ 15) (reached : Reachable config a) where
  -- In every state of an allocator whose plane size is between 1 and 2 ^ 15, that calls for
  -- sizes above 0 of Allocate and, with one of its regions, of AllocateInRegion and calls of
  -- Free lead to from a new one, where in each Allocate tryYPromotion, if the fast path found
  -- nothing, finds nothing too and changes nothing, and where each Free is of a block whose
  -- region is not there, or that has fewer than two fragments and, if its start is entered in
  -- its plane, the size entered there, a block that Allocate then returns for a size above 0,
  -- with tryYPromotion again finding nothing and changing nothing if it is reached, has the size
  -- asked for, and Free of it succeeds: its entry is gone from its plane, the plane has as many
  -- more bytes free, the region's FreeBytes grows by them modulo 2 ^ 64, and a second Free of it
  -- changes nothing and is refused.
  pub free_allocation-allocate :
      (full : Bool) (now size kind flags : ℕ) (b : Allocator3D) (ptr : ℕ) (o : Allocation)
      → 0 < size
      → Unpromoted now a size kind flags
      → allocate full now a size kind flags ≡ (b, got ptr)
      → deref b.heap ptr ≡ some o
      → (o.size ≡ size) × Freed b o
  free_allocation-allocate full now size kind flags b ptr o pos unpromoted e is_o =
      let (s, t) = subst (Settled size) e (
        allocate-Settled full now a size kind flags pos unpromoted
          (Reachable-Holds config a sized half reached)) in
      let same : t.object ≡ o = cc (t.is_object, is_o) in
      subst (λ (x : Allocation). (x.size ≡ size) × Freed b x) same
        (t.is_size, located-Freed b ptr size s t)
