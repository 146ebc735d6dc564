-- ===== src/Allocator/Reachability.antt =====
-- Each of the allocator's entry points keeps every plane well formed.
use memory3d.Prelude.{
  ℕ, ◌≡◌, refl, inl, inr, Bool, true, Option, none, some, List, [], ◌∷◌, ◌++◌, leb, Bool-cases,
  either, length, lookup, insert, All-append,
}
use memory3d.Types.Allocation.{Allocation}
use memory3d.Types.Plane.{Plane, free_bytes}
use memory3d.Types.Plane.Laws.{IsValid}
use memory3d.Types.Region.{Region, add_plane}
use memory3d.Allocator.State.{
  Allocator3D, Result, got, nothing, panicked, failed, get_plane_from_pool,
}
use memory3d.Allocator.Fast.{
  Placed, placed, unplaced, crashed, place, try_fast_allocation, allocate_in_region,
}
use memory3d.Allocator.Promotion.{try_y_promotion}
use memory3d.Allocator.Sync.{
  allocate_new_region, or_else, allocate_sync, do_allocate, allocate_concurrent, allocate,
}
use memory3d.Allocator.Release.{
  FreeResult, free_in_region, settle_free, free_sync, free_concurrent, free_allocation,
}
use memory3d.Allocator.Validity.{
  IsSound, lookup-valid, insert-valid, put_region, pooled-IsValid, add_plane-valid, commit-IsSound,
}
use memory3d.Allocator.Validity.Planes.{AllPlanes, PlacedValid, place-valid, free_in_region-valid}
use memory3d.Allocator.Preservation.{
  fast_loop-IsSound, try_y_promotion-IsSound, allocate_new_region-IsSound,
}

or_else-IsSound :
    (r : Allocator3D × Result) (next : Allocator3D → Allocator3D × Result)
    → IsSound r.0
    → ((a : Allocator3D) → IsSound a → IsSound (next a).0)
    → IsSound (or_else r next).0
or_else-IsSound (a, nothing) next s after = after a s
or_else-IsSound (a, got ptr) next s after = s
or_else-IsSound (a, panicked) next s after = s
or_else-IsSound (a, failed e) next s after = s

allocate_sync-IsSound :
    (now : ℕ) (a : Allocator3D) (size kind flags : ℕ)
    → IsSound a
    → IsSound (allocate_sync now a size kind flags).0
unfolding allocate_sync try_fast_allocation
allocate_sync-IsSound now a size kind flags s =
    or_else-IsSound (try_fast_allocation now a size kind)
      (λ a1.
        or_else (try_y_promotion now a1 size kind flags)
          λ a2. allocate_new_region now a2 size kind flags)
      (fast_loop-IsSound now size kind a a.region_lru s)
      λ a1 s1.
        or_else-IsSound (try_y_promotion now a1 size kind flags)
          (λ a2. allocate_new_region now a2 size kind flags)
          (try_y_promotion-IsSound now a1 size kind flags s1)
          λ a2 s2. allocate_new_region-IsSound now a2 size kind flags s2

pub allocate-IsSound :
    (full : Bool) (now : ℕ) (a : Allocator3D) (size kind flags : ℕ)
    → IsSound a
    → IsSound (allocate full now a size kind flags).0
unfolding allocate allocate_concurrent do_allocate
allocate-IsSound full now a size kind flags s =
    let sync = allocate_sync-IsSound now a size kind flags s in
    let P : Allocator3D × Result → Type 0 = λ r. IsSound r.0 in
    either P a.config.enable_concurrent (either P full sync sync) sync

pub allocate_in_region-IsSound :
    (now : ℕ) (a : Allocator3D) (size : ℕ) (r : Region) (flags : ℕ)
    → IsSound a
    → AllPlanes r.planes
    → IsSound (allocate_in_region now a size r flags).0
unfolding allocate_in_region
allocate_in_region-IsSound now a size r flags s v =
    old (place (length a.heap) size r.planes) refl (place-valid (length a.heap) size r.planes v)
  where
    plane : Plane
    plane = get_plane_from_pool a.config (length r.planes) r.id

    r' : Region
    r' = add_plane r plane

    a' : Allocator3D
    a' = record a { regions = insert r.id r' a.regions }

    plane_valid : IsValid plane
    plane_valid = pooled-IsValid a.config (length r.planes) r.id s.small

    s' : IsSound a'
    s' = put_region a r.id r' s (add_plane-valid r plane v plane_valid)

    new :
        place (length a.heap) size r.planes ≡ unplaced
        → leb size (free_bytes plane) ≡ true
        → (t : Placed) → place (length a.heap) size (plane ∷ []) ≡ t
        → PlacedValid t
        → IsSound (allocate_in_region now a size r flags).0
    new none_there enough (placed ps at start) e w =
        rw (allocate_in_region, none_there, enough, e)
          (commit-IsSound now a' r' (r.planes ++ ps) at start size r.kind flags s'
            (All-append IsValid r.planes ps v w))
    new none_there enough unplaced e w = rw (allocate_in_region, none_there, enough, e) s'
    new none_there enough crashed e w = rw (allocate_in_region, none_there, enough, e) s'

    old :
        (t : Placed)
        → place (length a.heap) size r.planes ≡ t
        → PlacedValid t
        → IsSound (allocate_in_region now a size r flags).0
    old (placed ps at start) e w =
        rw (allocate_in_region, e) (commit-IsSound now a r ps at start size r.kind flags s w)
    old crashed e w = rw (allocate_in_region, e) s
    old unplaced e w = elim (Bool-cases (leb size (free_bytes plane))) [
      | inr large ↦ rw (allocate_in_region, e, large) s'
      | inl enough ↦
          new e enough (place (length a.heap) size (plane ∷ [])) refl
            (place-valid (length a.heap) size (plane ∷ []) (plane_valid, tt))
    ]

settle_free-IsSound :
    (a : Allocator3D) (alloc : Allocation) (r : Region) (t : List Plane × FreeResult)
    → IsSound a
    → AllPlanes t.0
    → IsSound (settle_free a alloc r t).0
settle_free-IsSound a alloc r (ps, some e) s v = s
settle_free-IsSound a alloc r (ps, none) s v = record {
  regions_valid = insert-valid r.id _ a.regions v s.regions_valid;
  small = s.small;
}

pub free_allocation-IsSound :
    (a : Allocator3D) (alloc : Allocation) → IsSound a → IsSound (free_allocation a alloc).0
unfolding free_allocation free_concurrent
free_allocation-IsSound a alloc s =
    let sync = go (lookup alloc.address.x a.regions) refl in
    either (λ (r : Allocator3D × FreeResult). IsSound r.0) a.config.enable_concurrent sync sync
  where
    go : (r : Option Region) → lookup alloc.address.x a.regions ≡ r → IsSound (free_sync a alloc).0
    go none e = rw (free_sync, e) s
    go (some r) e =
        rw (free_sync, e)
          (settle_free-IsSound a alloc r (free_in_region a.heap alloc r.planes) s (
            free_in_region-valid a.heap alloc r.planes
              (lookup-valid _ a.regions r e s.regions_valid)))
