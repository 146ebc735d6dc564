-- ===== src/Allocator/Ownership/Reachability.antt =====
-- The states that calls of allocator.go lead to while Y-promotion serves no request.
use memory3d.Prelude.{
  ℕ, ◌+◌, ◌/◌, ◌^◌, ◌≤◌, ◌<◌, ◌≡◌, refl, Bool, true, false, Option, none, some, List, arith, ltb,
  ◌==◌, either, lookup, u32, sub32,
}
use memory3d.Types.Allocation.{Allocation}
use memory3d.Types.Plane.{Plane}
use memory3d.Types.Region.{Region}
use memory3d.Allocator.{
  Config, Allocator3D, Result, got, nothing, panicked, failed, new_allocator3d, try_fast_allocation,
  try_y_promotion, allocate_new_region, or_else, allocate_sync, do_allocate, allocate_concurrent,
  allocate, allocate_in_region, FreeResult, free_in_region, settle_free, free_sync, free_concurrent,
  free_allocation,
}
use memory3d.Allocator.Ownership.Regions.{Kept}
use memory3d.Allocator.Ownership.Releasing.{Matching, FreeOutcome, free_in_region-FreeOutcome}
use memory3d.Allocator.Ownership.Paths.{
  Holds, Settled, insert-AllKept, lookup-Kept, fast_loop-Settled,
}
use memory3d.Allocator.Ownership.Fresh.{allocate_in_region-Settled, allocate_new_region-Settled}

-- Where the fast path finds nothing, tryYPromotion finds nothing and leaves no trace. A block that it
-- would place in a single plane is ruled out too.
abbrev pub Unpromoted : ℕ → Allocator3D → ℕ → ℕ → ℕ → Type 0
Unpromoted now a size kind flags =
    let r = try_fast_allocation now a size kind in
    r.1 ≡ nothing → try_y_promotion now r.0 size kind flags ≡ (r.0, nothing)

-- An allocator that allows no Y-promotions serves so no request that fits uint32 with a plane.
pub Unpromoted-off :
    (now : ℕ) (a : Allocator3D) (size kind flags : ℕ)
    → a.config.max_y_promotions ≡ 0
    → 0 < size
    → 0 < a.config.plane_size
    → size + a.config.plane_size < 2 ^ 32
    → try_y_promotion now a size kind flags ≡ (a, nothing)
unfolding try_y_promotion
Unpromoted-off now a size kind flags off pos sized fits =
    let p = a.config.plane_size in
    let sized' : (p == 0) ≡ false = ground arith in
    let needed : 0 < sub32 (u32 (size + p)) 1 / p = grind arith in
    let many : ltb a.config.max_y_promotions (sub32 (u32 (size + p)) 1 / p) ≡ true =
      ground (arith, needed, off) in
    rw (sized', many) refl

allocate_sync-Settled :
    (now : ℕ) (a : Allocator3D) (size kind flags : ℕ)
    → 0 < size
    → Unpromoted now a size kind flags
    → Holds a
    → Settled size (allocate_sync now a size kind flags)
unfolding allocate_sync try_fast_allocation
allocate_sync-Settled now a size kind flags pos unpromoted s =
    go (try_fast_allocation now a size kind) unpromoted
      (fast_loop-Settled now size kind a a.region_lru pos s)
  where
    go :
        (r : Allocator3D × Result)
        → (r.1 ≡ nothing → try_y_promotion now r.0 size kind flags ≡ (r.0, nothing))
        → Settled size r
        → Settled size (
            or_else r (λ a1.
              or_else
                (try_y_promotion now a1 size kind flags)
                λ a2. allocate_new_region now a2 size kind flags))
    go (b, nothing) no_split s' =
        rw (no_split refl) (allocate_new_region-Settled now b size kind flags pos s'.0)
    go (b, got ptr) no_split s' = s'
    go (b, panicked) no_split s' = s'
    go (b, failed e) no_split s' = s'

pub allocate-Settled :
    (full : Bool) (now : ℕ) (a : Allocator3D) (size kind flags : ℕ)
    → 0 < size
    → Unpromoted now a size kind flags
    → Holds a
    → Settled size (allocate full now a size kind flags)
unfolding allocate allocate_concurrent do_allocate
allocate-Settled full now a size kind flags pos unpromoted s =
    let sync = allocate_sync-Settled now a size kind flags pos unpromoted s in
    let P : Allocator3D × Result → Type 0 = λ r. Settled size r in
    either P a.config.enable_concurrent (either P full sync sync) sync

settle_free-Holds :
    (a : Allocator3D) (alloc : Allocation) (r : Region) (t : List Plane × FreeResult)
    → Holds a
    → Kept a.heap r
    → FreeOutcome a.heap alloc r.planes t
    → Holds (settle_free a alloc r t).0
settle_free-Holds a alloc r (ps, some e) s k out = s
settle_free-Holds a alloc r (ps, none) s k out = record {
  kept =
      insert-AllKept a.heap r.id _ a.regions refl
        (record {
          owned = out.owned;
          free = omega (arith, k.free, out.free);
          count = omega (arith, k.count, out.count);
          numbered = out.numbered 0 k.numbered;
        })
        s.kept;
  sized = s.sized;
  half = s.half;
}

free_allocation-Holds :
    (a : Allocator3D) (alloc : Allocation)
    → Holds a
    → ((r : Region) → lookup alloc.address.x a.regions ≡ some r → Matching a.heap r.planes alloc)
    → Holds (free_allocation a alloc).0
unfolding free_allocation free_concurrent
free_allocation-Holds a alloc s matching =
    let sync = go (lookup alloc.address.x a.regions) refl in
    either (λ (r : Allocator3D × FreeResult). Holds r.0) a.config.enable_concurrent sync sync
  where
    go : (r : Option Region) → lookup alloc.address.x a.regions ≡ r → Holds (free_sync a alloc).0
    go none e = rw (free_sync, e) s
    go (some r) e =
        let k = (lookup-Kept a.heap _ a.regions r e s.kept).1 in
        rw (free_sync, e)
          (settle_free-Holds a alloc r (free_in_region a.heap alloc r.planes) s k
            (free_in_region-FreeOutcome a.heap alloc r.planes k.owned (matching r e)))

-- One call: Allocate of a positive size that Y-promotion does not serve, AllocateInRegion of a positive size for
-- a region of the allocator, and Free of a block whose size is that of the object entered at its
-- address, if there is one.
pub data Step : Allocator3D → Allocator3D → Type 0 where
  allocates :
      (full : Bool) (now : ℕ) (a : Allocator3D) (size kind flags : ℕ)
      → 0 < size
      → Unpromoted now a size kind flags
      → Step a (allocate full now a size kind flags).0
  allocates_in_region :
      (now : ℕ) (a : Allocator3D) (size id : ℕ) (r : Region) (flags : ℕ)
      → 0 < size
      → lookup id a.regions ≡ some r
      → Step a (allocate_in_region now a size r flags).0
  frees :
      (a : Allocator3D) (alloc : Allocation)
      → ((r : Region) → lookup alloc.address.x a.regions ≡ some r → Matching a.heap r.planes alloc)
      → Step a (free_allocation a alloc).0

-- The states that such calls lead to from a new allocator.
pub data Reachable (config : Config) : Allocator3D → Type 0 where
  start : Reachable config (new_allocator3d config)
  next : (a b : Allocator3D) → Reachable config a → Step a b → Reachable config b

Step-Holds : (a b : Allocator3D) → Step a b → Holds a → Holds b
Step-Holds _ _ (allocates full now a size kind flags pos unpromoted) s =
    (allocate-Settled full now a size kind flags pos unpromoted s).0
Step-Holds _ _ (allocates_in_region now a size id r flags pos e) s =
    (allocate_in_region-Settled now a size r flags pos s
      (lookup-Kept a.heap id a.regions r e s.kept).1).0
Step-Holds _ _ (frees a alloc matching) s = free_allocation-Holds a alloc s matching

pub Reachable-Holds :
    (config : Config) (a : Allocator3D)
    → 0 < config.plane_size
    → config.plane_size ≤ 2 ^ 15
    → Reachable config a
    → Holds a
unfolding new_allocator3d
Reachable-Holds config _ sized half start = record { kept = tt; sized = sized; half = half }
Reachable-Holds config _ sized half (next a b r step) =
    Step-Holds a b step (Reachable-Holds config a sized half r)
