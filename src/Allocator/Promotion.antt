-- ===== src/Allocator/Promotion.antt =====
-- tryYPromotion: one block over several planes of a region.
use memory3d.Prelude.{
  ℕ, ◌+◌, ◌/◌, Option, none, some, List, [], ◌∷◌, ◌++◌, ltb, leb, ◌==◌, ◌&&◌, if◌then◌else◌, length,
  insert, min, u16, u32, u64, sub32,
}
use memory3d.Prelude.{erase}
use memory3d.Types.Address.{Address3D}
use memory3d.Types.Allocation.{Fragment, new_allocation, alloc_object}
use memory3d.Types.Bitmap.{found, not_found, panic, clear_range}
use memory3d.Types.Plane.{Plane, allocate, free_bytes, record_allocation}
use memory3d.Types.Region.{Region}
use memory3d.Allocator.State.{
  Allocator3D, Result, got, nothing, panicked, promote_region_lru, take_bytes,
}

unfoldable pub total_free : List Plane → ℕ
total_free [] = 0
total_free (p ∷ ps) = u64 (free_bytes p + total_free ps)

unfoldable pub planes_with_free : List Plane → ℕ
planes_with_free [] = 0
planes_with_free (p ∷ ps) = (if ltb 0 (free_bytes p) then 1 else 0) + planes_with_free ps

-- The candidate with the most free bytes, the first of equals in the order of the map's visit.
unfoldable pub best_region : ℕ → ℕ → ℕ → List (ℕ × Region) → Option Region → ℕ → Option Region
unfolding total_free planes_with_free
best_region size kind needed [] best best_free = best
best_region size kind needed ((id, r) ∷ rest) best best_free =
    let total = total_free r.planes in
    let fits =
      (r.kind == kind && (leb size total && leb needed (u32 (planes_with_free r.planes))))
      && ltb best_free total in
    best_region size kind needed rest (if fits then some r else best)
      (if fits then total else best_free)

-- The planes after the loop, what remains, and the fragments; `none` is a panic.
pub record Fragmented : Type 0 where
  pub planes : List Plane
  pub remaining : ℕ
  pub fragments : List Fragment

abbrev pub behind_fragmented : Plane → Option Fragmented → Option Fragmented
behind_fragmented p none = none
behind_fragmented p (some f) = some (record f { planes = p ∷ f.planes })

unfoldable pub fragment_loop : ℕ → List Fragment → List Plane → Option Fragmented
fragment_loop remaining fragments [] =
    some (record { planes = []; remaining = remaining; fragments = fragments })
fragment_loop remaining fragments (p ∷ ps) =
    let size = u16 (min (free_bytes p) remaining) in
    let skip = behind_fragmented p (fragment_loop remaining fragments ps) in
    if remaining == 0
    then some (record { planes = p ∷ ps; remaining = remaining; fragments = fragments })
    else if size == 0
    then skip
    else elim ((allocate p size).1) [
      | found start ↦
          let fragment : Fragment = record {
            plane_id = p.id;
            start_z = start;
            size = size;
            is_first = length fragments == 0;
          } in
          behind_fragmented (allocate p size).0
            (fragment_loop (sub32 remaining size) (fragments ++ fragment ∷ []) ps)
      | not_found ↦ skip
      | panic ↦ none
    ]

-- One fragment of a failed attempt is given back.
unfoldable pub rollback_one : Fragment → List Plane → List Plane
rollback_one f [] = []
rollback_one f (p ∷ ps) =
    if p.id == f.plane_id
    then record p {
      free_map = clear_range p.free_map f.start_z (u16 (f.start_z + f.size));
      allocations = erase f.start_z p.allocations;
    }
      ∷ ps
    else p ∷ rollback_one f ps

unfoldable pub rollback : List Fragment → List Plane → List Plane
unfolding rollback_one
rollback [] ps = ps
rollback (f ∷ fs) ps = rollback fs (rollback_one f ps)

-- `plane.Allocations[firstStartZ] = alloc` in the first plane of that ID.
unfoldable pub record_first : ℕ → ℕ → ℕ → List Plane → List Plane
record_first plane_id start ptr [] = []
record_first plane_id start ptr (p ∷ ps) =
    if p.id == plane_id
    then record_allocation p start ptr ∷ ps
    else p ∷ record_first plane_id start ptr ps

-- The plane ID, start and address of the first fragment; all zero if there is none.
abbrev pub first_place : ℕ → List Fragment → Address3D
first_place region_id [] = record { x = 0; y = 0; z = 0 }
first_place region_id (f ∷ fs) = record { x = region_id; y = f.plane_id; z = f.start_z }

unfoldable pub finish_promotion :
    ℕ → Allocator3D → ℕ → ℕ → ℕ → Region → Fragmented → Allocator3D × Result
unfolding rollback record_first
finish_promotion now a size kind flags region f =
    let id = u64 (a.next_alloc_id + 1) in
    let first = first_place region.id f.fragments in
    let alloc = record (new_allocation now id first size kind) {
      flags = flags;
      fragments = f.fragments;
    } in
    let ptr = length a.heap in
    let region' = record region {
      planes = record_first first.y first.z ptr f.planes;
      alloc_count = u64 (region.alloc_count + 1);
      free_bytes = take_bytes region.free_bytes size;
    } in
    let promoted =
      promote_region_lru
        (record a {
          heap = alloc_object a.heap alloc;
          regions = insert region.id region' a.regions;
          next_alloc_id = id;
        })
        region.id in
    if ltb 0 f.remaining
    then (
      record a {
        regions =
            insert region.id (record region { planes = rollback f.fragments f.planes }) a.regions;
      },
      nothing,
    )
    else (
      record promoted { stats = record a.stats { y_promotions = u64 (a.stats.y_promotions + 1) } },
      got ptr,
    )

-- The split of the request over the chosen region's planes.
unfoldable pub promote_in :
    ℕ → Allocator3D → ℕ → ℕ → ℕ → Region → Option Fragmented → Allocator3D × Result
promote_in now a size kind flags region none = (a, panicked)
promote_in now a size kind flags region (some f) = finish_promotion now a size kind flags region f

unfoldable pub promote_best : ℕ → Allocator3D → ℕ → ℕ → ℕ → Option Region → Allocator3D × Result
promote_best now a size kind flags none = (a, nothing)
promote_best now a size kind flags (some region) =
    promote_in now a size kind flags region (fragment_loop size [] region.planes)

-- A plane size of 0 divides by zero.
unfoldable pub try_y_promotion : ℕ → Allocator3D → ℕ → ℕ → ℕ → Allocator3D × Result
try_y_promotion now a size kind flags =
    let needed = sub32 (u32 (size + a.config.plane_size)) 1 / a.config.plane_size in
    if a.config.plane_size == 0
    then (a, panicked)
    else if ltb a.config.max_y_promotions needed
    then (a, nothing)
    else promote_best now a size kind flags (best_region size kind needed a.regions none 0)
