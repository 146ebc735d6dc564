-- ===== src/Types/Plane.antt =====
-- internal/types/plane.go: a plane's bytes, its bitmap and the allocations that start in it. The
-- methods hold the plane's mutex from beginning to end, so each is one step.
pub mod Laws
use memory3d.Prelude.{
  ℕ, ◌+◌, ◌-◌, ◌%◌, ◌^◌, Bool, true, false, ◌&&◌, Option, none, some, List, [], ◌∷◌, ltb, leb, ◌==◌,
  if◌then◌else◌, replicate, lookup, erase, insert, u16,
}
use memory3d.Types.Bitmap.{
  Bitmap, Search, found, not_found, panic, new_bitmap, find_contiguous, set_range, clear_range,
}
use memory3d.Types.Bitmap
use memory3d.Types.Allocation.{Heap, size_at}

-- `bytes` is the field Data. The map of allocations leads from a start to a pointer; the order of
-- the list is the order in which Go's `range` happens to visit the map.
pub record Plane : Type 0 where
  pub id : ℕ
  pub region_id : ℕ
  pub bytes : List ℕ
  pub free_map : Bitmap
  pub allocations : List (ℕ × ℕ)
  pub size : ℕ
  pub access_count : ℕ

unfoldable pub new_plane : ℕ → ℕ → ℕ → Plane
unfolding new_bitmap
new_plane id region_id size =
    let size' = if size == 0 then 65535 else size in
    record {
      id = id;
      region_id = region_id;
      bytes = replicate size' 0;
      free_map = new_bitmap size';
      allocations = [];
      size = size';
      access_count = 0;
    }

-- `found start` is `(start, true)` and `not_found` is `(0, false)`.
unfoldable pub allocate : Plane → ℕ → Plane × Search
allocate p size = elim (find_contiguous p.free_map size) [
  | found start ↦
      (record p { free_map = set_range p.free_map start (u16 (start + size)) }, found start)
  | not_found ↦ (p, not_found)
  | panic ↦ (p, panic)
]

unfoldable pub free : Heap → Plane → ℕ → Plane × Bool
free h p start = elim (lookup start p.allocations) [
  | none ↦ (p, false)
  | some ptr ↦ (
    record p {
      free_map = clear_range p.free_map start (u16 (start + u16 (size_at h ptr)));
      allocations = erase start p.allocations;
    },
    true,
  )
]

-- The loop that IsAllocated and GetContainingAllocation share.
unfoldable pub containing : Heap → List (ℕ × ℕ) → ℕ → Option ℕ
containing h [] pos = none
containing h ((start, ptr) ∷ rest) pos =
    if leb start pos && ltb pos (u16 (start + u16 (size_at h ptr)))
    then some ptr
    else containing h rest pos

unfoldable pub is_allocated : Heap → Plane → ℕ → Bool
unfolding containing
is_allocated h p pos = elim (containing h p.allocations pos) [ none ↦ false | some ptr ↦ true ]

unfoldable pub get_containing_allocation : Heap → Plane → ℕ → Option ℕ
unfolding containing
get_containing_allocation h p pos = containing h p.allocations pos

abbrev pub free_bytes : Plane → ℕ
free_bytes p = Bitmap.free_bytes p.free_map

abbrev pub used_bytes : Plane → ℕ
used_bytes p = Bitmap.used_bytes p.free_map

-- `plane.Allocations[start] = alloc`, as the allocator writes it.
abbrev pub record_allocation : Plane → ℕ → ℕ → Plane
record_allocation p start ptr = record p { allocations = insert start ptr p.allocations }
