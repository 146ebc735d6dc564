-- ===== src/Vm/Memory/Tracking.antt =====
-- internal/vm/memory_manager.go: tracking, untracking and relocating allocations.
pub mod Laws
use memory3d.Prelude.{
  ℕ, ◌+◌, ◌-◌, ◌%◌, ◌^◌, Bool, true, false, Option, none, some, List, [], ◌∷◌, map, ltb,
  if◌then◌else◌, lookup, insert, u64, sub32, not64,
}
use memory3d.Types.Address.{Address3D}
use memory3d.Types.Allocation.{Allocation, Heap, deref, write_object, size_at}
use memory3d.Types.Region.{Region}
use memory3d.Allocator.{Allocator3D}
use memory3d.Vm.Memory.{
  MemoryManager, RegionStats, alloc, release, tracked, track, untrack, touch, log_access,
}

abbrev no_stats : RegionStats
no_stats = record {
  total_allocations = 0;
  total_frees = 0;
  current_usage = 0;
  max_usage = 0;
  access_count = 0;
}

abbrev pub stats_of : ℕ → List (ℕ × RegionStats) → RegionStats
stats_of x m = elim (lookup x m) [ none ↦ no_stats | some s ↦ s ]

-- The statistics after an allocation of `size` bytes.
unfoldable pub add_usage : RegionStats → ℕ → RegionStats
add_usage s size =
    let usage = u64 (s.current_usage + size) in
    record s {
      total_allocations = u64 (s.total_allocations + 1);
      current_usage = usage;
      max_usage = if ltb s.max_usage usage then usage else s.max_usage;
    }

-- `^uint64(size-1)` takes the difference on uint32, before the conversion.
unfoldable pub take_usage : RegionStats → ℕ → RegionStats
take_usage s size = record s {
  total_frees = u64 (s.total_frees + 1);
  current_usage = u64 (s.current_usage + not64 (sub32 size 1));
}

-- The pointer `ptr` leads to `object`.
unfoldable pub track_allocation : ℕ → MemoryManager → ℕ → Allocation → MemoryManager
track_allocation now mm ptr object =
    let x = object.address.x in
    log_access now
      (record mm {
        allocations = track object.address ptr mm.allocations;
        regions = insert x (add_usage (stats_of x mm.regions) object.size) mm.regions;
      })
      object.address alloc object.size

abbrev pub lower_usage : ℕ → ℕ → List (ℕ × RegionStats) → List (ℕ × RegionStats)
lower_usage x size m = elim (lookup x m) [ none ↦ m | some s ↦ insert x (take_usage s size) m ]

unfoldable pub untrack_object : ℕ → MemoryManager → Address3D → Option Allocation → MemoryManager
untrack_object now mm addr none = mm
untrack_object now mm addr (some object) =
    log_access now
      (record mm {
        allocations = untrack addr mm.allocations;
        regions = lower_usage addr.x object.size mm.regions;
      })
      addr release object.size

-- The object that the exact address is the key of.
abbrev pub tracked_object : MemoryManager → Address3D → Option Allocation
tracked_object mm addr = elim (tracked addr mm.allocations) [
  | none ↦ none
  | some ptr ↦ deref mm.allocator.heap ptr
]

unfoldable pub untrack_allocation : ℕ → MemoryManager → Address3D → MemoryManager
untrack_allocation now mm addr = untrack_object now mm addr (tracked_object mm addr)

-- UpdateAccess: only the exact address counts.
unfoldable pub update_access_at : ℕ → MemoryManager → Address3D → MemoryManager
update_access_at now mm addr = elim (tracked addr mm.allocations) [
  | none ↦ mm
  | some ptr ↦ record mm {
    allocator = record mm.allocator { heap = touch now mm.allocator.heap ptr };
  }
]

-- The object with another address.
abbrev pub move_object : Heap → ℕ → Address3D → Heap
move_object h ptr addr = elim (deref h ptr) [
  | none ↦ h
  | some a ↦ write_object h ptr (record a { address = addr })
]

unfoldable pub update_allocation_address : MemoryManager → Address3D → Address3D → ℕ → MemoryManager
update_allocation_address mm old_addr new_addr ptr = record mm {
  allocator = record mm.allocator { heap = move_object mm.allocator.heap ptr new_addr };
  allocations = track new_addr ptr (untrack old_addr mm.allocations);
}

pub data Relocated : Type 0 where
  relocated not_there occupied : Relocated

unfoldable pub relocate :
    ℕ → MemoryManager → Address3D → Address3D → Option ℕ → Option ℕ → MemoryManager × Relocated
relocate now mm old_addr new_addr none there = (mm, not_there)
relocate now mm old_addr new_addr (some ptr) (some other) = (mm, occupied)
relocate now mm old_addr new_addr (some ptr) none =
    let size = size_at mm.allocator.heap ptr in
    (
      log_access now (update_allocation_address mm old_addr new_addr ptr) new_addr alloc size,
      relocated,
    )

unfoldable pub relocate_allocation :
    ℕ → MemoryManager → Address3D → Address3D → MemoryManager × Relocated
relocate_allocation now mm old_addr new_addr =
    relocate now mm old_addr new_addr (tracked old_addr mm.allocations)
      (tracked new_addr mm.allocations)

-- `none` is a nil region, which panics.
unfoldable pub get_free_memory : MemoryManager → ℕ → Option ℕ
get_free_memory mm x = elim (lookup x mm.regions) [
  | none ↦ some 0
  | some s ↦ elim (lookup x mm.allocator.regions) [
    | none ↦ none
    | some r ↦ some (Region.free_bytes r)
  ]
]

abbrev pub get_all_allocations : MemoryManager → List ℕ
get_all_allocations mm = map (λ e. e.1) mm.allocations
