-- ===== src/Tests/Storage.antt =====
-- Stores of the machine and the compaction of its memory on concrete inputs.
use memory3d.Prelude.{ℕ, ◌≤◌, ◌≡◌, refl, arith, true, false, none, [], ◌∷◌, All, length}
use memory3d.Allocator.{Allocator3D, new_allocator3d}
use memory3d.Allocator.Compaction.{
  CompactionConfig, analyze_compaction, collect_regions, collect_planes, collect_allocations, skips,
  is_movable,
}
use memory3d.Allocator.Compaction.Movable.{IsMovable, analyze_compaction-IsMovable}
use memory3d.Tests.Execution.{rough, host}
use memory3d.Tests.Memory.{home, memory, allocator, block}
use memory3d.Types.Allocation.{Allocation, Fragment, new_allocation, is_y_promoted}
use memory3d.Types.Plane.{new_plane}
use memory3d.Types.Region.{Region, new_region, get_plane, find_plane}
use memory3d.Types.Float.{FloatOps}
use memory3d.Types.Fragmentation.{get_compaction_report, region_fragmentation}
use memory3d.Vm.Cache.{new_spatial_cache}
use memory3d.Vm.Memory.{
  new_memory_manager, tracked, get_allocation, locate, check_pointer, check_bounds, check_region,
  check_plane, store3d, finish_store,
}
use memory3d.Vm.Machine.{Core, no_vm_stats, done}
use memory3d.Vm.Machine.Operations.{finish_mstore, mstore}
use memory3d.Vm.Registers.{Registers, new_registers, get_register, set_register}

abbrev three : Registers
three = set_register new_registers 1 (1 ∷ 2 ∷ 3 ∷ [])

abbrev core : Core
core = record {
  registers = three;
  memory = memory;
  cache = new_spatial_cache;
  merkle_tree = none;
  halted = false;
  stats = no_vm_stats;
}

core_stores : (mstore host 7 core home 1 3).1 ≡ done
unfolding mstore finish_mstore get_register set_register new_registers store3d locate check_pointer
    check_bounds check_region check_plane get_allocation tracked get_plane find_plane
    new_memory_manager new_plane new_region new_allocation new_allocator3d finish_store
core_stores = refl

abbrev few : CompactionConfig ℕ
few = record { fragmentation_threshold = 1; max_allocations_to_move = 2; gas_refund_percentage = 0 }

-- A fragmented region with a pinned block, a movable one, and one split over two planes.
abbrev pinned : Allocation
pinned = record block { flags = 4 }

abbrev movable : Allocation
movable = record block { id = 7 }

abbrev piece : Fragment
piece = record { plane_id = 0; start_z = 20; size = 2; is_first = true }

abbrev split_block : Allocation
split_block = record block { id = 9; fragments = piece ∷ piece ∷ [] }

abbrev crowded : Region
crowded = record (new_region 0 1 4) {
  free_bytes = 20;
  planes = record (new_plane 0 1 32) { allocations = (0, 0) ∷ (10, 1) ∷ (20, 2) ∷ [] } ∷ [];
}

abbrev compactable : Allocator3D
compactable = record allocator {
  heap = pinned ∷ movable ∷ split_block ∷ [];
  regions = (1, crowded) ∷ [];
}

-- Whatever is above nothing is fragmented.
abbrev eager : FloatOps ℕ
eager = record rough { decimal = λ n places. 0; quotient = λ a b. 1 }

finds_movable : analyze_compaction eager compactable few ≡ 7 ∷ []
unfolding analyze_compaction collect_regions collect_planes collect_allocations skips is_movable
    is_y_promoted get_compaction_report region_fragmentation new_region new_plane new_allocation
    new_allocator3d
finds_movable = refl

analyze_compaction-IsMovable_example :
    All (IsMovable compactable.heap) (analyze_compaction eager compactable few)
    × (length (analyze_compaction eager compactable few) ≤ 2)
analyze_compaction-IsMovable_example =
    analyze_compaction-IsMovable eager compactable few (omega arith)
