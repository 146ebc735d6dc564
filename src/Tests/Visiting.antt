-- ===== src/Tests/Visiting.antt =====
-- The machine within a run, on concrete inputs.
use memory3d.Prelude.{ℕ, ◌≡◌, refl, arith, List, [], ◌∷◌, ◌==◌, if◌then◌else◌, take}
use memory3d.Prelude.Bits.{trailing_zeros, ones_count}
use memory3d.Types.Address.{Address3D}
use memory3d.Types.Allocation.{new_allocation}
use memory3d.Types.Bitmap.{
  new_bitmap, find_contiguous, scan_words, free_bits_at, scan_word, range_free, range_mask,
  total_set, set_range,
}
use memory3d.Types.Bitmap.{free_bytes as bitmap_free}
use memory3d.Types.Plane.{allocate as plane_allocate}
use memory3d.Types.Plane.{new_plane}
use memory3d.Types.Region.{new_region, add_plane, get_plane, find_plane}
use memory3d.Allocator.{
  new_allocator3d, allocate, allocate_sync, fast_loop, try_fast_allocation, try_y_promotion,
  promote_best, best_region, allocate_new_region, get_plane_from_pool, place, commit,
  promote_region_lru, remove_id,
}
use memory3d.Vm.Machine.{Vm3D, new_vm3d, done}
use memory3d.Vm.Machine.Api.{allocate_memory, finish_allocate, register_block}
use memory3d.Vm.Machine.Holding.{Held}
use memory3d.Vm.Machine.Loop.{begin}
use memory3d.Vm.Machine.Operations.{mstore, mload, finish_mstore}
use memory3d.Vm.Machine.Reachability.{start, next, allocates, sets}
use memory3d.Vm.Machine.Visiting.{Visited, begins, Visited-Held, Visited-mload-mstore}
use memory3d.Vm.Memory.{
  new_memory_manager, tracked, get_allocation, locate, check_pointer, check_bounds, check_region,
  check_plane, store3d, finish_store, log_access, track,
}
use memory3d.Vm.Memory.Tracking.{track_allocation}
use memory3d.Vm.Registers.{Registers, new_registers, get_register, set_register}
use memory3d.Vm.Registers.Laws.{new_registers-IsValid, set_register-IsValid}
use memory3d.Tests.Execution.{rough, host, vm_config}

abbrev block_start : Address3D
block_start = record { x = 2; y = 0; z = 0 }

-- MSTORE3D from R1 to the start of a block of the heap, and MLOAD3D into R2.
abbrev program : List ℕ
program = 1 ∷ []

abbrev three : Registers
three = set_register new_registers 1 (7 ∷ 8 ∷ 9 ∷ [])

abbrev with_block : Vm3D
with_block = (allocate_memory 1 (new_vm3d host vm_config) 64 4).0

abbrev loaded_registers : Vm3D
loaded_registers = record with_block { core = record with_block.core { registers = three } }

loaded-Visited : Visited rough host vm_config program (begin loaded_registers)
loaded-Visited = begins loaded_registers (
    next with_block _ (next (new_vm3d host vm_config) _ start (allocates 1 _ 64 4)) (
      sets with_block three
        (set_register-IsValid new_registers new_registers-IsValid 1 (7 ∷ 8 ∷ 9 ∷ []))))

stores_done : (mstore host 3 (begin loaded_registers).core block_start 1 3).1 ≡ done
unfolding allocate_memory finish_allocate register_block allocate allocate_sync try_fast_allocation
    fast_loop try_y_promotion best_region promote_best allocate_new_region get_plane_from_pool place
    commit promote_region_lru remove_id new_region add_plane new_plane plane_allocate
    find_contiguous scan_words scan_word free_bits_at range_free range_mask set_range bitmap_free
    total_set ones_count trailing_zeros new_bitmap new_allocation new_vm3d new_memory_manager
    new_allocator3d new_registers set_register get_register mstore finish_mstore store3d locate
    get_allocation tracked track_allocation check_pointer check_bounds check_region check_plane
    get_plane find_plane finish_store log_access track
stores_done = refl

Visited-Held_example : Held (begin loaded_registers).core
Visited-Held_example =
    Visited-Held rough host vm_config (omega arith) program (omega arith) (begin loaded_registers)
      loaded-Visited

Visited-mload-mstore_example :
    let r =
      mload 4 (mstore host 3 (begin loaded_registers).core block_start 1 3).0 block_start 3 2 in
    (r.1 ≡ done)
    × (get_register r.0.registers 2
        ≡ (if 2 == 2 then take 3 (get_register three 1) else get_register three 2))
Visited-mload-mstore_example =
    Visited-mload-mstore rough host vm_config (omega arith) program (omega arith)
      (begin loaded_registers) loaded-Visited 3 block_start 1 3 stores_done 4 2 2 (omega arith)
      (omega arith)
