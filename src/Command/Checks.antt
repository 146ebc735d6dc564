-- ===== src/Command/Checks.antt =====
-- All checks of the command hold.
use memory3d.Prelude.{ℕ, ◌≡◌, refl, true, some}
use memory3d.Prelude.Bits.{trailing_zeros, ones_count}
use memory3d.Merkle.{new_tree3d}
use memory3d.Types.Address.{put_big_endian, big_endian, big_endian_from}
use memory3d.Types.Allocation.{new_allocation, update_access}
use memory3d.Types.Bitmap.{
  new_bitmap, find_contiguous, scan_words, free_bits_at, scan_word, range_free, range_mask,
  total_set, set_range,
}
use memory3d.Types.Bitmap.{free_bytes as bitmap_free}
use memory3d.Types.Float.{FloatOps}
use memory3d.Types.Plane.{allocate as plane_allocate}
use memory3d.Types.Plane.{new_plane}
use memory3d.Types.Region.{new_region, add_plane, get_plane, find_plane, write_plane}
use memory3d.Allocator.{
  new_allocator3d, allocate, allocate_sync, fast_loop, try_fast_allocation, try_y_promotion,
  promote_best, best_region, allocate_new_region, get_plane_from_pool, place, commit,
  promote_region_lru, remove_id,
}
use memory3d.Vm.Cache.{new_spatial_cache, element_of, put_cached, put_element}
use memory3d.Vm.Gas.{consume, consume_from, get_bucket, new_accountant, new_bucket, remaining, used}
use memory3d.Vm.Instructions.{
  fetch_instruction, fetch_as, instruction_size, decode_instruction, decode_as,
}
use memory3d.Vm.Machine.{Host, new_vm3d, update_merkle}
use memory3d.Vm.Machine.Api.{
  allocate_memory, finish_allocate, register_block, vm_store3d, store_first, after_store, charged,
  vm_load3d,
}
use memory3d.Vm.Machine.Loop.{
  execute, run, goes_on, round, after_fetch, execute_instruction, paid, calculate_gas_cost,
  base_cost, add_sizes, dispatch, execute_core, settle,
}
use memory3d.Vm.Machine.Operations.{execute_add, execute_sub, execute_binary}
use memory3d.Vm.Memory.{
  new_memory_manager, tracked, get_allocation, locate, check_pointer, check_bounds, check_region,
  check_plane, store3d, finish_store, load3d, finish_load, log_access, track, touch,
}
use memory3d.Vm.Memory.Tracking.{track_allocation, update_access_at}
use memory3d.Vm.Registers.{new_registers, get_register, set_register, get_uint64, set_uint64}
use memory3d.Command.{
  main_scenario, store_data, verify_stored, compute, report_after, with_inputs, equal_bytes,
}

-- Whatever the hash function, the order of visiting the tree's nodes, the times and the floats are,
-- the command ends with a report: what it stored it loads again, R2 is 150 and R3 is 100, and of
-- the gas 502 is used, 495 for 33 stored bytes and 7 for three instructions.
pub main_scenario-checks :
    {F : Type 0} (float : FloatOps F) (host : Host) (now : ℕ)
    → main_scenario float host now
      ≡ some (record {
        data_matches = true;
        sum_is_150 = true;
        difference_is_100 = true;
        gas_consumed = true;
        instructions_executed = 3;
        gas_used = 502;
      })
unfolding main_scenario store_data verify_stored compute report_after with_inputs equal_bytes
    allocate_memory finish_allocate register_block allocate allocate_sync try_fast_allocation
    fast_loop try_y_promotion best_region promote_best allocate_new_region get_plane_from_pool place
    commit promote_region_lru remove_id new_region add_plane new_plane plane_allocate
    find_contiguous scan_words scan_word free_bits_at range_free range_mask set_range bitmap_free
    total_set ones_count trailing_zeros new_bitmap new_allocation new_vm3d new_memory_manager
    new_allocator3d new_registers set_register get_register store3d locate get_allocation tracked
    track_allocation check_pointer check_bounds check_region check_plane get_plane find_plane
    write_plane finish_store log_access track vm_store3d store_first after_store charged vm_load3d
    load3d finish_load update_access_at update_access put_cached put_element element_of
    new_spatial_cache update_merkle new_tree3d consume consume_from get_bucket new_accountant
    new_bucket remaining used execute run goes_on round after_fetch fetch_instruction
    execute_instruction paid calculate_gas_cost base_cost add_sizes dispatch execute_core settle
    execute_add execute_sub execute_binary get_uint64 set_uint64 put_big_endian big_endian
    big_endian_from touch fetch_as instruction_size decode_instruction decode_as
main_scenario-checks float host now = refl
