-- ===== src/Tests/Execution.antt =====
-- The machine on concrete inputs.
use memory3d.Prelude.{
  ℕ, ◌+◌, ◌-◌, ◌*◌, ◌/◌, ◌^◌, ◌≤◌, ◌<◌, ◌≡◌, ◌≢◌, refl, arith, true, false, List, [], ◌∷◌, ltb,
}
use memory3d.Types.Float.{FloatOps}
use memory3d.Vm.Cache.{new_spatial_cache, element_of, get_cached}
use memory3d.Allocator.{new_allocator3d}
use memory3d.Vm.Memory.{
  load3d, locate, get_allocation, tracked, find_fragment, new_memory_manager, check_pointer,
  finish_load, address_not_allocated,
}
use memory3d.Vm.Machine.Operations.{execute_mload, mload_after, finish_mload}
use memory3d.Vm.Machine.Operations.{mload as machine_mload}
use memory3d.Vm.Machine.Failing.{Spared, execute_instruction-Spared}
use memory3d.Vm.Machine.{error, load_failed}
use memory3d.Vm.Gas.{remaining, used, new_accountant, new_bucket, consume, consume_from, get_bucket}
use memory3d.Vm.Gas.Holding.{Holds, new_accountant-Holds}
use memory3d.Vm.Instructions.{Instruction3D}
use memory3d.Vm.Instructions.Encoding.{assemble, meaning, mload}
use memory3d.Vm.Machine.{Host, VmConfig, Vm3D, new_vm3d}
use memory3d.Vm.Machine.Api.{allocate_memory, vm_store3d}
use memory3d.Vm.Machine.Arithmetic.{
  Arithmetic, plus, minus, View, assign, calculate, calculate_all, Writable, gas_of, total_gas_of,
  to_assembly, write_program, build_complex_computation_program,
}
use memory3d.Vm.Machine.Arithmetic.Refinement.{Computed, execute-Computed}
use memory3d.Vm.Machine.Arithmetic.Views.{Shows, new_registers-Shows, set_uint64-Shows}
use memory3d.Vm.Machine.Charging.{Refused, execute_instruction-Refused}
use memory3d.Vm.Machine.Ending.{execute_ends}
use memory3d.Vm.Machine.Keeping.{Sound}
use memory3d.Vm.Machine.Loop.{
  base_cost, add_sizes, calculate_gas_cost, execute_instruction, out_of_fuel, execute, paid,
  dispatch, execute_core,
}
use memory3d.Vm.Machine.Reachability.{
  Reachable, start, next, executes, allocates, stores, Reachable-Sound, Reachable-gas,
}
use memory3d.Vm.Machine.Settling.{executed}
use memory3d.Vm.Registers.{new_registers, set_uint64}
use memory3d.Tests.Memory.{home}

-- A stand-in for the floating-point unit.
abbrev pub rough : FloatOps ℕ
rough = record {
  of_nat = λ n. n;
  decimal = λ n places. n / 10 ^ places;
  add = λ a b. a + b;
  sub = λ a b. a - b;
  mul = λ a b. a * b;
  quotient = λ a b. a / b + 1;
  below = ltb;
  to_uint64 = λ n. n;
  bits = λ n. n;
}

abbrev pub host : Host
host = record {
  sha256 = λ bs. bs;
  visit_order = λ nodes. nodes;
  range_orders = λ now kind m. m;
  clock = λ n. n;
}

-- The configuration of cmd/vm3d/main.go.
abbrev pub vm_config : VmConfig
vm_config = record { gas_limit = 500000; enable_proof = true; max_instructions = 5000 }

-- R0 = 100 and R1 = 50.
abbrev ready : Vm3D
ready =
    let vm = new_vm3d host vm_config in
    record vm {
      core = record (vm.core) {
        registers = set_uint64 (set_uint64 (vm.core.registers) 0 100) 1 50;
      };
    }

abbrev view : View
view = assign 1 50 (assign 0 100 (λ reg. 0))

abbrev sum_and_back : List Arithmetic
sum_and_back = plus 2 0 1 ∷ minus 3 2 1 ∷ []

written_as : write_program sum_and_back ≡ build_complex_computation_program
unfolding write_program to_assembly assemble
written_as = refl

third : calculate_all sum_and_back view 2 ≡ 150
unfolding calculate_all calculate
third = refl

fourth : calculate_all sum_and_back view 3 ≡ 100
unfolding calculate_all calculate
fourth = refl

ready-Shows : Shows ready.core.registers view
unfolding new_vm3d
ready-Shows = set_uint64-Shows _ _ 1 50 50 (omega arith) (omega arith) refl (
    set_uint64-Shows new_registers _ 0 100 100 (omega arith) (omega arith) refl new_registers-Shows)

full : Holds ready.gas_account 500000 0
unfolding new_vm3d
full = new_accountant-Holds 500000 (omega arith)

execute-Computed_example :
    Computed ready.core.memory
      (executed ready + 2 + 1)
      (500000 - (total_gas_of sum_and_back + 1))
      (0 + (total_gas_of sum_and_back + 1))
      (calculate_all sum_and_back view)
      (execute rough host ready (write_program sum_and_back))
unfolding write_program to_assembly assemble Writable total_gas_of gas_of new_vm3d
execute-Computed_example =
    execute-Computed rough host ready sum_and_back view 500000 0 full ready-Shows
      (omega arith, (omega arith, tt)) (omega arith) (omega arith) (omega arith) (omega arith)
      (omega arith)

execute_ends_example :
    ((execute rough host (new_vm3d host vm_config) (0 ∷ 49 ∷ 7 ∷ [])).1 ≢ out_of_fuel)
    × (executed (execute rough host (new_vm3d host vm_config) (0 ∷ 49 ∷ 7 ∷ [])).0
        ≤ executed (new_vm3d host vm_config) + 3)
execute_ends_example =
    execute_ends rough host (new_vm3d host vm_config) (0 ∷ 49 ∷ 7 ∷ []) (omega arith)

-- A load of 65535 bytes costs more than 100 gas.
abbrev poor : Vm3D
poor = new_vm3d host (record { gas_limit = 100; enable_proof = false; max_instructions = 9 })

abbrev dear : Instruction3D
dear = meaning (mload home 65535 1)

poor-Holds : Holds poor.gas_account 100 0
unfolding new_vm3d
poor-Holds = new_accountant-Holds 100 (omega arith)

too_dear : 100 < calculate_gas_cost dear
unfolding meaning calculate_gas_cost base_cost add_sizes
too_dear = omega arith

execute_instruction-Refused_example : Refused poor (execute_instruction rough host 5 poor dear)
execute_instruction-Refused_example =
    execute_instruction-Refused rough host 5 poor dear 100 0 poor-Holds (omega arith) too_dear

-- A block of the heap, content for it and a program that reads it.
abbrev busy : List ℕ
busy = 18 ∷ 0 ∷ 0 ∷ 0 ∷ 32 ∷ 4 ∷ 0 ∷ 0 ∷ 0 ∷ 0 ∷ 0 ∷ 0 ∷ 0 ∷ 0 ∷ 255 ∷ []

abbrev with_block : Vm3D
with_block = (allocate_memory 1 (new_vm3d host vm_config) 64 4).0

abbrev with_content : Vm3D
with_content = (vm_store3d host 2 with_block home (7 ∷ 8 ∷ 9 ∷ [])).0

busy-Reachable : Reachable rough host vm_config (execute rough host with_content busy).0
busy-Reachable =
    next with_content _
      (next with_block _ (next (new_vm3d host vm_config) _ start (allocates 1 _ 64 4))
        (stores 2 with_block home (7 ∷ 8 ∷ 9 ∷ [])))
      (executes with_content busy (omega arith))

Reachable-Sound_example : Sound (execute rough host with_content busy).0.core
Reachable-Sound_example =
    Reachable-Sound rough host vm_config (omega arith) (execute rough host with_content busy).0
      busy-Reachable

Reachable-gas_example :
    remaining (execute rough host with_content busy).0.gas_account
      + used (execute rough host with_content busy).0.gas_account
    ≡ 500000
Reachable-gas_example =
    Reachable-gas rough host vm_config (omega arith) (execute rough host with_content busy).0
      busy-Reachable

-- A load from an address that nobody has allocated.
abbrev wild : Instruction3D
wild = meaning (mload home 3 1)

wild_fails :
    (execute_instruction rough host 5 ready wild).1 ≡ error (load_failed address_not_allocated)
unfolding new_vm3d new_accountant new_bucket consume consume_from get_bucket meaning
    calculate_gas_cost base_cost add_sizes execute_instruction paid dispatch execute_core
    execute_mload machine_mload mload_after get_cached element_of new_spatial_cache load3d locate
    get_allocation tracked find_fragment new_memory_manager new_allocator3d check_pointer
    finish_load finish_mload
wild_fails = refl

execute_instruction-Spared_example : Spared ready (execute_instruction rough host 5 ready wild).0
execute_instruction-Spared_example =
    execute_instruction-Spared rough host 5 ready wild (load_failed address_not_allocated)
      wild_fails
