-- ===== src/Command.antt =====
-- cmd/vm3d/main.go: the scenario that the command runs on a machine. The profiles that it writes, its
-- HTTP server and its pauses are left out; the messages that it prints where a check fails are the
-- Booleans of its report.
pub mod Checks
use memory3d.Prelude.{
  ℕ, Bool, true, false, not, Option, none, some, List, [], ◌∷◌, ltb, leb, ◌==◌, ◌&&◌, length,
}
use memory3d.Types.Address.{Address3D}
use memory3d.Types.Float.{FloatOps}
use memory3d.Types.Region.{region_type_heap}
use memory3d.Vm.Gas.{remaining, used}
use memory3d.Vm.Memory.{Loaded, loaded, load_refused, load_crashed}
use memory3d.Vm.Registers.{get_uint64, set_uint64}
use memory3d.Vm.Machine.{Host, VmConfig, Vm3D, Ran, done, panics, error, new_vm3d}
use memory3d.Vm.Machine.Api.{
  Allocated, allocated_at, not_allocated, allocation_panics, allocate_memory, vm_store3d, vm_load3d,
}
use memory3d.Vm.Machine.Arithmetic.{build_complex_computation_program}
use memory3d.Vm.Machine.Loop.{Ended, finished, crashed, out_of_fuel, stopped, execute}

abbrev pub main_config : VmConfig
main_config = record { gas_limit = 500000; enable_proof = true; max_instructions = 5000 }

-- "Configuration data for processing", in bytes.
abbrev pub initial_data : List ℕ
initial_data =
    67 ∷ 111 ∷ 110 ∷ 102 ∷ 105 ∷ 103 ∷ 117 ∷ 114 ∷ 97 ∷ 116 ∷ 105 ∷ 111 ∷ 110 ∷ 32 ∷ 100 ∷ 97 ∷ 116
    ∷ 97 ∷ 32 ∷ 102 ∷ 111 ∷ 114 ∷ 32 ∷ 112 ∷ 114 ∷ 111 ∷ 99 ∷ 101 ∷ 115 ∷ 115 ∷ 105 ∷ 110 ∷ 103 ∷ []

-- bytes.Equal.
unfoldable pub equal_bytes : List ℕ → List ℕ → Bool
equal_bytes [] [] = true
equal_bytes [] (b ∷ bs) = false
equal_bytes (a ∷ as') [] = false
equal_bytes (a ∷ as') (b ∷ bs) = let rest = equal_bytes as' bs in (a == b) && rest

-- What the command checks and prints at the end.
pub record Report : Type 0 where
  pub data_matches : Bool
  pub sum_is_150 : Bool
  pub difference_is_100 : Bool
  pub gas_consumed : Bool
  pub instructions_executed : ℕ
  pub gas_used : ℕ

-- An error, or a panic, ends the command without a report.
unfoldable pub report_after : ℕ → Bool → Vm3D × Ended → Option Report
report_after gas_at_start same (vm, finished) = some (record {
  data_matches = same;
  sum_is_150 = get_uint64 vm.core.registers 2 == 150;
  difference_is_100 = get_uint64 vm.core.registers 3 == 100;
  gas_consumed = not (leb gas_at_start (remaining vm.gas_account));
  instructions_executed = vm.core.stats.instructions_executed;
  gas_used = used vm.gas_account;
})
report_after gas_at_start same (vm, crashed) = none
report_after gas_at_start same (vm, out_of_fuel) = none
report_after gas_at_start same (vm, stopped e) = none

-- SetUint64 of R0 and R1 through GetRegisters.
unfoldable pub with_inputs : Vm3D → Vm3D
with_inputs vm = record vm {
  core = record vm.core { registers = set_uint64 (set_uint64 vm.core.registers 0 100) 1 50 };
}

module _ {F : Type 0} (float : FloatOps F) (host : Host) (now gas_at_start : ℕ) where
  unfoldable pub compute : Vm3D × Loaded → Option Report
  compute (vm, loaded retrieved) =
      report_after gas_at_start (equal_bytes initial_data retrieved)
        (execute float host (with_inputs vm) build_complex_computation_program)
  compute (vm, load_refused e) = none
  compute (vm, load_crashed) = none

  unfoldable pub verify_stored : Address3D → Vm3D × Ran → Option Report
  verify_stored addr (vm, done) = compute (vm_load3d now vm addr (length initial_data))
  verify_stored addr (vm, panics) = none
  verify_stored addr (vm, error e) = none

  unfoldable pub store_data : Vm3D × Allocated → Option Report
  store_data (vm, allocated_at addr) = verify_stored addr (vm_store3d host now vm addr initial_data)
  store_data (vm, not_allocated e) = none
  store_data (vm, allocation_panics) = none

unfoldable pub main_scenario : {F : Type 0} → FloatOps F → Host → ℕ → Option Report
main_scenario float host now =
    let vm = new_vm3d host main_config in
    store_data float host now (remaining vm.gas_account)
      (allocate_memory now vm 1024 region_type_heap)
