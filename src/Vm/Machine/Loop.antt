-- ===== src/Vm/Machine/Loop.antt =====
-- internal/vm/vm.go: the cost of an instruction, one instruction, and Execute. The loop runs on fuel.
use memory3d.Prelude.{
  ℕ, zero, suc, ◌+◌, ◌*◌, Bool, true, false, not, ◌&&◌, List, [], ◌∷◌, ltb, leb, ◌==◌,
  if◌then◌else◌, length, u64,
}
use memory3d.Types.Float.{FloatOps}
use memory3d.Vm.Gas.{GasAccountant3D, consume, remaining}
use memory3d.Vm.Instructions.{
  op_nop, op_mload, op_mstore, op_malloc, op_mfree, op_mcopy, op_msize, op_mquery, op_mcompact,
  op_mov, op_add, op_sub, op_halt, Operand, size_of, Instruction3D, Fetched, decoded, failed, panic,
  fetch_instruction,
}
use memory3d.Vm.Machine.{
  Host, Core, Vm3D, VmError, insufficient_gas, gas_exhausted, instruction_limit, unsupported,
  fetch_failed, Ran, done, panics, error,
}
use memory3d.Vm.Machine.Operations.{
  execute_mload, execute_mstore, execute_malloc, execute_mfree, execute_mcopy, execute_nop,
  execute_add, execute_sub, execute_mov, execute_halt, execute_msize,
}
use memory3d.Vm.Machine.Queries.{execute_mquery, execute_mcompact}

-- The table; an opcode that is not in it costs 0.
unfoldable pub base_cost : ℕ → ℕ
base_cost op =
    if op == op_mload
    then 10
    else if op == op_mstore
    then 15
    else if op == op_malloc
    then 20
    else if op == op_mfree
    then 5
    else if op == op_mcopy
    then 25
    else if op == op_mquery
    then 8
    else if op == op_mcompact
    then 30
    else if op == op_nop
    then 1
    else if op == op_add
    then 3
    else if op == op_sub
    then 3
    else if op == op_mov
    then 2
    else if op == op_msize
    then 5
    else if op == op_halt
    then 1
    else 0

-- Two gas for each byte of a size.
unfoldable pub add_sizes : ℕ → List Operand → ℕ
add_sizes cost [] = cost
add_sizes cost (size_of n ∷ operands) = add_sizes (u64 (cost + n * 2)) operands
add_sizes cost (_ ∷ operands) = add_sizes cost operands

unfoldable pub calculate_gas_cost : Instruction3D → ℕ
calculate_gas_cost inst = add_sizes (base_cost inst.opcode) inst.operands

abbrev pub on_core : Vm3D → Core × Ran → Vm3D × Ran
on_core vm (c, ran) = (record vm { core = c }, ran)

abbrev pub count_instruction : Vm3D → Vm3D
count_instruction vm = record vm {
  core = record vm.core {
    stats = record vm.core.stats {
      instructions_executed = u64 (vm.core.stats.instructions_executed + 1);
    };
  };
}

-- What follows an instruction: the count, the two checks and the step of the counter.
unfoldable pub settle : ℕ → Vm3D × Ran → Vm3D × Ran
settle size (vm, panics) = (vm, panics)
settle size (vm, error e) = (count_instruction vm, error e)
settle size (vm, done) =
    let counted = count_instruction vm in
    if remaining vm.gas_account == 0
    then (counted, error gas_exhausted)
    else if leb vm.config.max_instructions counted.core.stats.instructions_executed
    then (counted, error instruction_limit)
    else (record counted { pc = u64 (vm.pc + size) }, done)

-- How Execute ends.
pub data Ended : Type 0 where
  finished crashed out_of_fuel : Ended
  stopped : VmError → Ended

abbrev pub continue_with : Vm3D × Ran → (Vm3D → Vm3D × Ended) → Vm3D × Ended
continue_with (vm, done) next = next vm
continue_with (vm, error e) next = (vm, stopped e)
continue_with (vm, panics) next = (vm, crashed)

-- The condition of the loop.
unfoldable pub goes_on : List ℕ → Vm3D → Bool
goes_on program vm = ltb vm.pc (length program) && not vm.core.halted

abbrev pub begin : Vm3D → Vm3D
begin vm = record vm { pc = 0; core = record vm.core { halted = false } }

module _ {F : Type 0} (float : FloatOps F) (host : Host) where
  -- The switch on the opcode, but for MCOMPACT3D.
  unfoldable pub execute_core : ℕ → Core → Instruction3D → Core × Ran
  execute_core now c inst =
      let op = inst.opcode in
      if op == op_mload
      then execute_mload now c inst.operands
      else if op == op_mstore
      then execute_mstore host now c inst.operands
      else if op == op_malloc
      then execute_malloc now c inst.operands
      else if op == op_mfree
      then execute_mfree now c inst.operands
      else if op == op_mcopy
      then execute_mcopy now c inst.operands
      else if op == op_mquery
      then execute_mquery float now c inst.operands
      else if op == op_nop
      then execute_nop c
      else if op == op_add
      then execute_add c inst.operands
      else if op == op_sub
      then execute_sub c inst.operands
      else if op == op_mov
      then execute_mov c inst.operands
      else if op == op_msize
      then execute_msize now c inst.operands
      else if op == op_halt
      then execute_halt c
      else (c, error (unsupported op))

  unfoldable pub dispatch : ℕ → Vm3D → Instruction3D → Vm3D × Ran
  dispatch now vm inst =
      if inst.opcode == op_mcompact
      then execute_mcompact float vm
      else on_core vm (execute_core now vm.core inst)

  -- After the attempt to pay.
  unfoldable pub paid : ℕ → Vm3D → Instruction3D → GasAccountant3D × Bool → Vm3D × Ran
  paid now vm inst (g, false) = (record vm { gas_account = g }, error insufficient_gas)
  paid now vm inst (g, true) = dispatch now (record vm { gas_account = g }) inst

  unfoldable pub execute_instruction : ℕ → Vm3D → Instruction3D → Vm3D × Ran
  execute_instruction now vm inst =
      paid now vm inst (consume vm.gas_account (calculate_gas_cost inst))

  unfoldable pub after_fetch : Vm3D → Fetched → Vm3D × Ran
  after_fetch vm (failed e) = (vm, error (fetch_failed e))
  after_fetch vm panic = (vm, panics)
  after_fetch vm (decoded inst) =
      settle inst.size
        (execute_instruction (host.clock vm.core.stats.instructions_executed) vm inst)

  -- One round of the loop.
  unfoldable pub round : List ℕ → Vm3D → Vm3D × Ran
  round program vm = after_fetch vm (fetch_instruction program vm.pc)

  unfoldable pub run : ℕ → List ℕ → Vm3D → Vm3D × Ended
  run zero program vm = (vm, out_of_fuel)
  run (suc fuel) program vm = elim (goes_on program vm) [
    | true ↦ continue_with (round program vm) (run fuel program)
    | false ↦ (vm, finished)
  ]

  -- Every round moves the counter on, so that one more than the length of the program is enough fuel.
  unfoldable pub execute : Vm3D → List ℕ → Vm3D × Ended
  execute vm program = run (length program + 1) program (begin vm)
