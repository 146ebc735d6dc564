-- ===== src/Vm/Machine/Failing.antt =====
-- What an instruction that fails leaves unchanged.
pub mod Unchanged
use memory3d.Prelude.{
  ℕ, ◌≡◌, refl, ◌∙◌, inl, inr, Bool, true, false, Option, none, some, List, ltb, leb, ◌==◌,
  if◌then◌else◌, Bool-cases, Option-cases, length, take, u32,
}
use memory3d.Allocator.{
  Allocator3D, Result, got, nothing, panicked, failed, FreeResult, free_allocation,
}
use memory3d.Types.Address.{Address3D}
use memory3d.Types.Allocation.{Allocation, deref}
use memory3d.Types.Float.{FloatOps}
use memory3d.Vm.Cache.{SpatialCache, element_of, get_cached}
use memory3d.Vm.Gas.{GasAccountant3D, consume}
use memory3d.Vm.Instructions.{op_mcompact, Instruction3D}
use memory3d.Vm.Memory.{
  MemoryManager, Loaded, loaded, load_refused, load_crashed, load3d, Stored, stored, store_refused,
  store_crashed, store3d,
}
use memory3d.Vm.Registers.{get_register}
use memory3d.Vm.Machine.{Host, Core, Vm3D, VmError, Ran, done, error, allocator_of, with_allocator}
use memory3d.Vm.Machine.Loop.{calculate_gas_cost, execute_core, dispatch, paid, execute_instruction}
use memory3d.Vm.Machine.Operations.{
  finish_mload, mload_after, mload, finish_mstore, mstore, record_malloc, finish_malloc,
  finish_mfree, free_object, mfree, find_allocation, finish_mcopy, copy_loaded,
}
use memory3d.Vm.Machine.Queries.{execute_mcompact}
use memory3d.Vm.Machine.Walk.{execute_core-by}
use memory3d.Vm.Machine.Failing.Unchanged.{Same, Core-Same, Fails, execute_core-Fails}

-- The parts of the machine that a failed instruction does not change.
pub record Spared (vm vm' : Vm3D) : Type 0 where
  pub same_core : Same vm.core vm'.core
  pub same_pc : vm'.pc ≡ vm.pc
  pub same_config : vm'.config ≡ vm.config

compacted :
    (vm : Vm3D) (e : VmError) (b : Bool) (x y : Vm3D × Ran)
    → x.1 ≡ done
    → y.1 ≡ done
    → (if b then x else y).1 ≡ error e
    → Spared vm (if b then x else y).0
compacted vm e true x y d f h = cc
compacted vm e false x y d f h = cc

dispatch-Spared :
    {F : Type 0} (float : FloatOps F) (host : Host) (now : ℕ) (vm : Vm3D) (inst : Instruction3D)
    (e : VmError)
    → (dispatch float host now vm inst).1 ≡ error e
    → Spared vm (dispatch float host now vm inst).0
unfolding dispatch execute_mcompact
dispatch-Spared float host now vm inst e = elim (Bool-cases (inst.opcode == op_mcompact)) [
  | inl is_compact ↦ rw (dispatch, is_compact) (compacted vm e _ _ _ refl refl)
  | inr other ↦
      rw (dispatch, other)
        (λ h. record {
          same_core = execute_core-Fails float host now vm.core inst e h;
          same_pc = refl;
          same_config = refl;
        })
]

-- An instruction, of any opcode and with any operands, that ends in an error leaves the
-- registers, the Merkle tree, the bytes that the cache holds, the halt flag, the statistics, the
-- program counter and the configuration as they were.
pub execute_instruction-Spared :
    {F : Type 0} (float : FloatOps F) (host : Host) (now : ℕ) (vm : Vm3D) (inst : Instruction3D)
    (e : VmError)
    → (execute_instruction float host now vm inst).1 ≡ error e
    → Spared vm (execute_instruction float host now vm inst).0
unfolding execute_instruction paid
execute_instruction-Spared float host now vm inst e =
    go (consume vm.gas_account (calculate_gas_cost inst))
  where
    go :
        (r : GasAccountant3D × Bool)
        → (paid float host now vm inst r).1 ≡ error e
        → Spared vm (paid float host now vm inst r).0
    go (g, false) h = record { same_core = Core-Same vm.core; same_pc = refl; same_config = refl }
    go (g, true) h =
        let s = dispatch-Spared float host now (record vm { gas_account = g }) inst e h in
        record { same_core = s.same_core; same_pc = s.same_pc; same_config = s.same_config }
