-- ===== src/Vm/Machine/Reachability.antt =====
-- The states that the machine's callers lead it to.
use memory3d.Prelude.{ℕ, ◌+◌, ◌^◌, ◌<◌, ◌≡◌, List, length}
use memory3d.Types.Address.{Address3D}
use memory3d.Types.Float.{FloatOps}
use memory3d.Vm.Gas.{remaining, used}
use memory3d.Vm.Gas.Balance.{Within-sum}
use memory3d.Vm.Registers.{Registers}
use memory3d.Vm.Registers.Laws.{IsValid}
use memory3d.Vm.Machine.{Host, VmConfig, Vm3D, new_vm3d}
use memory3d.Vm.Machine.Api.{vm_load3d, vm_store3d, allocate_memory}
use memory3d.Vm.Machine.Keeping.{Sound}
use memory3d.Vm.Machine.Loop.{execute}
use memory3d.Vm.Machine.Invariant.{
  IsWell, new_vm3d-IsWell, execute-IsWell, vm_store3d-IsWell, allocate_memory-IsWell,
  vm_load3d-IsWell,
}

-- One call: Execute of a program, Load3D, Store3D, AllocateMemory, or a write to the sixteen
-- registers.
pub data Step {F : Type 0} (float : FloatOps F) (host : Host) : Vm3D → Vm3D → Type 0 where
  executes :
      (vm : Vm3D) (program : List ℕ)
      → length program < 2 ^ 64
      → Step float host vm (execute float host vm program).0
  loads :
      (now : ℕ) (vm : Vm3D) (addr : Address3D) (size : ℕ)
      → Step float host vm (vm_load3d now vm addr size).0
  stores :
      (now : ℕ) (vm : Vm3D) (addr : Address3D) (content : List ℕ)
      → Step float host vm (vm_store3d host now vm addr content).0
  allocates :
      (now : ℕ) (vm : Vm3D) (size kind : ℕ)
      → Step float host vm (allocate_memory now vm size kind).0
  sets :
      (vm : Vm3D) (r : Registers)
      → IsValid r
      → Step float host vm (record vm { core = record vm.core { registers = r } })

-- The states that calls lead to from a new machine.
pub data Reachable {F : Type 0} (float : FloatOps F) (host : Host) (config : VmConfig)
    : Vm3D → Type 0 where
  start : Reachable float host config (new_vm3d host config)
  next :
      (a b : Vm3D)
      → Reachable float host config a
      → Step float host a b
      → Reachable float host config b

module _ {F : Type 0} (float : FloatOps F) (host : Host) (config : VmConfig)
    (small : config.gas_limit < 2 ^ 63) where
  Step-IsWell :
      (a b : Vm3D) → Step float host a b → IsWell config.gas_limit a → IsWell config.gas_limit b
  Step-IsWell _ _ (executes vm program short) w =
      execute-IsWell config.gas_limit small float host vm program short w
  Step-IsWell _ _ (loads now vm addr size) w =
      vm_load3d-IsWell config.gas_limit small host now vm addr size w
  Step-IsWell _ _ (stores now vm addr content) w =
      vm_store3d-IsWell config.gas_limit small host now vm addr content w
  Step-IsWell _ _ (allocates now vm size kind) w =
      allocate_memory-IsWell config.gas_limit small host now vm size kind w
  Step-IsWell _ _ (sets vm r v) w = record {
    sound = w.sound;
    balanced = w.balanced;
    held = record { registers = v; cache = w.held.cache };
  }

  pub Reachable-IsWell : (vm : Vm3D) → Reachable float host config vm → IsWell config.gas_limit vm
  Reachable-IsWell _ start = new_vm3d-IsWell host config small
  Reachable-IsWell _ (next a b r step) = Step-IsWell a b step (Reachable-IsWell a r)

  -- In every state that calls of Execute, Load3D, Store3D and AllocateMemory and writes to the
  -- registers lead to from a new machine whose gas limit is below 2 ^ 63, for programs shorter
  -- than 2 ^ 64, every plane of every region is valid: its bitmap and its bytes have the plane's
  -- size, and the words of the bitmap fit.
  pub Reachable-Sound : (vm : Vm3D) → Reachable float host config vm → Sound vm.core
  Reachable-Sound vm r = IsWell.sound (Reachable-IsWell vm r)

  -- In every state that calls of Execute, Load3D, Store3D and AllocateMemory and writes to the
  -- registers lead to from a new machine whose gas limit is below 2 ^ 63, for programs shorter
  -- than 2 ^ 64, the gas left and the gas used add up to the gas limit.
  pub Reachable-gas :
      (vm : Vm3D)
      → Reachable float host config vm
      → remaining vm.gas_account + used vm.gas_account ≡ config.gas_limit
  Reachable-gas vm r =
      Within-sum config.gas_limit small vm.gas_account (IsWell.balanced (Reachable-IsWell vm r))
