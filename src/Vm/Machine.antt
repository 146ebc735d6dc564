-- ===== src/Vm/Machine.antt =====
-- internal/vm/vm.go: the machine's state. The machine and its memory manager point to one allocator,
-- which stands in the memory manager. The fields stack, callStack and metrics are never read, `paused`
-- is never set and haltChan never closed; they and the times of the statistics are left out.
pub mod Operations
pub mod Queries
pub mod Loop
pub mod Walk
pub mod Api
pub mod Keeping
pub mod Holding
pub mod Settling
pub mod Rounds
pub mod Ending
pub mod Charging
pub mod Storing
pub mod Failing
pub mod Arithmetic
pub mod Invariant
pub mod Reachability
pub mod Visiting
use memory3d.Prelude.{ℕ, Bool, false, Option, none, some, List, if◌then◌else◌}
use memory3d.Allocator.{Config, Error, Allocator3D, new_allocator3d}
use memory3d.Merkle.{Tree3D, Nodes, TreeHasher, sha256_hasher, new_tree3d, update_tree}
use memory3d.Types.Address.{Address3D}
use memory3d.Vm.Cache.{SpatialCache, new_spatial_cache}
use memory3d.Vm.Gas.{GasAccountant3D, new_accountant}
use memory3d.Vm.Instructions.{FetchError}
use memory3d.Vm.Memory.{AllocationMap, AccessType, MemoryManager, new_memory_manager, AccessError}
use memory3d.Vm.Registers.{Registers, new_registers}

-- What the machine takes from outside: the function of crypto/sha256, the order in which range
-- visits the nodes of the Merkle tree, the orders in which it visits the map of allocations, and
-- the time at which the n-th instruction runs.
pub record Host : Type 0 where
  pub sha256 : List ℕ → List ℕ
  pub visit_order : Nodes → Nodes
  pub range_orders : ℕ → AccessType → AllocationMap → AllocationMap
  pub clock : ℕ → ℕ

-- MemorySize, EnableCompaction and LogLevel are never read.
pub record VmConfig : Type 0 where
  pub gas_limit : ℕ
  pub enable_proof : Bool
  pub max_instructions : ℕ

pub record VmStats : Type 0 where
  pub instructions_executed : ℕ
  pub total_gas_used : ℕ
  pub allocations : ℕ
  pub memory_usage : ℕ
  pub y_promotions : ℕ

-- What the instructions work on: all of the machine but its gas and its program counter.
pub record Core : Type 0 where
  pub registers : Registers
  pub memory : MemoryManager
  pub cache : SpatialCache
  pub merkle_tree : Option Tree3D
  pub halted : Bool
  pub stats : VmStats

pub record Vm3D : Type 0 where
  pub core : Core
  pub gas_account : GasAccountant3D
  pub pc : ℕ
  pub config : VmConfig

-- The errors that the machine returns. An operand is named by its index, an opcode and a query by
-- its number.
pub data VmError : Type 0 where
  insufficient_gas gas_exhausted instruction_limit : VmError
  wrong_count register_too_small allocation_not_found no_allocation merkle_disabled : VmError
  invalid_operand unsupported unknown_query : ℕ → VmError
  fetch_failed : FetchError → VmError
  load_failed store_failed : AccessError → VmError
  malloc_failed mfree_failed : Error → VmError

-- How an instruction ends; `panics` is a run-time panic.
pub data Ran : Type 0 where
  done panics : Ran
  error : VmError → Ran

abbrev pub no_vm_stats : VmStats
no_vm_stats = record {
  instructions_executed = 0;
  total_gas_used = 0;
  allocations = 0;
  memory_usage = 0;
  y_promotions = 0;
}

abbrev pub vm_allocator_config : Config
vm_allocator_config = record {
  plane_size = 65535;
  max_y_planes = 1024;
  max_y_promotions = 8;
  worker_count = 4;
  enable_concurrent = false;
  enable_pooling = false;
}

unfoldable pub new_vm3d : Host → VmConfig → Vm3D
new_vm3d host config = record {
  core = record {
    registers = new_registers;
    memory = new_memory_manager host.range_orders (new_allocator3d vm_allocator_config);
    cache = new_spatial_cache;
    merkle_tree = if config.enable_proof then some new_tree3d else none;
    halted = false;
    stats = no_vm_stats;
  };
  gas_account = new_accountant config.gas_limit;
  pc = 0;
  config = config;
}

abbrev pub allocator_of : Core → Allocator3D
allocator_of c = c.memory.allocator

abbrev pub with_allocator : Core → Allocator3D → Core
with_allocator c a = record c { memory = record c.memory { allocator = a } }

abbrev pub hasher_of : Host → TreeHasher
hasher_of host = sha256_hasher host.sha256

-- The Merkle tree after a store, where there is one.
unfoldable pub update_merkle : Host → Address3D → List ℕ → Option Tree3D → Option Tree3D
update_merkle host addr content none = none
update_merkle host addr content (some t) =
    some (update_tree (hasher_of host) host.visit_order t addr content)
