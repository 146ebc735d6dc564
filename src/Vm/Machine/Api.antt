-- ===== src/Vm/Machine/Api.antt =====
-- internal/vm/vm.go: the methods that the machine's callers use, next to Execute. Each holds the
-- machine's mutex from beginning to end, so each is one step.
use memory3d.Prelude.{ℕ, ◌*◌, Bool, true, false, Option, none, some, List, length, u32, u64}
use memory3d.Allocator.{Allocator3D, Error, Result, got, nothing, panicked, failed, allocate}
use memory3d.Allocator.Compaction.{CompactionConfig, analyze_compaction, allocator_report}
use memory3d.Merkle.{generate_proof, verify_proof, get_root}
use memory3d.Types.Address.{Address3D}
use memory3d.Types.Allocation.{Allocation, deref}
use memory3d.Types.Float.{FloatOps}
use memory3d.Types.Fragmentation.{CompactionReport}
use memory3d.Types.Region.{region_type_heap}
use memory3d.Vm.Cache.{put_cached}
use memory3d.Vm.Gas.{GasAccountant3D, consume, remaining, used}
use memory3d.Vm.Memory.{
  MemoryManager, Loaded, load3d, address_not_allocated, Stored, stored, store_refused,
  store_crashed, store3d,
}
use memory3d.Vm.Memory.Tracking.{track_allocation, update_access_at}
use memory3d.Vm.Registers.{Registers}
use memory3d.Vm.Instructions.{Instruction3D}
use memory3d.Allocator.Workers.{is_concurrent}
use memory3d.Vm.Machine.Queries.{execute_mcompact}
use memory3d.Vm.Machine.{
  Host, Vm3D, VmStats, insufficient_gas, store_failed, malloc_failed, Ran, done, panics, error,
  allocator_of, with_allocator, hasher_of, update_merkle,
}

abbrev pub with_memory : Vm3D → MemoryManager → Vm3D
with_memory vm mm = record vm { core = record vm.core { memory = mm } }

-- Load3D.
unfoldable pub vm_load3d : ℕ → Vm3D → Address3D → ℕ → Vm3D × Loaded
vm_load3d now vm addr size =
    let r = load3d now vm.core.memory addr size in (with_memory vm r.0, r.1)

-- The charge that ends Store3D: what is stored stays.
unfoldable pub charged : Vm3D → GasAccountant3D × Bool → Vm3D × Ran
charged vm (g, true) = (record vm { gas_account = g }, done)
charged vm (g, false) = (record vm { gas_account = g }, error insufficient_gas)

unfoldable pub after_store : Host → ℕ → Vm3D → Address3D → List ℕ → MemoryManager → Vm3D × Ran
after_store host now vm addr content mm =
    charged
      (record vm {
        core = record vm.core {
          cache = put_cached vm.core.cache addr content;
          merkle_tree = update_merkle host addr content vm.core.merkle_tree;
          memory = update_access_at now mm addr;
        };
      })
      (consume vm.gas_account (u64 (15 * length content)))

-- The second attempt, at the address of a new block.
unfoldable pub store_again :
    Host → ℕ → Vm3D → Address3D → List ℕ → MemoryManager × Stored → Vm3D × Ran
store_again host now vm addr content (mm, stored) = after_store host now vm addr content mm
store_again host now vm addr content (mm, store_refused e) =
    (with_memory vm mm, error (store_failed e))
store_again host now vm addr content (mm, store_crashed) = (with_memory vm mm, panics)

unfoldable pub store_in_block : Host → ℕ → Vm3D → List ℕ → ℕ → Option Allocation → Vm3D × Ran
store_in_block host now vm content ptr none = (vm, panics)
store_in_block host now vm content ptr (some object) =
    store_again host now vm object.address content
      (store3d now (track_allocation now vm.core.memory ptr object) object.address content)

abbrev pub with_vm_allocator : Vm3D → Allocator3D → Vm3D
with_vm_allocator vm a = record vm { core = with_allocator vm.core a }

unfoldable pub store_anew : Host → ℕ → Vm3D → List ℕ → Allocator3D × Result → Vm3D × Ran
store_anew host now vm content (a, got ptr) =
    store_in_block host now (with_vm_allocator vm a) content ptr (deref a.heap ptr)
store_anew host now vm content (a, nothing) = (with_vm_allocator vm a, panics)
store_anew host now vm content (a, panicked) = (with_vm_allocator vm a, panics)
store_anew host now vm content (a, failed e) = (with_vm_allocator vm a, error (malloc_failed e))

unfoldable pub store_first :
    Host → ℕ → Vm3D → Address3D → List ℕ → MemoryManager × Stored → Vm3D × Ran
store_first host now vm addr content (mm, stored) = after_store host now vm addr content mm
store_first host now vm addr content (mm, store_refused address_not_allocated) =
    store_anew host now (with_memory vm mm) content
      (allocate false now mm.allocator (u32 (length content)) region_type_heap 0)
store_first host now vm addr content (mm, store_refused e) =
    (with_memory vm mm, error (store_failed e))
store_first host now vm addr content (mm, store_crashed) = (with_memory vm mm, panics)

-- Store3D: content for an address that is not allocated goes to a new block of the heap.
unfoldable pub vm_store3d : Host → ℕ → Vm3D → Address3D → List ℕ → Vm3D × Ran
vm_store3d host now vm addr content =
    store_first host now vm addr content (store3d now vm.core.memory addr content)

pub data Allocated : Type 0 where
  allocated_at : Address3D → Allocated
  not_allocated : Error → Allocated
  allocation_panics : Allocated

unfoldable pub register_block : ℕ → Vm3D → ℕ → Option Allocation → Vm3D × Allocated
register_block now vm ptr none = (vm, allocation_panics)
register_block now vm ptr (some object) =
    (with_memory vm (track_allocation now vm.core.memory ptr object), allocated_at object.address)

unfoldable pub finish_allocate : ℕ → Vm3D → Allocator3D × Result → Vm3D × Allocated
finish_allocate now vm (a, got ptr) =
    register_block now (with_vm_allocator vm a) ptr (deref a.heap ptr)
finish_allocate now vm (a, nothing) = (with_vm_allocator vm a, allocation_panics)
finish_allocate now vm (a, panicked) = (with_vm_allocator vm a, allocation_panics)
finish_allocate now vm (a, failed e) = (with_vm_allocator vm a, not_allocated e)

unfoldable pub allocate_memory : ℕ → Vm3D → ℕ → ℕ → Vm3D × Allocated
allocate_memory now vm size kind =
    finish_allocate now vm (allocate false now (allocator_of vm.core) size kind 0)

-- `none` is the error "merkle tree not enabled", and nil for the root.
unfoldable pub get_merkle_proof : Vm3D → Address3D → Option (List (List ℕ))
get_merkle_proof vm addr = elim vm.core.merkle_tree [
  | none ↦ none
  | some t ↦ some (generate_proof t addr)
]

unfoldable pub verify_memory_state : Host → Vm3D → Address3D → List ℕ → List (List ℕ) → Option Bool
verify_memory_state host vm addr content proof = elim vm.core.merkle_tree [
  | none ↦ none
  | some t ↦ some (verify_proof (hasher_of host) t addr proof content)
]

unfoldable pub get_merkle_root : Vm3D → Option (List ℕ)
get_merkle_root vm = elim vm.core.merkle_tree [ none ↦ none | some t ↦ some (get_root t) ]

abbrev pub get_gas_remaining : Vm3D → ℕ
get_gas_remaining vm = remaining vm.gas_account

abbrev pub get_gas_used : Vm3D → ℕ
get_gas_used vm = used vm.gas_account

abbrev pub get_stats : Vm3D → VmStats
get_stats vm = vm.core.stats

abbrev pub get_memory_manager : Vm3D → MemoryManager
get_memory_manager vm = vm.core.memory

abbrev pub get_registers : Vm3D → Registers
get_registers vm = vm.core.registers

-- The allocator is never nil in a machine that NewVM3D made.
abbrev pub is_allocator_concurrent : Vm3D → Bool
is_allocator_concurrent vm = is_concurrent (allocator_of vm.core)

module _ {F : Type 0} (float : FloatOps F) where
  abbrev pub vm_compaction_report : Vm3D → List (ℕ × CompactionReport F)
  vm_compaction_report vm = allocator_report float (allocator_of vm.core)

  abbrev pub vm_analyze_compaction : Vm3D → CompactionConfig F → List ℕ
  vm_analyze_compaction vm config = analyze_compaction float (allocator_of vm.core) config

  -- The instruction that it is given is not read.
  abbrev pub execute_compact_instruction : Vm3D → Instruction3D → Vm3D × Ran
  execute_compact_instruction vm inst = execute_mcompact float vm
