-- ===== src/Vm/Machine/Holding.antt =====
-- What every instruction keeps of the registers and of the cache.
use memory3d.Prelude.{
  ℕ, inl, inr, Option, none, some, List, ltb, leb, Bool-cases, length, take, u32,
}
use memory3d.Allocator.{
  Allocator3D, Result, got, nothing, panicked, failed, FreeResult, free_allocation,
}
use memory3d.Types.Address.{Address3D, bytes}
use memory3d.Types.Allocation.{Allocation, deref}
use memory3d.Types.Float.{FloatOps}
use memory3d.Vm.Cache.{get_cached}
use memory3d.Vm.Cache.Bounds.{
  IsHeld, new_spatial_cache-IsHeld, put_cached-IsHeld, get_cached-IsHeld, invalidate-IsHeld,
}
use memory3d.Vm.Instructions.{Instruction3D}
use memory3d.Vm.Memory.{
  MemoryManager, Loaded, loaded, load_refused, load_crashed, load3d, Stored, stored, store_refused,
  store_crashed, store3d,
}
use memory3d.Vm.Registers.{get_register, set_address}
use memory3d.Vm.Registers.Laws.{IsValid, new_registers-IsValid, set_register-IsValid}
use memory3d.Vm.Machine.{Host, VmConfig, Core, new_vm3d, allocator_of, with_allocator}
use memory3d.Vm.Machine.Loop.{execute_core}
use memory3d.Vm.Machine.Operations.{
  finish_mload, mload_after, mload, finish_mstore, mstore, record_malloc, finish_malloc,
  finish_mfree, free_object, mfree, find_allocation, finish_mcopy, copy_loaded,
}
use memory3d.Vm.Machine.Walk.{execute_core-by}

-- There are sixteen registers, and the cache is as its methods keep it.
pub record Held (c : Core) : Type 0 where
  pub registers : IsValid c.registers
  pub cache : IsHeld c.cache

pub new_vm3d-Held : (host : Host) (config : VmConfig) → Held (new_vm3d host config).core
unfolding new_vm3d
new_vm3d-Held host config = record {
  registers = new_registers-IsValid;
  cache = new_spatial_cache-IsHeld;
}

module _ (host : Host) (now : ℕ) (c : Core) (k : Held c) where
  -- The memory plays no part in this.
  beside : (mm : MemoryManager) → Held (record c { memory = mm })
  beside mm = record { registers = k.registers; cache = k.cache }

  finish_mload-Held :
      (addr : Address3D) (reg : ℕ) (r : MemoryManager × Loaded)
      → Held (finish_mload now c addr reg r).0
  unfolding finish_mload
  finish_mload-Held addr reg (mm, loaded content) = record {
    registers = set_register-IsValid c.registers k.registers reg content;
    cache = put_cached-IsHeld c.cache addr content k.cache;
  }
  finish_mload-Held addr reg (mm, load_refused e) = beside mm
  finish_mload-Held addr reg (mm, load_crashed) = beside mm

  mload_after-Held :
      (addr : Address3D) (size reg : ℕ) (o : Option (List ℕ))
      → Held (mload_after now c addr size reg o).0
  unfolding mload_after
  mload_after-Held addr size reg none = finish_mload-Held addr reg (load3d now c.memory addr size)
  mload_after-Held addr size reg (some content) =
      elim (Bool-cases (leb size (u32 (length content)))) [
        | inl enough ↦
            rw (mload_after, enough)
              (record {
                registers = set_register-IsValid c.registers k.registers reg (take size content);
                cache = k.cache;
              })
        | inr short ↦
            rw (mload_after, short) (finish_mload-Held addr reg (load3d now c.memory addr size))
      ]

  finish_mstore-Held :
      (addr : Address3D) (content : List ℕ) (r : MemoryManager × Stored)
      → Held (finish_mstore host now c addr content r).0
  unfolding finish_mstore
  finish_mstore-Held addr content (mm, stored) = record {
    registers = k.registers;
    cache = put_cached-IsHeld c.cache addr content k.cache;
  }
  finish_mstore-Held addr content (mm, store_refused e) = beside mm
  finish_mstore-Held addr content (mm, store_crashed) = beside mm

  mstore-Held : (addr : Address3D) (reg size : ℕ) → Held (mstore host now c addr reg size).0
  unfolding mstore
  mstore-Held addr reg size =
      let content = get_register c.registers reg in
      elim (Bool-cases (ltb (u32 (length content)) size)) [
        | inl short ↦ rw (mstore, short) k
        | inr enough ↦ rw (mstore, enough) (finish_mstore-Held addr (take size content) _)
      ]

  finish_malloc-Held : (r : Allocator3D × Result) → Held (finish_malloc now c r).0
  unfolding finish_malloc record_malloc set_address
  finish_malloc-Held (a, got ptr) = recorded (deref a.heap ptr)
    where
      recorded : (o : Option Allocation) → Held (record_malloc now (with_allocator c a) ptr o).0
      recorded none = beside _
      recorded (some object) = record {
        registers = set_register-IsValid c.registers k.registers 0 (bytes object.address);
        cache = k.cache;
      }
  finish_malloc-Held (a, nothing) = beside _
  finish_malloc-Held (a, panicked) = beside _
  finish_malloc-Held (a, failed e) = beside _

  mfree-Held : (addr : Address3D) (o : Option ℕ) → Held (mfree now c addr o).0
  unfolding mfree finish_mfree free_object
  mfree-Held addr none = k
  mfree-Held addr (some ptr) = object_of (deref (allocator_of c).heap ptr)
    where
      freed : (r : Allocator3D × FreeResult) → Held (finish_mfree now c addr r).0
      freed (a, some e) = beside _
      freed (a, none) = record {
        registers = k.registers;
        cache = invalidate-IsHeld c.cache addr k.cache;
      }

      object_of : (o : Option Allocation) → Held (free_object now c addr o).0
      object_of none = k
      object_of (some object) = freed (free_allocation (allocator_of c) object)

  finish_mcopy-Held :
      (from to : Address3D) (content : List ℕ) (r : MemoryManager × Stored)
      → Held (finish_mcopy c from to content r).0
  unfolding finish_mcopy
  finish_mcopy-Held from to content (mm, stored) = record {
    registers = k.registers;
    cache = put_cached-IsHeld _ to content (put_cached-IsHeld c.cache from content k.cache);
  }
  finish_mcopy-Held from to content (mm, store_refused e) = beside mm
  finish_mcopy-Held from to content (mm, store_crashed) = beside mm

  copy_loaded-Held :
      (from to : Address3D) (r : MemoryManager × Loaded) → Held (copy_loaded now c from to r).0
  unfolding copy_loaded
  copy_loaded-Held from to (mm, loaded content) =
      finish_mcopy-Held from to content (store3d now mm to content)
  copy_loaded-Held from to (mm, load_refused e) = beside mm
  copy_loaded-Held from to (mm, load_crashed) = beside mm

mload-Held :
    (host : Host) (now : ℕ) (c : Core)
    → Held c
    → (addr : Address3D) (size reg : ℕ) → Held (mload now c addr size reg).0
unfolding mload
mload-Held host now c k addr size reg =
    mload_after-Held host now (record c { cache = (get_cached c.cache addr).0 })
      (record { registers = k.registers; cache = get_cached-IsHeld c.cache addr k.cache }) addr size
      reg _

-- The switch keeps what the instructions keep.
pub execute_core-Held :
    {F : Type 0} (float : FloatOps F) (host : Host) (now : ℕ) (c : Core) (inst : Instruction3D)
    → Held c
    → Held (execute_core float host now c inst).0
execute_core-Held float host now c inst k =
    execute_core-by float host now c (λ r. Held r.0)
      (record {
        refused = λ e. k;
        panicked = k;
        no_change = k;
        halts = record { registers = k.registers; cache = k.cache };
        writes = λ r v. record { registers = v k.registers; cache = k.cache };
        loads = mload-Held host now c k;
        stores = mstore-Held host now c k;
        allocates = λ size kind fl. finish_malloc-Held host now c k _;
        frees = λ addr. mfree-Held host now c k addr (find_allocation now c addr);
        copies = λ from to size. copy_loaded-Held host now c k from to _;
      })
      inst
