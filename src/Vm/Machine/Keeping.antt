-- ===== src/Vm/Machine/Keeping.antt =====
-- What every instruction keeps: the soundness of the allocator and the count of instructions.
use memory3d.Prelude.{
  ℕ, ◌≡◌, refl, sym, subst, inl, inr, false, Option, none, some, List, ltb, leb, Bool-cases, length,
  take, u32,
}
use memory3d.Allocator.{Allocator3D, Result, got, nothing, panicked, failed, FreeResult}
use memory3d.Allocator.Validity.{IsSound}
use memory3d.Allocator.Reachability.{allocate-IsSound, free_allocation-IsSound}
use memory3d.Types.Address.{Address3D}
use memory3d.Types.Allocation.{Allocation, deref}
use memory3d.Types.Float.{FloatOps}
use memory3d.Vm.Cache.{get_cached}
use memory3d.Vm.Instructions.{Instruction3D}
use memory3d.Vm.Memory.{
  MemoryManager, Loaded, loaded, load_refused, load_crashed, load3d, Stored, stored, store_refused,
  store_crashed, log_access,
}
use memory3d.Vm.Memory.Soundness.{
  load3d-allocator, store3d-sound, update_access_at-sound, untrack_allocation-allocator,
}
use memory3d.Vm.Memory.Tracking.{track_allocation}
use memory3d.Vm.Registers.{get_register}
use memory3d.Vm.Machine.{Host, Core, Ran, allocator_of, with_allocator}
use memory3d.Vm.Machine.Loop.{execute_core}
use memory3d.Vm.Machine.Operations.{
  finish_mload, mload_after, mload, finish_mstore, mstore, record_malloc, finish_malloc,
  finish_mfree, free_object, mfree, find_allocation, finish_mcopy, copy_loaded,
}
use memory3d.Vm.Machine.Walk.{execute_core-by}

-- Every plane of the allocator that the core works on is valid.
abbrev pub Sound : Core → Type 0
Sound c = IsSound (allocator_of c)

pub record Kept (c : Core) (r : Core × Ran) : Type 0 where
  pub sound : Sound c → Sound r.0
  pub counted : r.0.stats.instructions_executed ≡ c.stats.instructions_executed

abbrev same_allocator : (a : Allocator3D) {b : Allocator3D} → a ≡ b → IsSound b → IsSound a
same_allocator a e s = subst IsSound (sym e) s

module _ (host : Host) (now : ℕ) (c : Core) where
  finish_mload-Kept :
      (addr : Address3D) (reg : ℕ) (r : MemoryManager × Loaded)
      → (Sound c → IsSound r.0.allocator)
      → Kept c (finish_mload now c addr reg r)
  unfolding finish_mload
  finish_mload-Kept addr reg (mm, loaded content) h = record {
    sound = λ s. update_access_at-sound now mm addr (h s);
    counted = refl;
  }
  finish_mload-Kept addr reg (mm, load_refused e) h = record { sound = h; counted = refl }
  finish_mload-Kept addr reg (mm, load_crashed) h = record { sound = h; counted = refl }

  load_sound :
      (addr : Address3D) (size : ℕ) → Sound c → IsSound (load3d now c.memory addr size).0.allocator
  load_sound addr size s =
      same_allocator (load3d now c.memory addr size).0.allocator
        (load3d-allocator now c.memory addr size) s

  mload_after-Kept :
      (addr : Address3D) (size reg : ℕ) (o : Option (List ℕ))
      → Kept c (mload_after now c addr size reg o)
  unfolding mload_after
  mload_after-Kept addr size reg none =
      finish_mload-Kept addr reg (load3d now c.memory addr size) (load_sound addr size)
  mload_after-Kept addr size reg (some content) =
      elim (Bool-cases (leb size (u32 (length content)))) [
        | inl enough ↦ rw (mload_after, enough) (record { sound = λ s. s; counted = refl })
        | inr short ↦
            rw (mload_after, short)
              (finish_mload-Kept addr reg (load3d now c.memory addr size) (load_sound addr size))
      ]

  finish_mstore-Kept :
      (addr : Address3D) (content : List ℕ) (r : MemoryManager × Stored)
      → (Sound c → IsSound r.0.allocator)
      → Kept c (finish_mstore host now c addr content r)
  unfolding finish_mstore
  finish_mstore-Kept addr content (mm, stored) h = record {
    sound = λ s. update_access_at-sound now mm addr (h s);
    counted = refl;
  }
  finish_mstore-Kept addr content (mm, store_refused e) h = record { sound = h; counted = refl }
  finish_mstore-Kept addr content (mm, store_crashed) h = record { sound = h; counted = refl }

  mstore-Kept : (addr : Address3D) (reg size : ℕ) → Kept c (mstore host now c addr reg size)
  unfolding mstore
  mstore-Kept addr reg size =
      let content = get_register c.registers reg in
      elim (Bool-cases (ltb (u32 (length content)) size)) [
        | inl short ↦ rw (mstore, short) (record { sound = λ s. s; counted = refl })
        | inr enough ↦
            rw (mstore, enough)
              (finish_mstore-Kept addr (take size content) _
                (store3d-sound now c.memory addr (take size content)))
      ]

  record_malloc-Kept :
      (a : Allocator3D) (ptr : ℕ) (o : Option Allocation)
      → (Sound c → IsSound a)
      → Kept c (record_malloc now (with_allocator c a) ptr o)
  unfolding record_malloc track_allocation log_access
  record_malloc-Kept a ptr none h = record { sound = h; counted = refl }
  record_malloc-Kept a ptr (some object) h = record { sound = h; counted = refl }

  finish_malloc-Kept :
      (r : Allocator3D × Result) → (Sound c → IsSound r.0) → Kept c (finish_malloc now c r)
  unfolding finish_malloc
  finish_malloc-Kept (a, got ptr) h = record_malloc-Kept a ptr (deref a.heap ptr) h
  finish_malloc-Kept (a, nothing) h = record { sound = h; counted = refl }
  finish_malloc-Kept (a, panicked) h = record { sound = h; counted = refl }
  finish_malloc-Kept (a, failed e) h = record { sound = h; counted = refl }

  finish_mfree-Kept :
      (addr : Address3D) (r : Allocator3D × FreeResult)
      → (Sound c → IsSound r.0)
      → Kept c (finish_mfree now c addr r)
  unfolding finish_mfree
  finish_mfree-Kept addr (a, some e) h = record { sound = h; counted = refl }
  finish_mfree-Kept addr (a, none) h = record {
    sound = λ s.
        same_allocator _ (untrack_allocation-allocator now (record c.memory { allocator = a }) addr)
          (h s);
    counted = refl;
  }

  free_object-Kept : (addr : Address3D) (o : Option Allocation) → Kept c (free_object now c addr o)
  unfolding free_object
  free_object-Kept addr none = record { sound = λ s. s; counted = refl }
  free_object-Kept addr (some object) =
      finish_mfree-Kept addr _ (free_allocation-IsSound (allocator_of c) object)

  mfree-Kept : (addr : Address3D) (o : Option ℕ) → Kept c (mfree now c addr o)
  unfolding mfree
  mfree-Kept addr none = record { sound = λ s. s; counted = refl }
  mfree-Kept addr (some ptr) = free_object-Kept addr (deref (allocator_of c).heap ptr)

  finish_mcopy-Kept :
      (from to : Address3D) (content : List ℕ) (r : MemoryManager × Stored)
      → (Sound c → IsSound r.0.allocator)
      → Kept c (finish_mcopy c from to content r)
  unfolding finish_mcopy
  finish_mcopy-Kept from to content (mm, stored) h = record { sound = h; counted = refl }
  finish_mcopy-Kept from to content (mm, store_refused e) h = record { sound = h; counted = refl }
  finish_mcopy-Kept from to content (mm, store_crashed) h = record { sound = h; counted = refl }

  copy_loaded-Kept :
      (from to : Address3D) (r : MemoryManager × Loaded)
      → (Sound c → IsSound r.0.allocator)
      → Kept c (copy_loaded now c from to r)
  unfolding copy_loaded
  copy_loaded-Kept from to (mm, loaded content) h =
      finish_mcopy-Kept from to content _ λ s. store3d-sound now mm to content (h s)
  copy_loaded-Kept from to (mm, load_refused e) h = record { sound = h; counted = refl }
  copy_loaded-Kept from to (mm, load_crashed) h = record { sound = h; counted = refl }

mload-Kept :
    (host : Host) (now : ℕ) (c : Core) (addr : Address3D) (size reg : ℕ)
    → Kept c (mload now c addr size reg)
unfolding mload
mload-Kept host now c addr size reg =
    let k =
      mload_after-Kept host now (record c { cache = (get_cached c.cache addr).0 }) addr size reg
        _ in
    record { sound = k.sound; counted = k.counted }

-- The switch keeps what the instructions keep.
pub execute_core-Kept :
    {F : Type 0} (float : FloatOps F) (host : Host) (now : ℕ) (c : Core) (inst : Instruction3D)
    → Kept c (execute_core float host now c inst)
execute_core-Kept float host now c inst =
    execute_core-by float host now c (Kept c)
      (record {
        refused = λ e. record { sound = λ s. s; counted = refl };
        panicked = record { sound = λ s. s; counted = refl };
        no_change = record { sound = λ s. s; counted = refl };
        halts = record { sound = λ s. s; counted = refl };
        writes = λ r v. record { sound = λ s. s; counted = refl };
        loads = mload-Kept host now c;
        stores = mstore-Kept host now c;
        allocates = λ size kind fl.
            finish_malloc-Kept host now c _
              (allocate-IsSound false now (allocator_of c) size kind fl);
        frees = λ addr. mfree-Kept host now c addr (find_allocation now c addr);
        copies =
            λ from to size. copy_loaded-Kept host now c from to _ (load_sound host now c from size);
      })
      inst
