-- ===== src/Vm/Machine/Failing/Unchanged.antt =====
-- What each failing instruction leaves unchanged of the core.
use memory3d.Prelude.{
  ℕ, ◌≡◌, refl, ◌∙◌, inl, inr, Option, none, some, List, ltb, leb, Bool-cases, Option-cases, length,
  take, u32,
}
use memory3d.Allocator.{
  Allocator3D, Result, got, nothing, panicked, failed, FreeResult, free_allocation,
}
use memory3d.Types.Address.{Address3D}
use memory3d.Types.Allocation.{Allocation, deref}
use memory3d.Types.Float.{FloatOps}
use memory3d.Vm.Cache.{SpatialCache, element_of, get_cached}
use memory3d.Vm.Instructions.{Instruction3D}
use memory3d.Vm.Memory.{
  MemoryManager, Loaded, loaded, load_refused, load_crashed, load3d, Stored, stored, store_refused,
  store_crashed, store3d,
}
use memory3d.Vm.Registers.{get_register}
use memory3d.Vm.Machine.{Host, Core, VmError, Ran, error, allocator_of, with_allocator}
use memory3d.Vm.Machine.Loop.{execute_core}
use memory3d.Vm.Machine.Operations.{
  finish_mload, mload_after, mload, finish_mstore, mstore, record_malloc, finish_malloc,
  finish_mfree, free_object, mfree, find_allocation, finish_mcopy, copy_loaded,
}
use memory3d.Vm.Machine.Walk.{execute_core-by}

-- The parts of the core that a failed instruction does not change. Of the cache only the order of
-- use may.
pub record Same (c c' : Core) : Type 0 where
  pub same_registers : c'.registers ≡ c.registers
  pub same_tree : c'.merkle_tree ≡ c.merkle_tree
  pub same_elements : c'.cache.elements ≡ c.cache.elements
  pub same_map : c'.cache.cache ≡ c.cache.cache
  pub same_halted : c'.halted ≡ c.halted
  pub same_stats : c'.stats ≡ c.stats

pub Core-Same : (c : Core) → Same c c
Core-Same c = record {
  same_registers = refl;
  same_tree = refl;
  same_elements = refl;
  same_map = refl;
  same_halted = refl;
  same_stats = refl;
}

-- Another memory makes no difference.
other_memory-Same : (c : Core) (mm : MemoryManager) → Same c (record c { memory = mm })
other_memory-Same c mm = record {
  same_registers = refl;
  same_tree = refl;
  same_elements = refl;
  same_map = refl;
  same_halted = refl;
  same_stats = refl;
}

-- If the result is an error, these parts are unchanged.
abbrev pub Fails : Core → Core × Ran → Type 0
Fails c r = (e : VmError) → r.1 ≡ error e → Same c r.0

module _ (host : Host) (now : ℕ) (c : Core) where
  finish_mload-Fails :
      (addr : Address3D) (reg : ℕ) (r : MemoryManager × Loaded)
      → Fails c (finish_mload now c addr reg r)
  unfolding finish_mload
  finish_mload-Fails addr reg (mm, loaded content) e h = cc
  finish_mload-Fails addr reg (mm, load_refused x) e h = other_memory-Same c mm
  finish_mload-Fails addr reg (mm, load_crashed) e h = cc

  mload_after-Fails :
      (addr : Address3D) (size reg : ℕ) (o : Option (List ℕ))
      → Fails c (mload_after now c addr size reg o)
  unfolding mload_after
  mload_after-Fails addr size reg none = finish_mload-Fails addr reg (load3d now c.memory addr size)
  mload_after-Fails addr size reg (some content) =
      elim (Bool-cases (leb size (u32 (length content)))) [
        | inl enough ↦ rw (mload_after, enough) (λ e h. cc)
        | inr short ↦
            rw (mload_after, short) (finish_mload-Fails addr reg (load3d now c.memory addr size))
      ]

  finish_mstore-Fails :
      (addr : Address3D) (content : List ℕ) (r : MemoryManager × Stored)
      → Fails c (finish_mstore host now c addr content r)
  unfolding finish_mstore
  finish_mstore-Fails addr content (mm, stored) e h = cc
  finish_mstore-Fails addr content (mm, store_refused x) e h = other_memory-Same c mm
  finish_mstore-Fails addr content (mm, store_crashed) e h = cc

  mstore-Fails : (addr : Address3D) (reg size : ℕ) → Fails c (mstore host now c addr reg size)
  unfolding mstore
  mstore-Fails addr reg size =
      let content = get_register c.registers reg in
      elim (Bool-cases (ltb (u32 (length content)) size)) [
        | inl short ↦ rw (mstore, short) (λ e h. Core-Same c)
        | inr enough ↦ rw (mstore, enough) (finish_mstore-Fails addr (take size content) _)
      ]

  record_malloc-Fails :
      (a : Allocator3D) (ptr : ℕ) (o : Option Allocation)
      → Fails c (record_malloc now (with_allocator c a) ptr o)
  unfolding record_malloc
  record_malloc-Fails a ptr none e h = cc
  record_malloc-Fails a ptr (some object) e h = cc

  finish_malloc-Fails : (r : Allocator3D × Result) → Fails c (finish_malloc now c r)
  unfolding finish_malloc
  finish_malloc-Fails (a, got ptr) e h = record_malloc-Fails a ptr (deref a.heap ptr) e h
  finish_malloc-Fails (a, nothing) e h = cc
  finish_malloc-Fails (a, panicked) e h = cc
  finish_malloc-Fails (a, failed x) e h = other_memory-Same c _

  finish_mfree-Fails :
      (addr : Address3D) (r : Allocator3D × FreeResult) → Fails c (finish_mfree now c addr r)
  unfolding finish_mfree
  finish_mfree-Fails addr (a, some x) e h = other_memory-Same c _
  finish_mfree-Fails addr (a, none) e h = cc

  free_object-Fails :
      (addr : Address3D) (o : Option Allocation) → Fails c (free_object now c addr o)
  unfolding free_object
  free_object-Fails addr none e h = cc
  free_object-Fails addr (some object) e h =
      finish_mfree-Fails addr (free_allocation (allocator_of c) object) e h

  mfree-Fails : (addr : Address3D) (o : Option ℕ) → Fails c (mfree now c addr o)
  unfolding mfree
  mfree-Fails addr none e h = Core-Same c
  mfree-Fails addr (some ptr) e h = free_object-Fails addr (deref (allocator_of c).heap ptr) e h

  finish_mcopy-Fails :
      (from to : Address3D) (content : List ℕ) (r : MemoryManager × Stored)
      → Fails c (finish_mcopy c from to content r)
  unfolding finish_mcopy
  finish_mcopy-Fails from to content (mm, stored) e h = cc
  finish_mcopy-Fails from to content (mm, store_refused x) e h = other_memory-Same c mm
  finish_mcopy-Fails from to content (mm, store_crashed) e h = cc

  copy_loaded-Fails :
      (from to : Address3D) (r : MemoryManager × Loaded) → Fails c (copy_loaded now c from to r)
  unfolding copy_loaded
  copy_loaded-Fails from to (mm, loaded content) e h =
      finish_mcopy-Fails from to content (store3d now mm to content) e h
  copy_loaded-Fails from to (mm, load_refused x) e h = other_memory-Same c mm
  copy_loaded-Fails from to (mm, load_crashed) e h = cc

-- A Get changes the order of use only.
get_cached-same :
    (c : SpatialCache) (addr : Address3D)
    → ((get_cached c addr).0.elements ≡ c.elements) × ((get_cached c addr).0.cache ≡ c.cache)
unfolding get_cached
get_cached-same c addr = elim (Option-cases (element_of addr c.cache)) [
  | inl e ↦ rw (get_cached, e) (refl, refl)
  | inr (i, e) ↦ rw (get_cached, e) (refl, refl)
]

mload-Fails :
    (host : Host) (now : ℕ) (c : Core) (addr : Address3D) (size reg : ℕ)
    → Fails c (mload now c addr size reg)
unfolding mload
mload-Fails host now c addr size reg e h =
    let looked = record c { cache = (get_cached c.cache addr).0 } in
    let s = mload_after-Fails host now looked addr size reg ((get_cached c.cache addr).1) e h in
    let g = get_cached-same c.cache addr in
    record {
      same_registers = s.same_registers;
      same_tree = s.same_tree;
      same_elements = s.same_elements ∙ g.0;
      same_map = s.same_map ∙ g.1;
      same_halted = s.same_halted;
      same_stats = s.same_stats;
    }

pub execute_core-Fails :
    {F : Type 0} (float : FloatOps F) (host : Host) (now : ℕ) (c : Core) (inst : Instruction3D)
    → Fails c (execute_core float host now c inst)
execute_core-Fails float host now c inst =
    execute_core-by float host now c (Fails c)
      (record {
        refused = λ x e h. Core-Same c;
        panicked = λ e h. cc;
        no_change = λ e h. cc;
        halts = λ e h. cc;
        writes = λ r v e h. cc;
        loads = mload-Fails host now c;
        stores = mstore-Fails host now c;
        allocates = λ size kind fl. finish_malloc-Fails host now c _;
        frees = λ addr. mfree-Fails host now c addr (find_allocation now c addr);
        copies = λ from to size. copy_loaded-Fails host now c from to _;
      })
      inst
