-- ===== src/Vm/Machine/Operations.antt =====
-- internal/vm/executor.go: the instructions. Each reads its operands in order and works on the core of
-- the machine; `now` is the time at which it runs.
use memory3d.Prelude.{
  ℕ, ◌+◌, true, false, Option, none, some, List, [], ◌∷◌, ltb, leb, if◌then◌else◌, length, take,
  u32, u64, sub64,
}
use memory3d.Allocator.{
  Allocator3D, Result, got, nothing, panicked, failed, FreeResult, allocate, free_allocation,
}
use memory3d.Types.Address.{Address3D}
use memory3d.Types.Allocation.{Allocation, deref, is_y_promoted}
use memory3d.Vm.Cache.{get_cached, put_cached, invalidate}
use memory3d.Vm.Instructions.{Operand, register, address, size_of, region_type, flags}
use memory3d.Vm.Memory.{
  MemoryManager, read, get_allocation, Loaded, loaded, load_refused, load_crashed, load3d, Stored,
  stored, store_refused, store_crashed, store3d,
}
use memory3d.Vm.Memory.Tracking.{track_allocation, untrack_allocation, update_access_at}
use memory3d.Vm.Registers.{get_register, set_register, get_uint64, set_uint64, set_address}
use memory3d.Vm.Machine.{
  Host, Core, register_too_small, allocation_not_found, wrong_count, invalid_operand, load_failed,
  store_failed, malloc_failed, mfree_failed, Ran, done, panics, error, allocator_of, with_allocator,
  update_merkle,
}

-- A type assertion on the operand at an index.
abbrev pub with_address : ℕ → Operand → Core → (Address3D → Core × Ran) → Core × Ran
with_address i (address a) c k = k a
with_address i _ c k = (c, error (invalid_operand i))

abbrev pub with_size : ℕ → Operand → Core → (ℕ → Core × Ran) → Core × Ran
with_size i (size_of n) c k = k n
with_size i _ c k = (c, error (invalid_operand i))

abbrev pub with_register : ℕ → Operand → Core → (ℕ → Core × Ran) → Core × Ran
with_register i (register r) c k = k r
with_register i _ c k = (c, error (invalid_operand i))

abbrev pub with_region_type : ℕ → Operand → Core → (ℕ → Core × Ran) → Core × Ran
with_region_type i (region_type t) c k = k t
with_region_type i _ c k = (c, error (invalid_operand i))

-- An operand of another type counts as no flags.
abbrev pub flags_or_zero : Operand → ℕ
flags_or_zero (flags f) = f
flags_or_zero _ = 0

-- MLOAD3D.
unfoldable pub finish_mload : ℕ → Core → Address3D → ℕ → MemoryManager × Loaded → Core × Ran
finish_mload now c addr reg (mm, loaded content) = (
  record c {
    cache = put_cached c.cache addr content;
    registers = set_register c.registers reg content;
    memory = update_access_at now mm addr;
  },
  done,
)
finish_mload now c addr reg (mm, load_refused e) = (record c { memory = mm }, error (load_failed e))
finish_mload now c addr reg (mm, load_crashed) = (record c { memory = mm }, panics)

-- With what the cache holds for the address: only an entry that is long enough is used.
unfoldable pub mload_after : ℕ → Core → Address3D → ℕ → ℕ → Option (List ℕ) → Core × Ran
mload_after now c addr size reg none = finish_mload now c addr reg (load3d now c.memory addr size)
mload_after now c addr size reg (some content) =
    if leb size (u32 (length content))
    then (record c { registers = set_register c.registers reg (take size content) }, done)
    else finish_mload now c addr reg (load3d now c.memory addr size)

unfoldable pub mload : ℕ → Core → Address3D → ℕ → ℕ → Core × Ran
mload now c addr size reg =
    mload_after now (record c { cache = (get_cached c.cache addr).0 }) addr size reg
      (get_cached c.cache addr).1

unfoldable pub execute_mload : ℕ → Core → List Operand → Core × Ran
execute_mload now c (o0 ∷ o1 ∷ o2 ∷ []) =
    with_address 0 o0 c
      λ addr. with_size 1 o1 c λ size. with_register 2 o2 c λ reg. mload now c addr size reg
execute_mload now c _ = (c, error wrong_count)

-- MSTORE3D.
unfoldable pub finish_mstore :
    Host → ℕ → Core → Address3D → List ℕ → MemoryManager × Stored → Core × Ran
finish_mstore host now c addr content (mm, stored) = (
  record c {
    cache = put_cached c.cache addr content;
    merkle_tree = update_merkle host addr content c.merkle_tree;
    memory = update_access_at now mm addr;
  },
  done,
)
finish_mstore host now c addr content (mm, store_refused e) =
    (record c { memory = mm }, error (store_failed e))
finish_mstore host now c addr content (mm, store_crashed) = (record c { memory = mm }, panics)

unfoldable pub mstore : Host → ℕ → Core → Address3D → ℕ → ℕ → Core × Ran
mstore host now c addr reg size =
    let content = get_register c.registers reg in
    if ltb (u32 (length content)) size
    then (c, error register_too_small)
    else finish_mstore host now c addr (take size content)
        (store3d now c.memory addr (take size content))

unfoldable pub execute_mstore : Host → ℕ → Core → List Operand → Core × Ran
execute_mstore host now c (o0 ∷ o1 ∷ o2 ∷ []) =
    with_address 0 o0 c
      λ addr. with_register 1 o1 c λ reg. with_size 2 o2 c λ size. mstore host now c addr reg size
execute_mstore host now c _ = (c, error wrong_count)

-- MALLOC3D: the address goes to R0. A nil allocation without an error panics.
unfoldable pub record_malloc : ℕ → Core → ℕ → Option Allocation → Core × Ran
record_malloc now c ptr none = (c, panics)
record_malloc now c ptr (some object) = (
  record c {
    registers = set_address c.registers 0 object.address;
    memory = track_allocation now c.memory ptr object;
    stats = record c.stats {
      allocations = u64 (c.stats.allocations + 1);
      y_promotions =
          if is_y_promoted object then u64 (c.stats.y_promotions + 1) else c.stats.y_promotions;
    };
  },
  done,
)

unfoldable pub finish_malloc : ℕ → Core → Allocator3D × Result → Core × Ran
finish_malloc now c (a, got ptr) = record_malloc now (with_allocator c a) ptr (deref a.heap ptr)
finish_malloc now c (a, nothing) = (with_allocator c a, panics)
finish_malloc now c (a, panicked) = (with_allocator c a, panics)
finish_malloc now c (a, failed e) = (with_allocator c a, error (malloc_failed e))

-- The machine's allocator has no workers, so that no queue is ever full.
unfoldable pub execute_malloc : ℕ → Core → List Operand → Core × Ran
execute_malloc now c (o0 ∷ o1 ∷ o2 ∷ []) = with_size 0 o0 c λ size.
    with_region_type 1 o1 c
      λ kind. finish_malloc now c (allocate false now (allocator_of c) size kind (flags_or_zero o2))
execute_malloc now c _ = (c, error wrong_count)

-- MFREE3D.
unfoldable pub finish_mfree : ℕ → Core → Address3D → Allocator3D × FreeResult → Core × Ran
finish_mfree now c addr (a, some e) = (with_allocator c a, error (mfree_failed e))
finish_mfree now c addr (a, none) = (
  record c {
    memory = untrack_allocation now (record c.memory { allocator = a }) addr;
    cache = invalidate c.cache addr;
  },
  done,
)

unfoldable pub free_object : ℕ → Core → Address3D → Option Allocation → Core × Ran
free_object now c addr none = (c, panics)
free_object now c addr (some object) =
    finish_mfree now c addr (free_allocation (allocator_of c) object)

unfoldable pub mfree : ℕ → Core → Address3D → Option ℕ → Core × Ran
mfree now c addr none = (c, error allocation_not_found)
mfree now c addr (some ptr) = free_object now c addr (deref (allocator_of c).heap ptr)

abbrev pub find_allocation : ℕ → Core → Address3D → Option ℕ
find_allocation now c addr =
    get_allocation (c.memory.visits now read) (allocator_of c).heap addr c.memory.allocations

unfoldable pub execute_mfree : ℕ → Core → List Operand → Core × Ran
execute_mfree now c (o0 ∷ []) =
    with_address 0 o0 c λ addr. mfree now c addr (find_allocation now c addr)
execute_mfree now c _ = (c, error wrong_count)

-- MCOPY3D.
unfoldable pub finish_mcopy :
    Core → Address3D → Address3D → List ℕ → MemoryManager × Stored → Core × Ran
finish_mcopy c from to content (mm, stored) = (
  record c { memory = mm; cache = put_cached (put_cached c.cache from content) to content },
  done,
)
finish_mcopy c from to content (mm, store_refused e) =
    (record c { memory = mm }, error (store_failed e))
finish_mcopy c from to content (mm, store_crashed) = (record c { memory = mm }, panics)

unfoldable pub copy_loaded : ℕ → Core → Address3D → Address3D → MemoryManager × Loaded → Core × Ran
copy_loaded now c from to (mm, loaded content) =
    finish_mcopy c from to content (store3d now mm to content)
copy_loaded now c from to (mm, load_refused e) = (record c { memory = mm }, error (load_failed e))
copy_loaded now c from to (mm, load_crashed) = (record c { memory = mm }, panics)

unfoldable pub execute_mcopy : ℕ → Core → List Operand → Core × Ran
execute_mcopy now c (o0 ∷ o1 ∷ o2 ∷ []) = with_address 0 o0 c λ from.
    with_address 1 o1 c
      λ to. with_size 2 o2 c λ size. copy_loaded now c from to (load3d now c.memory from size)
execute_mcopy now c _ = (c, error wrong_count)

-- NOP, ADD3D, SUB3D, MOV3D and HALT3D.
abbrev pub execute_nop : Core → Core × Ran
execute_nop c = (c, done)

-- `op` gives the result from the two values.
unfoldable pub execute_binary : (ℕ → ℕ → ℕ) → Core → List Operand → Core × Ran
execute_binary op c (o0 ∷ o1 ∷ o2 ∷ []) = with_register 0 o0 c λ dest. with_register 1 o1 c λ src1.
    with_register 2 o2 c λ src2. (
      record c {
        registers =
            set_uint64 c.registers dest
              (op (get_uint64 c.registers src1) (get_uint64 c.registers src2));
      },
      done,
    )
execute_binary op c _ = (c, error wrong_count)

unfoldable pub execute_add : Core → List Operand → Core × Ran
unfolding execute_binary
execute_add = execute_binary (λ a b. u64 (a + b))

unfoldable pub execute_sub : Core → List Operand → Core × Ran
unfolding execute_binary
execute_sub = execute_binary (λ a b. sub64 a b)

unfoldable pub execute_mov : Core → List Operand → Core × Ran
execute_mov c (o0 ∷ o1 ∷ []) = with_register 0 o0 c λ dest. with_register 1 o1 c λ src.
    (record c { registers = set_register c.registers dest (get_register c.registers src) }, done)
execute_mov c _ = (c, error wrong_count)

abbrev pub execute_halt : Core → Core × Ran
execute_halt c = (record c { halted = true }, done)

-- MSIZE3D: 0 where nothing is allocated.
unfoldable pub put_size : Core → ℕ → Option Allocation → Core × Ran
put_size c dest none = (c, panics)
put_size c dest (some object) =
    (record c { registers = set_uint64 c.registers dest object.size }, done)

unfoldable pub msize : Core → ℕ → Option ℕ → Core × Ran
msize c dest none = (record c { registers = set_uint64 c.registers dest 0 }, done)
msize c dest (some ptr) = put_size c dest (deref (allocator_of c).heap ptr)

unfoldable pub execute_msize : ℕ → Core → List Operand → Core × Ran
execute_msize now c (o0 ∷ o1 ∷ []) =
    with_address 0 o0 c
      λ addr. with_register 1 o1 c λ dest. msize c dest (find_allocation now c addr)
execute_msize now c _ = (c, error wrong_count)
