-- ===== src/Vm/Machine/Queries.antt =====
-- internal/vm/executor.go and internal/vm/vm.go: MQUERY3D and MCOMPACT3D. No decoder produces either;
-- ExecuteCompactInstruction runs the second for tests.
use memory3d.Prelude.{
  ℕ, ◌+◌, ◌-◌, ◌*◌, Option, none, some, List, [], ◌∷◌, ◌++◌, ltb, ◌==◌, if◌then◌else◌, length,
  lookup, replicate, u8, u64, not64,
}
use memory3d.Allocator.Compaction.{CompactionConfig, default_compaction_config, analyze_compaction}
use memory3d.Types.Address.{Address3D, put_big_endian}
use memory3d.Types.Allocation.{Allocation, deref, is_y_promoted}
use memory3d.Types.Float.{FloatOps}
use memory3d.Types.Fragmentation.{region_fragmentation}
use memory3d.Vm.Gas.{refund}
use memory3d.Vm.Instructions.{Operand, byte}
use memory3d.Vm.Memory.{MemoryManager}
use memory3d.Vm.Memory.Tracking.{get_free_memory}
use memory3d.Vm.Registers.{set_register, uint64_to_bytes}
use memory3d.Vm.Machine.{
  Core, Vm3D, unknown_query, wrong_count, invalid_operand, Ran, done, panics, error, allocator_of,
}
use memory3d.Vm.Machine.Operations.{with_address, with_register, find_allocation}

abbrev pub query_free_memory : ℕ
query_free_memory = 0

abbrev pub query_fragmentation : ℕ
query_fragmentation = 1

abbrev pub query_allocation_info : ℕ
query_allocation_info = 2

abbrev pub with_byte : ℕ → Operand → Core → (ℕ → Core × Ran) → Core × Ran
with_byte i (byte b) c k = k b
with_byte i _ c k = (c, error (invalid_operand i))

-- ID, size, flags, whether it is split, and padding: 32 bytes.
unfoldable pub alloc_info_to_bytes : Allocation → List ℕ
unfolding put_big_endian
alloc_info_to_bytes a =
    put_big_endian 8 a.id
    ++ (put_big_endian 4 a.size ++ u8 a.flags ∷ (if is_y_promoted a then 1 else 0) ∷ replicate 18 0)

-- The region of an address, or a nil pointer, which panics: `none`.
unfoldable pub answer_query : Core → Option (List ℕ) → ℕ → Core × Ran
answer_query c none reg = (c, panics)
answer_query c (some result) reg =
    (record c { registers = set_register c.registers reg result }, done)

abbrev pub allocation_info : Core → Option ℕ → Option (List ℕ)
allocation_info c none = some (replicate 32 0)
allocation_info c (some ptr) = elim (deref (allocator_of c).heap ptr) [
  | none ↦ none
  | some a ↦ some (alloc_info_to_bytes a)
]

module _ {F : Type 0} (float : FloatOps F) where
  unfoldable pub get_fragmentation : MemoryManager → ℕ → Option F
  get_fragmentation mm x = elim (lookup x mm.allocator.regions) [
    | none ↦ none
    | some r ↦ some (region_fragmentation float r)
  ]

  abbrev pub float64_to_bytes : F → List ℕ
  float64_to_bytes f = put_big_endian 8 (float.bits f)

  unfoldable pub query : ℕ → Core → ℕ → Address3D → ℕ → Core × Ran
  query now c kind addr reg =
      if kind == query_free_memory
      then answer_query c
          (elim (get_free_memory c.memory addr.x) [
            | none ↦ none
            | some free ↦ some (uint64_to_bytes free)
          ])
          reg
      else if kind == query_fragmentation
      then answer_query c
          (elim (get_fragmentation c.memory addr.x) [
            | none ↦ none
            | some f ↦ some (float64_to_bytes f)
          ])
          reg
      else if kind == query_allocation_info
      then answer_query c (allocation_info c (find_allocation now c addr)) reg
      else (c, error (unknown_query kind))

  unfoldable pub execute_mquery : ℕ → Core → List Operand → Core × Ran
  execute_mquery now c (o0 ∷ o1 ∷ o2 ∷ []) =
      with_byte 0 o0 c
        λ kind. with_address 1 o1 c λ addr. with_register 2 o2 c λ reg. query now c kind addr reg
  execute_mquery now c _ = (c, error wrong_count)

  -- Each allocation counts as 100 bytes.
  abbrev pub gas_refund : ℕ → ℕ
  gas_refund compacted = float.to_uint64 (
      float.mul (float.of_nat compacted)
        (CompactionConfig.gas_refund_percentage (default_compaction_config float)))

  abbrev pub lower_memory_usage : ℕ → ℕ → ℕ
  lower_memory_usage usage compacted =
      if ltb compacted usage then u64 (usage + not64 (compacted - 1)) else usage

  unfoldable pub compact : Vm3D → ℕ → Vm3D
  compact vm compacted = record vm {
    gas_account =
        if ltb 0 (gas_refund compacted)
        then refund vm.gas_account (gas_refund compacted)
        else vm.gas_account;
    core = record vm.core {
      stats = record vm.core.stats {
        memory_usage = lower_memory_usage vm.core.stats.memory_usage compacted;
      };
    };
  }

  -- Nothing is moved.
  unfoldable pub execute_mcompact : Vm3D → Vm3D × Ran
  execute_mcompact vm =
      let ids = analyze_compaction float (allocator_of vm.core) (default_compaction_config float) in
      if length ids == 0 then (vm, done) else (compact vm (u64 (100 * length ids)), done)
