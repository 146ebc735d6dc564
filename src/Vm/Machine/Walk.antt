-- ===== src/Vm/Machine/Walk.antt =====
-- The switch of executeInstruction once for all: a property of the results of the instructions is
-- one of the switch.
use memory3d.Prelude.{
  either, ℕ, ◌+◌, u64, sub64, ◌≡◌, refl, true, false, Option, none, some, List, [], ◌∷◌, ◌==◌,
}
use memory3d.Allocator.{allocate}
use memory3d.Types.Address.{Address3D}
use memory3d.Types.Allocation.{deref}
use memory3d.Types.Float.{FloatOps}
use memory3d.Vm.Instructions.{
  op_nop, op_mload, op_mstore, op_malloc, op_mfree, op_mcopy, op_msize, op_mquery, op_mov, op_add,
  op_sub, op_halt, Operand, register, address, size_of, region_type, byte, Instruction3D,
}
use memory3d.Vm.Memory.{load3d}
use memory3d.Vm.Registers.{Registers}
use memory3d.Vm.Registers.Laws.{IsValid, set_register-IsValid, set_uint64-IsValid}
use memory3d.Vm.Machine.{Host, Core, VmError, unsupported, Ran, done, panics, error, allocator_of}
use memory3d.Vm.Machine.Operations.{
  with_address, with_size, with_register, with_region_type, mload, mstore, finish_malloc, mfree,
  copy_loaded, find_allocation, put_size, msize, execute_mload, execute_mstore, execute_malloc,
  execute_mfree, execute_mcopy, execute_binary, execute_add, execute_sub, execute_mov,
  execute_msize,
}
use memory3d.Vm.Machine.Queries.{with_byte, answer_query, query, execute_mquery}
use memory3d.Vm.Machine.Loop.{execute_core}

-- The property of what the instructions that leave the registers alone give, and of every change
-- of the registers that leaves sixteen of them.
pub record Everywhere (host : Host) (now : ℕ) (c : Core) (Q : Core × Ran → Type 0) : Type 0 where
  pub refused : (e : VmError) → Q (c, error e)
  pub panicked : Q (c, panics)
  pub no_change : Q (c, done)
  pub halts : Q (record c { halted = true }, done)
  pub writes :
      (r : Registers) → (IsValid c.registers → IsValid r) → Q (record c { registers = r }, done)
  pub loads : (addr : Address3D) (size reg : ℕ) → Q (mload now c addr size reg)
  pub stores : (addr : Address3D) (reg size : ℕ) → Q (mstore host now c addr reg size)
  pub allocates :
      (size kind fl : ℕ)
      → Q (finish_malloc now c (allocate false now (allocator_of c) size kind fl))
  pub frees : (addr : Address3D) → Q (mfree now c addr (find_allocation now c addr))
  pub copies :
      (from to : Address3D) (size : ℕ)
      → Q (copy_loaded now c from to (load3d now c.memory from size))

module _ {F : Type 0} (float : FloatOps F) (host : Host) (now : ℕ) (c : Core)
    (Q : Core × Ran → Type 0) (all : Everywhere host now c Q) where
  with_address-by :
      (i : ℕ) (o : Operand) (k : Address3D → Core × Ran)
      → ((a : Address3D) → Q (k a))
      → Q (with_address i o c k)
  with_address-by i (address a) k t = t a
  with_address-by i _ k t = all.refused _

  with_size-by :
      (i : ℕ) (o : Operand) (k : ℕ → Core × Ran) → ((n : ℕ) → Q (k n)) → Q (with_size i o c k)
  with_size-by i (size_of n) k t = t n
  with_size-by i _ k t = all.refused _

  with_register-by :
      (i : ℕ) (o : Operand) (k : ℕ → Core × Ran) → ((n : ℕ) → Q (k n)) → Q (with_register i o c k)
  with_register-by i (register n) k t = t n
  with_register-by i _ k t = all.refused _

  with_region_type-by :
      (i : ℕ) (o : Operand) (k : ℕ → Core × Ran)
      → ((n : ℕ) → Q (k n))
      → Q (with_region_type i o c k)
  with_region_type-by i (region_type n) k t = t n
  with_region_type-by i _ k t = all.refused _

  with_byte-by :
      (i : ℕ) (o : Operand) (k : ℕ → Core × Ran) → ((n : ℕ) → Q (k n)) → Q (with_byte i o c k)
  with_byte-by i (byte n) k t = t n
  with_byte-by i _ k t = all.refused _

  execute_mload-by : (os : List Operand) → Q (execute_mload now c os)
  unfolding execute_mload
  execute_mload-by (o0 ∷ o1 ∷ o2 ∷ []) =
      with_address-by 0 o0 _
        λ addr. with_size-by 1 o1 _ λ size. with_register-by 2 o2 _ λ reg. all.loads addr size reg
  execute_mload-by _ = all.refused _

  execute_mstore-by : (os : List Operand) → Q (execute_mstore host now c os)
  unfolding execute_mstore
  execute_mstore-by (o0 ∷ o1 ∷ o2 ∷ []) =
      with_address-by 0 o0 _
        λ addr. with_register-by 1 o1 _ λ reg. with_size-by 2 o2 _ λ size. all.stores addr reg size
  execute_mstore-by _ = all.refused _

  execute_malloc-by : (os : List Operand) → Q (execute_malloc now c os)
  unfolding execute_malloc
  execute_malloc-by (o0 ∷ o1 ∷ o2 ∷ []) =
      with_size-by 0 o0 _ λ size. with_region_type-by 1 o1 _ λ kind. all.allocates size kind _
  execute_malloc-by _ = all.refused _

  execute_mfree-by : (os : List Operand) → Q (execute_mfree now c os)
  unfolding execute_mfree
  execute_mfree-by (o0 ∷ []) = with_address-by 0 o0 _ λ addr. all.frees addr
  execute_mfree-by _ = all.refused _

  execute_mcopy-by : (os : List Operand) → Q (execute_mcopy now c os)
  unfolding execute_mcopy
  execute_mcopy-by (o0 ∷ o1 ∷ o2 ∷ []) =
      with_address-by 0 o0 _
        λ from. with_address-by 1 o1 _ λ to. with_size-by 2 o2 _ λ size. all.copies from to size
  execute_mcopy-by _ = all.refused _

  execute_binary-by : (op : ℕ → ℕ → ℕ) (os : List Operand) → Q (execute_binary op c os)
  unfolding execute_binary
  execute_binary-by op (o0 ∷ o1 ∷ o2 ∷ []) = with_register-by 0 o0 _ λ dest.
      with_register-by 1 o1 _
        λ a. with_register-by 2 o2 _ λ b. all.writes _ (λ v. set_uint64-IsValid _ v _ _)
  execute_binary-by op _ = all.refused _

  execute_mov-by : (os : List Operand) → Q (execute_mov c os)
  unfolding execute_mov
  execute_mov-by (o0 ∷ o1 ∷ []) =
      with_register-by 0 o0 _
        λ dest. with_register-by 1 o1 _ λ src. all.writes _ (λ v. set_register-IsValid _ v _ _)
  execute_mov-by _ = all.refused _

  msize-by : (dest : ℕ) (o : Option ℕ) → Q (msize c dest o)
  unfolding msize put_size
  msize-by dest none = all.writes _ (λ v. set_uint64-IsValid _ v _ _)
  msize-by dest (some ptr) = go (deref (allocator_of c).heap ptr) refl
    where
      go : (o : Option _) → deref (allocator_of c).heap ptr ≡ o → Q (msize c dest (some ptr))
      go none e = rw (msize, e, put_size) all.panicked
      go (some object) e = rw (msize, e, put_size) (all.writes _ (λ v. set_uint64-IsValid _ v _ _))

  execute_msize-by : (os : List Operand) → Q (execute_msize now c os)
  unfolding execute_msize
  execute_msize-by (o0 ∷ o1 ∷ []) =
      with_address-by 0 o0 _ λ addr. with_register-by 1 o1 _ λ dest. msize-by dest _
  execute_msize-by _ = all.refused _

  answer_query-by : (o : Option (List ℕ)) (reg : ℕ) → Q (answer_query c o reg)
  unfolding answer_query
  answer_query-by none reg = all.panicked
  answer_query-by (some result) reg = all.writes _ (λ v. set_register-IsValid _ v _ _)

  query-by : (kind : ℕ) (addr : Address3D) (reg : ℕ) → Q (query float now c kind addr reg)
  unfolding query
  query-by kind addr reg = either Q (kind == 0) (answer_query-by _ reg) (
      either Q (kind == 1) (answer_query-by _ reg)
        (either Q (kind == 2) (answer_query-by _ reg) (all.refused _)))

  execute_mquery-by : (os : List Operand) → Q (execute_mquery float now c os)
  unfolding execute_mquery
  execute_mquery-by (o0 ∷ o1 ∷ o2 ∷ []) =
      with_byte-by 0 o0 _
        λ kind. with_address-by 1 o1 _ λ addr. with_register-by 2 o2 _ λ reg. query-by kind addr reg
  execute_mquery-by _ = all.refused _

  execute_add-by : (os : List Operand) → Q (execute_add c os)
  unfolding execute_add
  execute_add-by os = execute_binary-by (λ a b. u64 (a + b)) os

  execute_sub-by : (os : List Operand) → Q (execute_sub c os)
  unfolding execute_sub
  execute_sub-by os = execute_binary-by (λ a b. sub64 a b) os

  pub execute_core-by : (inst : Instruction3D) → Q (execute_core float host now c inst)
  unfolding execute_core
  execute_core-by inst =
      let os = inst.operands in
      let op = inst.opcode in
      either Q (op == op_mload) (execute_mload-by os) (
        either Q (op == op_mstore) (execute_mstore-by os) (
          either Q (op == op_malloc) (execute_malloc-by os) (
            either Q (op == op_mfree) (execute_mfree-by os) (
              either Q (op == op_mcopy) (execute_mcopy-by os) (
                either Q (op == op_mquery) (execute_mquery-by os) (
                  either Q (op == op_nop) all.no_change (
                    either Q (op == op_add) (execute_add-by os) (
                      either Q (op == op_sub) (execute_sub-by os) (
                        either Q (op == op_mov) (execute_mov-by os) (
                          either Q (op == op_msize) (execute_msize-by os) (
                            either Q (op == op_halt) all.halts
                              (all.refused (unsupported op)))))))))))))
