-- ===== src/Vm/Machine/Arithmetic/Rounds.antt =====
-- One round of an instruction that succeeds, and of an instruction that calculates.
use memory3d.Prelude.{
  ℕ, ◌+◌, ◌≡◌, refl, ap, ◌∙◌, ap₂, Bool, true, false, List, arith, leb, ◌==◌, u64, sub64,
}
use memory3d.Types.Float.{FloatOps}
use memory3d.Vm.Gas.{GasAccountant3D, consume, remaining}
use memory3d.Vm.Instructions.{op_mcompact, Instruction3D, decoded, fetch_instruction}
use memory3d.Vm.Instructions.Encoding.{meaning}
use memory3d.Vm.Registers.{Registers, get_register, set_register, get_uint64, set_uint64}
use memory3d.Vm.Machine.{Host, Core, Vm3D, done}
use memory3d.Vm.Machine.Arithmetic.{
  Arithmetic, plus, minus, copy_of, idle, View, calculate, Writable, gas_of, to_assembly,
}
use memory3d.Vm.Machine.Arithmetic.Views.{Shows, set_uint64-Shows, copy-Shows}
use memory3d.Vm.Machine.Loop.{
  calculate_gas_cost, base_cost, add_sizes, settle, execute_core, dispatch, paid,
  execute_instruction, after_fetch, round,
}
use memory3d.Vm.Machine.Operations.{execute_add, execute_sub, execute_binary, execute_mov}
use memory3d.Vm.Machine.Settling.{executed}

-- The machine after a round that has led to the core `c` and paid from the account `g`.
abbrev pub advance : Vm3D → Core → GasAccountant3D → ℕ → Vm3D
advance vm c g size = record {
  core = record c {
    stats = record (c.stats) { instructions_executed = u64 (c.stats.instructions_executed + 1) };
  };
  gas_account = g;
  pc = u64 (vm.pc + size);
  config = vm.config;
}

settle-advance :
    (size : ℕ) (vm : Vm3D) (c : Core) (g : GasAccountant3D)
    → (remaining g == 0) ≡ false
    → leb vm.config.max_instructions (u64 (c.stats.instructions_executed + 1)) ≡ false
    → settle size (record vm { core = c; gas_account = g }, done) ≡ (advance vm c g size, done)
unfolding settle
settle-advance size vm c g some_left few = rw (some_left, few) refl

module _ {F : Type 0} (float : FloatOps F) (host : Host) where
  execute_instruction-done :
      (now : ℕ) (vm : Vm3D) (inst : Instruction3D) (c : Core)
      → (inst.opcode == op_mcompact) ≡ false
      → execute_core float host now vm.core inst ≡ (c, done)
      → (consume vm.gas_account (calculate_gas_cost inst)).1 ≡ true
      → execute_instruction float host now vm inst ≡ (
        record vm { core = c; gas_account = (consume vm.gas_account (calculate_gas_cost inst)).0 },
        done,
      )
  unfolding execute_instruction paid dispatch
  execute_instruction-done now vm inst c plain runs pays =
      go (consume vm.gas_account (calculate_gas_cost inst)) pays
    where
      go :
          (r : GasAccountant3D × Bool)
          → r.1 ≡ true
          → paid float host now vm inst r ≡ (record vm { core = c; gas_account = r.0 }, done)
      go (g, false) e = cc
      go (g, true) e = rw (plain, runs) refl

  pub round-advance :
      (program : List ℕ) (vm : Vm3D) (inst : Instruction3D) (c : Core)
      → fetch_instruction program vm.pc ≡ decoded inst
      → (inst.opcode == op_mcompact) ≡ false
      → execute_core float host (host.clock (executed vm)) vm.core inst ≡ (c, done)
      → (consume vm.gas_account (calculate_gas_cost inst)).1 ≡ true
      → (remaining (consume vm.gas_account (calculate_gas_cost inst)).0 == 0) ≡ false
      → leb vm.config.max_instructions (u64 (c.stats.instructions_executed + 1)) ≡ false
      → round float host program vm
        ≡ (advance vm c (consume vm.gas_account (calculate_gas_cost inst)).0 inst.size, done)
  unfolding round after_fetch
  round-advance program vm inst c fetch plain runs pays some_left few =
      ap (after_fetch float host vm) fetch
      ∙ ap (settle inst.size) (execute_instruction-done _ vm inst c plain runs pays)
      ∙ settle-advance inst.size vm c _ some_left few

  -- The registers after an instruction that calculates.
  pub record Calculates (now : ℕ) (c : Core) (op : Arithmetic) (view : View) : Type 0 where
    pub registers : Registers
    pub runs :
        execute_core float host now c (meaning (to_assembly op))
        ≡ (record c { registers = registers }, done)
    pub shows : Shows registers (calculate op view)

  pub execute_core-Calculates :
      (now : ℕ) (c : Core) (op : Arithmetic) (view : View)
      → Writable op
      → Shows c.registers view
      → Calculates now c op view
  unfolding execute_core execute_add execute_sub execute_binary execute_mov meaning to_assembly
      calculate Writable
  execute_core-Calculates now c (plus dest a b) view h s = record {
    registers =
        set_uint64 c.registers dest (u64 (get_uint64 c.registers a + get_uint64 c.registers b));
    runs = refl;
    shows =
        set_uint64-Shows c.registers view dest _ _ h (omega arith)
          (ap₂ (λ (x y : ℕ). u64 (x + y)) (s.reads a) (s.reads b)) s;
  }
  execute_core-Calculates now c (minus dest a b) view h s = record {
    registers =
        set_uint64 c.registers dest (sub64 (get_uint64 c.registers a) (get_uint64 c.registers b));
    runs = refl;
    shows =
        set_uint64-Shows c.registers view dest _ _ h (omega arith)
          (ap₂ (λ (x y : ℕ). sub64 x y) (s.reads a) (s.reads b)) s;
  }
  execute_core-Calculates now c (copy_of dest src) view h s = record {
    registers = set_register c.registers dest (get_register c.registers src);
    runs = refl;
    shows = copy-Shows c.registers view dest src h s;
  }
  execute_core-Calculates now c idle view h s = record {
    registers = c.registers;
    runs = refl;
    shows = s;
  }

-- What is the same of all instructions that calculate.
pub gas_of-meaning : (op : Arithmetic) → calculate_gas_cost (meaning (to_assembly op)) ≡ gas_of op
unfolding calculate_gas_cost base_cost add_sizes meaning to_assembly gas_of
gas_of-meaning (plus dest a b) = refl
gas_of-meaning (minus dest a b) = refl
gas_of-meaning (copy_of dest src) = refl
gas_of-meaning idle = refl

pub meaning-plain : (op : Arithmetic) → ((meaning (to_assembly op)).opcode == op_mcompact) ≡ false
unfolding meaning to_assembly
meaning-plain (plus dest a b) = refl
meaning-plain (minus dest a b) = refl
meaning-plain (copy_of dest src) = refl
meaning-plain idle = refl
