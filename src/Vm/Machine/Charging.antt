-- ===== src/Vm/Machine/Charging.antt =====
-- An instruction that its gas does not pay for.
use memory3d.Prelude.{ℕ, ◌+◌, ◌^◌, ◌<◌, ◌≡◌, refl, sym, ◌∙◌, Bool, true, false, arith}
use memory3d.Types.Float.{FloatOps}
use memory3d.Vm.Gas.{GasAccountant3D, consume, remaining, used}
use memory3d.Vm.Gas.Holding.{Holds, consume_refused, remaining-eq, used-eq}
use memory3d.Vm.Instructions.{Instruction3D}
use memory3d.Vm.Machine.{Host, Vm3D, insufficient_gas, Ran, error}
use memory3d.Vm.Machine.Loop.{calculate_gas_cost, paid, execute_instruction}

-- The outcome of an instruction that was not paid: nothing but the error has come of it.
pub record Refused (vm : Vm3D) (r : Vm3D × Ran) : Type 0 where
  pub fails : r.1 ≡ error insufficient_gas
  pub same_core : r.0.core ≡ vm.core
  pub same_pc : r.0.pc ≡ vm.pc
  pub same_left : remaining r.0.gas_account ≡ remaining vm.gas_account
  pub same_spent : used r.0.gas_account ≡ used vm.gas_account

-- An instruction of any opcode that costs more than the gas that is left, in an account whose
-- counters are together below 2 ^ 63, is refused with the error of insufficient gas: registers,
-- memory, cache, Merkle tree and statistics, the program counter, and the gas left and used are
-- what they were.
pub execute_instruction-Refused :
    {F : Type 0} (float : FloatOps F) (host : Host) (now : ℕ) (vm : Vm3D) (inst : Instruction3D)
    → (left spent : ℕ) → Holds vm.gas_account left spent
    → left + spent < 2 ^ 63
    → left < calculate_gas_cost inst
    → Refused vm (execute_instruction float host now vm inst)
unfolding execute_instruction paid
execute_instruction-Refused float host now vm inst left spent holds small over =
    let r = consume_refused vm.gas_account left spent holds (calculate_gas_cost inst) over in
    go (consume vm.gas_account (calculate_gas_cost inst)) r.0
      (remaining-eq _ left spent r.1 (omega (arith, small))
        ∙ sym (remaining-eq vm.gas_account left spent holds (omega (arith, small))))
      (used-eq _ left spent r.1 (omega (arith, small))
        ∙ sym (used-eq vm.gas_account left spent holds (omega (arith, small))))
  where
    go :
        (r : GasAccountant3D × Bool)
        → r.1 ≡ false
        → remaining r.0 ≡ remaining vm.gas_account
        → used r.0 ≡ used vm.gas_account
        → Refused vm (paid float host now vm inst r)
    go (g, true) e l s = cc
    go (g, false) e l s = record {
      fails = refl;
      same_core = refl;
      same_pc = refl;
      same_left = l;
      same_spent = s;
    }
