-- ===== src/Vm/Machine/Settling.antt =====
-- What the end of a round does to the machine.
use memory3d.Prelude.{
  ℕ, ◌+◌, ◌^◌, ◌≤◌, ◌<◌, ◌≡◌, refl, sym, subst, inl, inr, List, arith, leb, ◌==◌, Bool-cases,
  length, u64,
}
use memory3d.Allocator.Validity.{IsSound}
use memory3d.Vm.Gas.{remaining}
use memory3d.Vm.Gas.Balance.{Within}
use memory3d.Vm.Memory.{MemoryManager}
use memory3d.Vm.Cache.Bounds.{IsHeld}
use memory3d.Vm.Registers.Laws as Registers
use memory3d.Vm.Machine.Holding.{Held}
use memory3d.Vm.Machine.Keeping.{Sound}
use memory3d.Vm.Machine.{Vm3D, Ran, done, panics, error}
use memory3d.Vm.Machine.Loop.{settle}

abbrev pub executed : Vm3D → ℕ
executed vm = vm.core.stats.instructions_executed

-- What an instruction keeps of the machine.
pub record Through (vm : Vm3D) (r : Vm3D × Ran) : Type 0 where
  pub sound : Sound vm.core → Sound r.0.core
  pub held : Held vm.core → Held r.0.core
  pub gas :
      (limit : ℕ) → limit < 2 ^ 63 → Within limit vm.gas_account → Within limit r.0.gas_account
  pub same_count : executed r.0 ≡ executed vm
  pub same_pc : r.0.pc ≡ vm.pc

-- What settling keeps: it changes the machine's counters only.
pub record Settled (size : ℕ) (vm : Vm3D) (r : Vm3D × Ran) : Type 0 where
  pub same_gas : r.0.gas_account ≡ vm.gas_account
  pub same_memory : r.0.core.memory ≡ vm.core.memory
  pub same_registers : r.0.core.registers ≡ vm.core.registers
  pub same_cache : r.0.core.cache ≡ vm.core.cache
  pub counted : executed r.0 ≤ executed vm + 1
  pub forward : r.1 ≡ done → r.0.pc ≡ u64 (vm.pc + size)

settle-Settled : (size : ℕ) (vm : Vm3D) (ran : Ran) → Settled size vm (settle size (vm, ran))
unfolding settle
settle-Settled size vm panics = record {
  same_gas = refl;
  same_memory = refl;
  same_registers = refl;
  same_cache = refl;
  counted = omega arith;
  forward = λ e. cc;
}
settle-Settled size vm (error e) = record {
  same_gas = refl;
  same_memory = refl;
  same_registers = refl;
  same_cache = refl;
  counted = omega arith;
  forward = λ e. cc;
}
settle-Settled size vm done = elim (Bool-cases (remaining vm.gas_account == 0)) [
  | inl e ↦
      rw (settle, e)
        (record {
          same_gas = refl;
          same_memory = refl;
          same_registers = refl;
          same_cache = refl;
          counted = omega arith;
          forward = λ e. cc;
        })
  | inr e ↦
      elim (Bool-cases
        (leb vm.config.max_instructions (u64 (vm.core.stats.instructions_executed + 1)))) [
          | inl f ↦
              rw (settle, e, f)
                (record {
                  same_gas = refl;
                  same_memory = refl;
                  same_registers = refl;
                  same_cache = refl;
                  counted = omega arith;
                  forward = λ e. cc;
                })
          | inr f ↦
              rw (settle, e, f)
                (record {
                  same_gas = refl;
                  same_memory = refl;
                  same_registers = refl;
                  same_cache = refl;
                  counted = omega arith;
                  forward = λ e. refl;
                })
        ]
]

-- What a round inside a program does to the machine.
pub record Round (program : List ℕ) (vm : Vm3D) (r : Vm3D × Ran) : Type 0 where
  pub sound : Sound vm.core → Sound r.0.core
  pub held : Held vm.core → Held r.0.core
  pub gas :
      (limit : ℕ) → limit < 2 ^ 63 → Within limit vm.gas_account → Within limit r.0.gas_account
  pub counted : executed r.0 ≤ executed vm + 1
  pub forward : r.1 ≡ done → (vm.pc < r.0.pc) × (r.0.pc ≤ length program)

pub settled-Round :
    (program : List ℕ) (vm : Vm3D) (size : ℕ) (r : Vm3D × Ran)
    → 1 ≤ size
    → vm.pc + size ≤ length program
    → length program < 2 ^ 64
    → Through vm r
    → Round program vm (settle size r)
settled-Round program vm size (vm', ran) wide fits small t =
    let s = settle-Settled size vm' ran in
    record {
      sound =
          λ v. subst (λ (m : MemoryManager). IsSound m.allocator) (sym s.same_memory) (t.sound v);
      held = λ v. record {
        registers = subst Registers.IsValid (sym s.same_registers) (t.held v).registers;
        cache = subst IsHeld (sym s.same_cache) (t.held v).cache;
      };
      gas = λ limit h w. subst (Within limit) (sym s.same_gas) (t.gas limit h w);
      counted = omega (arith, s.counted, t.same_count);
      forward = λ e. ends (s.forward e);
    }
  where
    ends :
        (settle size (vm', ran)).0.pc ≡ u64 (vm'.pc + size)
        → (vm.pc < (settle size (vm', ran)).0.pc) × ((settle size (vm', ran)).0.pc ≤ length program)
    ends e = (omega (arith, e, t.same_pc), omega (arith, e, t.same_pc))
