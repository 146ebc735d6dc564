-- ===== src/Vm/Machine/Arithmetic/Steps.antt =====
-- The steps that a program that calculates takes, one for each instruction.
use memory3d.Prelude.{
  ℕ, suc, ◌+◌, ◌-◌, ◌^◌, ◌≤◌, ◌<◌, ◌≡◌, refl, sym, subst, ap, ◌∙◌, true, false, List, [], ◌∷◌, ◌++◌,
  arith, lt→not_leb, ◌==◌, length, length-append, u64,
}
use memory3d.Types.Float.{FloatOps}
use memory3d.Vm.Gas.{GasAccountant3D, consume, remaining}
use memory3d.Vm.Gas.Holding.{Holds, consume-Holds, remaining-eq}
use memory3d.Vm.Instructions.{decoded, fetch_instruction}
use memory3d.Vm.Instructions.Encoding.{Encodable, assemble, meaning}
use memory3d.Vm.Instructions.Reading.{fetch_instruction-assemble}
use memory3d.Vm.Memory.{MemoryManager}
use memory3d.Vm.Machine.{Host, Vm3D, done}
use memory3d.Vm.Machine.Arithmetic.{
  Arithmetic, plus, minus, copy_of, idle, View, calculate, Writable, gas_of, to_assembly,
  write_program,
}
use memory3d.Vm.Machine.Arithmetic.Rounds.{
  advance, round-advance, execute_core-Calculates, gas_of-meaning, meaning-plain,
}
use memory3d.Vm.Machine.Arithmetic.Views.{Shows}
use memory3d.Vm.Machine.Loop.{calculate_gas_cost, goes_on, round, run}
use memory3d.Vm.Machine.Settling.{executed}

to_assembly-Encodable : (op : Arithmetic) → Encodable (to_assembly op)
unfolding Encodable to_assembly
to_assembly-Encodable (plus dest a b) = tt
to_assembly-Encodable (minus dest a b) = tt
to_assembly-Encodable (copy_of dest src) = tt
to_assembly-Encodable idle = tt

meaning-width :
    (op : Arithmetic) → (meaning (to_assembly op)).size ≡ length (assemble (to_assembly op))
unfolding assemble meaning to_assembly
meaning-width (plus dest a b) = refl
meaning-width (minus dest a b) = refl
meaning-width (copy_of dest src) = refl
meaning-width idle = refl

pub write_program-longer : (ops : List Arithmetic) → length ops + 1 ≤ length (write_program ops)
unfolding write_program to_assembly assemble
write_program-longer [] = omega arith
write_program-longer (plus dest a b ∷ ops) = omega (arith, write_program-longer ops)
write_program-longer (minus dest a b ∷ ops) = omega (arith, write_program-longer ops)
write_program-longer (copy_of dest src ∷ ops) = omega (arith, write_program-longer ops)
write_program-longer (idle ∷ ops) = omega (arith, write_program-longer ops)

-- What a charge below the gas left does, as the loop sees it.
pub record Pays (g : GasAccountant3D) (cost left spent : ℕ) : Type 0 where
  pub pays : (consume g cost).1 ≡ true
  pub some_left : (remaining (consume g cost).0 == 0) ≡ false
  pub holds : Holds (consume g cost).0 (left - cost) (spent + cost)

pub consume-Pays :
    (g : GasAccountant3D) (cost left spent : ℕ)
    → Holds g left spent
    → cost < left
    → left + spent < 2 ^ 63
    → Pays g cost left spent
consume-Pays g cost left spent h enough small =
    let c = consume-Holds g left spent h cost (omega arith) (omega arith) in
    record {
      pays = c.0;
      some_left = more (remaining (consume g cost).0) (remaining-eq _ _ _ c.1 (omega arith));
      holds = c.1;
    }
  where
    more : (n : ℕ) → n ≡ left - cost → (n == 0) ≡ false
    more n e = ground arith

pub goes_on-true :
    (program : List ℕ) (vm : Vm3D)
    → vm.pc < length program
    → vm.core.halted ≡ false
    → goes_on program vm ≡ true
unfolding goes_on
goes_on-true program vm h e = ground arith

pub halted-stops :
    (program : List ℕ) (vm : Vm3D) → vm.core.halted ≡ true → goes_on program vm ≡ false
unfolding goes_on
halted-stops program vm e = ground arith

-- The machine between two instructions, for the memory and the limit that it has throughout.
pub record Between (mm : MemoryManager) (max : ℕ) (vm : Vm3D) (pc count left spent : ℕ)
    (view : View) : Type 0 where
  pub shows : Shows vm.core.registers view
  pub running : vm.core.halted ≡ false
  pub at : vm.pc ≡ pc
  pub counts : executed vm ≡ count
  pub holds : Holds vm.gas_account left spent
  pub same_memory : vm.core.memory ≡ mm
  pub limit : vm.config.max_instructions ≡ max

module _ {F : Type 0} (float : FloatOps F) (host : Host) (mm : MemoryManager) (max : ℕ)
    (max_small : max < 2 ^ 64) (program : List ℕ) (short : length program < 2 ^ 64) where
  pub run-round :
      (fuel : ℕ) (vm vm' : Vm3D)
      → goes_on program vm ≡ true
      → round float host program vm ≡ (vm', done)
      → run float host (suc fuel) program vm ≡ run float host fuel program vm'
  unfolding run
  run-round fuel vm vm' on e = rw (run, on, e) refl

  fetches :
      (before after : List ℕ) (vm : Vm3D) (op : Arithmetic)
      → program ≡ before ++ (assemble (to_assembly op) ++ after)
      → vm.pc ≡ length before
      → fetch_instruction program vm.pc ≡ decoded (meaning (to_assembly op))
  fetches before after vm op e at =
      rw (at, e)
        (fetch_instruction-assemble before after (to_assembly op) (to_assembly-Encodable op)
          (subst (λ (p : List ℕ). length p < 2 ^ 64) e short))

  -- A machine that a round leads to.
  pub record Stepped (vm : Vm3D) (pc count left spent : ℕ) (view : View) : Type 0 where
    pub after : Vm3D
    pub leads : round float host program vm ≡ (after, done)
    pub between : Between mm max after pc count left spent view

  pub step :
      (before rest : List ℕ) (op : Arithmetic) (vm : Vm3D) (count left spent : ℕ) (view : View)
      → Between mm max vm (length before) count left spent view
      → program ≡ before ++ (assemble (to_assembly op) ++ rest)
      → Writable op
      → gas_of op < left
      → left + spent < 2 ^ 63
      → count + 1 < max
      → Stepped vm
          (length before + length (assemble (to_assembly op)))
          (count + 1)
          (left - gas_of op)
          (spent + gas_of op)
          (calculate op view)
  step before rest op vm count left spent view b e h enough small few =
      let inst = meaning (to_assembly op) in
      let p = consume-Pays vm.gas_account (gas_of op) left spent b.holds enough small in
      let c =
        execute_core-Calculates float host (host.clock (executed vm)) vm.core op view h b.shows in
      let cost = gas_of-meaning op in
      let total : length program
          ≡ length before + (length (assemble (to_assembly op)) + length rest) =
        ap length e
        ∙ length-append before (assemble (to_assembly op) ++ rest)
        ∙ ap (λ (n : ℕ). length before + n) (length-append (assemble (to_assembly op)) rest) in
      record {
        after =
            advance vm (record vm.core { registers = c.registers })
              (consume vm.gas_account (calculate_gas_cost inst)).0 inst.size;
        leads =
            round-advance float host program vm inst _ (fetches before rest vm op e b.at)
              (meaning-plain op) c.runs (ap (λ (n : ℕ). (consume vm.gas_account n).1) cost ∙ p.pays)
              (ap (λ (n : ℕ). remaining (consume vm.gas_account n).0 == 0) cost ∙ p.some_left)
              (rw (b.limit, b.counts)
                (lt→not_leb max (u64 (count + 1)) (omega (arith, few, max_small))));
        between = record {
          shows = c.shows;
          running = b.running;
          at = omega (arith, b.at, total, short, meaning-width op);
          counts = omega (arith, b.counts, few, max_small);
          holds =
              subst
                (λ (n : ℕ).
                  Holds (consume vm.gas_account n).0 (left - gas_of op) (spent + gas_of op))
                (sym cost) p.holds;
          same_memory = b.same_memory;
          limit = b.limit;
        };
      }
