-- ===== src/Vm/Machine/Arithmetic/Refinement.antt =====
-- Execute of a program that calculates in the registers, against what the program means.
use memory3d.Prelude.{
  ℕ, zero, suc, ◌+◌, ◌-◌, ◌^◌, ◌≤◌, ◌<◌, ◌≡◌, refl, sym, subst, ap, ◌∙◌, true, List, [], ◌∷◌, ◌++◌,
  arith, lt→not_leb, All, length, length-append, u64,
}
use mathlib.Core.List.{append_assoc}
use memory3d.Types.Float.{FloatOps}
use memory3d.Vm.Gas.{consume}
use memory3d.Vm.Gas.Holding.{Holds}
use memory3d.Vm.Instructions.Encoding.{Encodable, halt, assemble, meaning}
use memory3d.Vm.Instructions.Reading.{fetch_instruction-assemble}
use memory3d.Vm.Memory.{MemoryManager}
use memory3d.Vm.Machine.{Host, Vm3D, done}
use memory3d.Vm.Machine.Arithmetic.{
  Arithmetic, View, calculate, calculate_all, Writable, gas_of, total_gas_of, to_assembly,
  write_program,
}
use memory3d.Vm.Machine.Arithmetic.Rounds.{advance, round-advance}
use memory3d.Vm.Machine.Arithmetic.Steps.{
  write_program-longer, Pays, consume-Pays, goes_on-true, halted-stops, Between, run-round, step,
}
use memory3d.Vm.Machine.Arithmetic.Views.{Shows}
use memory3d.Vm.Machine.Loop.{
  calculate_gas_cost, base_cost, add_sizes, Ended, finished, execute_core, round, run, begin,
  execute,
}
use memory3d.Vm.Machine.Settling.{executed}

-- Execute has ended well, with these numbers in the registers, and the memory untouched.
pub record Computed (mm : MemoryManager) (count left spent : ℕ) (view : View) (r : Vm3D × Ended)
    : Type 0 where
  pub ended : r.1 ≡ finished
  pub shows : Shows r.0.core.registers view
  pub counts : executed r.0 ≡ count
  pub holds : Holds r.0.gas_account left spent
  pub same_memory : r.0.core.memory ≡ mm

-- A Computed with other numbers that are equal.
same_counters :
    (mm : MemoryManager) (view : View) (r : Vm3D × Ended) (l s' : ℕ) {n n' l' s : ℕ}
    → n ≡ n'
    → l ≡ l'
    → s ≡ s'
    → Computed mm n l s view r
    → Computed mm n' l' s' view r
same_counters mm view r l s' e f g c = record {
  ended = c.ended;
  shows = c.shows;
  counts = c.counts ∙ e;
  holds =
      subst (λ (x : ℕ). Holds r.0.gas_account x s') f
        (subst (λ (x : ℕ). Holds r.0.gas_account l x) g c.holds);
  same_memory = c.same_memory;
}

module _ {F : Type 0} (float : FloatOps F) (host : Host) (mm : MemoryManager) (max : ℕ)
    (max_small : max < 2 ^ 64) (program : List ℕ) (short : length program < 2 ^ 64) where
  -- The machine after HALT3D.
  abbrev halted_vm : Vm3D → Vm3D
  halted_vm vm = advance vm (record vm.core { halted = true }) (consume vm.gas_account 1).0 1

  halt_round :
      (before : List ℕ) (vm : Vm3D) (count left spent : ℕ) (view : View)
      → Between mm max vm (length before) count left spent view
      → program ≡ before ++ (assemble halt ++ [])
      → Pays vm.gas_account 1 left spent
      → count + 1 < max
      → round float host program vm ≡ (halted_vm vm, done)
  unfolding calculate_gas_cost base_cost add_sizes execute_core meaning Encodable
  halt_round before vm count left spent view b e p few =
      round-advance float host program vm (meaning halt) _
        (rw (b.at, e)
          (fetch_instruction-assemble before [] halt tt
            (subst (λ (l : List ℕ). length l < 2 ^ 64) e short)))
        refl refl p.pays p.some_left
        (rw (b.limit, b.counts) (lt→not_leb max (u64 (count + 1)) (omega (arith, few, max_small))))

  run_halted :
      (fuel : ℕ) (vm : Vm3D)
      → run float host (suc fuel) program (halted_vm vm) ≡ (halted_vm vm, finished)
  unfolding run
  run_halted fuel vm = rw (run, halted-stops program (halted_vm vm) refl) refl

  halts :
      (fuel : ℕ) (before : List ℕ) (vm : Vm3D) (count left spent : ℕ) (view : View)
      → Between mm max vm (length before) count left spent view
      → program ≡ before ++ (assemble halt ++ [])
      → 1 < left
      → left + spent < 2 ^ 63
      → count + 1 < max
      → Computed mm
          (count + 1)
          (left - 1)
          (spent + 1)
          view
          (run float host (suc (suc fuel)) program vm)
  unfolding assemble
  halts fuel before vm count left spent view b e enough small few =
      let p = consume-Pays vm.gas_account 1 left spent b.holds enough small in
      let total : length program ≡ length before + 1 =
        ap length e ∙ length-append before (assemble halt ++ []) in
      let runs : run float host (suc (suc fuel)) program vm ≡ (halted_vm vm, finished) =
        run-round float host mm max max_small program short (suc fuel) vm (halted_vm vm)
          (goes_on-true program vm (omega (arith, b.at, total)) b.running)
          (halt_round before vm count left spent view b e p few)
        ∙ run_halted fuel vm in
      subst (Computed mm (count + 1) (left - 1) (spent + 1) view) (sym runs) (record {
        ended = refl;
        shows = b.shows;
        counts = omega (arith, b.counts, few, max_small);
        holds = p.holds;
        same_memory = b.same_memory;
      })

  computes :
      (ops : List Arithmetic) (fuel : ℕ) (before : List ℕ) (vm : Vm3D) (count left spent : ℕ)
      (view : View)
      → Between mm max vm (length before) count left spent view
      → program ≡ before ++ write_program ops
      → All Writable ops
      → length ops + 2 ≤ fuel
      → total_gas_of ops + 1 < left
      → left + spent < 2 ^ 63
      → count + length ops + 1 < max
      → Computed mm
          (count + length ops + 1)
          (left - (total_gas_of ops + 1))
          (spent + (total_gas_of ops + 1))
          (calculate_all ops view)
          (run float host fuel program vm)
  unfolding write_program total_gas_of calculate_all assemble
  computes ops zero before vm count left spent view b e w f enough small few =
      absurd (omega (arith, f))
  computes ops (suc zero) before vm count left spent view b e w f enough small few =
      absurd (omega (arith, f))
  computes [] (suc (suc fuel)) before vm count left spent view b e w f enough small few =
      same_counters mm view _ (left - 1) (spent + 1) (omega arith) refl refl
        (halts fuel before vm count left spent view b e enough small (omega (arith, few)))
  computes (op ∷ ops) (suc (suc fuel)) before vm count left spent view b e (wo, ws) f enough small
        few =
      let s =
        step float host mm max max_small program short before (write_program ops) op vm count left
          spent view b e wo (omega (arith, enough)) small (omega (arith, few)) in
      let before' = before ++ assemble (to_assembly op) in
      let rest =
        computes ops (suc fuel) before' s.after (count + 1) (left - gas_of op) (spent + gas_of op)
          (calculate op view)
          (subst
            (λ (n : ℕ).
              Between mm max s.after n (count + 1) (left - gas_of op) (spent + gas_of op)
                (calculate op view))
            (sym (length-append before (assemble (to_assembly op)))) s.between)
          (e ∙ sym (append_assoc before (assemble (to_assembly op)) (write_program ops))) ws
          (omega (arith, f)) (omega (arith, enough)) (omega (arith, small, enough))
          (omega (arith, few)) in
      let inside : vm.pc < length program = omega (
        arith,
        b.at,
        ap length e,
        length-append before (assemble (to_assembly op) ++ write_program ops),
        length-append (assemble (to_assembly op)) (write_program ops),
        write_program-longer ops,
      ) in
      subst (Computed mm _ _ _ _)
        (sym (
          run-round float host mm max max_small program short (suc fuel) vm s.after
            (goes_on-true program vm inside b.running) s.leads))
        (same_counters mm (calculate_all ops (calculate op view)) _ _ _ (omega arith)
          (omega (arith, enough)) (omega arith) rest)

-- From any state of the machine in which the registers show `view`, Execute of a program,
-- shorter than 2 ^ 64, of ADD3D, SUB3D, MOV3D and NOP instructions with HALT3D at the end, which
-- write the sixteen registers only, ends without an error when there is more gas than they cost
-- (left and spent together below 2 ^ 63) and the limit, below 2 ^ 64, leaves room for more
-- instructions than they are: the registers then show what the instructions, calculated one
-- after another on uint64, make of `view`, the gas and the count of instructions are those of
-- the program, and memory is as before.
pub execute-Computed :
    {F : Type 0} (float : FloatOps F) (host : Host) (vm : Vm3D) (ops : List Arithmetic)
    (view : View)
    → (left spent : ℕ) → Holds vm.gas_account left spent
    → Shows vm.core.registers view
    → All Writable ops
    → length (write_program ops) < 2 ^ 64
    → total_gas_of ops + 1 < left
    → left + spent < 2 ^ 63
    → executed vm + length ops + 1 < vm.config.max_instructions
    → vm.config.max_instructions < 2 ^ 64
    → Computed vm.core.memory
        (executed vm + length ops + 1)
        (left - (total_gas_of ops + 1))
        (spent + (total_gas_of ops + 1))
        (calculate_all ops view)
        (execute float host vm (write_program ops))
unfolding execute
execute-Computed float host vm ops view left spent h s w short enough small few max_small =
    computes float host vm.core.memory vm.config.max_instructions max_small (write_program ops)
      short ops (length (write_program ops) + 1) [] (begin vm) (executed vm) left spent view
      (record {
        shows = s;
        running = refl;
        at = refl;
        counts = refl;
        holds = h;
        same_memory = refl;
        limit = refl;
      })
      refl w (omega (arith, write_program-longer ops)) enough small few
