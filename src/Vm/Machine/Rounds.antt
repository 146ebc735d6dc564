-- ===== src/Vm/Machine/Rounds.antt =====
-- One round of the loop of Execute, and what the rounds keep.
use memory3d.Prelude.{
  ℕ, zero, suc, ◌+◌, ◌^◌, ◌≤◌, ◌<◌, ◌≡◌, refl, inl, inr, Bool, true, false, List, arith, ◌==◌,
  Bool-cases, length,
}
use memory3d.Types.Float.{FloatOps}
use memory3d.Vm.Gas.{GasAccountant3D, consume}
use memory3d.Vm.Gas.Balance.{Within, consume-Within}
use memory3d.Vm.Machine.Holding.{execute_core-Held}
use memory3d.Vm.Machine.Keeping.{execute_core-Kept}
use memory3d.Vm.Instructions.{
  op_mcompact, FetchError, Instruction3D, Fetched, decoded, incomplete, unknown_opcode,
  fetch_instruction,
}
use memory3d.Vm.Instructions.Fetching.{
  Progress, steps, cut_short, unknown, is_known, fetch_instruction-Progress,
}
use memory3d.Vm.Machine.{Host, Vm3D, fetch_failed, Ran, done, panics, error}
use memory3d.Vm.Machine.Loop.{
  on_core, calculate_gas_cost, paid, Ended, continue_with, goes_on, execute_core, dispatch,
  execute_instruction, after_fetch, round, run,
}
use memory3d.Vm.Machine.Settling.{Through, Round, settled-Round}

pub goes_on-inside :
    (program : List ℕ) (vm : Vm3D) → goes_on program vm ≡ true → vm.pc < length program
unfolding goes_on
goes_on-inside program vm e = ground arith

known-not_mcompact : (op : ℕ) → is_known op ≡ true → (op == op_mcompact) ≡ false
unfolding is_known
known-not_mcompact op e = ground arith

module _ {F : Type 0} (float : FloatOps F) (host : Host) where
  pub dispatch-core :
      (now : ℕ) (vm : Vm3D) (inst : Instruction3D)
      → is_known inst.opcode ≡ true
      → dispatch float host now vm inst ≡ on_core vm (execute_core float host now vm.core inst)
  unfolding dispatch
  dispatch-core now vm inst known = rw (known-not_mcompact inst.opcode known) refl

  dispatch-Through :
      (now : ℕ) (vm : Vm3D) (inst : Instruction3D)
      → is_known inst.opcode ≡ true
      → Through vm (dispatch float host now vm inst)
  dispatch-Through now vm inst known =
      let kept = execute_core-Kept float host now vm.core inst in
      rw (dispatch-core now vm inst known) (record {
        sound = kept.sound;
        held = execute_core-Held float host now vm.core inst;
        gas = λ limit h w. w;
        same_count = kept.counted;
        same_pc = refl;
      })

  execute_instruction-Through :
      (now : ℕ) (vm : Vm3D) (inst : Instruction3D)
      → is_known inst.opcode ≡ true
      → Through vm (execute_instruction float host now vm inst)
  unfolding execute_instruction paid
  execute_instruction-Through now vm inst known =
      go (consume vm.gas_account (calculate_gas_cost inst))
        λ limit h w. consume-Within limit h vm.gas_account w (calculate_gas_cost inst)
    where
      go :
          (r : GasAccountant3D × Bool)
          → ((limit : ℕ) → limit < 2 ^ 63 → Within limit vm.gas_account → Within limit r.0)
          → Through vm (paid float host now vm inst r)
      go (g, false) keeps = record {
        sound = λ s. s;
        held = λ s. s;
        gas = keeps;
        same_count = refl;
        same_pc = refl;
      }
      go (g, true) keeps =
          let t = dispatch-Through now (record vm { gas_account = g }) inst known in
          record {
            sound = t.sound;
            held = t.held;
            gas = λ limit h w. t.gas limit h (keeps limit h w);
            same_count = t.same_count;
            same_pc = t.same_pc;
          }

  -- A round inside a program is an instruction with a known opcode that ends within the
  -- program, or an error of the fetch.
  pub round-by :
      (program : List ℕ) (vm : Vm3D) (Q : Vm3D × Ran → Type 0)
      → vm.pc < length program
      → length program < 2 ^ 64
      → ((inst : Instruction3D)
          → is_known inst.opcode ≡ true
          → 1 ≤ inst.size
          → vm.pc + inst.size ≤ length program
          → Q (after_fetch float host vm (decoded inst)))
      → ((e : FetchError) → Q (vm, error (fetch_failed e)))
      → Q (round float host program vm)
  unfolding round after_fetch
  round-by program vm Q inside small runs fails =
      go (fetch_instruction program vm.pc) (fetch_instruction-Progress program vm.pc inside small)
    where
      go : (f : Fetched) → Progress program vm.pc f → Q (after_fetch float host vm f)
      go _ (steps inst at known wide fits) = runs inst known wide fits
      go _ (cut_short op at short) = fails incomplete
      go _ (unknown op at) = fails (unknown_opcode op)

  pub round-Round :
      (program : List ℕ) (vm : Vm3D)
      → vm.pc < length program
      → length program < 2 ^ 64
      → Round program vm (round float host program vm)
  unfolding after_fetch
  round-Round program vm inside small =
      round-by program vm (Round program vm) inside small
        (λ inst known wide fits.
          settled-Round program vm inst.size _ wide fits small
            (execute_instruction-Through _ vm inst known))
        λ e. record {
          sound = λ s. s;
          held = λ s. s;
          gas = λ limit h w. w;
          counted = omega arith;
          forward = λ f. cc;
        }

  module _ (P : Vm3D → Type 0) (program : List ℕ)
      (keeps : (vm : Vm3D)
        → goes_on program vm ≡ true
        → P vm
        → P (round float host program vm).0) where
    continued :
        (r : Vm3D × Ran) (next : Vm3D → Vm3D × Ended)
        → P r.0
        → ((vm : Vm3D) → P vm → P (next vm).0)
        → P (continue_with r next).0
    continued (vm, done) next p then_p = then_p vm p
    continued (vm, error e) next p then_p = p
    continued (vm, panics) next p then_p = p

    -- What every round keeps, the loop keeps.
    pub run-keeps : (fuel : ℕ) (vm : Vm3D) → P vm → P (run float host fuel program vm).0
    unfolding run
    run-keeps zero vm p = p
    run-keeps (suc fuel) vm p = elim (Bool-cases (goes_on program vm)) [
      | inr stops ↦ rw (run, stops) p
      | inl on ↦
          rw (run, on)
            (continued (round float host program vm) (run float host fuel program) (keeps vm on p)
              (run-keeps fuel))
    ]
