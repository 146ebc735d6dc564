-- ===== src/Vm/Machine/Ending.antt =====
-- Execute ends, and counts at most one instruction for each byte of the program.
use memory3d.Prelude.{
  ℕ, zero, suc, ◌+◌, ◌-◌, ◌^◌, ◌≤◌, ◌<◌, ◌≢◌, refl, inl, inr, List, arith, Bool-cases, length,
}
use memory3d.Types.Float.{FloatOps}
use memory3d.Vm.Machine.{Host, Vm3D, Ran, done, panics, error}
use memory3d.Vm.Machine.Loop.{
  Ended, out_of_fuel, continue_with, goes_on, round, run, begin, execute,
}
use memory3d.Vm.Machine.Rounds.{round-Round, goes_on-inside}
use memory3d.Vm.Machine.Settling.{executed, Round}

-- The loop has ended, after at most `more` instructions.
record Ends (vm : Vm3D) (more : ℕ) (r : Vm3D × Ended) : Type 0 where
  ended : r.1 ≢ out_of_fuel
  counted : executed r.0 ≤ executed vm + more

module _ (program : List ℕ) (vm : Vm3D) (inside : vm.pc < length program) where
  continue_with-Ends :
      (r : Vm3D × Ran) (next : Vm3D → Vm3D × Ended)
      → Round program vm r
      → ((vm' : Vm3D)
          → vm.pc < vm'.pc
          → vm'.pc ≤ length program
          → Ends vm' (length program - vm'.pc) (next vm'))
      → Ends vm (length program - vm.pc) (continue_with r next)
  continue_with-Ends (vm', error e) next h ends = record {
    ended = λ f. cc;
    counted = omega (arith, inside, h.counted);
  }
  continue_with-Ends (vm', panics) next h ends = record {
    ended = λ f. cc;
    counted = omega (arith, inside, h.counted);
  }
  continue_with-Ends (vm', done) next h ends =
      let moved = h.forward refl in
      let rest = ends vm' moved.0 moved.1 in
      record {
        ended = rest.ended;
        counted = omega (arith, inside, h.counted, rest.counted, moved.0, moved.1);
      }

module _ {F : Type 0} (float : FloatOps F) (host : Host) where
  run-Ends :
      (program : List ℕ)
      → length program < 2 ^ 64
      → (fuel : ℕ) (vm : Vm3D) → vm.pc ≤ length program
      → length program + 1 ≤ vm.pc + fuel
      → Ends vm (length program - vm.pc) (run float host fuel program vm)
  unfolding run
  run-Ends program small zero vm within enough = absurd (omega (arith, within, enough))
  run-Ends program small (suc fuel) vm within enough = elim (Bool-cases (goes_on program vm)) [
    | inr stops ↦ rw (run, stops) (record { ended = λ f. cc; counted = omega arith })
    | inl on ↦
        let inside = goes_on-inside program vm on in
        rw (run, on)
          (continue_with-Ends program vm inside (round float host program vm)
            (run float host fuel program) (round-Round float host program vm inside small)
            λ vm' later within'.
              run-Ends program small fuel vm' within' (omega (arith, inside, later, enough)))
  ]

  -- Execute of a program shorter than 2 ^ 64 ends, whatever the state of the machine: the loop
  -- does not run out of the model's fuel. It counts at most as many instructions as the program
  -- has bytes.
  pub execute_ends :
      (vm : Vm3D) (program : List ℕ)
      → length program < 2 ^ 64
      → ((execute float host vm program).1 ≢ out_of_fuel)
        × (executed (execute float host vm program).0 ≤ executed vm + length program)
  unfolding execute
  execute_ends vm program small =
      let e = run-Ends program small (length program + 1) (begin vm) (omega arith) (omega arith) in
      (e.ended, omega (arith, e.counted))
