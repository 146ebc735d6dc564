-- ===== src/Vm/Machine/Visiting.antt =====
-- The states between the instructions of a run of Execute, and what holds in each of them.
use memory3d.Prelude.{ℕ, ◌^◌, ◌<◌, ◌≡◌, true, List, length, ◌==◌, if◌then◌else◌, take}
use memory3d.Types.Address.{Address3D}
use memory3d.Types.Float.{FloatOps}
use memory3d.Vm.Registers.{get_register}
use memory3d.Vm.Machine.{Host, VmConfig, Vm3D, done}
use memory3d.Vm.Machine.Holding.{Held}
use memory3d.Vm.Machine.Invariant.{IsWell}
use memory3d.Vm.Machine.Loop.{begin, goes_on, round}
use memory3d.Vm.Machine.Operations.{mstore, mload}
use memory3d.Vm.Machine.Reachability.{Reachable, Reachable-IsWell}
use memory3d.Vm.Machine.Rounds.{round-Round, goes_on-inside}
use memory3d.Vm.Machine.Storing.{mload-mstore}

-- The states of a run of the program that starts where calls have led to.
pub data Visited {F : Type 0} (float : FloatOps F) (host : Host) (config : VmConfig)
    (program : List ℕ) : Vm3D → Type 0 where
  begins :
      (vm : Vm3D) → Reachable float host config vm → Visited float host config program (begin vm)
  continues :
      (vm : Vm3D)
      → Visited float host config program vm
      → goes_on program vm ≡ true
      → Visited float host config program (round float host program vm).0

module _ {F : Type 0} (float : FloatOps F) (host : Host) (config : VmConfig)
    (small : config.gas_limit < 2 ^ 63) (program : List ℕ) (short : length program < 2 ^ 64) where
  pub Visited-IsWell :
      (vm : Vm3D) → Visited float host config program vm → IsWell config.gas_limit vm
  Visited-IsWell _ (begins vm r) =
      let w = Reachable-IsWell float host config small vm r in
      record {
        sound = w.sound;
        balanced = w.balanced;
        held = record { registers = w.held.registers; cache = w.held.cache };
      }
  Visited-IsWell _ (continues vm v on) =
      let w = Visited-IsWell vm v in
      let r = round-Round float host program vm (goes_on-inside program vm on) short in
      record {
        sound = r.sound w.sound;
        balanced = r.gas config.gas_limit small w.balanced;
        held = r.held w.held;
      }

  -- Between any two instructions of a run of Execute, of a program shorter than 2 ^ 64, that
  -- starts in a state that calls have led to from a new machine whose gas limit is below 2 ^ 63,
  -- the machine has sixteen registers, its cache's map leads into its elements, and the cache's
  -- list has at most the 1000 elements of its capacity.
  pub Visited-Held : (vm : Vm3D) → Visited float host config program vm → Held vm.core
  Visited-Held vm v = IsWell.held (Visited-IsWell vm v)

  -- Between any two instructions of a run of Execute, of a program shorter than 2 ^ 64, that
  -- starts in a state that calls have led to from a new machine whose gas limit is below 2 ^ 63:
  -- where MSTORE3D succeeds, MLOAD3D of as many bytes, less than 2 ^ 32, from the same address
  -- into one of the sixteen registers succeeds, whatever the memory would answer, and that
  -- register holds the bytes stored, while every other register is as before.
  pub Visited-mload-mstore :
      (vm : Vm3D)
      → Visited float host config program vm
      → (now : ℕ) (addr : Address3D) (reg size : ℕ)
      → (mstore host now vm.core addr reg size).1 ≡ done
      → (later dest other : ℕ) → dest < 16
      → size < 2 ^ 32
      → let r = mload later (mstore host now vm.core addr reg size).0 addr size dest in
        (r.1 ≡ done)
        × (get_register r.0.registers other ≡ (
            if dest == other
            then take size (get_register vm.core.registers reg)
            else get_register vm.core.registers other))
  Visited-mload-mstore vm v now addr reg size ok later dest other h fits =
      let k = Visited-Held vm v in
      mload-mstore host now vm.core addr reg size ok later dest other h fits k.registers
        k.cache.valid
