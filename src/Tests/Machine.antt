-- ===== src/Tests/Machine.antt =====
-- Gas, registers and instructions on concrete inputs.
use memory3d.Prelude.{ℕ, ◌+◌, ◌-◌, ◌≡◌, arith, List, [], ◌∷◌}
use memory3d.Types.Address.{Address3D, abs_diff, manhattan_distance}
use memory3d.Vm.Gas.{new_accountant, refund, remaining, used, calculate_gas}
use memory3d.Vm.Gas.Balance.{refund_creates, calculate_gas-manhattan_distance}
use memory3d.Vm.Gas.Holding.{Holds, new_accountant-Holds}
use memory3d.Vm.Instructions.{decoded, decode_instruction}
use memory3d.Vm.Instructions.Encoding.{
  Encodable, mload, assemble, meaning, decode_instruction-assemble,
}

hundred : Holds (new_accountant 100) 100 0
hundred = new_accountant-Holds 100 (omega arith)

refund_creates_example :
    remaining (refund (new_accountant 100) 5) + used (refund (new_accountant 100) 5)
    ≡ remaining (new_accountant 100) + used (new_accountant 100) + (5 - 0)
refund_creates_example =
    refund_creates (new_accountant 100) 100 0 5 hundred (omega arith) (omega arith) (omega arith)

abbrev somewhere : Address3D
somewhere = record { x = 2; y = 1; z = 300 }

load-Encodable : Encodable (mload somewhere 1000 5)
unfolding Encodable
load-Encodable = ((omega arith, omega arith, omega arith), omega arith)

decode_instruction-assemble_example :
    decode_instruction (assemble (mload somewhere 1000 5))
    ≡ decoded (meaning (mload somewhere 1000 5))
decode_instruction-assemble_example =
    decode_instruction-assemble (mload somewhere 1000 5) load-Encodable

abbrev program : List ℕ
program = 49 ∷ 1 ∷ 2 ∷ 3 ∷ 18 ∷ 0 ∷ []

abbrev elsewhere : Address3D
elsewhere = record { x = 5; y = 40; z = 7 }

calculate_gas-manhattan_distance_example :
    calculate_gas somewhere elsewhere 64 ≡ 67 + manhattan_distance somewhere elsewhere
unfolding abs_diff
calculate_gas-manhattan_distance_example =
    calculate_gas-manhattan_distance somewhere elsewhere 64 (omega arith) (omega arith)
      (omega arith)
