-- ===== src/Vm/Machine/Arithmetic.antt =====
-- Programs that only calculate in the registers: what they mean for the numbers that the registers
-- hold, and the bytes that they are written as. cmd/vm3d/main.go runs one.
pub mod Views
pub mod Rounds
pub mod Steps
pub mod Refinement
use memory3d.Prelude.{
  ℕ, ◌+◌, ◌<◌, ◌%◌, ◌^◌, List, [], ◌∷◌, ◌++◌, ◌==◌, if◌then◌else◌, All, u64, sub64,
}
use memory3d.Vm.Instructions.{op_add, op_sub, op_halt}
use memory3d.Vm.Instructions.Encoding.{Assembly, mov, add, sub, nop, halt, assemble}

-- ADD3D, SUB3D, MOV3D and NOP, the destination first.
pub data Arithmetic : Type 0 where
  plus minus : ℕ → ℕ → ℕ → Arithmetic
  copy_of : ℕ → ℕ → Arithmetic
  idle : Arithmetic

-- The number that each register shows.
abbrev pub View : Type 0
View = ℕ → ℕ

abbrev pub assign : ℕ → ℕ → View → View
assign dest value view reg = if dest == reg then value else view reg

-- The numbers after an instruction, on uint64.
unfoldable pub calculate : Arithmetic → View → View
calculate (plus dest a b) view = assign dest (u64 (view a + view b)) view
calculate (minus dest a b) view = assign dest (sub64 (view a) (view b)) view
calculate (copy_of dest src) view = assign dest (view src) view
calculate idle view = view

unfoldable pub calculate_all : List Arithmetic → View → View
calculate_all [] view = view
calculate_all (op ∷ ops) view = calculate_all ops (calculate op view)

-- The destination is one of the sixteen registers.
unfoldable pub Writable : Arithmetic → Type 0
Writable (plus dest a b) = dest < 16
Writable (minus dest a b) = dest < 16
Writable (copy_of dest src) = dest < 16
Writable idle = Unit

unfoldable pub gas_of : Arithmetic → ℕ
gas_of (plus dest a b) = 3
gas_of (minus dest a b) = 3
gas_of (copy_of dest src) = 2
gas_of idle = 1

unfoldable pub total_gas_of : List Arithmetic → ℕ
total_gas_of [] = 0
total_gas_of (op ∷ ops) = gas_of op + total_gas_of ops

unfoldable pub to_assembly : Arithmetic → Assembly
to_assembly (plus dest a b) = add dest a b
to_assembly (minus dest a b) = sub dest a b
to_assembly (copy_of dest src) = mov dest src
to_assembly idle = nop

-- The bytes of the instructions, and HALT3D.
unfoldable pub write_program : List Arithmetic → List ℕ
write_program [] = assemble halt
write_program (op ∷ ops) = assemble (to_assembly op) ++ write_program ops

-- buildComplexComputationProgram: R2 = R0 + R1, R3 = R2 - R1.
abbrev pub build_complex_computation_program : List ℕ
build_complex_computation_program = op_add ∷ 2 ∷ 0 ∷ 1 ∷ op_sub ∷ 3 ∷ 2 ∷ 1 ∷ op_halt ∷ []
