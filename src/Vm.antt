-- ===== src/Vm.antt =====
-- internal/vm: gas, registers, instructions, memory, cache and the execution loop.
pub mod Gas
pub mod Registers
pub mod Instructions
pub mod Memory
pub mod Cache
pub mod Machine
