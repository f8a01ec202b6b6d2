-- ===== src/Vm.antt =====
-- The BEXE virtual machine: kernel/include/kernel/bexe.h and kernel/src/kernel/executor/bexe.c.
pub mod State
pub mod Ops
pub mod Run
pub mod Stack
pub mod Sound
pub mod Instr
pub mod Flags
pub mod Halt
mod Tests
