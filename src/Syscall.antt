-- ===== src/Syscall.antt =====
-- The system calls: kernel/src/kernel/syscall_handler.c.
pub mod Kernel
pub mod Files
pub mod Handler
pub mod Handles
mod Tests
