-- ===== src/Mem.antt =====
-- The memory manager: kernel/src/x86_64/mm/mem.c.
pub mod Pages
pub mod Pool
pub mod Heap
pub mod FreeList
pub mod FirstFit
pub mod Free
pub mod Sorted
pub mod Reuse
pub mod Tables
pub mod Way
pub mod Created
pub mod Mapping
mod Tests
