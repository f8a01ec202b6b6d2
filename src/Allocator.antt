-- ===== src/Allocator.antt =====
-- What the scheduler uses of the kernel heap (kernel/include/x86_64/mem.h): an allocator whose null
-- pointer is 0, and stores of 64-bit words. It has no laws.
use binbows.Base.{ℕ}

pub record Allocator : Type 1 where
  pub Heap : Type 0
  pub kmalloc : ℕ → Heap → ℕ × Heap
  pub kfree : ℕ → Heap → Heap
  pub store64 : ℕ → ℕ → Heap → Heap
