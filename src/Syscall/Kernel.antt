-- ===== src/Syscall/Kernel.antt =====
-- What the system calls use of the rest of the kernel: the heap, the FAT12 files, the console and the
-- bytes of memory. The table of open files lies at an address of this memory, where the calls that
-- write through a pointer of the caller can reach it; the free list of the heap is taken to lie outside
-- of it. The only law is that a write elsewhere does not change the table.
use binbows.Base.{ℕ, ◌+◌, ◌*◌, ◌≤◌, ◌≡◌, ◌⊎◌, Bool}
use binbows.Shell.Text.{Buffer}

-- `file_handle_t`, of 32 bytes; 0 is NULL.
pub record FileHandle : Type 0 where
  pub in_use : Bool
  pub drive : ℕ
  pub filename : Buffer
  pub buffer : ℕ
  pub size : ℕ
  pub position : ℕ

abbrev pub max_open_files : ℕ
max_open_files = 16

abbrev pub Handles : Type 0
Handles = ℕ → FileHandle

-- `len` bytes at `at` lie outside the table at `open_files`.
abbrev pub Apart : (open_files at len : ℕ) → Type 0
Apart open_files at len = (at + len ≤ open_files) ⊎ (open_files + max_open_files * 32 ≤ at)

pub record Kernel : Type 1 where
  -- memory, disks and console
  pub World : Type 0
  pub load8 : ℕ → World → ℕ
  pub store64 : ℕ → ℕ → World → World
  pub store32 : ℕ → ℕ → World → World
  pub kmalloc : ℕ → World → ℕ × World
  pub kfree : ℕ → World → World
  -- dest, src, n
  pub memcpy : ℕ → ℕ → ℕ → World → World
  -- s1, s2, n, and the 64-bit word of the result
  pub memcmp : ℕ → ℕ → ℕ → World → ℕ
  -- s, c, n
  pub memset : ℕ → ℕ → ℕ → World → World
  -- a pointer to a text
  pub fb_print : ℕ → World → World
  -- drive, name: the buffer, 0 if there is none, and the size
  pub fat12_read_file : ℕ → ℕ → World → ℕ × ℕ × World
  -- drive, name, buffer: whether it was read, and the size
  pub fat12_read_file_to_buffer : ℕ → ℕ → ℕ → World → Bool × ℕ × World
  -- drive, name, buffer, size: 0 if it was written
  pub fat12_write_file : ℕ → ℕ → ℕ → ℕ → World → ℕ × World
  -- the address of the table of open files
  pub open_files : ℕ
  -- at, len: the table once the bytes there have been written, from the memory after the write
  pub overwritten : ℕ → ℕ → World → Handles → Handles
  pub overwritten_apart :
      (at len : ℕ) (w : World) (files : Handles)
      → Apart open_files at len
      → overwritten at len w files ≡ files
