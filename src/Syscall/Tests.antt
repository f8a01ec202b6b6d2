-- ===== src/Syscall/Tests.antt =====
-- Runs of the system calls, and witnesses.
use binbows.Base.{
  ℕ, ◌+◌, ◌<◌, ◌≡◌, ◌≢◌, refl, ◌⊎◌, true, false, arith, inl, inr, ◌||◌, leb, le→leb, if◌then◌else◌,
}
use binbows.Syscall.Files.{failed, closed, sys_open_file, sys_close_file, find_handle}
use binbows.Syscall.Handler.{syscall_handler_c}
use binbows.Syscall.Handles.{IsValid, syscall_handler_c-IsValid, close-open}
use binbows.Syscall.Kernel.{Kernel, Handles, Apart}

-- A table at 0x9000 that is empty once a part of it is written
abbrev forgotten : (at len w : ℕ) → Handles → Handles
forgotten at len w files = if leb (at + len) 0x9000 || leb 0x9200 at then files else (λ i. closed)

forgotten-Apart :
    (at len w : ℕ) (files : Handles) → Apart 0x9000 at len → forgotten at len w files ≡ files
forgotten-Apart at len w files h = elim h [
  | inl below ↦ rw (le→leb (at + len) 0x9000 below) refl
  | inr above ↦ rw (le→leb 0x9200 at above) (ground arith)
]

-- A kernel with one file at 0x5000, whose world counts the blocks given back
abbrev one_file : Kernel
one_file = record {
  World = ℕ;
  load8 = λ a w. 0;
  store64 = λ a v w. w;
  store32 = λ a v w. w;
  kmalloc = λ n w. (0x6000, w);
  kfree = λ p w. w + 1;
  memcpy = λ d s n w. w;
  memcmp = λ a b n w. 0;
  memset = λ s c n w. w;
  fb_print = λ s w. w;
  fat12_read_file = λ drive name w. (0x5000, 100, w);
  fat12_read_file_to_buffer = λ drive name buffer w. (true, 100, w);
  fat12_write_file = λ drive name buffer size w. (0, w);
  open_files = 0x9000;
  overwritten = forgotten;
  overwritten_apart = forgotten-Apart;
}

abbrev no_files : Handles
no_files i = closed

no_files-IsValid : IsValid no_files
no_files-IsValid i h e = absurd (ground (arith, e))

syscall_handler_c-IsValid_example :
    IsValid (syscall_handler_c one_file 0 0 10 0x7000 0 16 0 no_files 0).1
syscall_handler_c-IsValid_example =
    syscall_handler_c-IsValid one_file 0 0 10 0x7000 0 16 0 no_files 0 no_files-IsValid
      (inl (omega arith), tt)

close-open_example :
    let (handle, files1, w1) = sys_open_file one_file 0 0x100 no_files 0 in
    let (ok, files2, w2) = sys_close_file one_file handle files1 w1 in
    ((handle ≡ failed) × (ok ≡ false) × (files2 ≡ files1))
    ⊎ ((ok ≡ true)
        × (handle < 16)
        × (files2 handle ≡ closed)
        × ((j : ℕ) → j ≢ handle → files2 j ≡ closed)
        × (w2 ≡ 1))
close-open_example = close-open one_file 0 0x100 no_files 0

-- The first file gets the handle 0.
first_handle : (sys_open_file one_file 0 0x100 no_files 0).0 ≡ 0
unfolding sys_open_file find_handle
first_handle = refl
