-- ===== src/Syscall/Handler.antt =====
-- `syscall_handler_c` of syscall_handler.c: which call a number names, and with what. A pointer of the
-- caller is an address of the kernel that nothing checks, so that the bytes written through it can
-- be those of the table of open files.
use binbows.Base.{
  ℕ, ◌+◌, ◌-◌, ◌%◌, ◌^◌, ◌*◌, Bool, not, List, [], ◌∷◌, ◌++◌, ltb, ◌==◌, if◌then◌else◌,
}
use binbows.Syscall.Files.{failed, sys_open_file, sys_close_file, sys_read_file, sys_write_file}
use binbows.Syscall.Kernel.{Kernel, Handles}

-- Places in memory and their lengths
abbrev pub Ranges : Type 0
Ranges = List (ℕ × ℕ)

module _ (k : Kernel) where
  open k use {
    World, store64, store32, kmalloc, kfree, memcpy, memcmp, memset, fb_print, overwritten,
    fat12_read_file_to_buffer,
  }

  -- The virtual machine that runs has its memory at `current_vm_memory`.
  unfoldable pub sys_print : (current_vm_memory current_vm_memory_size vm_addr : ℕ) → World → World
  sys_print current_vm_memory current_vm_memory_size vm_addr w =
      if ltb vm_addr current_vm_memory_size then fb_print (current_vm_memory + vm_addr) w else w

  -- The case of `SYS_READ_FILE`: the buffer and the size go to the two addresses.
  abbrev pub read_into : (arg3 arg4 : ℕ) → ℕ × ℕ × World → ℕ × World
  read_into arg3 arg4 (buffer, size, w) = if buffer == 0 then (failed, w) else (
    0,
    let w' = if arg3 == 0 then w else store64 arg3 buffer w in
        if arg4 == 0 then w' else store32 arg4 size w',
  )

  -- The bytes that it writes: the file, without a bound, into the buffer of 64 KB, and the two results
  abbrev pub read_ranges : (drive file_name arg3 arg4 : ℕ) → World → Ranges
  read_ranges drive file_name arg3 arg4 w =
      let (buffer, w1) = kmalloc (64 * 1024) w in
      let (ok, size, w2) = fat12_read_file_to_buffer drive file_name buffer w1 in
      if buffer == 0
      then []
      else (if not ok
          then []
          else (buffer, size) ∷ (if arg3 == 0 then [] else (arg3, 8) ∷ [])
            ++ (if arg4 == 0 then [] else (arg4, 4) ∷ []))

  abbrev pub done : Bool → ℕ
  done ok = if ok then 0 else failed

  -- `(uint8_t)arg1` and the like
  abbrev pub u8 : ℕ → ℕ
  u8 arg = arg % 2 ^ 8

  abbrev pub u32 : ℕ → ℕ
  u32 arg = arg % 2 ^ 32

  -- `kfree` takes the header in front of its argument for a block and links it.
  abbrev pub free_ranges : (arg1 : ℕ) → Ranges
  free_ranges arg1 = if arg1 == 0 then [] else (arg1 - 16, 16) ∷ []

  -- The table once the bytes of these places have been written
  unfoldable pub overwritten_all : Ranges → World → Handles → Handles
  overwritten_all [] w files = files
  overwritten_all ((at, len) ∷ ranges) w files =
      overwritten_all ranges w (overwritten at len w files)

  -- The calls that touch the table only through the bytes that they write
  abbrev pub with_files : Ranges → Handles → ℕ × World → ℕ × Handles × World
  with_files ranges files (result, w) = (result, overwritten_all ranges w files, w)

  abbrev pub close_result : Bool × Handles × World → ℕ × Handles × World
  close_result (ok, files, w) = (done ok, files, w)

  abbrev pub write_result : Bool × World → ℕ × World
  write_result (ok, w) = (done ok, w)

  unfoldable pub syscall_handler_c :
      (current_vm_memory current_vm_memory_size : ℕ)
      → (syscall_number arg1 arg2 arg3 arg4 : ℕ) → Handles
      → World
      → ℕ × Handles × World
  syscall_handler_c vm_memory vm_size n arg1 arg2 arg3 arg4 files w =
      if n == 0
      then (failed, files, w)
      else (if n == 1
          then (0, files, sys_print vm_memory vm_size arg1 w)
          else (if n == 2
              then with_files (read_ranges (u8 arg1) arg2 arg3 arg4 w) files
                  (read_into arg3 arg4 (sys_read_file k (u8 arg1) arg2 w))
              else (if n == 3
                  then with_files [] files
                      (write_result (sys_write_file k (u8 arg1) arg2 arg3 (u32 arg4) w))
                  else (if n == 4
                      then sys_open_file k (u8 arg1) arg2 files w
                      else (if n == 5
                          then close_result (sys_close_file k arg1 files w)
                          else (if n == 6
                              then with_files [] files (kmalloc (u32 arg1) w)
                              else (if n == 7
                                  then with_files (free_ranges arg1) files (0, kfree arg1 w)
                                  else (if n == 8
                                      then with_files ((arg1, u32 arg3) ∷ []) files
                                          (arg1, memcpy arg1 arg2 (u32 arg3) w)
                                      else (if n == 9
                                          then (memcmp arg1 arg2 (u32 arg3) w, files, w)
                                          else (if n == 10
                                              then with_files ((arg1, u32 arg3) ∷ []) files
                                                  (arg1, memset arg1 (u32 arg2) (u32 arg3) w)
                                              else (failed, files, w)))))))))))
