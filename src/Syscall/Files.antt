-- ===== src/Syscall/Files.antt =====
-- The table of open files and the system calls on files, syscall_handler.c.
use binbows.Base.{
  ℕ, zero, suc, ◌+◌, ◌-◌, ◌*◌, ◌^◌, Bool, true, false, not, ◌||◌, Option, none, some, leb, ◌==◌,
  if◌then◌else◌, update,
}
use binbows.Shell.Text.{Buffer}
use binbows.Syscall.Kernel.{Kernel, FileHandle, Handles, max_open_files}

-- `(uint64_t)-1`
abbrev pub failed : ℕ
failed = 2 ^ 64 - 1

-- `memset(fh, 0, sizeof(file_handle_t))`
abbrev pub closed : FileHandle
closed = record { in_use = false; drive = 0; filename = λ i. 0; buffer = 0; size = 0; position = 0 }

-- `for (int i = 0; i < MAX_OPEN_FILES; i++)`; `none` is -1.
unfoldable pub find_handle : (rounds i : ℕ) → Handles → Option ℕ
find_handle zero i files = none
find_handle (suc n) i files =
    let rest = find_handle n (suc i) files in if not (files i).in_use then some i else rest

module _ (k : Kernel) where
  open k use {
    World, load8, kmalloc, kfree, fat12_read_file, fat12_read_file_to_buffer, fat12_write_file,
  }

  -- `while (file_name[name_len] && name_len < 12)`, `rounds` below 12: the length and the name
  unfoldable pub copy_name : (rounds i file_name : ℕ) → World → Buffer → ℕ × Buffer
  copy_name zero i file_name w name = (i, name)
  copy_name (suc n) i file_name w name =
      let rest = copy_name n (suc i) file_name w (update name i (load8 (file_name + i) w)) in
      if load8 (file_name + i) w == 0 then (i, name) else rest

  -- The handle of a file that was read
  abbrev pub opened : FileHandle → (drive file_name buffer size : ℕ) → World → FileHandle
  opened fh drive file_name buffer size w =
      let (n, name) = copy_name 12 0 file_name w fh.filename in
      record {
        in_use = true;
        drive = drive;
        filename = update name n 0;
        buffer = buffer;
        size = size;
        position = 0;
      }

  unfoldable pub sys_open_file : (drive file_name : ℕ) → Handles → World → ℕ × Handles × World
  sys_open_file drive file_name files w = elim (find_handle max_open_files 0 files) [
    | none ↦ (failed, files, w)
    | some i ↦
        let (buffer, size, w') = fat12_read_file drive file_name w in
        if buffer == 0
        then (failed, files, w')
        else (i, update files i (opened (files i) drive file_name buffer size w'), w')
  ]

  unfoldable pub sys_close_file : (file_handle : ℕ) → Handles → World → Bool × Handles × World
  sys_close_file file_handle files w =
      let fh = files file_handle in
      if leb max_open_files file_handle
      then (false, files, w)
      else (if not fh.in_use then (false, files, w) else (
        true,
        update files file_handle closed,
        if fh.buffer == 0 then w else kfree fh.buffer w,
      ))

  -- The buffer, 0 if there is none, and the size
  unfoldable pub sys_read_file : (drive file_name : ℕ) → World → ℕ × ℕ × World
  sys_read_file drive file_name w =
      let (buffer, w1) = kmalloc (64 * 1024) w in
      let (ok, size, w2) = fat12_read_file_to_buffer drive file_name buffer w1 in
      if buffer == 0
      then (0, 0, w1)
      else (if not ok then (0, 0, kfree buffer w2) else (buffer, size, w2))

  unfoldable pub sys_write_file : (drive file_name buffer size : ℕ) → World → Bool × World
  sys_write_file drive file_name buffer size w =
      let (result, w') = fat12_write_file drive file_name buffer size w in
      if buffer == 0 || size == 0 then (false, w) else (result == 0, w')
