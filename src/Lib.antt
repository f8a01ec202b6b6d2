-- ===== src/Lib.antt =====
-- The kernel of Binbows-95, its parts that keep state: the scheduler, the virtual machine for BEXE
-- programs, the FAT file systems, the shell, the system calls, the keyboard and the memory manager. Paths are from the repository's root.
--
-- How the parts interact. The timer's interrupt calls `change_process` of the scheduler, which takes
-- its stacks from `kmalloc`. The keyboard's interrupt feeds each key to the shell's line editor, which
-- hands a finished line to the command parser. A command loads a BEXE file through the FAT file system
-- and runs it in the virtual machine, whose system calls come back to the kernel.
--
-- Base: the library's names that are passed on, the Boolean tests of numbers with the lemmas that
--   relate them to propositions, arrays as functions and `update`, lengths of lists, the integers.
-- Allocator: `kmalloc`, `kfree` and the stores of the kernel's heap as an interface.
-- Sched: kernel/src/x86_64/scheduler/scheduler.c. The table is `Scheduler`, a pointer into it an
--   index. `change_process`, `create_process`, `terminate_process`, `block_process`, `unblock_process`
--   and `yield` are the functions of these names. Sched.Table has the invariant and the lookup by PID,
--   Sched.Pick the choice of the next process, Sched.Pid creation, Sched.Change the tick,
--   Sched.Terminate termination. The search for a free PID has `process_count + 1` rounds as fuel: the
--   PIDs of the table are distinct and fewer than the values of a `uint32_t`, so one of these is free.
-- Vm: kernel/src/kernel/executor/bexe.c. Vm.State has `vm_t`, its registers, memory, stack and flags,
--   Vm.Ops one function for each opcode and the switch, Vm.Run system calls, the loop of
--   `bexe_execute` and `bexe_load`. Words are taken modulo 2 ^ 64. The fuel of the loop is
--   `max_instructions + 1`; each round adds to the counter that the loop compares with
--   `max_instructions`, so it is enough.
-- Fat: kernel/src/kernel/fs/fat12, fat16 and fat32. Fat.Table is what the three kinds of table have in
--   common, Fat.Entries and Fat.Laws fill it for `fatNN_read_entry` and `fatNN_write_entry`, Fat.Alloc
--   is the loop of `fatNN_alloc_clusters`, Fat.Chain and Fat.Room are about what it builds, Fat.Search is
--   `fatNN_find_free_cluster`, Fat.Volume the parameter block, Fat.Drive `read_bpb`,
--   `fatNN_alloc_clusters` and `fatNN_write_fat` on a drive, Fat.Geometry the theorems about these.
--   The loops run over the clusters below `max_clusters`, which are their fuel. Fat.Name has the
--   8.3 names, Fat.Directory the root directory and Fat.Files the files of FAT12; Fat.Clusters and
--   Fat.FileChain are about the loops over the clusters of a file, whose fuel is above the number of
--   clusters by two, Fat.Found about the search for an entry in a sector of the directory.
-- Shell: kernel/src/kernel/shell/shell.c and the string functions of kernel/src/x86_64/utils/util.c
--   that it calls, kernel/src/kernel/shell/cmd_parser.c and commands.c. Shell.Line has `shell_state_t` and the editing keys, Shell.Input `input` and the
--   history, Shell.View the line as the text before and after the cursor, Shell.Edit, Shell.Safe and
--   Shell.History the theorems. A string function that finds no zero in its 256 bytes gives `none`;
--   the invariant of Shell.Valid has a zero at the end of every buffer, so that does not happen.
--   Shell.Parser has `parse_args` and `parse_command`, Shell.Word and
--   Shell.Words what the first finds,
--   Shell.Dispatch that `parse_command` returns, Shell.Commands `kill` and `nice` on the scheduler's table, Shell.Kill their theorems. Their fuel is
--   any number above the length of the text.
-- Util: the rest of kernel/src/x86_64/utils/util.c. Util.Chars has the characters and `atoi`,
--   Util.Number the conversions of numbers, Util.Digits, Util.Reverse and Util.Decimal their theorems,
--   Util.Memory `memcpy`, `memset`, `memmove` and `memcmp`, Util.Compare `strcmp` and the searches in
--   texts, Util.Format `vsnprintf`, Util.Within and Util.Print where it stops. Numbers are the words of their
--   widths; the digits have the 31 places of `temp` as fuel, which are enough for 64 bits.
-- Syscall: kernel/src/kernel/syscall_handler.c. Syscall.Files has the table of open files and the
--   calls on files, Syscall.Handler the switch `syscall_handler_c`, Syscall.Handles the theorems,
--   Syscall.Kernel the interface to the heap, the files, the console and memory. The table of open
--   files lies in this memory, so that a call that writes through a pointer can change it.
-- Keyboard: kernel/src/drivers/keyboard/ps2_keyboard.c. Keyboard.Keys goes from scan codes to the
--   shell's operations, Keyboard.Ring is the ring buffer for readers, Keyboard.Queue relates it
--   to a queue, Keyboard.Safe is about the whole handler.
-- Mem: kernel/src/x86_64/mm/mem.c. Mem.Pages has `alloc_physical_page` and `free_physical_page`; memory
--   is the words at physical addresses, and the invariant of Mem.Pool follows the free list through
--   the pages. Mem.Heap has `kmalloc` on the words at virtual addresses, with the length of the free
--   list as fuel, Mem.FreeList the list as blocks and Mem.FirstFit what `kmalloc` does to it.
--   Mem.Free has `kfree`, whose walk has the 1001 rounds that `safety` allows, Mem.Sorted what it does
--   to the list, and Mem.Reuse relates it to `kmalloc`.
--   Mem.Tables has `map_page`, `unmap_page` and the tables and the stack of a user process; its
--   `translate` is the walk of the processor. Mem.Way is what holds on the way through the tables,
--   Mem.Created the tables that `map_page` makes, and Mem.Mapping what it does. Interrupts, which
--   are off while these run, are left out.
--
-- Not modelled: drivers that are port or memory-mapped I/O (IDE, SATA, PCI, serial, sound, interrupt
-- controllers), the framebuffer, the set-up of the processor and the boot protocol, since they are
-- effects on devices; what the modelled code needs of them is an interface (`Ide`, `Screen`,
-- `Syscalls`, `Kernel`). Log output is left out everywhere. The files of FAT16 and FAT32, the listing
-- of a directory, formatting, the set-up of memory, `strtok`, the commands that only print and the elixir
-- file system are not modelled. What happens once an array on the stack is
-- run over is not modelled either: such a run has no result.
pub mod Base
pub mod Allocator
pub mod Sched
pub mod Vm
pub mod Fat
pub mod Shell
pub mod Util
pub mod Syscall
pub mod Keyboard
pub mod Mem
