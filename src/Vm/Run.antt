-- ===== src/Vm/Run.antt =====
-- The interpreter loop and the loader of bexe.c. The system calls are an interface: the handler is
-- given the number, five arguments, the machine and the state of the kernel. It works with addresses
-- of the kernel, so that it can write to all of the machine, `vm_t` with its registers and counter
-- included. A call that does not return is not in the model.
use binbows.Base.{
  ℕ, zero, suc, ◌+◌, ◌*◌, ◌%◌, Bool, true, false, not, ◌&&◌, ◌||◌, Option, none, some, List, [],
  ◌∷◌, ltb, ◌==◌, if◌then◌else◌,
}
use binbows.Vm.State.{Vm, set_reg, read_u8}
use binbows.Vm.Ops.{dispatch}

-- `syscall_handler_c`, and the globals that say which machine it works for.
pub record Syscalls : Type 1 where
  pub Kernel : Type 0
  pub set_vm : (memory_size : ℕ) → Kernel → Kernel
  pub handle : (num : ℕ) → (args : List ℕ) → Vm → Kernel → ℕ × Vm × Kernel

abbrev pub max_instructions : ℕ
max_instructions = 10000000

module _ (sys : Syscalls) where
  open sys use {Kernel, set_vm, handle}

  -- The result goes to rax, which is register 0.
  abbrev finish_call : ℕ × Vm × Kernel → Bool × Vm × Kernel
  finish_call (result, vm, k) = let vm1 = set_reg vm 0 result in (vm1.running, vm1, k)

  -- The arguments are rbx, rcx, rdx, rsi and rdi.
  unfoldable pub execute_syscall : Vm → Kernel → Bool × Vm × Kernel
  execute_syscall vm k =
      let r = vm.regs in
      finish_call
        (handle (r 0 % 256) (r 1 ∷ r 2 ∷ r 3 ∷ r 6 ∷ r 7 ∷ []) vm (set_vm vm.memory_size k))

  -- `int n` for any other `n` passes rax, rbx, rcx, rdx and rsi, and does not name the machine.
  unfoldable pub op_int : Vm → Kernel → Bool × Vm × Kernel
  unfolding execute_syscall
  op_int vm k =
      let (int_num, vm1) = read_u8 vm in
      let r = vm1.regs in
      if int_num == 0x80
      then execute_syscall vm1 k
      else finish_call (handle int_num (r 0 ∷ r 1 ∷ r 2 ∷ r 3 ∷ r 6 ∷ []) vm1 k)

  unfoldable pub execute_instruction : Vm → Kernel → Bool × Vm × Kernel
  execute_instruction vm k =
      if not vm.running
      then (false, vm, k)
      else (let (opcode, vm1) = read_u8 vm in
          if opcode == 0x50
          then op_int vm1 k
          else (let (goes_on, vm2) = dispatch opcode vm1 in (goes_on, vm2, k)))

  -- The loop of `bexe_execute`, with the number of rounds that are left as fuel: `none` if it is
  -- not enough.
  unfoldable pub execute_loop : (limit fuel : ℕ) → Vm → Kernel → Option (Vm × Kernel)
  execute_loop limit zero vm k = none
  execute_loop limit (suc n) vm k =
      let (goes_on, vm1, k1) = execute_instruction vm k in
      let rest =
        execute_loop limit n (record vm1 { instruction_count = vm1.instruction_count + 1 }) k1 in
      if vm.running && ltb vm.instruction_count limit
      then (if goes_on then rest else some (vm1, k1))
      else some (vm, k)

  unfoldable pub bexe_execute : Vm → Kernel → Option (Vm × Kernel)
  bexe_execute vm k = execute_loop max_instructions (max_instructions + 1) vm k

-- The bytes of a file: a function from the offset, and the size. What lies behind the size is what
-- the heap holds there.
pub record FileBuffer : Type 0 where
  pub byte : ℕ → ℕ
  pub size : ℕ

abbrev pub u16_at : (ℕ → ℕ) → ℕ → ℕ
u16_at f a = f a + 256 * f (a + 1)

abbrev pub bexe_magic : ℕ
bexe_magic = 0x42455845

-- The memory of a fresh machine: the code, the data, and zeros.
abbrev pub image : (ℕ → ℕ) → (code_size data_size : ℕ) → ℕ → ℕ
image file code_size data_size a = if ltb a (code_size + data_size) then file (10 + a) else 0

-- `bexe_load`, with what `fat12_read_file` returned.
unfoldable pub bexe_load : Option FileBuffer → Option Vm
bexe_load none = none
bexe_load (some file) =
    let code_size = u16_at file.byte 4 in
    let data_size = u16_at file.byte 6 in
    let bss_size = u16_at file.byte 8 in
    let total_mem = code_size + data_size + bss_size + 65536 in
    if ltb file.size 10
    then none
    else (if u16_at file.byte 0 + 0x10000 * u16_at file.byte 2 == bexe_magic
        then some (record {
          memory = image file.byte code_size data_size;
          memory_size = total_mem;
          code_size = code_size;
          data_size = data_size;
          bss_size = bss_size;
          regs = λ r. if r == 4 || r == 5 then total_mem else 0;
          ip = 0;
          flags = 0;
          running = true;
          instruction_count = 0;
        })
        else none)
