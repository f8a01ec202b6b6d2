-- ===== src/Vm/State.antt =====
-- The state of the virtual machine, and the helpers of bexe.c that read the code, use the stack and
-- set the flags. Registers are numbered 0 to 15, rsp being 4 and rbp 5; a 64-bit word is a number
-- below 2 ^ 64. The memory is a function from the offset behind `vm->memory`; an offset is taken
-- modulo 2 ^ 64, as the pointer arithmetic does, and nothing stops at `memory_size` that the code
-- does not stop itself.
use binbows.Base.{
  ℕ, zero, suc, ◌+◌, ◌-◌, ◌*◌, ◌/◌, ◌%◌, ◌^◌, Bool, false, ltb, leb, ◌==◌, if◌then◌else◌, update,
}

pub record Vm : Type 0 where
  pub memory : ℕ → ℕ
  pub memory_size : ℕ
  pub code_size : ℕ
  pub data_size : ℕ
  pub bss_size : ℕ
  pub regs : ℕ → ℕ
  pub ip : ℕ
  pub flags : ℕ
  pub running : Bool
  pub instruction_count : ℕ

abbrev pub w64 : ℕ
w64 = 2 ^ 64

abbrev pub w32 : ℕ
w32 = 2 ^ 32

-- `GET_REG` and `SET_REG`: every index from 15 on names r15.
abbrev pub slot : ℕ → ℕ
slot idx = if ltb idx 15 then idx else 15

abbrev pub get_reg : Vm → ℕ → ℕ
get_reg vm idx = vm.regs (slot idx)

abbrev pub set_reg : Vm → ℕ → ℕ → Vm
set_reg vm idx value = record vm { regs = update vm.regs (slot idx) value }

abbrev pub rsp : Vm → ℕ
rsp vm = vm.regs 4

abbrev pub set_rsp : Vm → ℕ → Vm
set_rsp vm value = record vm { regs = update vm.regs 4 value }

-- The byte of a word at a distance from its lowest one.
abbrev pub byte_at : ℕ → ℕ → ℕ
byte_at zero v = v % 256
byte_at (suc d) v = byte_at d (v / 256)

-- `*(uint32_t*)(&memory[a])`; a code offset is far below 2 ^ 64.
unfoldable pub load32 : (ℕ → ℕ) → ℕ → ℕ
load32 m a = m a + 0x100 * m (a + 1) + 0x10000 * m (a + 2) + 0x1000000 * m (a + 3)

-- `*(uint64_t*)(memory + a)`
unfoldable pub load64 : (ℕ → ℕ) → ℕ → ℕ
load64 m a =
    m a
    + 2 ^ 8 * m ((a + 1) % w64)
    + 2 ^ 16 * m ((a + 2) % w64)
    + 2 ^ 24 * m ((a + 3) % w64)
    + 2 ^ 32 * m ((a + 4) % w64)
    + 2 ^ 40 * m ((a + 5) % w64)
    + 2 ^ 48 * m ((a + 6) % w64)
    + 2 ^ 56 * m ((a + 7) % w64)

-- `*(uint64_t*)(memory + a) = v`
unfoldable pub store64 : (ℕ → ℕ) → ℕ → ℕ → ℕ → ℕ
store64 m a v j = let d = (j + w64 - a) % w64 in if ltb d 8 then byte_at d v else m j

-- `read_u8` and `read_u32`: the value, and the machine with the instruction pointer moved on, or
-- stopped.
unfoldable pub read_u8 : Vm → ℕ × Vm
read_u8 vm =
    if leb vm.code_size vm.ip
    then (0, record vm { running = false })
    else (vm.memory vm.ip, record vm { ip = (vm.ip + 1) % w32 })

unfoldable pub read_u32 : Vm → ℕ × Vm
read_u32 vm =
    if ltb vm.code_size ((vm.ip + 4) % w32)
    then (0, record vm { running = false })
    else (load32 vm.memory vm.ip, record vm { ip = (vm.ip + 4) % w32 })

unfoldable pub push : Vm → ℕ → Vm
push vm value =
    let top = (rsp vm + w64 - 8) % w64 in
    if ltb top (vm.code_size + vm.data_size)
    then record (set_rsp vm top) { running = false }
    else record (set_rsp vm top) { memory = store64 vm.memory top value }

-- `memory_size` is at least 65536, so `memory_size - 8` does not wrap.
unfoldable pub pop : Vm → ℕ × Vm
pop vm =
    if leb (vm.memory_size - 8) (rsp vm)
    then (0, record vm { running = false })
    else (load64 vm.memory (rsp vm), set_rsp vm ((rsp vm + 8) % w64))

-- A test of a flag, which is given by its bit.
abbrev pub has_flag : ℕ → ℕ → Bool
has_flag bit flags = (flags / bit) % 2 == 1

abbrev pub flag_zero : ℕ
flag_zero = 0x01

abbrev pub flag_less : ℕ
flag_less = 0x04

abbrev pub flag_greater : ℕ
flag_greater = 0x08

-- An `int64_t` is its bit pattern. SIGN and LESS are set together.
abbrev pub is_negative : ℕ → Bool
is_negative w = leb (2 ^ 63) w

unfoldable pub update_flags : Vm → ℕ → Vm
update_flags vm result = record vm {
  flags =
      if result == 0
      then flag_zero
      else (if is_negative result then 0x02 + flag_less else flag_greater);
}
