-- ===== src/Vm/Ops.antt =====
-- The instructions of bexe.c, one function for each case of `execute_instruction`: what it returns
-- (whether the machine goes on) and the machine after it.
use binbows.Base.{ℕ, ◌+◌, ◌-◌, ◌*◌, ◌/◌, ◌%◌, Bool, false, not, ◌||◌, ◌==◌, if◌then◌else◌}
use binbows.Vm.State.{
  Vm, w64, w32, get_reg, set_reg, read_u8, read_u32, push, pop, has_flag, flag_zero, flag_less,
  flag_greater, update_flags,
}

abbrev pub Step : Type 0
Step = Bool × Vm

-- `break`, which leads to `return vm->running`, and `running = false; return false`
abbrev pub go_on : Vm → Step
go_on vm = (vm.running, vm)

abbrev pub stop : Vm → Step
stop vm = (false, record vm { running = false })

-- The operands `dst`, `mode` and the source, a register (mode 0) or a `uint32_t` (mode 1). The
-- effect is given the destination and the value of the source.
abbrev pub with_operand : (effect : Vm → ℕ → ℕ → Step) → (otherwise : Vm → Step) → Vm → Step
with_operand effect otherwise vm =
    let (dst, vm1) = read_u8 vm in
    let (mode, vm2) = read_u8 vm1 in
    if mode == 0x00
    then (let (src, vm3) = read_u8 vm2 in effect vm3 dst (get_reg vm3 src))
    else (if mode == 0x01
        then (let (imm, vm3) = read_u32 vm2 in effect vm3 dst imm)
        else otherwise vm2)

abbrev pub move : Vm → ℕ → ℕ → Step
move vm dst x = go_on (set_reg vm dst x)

abbrev pub add : Vm → ℕ → ℕ → Step
add vm dst x = go_on (set_reg vm dst ((get_reg vm dst + x) % w64))

abbrev pub subtract : Vm → ℕ → ℕ → Step
subtract vm dst x = go_on (set_reg vm dst ((get_reg vm dst + w64 - x) % w64))

abbrev pub multiply : Vm → ℕ → ℕ → Step
multiply vm dst x = go_on (set_reg vm dst ((get_reg vm dst * x) % w64))

abbrev pub divide : Vm → ℕ → ℕ → Step
divide vm dst x = if x == 0 then stop vm else go_on (set_reg vm dst (get_reg vm dst / x))

-- The difference of two `int64_t` is taken modulo 2 ^ 64.
abbrev pub compare_to : Vm → ℕ → ℕ → Step
compare_to vm dst x = go_on (update_flags vm ((get_reg vm dst + w64 - x) % w64))

-- Only OP_MV refuses another mode; the others ignore it.
unfoldable pub op_mv : Vm → Step
op_mv = with_operand move stop

unfoldable pub op_add : Vm → Step
op_add = with_operand add go_on

unfoldable pub op_sub : Vm → Step
op_sub = with_operand subtract go_on

unfoldable pub op_mul : Vm → Step
op_mul = with_operand multiply go_on

unfoldable pub op_div : Vm → Step
op_div = with_operand divide go_on

unfoldable pub op_cmp : Vm → Step
op_cmp = with_operand compare_to go_on

-- A jump that is taken if the flags pass a test.
abbrev pub jump_if : (ℕ → Bool) → Vm → Step
jump_if test vm =
    let (addr, vm1) = read_u32 vm in
    go_on (if test vm1.flags then record vm1 { ip = addr } else vm1)

unfoldable pub op_jmp : Vm → Step
op_jmp vm = let (addr, vm1) = read_u32 vm in go_on (record vm1 { ip = addr })

unfoldable pub op_je : Vm → Step
op_je = jump_if (has_flag flag_zero)

unfoldable pub op_jne : Vm → Step
op_jne = jump_if (λ f. not (has_flag flag_zero f))

unfoldable pub op_jl : Vm → Step
op_jl = jump_if (has_flag flag_less)

unfoldable pub op_jg : Vm → Step
op_jg = jump_if (has_flag flag_greater)

unfoldable pub op_jle : Vm → Step
op_jle = jump_if (λ f. has_flag flag_zero f || has_flag flag_less f)

unfoldable pub op_jge : Vm → Step
op_jge = jump_if (λ f. has_flag flag_zero f || has_flag flag_greater f)

unfoldable pub op_push : Vm → Step
op_push vm = let (reg, vm1) = read_u8 vm in go_on (push vm1 (get_reg vm1 reg))

unfoldable pub op_pop : Vm → Step
op_pop vm =
    let (reg, vm1) = read_u8 vm in let (value, vm2) = pop vm1 in go_on (set_reg vm2 reg value)

unfoldable pub op_call : Vm → Step
op_call vm = let (addr, vm1) = read_u32 vm in go_on (record (push vm1 vm1.ip) { ip = addr })

unfoldable pub op_ret : Vm → Step
op_ret vm = let (value, vm1) = pop vm in go_on (record vm1 { ip = value % w32 })

unfoldable pub op_hlt : Vm → Step
op_hlt = stop

unfoldable pub op_nop : Vm → Step
op_nop = go_on

-- The `switch` of `execute_instruction`, without OP_INT.
unfoldable pub dispatch : ℕ → Vm → Step
dispatch opcode vm =
    if opcode == 0x01
    then op_mv vm
    else if opcode == 0x02
    then op_add vm
    else if opcode == 0x03
    then op_sub vm
    else if opcode == 0x04
    then op_mul vm
    else if opcode == 0x05
    then op_div vm
    else if opcode == 0x10
    then op_cmp vm
    else if opcode == 0x06
    then op_jmp vm
    else if opcode == 0x07
    then op_je vm
    else if opcode == 0x08
    then op_jne vm
    else if opcode == 0x09
    then op_jl vm
    else if opcode == 0x0A
    then op_jg vm
    else if opcode == 0x0B
    then op_jle vm
    else if opcode == 0x0C
    then op_jge vm
    else if opcode == 0x20
    then op_push vm
    else if opcode == 0x21
    then op_pop vm
    else if opcode == 0x30
    then op_call vm
    else if opcode == 0x31
    then op_ret vm
    else if opcode == 0x40
    then op_hlt vm
    else if opcode == 0x90
    then op_nop vm
    else stop vm
