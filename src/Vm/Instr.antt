-- ===== src/Vm/Instr.antt =====
-- The instructions of BEXE as data, their bytes (assembler/docs.md gives the same layout), and what
-- each one does. bexe.c fetches and decodes its bytes; here decoding is undone.
use binbows.Base.{
  ℕ, ◌+◌, ◌%◌, ◌≤◌, ◌<◌, ◌≡◌, refl, ap, ◌∙◌, Bool, true, false, not, ◌||◌, List, [], ◌∷◌, arith,
  ltb, leb, ◌==◌, if◌then◌else◌, length,
}
use binbows.Vm.State.{
  Vm, w32, get_reg, set_reg, byte_at, load32, read_u8, read_u32, push, pop, has_flag, flag_zero,
  flag_less, flag_greater,
}
use binbows.Vm.Ops.{
  Step, go_on, stop, dispatch, move, add, subtract, multiply, divide, compare_to, op_mv, op_add,
  op_sub, op_mul, op_div, op_cmp, op_jmp, op_je, op_jne, op_jl, op_jg, op_jle, op_jge, op_push,
  op_pop, op_call, op_ret, op_hlt, op_nop, with_operand, jump_if,
}
use binbows.Vm.Run.{Syscalls, execute_instruction}

pub data AluOp : Type 0 where
  mv_op add_op sub_op mul_op div_op cmp_op : AluOp

pub data Cond : Type 0 where
  equal not_equal less greater less_equal greater_equal : Cond

pub data Operand : Type 0 where
  reg imm : ℕ → Operand

pub data Instr : Type 0 where
  alu : AluOp → (dst : ℕ) → Operand → Instr
  jump : (addr : ℕ) → Instr
  branch : Cond → (addr : ℕ) → Instr
  push_reg pop_reg : (reg : ℕ) → Instr
  call : (addr : ℕ) → Instr
  ret hlt nop : Instr

abbrev pub alu_code : AluOp → ℕ
alu_code mv_op = 0x01
alu_code add_op = 0x02
alu_code sub_op = 0x03
alu_code mul_op = 0x04
alu_code div_op = 0x05
alu_code cmp_op = 0x10

abbrev pub cond_code : Cond → ℕ
cond_code equal = 0x07
cond_code not_equal = 0x08
cond_code less = 0x09
cond_code greater = 0x0A
cond_code less_equal = 0x0B
cond_code greater_equal = 0x0C

abbrev pub bytes32 : ℕ → List ℕ
bytes32 n = byte_at 0 n ∷ byte_at 1 n ∷ byte_at 2 n ∷ byte_at 3 n ∷ []

abbrev pub encode : Instr → List ℕ
encode (alu op dst (reg src)) = alu_code op ∷ dst ∷ 0x00 ∷ src ∷ []
encode (alu op dst (imm n)) = alu_code op ∷ dst ∷ 0x01 ∷ bytes32 n
encode (jump addr) = 0x06 ∷ bytes32 addr
encode (branch c addr) = cond_code c ∷ bytes32 addr
encode (push_reg r) = 0x20 ∷ r ∷ []
encode (pop_reg r) = 0x21 ∷ r ∷ []
encode (call addr) = 0x30 ∷ bytes32 addr
encode ret = 0x31 ∷ []
encode hlt = 0x40 ∷ []
encode nop = 0x90 ∷ []

-- The immediate or the address fits in 32 bits.
abbrev pub Fits : Instr → Type 0
Fits (alu op dst (imm n)) = n < w32
Fits (jump addr) = addr < w32
Fits (branch c addr) = addr < w32
Fits (call addr) = addr < w32
Fits _ = Unit {0}

abbrev pub holds : Cond → ℕ → Bool
holds equal f = has_flag flag_zero f
holds not_equal f = not (has_flag flag_zero f)
holds less f = has_flag flag_less f
holds greater f = has_flag flag_greater f
holds less_equal f = has_flag flag_zero f || has_flag flag_less f
holds greater_equal f = has_flag flag_zero f || has_flag flag_greater f

abbrev pub value_of : Vm → Operand → ℕ
value_of vm (reg src) = get_reg vm src
value_of vm (imm n) = n

abbrev pub effect : AluOp → Vm → ℕ → ℕ → Step
effect mv_op = move
effect add_op = add
effect sub_op = subtract
effect mul_op = multiply
effect div_op = divide
effect cmp_op = compare_to

-- What an instruction does to a machine whose instruction pointer is already behind it.
abbrev pub perform : Instr → Vm → Step
perform (alu op dst src) vm = effect op vm dst (value_of vm src)
perform (jump addr) vm = go_on (record vm { ip = addr })
perform (branch c addr) vm = go_on (if holds c vm.flags then record vm { ip = addr } else vm)
perform (push_reg r) vm = go_on (push vm (get_reg vm r))
perform (pop_reg r) vm = let (v, vm1) = pop vm in go_on (set_reg vm1 r v)
perform (call addr) vm = go_on (record (push vm vm.ip) { ip = addr })
perform ret vm = let (v, vm1) = pop vm in go_on (record vm1 { ip = v % w32 })
perform hlt vm = stop vm
perform nop vm = go_on vm

-- The bytes stand in the memory from an address on.
abbrev pub Holds : (ℕ → ℕ) → ℕ → List ℕ → Type 0
Holds m a [] = Unit {0}
Holds m a (b ∷ bs) = (m a ≡ b) × Holds m (a + 1) bs

abbrev pub at : Vm → ℕ → Vm
at vm a = record vm { ip = a }

module _ (vm : Vm) (small : vm.code_size < w32) where
  fetch8 : (a b : ℕ) → a < vm.code_size → vm.memory a ≡ b → read_u8 (at vm a) ≡ (b, at vm (a + 1))
  unfolding read_u8
  fetch8 a b lt e =
      let no : leb vm.code_size a ≡ false = ground arith in
      let next : (a + 1) % w32 ≡ a + 1 = omega arith in rw (no, next, e)

  fetch32 :
      (a n : ℕ)
      → a + 4 ≤ vm.code_size
      → n < w32
      → Holds vm.memory a (bytes32 n)
      → read_u32 (at vm a) ≡ (n, at vm (a + 4))
  unfolding read_u32 load32
  fetch32 a n room lt (e0, (e1, (e2, (e3, _)))) =
      let next : (a + 4) % w32 ≡ a + 4 = omega arith in
      let no : ltb vm.code_size (a + 4) ≡ false = ground arith in
      let a2 : a + 1 + 1 ≡ a + 2 = omega arith in
      let a3 : a + 1 + 1 + 1 ≡ a + 3 = omega arith in
      let f2 : vm.memory (a + 2) ≡ byte_at 2 n = rw a2 at e2 in
      let f3 : vm.memory (a + 3) ≡ byte_at 3 n = rw a3 at e3 in
      rw (next, no, e0, e1, f2, f3) (ap (λ v. (v, at vm (a + 4))) (omega arith))

  -- An `Alu` instruction whose operands stand from `a` on.
  operand_reg :
      (f : Vm → ℕ → ℕ → Step) (g : Vm → Step) (a dst src : ℕ)
      → a + 3 ≤ vm.code_size
      → Holds vm.memory a (dst ∷ 0x00 ∷ src ∷ [])
      → with_operand f g (at vm a) ≡ f (at vm (a + 1 + 1 + 1)) dst (get_reg vm src)
  operand_reg f g a dst src room (e0, (e1, (e2, _))) = rw (
    fetch8 a dst (omega arith) e0,
    fetch8 (a + 1) 0x00 (omega arith) e1,
    fetch8 (a + 1 + 1) src (omega arith) e2,
  )

  operand_imm :
      (f : Vm → ℕ → ℕ → Step) (g : Vm → Step) (a dst n : ℕ)
      → a + 6 ≤ vm.code_size
      → n < w32
      → Holds vm.memory a (dst ∷ 0x01 ∷ bytes32 n)
      → with_operand f g (at vm a) ≡ f (at vm (a + 1 + 1 + 4)) dst n
  operand_imm f g a dst n room lt (e0, (e1, es)) = rw (
    fetch8 a dst (omega arith) e0,
    fetch8 (a + 1) 0x01 (omega arith) e1,
    fetch32 (a + 1 + 1) n (omega arith) lt es,
  )

  jump_at :
      (test : ℕ → Bool) (a addr : ℕ)
      → a + 4 ≤ vm.code_size
      → addr < w32
      → Holds vm.memory a (bytes32 addr)
      → jump_if test (at vm a) ≡ go_on (if test vm.flags then at vm addr else at vm (a + 4))
  jump_at test a addr room lt es = rw (fetch32 a addr room lt es)

otherwise_of : AluOp → Vm → Step
otherwise_of mv_op = stop
otherwise_of _ = go_on

dispatch-alu :
    (op : AluOp) (vm : Vm)
    → dispatch (alu_code op) vm ≡ with_operand (effect op) (otherwise_of op) vm
unfolding dispatch otherwise_of op_mv op_add op_sub op_mul op_div op_cmp
dispatch-alu mv_op vm = refl
dispatch-alu add_op vm = refl
dispatch-alu sub_op vm = refl
dispatch-alu mul_op vm = refl
dispatch-alu div_op vm = refl
dispatch-alu cmp_op vm = refl

dispatch-branch : (c : Cond) (vm : Vm) → dispatch (cond_code c) vm ≡ jump_if (holds c) vm
unfolding dispatch op_je op_jne op_jl op_jg op_jle op_jge
dispatch-branch equal vm = refl
dispatch-branch not_equal vm = refl
dispatch-branch less vm = refl
dispatch-branch greater vm = refl
dispatch-branch less_equal vm = refl
dispatch-branch greater_equal vm = refl

-- The operands of an instruction, behind its opcode.
abbrev opcode_of : Instr → ℕ
opcode_of (alu op dst src) = alu_code op
opcode_of (jump addr) = 0x06
opcode_of (branch c addr) = cond_code c
opcode_of (push_reg r) = 0x20
opcode_of (pop_reg r) = 0x21
opcode_of (call addr) = 0x30
opcode_of ret = 0x31
opcode_of hlt = 0x40
opcode_of nop = 0x90

module _ (vm : Vm) (small : vm.code_size < w32) (a : ℕ) where
  dispatch-perform :
      (i : Instr)
      → a + length (encode i) ≤ vm.code_size
      → Fits i
      → Holds vm.memory a (encode i)
      → dispatch (opcode_of i) (at vm (a + 1)) ≡ perform i (at vm (a + length (encode i)))
  unfolding dispatch op_jmp op_push op_pop op_call op_ret op_hlt op_nop
  dispatch-perform (alu op dst (reg src)) room fits (e, es) =
      dispatch-alu op (at vm (a + 1))
      ∙ operand_reg vm small (effect op) (otherwise_of op) (a + 1) dst src (omega arith) es
      ∙ ap (λ b. effect op (at vm b) dst (get_reg vm src)) (omega arith)
  dispatch-perform (alu op dst (imm n)) room fits (e, es) =
      dispatch-alu op (at vm (a + 1))
      ∙ operand_imm vm small (effect op) (otherwise_of op) (a + 1) dst n (omega arith) fits es
      ∙ ap (λ b. effect op (at vm b) dst n) (omega arith)
  dispatch-perform (jump addr) room fits (e, es) =
      rw (fetch32 vm small (a + 1) addr (omega arith) fits es)
  dispatch-perform (branch c addr) room fits (e, es) =
      dispatch-branch c (at vm (a + 1))
      ∙ jump_at vm small (holds c) (a + 1) addr (omega arith) fits es
      ∙ ap (λ b. go_on (if holds c vm.flags then at vm addr else at vm b)) (omega arith)
  dispatch-perform (push_reg r) room fits (e, (e1, _)) =
      rw (fetch8 vm small (a + 1) r (omega arith) e1)
        (ap (λ b. go_on (push (at vm b) (get_reg vm r))) (omega arith))
  dispatch-perform (pop_reg r) room fits (e, (e1, _)) =
      rw (fetch8 vm small (a + 1) r (omega arith) e1)
        (ap (λ b. perform (pop_reg r) (at vm b)) (omega arith))
  dispatch-perform (call addr) room fits (e, es) =
      rw (fetch32 vm small (a + 1) addr (omega arith) fits es)
        (ap (λ b. perform (call addr) (at vm b)) (omega arith))
  dispatch-perform ret room fits h = ap (λ b. perform ret (at vm b)) (omega arith)
  dispatch-perform hlt room fits h = ap (λ b. perform hlt (at vm b)) (omega arith)
  dispatch-perform nop room fits h = ap (λ b. perform nop (at vm b)) (omega arith)

first_byte :
    (vm : Vm) (a : ℕ) (i : Instr) → Holds vm.memory a (encode i) → vm.memory a ≡ opcode_of i
first_byte vm a (alu op dst (reg src)) h = h.0
first_byte vm a (alu op dst (imm n)) h = h.0
first_byte vm a (jump addr) h = h.0
first_byte vm a (branch c addr) h = h.0
first_byte vm a (push_reg r) h = h.0
first_byte vm a (pop_reg r) h = h.0
first_byte vm a (call addr) h = h.0
first_byte vm a ret h = h.0
first_byte vm a hlt h = h.0
first_byte vm a nop h = h.0

alu_code-ne-int : (op : AluOp) → (alu_code op == 0x50) ≡ false
alu_code-ne-int op = ground arith

cond_code-ne-int : (c : Cond) → (cond_code c == 0x50) ≡ false
cond_code-ne-int c = ground arith

opcode-ne-int : (i : Instr) → (opcode_of i == 0x50) ≡ false
opcode-ne-int (alu op dst src) = alu_code-ne-int op
opcode-ne-int (branch c addr) = cond_code-ne-int c
opcode-ne-int (jump addr) = refl
opcode-ne-int _ = refl

encode-ne-nil : (i : Instr) → 0 < length (encode i)
encode-ne-nil (alu op dst (reg src)) = omega arith
encode-ne-nil (alu op dst (imm n)) = omega arith
encode-ne-nil (jump addr) = omega arith
encode-ne-nil _ = omega arith

module _ (sys : Syscalls) where
  open sys use {Kernel}

  execute-dispatch :
      (vm vm1 : Vm) (k : Kernel) (c : ℕ)
      → vm.running ≡ true
      → read_u8 vm ≡ (c, vm1)
      → (c == 0x50) ≡ false
      → execute_instruction sys vm k ≡ ((dispatch c vm1).0, (dispatch c vm1).1, k)
  unfolding execute_instruction
  execute-dispatch vm vm1 k c run e other = simp (run, e, other)

  -- If the bytes of an instruction (not OP_INT) with operands in range stand at the instruction
  -- pointer of a running machine, within its code, then `execute_instruction` does what that
  -- instruction means, with the instruction pointer behind it, and leaves the kernel alone.
  pub execute-perform :
      (i : Instr) (vm : Vm) (k : Kernel)
      → vm.running ≡ true
      → vm.code_size < w32
      → vm.ip + length (encode i) ≤ vm.code_size
      → Fits i
      → Holds vm.memory vm.ip (encode i)
      → execute_instruction sys vm k
        ≡ (let (goes_on, vm') = perform i (at vm (vm.ip + length (encode i))) in (goes_on, vm', k))
  execute-perform i vm k run small room fits h =
      let first =
        fetch8 vm small vm.ip (opcode_of i) (omega (arith, encode-ne-nil i))
          (first_byte vm vm.ip i h) in
      execute-dispatch vm (at vm (vm.ip + 1)) k (opcode_of i) run first (opcode-ne-int i)
      ∙ ap (λ s. (s.0, s.1, k)) (dispatch-perform vm small vm.ip i room fits h)
