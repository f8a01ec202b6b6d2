-- ===== src/Vm/Sound.antt =====
-- The instructions of bexe.c, the ranges of the machine words, and the code and the data in memory.
use binbows.Base.{
  ℕ, zero, suc, ◌+◌, ◌-◌, ◌*◌, ◌/◌, ◌%◌, ◌≤◌, ◌<◌, ◌≡◌, refl, ap, ◌∙◌, inl, inr, Bool, true, false,
  not, ◌||◌, arith, ltb, leb, ◌==◌, if◌then◌else◌, Bool-cases,
}
use binbows.Vm.State.{
  Vm, w64, w32, slot, get_reg, set_reg, rsp, set_rsp, byte_at, load32, load64, store64, read_u8,
  read_u32, push, pop, update_flags, has_flag, flag_zero, flag_less, flag_greater,
}
use binbows.Vm.Ops.{
  Step, go_on, stop, dispatch, move, add, subtract, multiply, divide, compare_to, op_mv, op_add,
  op_sub, op_mul, op_div, op_cmp, op_jmp, op_je, op_jne, op_jl, op_jg, op_jle, op_jge, op_push,
  op_pop, op_call, op_ret, op_hlt, op_nop, with_operand, jump_if,
}
use binbows.Vm.Stack.{store64-below}

-- Every byte, register and address is in the range of its type.
pub record InRange (vm : Vm) : Type 0 where
  pub bytes : (a : ℕ) → vm.memory a < 256
  pub words : (r : ℕ) → vm.regs r < w64
  pub address : vm.ip < w32

-- The sizes and the counter are those of another machine.
pub record SameShape (vm vm' : Vm) : Type 0 where
  pub memory_size : vm'.memory_size ≡ vm.memory_size
  pub code_size : vm'.code_size ≡ vm.code_size
  pub data_size : vm'.data_size ≡ vm.data_size
  pub bss_size : vm'.bss_size ≡ vm.bss_size
  pub count : vm'.instruction_count ≡ vm.instruction_count

-- A part of an instruction that does not write to the memory.
record Quiet (vm vm' : Vm) : Type 0 where
  shape : SameShape vm vm'
  range : InRange vm → InRange vm'
  memory : vm'.memory ≡ vm.memory

abbrev CodeKept : Vm → Vm → Type 0
CodeKept vm vm' =
    8 ≤ rsp vm
    → rsp vm < w64
    → (a : ℕ) → a < vm.code_size + vm.data_size
    → vm'.memory a ≡ vm.memory a

-- A whole instruction.
pub record Sound (vm vm' : Vm) : Type 0 where
  pub shape : SameShape vm vm'
  pub range : InRange vm → InRange vm'
  pub code : CodeKept vm vm'

-- Reading the operands moves the instruction pointer and nothing else.
record Reads (vm vm' : Vm) : Type 0 where
  shape : SameShape vm vm'
  address : vm.ip < w32 → vm'.ip < w32
  memory : vm'.memory ≡ vm.memory
  regs : vm'.regs ≡ vm.regs

SameShape-trans : {a b c : Vm} → SameShape a b → SameShape b c → SameShape a c
SameShape-trans p q = omega arith

Reads-trans : {a b c : Vm} → Reads a b → Reads b c → Reads a c
Reads-trans p q = record {
  shape = SameShape-trans p.shape q.shape;
  address = λ h. q.address (p.address h);
  memory = q.memory ∙ p.memory;
  regs = q.regs ∙ p.regs;
}

Reads-range : {a b : Vm} → Reads a b → InRange a → InRange b
Reads-range {a} {b} p r = record {
  bytes = λ x. rw p.memory (r.bytes x);
  words = λ x. rw p.regs (r.words x);
  address = p.address r.address;
}

Reads-Sound : {a b c : Vm} → Reads a b → Sound b c → Sound a c
Reads-Sound {a} {b} {c} p q = record {
  shape = SameShape-trans p.shape q.shape;
  range = λ r. q.range (Reads-range p r);
  code = λ lo hi x hx.
      q.code (rw p.regs lo) (rw p.regs hi) x (omega (arith, hx, p.shape)) ∙ ap (λ m. m x) p.memory;
}

Quiet-Sound : {a b : Vm} → Quiet a b → Sound a b
Quiet-Sound q = record {
  shape = q.shape;
  range = q.range;
  code = λ lo hi x hx. ap (λ m. m x) q.memory;
}

read_u8-Reads : (vm : Vm) → Reads vm (read_u8 vm).1
unfolding read_u8
read_u8-Reads vm = elim (Bool-cases (leb vm.code_size vm.ip)) [
  | inl e ↦ rw e (record { shape = omega arith; address = λ h. h; memory = refl; regs = refl })
  | inr e ↦
      rw e (record { shape = omega arith; address = λ h. omega arith; memory = refl; regs = refl })
]

read_u32-Reads : (vm : Vm) → Reads vm (read_u32 vm).1
unfolding read_u32
read_u32-Reads vm = elim (Bool-cases (ltb vm.code_size ((vm.ip + 4) % w32))) [
  | inl e ↦ rw e (record { shape = omega arith; address = λ h. h; memory = refl; regs = refl })
  | inr e ↦
      rw e (record { shape = omega arith; address = λ h. omega arith; memory = refl; regs = refl })
]

read_u32-lt : (vm : Vm) → InRange (read_u32 vm).1 → (read_u32 vm).0 < w32
unfolding read_u32 load32
read_u32-lt vm after =
    let bytes : (a : ℕ) → vm.memory a < 256 =
      λ a. rw (← (read_u32-Reads vm).memory) (after.bytes a) in
    elim (Bool-cases (ltb vm.code_size ((vm.ip + 4) % w32))) [
      | inl e ↦ rw e (omega arith)
      | inr e ↦
          rw e (omega (arith, bytes vm.ip, bytes (vm.ip + 1), bytes (vm.ip + 2), bytes (vm.ip + 3)))
    ]

set_reg-Quiet : (vm : Vm) (idx v : ℕ) → (InRange vm → v < w64) → Quiet vm (set_reg vm idx v)
set_reg-Quiet vm idx v hv = record {
  shape = omega arith;
  range = λ r. record {
    bytes = r.bytes;
    words =
        λ x. elim (Bool-cases (x == slot idx)) [ inl e ↦ rw e (hv r) | inr e ↦ rw e (r.words x) ];
    address = r.address;
  };
  memory = refl;
}

set_reg-Sound : (vm : Vm) (idx v : ℕ) → (InRange vm → v < w64) → Sound vm (set_reg vm idx v)
set_reg-Sound vm idx v hv = Quiet-Sound (set_reg-Quiet vm idx v hv)

stop-Sound : (vm : Vm) → Sound vm (stop vm).1
stop-Sound vm = Quiet-Sound (record {
  shape = omega arith;
  range = λ r. record { bytes = r.bytes; words = r.words; address = r.address };
  memory = refl;
})

refl-Sound : (vm : Vm) → Sound vm vm
refl-Sound vm = Quiet-Sound (record { shape = omega arith; range = λ r. r; memory = refl })

flags-Sound : (vm : Vm) (w : ℕ) → Sound vm (update_flags vm w)
unfolding update_flags
flags-Sound vm w = Quiet-Sound (record {
  shape = omega arith;
  range = λ r. record { bytes = r.bytes; words = r.words; address = r.address };
  memory = refl;
})

jump-Sound : (vm : Vm) (addr : ℕ) → (InRange vm → addr < w32) → Sound vm (record vm { ip = addr })
jump-Sound vm addr h = Quiet-Sound (record {
  shape = omega arith;
  range = λ r. record { bytes = r.bytes; words = r.words; address = h r };
  memory = refl;
})

byte_at-lt : (d v : ℕ) → byte_at d v < 256
byte_at-lt zero v = omega arith
byte_at-lt (suc d) v = byte_at-lt d (v / 256)

store64-lt : (m : ℕ → ℕ) (a v j : ℕ) → m j < 256 → store64 m a v j < 256
unfolding store64
store64-lt m a v j h = elim (Bool-cases (ltb ((j + w64 - a) % w64) 8)) [
  | inl e ↦ rw e (byte_at-lt ((j + w64 - a) % w64) v)
  | inr e ↦ rw e h
]

load64-lt : (vm : Vm) (a : ℕ) → InRange vm → load64 vm.memory a < w64
unfolding load64
load64-lt vm a r = omega (
  arith,
  r.bytes a,
  r.bytes ((a + 1) % w64),
  r.bytes ((a + 2) % w64),
  r.bytes ((a + 3) % w64),
  r.bytes ((a + 4) % w64),
  r.bytes ((a + 5) % w64),
  r.bytes ((a + 6) % w64),
  r.bytes ((a + 7) % w64),
)

pop-Quiet : (vm : Vm) → Quiet vm (pop vm).1
unfolding pop
pop-Quiet vm = elim (Bool-cases (leb (vm.memory_size - 8) (rsp vm))) [
  | inl e ↦ rw e (record {
    shape = omega arith;
    range = λ r. record { bytes = r.bytes; words = r.words; address = r.address };
    memory = refl;
  })
  | inr e ↦ rw e (record {
    shape = omega arith;
    range = λ r. record {
      bytes = r.bytes;
      words =
          λ x. elim (Bool-cases (x == 4)) [ inl q ↦ rw q (omega arith) | inr q ↦ rw q (r.words x) ];
      address = r.address;
    };
    memory = refl;
  })
]

pop-lt : (vm : Vm) → InRange vm → (pop vm).0 < w64
unfolding pop
pop-lt vm r = elim (Bool-cases (leb (vm.memory_size - 8) (rsp vm))) [
  | inl e ↦ rw e (omega arith)
  | inr e ↦ rw e (load64-lt vm (rsp vm) r)
]

Quiet-trans : {a b c : Vm} → Quiet a b → Quiet b c → Quiet a c
Quiet-trans p q = record {
  shape = SameShape-trans p.shape q.shape;
  range = λ r. q.range (p.range r);
  memory = q.memory ∙ p.memory;
}

set_rsp_range : (vm : Vm) (v x : ℕ) → v < w64 → InRange vm → (set_rsp vm v).regs x < w64
set_rsp_range vm v x hv r = elim (Bool-cases (x == 4)) [
  | inl q ↦ rw q hv
  | inr q ↦ rw q (r.words x)
]

push-Sound : (vm : Vm) (v : ℕ) → Sound vm (push vm v)
unfolding push
push-Sound vm v =
    let top = (rsp vm + w64 - 8) % w64 in
    elim (Bool-cases (ltb top (vm.code_size + vm.data_size))) [
      | inl e ↦ rw e (
          Quiet-Sound (record {
            shape = omega arith;
            range = λ r. record {
              bytes = r.bytes;
              words = λ x. set_rsp_range vm top x (omega arith) r;
              address = r.address;
            };
            memory = refl;
          }))
      | inr e ↦ rw e (record {
        shape = omega arith;
        range = λ r. record {
          bytes = λ j. store64-lt vm.memory top v j (r.bytes j);
          words = λ x. set_rsp_range vm top x (omega arith) r;
          address = r.address;
        };
        code = λ lo hi x hx. store64-below vm.memory top v x (ground arith) (omega arith);
      })
    ]

module _ (effect : Vm → ℕ → ℕ → Step) (otherwise : Vm → Step)
    (effect-Sound : (vm : Vm) (dst x : ℕ) → (InRange vm → x < w64) → Sound vm (effect vm dst x).1)
    (otherwise-Sound : (vm : Vm) → Sound vm (otherwise vm).1) where
  with_operand-Sound : (vm : Vm) → Sound vm (with_operand effect otherwise vm).1
  with_operand-Sound vm =
      let vm1 = (read_u8 vm).1 in
      let vm2 = (read_u8 vm1).1 in
      let dst = (read_u8 vm).0 in
      let both = Reads-trans (read_u8-Reads vm) (read_u8-Reads vm1) in
      elim (Bool-cases ((read_u8 vm1).0 == 0x00)) [
        | inl e ↦ rw e (
            Reads-Sound (Reads-trans both (read_u8-Reads vm2)) (
              effect-Sound (read_u8 vm2).1 dst (get_reg (read_u8 vm2).1 (read_u8 vm2).0)
                (λ r. r.words (slot (read_u8 vm2).0))))
        | inr e ↦ elim (Bool-cases ((read_u8 vm1).0 == 0x01)) [
          | inl f ↦
              rw (e, f)
                (Reads-Sound (Reads-trans both (read_u32-Reads vm2)) (
                  effect-Sound (read_u32 vm2).1 dst (read_u32 vm2).0
                    (λ r. omega (arith, read_u32-lt vm2 r))))
          | inr f ↦ rw (e, f) (Reads-Sound both (otherwise-Sound vm2))
        ]
      ]

op_mv-Sound : (vm : Vm) → Sound vm (op_mv vm).1
unfolding op_mv
op_mv-Sound = with_operand-Sound move stop (λ vm dst x h. set_reg-Sound vm dst x h) stop-Sound

op_add-Sound : (vm : Vm) → Sound vm (op_add vm).1
unfolding op_add
op_add-Sound =
    with_operand-Sound add go_on
      (λ vm dst x h. set_reg-Sound vm dst ((get_reg vm dst + x) % w64) (λ r. omega arith))
      refl-Sound

op_sub-Sound : (vm : Vm) → Sound vm (op_sub vm).1
unfolding op_sub
op_sub-Sound =
    with_operand-Sound subtract go_on
      (λ vm dst x h. set_reg-Sound vm dst ((get_reg vm dst + w64 - x) % w64) (λ r. omega arith))
      refl-Sound

op_mul-Sound : (vm : Vm) → Sound vm (op_mul vm).1
unfolding op_mul
op_mul-Sound =
    with_operand-Sound multiply go_on
      (λ vm dst x h. set_reg-Sound vm dst ((get_reg vm dst * x) % w64) (λ r. omega arith))
      refl-Sound

divide-le : (a b : ℕ) → a / b ≤ a
divide-le a b = grind arith

divide-Sound : (vm : Vm) (dst x : ℕ) → (InRange vm → x < w64) → Sound vm (divide vm dst x).1
divide-Sound vm dst x h = elim (Bool-cases (x == 0)) [
  | inl e ↦ rw e (stop-Sound vm)
  | inr e ↦ rw e (
      set_reg-Sound vm dst (get_reg vm dst / x)
        (λ r. omega (arith, divide-le (get_reg vm dst) x, r.words (slot dst))))
]

op_div-Sound : (vm : Vm) → Sound vm (op_div vm).1
unfolding op_div
op_div-Sound = with_operand-Sound divide go_on divide-Sound refl-Sound

op_cmp-Sound : (vm : Vm) → Sound vm (op_cmp vm).1
unfolding op_cmp
op_cmp-Sound =
    with_operand-Sound compare_to go_on
      (λ vm dst x h. flags-Sound vm ((get_reg vm dst + w64 - x) % w64)) refl-Sound

jump_if-Sound : (test : ℕ → Bool) (vm : Vm) → Sound vm (jump_if test vm).1
jump_if-Sound test vm =
    let vm1 = (read_u32 vm).1 in
    elim (Bool-cases (test vm1.flags)) [
      | inl e ↦
          rw e (Reads-Sound (read_u32-Reads vm) (jump-Sound vm1 (read_u32 vm).0 (read_u32-lt vm)))
      | inr e ↦ rw e (Reads-Sound (read_u32-Reads vm) (refl-Sound vm1))
    ]

op_jmp-Sound : (vm : Vm) → Sound vm (op_jmp vm).1
unfolding op_jmp
op_jmp-Sound vm =
    Reads-Sound (read_u32-Reads vm) (jump-Sound (read_u32 vm).1 (read_u32 vm).0 (read_u32-lt vm))

op_push-Sound : (vm : Vm) → Sound vm (op_push vm).1
unfolding op_push
op_push-Sound vm =
    let vm1 = (read_u8 vm).1 in
    Reads-Sound (read_u8-Reads vm) (push-Sound vm1 (get_reg vm1 (read_u8 vm).0))

-- `set_reg` and the jumps of OP_RET come behind a `pop`, whose value is known before it.
Quiet-from :
    (vm vm1 : Vm) (f : Vm → Vm)
    → Quiet vm vm1
    → SameShape vm1 (f vm1)
    → (InRange vm → InRange vm1 → InRange (f vm1))
    → (f vm1).memory ≡ vm1.memory
    → Quiet vm (f vm1)
Quiet-from vm vm1 f q shape range memory = record {
  shape = SameShape-trans q.shape shape;
  range = λ r. range r (q.range r);
  memory = memory ∙ q.memory;
}

op_pop-Sound : (vm : Vm) → Sound vm (op_pop vm).1
unfolding op_pop
op_pop-Sound vm =
    let vm1 = (read_u8 vm).1 in
    let reg = (read_u8 vm).0 in
    let v = (pop vm1).0 in
    Reads-Sound (read_u8-Reads vm) (
      Quiet-Sound (
        Quiet-from vm1 (pop vm1).1 (λ m. set_reg m reg v) (pop-Quiet vm1) (omega arith)
          (λ r r1. (set_reg-Quiet (pop vm1).1 reg v (λ _. pop-lt vm1 r)).range r1) refl))

op_ret-Sound : (vm : Vm) → Sound vm (op_ret vm).1
unfolding op_ret
op_ret-Sound vm = Quiet-Sound (
    Quiet-from vm (pop vm).1 (λ m. record m { ip = (pop vm).0 % w32 }) (pop-Quiet vm) (omega arith)
      (λ r r1. record { bytes = r1.bytes; words = r1.words; address = omega arith }) refl)

op_call-Sound : (vm : Vm) → Sound vm (op_call vm).1
unfolding op_call
op_call-Sound vm =
    let vm1 = (read_u32 vm).1 in
    let addr = (read_u32 vm).0 in
    let p = push-Sound vm1 vm1.ip in
    Reads-Sound (read_u32-Reads vm) (record {
      shape = SameShape-trans p.shape (omega arith);
      range = λ r. record {
        bytes = (p.range r).bytes;
        words = (p.range r).words;
        address = read_u32-lt vm r;
      };
      code = p.code;
    })

either :
    (b : Bool) (vm : Vm) (x y : Step)
    → Sound vm x.1
    → Sound vm y.1
    → Sound vm (if b then x else y).1
either true vm x y p q = p
either false vm x y p q = q

-- Every instruction but OP_INT, whatever its bytes are: it keeps the sizes and the counter, keeps
-- bytes, registers and the instruction pointer in the range of their types, and, if rsp is at least
-- 8 and below 2 ^ 64, changes no byte of the code and the data.
pub dispatch-Sound : (opcode : ℕ) (vm : Vm) → Sound vm (dispatch opcode vm).1
unfolding dispatch op_je op_jne op_jl op_jg op_jle op_jge op_hlt op_nop
dispatch-Sound opcode vm = either (opcode == 0x01) vm _ _ (op_mv-Sound vm) (
    either (opcode == 0x02) vm _ _ (op_add-Sound vm) (
      either (opcode == 0x03) vm _ _ (op_sub-Sound vm) (
        either (opcode == 0x04) vm _ _ (op_mul-Sound vm) (
          either (opcode == 0x05) vm _ _ (op_div-Sound vm) (
            either (opcode == 0x10) vm _ _ (op_cmp-Sound vm) (
              either (opcode == 0x06) vm _ _ (op_jmp-Sound vm) (
                either (opcode == 0x07) vm _ _ (jump_if-Sound (has_flag flag_zero) vm) (
                  either (opcode == 0x08) vm _ _
                    (jump_if-Sound (λ f. not (has_flag flag_zero f)) vm)
                    (either (opcode == 0x09) vm _ _ (jump_if-Sound (has_flag flag_less) vm) (
                      either (opcode == 0x0A) vm _ _ (jump_if-Sound (has_flag flag_greater) vm) (
                        either (opcode == 0x0B) vm _ _
                          (jump_if-Sound (λ f. has_flag flag_zero f || has_flag flag_less f) vm)
                          (either (opcode == 0x0C) vm _ _
                            (jump_if-Sound (λ f. has_flag flag_zero f || has_flag flag_greater f)
                              vm)
                            (either (opcode == 0x20) vm _ _ (op_push-Sound vm) (
                              either (opcode == 0x21) vm _ _ (op_pop-Sound vm) (
                                either (opcode == 0x30) vm _ _ (op_call-Sound vm) (
                                  either (opcode == 0x31) vm _ _ (op_ret-Sound vm) (
                                    either (opcode == 0x40) vm _ _ (stop-Sound vm) (
                                      either (opcode == 0x90) vm _ _ (refl-Sound vm)
                                        (stop-Sound vm)))))))))))))))))))
