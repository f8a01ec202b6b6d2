-- ===== src/Vm/Tests.antt =====
-- The virtual machine at small programs: a run, and the theorems at concrete inputs.
use binbows.Base.{
  ℕ, zero, suc, ◌+◌, ◌≤◌, ◌<◌, ◌≡◌, refl, Bool, true, false, ◌||◌, Option, none, some, List, [],
  ◌∷◌, arith, ltb, ◌==◌, if◌then◌else◌, All,
}
use binbows.Vm.State.{Vm, rsp, push, pop, store64, read_u8, read_u32, load32, set_reg}
use binbows.Vm.Ops.{dispatch, op_mv, op_hlt, compare_to}
use binbows.Vm.Run.{Syscalls, FileBuffer, execute_instruction, execute_loop}
use binbows.Vm.Stack.{Loaded, pop-push, pop-push-Loaded, push_wraps}
use binbows.Vm.Sound.{Sound, dispatch-Sound}
use binbows.Vm.Instr.{alu, mv_op, imm, execute-perform, holds, less}
use binbows.Vm.Flags.{branch-compare}

-- A kernel whose system calls all return 7.
abbrev seven : Syscalls
seven = record { Kernel = Unit {0}; set_vm = λ size k. k; handle = λ num args vm k. (7, vm, k) }

abbrev byte_of : List ℕ → ℕ → ℕ
byte_of [] a = 0
byte_of (b ∷ bs) zero = b
byte_of (b ∷ bs) (suc a) = byte_of bs a

-- mv rax, 5; hlt
abbrev program : List ℕ
program = 0x01 ∷ 0 ∷ 0x01 ∷ 5 ∷ 0 ∷ 0 ∷ 0 ∷ 0x40 ∷ []

abbrev file : FileBuffer
file = record {
  byte = byte_of (0x45 ∷ 0x58 ∷ 0x45 ∷ 0x42 ∷ 8 ∷ 0 ∷ 0 ∷ 0 ∷ 0 ∷ 0 ∷ program);
  size = 18;
}

abbrev machine : ℕ → Vm
machine top = record {
  memory = byte_of program;
  memory_size = 65544;
  code_size = 8;
  data_size = 0;
  bss_size = 0;
  regs = λ r. if r == 4 || r == 5 then top else 0;
  ip = 0;
  flags = 0;
  running = true;
  instruction_count = 0;
}

abbrev outcome : Option (Vm × Unit {0}) → Option (ℕ × Bool × ℕ)
outcome none = none
outcome (some r) = some (r.0.regs 0, r.0.running, r.0.instruction_count)

-- The run of the program: one instruction is counted, and hlt stops it.
run_program : outcome (execute_loop seven 10 11 (machine 65544) tt) ≡ some (5, false, 1)
unfolding execute_loop execute_instruction read_u8 read_u32 load32 dispatch op_mv op_hlt
run_program = refl

pop-push_example :
    let vm = machine 65536 in
    ((pop (push vm 77)).0 ≡ 77)
    × (rsp (pop (push vm 77)).1 ≡ 65536)
    × ((pop (push vm 77)).1.running ≡ true)
    × ((pop (push vm 77)).1.memory ≡ store64 vm.memory 65528 77)
pop-push_example =
    pop-push (machine 65536) 77 (omega arith) (omega arith) (omega arith) (omega arith)

loaded : Loaded file (machine 65544)
loaded = record {
  stack_top = refl;
  sizes = refl;
  starts = (refl, refl, refl);
  header = (refl, refl, refl);
  sections = sections;
}
  where
    sections : (a : ℕ) → byte_of program a ≡ (if ltb a (8 + 0) then file.byte (10 + a) else 0)
    sections zero = refl
    sections (suc zero) = refl
    sections (suc (suc zero)) = refl
    sections (suc (suc (suc zero))) = refl
    sections (suc (suc (suc (suc zero)))) = refl
    sections (suc (suc (suc (suc (suc zero))))) = refl
    sections (suc (suc (suc (suc (suc (suc zero)))))) = refl
    sections (suc (suc (suc (suc (suc (suc (suc zero))))))) = refl
    sections (suc (suc (suc (suc (suc (suc (suc (suc a)))))))) = ground arith

byte_of-lt : (bs : List ℕ) (a : ℕ) → All (λ b. b < 256) bs → byte_of bs a < 256
byte_of-lt [] a h = omega arith
byte_of-lt (b ∷ bs) zero h = h.0
byte_of-lt (b ∷ bs) (suc a) h = byte_of-lt bs a h.1

pop-push-Loaded_example :
    ((pop (push (machine 65544) 77)).0 ≡ 0) × ((pop (push (machine 65544) 77)).1.running ≡ false)
pop-push-Loaded_example =
    pop-push-Loaded file (machine 65544) 77 loaded (λ a.
      byte_of-lt (0x45 ∷ 0x58 ∷ 0x45 ∷ 0x42 ∷ 8 ∷ 0 ∷ 0 ∷ 0 ∷ 0 ∷ 0 ∷ program) a (omega arith))

push_wraps_example :
    ((push (machine 4) 77).running ≡ true)
    × (65544 ≤ rsp (push (machine 4) 77))
    × ((push (machine 4) 77).memory ≡ store64 (byte_of program) (rsp (push (machine 4) 77)) 77)
push_wraps_example = push_wraps (machine 4) 77 (omega arith) (omega arith) (omega arith)

dispatch-Sound_example : Sound (machine 4) (dispatch 0x20 (machine 4)).1
dispatch-Sound_example = dispatch-Sound 0x20 (machine 4)

execute-perform_example :
    execute_instruction seven (machine 65544) tt
    ≡ (true, set_reg (record (machine 65544) { ip = 7 }) 0 5, tt)
execute-perform_example =
    execute-perform seven (alu mv_op 0 (imm 5)) (machine 65544) tt refl (omega arith) (omega arith)
      (omega arith) (refl, (refl, (refl, (refl, (refl, (refl, (refl, tt)))))))

-- rax is 0, so 0 < 5.
branch-compare_example : holds less (compare_to (machine 65544) 0 5).1.flags ≡ true
branch-compare_example = branch-compare (machine 65544) 0 5 (omega arith) (omega arith) refl less
