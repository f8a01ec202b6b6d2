-- ===== src/Vm/Halt.antt =====
-- The end of the loop of `bexe_execute` of bexe.c.
use binbows.Base.{ℕ, ◌≡◌, List}
use binbows.Vm.State.{Vm}
use binbows.Vm.Run.{Syscalls}

module _ (sys : Syscalls) where
  open sys use {Kernel, handle}

  -- A system call leaves the counter of the machine alone.
  abbrev pub KeepsCount : Type 0
  KeepsCount =
      (num : ℕ) (args : List ℕ) (vm : Vm) (k : Kernel)
      → (handle num args vm k).1.instruction_count ≡ vm.instruction_count
