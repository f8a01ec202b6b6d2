-- ===== src/Shell/Commands.antt =====
-- The commands `kill` and `nice` of the shell, kernel/src/kernel/shell/commands.c, on the process
-- table. A command returns what it says.
use binbows.Base.{
  ℕ, zero, suc, ◌+◌, ◌-◌, ◌*◌, ◌%◌, ◌^◌, Option, none, some, ltb, leb, ◌==◌, if◌then◌else◌,
}
use binbows.Allocator.{Allocator}
use binbows.Sched.{Scheduler, set_process, get_process_by_pid, terminate_process}
use binbows.Shell.Text.{Buffer}
use binbows.Util.Chars.{isdigit, negate}

pub data Reply : Type 0 where
  missing_argument : Reply
  invalid_pid : Reply
  invalid_priority : Reply
  kernel_process : Reply
  not_found : Reply
  quiet : Reply
  set_priority : (pid priority : ℕ) → Reply

-- `for (; *p; p++)` with the test for a digit, on a 32-bit word. The outer `none` is a run past the
-- fuel, the inner one a character that is no digit.
unfoldable pub parse_number : (fuel i n : ℕ) → Buffer → Option (Option ℕ)
parse_number zero i n arg = none
parse_number (suc f) i n arg =
    let rest = parse_number f (suc i) ((n * 10 + (arg i - 48)) % 2 ^ 32) arg in
    if arg i == 0 then some (some n) else (if isdigit (arg i) then rest else some none)

module _ (a : Allocator) where
  open a use {Heap}

  unfoldable pub cmd_kill :
      (fuel argc : ℕ) → (args : ℕ → Buffer) → Scheduler → Heap → Option (Reply × Scheduler × Heap)
  cmd_kill fuel argc args s h =
      if ltb argc 2 then some (missing_argument, s, h) else (elim (parse_number fuel 0 0 (args 1)) [
        | none ↦ none
        | some none ↦ some (invalid_pid, s, h)
        | some (some pid) ↦
            let (s', h') = terminate_process a pid s h in
            if pid == 0 then some (kernel_process, s, h) else some (quiet, s', h')
      ])

-- `if (newp < 0) proc->priority = 0; else proc->priority = (uint32_t)newp;`
abbrev pub priority_of : (newp : ℕ) → ℕ
priority_of newp = if leb (2 ^ 31) newp then 0 else newp

-- The process that the PID names gets the priority.
unfoldable pub renice : (pid newp : ℕ) → Scheduler → Reply × Scheduler
renice pid newp s = elim (get_process_by_pid s pid) [
  | none ↦ (not_found, s)
  | some i ↦
      let p = s.processes i in
      if p.pid == 0 then (kernel_process, s) else (
        set_priority p.pid (priority_of newp),
        set_process s i (record p { priority = priority_of newp }),
      )
]

unfoldable pub cmd_nice :
    (fuel argc : ℕ) → (args : ℕ → Buffer) → Scheduler → Option (Reply × Scheduler)
cmd_nice fuel argc args s =
    let negative = args 2 0 == 45 in
    if ltb argc 3 then some (missing_argument, s) else (elim (parse_number fuel 0 0 (args 1)) [
      | none ↦ none
      | some none ↦ some (invalid_pid, s)
      | some (some pid) ↦ elim (parse_number fuel (if negative then 1 else 0) 0 (args 2)) [
        | none ↦ none
        | some none ↦ some (invalid_priority, s)
        | some (some n) ↦ some (renice pid (if negative then negate n else n) s)
      ]
    ])
