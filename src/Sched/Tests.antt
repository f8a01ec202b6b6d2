-- ===== src/Sched/Tests.antt =====
-- The scheduler at a small table: two runs, and the theorems at concrete inputs.
use binbows.Base.{ℕ, ◌-◌, ◌<◌, ◌≤◌, ◌≡◌, ◌≢◌, refl, true, false, arith, ltb, ◌==◌, if◌then◌else◌}
use binbows.Allocator.{Allocator}
use binbows.Sched.{
  Process, Scheduler, ProcessState, ready, running, blocked, create_process, terminate_process,
  change_process, find_next_process, find_next_loop, reschedule, switch_to, switch, is_ready,
}
use binbows.Sched.Table.{IsValid, OnlyCurrentRuns, lookup}
use binbows.Sched.Terminate.{terminate-IsValid, terminate-lookup, terminate_loses_current}
use binbows.Sched.Pick.{Picked, find_next-picks}
use binbows.Sched.Change.{change_process-IsValid, change_process-switches, Switched, SameTable}
use binbows.Sched.Pid.{create_process-IsValid, create_process-adds, Added}

-- An allocator that hands out one fixed block.
abbrev one_block : Allocator
one_block = record {
  Heap = Unit {0};
  kmalloc = λ size h. (0x100000, h);
  kfree = λ p h. h;
  store64 = λ p w h. h;
}

abbrev proc : ℕ → ProcessState → ℕ → Process
proc pid state priority = record {
  pid = pid;
  state = state;
  priority = priority;
  stack_ptr = 0;
  stack_base = 0x1000;
  pml4_phys = 0x5000;
  user_stack_vaddr = 0;
  time_slice = 1;
  cpu_time_used = 0;
  entry_point = 0x2000;
  exit_code = 0;
}

-- PIDs 0, 1 and 2; the current process is the one at the given index.
abbrev slots : ℕ → ℕ → Process
slots current i = proc (if ltb i 3 then i else 0) (if i == current then running else ready) (10 - i)

abbrev table : ℕ → Scheduler
table current = record {
  processes = slots current;
  process_count = 3;
  current_process = current;
  next_pid = 3;
  initialized = true;
}

table-IsValid : (current : ℕ) → current < 3 → IsValid (table current)
table-IsValid current h = record {
  up = refl;
  nonempty = omega arith;
  fits = omega arith;
  current_in = h;
  kernel_first = refl;
  pid_lt = λ i hi. ground arith;
  unique = λ i j hi hj e. ground arith;
  next_pos = omega arith;
  next_lt = omega arith;
}

-- Three processes at work: the second one runs, and the tick hands the CPU to the third.
abbrev busy : Scheduler
busy = table 1

switches_to_two : (change_process busy).1 ≡ switch 1 2 0x5000
unfolding change_process reschedule switch_to find_next_process find_next_loop
switches_to_two = refl

terminate-IsValid_example : IsValid (terminate_process one_block 1 busy tt).0
terminate-IsValid_example = terminate-IsValid one_block 1 tt (table-IsValid 1 (omega arith))

terminate-lookup_example : lookup (terminate_process one_block 1 busy tt).0 2 ≡ lookup busy 2
terminate-lookup_example =
    terminate-lookup one_block 1 2 tt (table-IsValid 1 (omega arith)) (omega arith)

terminate_loses_current_example :
    let s' = (terminate_process one_block 1 (table 2) tt).0 in
    (s'.current_process ≡ 0) × (s'.processes 1 ≡ slots 2 2) × (s'.current_process ≢ 1)
terminate_loses_current_example =
    terminate_loses_current one_block 1 1 {s = table 2} tt (table-IsValid 2 (omega arith))
      (omega arith) (omega arith) refl refl

find_next-picks_example : (r : ℕ) × Picked busy r
find_next-picks_example = find_next-picks (table-IsValid 1 (omega arith)) 2 (omega arith) refl

-- Only process 1 can run.
abbrev lonely : Scheduler
lonely = record busy {
  processes = λ i. proc (if ltb i 3 then i else 0) (if i == 1 then running else blocked) 5;
}

lonely-IsValid : IsValid lonely
lonely-IsValid = record {
  up = refl;
  nonempty = omega arith;
  fits = omega arith;
  current_in = omega arith;
  kernel_first = refl;
  pid_lt = λ i hi. ground arith;
  unique = λ i j hi hj e. ground arith;
  next_pos = omega arith;
  next_lt = omega arith;
}

lonely_idle : (j : ℕ) → j < 3 → is_ready (lonely.processes j).state ≡ false
lonely_idle j hj = ground arith

change_process-IsValid_example :
    IsValid (change_process busy).0 × SameTable busy (change_process busy).0
change_process-IsValid_example = change_process-IsValid (table-IsValid 1 (omega arith))

busy_alone : OnlyCurrentRuns busy
busy_alone i hi r = ground arith

change_process-switches_example :
    (next : ℕ) × (is_ready (slots 1 next).state ≡ true)
    × ((i : ℕ)
        → i < 3
        → is_ready (slots 1 i).state ≡ true
        → (slots 1 next).priority ≤ (slots 1 i).priority)
    × Switched busy next (change_process busy)
change_process-switches_example =
    change_process-switches 2 {s = busy} (table-IsValid 1 (omega arith)) refl (omega arith)
      (omega arith) refl

create_process-IsValid_example : IsValid (create_process one_block 0x4000 2 0x1000 busy tt).1
create_process-IsValid_example =
    create_process-IsValid one_block 0x4000 2 0x1000 tt (table-IsValid 1 (omega arith))

create_process-adds_example :
    let (result, s', h') = create_process one_block 0x4000 2 0x1000 busy tt in
    (pid : ℕ) × Added 0x4000 2 0x100000 busy pid result s'
create_process-adds_example =
    create_process-adds one_block 0x4000 2 0x1000 {s = busy} tt (table-IsValid 1 (omega arith))
      (omega arith) (omega arith) (omega arith) (omega arith)
