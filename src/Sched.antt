-- ===== src/Sched.antt =====
-- The process table and the scheduler: kernel/src/x86_64/scheduler/scheduler.c.
pub mod Table
pub mod Pick
pub mod Pid
pub mod Change
pub mod Terminate
mod Tests
use binbows.Base.{
  ℕ, zero, suc, ◌+◌, ◌-◌, ◌*◌, ◌/◌, ◌%◌, ◌^◌, Bool, true, false, not, ◌&&◌, ◌||◌, Option, none,
  some, ltb, leb, ◌==◌, if◌then◌else◌, update, List, [], ◌∷◌, ℤ, pos, negsuc,
}
use binbows.Allocator.{Allocator}

pub data ProcessState : Type 0 where
  ready running blocked terminated : ProcessState

abbrev pub is_ready : ProcessState → Bool
is_ready ready = true
is_ready _ = false

abbrev pub is_running : ProcessState → Bool
is_running running = true
is_running _ = false

abbrev pub is_blocked : ProcessState → Bool
is_blocked blocked = true
is_blocked _ = false

-- `process_t`. Pointers are numbers, and NULL is 0.
pub record Process : Type 0 where
  pub pid : ℕ
  pub state : ProcessState
  pub priority : ℕ
  pub stack_ptr : ℕ
  pub stack_base : ℕ
  pub pml4_phys : ℕ
  pub user_stack_vaddr : ℕ
  pub time_slice : ℕ
  pub cpu_time_used : ℕ
  pub entry_point : ℕ
  pub exit_code : ℕ

-- `scheduler_t` and the flag `initialized`. The array is a function from its indices.
pub record Scheduler : Type 0 where
  pub processes : ℕ → Process
  pub process_count : ℕ
  pub current_process : ℕ
  pub next_pid : ℕ
  pub initialized : Bool

abbrev pub max_process_count : ℕ
max_process_count = 255

-- A `uint32_t` as an `int`
abbrev pub to_int : ℕ → ℤ
to_int n = if ltb n (2 ^ 31) then pos n else negsuc (2 ^ 32 - 1 - n)

abbrev pub minus_one : ℤ
minus_one = negsuc 0

abbrev pub default_time_slice : ℕ
default_time_slice = 3

abbrev pub kernel_stack_size : ℕ
kernel_stack_size = 64 * 1024

abbrev pub u32 : ℕ
u32 = 2 ^ 32

-- `for (i = ...; i < count; i++) if (processes[i].pid == pid) return &processes[i];`, with the
-- rounds that are left
pub find_pid : (ℕ → Process) → (rounds i pid : ℕ) → Option ℕ
find_pid procs zero i pid = none
find_pid procs (suc n) i pid =
    let rest = find_pid procs n (suc i) pid in if (procs i).pid == pid then some i else rest

-- The pointer into the table is its index.
unfoldable pub get_process_by_pid : Scheduler → ℕ → Option ℕ
get_process_by_pid s pid =
    if s.initialized then find_pid s.processes s.process_count 0 pid else none

unfoldable pub get_current_process : Scheduler → Option ℕ
get_current_process s =
    if not s.initialized || leb s.process_count s.current_process
    then none
    else some s.current_process

unfoldable pub get_process_at : Scheduler → ℕ → Option ℕ
get_process_at s index =
    if s.initialized then (if leb s.process_count index then none else some index) else none

-- `pid++; if (pid == 0) pid = 1;` on a `uint32_t`
abbrev pub next_id : ℕ → ℕ
next_id pid = if (pid + 1) % u32 == 0 then 1 else (pid + 1) % u32

-- `while (get_process_by_pid(pid) != NULL) …`; `none` means that the fuel ran out
pub unique_pid : Scheduler → (fuel pid : ℕ) → Option ℕ
unique_pid s zero pid = none
unique_pid s (suc n) pid =
    let rest = unique_pid s n (next_id pid) in
    elim (get_process_by_pid s pid) [ none ↦ some pid | some _ ↦ rest ]

-- `block_process` and `unblock_process`
unfoldable pub block_process : Scheduler → ℕ → Scheduler
unfolding get_process_by_pid
block_process s pid = elim (get_process_by_pid s pid) [
  | none ↦ s
  | some i ↦
      if is_running (s.processes i).state
      then record s {
        processes = update s.processes i (record (s.processes i) { state = blocked });
      }
      else s
]

unfoldable pub unblock_process : Scheduler → ℕ → Scheduler
unfolding get_process_by_pid
unblock_process s pid = elim (get_process_by_pid s pid) [
  | none ↦ s
  | some i ↦
      if is_blocked (s.processes i).state
      then record s { processes = update s.processes i (record (s.processes i) { state = ready }) }
      else s
]

-- `for (j = i; j < count - 1; j++) processes[j] = processes[j + 1];`, with the rounds left
pub shift_down : (ℕ → Process) → (rounds j : ℕ) → ℕ → Process
shift_down procs zero j = procs
shift_down procs (suc n) j = shift_down (update procs j (procs (suc j))) n (suc j)

-- The table after the process at index `i` is removed.
pub remove_at : Scheduler → ℕ → Scheduler
remove_at s i =
    let count = s.process_count - 1 in
    record s {
      processes =
          shift_down (update s.processes i (record (s.processes i) { state = terminated }))
            (count - i) i;
      process_count = count;
      current_process =
          if leb count s.current_process
          then 0
          else (if ltb i s.current_process then s.current_process - 1 else s.current_process);
    }

-- The loop of `find_next_process`: the best index so far, and its priority.
pub find_next_loop : Scheduler → (rounds i : ℕ) → Option ℕ → ℕ → Option ℕ
find_next_loop s zero i best best_priority = best
find_next_loop s (suc n) i best best_priority =
    let idx = (s.current_process + 1 + i) % s.process_count in
    let p = s.processes idx in
    let better =
      is_ready p.state && elim best [ none ↦ true | some _ ↦ ltb p.priority best_priority ] in
    find_next_loop s n (suc i) (if better then some idx else best)
      (if better then p.priority else best_priority)

-- `none` is -1.
pub find_next_process : Scheduler → Option ℕ
unfolding find_next_loop
find_next_process s =
    if s.process_count == 0
    then none
    else (if s.process_count == 1
        then some 0
        else elim (find_next_loop s s.process_count 0 none (u32 - 1)) [
          | some best ↦ some best
          | none ↦
              if is_running (s.processes s.current_process).state
              then some s.current_process
              else some 0
        ])

-- What `change_process` does to the CPU: nothing, or `context_switch` from one process to another,
-- with the page table that it is given.
pub data Switch : Type 0 where
  stay : Switch
  switch : (from to pml4_phys : ℕ) → Switch

abbrev pub set_process : Scheduler → ℕ → Process → Scheduler
set_process s i p = record s { processes = update s.processes i p }

-- The head of `change_process`: the tick is charged to the current process.
unfoldable pub charge_tick : Process → Process
charge_tick p =
    if ltb 0 p.time_slice
    then record p { time_slice = p.time_slice - 1; cpu_time_used = (p.cpu_time_used + 1) % u32 }
    else p

-- The current process becomes ready if it was running, with a fresh slice.
abbrev pub give_up : Process → Process
give_up p = record p {
  state = if is_running p.state then ready else p.state;
  time_slice = default_time_slice;
}

abbrev pub take_cpu : Process → Process
take_cpu p = record p { time_slice = default_time_slice; state = running }

-- `next_proc` is given the CPU.
unfoldable pub switch_to : Scheduler → ℕ → Scheduler × Switch
switch_to s next =
    let s1 = set_process s s.current_process (give_up (s.processes s.current_process)) in
    let chosen = take_cpu (s1.processes next) in
    (
      record (set_process s1 next chosen) { current_process = next },
      switch s.current_process next chosen.pml4_phys,
    )

-- The tail of `change_process`, when the slice is used up.
unfoldable pub reschedule : Scheduler → Scheduler × Switch
reschedule s =
    let kept = record (s.processes s.current_process) { time_slice = default_time_slice } in
    elim (find_next_process s) [
      | none ↦ (set_process s s.current_process kept, stay)
      | some next ↦
          if next == s.current_process
          then (set_process s s.current_process kept, stay)
          else switch_to s next
    ]

unfoldable pub change_process : Scheduler → Scheduler × Switch
unfolding charge_tick
change_process s =
    if not s.initialized || leb s.process_count 1
    then (s, stay)
    else (let p = charge_tick (s.processes s.current_process) in
        let s1 = set_process s s.current_process p in
        if ltb 0 p.time_slice && is_running p.state then (s1, stay) else reschedule s1)

unfoldable pub yield : Scheduler → Scheduler × Switch
unfolding get_current_process
yield s = change_process (elim (get_current_process s) [
  | none ↦ s
  | some i ↦
      let p = s.processes i in
      set_process s i
        (record p { state = if is_running p.state then ready else p.state; time_slice = 0 })
])

-- The words of a new stack, from the top down.
abbrev pub initial_frame : ℕ → List ℕ
initial_frame entry_point = entry_point ∷ 0x202 ∷ 0 ∷ 0 ∷ 0 ∷ 0 ∷ 0 ∷ 0 ∷ 0 ∷ 0 ∷ 0 ∷ 0 ∷ 0 ∷ 0 ∷ []

module _ (a : Allocator) where
  open a use {Heap, kmalloc, kfree, store64}

  -- `*(--stack) = word` for each word
  pub push_words : ℕ → List ℕ → Heap → ℕ × Heap
  push_words stack [] h = (stack, h)
  push_words stack (w ∷ ws) h =
      let top = (stack + 2 ^ 64 - 8) % 2 ^ 64 in push_words top ws (store64 top w h)

  -- `setup_initial_stack`: the entry point, the flags 0x202 and twelve zeros
  unfoldable pub setup_initial_stack : Process → Heap → Process × Heap
  unfolding push_words
  setup_initial_stack p h =
      let (top, h') =
        push_words ((p.stack_base + kernel_stack_size) % 2 ^ 64) (initial_frame p.entry_point) h in
      (record p { stack_ptr = top }, h')

  unfoldable pub scheduler_init : (cr3 : ℕ) → Scheduler → Heap → Scheduler × Heap
  scheduler_init cr3 s h =
      if s.initialized
      then (s, h)
      else (let (stack_base, h') = kmalloc kernel_stack_size h in
          let s1 = record s { next_pid = 1; current_process = 0; process_count = 0 } in
          if stack_base == 0 then (s1, h') else (
            record (set_process s1 0 (record (s.processes 0) {
              pid = 0;
              state = running;
              priority = 0;
              time_slice = default_time_slice;
              cpu_time_used = 0;
              stack_base = stack_base;
              entry_point = 0;
              stack_ptr = (stack_base + kernel_stack_size) % 2 ^ 64;
              pml4_phys = cr3 / 4096 * 4096;
            })) { process_count = 1; initialized = true },
            h',
          ))

  -- The slot that `create_process` fills.
  unfoldable pub new_process : Process → (pid priority entry_point stack_base cr3 : ℕ) → Process
  new_process old pid priority entry_point stack_base cr3 = record old {
    pid = pid;
    state = ready;
    priority = priority;
    time_slice = default_time_slice;
    cpu_time_used = 0;
    entry_point = entry_point;
    stack_base = stack_base;
    pml4_phys = cr3 / 4096 * 4096;
  }

  -- The rest of `create_process`, once it has a stack and a PID, which is returned as an `int`
  unfoldable pub admit :
      (pid entry_point priority cr3 stack_base : ℕ) → Scheduler → Heap → ℤ × Scheduler × Heap
  unfolding new_process
  admit pid entry_point priority cr3 stack_base s h =
      let idx = s.process_count in
      let (p, h') =
        setup_initial_stack (new_process (s.processes idx) pid priority entry_point stack_base cr3)
          h in
      (
        to_int pid,
        record s {
          processes = update s.processes idx p;
          next_pid = next_id pid;
          process_count = idx + 1;
        },
        h',
      )

  -- `count + 1` rounds of the search for a PID are enough: see `Pid`.
  unfoldable pub create_process :
      (entry_point priority cr3 : ℕ) → Scheduler → Heap → ℤ × Scheduler × Heap
  unfolding admit
  create_process entry_point priority cr3 s h =
      if not s.initialized || leb max_process_count s.process_count || entry_point == 0
      then (minus_one, s, h)
      else (let (stack_base, h') = kmalloc kernel_stack_size h in
          if stack_base == 0
          then (minus_one, s, h')
          else elim (unique_pid s (s.process_count + 1) s.next_pid) [
            | none ↦ (minus_one, s, h')
            | some pid ↦ admit pid entry_point priority cr3 stack_base s h'
          ])

  unfoldable pub free_process_stack : ℕ → Heap → Heap
  free_process_stack stack_base h = if stack_base == 0 then h else kfree stack_base h

  unfoldable pub terminate_process : ℕ → Scheduler → Heap → Scheduler × Heap
  unfolding free_process_stack
  terminate_process pid s h =
      if not s.initialized || pid == 0
      then (s, h)
      else elim (find_pid s.processes s.process_count 0 pid) [
        | none ↦ (s, h)
        | some i ↦ (remove_at s i, free_process_stack (s.processes i).stack_base h)
      ]
