-- ===== src/Sched/Pid.antt =====
-- `create_process` of scheduler.c: the search for a free PID, and the new process in the table.
use binbows.Base.{
  ℕ, zero, suc, ◌+◌, ◌-◌, ◌*◌, ◌%◌, ◌^◌, ◌≤◌, ◌≡◌, ◌≢◌, refl, sym, ap, ◌∙◌, inl, inr, true, false,
  not, ◌||◌, some, List, [], ◌∷◌, arith, leb, ◌==◌, if◌then◌else◌, update, length, Bool-cases,
  Option-cases, ◌↔◌, ◌<◌, ℤ, pos, ==_iff, ==→ne, eq→==, ne→==,
}
use binbows.Allocator.{Allocator}
use binbows.Sched.{
  Process, Scheduler, ready, u32, next_id, max_process_count, default_time_slice, kernel_stack_size,
  find_pid, unique_pid, setup_initial_stack, initial_frame, push_words, new_process, admit,
  create_process, to_int, minus_one,
}
use binbows.Sched.Table.{IsValid, find_pid-some, find_pid-none, get_process_by_pid-find}

-- How many steps of `pid++` lead from `start` to a PID.
abbrev rank : ℕ → ℕ → ℕ
rank start q = if leb start q then q - start else q + (u32 - 1) - start

-- How many of the first `n` processes have a PID that the search has not passed after `k` steps.
ahead : (ℕ → Process) → (start k n : ℕ) → ℕ
ahead procs start k zero = 0
ahead procs start k (suc n) =
    ahead procs start k n + (if leb k (rank start (procs n).pid) then 1 else 0)

ahead-le : (procs : ℕ → Process) (start k n : ℕ) → ahead procs start k n ≤ n
unfolding ahead
ahead-le procs start k zero = omega arith
ahead-le procs start k (suc n) = ground (arith, ahead-le procs start k n)

ahead_mono :
    (procs : ℕ → Process) (start k n : ℕ) → ahead procs start (suc k) n ≤ ahead procs start k n
unfolding ahead
ahead_mono procs start k zero = omega arith
ahead_mono procs start k (suc n) = ground (arith, ahead_mono procs start k n)

-- A PID that is taken leaves fewer ahead.
ahead_drops :
    (procs : ℕ → Process) (start k m n : ℕ)
    → m < n
    → rank start (procs m).pid ≡ k
    → ahead procs start (suc k) n < ahead procs start k n
unfolding ahead
ahead_drops procs start k m zero h e = absurd (omega arith)
ahead_drops procs start k m (suc n) h e = elim (Bool-cases (m == n)) [
  | inl q ↦
      let e' : rank start (procs n).pid ≡ k = rw (← (==_iff m n).0 q) e in
      ground (arith, ahead_mono procs start k n)
  | inr q ↦
      let lt : m < n = ground (arith, ==→ne m n q) in
      let below = ahead_drops procs start k m n lt e in ground arith
]

rank-next_id :
    (start q : ℕ)
    → 0 < start
    → start < u32
    → 0 < q
    → q < u32
    → rank start q + 2 < u32
    → rank start (next_id q) ≡ suc (rank start q)
rank-next_id start q hs ls hq lq room = ground arith

next_id_range : (q : ℕ) → 0 < next_id q × (next_id q < u32)
next_id_range q = ground arith

-- A PID that the table does not have.
pub record IsFree (s : Scheduler) (pid : ℕ) : Type 0 where
  pub nonzero : 0 < pid
  pub small : pid < u32
  pub absent : (k : ℕ) → k < s.process_count → (s.processes k).pid ≢ pid

module _ {s : Scheduler} (v : IsValid s) where
  unique_pid-IsFree :
      (fuel q : ℕ)
      → 0 < q
      → q < u32
      → rank s.next_pid q + fuel + 2 < u32
      → ahead s.processes s.next_pid (rank s.next_pid q) s.process_count < fuel
      → (pid : ℕ) × (unique_pid s fuel q ≡ some pid) × IsFree s pid
  unfolding unique_pid
  unique_pid-IsFree zero q hq lq room h = absurd (omega arith)
  unique_pid-IsFree (suc n) q hq lq room h =
      elim (Option-cases (find_pid s.processes s.process_count 0 q)) [
        | inl miss ↦
            let seen = get_process_by_pid-find v q ∙ miss in
            (
              q,
              rw (seen, unique_pid),
              record {
                nonzero = hq;
                small = lq;
                absent = λ k hk.
                    find_pid-none s.processes s.process_count 0 q k miss (omega arith)
                      (omega arith);
              },
            )
        | inr (m, hit) ↦
            let seen = get_process_by_pid-find v q ∙ hit in
            let (lo, hi, e) = find_pid-some s.processes s.process_count 0 q m hit in
            let next = rank-next_id s.next_pid q v.next_pos v.next_lt hq lq (omega arith) in
            let fewer =
              ahead_drops s.processes s.next_pid (rank s.next_pid q) m s.process_count (omega arith)
                (ap (rank s.next_pid) e) in
            let range = next_id_range q in
            let (pid, found, free) =
              unique_pid-IsFree n (next_id q) range.0 range.1 (omega (arith, next))
                (rw next (omega (arith, fewer))) in
            (pid, rw (seen, unique_pid) found, free)
      ]

  -- `process_count + 1` rounds are enough.
  pub unique_pid_total :
      (pid : ℕ) × (unique_pid s (s.process_count + 1) s.next_pid ≡ some pid) × IsFree s pid
  unique_pid_total =
      let start : rank s.next_pid s.next_pid ≡ 0 = ground arith in
      unique_pid-IsFree (s.process_count + 1) s.next_pid v.next_pos v.next_lt
        (omega (arith, start, v.fits))
        (omega
          (arith, ahead-le s.processes s.next_pid (rank s.next_pid s.next_pid) s.process_count))

to_int-pos : (pid : ℕ) → pid < 2 ^ 31 → to_int pid ≡ pos pid
to_int-pos pid lt = ground (arith, lt)

-- Only the greatest number below 2 ^ 32 becomes -1.
to_int-minus_one : (pid : ℕ) → pid < u32 → (to_int pid ≡ minus_one) ↔ (pid ≡ 2 ^ 32 - 1)
to_int-minus_one pid lt = ((λ e. ground (arith, lt, e)), (λ e. ground (arith, e)))

-- What a successful `create_process` returns, and what it does to the table.
pub record Added (entry_point priority stack_base : ℕ) (s : Scheduler) (pid : ℕ) (result : ℤ)
    (t : Scheduler) : Type 0 where
  pub returned : result ≡ to_int pid
  pub positive : pid < 2 ^ 31 → result ≡ pos pid
  pub as_failure : (result ≡ minus_one) ↔ (pid ≡ 2 ^ 32 - 1)
  pub free : IsFree s pid
  pub count : t.process_count ≡ s.process_count + 1
  pub current : t.current_process ≡ s.current_process
  pub named : (t.processes s.process_count).pid ≡ pid
  pub waits : (t.processes s.process_count).state ≡ ready
  pub with_priority : (t.processes s.process_count).priority ≡ priority
  pub with_entry : (t.processes s.process_count).entry_point ≡ entry_point
  pub full_slice : (t.processes s.process_count).time_slice ≡ default_time_slice
  pub stack_top : (t.processes s.process_count).stack_ptr ≡ stack_base + kernel_stack_size - 14 * 8
  pub others : (i : ℕ) → i < s.process_count → t.processes i ≡ s.processes i

module _ (a : Allocator) where
  open a use {Heap, kmalloc}

  pid-setup : (p : Process) (h : Heap) → (setup_initial_stack a p h).0.pid ≡ p.pid
  unfolding setup_initial_stack
  pid-setup p h = refl

  -- The slot that `create_process` fills.
  abbrev pub created : (pid entry_point priority cr3 stack_base : ℕ) → Scheduler → Heap → Process
  created pid entry_point priority cr3 stack_base s h =
      (setup_initial_stack a
        (new_process a (s.processes s.process_count) pid priority entry_point stack_base cr3) h).0

  pid-created :
      (pid entry_point priority cr3 stack_base : ℕ) (s : Scheduler) (h : Heap)
      → (created pid entry_point priority cr3 stack_base s h).pid ≡ pid
  unfolding setup_initial_stack new_process
  pid-created pid entry_point priority cr3 stack_base s h = refl

  admit-IsValid :
      (pid entry_point priority cr3 stack_base : ℕ) {s : Scheduler} (h : Heap)
      → IsValid s
      → s.process_count < max_process_count
      → IsFree s pid
      → IsValid (admit a pid entry_point priority cr3 stack_base s h).1
  unfolding admit
  admit-IsValid pid entry_point priority cr3 stack_base {s} h v room free = record {
    up = v.up;
    nonempty = omega arith;
    fits = omega arith;
    current_in = omega (arith, v.current_in);
    kernel_first = rw (ne→== 0 s.process_count (omega (arith, v.nonempty))) v.kernel_first;
    pid_lt = λ i hi. pid_lt i hi;
    unique = λ i j hi hj e. unique i j hi hj e;
    next_pos = (next_id_range pid).0;
    next_lt = (next_id_range pid).1;
  }
    where
      p : Process
      p = created pid entry_point priority cr3 stack_base s h

      is_new : p.pid ≡ pid
      is_new = pid-created pid entry_point priority cr3 stack_base s h

      pid_lt :
          (i : ℕ) → i < s.process_count + 1 → (update s.processes s.process_count p i).pid < u32
      pid_lt i hi = elim (Bool-cases (i == s.process_count)) [
        | inl q ↦ rw (q, is_new) free.small
        | inr q ↦ rw q (v.pid_lt i (omega (arith, ==→ne i s.process_count q)))
      ]

      unique :
          (i j : ℕ)
          → i < s.process_count + 1
          → j < s.process_count + 1
          → (update s.processes s.process_count p i).pid
            ≡ (update s.processes s.process_count p j).pid
          → i ≡ j
      unique i j hi hj e = elim (Bool-cases (i == s.process_count)) [
        | inl q ↦ elim (Bool-cases (j == s.process_count)) [
          | inl r ↦ (==_iff i s.process_count).0 q ∙ sym ((==_iff j s.process_count).0 r)
          | inr r ↦ absurd (
              free.absent j (omega (arith, ==→ne j s.process_count r))
                (sym (rw (q, r) at e) ∙ is_new))
        ]
        | inr q ↦ elim (Bool-cases (j == s.process_count)) [
          | inl r ↦
              absurd (
                free.absent i (omega (arith, ==→ne i s.process_count q))
                  ((rw (q, r) at e) ∙ is_new))
          | inr r ↦
              v.unique i j (omega (arith, ==→ne i s.process_count q))
                (omega (arith, ==→ne j s.process_count r)) (rw (q, r) at e)
        ]
      ]

  create_process-none :
      (entry_point priority cr3 : ℕ) (s : Scheduler) (h : Heap)
      → (not s.initialized || leb max_process_count s.process_count || entry_point == 0) ≡ true
      → create_process a entry_point priority cr3 s h ≡ (minus_one, s, h)
  unfolding create_process
  create_process-none entry_point priority cr3 s h e = rw e

  create_process-no_stack :
      (entry_point priority cr3 : ℕ) (s : Scheduler) (h : Heap)
      → (not s.initialized || leb max_process_count s.process_count || entry_point == 0) ≡ false
      → ((kmalloc kernel_stack_size h).0 == 0) ≡ true
      → create_process a entry_point priority cr3 s h
        ≡ (minus_one, s, (kmalloc kernel_stack_size h).1)
  unfolding create_process
  create_process-no_stack entry_point priority cr3 s h e z = rw (e, z)

  create_process-admit :
      (entry_point priority cr3 pid : ℕ) (s : Scheduler) (h : Heap)
      → (not s.initialized || leb max_process_count s.process_count || entry_point == 0) ≡ false
      → ((kmalloc kernel_stack_size h).0 == 0) ≡ false
      → unique_pid s (s.process_count + 1) s.next_pid ≡ some pid
      → create_process a entry_point priority cr3 s h
        ≡ admit a pid entry_point priority cr3
            (kmalloc kernel_stack_size h).0
            s
            (kmalloc kernel_stack_size h).1
  unfolding create_process
  create_process-admit entry_point priority cr3 pid s h e z found = rw (e, z, found, create_process)

  -- Whatever its arguments and whatever the allocator answers, `create_process` keeps a valid table
  -- valid: in particular PIDs stay distinct, and the table does not overflow.
  pub create_process-IsValid :
      (entry_point priority cr3 : ℕ) {s : Scheduler} (h : Heap)
      → IsValid s
      → IsValid (create_process a entry_point priority cr3 s h).1
  create_process-IsValid entry_point priority cr3 {s} h v =
      elim (Bool-cases
        (not s.initialized || leb max_process_count s.process_count || entry_point == 0)) [
          | inl e ↦ rw (create_process-none entry_point priority cr3 s h e) v
          | inr e ↦ elim (Bool-cases ((kmalloc kernel_stack_size h).0 == 0)) [
            | inl z ↦ rw (create_process-no_stack entry_point priority cr3 s h e z) v
            | inr z ↦
                let (pid, found, free) = unique_pid_total v in
                rw (create_process-admit entry_point priority cr3 pid s h e z found) (
                  admit-IsValid pid entry_point priority cr3 (kmalloc kernel_stack_size h).0
                    (kmalloc kernel_stack_size h).1 v (ground arith) free)
          ]
        ]

  push_words-ptr :
      (stack : ℕ) (ws : List ℕ) (h : Heap)
      → stack < 2 ^ 64
      → 8 * length ws ≤ stack
      → (push_words a stack ws h).0 ≡ stack - 8 * length ws
  unfolding push_words
  push_words-ptr stack [] h lt room = omega arith
  push_words-ptr stack (w ∷ ws) h lt room = omega (
    arith,
    push_words-ptr ((stack + 2 ^ 64 - 8) % 2 ^ 64) ws
        (a.store64 ((stack + 2 ^ 64 - 8) % 2 ^ 64) w h) (omega arith) (omega arith),
  )

  setup-ptr :
      (p : Process) (h : Heap)
      → p.stack_base + kernel_stack_size < 2 ^ 64
      → (setup_initial_stack a p h).0.stack_ptr ≡ p.stack_base + kernel_stack_size - 14 * 8
  unfolding setup_initial_stack
  setup-ptr p h lt = omega (
    arith,
    push_words-ptr ((p.stack_base + kernel_stack_size) % 2 ^ 64) (initial_frame p.entry_point) h
        (omega arith) (omega arith),
  )

  admit-Added :
      (pid entry_point priority cr3 stack_base : ℕ) {s : Scheduler} (h : Heap)
      → IsFree s pid
      → stack_base + kernel_stack_size < 2 ^ 64
      → let (result, s', h') = admit a pid entry_point priority cr3 stack_base s h in
        Added entry_point priority stack_base s pid result s'
  unfolding admit setup_initial_stack new_process
  admit-Added pid entry_point priority cr3 stack_base {s} h free small = record {
    returned = refl;
    positive = λ lt. to_int-pos pid lt;
    as_failure = to_int-minus_one pid free.small;
    free = free;
    count = refl;
    current = refl;
    named = rw (eq→== s.process_count s.process_count refl);
    waits = rw (eq→== s.process_count s.process_count refl);
    with_priority = rw (eq→== s.process_count s.process_count refl);
    with_entry = rw (eq→== s.process_count s.process_count refl);
    full_slice = rw (eq→== s.process_count s.process_count refl);
    stack_top = rw (eq→== s.process_count s.process_count refl) (
        setup-ptr
          (new_process a (s.processes s.process_count) pid priority entry_point stack_base cr3) h
          small);
    others = λ i hi. rw (ne→== i s.process_count (omega arith));
  }

  -- In a valid table with room, for an entry point that is not null and with a stack from the
  -- allocator that lies below 2 ^ 64, `create_process` finds a PID that no process had, and adds at
  -- the end of the table one process with that PID, ready to run, with the given priority and entry
  -- point, a full slice, and the stack pointer 14 words below the top of its stack; the other
  -- processes and the current index stay as they were. It returns the PID as an `int`: the same
  -- number below 2 ^ 31, and -1, which stands for a failure, exactly if the PID is 2 ^ 32 - 1.
  pub create_process-adds :
      (entry_point priority cr3 : ℕ) {s : Scheduler} (h : Heap)
      → IsValid s
      → s.process_count < max_process_count
      → entry_point ≢ 0
      → (kmalloc kernel_stack_size h).0 ≢ 0
      → (kmalloc kernel_stack_size h).0 + kernel_stack_size < 2 ^ 64
      → let (result, s', h') = create_process a entry_point priority cr3 s h in
        (pid : ℕ) × Added entry_point priority (kmalloc kernel_stack_size h).0 s pid result s'
  create_process-adds entry_point priority cr3 {s} h v room entry stack small =
      let (pid, found, free) = unique_pid_total v in
      let open_table : (not s.initialized
            || leb max_process_count s.process_count
            || entry_point == 0)
          ≡ false =
        ground (arith, v.up) in
      (
        pid,
        rw
            (create_process-admit entry_point priority cr3 pid s h open_table (ne→== _ 0 stack)
              found)
            (admit-Added pid entry_point priority cr3 (kmalloc kernel_stack_size h).0
              (kmalloc kernel_stack_size h).1 free small),
      )
