-- ===== src/Sched/Change.antt =====
-- `change_process` and `yield` of scheduler.c: what a tick and a switch do to the table.
use binbows.Base.{
  ℕ, zero, suc, ◌+◌, ◌-◌, ◌%◌, ◌≤◌, ◌<◌, ◌≡◌, ◌≢◌, refl, sym, ap, ◌∙◌, inl, inr, Bool, true, false,
  ◌&&◌, Option, none, some, arith, ltb, leb, ◌==◌, update, Bool-cases, Option-cases, ==_iff, ==→ne,
  ne→==,
}
use binbows.Sched.{
  Process, Scheduler, ready, running, is_ready, is_running, find_next_process, find_next_loop,
  charge_tick, switch_to, give_up, take_cpu, reschedule, change_process, Switch, stay, switch,
  set_process, default_time_slice, u32,
}
use binbows.Sched.Table.{IsValid, OnlyCurrentRuns}
use binbows.Sched.Pick.{IsReady, priority_of, visit, find_next_total, find_next-picks}

-- Only the running states, slices and the current index may differ between two tables.
pub record SameTable (s t : Scheduler) : Type 0 where
  pub flag : t.initialized ≡ s.initialized
  pub count : t.process_count ≡ s.process_count
  pub next : t.next_pid ≡ s.next_pid
  pub pids : (i : ℕ) → (t.processes i).pid ≡ (s.processes i).pid

IsValid-SameTable :
    {s t : Scheduler} → IsValid s → SameTable s t → t.current_process < t.process_count → IsValid t
IsValid-SameTable {s} {t} v same hc = record {
  up = same.flag ∙ v.up;
  nonempty = omega (arith, v.nonempty, same.count);
  fits = omega (arith, v.fits, same.count);
  current_in = hc;
  kernel_first = same.pids 0 ∙ v.kernel_first;
  pid_lt =
      λ i hi. let old = v.pid_lt i (omega (arith, same.count)) in omega (arith, same.pids i, old);
  unique = λ i j hi hj e.
      v.unique i j (omega (arith, same.count)) (omega (arith, same.count))
        (sym (same.pids i) ∙ e ∙ same.pids j);
  next_pos = omega (arith, v.next_pos, same.next);
  next_lt = omega (arith, v.next_lt, same.next);
}

-- A write to a slot that keeps its PID.
set-SameTable :
    (s : Scheduler) (i : ℕ) (p : Process)
    → p.pid ≡ (s.processes i).pid
    → SameTable s (set_process s i p)
set-SameTable s i p e = record {
  flag = refl;
  count = refl;
  next = refl;
  pids = λ j. elim (Bool-cases (j == i)) [
    | inl q ↦ rw q (e ∙ ap (λ k. (s.processes k).pid) (sym ((==_iff j i).0 q)))
    | inr q ↦ rw q
  ];
}

SameTable-refl : (s : Scheduler) → SameTable s s
SameTable-refl s = record { flag = refl; count = refl; next = refl; pids = λ i. refl }

SameTable-trans : {s t u : Scheduler} → SameTable s t → SameTable t u → SameTable s u
SameTable-trans a b = record {
  flag = b.flag ∙ a.flag;
  count = b.count ∙ a.count;
  next = b.next ∙ a.next;
  pids = λ i. b.pids i ∙ a.pids i;
}

switch_to-SameTable : (s : Scheduler) (next : ℕ) → SameTable s (switch_to s next).0
unfolding switch_to
switch_to-SameTable s next =
    let s1 = set_process s s.current_process (give_up (s.processes s.current_process)) in
    let first = set-SameTable s s.current_process (give_up (s.processes s.current_process)) refl in
    let second = set-SameTable s1 next (take_cpu (s1.processes next)) refl in
    record { flag = refl; count = refl; next = refl; pids = λ j. second.pids j ∙ first.pids j }

pid-charge_tick : (p : Process) → (charge_tick p).pid ≡ p.pid
unfolding charge_tick
pid-charge_tick p = ground arith

state-charge_tick : (p : Process) → (charge_tick p).state ≡ p.state
unfolding charge_tick
state-charge_tick p = ground arith

-- What every outcome of `reschedule` has.
record Kept (s t : Scheduler) : Type 0 where
  same : SameTable s t
  inside : t.current_process < t.process_count
  alone : OnlyCurrentRuns s → OnlyCurrentRuns t

set-Kept :
    (s : Scheduler) (p : Process)
    → s.current_process < s.process_count
    → p.pid ≡ (s.processes s.current_process).pid
    → Kept s (set_process s s.current_process p)
set-Kept s p hc e = record {
  same = set-SameTable s s.current_process p e;
  inside = hc;
  alone = λ only i hi r. elim (Bool-cases (i == s.current_process)) [
    | inl q ↦ (==_iff i s.current_process).0 q
    | inr q ↦ only i hi (rw q at r)
  ];
}

give_up-not_running : (p : Process) → is_running (give_up p).state ≡ false
give_up-not_running p = elim (Bool-cases (is_running p.state)) [ inl e ↦ rw e | inr e ↦ rw e e ]

switch_to-alone :
    (s : Scheduler) (next i : ℕ)
    → OnlyCurrentRuns s
    → i < s.process_count
    → is_running ((switch_to s next).0.processes i).state ≡ true
    → i ≡ next
unfolding switch_to
switch_to-alone s next i only hi r = elim (Bool-cases (i == next)) [
  | inl q ↦ (==_iff i next).0 q
  | inr q ↦ elim (Bool-cases (i == s.current_process)) [
    | inl c ↦
        let r' : is_running (give_up (s.processes s.current_process)).state ≡ true =
          rw (q, c) at r in
        let f = give_up-not_running (s.processes s.current_process) in absurd (cc)
    | inr c ↦ let r' = rw (q, c) at r in absurd (==→ne i s.current_process c (only i hi r'))
  ]
]

switch_to-Kept :
    (s : Scheduler) (next : ℕ)
    → next < s.process_count
    → s.current_process < s.process_count
    → Kept s (switch_to s next).0
unfolding switch_to
switch_to-Kept s next hn hc = record {
  same = switch_to-SameTable s next;
  inside = hn;
  alone = λ only i hi r. switch_to-alone s next i only hi r;
}

reschedule-Kept : {s : Scheduler} → IsValid s → Kept s (reschedule s).0
unfolding reschedule
reschedule-Kept {s} v =
    let (b, hb, e) = find_next_total v in
    rw (e, reschedule)
      (elim (Bool-cases (b == s.current_process)) [
        | inl q ↦ rw q (set-Kept s _ v.current_in refl)
        | inr q ↦ rw q (switch_to-Kept s b hb v.current_in)
      ])

Kept-trans : {s t u : Scheduler} → Kept s t → Kept t u → Kept s u
Kept-trans a b = record {
  same = SameTable-trans a.same b.same;
  inside = b.inside;
  alone = λ only. b.alone (a.alone only);
}

IsValid-Kept : {s t : Scheduler} → IsValid s → Kept s t → IsValid t
IsValid-Kept v k = IsValid-SameTable v k.same k.inside

abbrev ticked : Scheduler → Scheduler
ticked s = set_process s s.current_process (charge_tick (s.processes s.current_process))

-- The three ways through `change_process`.
abbrev keeps_cpu : Scheduler → Bool
keeps_cpu s =
    let p = charge_tick (s.processes s.current_process) in ltb 0 p.time_slice && is_running p.state

change_process_alone : (s : Scheduler) → leb s.process_count 1 ≡ true → change_process s ≡ (s, stay)
unfolding change_process
change_process_alone s one = ground arith

change_process_tick :
    (s : Scheduler)
    → s.initialized ≡ true
    → leb s.process_count 1 ≡ false
    → keeps_cpu s ≡ true
    → change_process s ≡ (ticked s, stay)
unfolding change_process
change_process_tick s up more keeps = simp (up, more, keeps)

change_process_over :
    (s : Scheduler)
    → s.initialized ≡ true
    → leb s.process_count 1 ≡ false
    → keeps_cpu s ≡ false
    → change_process s ≡ reschedule (ticked s)
unfolding change_process
change_process_over s up more over = simp (up, more, over)

ticked-Kept : {s : Scheduler} → IsValid s → Kept s (ticked s)
ticked-Kept {s} v =
    set-Kept s (charge_tick (s.processes s.current_process)) v.current_in (pid-charge_tick _)

change_process-Kept : {s : Scheduler} → IsValid s → Kept s (change_process s).0
change_process-Kept {s} v = elim (Bool-cases (leb s.process_count 1)) [
  | inl one ↦
      rw (change_process_alone s one)
        (record { same = SameTable-refl s; inside = v.current_in; alone = λ only. only })
  | inr more ↦ elim (Bool-cases (keeps_cpu s)) [
    | inl keeps ↦ rw (change_process_tick s v.up more keeps) (ticked-Kept v)
    | inr over ↦
        rw (change_process_over s v.up more over)
          (Kept-trans (ticked-Kept v) (reschedule-Kept (IsValid-Kept v (ticked-Kept v))))
  ]
]

-- `change_process` keeps a valid table valid, and leaves the PIDs, the count and the next PID
-- alone.
pub change_process-IsValid :
    {s : Scheduler} → IsValid s → IsValid (change_process s).0 × SameTable s (change_process s).0
change_process-IsValid v = let k = change_process-Kept v in (IsValid-Kept v k, k.same)

-- In a valid table where no process but the current one is marked as running, that is so after
-- `change_process`.
pub change_process-OnlyCurrentRuns :
    {s : Scheduler} → IsValid s → OnlyCurrentRuns s → OnlyCurrentRuns (change_process s).0
change_process-OnlyCurrentRuns v = (change_process-Kept v).alone

update_field :
    {A : Type 0} (f : Process → A) (s : Scheduler) (p : Process) (idx : ℕ)
    → f p ≡ f (s.processes s.current_process)
    → f (update s.processes s.current_process p idx) ≡ f (s.processes idx)
update_field f s p idx e = elim (Bool-cases (idx == s.current_process)) [
  | inl q ↦ rw q (e ∙ ap (λ k. f (s.processes k)) (sym ((==_iff idx s.current_process).0 q)))
  | inr q ↦ rw q
]

find_next_loop-same :
    (s : Scheduler) (p : Process) (n i : ℕ) (best : Option ℕ) (bp : ℕ)
    → p.state ≡ (s.processes s.current_process).state
    → p.priority ≡ (s.processes s.current_process).priority
    → find_next_loop (set_process s s.current_process p) n i best bp ≡ find_next_loop s n i best bp
unfolding find_next_loop
find_next_loop-same s p zero i best bp es ep = refl
find_next_loop-same s p (suc n) i none bp es ep =
    let idx = (s.current_process + 1 + i) % s.process_count in
    rw (
      find_next_loop-same s p n (suc i),
      update_field (λ q. q.state) s p idx es,
      update_field (λ q. q.priority) s p idx ep,
    )
find_next_loop-same s p (suc n) i (some b) bp es ep =
    let idx = (s.current_process + 1 + i) % s.process_count in
    rw (
      find_next_loop-same s p n (suc i),
      update_field (λ q. q.state) s p idx es,
      update_field (λ q. q.priority) s p idx ep,
    )

priority-charge_tick : (p : Process) → (charge_tick p).priority ≡ p.priority
unfolding charge_tick
priority-charge_tick p = ground arith

-- Charging the tick does not change the choice.
find_next-ticked : (s : Scheduler) → find_next_process (ticked s) ≡ find_next_process s
unfolding find_next_process
find_next-ticked s =
    let p = s.processes s.current_process in
    let loop =
      find_next_loop-same s (charge_tick p) s.process_count 0 none (u32 - 1) (state-charge_tick p)
        (priority-charge_tick p) in
    let runs =
      ap is_running
        (update_field (λ q. q.state) s (charge_tick p) s.current_process (state-charge_tick p)) in
    elim (Option-cases (find_next_loop s s.process_count 0 none (u32 - 1))) [
      | inl e ↦ rw (loop, e, find_next_process) (ground (arith, runs))
      | inr (b, e) ↦ rw (loop, e, find_next_process)
    ]

-- What a switch from `from` to `next` does: the states, the slices, and what is left alone.
pub record Switched (s : Scheduler) (next : ℕ) (r : Scheduler × Switch) : Type 0 where
  pub cpu : r.1 ≡ switch s.current_process next (s.processes next).pml4_phys
  pub current : r.0.current_process ≡ next
  pub runs : (r.0.processes next).state ≡ running
  pub waits : (r.0.processes s.current_process).state ≡ ready
  pub slices :
      ((r.0.processes next).time_slice ≡ default_time_slice)
      × ((r.0.processes s.current_process).time_slice ≡ default_time_slice)
  pub others : (i : ℕ) → i ≢ next → i ≢ s.current_process → r.0.processes i ≡ s.processes i

over_when : (s : Scheduler) → (s.processes s.current_process).time_slice ≤ 1 → keeps_cpu s ≡ false
unfolding charge_tick
over_when s h = ground arith

switch_to-Switched :
    (s : Scheduler) (next : ℕ)
    → next ≢ s.current_process
    → (s.processes s.current_process).state ≡ running
    → Switched s next (switch_to (ticked s) next)
unfolding switch_to charge_tick
switch_to-Switched s next ne run = record {
  cpu = rw (ne→== next s.current_process ne);
  current = refl;
  runs = ground arith;
  waits = ground arith;
  slices = ground arith;
  others = λ i a b. ground arith;
}

reschedule-switch :
    (s : Scheduler) (next : ℕ)
    → find_next_process s ≡ some next
    → next ≢ s.current_process
    → reschedule s ≡ switch_to s next
unfolding reschedule
reschedule-switch s next e ne = rw (e, reschedule, ne→== next s.current_process ne)

-- In a valid table whose running process is at the last tick of its slice or past it, with another
-- process ready, `change_process` switches to a ready process with the smallest priority number: it
-- becomes the current and running process, the old one becomes ready, both get a full slice, the
-- CPU is switched between exactly these two with the new one's page table, and no other process
-- changes.
pub change_process-switches :
    (j : ℕ) {s : Scheduler}
    → IsValid s
    → (s.processes s.current_process).state ≡ running
    → (s.processes s.current_process).time_slice ≤ 1
    → j < s.process_count
    → IsReady s j
    → (next : ℕ) × IsReady s next
      × ((i : ℕ) → i < s.process_count → IsReady s i → priority_of s next ≤ priority_of s i)
      × Switched s next (change_process s)
change_process-switches j {s} v run slice hj rj =
    let (r, picked) = find_next-picks v j hj rj in
    let busy : is_ready (s.processes s.current_process).state ≡ false = rw run in
    let other : visit s r ≢ s.current_process =
      λ e. let now = rw e at picked.is_ready_now in absurd (cc) in
    let two : leb s.process_count 1 ≡ false = several j hj rj busy in
    (
      visit s r,
      picked.is_ready_now,
      picked.best,
      rw
          (
            change_process_over s v.up two (over_when s slice),
            reschedule-switch (ticked s) (visit s r) (find_next-ticked s ∙ picked.chosen) other,
          )
          (switch_to-Switched s (visit s r) other run),
    )
  where
    several :
        (j : ℕ)
        → j < s.process_count
        → IsReady s j
        → is_ready (s.processes s.current_process).state ≡ false
        → leb s.process_count 1 ≡ false
    several j hj rj busy = elim (Bool-cases (j == s.current_process)) [
      | inl e ↦ let r' = rw ((==_iff j s.current_process).0 e) at rj in absurd (cc)
      | inr ne ↦ ground (arith, ==→ne j s.current_process ne, v.current_in)
    ]
