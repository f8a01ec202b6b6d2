-- ===== src/Sched/Terminate.antt =====
-- `terminate_process` of scheduler.c: what it does to the table.
use binbows.Base.{
  ℕ, zero, suc, ◌+◌, ◌-◌, ◌≤◌, ◌<◌, ◌≡◌, ◌≢◌, sym, ap, ◌∙◌, inl, inr, ◌&&◌, none, some, arith, ltb,
  leb, ◌==◌, if◌then◌else◌, update, Bool-cases, Option-cases, ==_iff, ==→ne, lt→ltb,
}
use binbows.Allocator.{Allocator}
use binbows.Sched.{Process, Scheduler, u32, find_pid, shift_down, remove_at, terminate_process}
use binbows.Sched.Table.{
  IsValid, lookup, lookup-at, lookup-absent, find_pid-some, find_pid-none, find_pid_unique,
}

-- Where each index of the shifted table comes from.
pub shift_down_lem :
    (procs : ℕ → Process) (n j k : ℕ)
    → shift_down procs n j k ≡ (if leb j k && ltb k (j + n) then procs (suc k) else procs k)
unfolding shift_down
shift_down_lem procs zero j k = ground arith
shift_down_lem procs (suc n) j k =
    ground (arith, shift_down_lem (update procs j (procs (suc j))) n (suc j) k)

-- The index that the process at an index of the new table had in the old one.
abbrev pub origin : ℕ → ℕ → ℕ
origin i k = if ltb k i then k else suc k

pub remove_at-process :
    (s : Scheduler) (i k : ℕ)
    → i < s.process_count
    → k < s.process_count - 1
    → (remove_at s i).processes k ≡ s.processes (origin i k)
unfolding remove_at
remove_at-process s i k hi hk = shift_down_lem _ (s.process_count - 1 - i) i k ∙ ground arith

origin_lt : (i k count : ℕ) → k < count - 1 → origin i k < count
origin_lt i k count h = ground arith

origin_ne : (i k : ℕ) → origin i k ≢ i
origin_ne i k = ground arith

-- Every index but the removed one has a place in the new table.
origin_onto :
    (i m count : ℕ) → i < count → m < count → m ≢ i → (k : ℕ) × (k < count - 1) × (origin i k ≡ m)
origin_onto i m count hi hm ne = elim (Bool-cases (ltb m i)) [
  | inl lt ↦ (m, ground arith, ground arith)
  | inr ge ↦ (m - 1, ground arith, ground arith)
]

origin_injective : (i j k : ℕ) → origin i j ≡ origin i k → j ≡ k
origin_injective i j k h = ground arith

module _ {s : Scheduler} (v : IsValid s) (i : ℕ) (hi : i < s.process_count)
    (user : (s.processes i).pid ≢ 0) where
  at : (k : ℕ) → k < s.process_count - 1 → (remove_at s i).processes k ≡ s.processes (origin i k)
  at k hk = remove_at-process s i k hi hk

  -- the kernel process stays in front
  pub positive : 0 < i
  positive = elim (Bool-cases (i == 0)) [
    | inl e ↦ absurd (user (ap (λ k. (s.processes k).pid) ((==_iff i 0).0 e) ∙ v.kernel_first))
    | inr e ↦ ground arith
  ]

  remove_at-pid_lt : (k : ℕ) → k < s.process_count - 1 → ((remove_at s i).processes k).pid < u32
  remove_at-pid_lt k hk = rw (at k hk) (v.pid_lt (origin i k) (origin_lt i k _ hk))

  remove_at_unique :
      (j k : ℕ)
      → j < s.process_count - 1
      → k < s.process_count - 1
      → ((remove_at s i).processes j).pid ≡ ((remove_at s i).processes k).pid
      → j ≡ k
  remove_at_unique j k hj hk e = origin_injective i j k (
      v.unique (origin i j) (origin i k) (origin_lt i j _ hj) (origin_lt i k _ hk)
        (ap (λ p. p.pid) (sym (at j hj)) ∙ e ∙ ap (λ p. p.pid) (at k hk)))

  remove_at-kernel : ((remove_at s i).processes 0).pid ≡ 0
  remove_at-kernel = rw (at 0 (omega (arith, positive)), lt→ltb 0 i positive) v.kernel_first

  pub remove_at-IsValid : IsValid (remove_at s i)
  unfolding remove_at
  remove_at-IsValid = record {
    up = v.up;
    nonempty = omega (arith, positive);
    fits = omega (arith, v.fits);
    current_in = ground (arith, positive, v.current_in);
    kernel_first = remove_at-kernel;
    pid_lt = remove_at-pid_lt;
    unique = remove_at_unique;
    next_pos = v.next_pos;
    next_lt = v.next_lt;
  }

  -- a PID other than the removed one names the same process as before
  pub remove_at-lookup : (q : ℕ) → q ≢ (s.processes i).pid → lookup (remove_at s i) q ≡ lookup s q
  unfolding remove_at
  remove_at-lookup q ne = elim (Option-cases (find_pid s.processes s.process_count 0 q)) [
    | inl miss ↦ absent (λ k. find_pid-none s.processes s.process_count 0 q k miss)
    | inr (m, hit) ↦
        let (lo, hi', e) = find_pid-some s.processes s.process_count 0 q m hit in
        present m hi' e (λ same. ne (sym e ∙ ap (λ k. (s.processes k).pid) same))
  ]
    where
      absent :
          ((k : ℕ) → 0 ≤ k → k < 0 + s.process_count → (s.processes k).pid ≢ q)
          → lookup (remove_at s i) q ≡ lookup s q
      absent none_has =
          lookup-absent remove_at-IsValid q (λ k hk.
            rw (at k hk) (none_has (origin i k) (omega arith) (omega (arith, origin_lt i k _ hk))))
          ∙ sym (lookup-absent v q (λ k hk. none_has k (omega arith) (omega arith)))

      present :
          (m : ℕ)
          → m < 0 + s.process_count
          → (s.processes m).pid ≡ q
          → m ≢ i
          → lookup (remove_at s i) q ≡ lookup s q
      present m hm e other =
          let (k, hk, from) = origin_onto i m s.process_count hi (omega arith) other in
          let same = at k hk ∙ ap s.processes from in
          ap (lookup (remove_at s i)) (sym e ∙ ap (λ p. p.pid) (sym same))
          ∙ lookup-at remove_at-IsValid k hk
          ∙ ap some same
          ∙ sym (lookup-at v m (omega arith))
          ∙ ap (lookup s) e

  pub remove_at-lookup_self : lookup (remove_at s i) (s.processes i).pid ≡ none
  unfolding remove_at
  remove_at-lookup_self = lookup-absent remove_at-IsValid _ λ k hk e.
      origin_ne i k
        (v.unique (origin i k) i (origin_lt i k _ hk) hi (ap (λ p. p.pid) (sym (at k hk)) ∙ e))

  -- the current process stays current, unless it is last in the table or is the removed one
  pub remove_at-current :
      s.current_process ≢ i
      → s.current_process + 1 < s.process_count
      → (remove_at s i).processes (remove_at s i).current_process ≡ s.processes s.current_process
  remove_at-current other inner =
      let (hk, from) = kept in at (remove_at s i).current_process hk ∙ ap s.processes from
    where
      kept :
          ((remove_at s i).current_process < s.process_count - 1)
          × (origin i (remove_at s i).current_process ≡ s.current_process)
      kept = unfold remove_at in (ground arith, ground arith)

  -- the current process is last: it stays in the table, and process 0 becomes current
  pub remove_at-loses :
      i < s.current_process
      → s.current_process + 1 ≡ s.process_count
      → ((remove_at s i).current_process ≡ 0)
        × ((remove_at s i).processes (s.current_process - 1) ≡ s.processes s.current_process)
  remove_at-loses before last = (
    unfold remove_at in (ground arith),
    at (s.current_process - 1) (omega arith) ∙ ap s.processes (ground arith),
  )

module _ (a : Allocator) where
  open a use {Heap}

  -- `terminate_process` on a live PID is `remove_at` and a `kfree`.
  terminate-remove_at :
      (pid : ℕ) {s : Scheduler} (h : Heap)
      → IsValid s
      → pid ≢ 0
      → (i : ℕ) → find_pid s.processes s.process_count 0 pid ≡ some i
      → (terminate_process a pid s h).0 ≡ remove_at s i
  unfolding terminate_process
  terminate-remove_at pid {s} h v user i hit = ground (arith, v.up)

  terminate-absent :
      (pid : ℕ) (s : Scheduler) (h : Heap)
      → find_pid s.processes s.process_count 0 pid ≡ none
      → (terminate_process a pid s h).0 ≡ s
  unfolding terminate_process
  terminate-absent pid s h miss = ground arith

  terminate-kernel : (s : Scheduler) (h : Heap) → terminate_process a 0 s h ≡ (s, h)
  unfolding terminate_process
  terminate-kernel s h = ground arith

  -- Terminating a process, whatever the PID, keeps a valid table valid: the slots below the count
  -- hold processes with distinct PIDs, the kernel's first, and the current index is one of them.
  pub terminate-IsValid :
      (pid : ℕ) {s : Scheduler} (h : Heap) → IsValid s → IsValid (terminate_process a pid s h).0
  terminate-IsValid pid {s} h v = elim (Bool-cases (pid == 0)) [
    | inl e ↦ rw ((==_iff pid 0).0 e, ap (λ r. r.0) (terminate-kernel s h)) v
    | inr user ↦ elim (Option-cases (find_pid s.processes s.process_count 0 pid)) [
      | inl miss ↦ rw (terminate-absent pid s h miss) v
      | inr (i, hit) ↦
          let (lo, hi, e) = find_pid-some s.processes s.process_count 0 pid i hit in
          rw (terminate-remove_at pid h v (==→ne pid 0 user) i hit)
            (remove_at-IsValid v i (omega arith) (λ z. ==→ne pid 0 user (sym e ∙ z)))
    ]
  ]

  -- In a valid table, after `terminate_process(pid)` for a PID that is not the kernel's, no process
  -- has that PID, and every other PID names the same process as before.
  pub terminate-lookup :
      (pid q : ℕ) {s : Scheduler} (h : Heap)
      → IsValid s
      → pid ≢ 0
      → lookup (terminate_process a pid s h).0 q ≡ (if q == pid then none else lookup s q)
  terminate-lookup pid q {s} h v user =
      elim (Option-cases (find_pid s.processes s.process_count 0 pid)) [
        | inl miss ↦ rw (terminate-absent pid s h miss) (absent miss)
        | inr (i, hit) ↦
            let (lo, hi, e) = find_pid-some s.processes s.process_count 0 pid i hit in
            rw (terminate-remove_at pid h v user i hit)
              (removed i (omega arith) e (λ z. user (sym e ∙ z)))
      ]
    where
      absent :
          find_pid s.processes s.process_count 0 pid ≡ none
          → lookup s q ≡ (if q == pid then none else lookup s q)
      absent miss = elim (Bool-cases (q == pid)) [
        | inl e ↦ rw e (
            ap (lookup s) ((==_iff q pid).0 e)
            ∙ lookup-absent v pid (λ k hk.
              find_pid-none s.processes s.process_count 0 pid k miss (omega arith) (omega arith)))
        | inr ne ↦ rw ne
      ]

      removed :
          (i : ℕ)
          → i < s.process_count
          → (s.processes i).pid ≡ pid
          → (s.processes i).pid ≢ 0
          → lookup (remove_at s i) q ≡ (if q == pid then none else lookup s q)
      removed i hi e u = elim (Bool-cases (q == pid)) [
        | inl same ↦ rw same (
            ap (lookup (remove_at s i)) ((==_iff q pid).0 same ∙ sym e)
            ∙ remove_at-lookup_self v i hi u)
        | inr ne ↦ rw ne (remove_at-lookup v i hi u q (λ z. ==→ne q pid ne (z ∙ e)))
      ]

  -- In a valid table, when the current process is neither the terminated one, which is not the
  -- kernel's, nor the last of the table, it is the current process afterwards too.
  pub terminate-current :
      (pid : ℕ) {s : Scheduler} (h : Heap)
      → IsValid s
      → pid ≢ 0
      → (s.processes s.current_process).pid ≢ pid
      → s.current_process + 1 < s.process_count
      → let s' = (terminate_process a pid s h).0 in
        s'.processes s'.current_process ≡ s.processes s.current_process
  terminate-current pid {s} h v user other inner =
      elim (Option-cases (find_pid s.processes s.process_count 0 pid)) [
        | inl miss ↦ rw (terminate-absent pid s h miss)
        | inr (i, hit) ↦
            let (lo, hi, e) = find_pid-some s.processes s.process_count 0 pid i hit in
            rw (terminate-remove_at pid h v user i hit) (
              remove_at-current v i (omega arith) (λ z. user (sym e ∙ z))
                (λ same. other (ap (λ k. (s.processes k).pid) same ∙ e)) inner)
      ]

  -- In a valid table, when the current process is the last and a process before it other than the
  -- kernel's is terminated, the current index becomes 0 while the process that was current stays in
  -- the table one place further down: `current_process` no longer names it.
  pub terminate_loses_current :
      (pid i : ℕ) {s : Scheduler} (h : Heap)
      → IsValid s
      → pid ≢ 0
      → i < s.current_process
      → (s.processes i).pid ≡ pid
      → s.current_process + 1 ≡ s.process_count
      → let s' = (terminate_process a pid s h).0 in
        (s'.current_process ≡ 0)
        × (s'.processes (s.current_process - 1) ≡ s.processes s.current_process)
        × (s'.current_process ≢ s.current_process - 1)
  terminate_loses_current pid i {s} h v user before e last =
      let hit = find_pid_unique s.processes s.process_count pid i v.unique (omega arith) e in
      let (zeroed, moved) = remove_at-loses v i (omega arith) (λ z. user (sym e ∙ z)) before last in
      let pos = positive v i (omega arith) (λ z. user (sym e ∙ z)) in
      rw (terminate-remove_at pid h v user i hit) (zeroed, moved, omega (arith, zeroed, pos))
