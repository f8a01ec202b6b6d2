-- ===== src/Sched/Table.antt =====
-- The process table of scheduler.c: its invariant, and the search for a PID.
use binbows.Base.{
  ℕ, zero, suc, ◌+◌, ◌≤◌, ◌<◌, ◌≡◌, ◌≢◌, refl, sym, ap, ◌∙◌, inl, inr, true, Option, none, some,
  arith, ◌==◌, Bool-cases, Option-cases, ==_iff,
}
use binbows.Sched.{
  Process, Scheduler, max_process_count, u32, find_pid, get_process_by_pid, is_running,
}

-- What holds of the table between two calls, once `scheduler_init` has run.
pub record IsValid (s : Scheduler) : Type 0 where
  pub up : s.initialized ≡ true
  pub nonempty : 0 < s.process_count
  pub fits : s.process_count ≤ max_process_count
  pub current_in : s.current_process < s.process_count
  pub kernel_first : (s.processes 0).pid ≡ 0
  pub pid_lt : (i : ℕ) → i < s.process_count → (s.processes i).pid < u32
  pub unique :
      (i j : ℕ)
      → i < s.process_count
      → j < s.process_count
      → (s.processes i).pid ≡ (s.processes j).pid
      → i ≡ j
  pub next_pos : 0 < s.next_pid
  pub next_lt : s.next_pid < u32

-- No process but the current one is marked as running.
abbrev pub OnlyCurrentRuns : Scheduler → Type 0
OnlyCurrentRuns s =
    (i : ℕ) → i < s.process_count → is_running (s.processes i).state ≡ true → i ≡ s.current_process

-- The process that a PID names, as the callers of `get_process_by_pid` see it.
abbrev pub lookup : Scheduler → ℕ → Option Process
lookup s pid = elim (get_process_by_pid s pid) [ none ↦ none | some i ↦ some (s.processes i) ]

pub find_pid-some :
    (procs : ℕ → Process) (n i pid k : ℕ)
    → find_pid procs n i pid ≡ some k
    → (i ≤ k) × (k < i + n) × ((procs k).pid ≡ pid)
unfolding find_pid
find_pid-some procs zero i pid k h = absurd (cc)
find_pid-some procs (suc n) i pid k h = elim (Bool-cases ((procs i).pid == pid)) [
  | inl e ↦ ground arith
  | inr e ↦ ground (arith, find_pid-some procs n (suc i) pid k)
]

pub find_pid-none :
    (procs : ℕ → Process) (n i pid k : ℕ)
    → find_pid procs n i pid ≡ none
    → i ≤ k
    → k < i + n
    → (procs k).pid ≢ pid
unfolding find_pid
find_pid-none procs zero i pid k h lo hi e = absurd (omega arith)
find_pid-none procs (suc n) i pid k h lo hi e = elim (Bool-cases (i == k)) [
  | inl q ↦ let same : (procs i).pid ≡ pid = rw ((==_iff i k).0 q) e in ground arith
  | inr q ↦ ground (arith, find_pid-none procs n (suc i) pid k)
]

-- In a table without duplicates the search finds the one index that has the PID.
pub find_pid_unique :
    (procs : ℕ → Process) (n pid k : ℕ)
    → ((i j : ℕ) → i < n → j < n → (procs i).pid ≡ (procs j).pid → i ≡ j)
    → k < n
    → (procs k).pid ≡ pid
    → find_pid procs n 0 pid ≡ some k
find_pid_unique procs n pid k unique hk e = elim (Option-cases (find_pid procs n 0 pid)) [
  | inl q ↦ absurd (find_pid-none procs n 0 pid k q (omega arith) (omega arith) e)
  | inr (m, q) ↦
      let (lo, hi, e') = find_pid-some procs n 0 pid m q in
      q ∙ ap some (unique m k (omega arith) hk (e' ∙ sym e))
]

-- A search without a hit, stated for the whole table.
pub find_pid_absent :
    (procs : ℕ → Process) (n pid : ℕ)
    → ((k : ℕ) → k < n → (procs k).pid ≢ pid)
    → find_pid procs n 0 pid ≡ none
find_pid_absent procs n pid absent = elim (Option-cases (find_pid procs n 0 pid)) [
  | inl q ↦ q
  | inr (m, q) ↦
      let (lo, hi, e) = find_pid-some procs n 0 pid m q in absurd (absent m (omega arith) e)
]

module _ {s : Scheduler} (v : IsValid s) where
  pub get_process_by_pid-find :
      (pid : ℕ) → get_process_by_pid s pid ≡ find_pid s.processes s.process_count 0 pid
  unfolding get_process_by_pid
  get_process_by_pid-find pid = rw v.up

  pub lookup-at :
      (i : ℕ) → i < s.process_count → lookup s (s.processes i).pid ≡ some (s.processes i)
  lookup-at i h =
      let hit = find_pid_unique s.processes s.process_count _ i v.unique h refl in
      ground (arith, get_process_by_pid-find (s.processes i).pid)

  pub lookup-absent :
      (pid : ℕ) → ((k : ℕ) → k < s.process_count → (s.processes k).pid ≢ pid) → lookup s pid ≡ none
  lookup-absent pid h =
      let miss = find_pid_absent s.processes s.process_count pid h in
      ground (arith, get_process_by_pid-find pid)
