-- ===== src/Sched/Pick.antt =====
-- `find_next_process` of scheduler.c: the search for the process to run.
use binbows.Base.{
  ℕ, zero, suc, ◌+◌, ◌-◌, ◌%◌, ◌≤◌, ◌<◌, ◌≡◌, refl, sym, ap, ◌∙◌, inl, inr, Bool, true, false, ◌&&◌,
  Option, none, some, arith, ltb, ◌==◌, if◌then◌else◌, Bool-cases, ==_iff, ==→ne,
}
use native.Mathlib.Nat.{mod-eq_of_lt}
use binbows.Sched.{Scheduler, is_ready, is_running, find_next_loop, find_next_process, u32}
use binbows.Sched.Table.{IsValid}

-- The index that the loop visits in round `i`: one place further round the table each time, and
-- the current process last.
abbrev pub visit : Scheduler → ℕ → ℕ
visit s i = (s.current_process + 1 + i) % s.process_count

abbrev pub IsReady : Scheduler → ℕ → Type 0
IsReady s idx = is_ready (s.processes idx).state ≡ true

abbrev pub priority_of : Scheduler → ℕ → ℕ
priority_of s idx = (s.processes idx).priority

-- What is known of the candidate once the rounds below `i` are done.
abbrev Best : Scheduler → ℕ → Option ℕ → ℕ → Type 0
Best s i none best_priority = (k : ℕ) → k < i → is_ready (s.processes (visit s k)).state ≡ false
Best s i (some b) best_priority =
    (r : ℕ) × (r < i)
    × (b ≡ visit s r)
    × IsReady s b
    × (best_priority ≡ priority_of s b)
    × ((k : ℕ) → k < r → IsReady s (visit s k) → best_priority < priority_of s (visit s k))
    × ((k : ℕ) → k < i → IsReady s (visit s k) → best_priority ≤ priority_of s (visit s k))

extend : (P : ℕ → Type 0) (i : ℕ) → ((k : ℕ) → k < i → P k) → P i → (k : ℕ) → k < suc i → P k
extend P i below at k h = elim (Bool-cases (k == i)) [
  | inl e ↦ rw ((==_iff k i).0 e) at
  | inr ne ↦ below k (omega (arith, ==→ne k i ne))
]

not_both : (b : Bool) {A : Type 0} → b ≡ false → b ≡ true → A
not_both b f t = absurd (cc)

-- One round keeps what is known.
abbrev better : Scheduler → ℕ → Option ℕ → ℕ → Bool
better s i best best_priority =
    is_ready (s.processes (visit s i)).state
    && elim best [ none ↦ true | some _ ↦ ltb (priority_of s (visit s i)) best_priority ]

Best-replace :
    (s : Scheduler) (i : ℕ) (best : Option ℕ) (best_priority : ℕ)
    → Best s i best best_priority
    → better s i best best_priority ≡ true
    → Best s (suc i) (some (visit s i)) (priority_of s (visit s i))
Best-replace s i none bp none_ready b =
    let now : IsReady s (visit s i) = ground arith in
    (
      i,
      omega arith,
      refl,
      now,
      refl,
      (λ k lt r. not_both _ (none_ready k lt) r),
      extend (λ k. IsReady s (visit s k) → priority_of s (visit s i) ≤ priority_of s (visit s k)) i
          (λ k lt r. not_both _ (none_ready k lt) r) (λ _. omega arith),
    )
Best-replace s i (some best) bp (r, hr, eb, rb, ep, before, all) b =
    let now : IsReady s (visit s i) = ground arith in
    let lower : priority_of s (visit s i) < bp = ground arith in
    (
      i,
      omega arith,
      refl,
      now,
      refl,
      (λ k lt rk. omega (arith, all k lt rk, lower)),
      extend (λ k. IsReady s (visit s k) → priority_of s (visit s i) ≤ priority_of s (visit s k)) i
          (λ k lt rk. omega (arith, all k lt rk, lower)) (λ _. omega arith),
    )

Best-keep :
    (s : Scheduler) (i : ℕ) (best : Option ℕ) (best_priority : ℕ)
    → Best s i best best_priority
    → better s i best best_priority ≡ false
    → Best s (suc i) best best_priority
Best-keep s i none bp none_ready b =
    extend (λ k. is_ready (s.processes (visit s k)).state ≡ false) i none_ready (ground arith)
Best-keep s i (some best) bp (r, hr, eb, rb, ep, before, all) b = (
  r,
  omega arith,
  eb,
  rb,
  ep,
  before,
  extend (λ k. IsReady s (visit s k) → bp ≤ priority_of s (visit s k)) i all (λ rk. ground arith),
)

find_next_loop-Best :
    (s : Scheduler) (n i : ℕ) (best : Option ℕ) (best_priority : ℕ)
    → Best s i best best_priority
    → (bp : ℕ) × Best s (i + n) (find_next_loop s n i best best_priority) bp
unfolding find_next_loop
find_next_loop-Best s zero i best bp h = let e : i + zero ≡ i = omega arith in (bp, rw e h)
find_next_loop-Best s (suc n) i best bp h =
    let e : i + suc n ≡ suc i + n = omega arith in
    rw e (elim (Bool-cases (better s i best bp)) [
      | inl b ↦ rw b (
          find_next_loop-Best s n (suc i) (some (visit s i)) (priority_of s (visit s i))
            (Best-replace s i best bp h b))
      | inr b ↦ rw b (find_next_loop-Best s n (suc i) best bp (Best-keep s i best bp h b))
    ])

mod_wrap : (x n : ℕ) → x < n → (x + n) % n ≡ x
mod_wrap x n h = grind arith

-- The loop visits every index: `visit` has an inverse.
visit-onto :
    (s : Scheduler) (idx : ℕ)
    → s.current_process < s.process_count
    → idx < s.process_count
    → (k : ℕ) × (k < s.process_count) × (visit s k ≡ idx)
visit-onto s idx hc hi = elim (Bool-cases (ltb s.current_process idx)) [
  | inl after ↦
      let e : s.current_process + 1 + (idx - s.current_process - 1) ≡ idx = ground arith in
      (idx - s.current_process - 1, ground arith, rw e (mod-eq_of_lt hi))
  | inr before ↦
      let e : s.current_process + 1 + (idx + s.process_count - s.current_process - 1)
          ≡ idx + s.process_count =
        ground arith in
      (
        idx + s.process_count - s.current_process - 1,
        ground arith,
        rw e (mod_wrap idx s.process_count hi),
      )
]

-- What the loop of `find_next_process` returns, started with no candidate.
outcome :
    (s : Scheduler)
    → (bp : ℕ) × Best s s.process_count (find_next_loop s s.process_count 0 none (u32 - 1)) bp
outcome s =
    let e : 0 + s.process_count ≡ s.process_count = omega arith in
    rw e at (find_next_loop-Best s s.process_count 0 none (u32 - 1) (λ k h. absurd (omega arith)))

-- Round `r` of the search found the process to run.
pub record Picked (s : Scheduler) (r : ℕ) : Type 0 where
  pub in_table : r < s.process_count
  pub chosen : find_next_process s ≡ some (visit s r)
  pub is_ready_now : IsReady s (visit s r)
  pub earlier_worse :
      (k : ℕ)
      → k < r
      → IsReady s (visit s k)
      → priority_of s (visit s r) < priority_of s (visit s k)
  pub best :
      (j : ℕ) → j < s.process_count → IsReady s j → priority_of s (visit s r) ≤ priority_of s j

module _ {s : Scheduler} (v : IsValid s) where
  every :
      (P : ℕ → Type 0)
      → ((k : ℕ) → k < s.process_count → P (visit s k))
      → (j : ℕ) → j < s.process_count
      → P j
  every P h j hj = let (k, hk, e) = visit-onto s j v.current_in hj in rw (← e) (h k hk)

  search-some :
      (b : ℕ)
      → find_next_loop s s.process_count 0 none (u32 - 1) ≡ some b
      → b < s.process_count
      → find_next_process s ≡ some b
  unfolding find_next_process
  search-some b e lt = ground (arith, v.nonempty)

  search-none :
      find_next_loop s s.process_count 0 none (u32 - 1) ≡ none
      → find_next_process s
        ≡ some (if is_running (s.processes s.current_process).state then s.current_process else 0)
  unfolding find_next_process
  search-none e = ground (arith, v.nonempty, v.current_in)

  Best-Picked :
      (o : Option ℕ) (bp j : ℕ)
      → find_next_loop s s.process_count 0 none (u32 - 1) ≡ o
      → Best s s.process_count o bp
      → j < s.process_count
      → IsReady s j
      → (r : ℕ) × Picked s r
  Best-Picked none bp j e none_ready hj rj =
      not_both _ (every (λ i. is_ready (s.processes i).state ≡ false) none_ready j hj) rj
  Best-Picked (some b) bp j e (r, hr, eb, rb, ep, before, all) hj rj = (
    r,
    record {
      in_table = hr;
      chosen = search-some b e (rw eb (omega (arith, v.nonempty))) ∙ ap some eb;
      is_ready_now = rw (← eb) rb;
      earlier_worse = λ k hk rk. let w = before k hk rk in rw (← eb) (omega (arith, w, ep));
      best =
          every (λ i. IsReady s i → priority_of s (visit s r) ≤ priority_of s i)
            λ k hk rk.
              let w = all k hk rk in
              let same : priority_of s (visit s r) ≡ bp = rw (← eb) (sym ep) in
              omega (arith, w, same);
    },
  )

  -- In a valid table, if some process is ready, `find_next_process` returns a ready process with
  -- the smallest priority number of all the ready ones; among those it is the first one met on the
  -- way round the table that begins behind the current process.
  pub find_next-picks : (j : ℕ) → j < s.process_count → IsReady s j → (r : ℕ) × Picked s r
  find_next-picks j hj rj =
      let (bp, h) = outcome s in
      Best-Picked (find_next_loop s s.process_count 0 none (u32 - 1)) bp j refl h hj rj

  -- In a valid table without a ready process, `find_next_process` returns the current process if
  -- that is running, and process 0 if not.
  pub find_next-idle :
      ((j : ℕ) → j < s.process_count → is_ready (s.processes j).state ≡ false)
      → find_next_process s
        ≡ some (if is_running (s.processes s.current_process).state then s.current_process else 0)
  find_next-idle idle = let (bp, h) = outcome s in go _ bp refl h
    where
      go :
          (o : Option ℕ) (bp : ℕ)
          → find_next_loop s s.process_count 0 none (u32 - 1) ≡ o
          → Best s s.process_count o bp
          → find_next_process s
            ≡ some
                (if is_running (s.processes s.current_process).state then s.current_process else 0)
      go none bp e h = search-none e
      go (some b) bp e (r, hr, eb, rb, ep, before, all) =
          not_both _ (idle b (rw eb (omega (arith, v.nonempty)))) rb

  -- It always returns a process of the table.
  pub find_next_total : (b : ℕ) × (b < s.process_count) × (find_next_process s ≡ some b)
  find_next_total = let (bp, h) = outcome s in go _ bp refl h
    where
      go :
          (o : Option ℕ) (bp : ℕ)
          → find_next_loop s s.process_count 0 none (u32 - 1) ≡ o
          → Best s s.process_count o bp
          → (b : ℕ) × (b < s.process_count) × (find_next_process s ≡ some b)
      go none bp e h = (
        if is_running (s.processes s.current_process).state then s.current_process else 0,
        ground (arith, v.nonempty, v.current_in),
        search-none e,
      )
      go (some b) bp e (r, hr, eb, rb, ep, before, all) =
          let lt : b < s.process_count = rw eb (omega (arith, v.nonempty)) in
          (b, lt, search-some b e lt)
