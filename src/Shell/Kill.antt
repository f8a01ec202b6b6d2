-- ===== src/Shell/Kill.antt =====
-- What the commands `kill` and `nice` do to the process table.
use binbows.Base.{
  ℕ, zero, suc, ◌+◌, ◌-◌, ◌*◌, ◌%◌, ◌^◌, ◌≤◌, ◌<◌, ◌≡◌, ◌≢◌, refl, sym, ap, ◌∙◌, inl, inr, true,
  false, Option, none, some, arith, ltb, ◌==◌, if◌then◌else◌, Bool-cases, Option-cases, ==_iff,
  ==→ne, not-ltb, eq→==, ne→==,
}
use binbows.Allocator.{Allocator}
use binbows.Sched.Table.{IsValid, lookup}
use binbows.Sched.Terminate.{terminate-IsValid, terminate-lookup}
use binbows.Sched.{Scheduler, set_process, get_process_by_pid, terminate_process}
use binbows.Shell.Commands.{
  Reply, quiet, missing_argument, kernel_process, invalid_pid, invalid_priority, parse_number,
  cmd_kill, renice, cmd_nice, priority_of,
}
use binbows.Shell.Text.{Buffer, IsLength}
use binbows.Util.Chars.{isdigit, negate}
use binbows.Util.Compare.{lt_length}
use binbows.Util.Decimal.{Digits}
use binbows.Util.Digits.{quotient, quotient-suc, quotient-le}
use binbows.Util.Number.{digit_char}

-- The loop ends.
parse_number-some :
    (fuel i n len : ℕ) (arg : Buffer)
    → IsLength arg len
    → i ≤ len
    → len < i + fuel
    → (r : Option ℕ) × (parse_number fuel i n arg ≡ some r)
unfolding parse_number
parse_number-some zero i n len arg h le enough = absurd (omega arith)
parse_number-some (suc f) i n len arg h le enough = elim (Bool-cases (arg i == 0)) [
  | inl e ↦ rw e (some n, refl)
  | inr e ↦
      let lt = lt_length len i arg h le (==→ne (arg i) 0 e) in
      elim (Bool-cases (isdigit (arg i))) [
        | inl d ↦
            rw (e, d)
              (parse_number-some f (suc i) ((n * 10 + (arg i - 48)) % 2 ^ 32) len arg h lt
                (omega arith))
        | inr d ↦ rw (e, d) (none, refl)
      ]
]

-- Decimal text is read as its number.
parse_number-Digits :
    (r fuel i acc n : ℕ) (arg : Buffer)
    → acc ≡ quotient n 10 r
    → Digits r n i arg
    → r < fuel
    → n < 2 ^ 32
    → parse_number fuel i acc arg ≡ some (some n)
unfolding parse_number
parse_number-Digits r zero i acc n arg e d h bound = absurd (omega arith)
parse_number-Digits zero (suc f) i acc n arg e (_, end) h bound =
    let at : (arg i == 0) ≡ true = eq→== (arg i) 0 (ap arg (omega arith) ∙ end) in
    rw at (ap (λ x. some (some x)) e)
parse_number-Digits (suc r) (suc f) i acc n arg e (digits, end) h bound =
    let q = quotient n 10 r in
    let first : arg i ≡ digit_char (q % 10) = ap arg (omega arith) ∙ digits 0 r (omega arith) in
    let digit : arg i ≡ q % 10 + 48 = ground (arith, first) in
    let more : isdigit (arg i) ≡ true = ground (arith, digit) in
    let inside : (arg i == 0) ≡ false = ground (arith, digit) in
    let step : (acc * 10 + (arg i - 48)) % 2 ^ 32 ≡ q =
      omega (arith, e, quotient-suc n 10 r, digit, quotient-le n r) in
    rw (inside, more)
      (parse_number-Digits r f (suc i) ((acc * 10 + (arg i - 48)) % 2 ^ 32) n arg step
        (
          (λ k m hk. ap arg (omega arith) ∙ digits (suc k) m (omega (arith, hk))),
          ap arg (omega arith) ∙ end,
        )
        (omega arith) bound)

module _ (a : Allocator) where
  open a use {Heap}

  -- Whatever the arguments are, `kill` returns and leaves a valid table valid; the process with PID 0
  -- stays in front.
  pub cmd_kill-IsValid :
      (fuel argc len : ℕ) (args : ℕ → Buffer) {s : Scheduler} (h : Heap)
      → IsValid s
      → IsLength (args 1) len
      → len < fuel
      → (reply : Reply) × (s' : Scheduler) × (h' : Heap) × (cmd_kill a fuel argc args s h
          ≡ some (reply, s', h'))
        × IsValid s'
  unfolding cmd_kill
  cmd_kill-IsValid fuel argc len args {s} h v text enough = elim (Bool-cases (ltb argc 2)) [
    | inl e ↦ rw e (missing_argument, s, h, refl, v)
    | inr e ↦
        let (o, p) = parse_number-some fuel 0 0 len (args 1) text (omega arith) (omega arith) in
        elim (Option-cases o) [
          | inl none_read ↦ rw (e, p, none_read) (invalid_pid, s, h, refl, v)
          | inr (pid, read) ↦ elim (Bool-cases (pid == 0)) [
            | inl z ↦ rw (e, p, read, z) (kernel_process, s, h, refl, v)
            | inr z ↦
                let r = terminate_process a pid s h in
                rw (e, p, read, z) (quiet, r.0, r.1, refl, terminate-IsValid a pid h v)
          ]
        ]
  ]

  -- In a valid table, `kill` with the decimal text of a PID below 2 ^ 32 other than 0 as its
  -- argument says nothing and leaves no process with that PID, and every other PID names the same
  -- process as before.
  pub cmd_kill-lookup :
      (fuel argc len pid q : ℕ) (args : ℕ → Buffer) {s : Scheduler} (h : Heap)
      → IsValid s
      → 2 ≤ argc
      → Digits len pid 0 (args 1)
      → quotient pid 10 len ≡ 0
      → len < fuel
      → pid < 2 ^ 32
      → pid ≢ 0
      → (s' : Scheduler) × (h' : Heap) × (cmd_kill a fuel argc args s h ≡ some (quiet, s', h'))
        × (lookup s' q ≡ (if q == pid then none else lookup s q))
  unfolding cmd_kill
  cmd_kill-lookup fuel argc len pid q args {s} h v two d whole enough bound ne =
      let r = terminate_process a pid s h in
      rw
        (
          not-ltb argc 2 two,
          parse_number-Digits len fuel 0 0 pid (args 1) (sym whole) d enough bound,
          ne→== pid 0 ne,
        )
        (r.0, r.1, refl, terminate-lookup a pid q h v ne)

-- Table entries are found by their PID, and keep it.
renice-pid :
    (pid newp : ℕ) (s : Scheduler) (i : ℕ)
    → ((renice pid newp s).1.processes i).pid ≡ (s.processes i).pid
unfolding renice
renice-pid pid newp s i = elim (Option-cases (get_process_by_pid s pid)) [
  | inl e ↦ rw (e, renice) refl
  | inr (k, e) ↦ elim (Bool-cases ((s.processes k).pid == 0)) [
    | inl z ↦ rw (e, renice, z) refl
    | inr z ↦ elim (Bool-cases (i == k)) [
      | inl q ↦ rw (e, renice, z, q) (ap (λ j. (s.processes j).pid) (sym ((==_iff i k).0 q)))
      | inr q ↦ rw (e, renice, z, q) refl
    ]
  ]
]

renice-IsValid : (pid newp : ℕ) {s : Scheduler} → IsValid s → IsValid (renice pid newp s).1
unfolding renice
renice-IsValid pid newp {s} v = elim (Option-cases (get_process_by_pid s pid)) [
  | inl e ↦ rw (e, renice) v
  | inr (k, e) ↦ elim (Bool-cases ((s.processes k).pid == 0)) [
    | inl z ↦ rw (e, renice, z) v
    | inr z ↦
        let same : (i : ℕ) → ((renice pid newp s).1.processes i).pid ≡ (s.processes i).pid =
          renice-pid pid newp s in
        let s' = set_process s k (record (s.processes k) { priority = priority_of newp }) in
        let pids : (i : ℕ) → (s'.processes i).pid ≡ (s.processes i).pid =
          rw (e, renice, z) at same in
        rw (e, renice, z)
          (record {
            up = v.up;
            nonempty = v.nonempty;
            fits = v.fits;
            current_in = v.current_in;
            kernel_first = pids 0 ∙ v.kernel_first;
            pid_lt = λ i h. rw (pids i) (v.pid_lt i h);
            unique = λ i j hi hj p. v.unique i j hi hj (sym (pids i) ∙ (p ∙ pids j));
            next_pos = v.next_pos;
            next_lt = v.next_lt;
          })
  ]
]

-- Whatever the arguments are, `nice` returns, leaves a valid table valid and every process its PID.
pub cmd_nice-IsValid :
    (fuel argc len1 len2 : ℕ) (args : ℕ → Buffer) {s : Scheduler}
    → IsValid s
    → IsLength (args 1) len1
    → IsLength (args 2) len2
    → len1 < fuel
    → len2 < fuel
    → (reply : Reply) × (s' : Scheduler) × (cmd_nice fuel argc args s ≡ some (reply, s'))
      × IsValid s'
      × ((i : ℕ) → (s'.processes i).pid ≡ (s.processes i).pid)
unfolding cmd_nice
cmd_nice-IsValid fuel argc len1 len2 args {s} v text1 text2 enough1 enough2 =
    elim (Bool-cases (ltb argc 3)) [
      | inl e ↦ rw e (missing_argument, s, refl, v, (λ i. refl))
      | inr e ↦
          let (o1, p1) =
            parse_number-some fuel 0 0 len1 (args 1) text1 (omega arith) (omega arith) in
          let start : ℕ = if args 2 0 == 45 then 1 else 0 in
          let (o2, p2) =
            parse_number-some fuel start 0 len2 (args 2) text2 (from len2 (args 2) text2)
              (omega arith) in
          elim (Option-cases o1) [
            | inl n1 ↦ rw (e, p1, n1) (invalid_pid, s, refl, v, (λ i. refl))
            | inr (pid, r1) ↦ elim (Option-cases o2) [
              | inl n2 ↦ rw (e, p1, r1, p2, n2) (invalid_priority, s, refl, v, (λ i. refl))
              | inr (n, r2) ↦
                  let newp : ℕ = if args 2 0 == 45 then negate n else n in
                  let r = renice pid newp s in
                  rw (e, p1, r1, p2, r2)
                    (r.0, r.1, refl, renice-IsValid pid newp v, renice-pid pid newp s)
            ]
          ]
    ]
  where
    from : (len : ℕ) (arg : Buffer) → IsLength arg len → (if arg 0 == 45 then 1 else 0) ≤ len
    from len arg h = elim (Bool-cases (arg 0 == 45)) [
      | inl q ↦ rw q (lt_length len 0 arg h (omega arith) (ground (arith, q)))
      | inr q ↦ rw q (omega arith)
    ]
