-- ===== src/Shell/Words.antt =====
-- What `parse_args` of cmd_parser.c finds in a line.
use binbows.Base.{
  ℕ, zero, suc, ◌+◌, ◌≤◌, ◌<◌, ◌≡◌, refl, inl, inr, true, some, arith, ltb, ◌==◌, update,
  Bool-cases, ==_iff, ==→ne, ltb→lt,
}
use binbows.Shell.Parser.{is_blank, copy_arg, parse_args_loop, parse_args}
use binbows.Shell.Text.{Buffer, IsLength}
use binbows.Shell.Word.{copy_arg-Copied, skip_blanks-Skipped, AreWords, FromHere, Copied-IsWord}

parse_args_loop-AreWords :
    (fuel rounds p len argc : ℕ) (command : Buffer) (args : ℕ → Buffer)
    → IsLength command len
    → len < fuel
    → p ≤ len
    → argc + rounds ≡ 8
    → AreWords command len args argc
    → FromHere command len p argc (parse_args_loop fuel rounds p command args argc)
unfolding parse_args_loop
parse_args_loop-AreWords fuel zero p len argc command args h enough le count words =
    (args, argc, refl, omega arith, omega arith, words, (λ e lt. absurd (omega (arith, lt))))
parse_args_loop-AreWords fuel (suc n) p len argc command args h enough le count words =
    elim (Bool-cases (command p == 0)) [
      | inl e ↦
          let end : len ≤ p = elim (Bool-cases (ltb p len)) [
            | inl lt ↦ absurd (h.0 p (ltb→lt p len lt) ((==_iff (command p) 0).0 e))
            | inr ge ↦ ground (arith, ge)
          ] in
          rw e (
            args,
            argc,
            refl,
            omega arith,
            omega arith,
            words,
            (λ z lt k a b. absurd (omega (arith, a, b))),
          )
      | inr e ↦
          let s = skip_blanks-Skipped fuel p len command h le (omega arith) in
          let q = s.place in
          elim (Bool-cases (command q == 0)) [
            | inl f ↦
                let end : len ≤ q = elim (Bool-cases (ltb q len)) [
                  | inl lt ↦ absurd (h.0 q (ltb→lt q len lt) ((==_iff (command q) 0).0 f))
                  | inr ge ↦ ground (arith, ge)
                ] in
                rw (e, s.result, f)
                  (
                    args,
                    argc,
                    refl,
                    omega arith,
                    omega arith,
                    words,
                    (λ z lt k a b. s.blanks k a (omega (arith, b))),
                  )
            | inr f ↦
                let c = copy_arg-Copied 31 q 0 len command (args argc) h s.hi in
                let r = copy_arg 31 q 0 command (args argc) in
                let arg = update r.2 r.1 0 in
                let word =
                  Copied-IsWord command len q (args argc) c (==→ne (command q) 0 f) s.stop in
                let (args', argc', eq, b, m, words', _) =
                  parse_args_loop-AreWords fuel n r.0 len (suc argc) command (update args argc arg)
                    h enough (omega (arith, c.at, c.inside)) (omega arith)
                    (λ i hi. elim (Bool-cases (i == argc)) [
                      | inl w ↦ rw w word
                      | inr w ↦ rw w (words i (omega (arith, hi, ==→ne i argc w)))
                    ]) in
                rw (e, s.result, f)
                  (args', argc', eq, b, omega arith, words', (λ z lt. absurd (omega (arith, z))))
          ]
    ]

-- For a terminated line shorter than the fuel, `parse_args` finds at most 8 arguments, each of them
-- terminated within its 32 bytes and made of 1 to 31 characters that stand in the line one after
-- the other and are not blank; it finds none only if the line is blank.
pub parse_args-AreWords :
    (fuel len : ℕ) (command : Buffer) (args : ℕ → Buffer)
    → IsLength command len
    → len < fuel
    → (args' : ℕ → Buffer) × (argc : ℕ) × (parse_args fuel command args ≡ some (args', argc))
      × (argc ≤ 8)
      × AreWords command len args' argc
      × (argc ≡ 0 → (k : ℕ) → k < len → is_blank (command k) ≡ true)
unfolding parse_args
parse_args-AreWords fuel len command args h enough =
    let (args', argc, e, b, _, words, blank) =
      parse_args_loop-AreWords fuel 8 0 len 0 command args h enough (omega arith) refl
        (λ i hi. absurd (omega (arith, hi))) in
    (args', argc, e, b, words, (λ z k hk. blank z (omega arith) k (omega arith) hk))
