-- ===== src/Shell/Dispatch.antt =====
-- `parse_command` of cmd_parser.c on a table of commands: that it returns, and what it keeps.
use binbows.Base.{
  ℕ, ◌≤◌, ◌<◌, ◌≡◌, refl, ◌⊎◌, inl, inr, Option, none, some, List, [], ◌∷◌, arith, ◌==◌, Bool-cases,
  ==→ne, All,
}
use binbows.Shell.Line.{ShellState}
use binbows.Shell.Parser.{
  Command, is_same, find_command, exit_text, next_line, after_command, run_command, parse_command,
}
use binbows.Shell.Screen.{Screen}
use binbows.Shell.Text.{Buffer, IsLength, strlen-some}
use binbows.Shell.Valid.{IsValid}
use binbows.Shell.Word.{IsWord}
use binbows.Shell.Words.{parse_args-AreWords}
use binbows.Util.Compare.{strcmp-same}

exit_text-IsLength : IsLength exit_text 4
exit_text-IsLength = ((λ j h. ground (arith, h)), refl)

IsWord-IsLength :
    {command : Buffer} {len : ℕ} {arg : Buffer} → (w : IsWord command len arg) → IsLength arg w.size
IsWord-IsLength w = (w.full, w.ended)

module _ (sc : Screen) where
  open sc use {Fb}

  -- A result that is there, and well-formed
  abbrev pub Fine : Option (ShellState × Fb) → Type 0
  Fine r = (s' : ShellState) × (fb' : Fb) × (r ≡ some (s', fb')) × IsValid s'

  -- A command of the table: a terminated name below the fuel, and a handler that returns and keeps
  -- the shell well-formed
  pub record IsCommand (fuel : ℕ) (c : Command sc) : Type 0 where
    pub name_length : ℕ
    pub name_ended : IsLength c.0 name_length
    pub name_lt : name_length < fuel
    pub returns :
        (argc : ℕ) (args : ℕ → Buffer) (s : ShellState) (fb : Fb)
        → IsValid s
        → Fine (c.1 argc args s fb)

  -- The search returns: the end of the table, or one of its handlers
  find_command-some :
      (fuel m : ℕ) (commands : List (Command sc)) (name : Buffer)
      → IsLength name m
      → All (IsCommand fuel) commands
      → (find_command fuel commands name ≡ some none)
        ⊎ ((c : Command sc) × IsCommand fuel c
            × (find_command fuel commands name ≡ some (some c.1)))
  unfolding find_command
  find_command-some fuel m [] name h all = inl refl
  find_command-some fuel m ((entry, handler) ∷ commands) name h (ok, rest) =
      let (r, e, _) = strcmp-same fuel ok.name_length m entry name ok.name_ended h ok.name_lt in
      elim (Bool-cases (is_same r)) [
        | inl f ↦ rw (find_command, e, f) (inr ((entry, handler), ok, refl))
        | inr f ↦ rw (find_command, e, f) (find_command-some fuel m commands name h rest)
      ]

  module _ (commands : List (Command sc)) (unknown_command : Fb → Fb) (fuel : ℕ) where
    next_line-IsValid :
        {s : ShellState} (fb : Fb)
        → IsValid s
        → IsValid (next_line sc commands unknown_command fuel s fb).0
    next_line-IsValid fb v = record {
      cursor_in = v.cursor_in;
      line_in = v.line_in;
      ended = v.ended;
      entry_ended = v.entry_ended;
    }

    after_command-Fine :
        (name : Buffer) (m : ℕ) {s : ShellState} (fb : Fb)
        → IsLength name m
        → m < fuel
        → IsValid s
        → Fine (after_command sc commands unknown_command fuel name (s, fb))
    after_command-Fine name m {s} fb h lt v =
        let (r, e, _) = strcmp-same fuel m 4 name exit_text h exit_text-IsLength lt in
        elim (Bool-cases (is_same r)) [
          | inl f ↦ rw (after_command, e, f) (_, _, refl, v)
          | inr f ↦ rw (after_command, e, f) (_, _, refl, next_line-IsValid fb v)
        ]

    run_command-Fine :
        (argc m : ℕ) (args : ℕ → Buffer) {s : ShellState} (fb : Fb)
        → All (IsCommand fuel) commands
        → IsLength (args 0) m
        → m < fuel
        → IsValid s
        → Fine (run_command sc commands unknown_command fuel argc args s fb)
    run_command-Fine argc m args {s} fb all h lt v =
        elim (find_command-some fuel m commands (args 0) h all) [
          | inl e ↦ rw (run_command, e) (after_command-Fine (args 0) m (unknown_command fb) h lt v)
          | inr (c, ok, e) ↦
              let (s', fb', er, v') = ok.returns argc args s fb v in
              rw (run_command, e, er) (after_command-Fine (args 0) m fb' h lt v')
        ]

    -- With a command in its buffer that ends within it, `parse_command` returns and keeps the shell
    -- well-formed, if the handlers do.
    pub parse_command-Fine :
        (args : ℕ → Buffer) {s : ShellState} (fb : Fb)
        → All (IsCommand fuel) commands
        → 256 ≤ fuel
        → s.command_buffer 255 ≡ 0
        → IsValid s
        → Fine (parse_command sc commands unknown_command fuel args s fb)
    unfolding parse_command
    parse_command-Fine args {s} fb all enough ended v =
        elim (Bool-cases (s.command_buffer 0 == 0)) [
          | inl e ↦ rw e (_, _, refl, v)
          | inr e ↦
              let (len, _, h, le) = strlen-some 256 255 s.command_buffer (omega arith) ended in
              let (args', argc, ep, _, words, _) =
                parse_args-AreWords fuel len s.command_buffer args h (omega (arith, le, enough)) in
              elim (Bool-cases (argc == 0)) [
                | inl z ↦ rw (e, ep, z) (_, _, refl, next_line-IsValid fb v)
                | inr z ↦
                    let w = words 0 (omega (arith, ==→ne argc 0 z)) in
                    rw (e, ep, z)
                      (run_command-Fine argc w.size args' fb all (IsWord-IsLength w)
                        (omega (arith, w.fits, enough)) v)
              ]
        ]
