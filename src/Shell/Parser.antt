-- ===== src/Shell/Parser.antt =====
-- The command parser of the shell: kernel/src/kernel/shell/cmd_parser.c. The table of commands with
-- their handlers is a parameter; the line is at most `fuel` characters long. `none` is a
-- run past the fuel, or a handler that does not return.
use binbows.Base.{
  ℕ, zero, suc, ◌-◌, Bool, true, false, ◌||◌, Option, none, some, List, [], ◌∷◌, ◌==◌,
  if◌then◌else◌, update,
}
use binbows.Shell.Line.{ShellState, shell_print_prompt, shell_redraw_input}
use binbows.Shell.Screen.{Screen}
use binbows.Shell.Text.{Buffer}
use binbows.Util.Chars.{skip_blanks}
use binbows.Util.Compare.{strcmp}
use binbows.Util.Memory.{Order, same}

abbrev pub max_args : ℕ
max_args = 8

abbrev pub max_arg_length : ℕ
max_arg_length = 32

abbrev pub is_blank : ℕ → Bool
is_blank c = c == 32 || c == 9

-- The inner loop: `room` is `MAX_ARG_LENGTH - 1 - j`. The place in the command, `j` and the argument.
unfoldable pub copy_arg : (room p j : ℕ) → (command arg : Buffer) → ℕ × ℕ × Buffer
copy_arg zero p j command arg = (p, j, arg)
copy_arg (suc n) p j command arg =
    let rest = copy_arg n (suc p) (suc j) command (update arg j (command p)) in
    if command p == 0 || is_blank (command p) then (p, j, arg) else rest

-- The arguments and their number; `none` is a run past the fuel.
abbrev pub Parsed : Type 0
Parsed = (ℕ → Buffer) × ℕ

-- The outer loop: `rounds` is `MAX_ARGS - argc`.
unfoldable pub parse_args_loop :
    (fuel rounds p : ℕ) → (command : Buffer) → (ℕ → Buffer) → (argc : ℕ) → Option Parsed
parse_args_loop fuel zero p command args argc = some (args, argc)
parse_args_loop fuel (suc n) p command args argc =
    let rest : Option Parsed = elim (skip_blanks fuel p command) [
      | none ↦ none
      | some q ↦
          let (r, j, arg) = copy_arg (max_arg_length - 1) q 0 command (args argc) in
          let again =
            parse_args_loop fuel n r command (update args argc (update arg j 0)) (suc argc) in
          if command q == 0 then some (args, argc) else again
    ] in
    if command p == 0 then some (args, argc) else rest

unfoldable pub parse_args : (fuel : ℕ) → (command : Buffer) → (ℕ → Buffer) → Option Parsed
parse_args fuel command args = parse_args_loop fuel max_args 0 command args 0

-- `shell_command_t`: a name and a handler, which takes `argc` and `args` and does what it does to the
-- shell and the screen; `none` is a handler that does not return, such as that of `pause`, which waits
-- for a key inside the keyboard's interrupt. The list ends where the name is NULL.
abbrev pub Command : Screen → Type 0
Command sc = Buffer × (ℕ → (ℕ → Buffer) → ShellState → sc.Fb → Option (ShellState × sc.Fb))

abbrev pub is_same : Order → Bool
is_same same = true
is_same _ = false

-- `while (cmd->name && strcmp(cmd->name, args[0]) != 0)`: `some none` is the end of the table.
unfoldable pub find_command :
    {A : Type 0} → (fuel : ℕ) → List (Buffer × A) → (name : Buffer) → Option (Option A)
find_command fuel [] name = some none
find_command fuel ((entry, handler) ∷ commands) name =
    let rest = find_command fuel commands name in
    elim (strcmp fuel entry name) [
      | none ↦ none
      | some r ↦ if is_same r then some (some handler) else rest
    ]

-- "exit"
abbrev pub exit_text : Buffer
exit_text = update (update (update (update (λ i. 0) 0 101) 1 120) 2 105) 3 116

module _ (sc : Screen) (commands : List (Command sc)) (unknown_command : sc.Fb → sc.Fb)
    (fuel : ℕ) where
  -- `command_buffer[0] = '\0'`, the prompt and the empty line
  abbrev pub next_line : ShellState → sc.Fb → ShellState × sc.Fb
  next_line s fb =
      let (s', fb') =
        shell_print_prompt sc (record s { command_buffer = update s.command_buffer 0 0 }) fb in
      (s', shell_redraw_input sc s' fb')

  -- What is left to do once a handler has run: `exit` leaves the line as it is.
  abbrev pub after_command : (name : Buffer) → ShellState × sc.Fb → Option (ShellState × sc.Fb)
  after_command name (s, fb) = elim (strcmp fuel name exit_text) [
    | none ↦ none
    | some r ↦ some (if is_same r then (s, fb) else next_line s fb)
  ]

  -- The handler that is found, or the two messages
  abbrev pub run_command :
      (argc : ℕ) → (ℕ → Buffer) → ShellState → sc.Fb → Option (ShellState × sc.Fb)
  run_command argc args s fb = elim (find_command fuel commands (args 0)) [
    | none ↦ none
    | some none ↦ after_command (args 0) (s, unknown_command fb)
    | some (some handler) ↦ elim (handler argc args s fb) [
      | none ↦ none
      | some done ↦ after_command (args 0) done
    ]
  ]

  -- `args` is not initialized: what it holds is a parameter.
  unfoldable pub parse_command : (ℕ → Buffer) → ShellState → sc.Fb → Option (ShellState × sc.Fb)
  parse_command args s fb =
      if s.command_buffer 0 == 0
      then some (s, fb)
      else (elim (parse_args fuel s.command_buffer args) [
        | none ↦ none
        | some (args', argc) ↦
            if argc == 0 then some (next_line s fb) else run_command argc args' s fb
      ])
