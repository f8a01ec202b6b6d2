-- ===== src/Shell/Input.antt =====
-- `input` and the history of shell.c. `none` is a string copy that runs past its buffer.
use binbows.Base.{
  ℕ, ◌+◌, ◌-◌, ◌%◌, Bool, true, false, ◌||◌, Option, none, some, ltb, ◌==◌, if◌then◌else◌, update,
}
use binbows.Shell.Text.{Buffer, strlen, strcpy, strncpy}
use binbows.Shell.Screen.{Screen}
use binbows.Shell.Line.{
  ShellState, max_input_length, max_history_entries, shell_redraw_input, shell_newline,
  shell_print_prompt, insert_char, shell_backspace, shell_clear_input,
}

module _ (sc : Screen) where
  open sc use {Fb}

  -- `\n` or `\r` on a line that is not empty, once the history's entry is written
  abbrev pub accept_line : ShellState → Buffer → Buffer → ShellState
  accept_line s command entry = record s {
    command_buffer = command;
    history = λ h. if h == s.history_index % max_history_entries then entry else s.history h;
    history_index = s.history_index + 1;
    history_current = s.history_index + 1;
    input_index = 0;
    cursor_pos = 0;
    input_buffer = update (update s.input_buffer s.input_index 0) 0 0;
  }

  unfoldable pub enter_line : ShellState → Fb → Option (Bool × ShellState × Fb)
  enter_line s fb =
      let ended = update s.input_buffer s.input_index 0 in
      if s.input_index == 0
      then (let (s', fb') =
            shell_print_prompt sc (record s { input_buffer = ended }) (shell_newline sc fb) in
          some (false, s', shell_redraw_input sc s' fb'))
      else (let command =
            update (strncpy s.command_buffer ended max_input_length) (max_input_length - 1) 0 in
          elim (strcpy max_input_length (s.history (s.history_index % max_history_entries))
            command) [
              | none ↦ none
              | some entry ↦ some (true, accept_line s command entry, shell_newline sc fb)
            ])

  -- The first component of the result is whether a command is returned, in the command buffer.
  unfoldable pub input : ℕ → ShellState → Fb → Option (Bool × ShellState × Fb)
  input received s fb =
      if received == 10 || received == 13
      then enter_line s fb
      else (if received == 8 || received == 127
          then (let (s', fb') = shell_backspace sc s fb in some (false, s', fb'))
          else (let (s', fb') = insert_char sc received s fb in some (false, s', fb')))

  -- What `shell_history_up` and `shell_history_down` do once `history_current` is set
  unfoldable pub recall : ShellState → Fb → Option (ShellState × Fb)
  recall s fb =
      elim (strcpy max_input_length s.input_buffer
        (s.history (s.history_current % max_history_entries))) [
          | none ↦ none
          | some line ↦ elim (strlen max_input_length line) [
            | none ↦ none
            | some len ↦
                let s' = record s { input_buffer = line; input_index = len; cursor_pos = len } in
                some (s', shell_redraw_input sc s' fb)
          ]
        ]

  unfoldable pub shell_history_up : ShellState → Fb → Option (ShellState × Fb)
  shell_history_up s fb =
      if ltb 0 s.history_current
      then recall (record s { history_current = s.history_current - 1 }) fb
      else some (s, fb)

  -- `history_index - 1` is an `int`, so the tests are written with the 1 on the other side.
  unfoldable pub shell_history_down : ShellState → Fb → Option (ShellState × Fb)
  shell_history_down s fb =
      if ltb (s.history_current + 1) s.history_index
      then recall (record s { history_current = s.history_current + 1 }) fb
      else (if s.history_current + 1 == s.history_index
          then some (shell_clear_input sc (record s { history_current = s.history_index }) fb)
          else some (s, fb))
