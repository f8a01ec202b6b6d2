-- ===== src/Shell/Line.antt =====
-- The state of the shell and the operations on the line that is being typed: shell.c. The screen is
-- the framebuffer's; colours are 0xAARRGGBB.
-- The counters of the history are `int`s, taken to be below 2 ^ 31.
use binbows.Base.{ℕ, zero, suc, ◌+◌, ◌-◌, ◌*◌, [], ◌∷◌, ltb, if◌then◌else◌, update}
use binbows.Shell.Text.{Buffer}
use binbows.Shell.Screen.{Screen}

abbrev pub max_input_length : ℕ
max_input_length = 256

abbrev pub max_history_entries : ℕ
max_history_entries = 10

abbrev pub font_width : ℕ
font_width = 8

abbrev pub font_height : ℕ
font_height = 16

-- The fields that the line editor uses.
pub record ShellState : Type 0 where
  pub command_buffer : Buffer
  pub input_buffer : Buffer
  pub history : ℕ → Buffer
  pub history_index : ℕ
  pub history_current : ℕ
  pub input_index : ℕ
  pub cursor_pos : ℕ
  pub prompt_x : ℕ
  pub prompt_y : ℕ

-- `for (i = from; i < from + rounds; i++) buffer[i] = buffer[i + 1];`
unfoldable pub shift_left : (rounds i : ℕ) → Buffer → Buffer
shift_left zero i b = b
shift_left (suc n) i b = shift_left n (suc i) (update b i (b (i + 1)))

-- `for (i = from + rounds; i > from; i--) buffer[i] = buffer[i - 1];`
unfoldable pub shift_right : (rounds from : ℕ) → Buffer → Buffer
shift_right zero from b = b
shift_right (suc n) from b = shift_right n from (update b (from + suc n) (b (from + n)))

module _ (sc : Screen) where
  open sc use {Fb, fb_print, draw_rect, draw_char, move_cursor_to, get_cursor_x, get_cursor_y}

  unfoldable pub draw_chars : (rounds i : ℕ) → ShellState → Fb → Fb
  draw_chars zero i s fb = fb
  draw_chars (suc n) i s fb =
      draw_chars n (suc i) s
        (draw_char (s.prompt_x + i * font_width) s.prompt_y (s.input_buffer i) 0xFFFFFFFF fb)

  abbrev pub cursor_column : ShellState → ℕ
  cursor_column s = s.prompt_x + s.cursor_pos * font_width

  abbrev pub shell_redraw_input : ShellState → Fb → Fb
  shell_redraw_input s fb = move_cursor_to (cursor_column s) s.prompt_y (
      draw_chars s.input_index 0 s
        (draw_rect s.prompt_x s.prompt_y (max_input_length * font_width) font_height 0 fb))

  abbrev pub shell_newline : Fb → Fb
  shell_newline fb = fb_print (10 ∷ []) 0xFFFFFFFF fb

  -- `"$ "` in the colour (100, 200, 255)
  abbrev pub shell_print_prompt : ShellState → Fb → ShellState × Fb
  shell_print_prompt s fb =
      let fb' = fb_print (36 ∷ 32 ∷ []) 0xFF64C8FF fb in
      (record s { prompt_x = get_cursor_x fb'; prompt_y = get_cursor_y fb' }, fb')

  -- The part of `input` that puts a character into the line
  unfoldable pub insert_char : ℕ → ShellState → Fb → ShellState × Fb
  insert_char c s fb =
      if ltb s.input_index (max_input_length - 1)
      then (let s' = record s {
        input_buffer =
            update (shift_right (s.input_index - s.cursor_pos) s.cursor_pos s.input_buffer)
              s.cursor_pos c;
        input_index = s.input_index + 1;
        cursor_pos = s.cursor_pos + 1;
      } in
          (s', shell_redraw_input s' fb))
      else (s, fb)

  unfoldable pub shell_backspace : ShellState → Fb → ShellState × Fb
  shell_backspace s fb =
      if ltb 0 s.cursor_pos
      then (let s' = record s {
        input_buffer =
            update (shift_left (s.input_index - s.cursor_pos) (s.cursor_pos - 1) s.input_buffer)
              (s.input_index - 1) 0;
        input_index = s.input_index - 1;
        cursor_pos = s.cursor_pos - 1;
      } in
          (s', shell_redraw_input s' fb))
      else (s, fb)

  unfoldable pub shell_delete : ShellState → Fb → ShellState × Fb
  shell_delete s fb =
      if ltb s.cursor_pos s.input_index
      then (let s' = record s {
        input_buffer =
            update (shift_left (s.input_index - 1 - s.cursor_pos) s.cursor_pos s.input_buffer)
              (s.input_index - 1) 0;
        input_index = s.input_index - 1;
      } in
          (s', shell_redraw_input s' fb))
      else (s, fb)

  unfoldable pub shell_move_cursor_left : ShellState → Fb → ShellState × Fb
  shell_move_cursor_left s fb =
      if ltb 0 s.cursor_pos
      then (let s' = record s { cursor_pos = s.cursor_pos - 1 } in
          (s', move_cursor_to (cursor_column s') s'.prompt_y fb))
      else (s, fb)

  unfoldable pub shell_move_cursor_right : ShellState → Fb → ShellState × Fb
  shell_move_cursor_right s fb =
      if ltb s.cursor_pos s.input_index
      then (let s' = record s { cursor_pos = s.cursor_pos + 1 } in
          (s', move_cursor_to (cursor_column s') s'.prompt_y fb))
      else (s, fb)

  unfoldable pub shell_move_cursor_home : ShellState → Fb → ShellState × Fb
  shell_move_cursor_home s fb =
      (record s { cursor_pos = 0 }, move_cursor_to s.prompt_x s.prompt_y fb)

  unfoldable pub shell_move_cursor_end : ShellState → Fb → ShellState × Fb
  shell_move_cursor_end s fb =
      let s' = record s { cursor_pos = s.input_index } in
      (s', move_cursor_to (cursor_column s') s'.prompt_y fb)

  unfoldable pub shell_clear_input : ShellState → Fb → ShellState × Fb
  shell_clear_input s fb =
      let s' = record s {
        input_buffer = λ j. if ltb j max_input_length then 0 else s.input_buffer j;
        input_index = 0;
        cursor_pos = 0;
      } in
      (s', shell_redraw_input s' fb)

  unfoldable pub shell_cancel_input : ShellState → Fb → ShellState × Fb
  shell_cancel_input s fb =
      let (s', fb') = shell_clear_input s fb in shell_print_prompt s' (shell_newline fb')
