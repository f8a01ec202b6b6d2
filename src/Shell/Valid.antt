-- ===== src/Shell/Valid.antt =====
-- The well-formedness of the shell's state.
use binbows.Base.{ℕ, ◌≤◌, ◌≡◌}
use binbows.Shell.Line.{ShellState}

-- The cursor is within the line, the line within the buffer, and the last byte of the buffer and of
-- every entry of the history is zero.
pub record IsValid (s : ShellState) : Type 0 where
  pub cursor_in : s.cursor_pos ≤ s.input_index
  pub line_in : s.input_index ≤ 255
  pub ended : s.input_buffer 255 ≡ 0
  pub entry_ended : (h : ℕ) → s.history h 255 ≡ 0
