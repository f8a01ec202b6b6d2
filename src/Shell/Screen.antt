-- ===== src/Shell/Screen.antt =====
-- What the shell uses of the framebuffer console, kernel/src/drivers/video/framebuffer.c.
use binbows.Base.{ℕ, List}

pub record Screen : Type 1 where
  pub Fb : Type 0
  -- a text as the list of its characters, and a colour
  pub fb_print : List ℕ → ℕ → Fb → Fb
  -- x, y, width, height, colour
  pub draw_rect : ℕ → ℕ → ℕ → ℕ → ℕ → Fb → Fb
  -- x, y, character, colour
  pub draw_char : ℕ → ℕ → ℕ → ℕ → Fb → Fb
  pub move_cursor_to : ℕ → ℕ → Fb → Fb
  pub get_cursor_x : Fb → ℕ
  pub get_cursor_y : Fb → ℕ
