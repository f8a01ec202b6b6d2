-- ===== src/Keyboard/Tests.antt =====
-- Runs of the keyboard, and witnesses.
use binbows.Base.{
  ◌+◌, ℕ, ◌<◌, ◌≡◌, refl, true, false, Option, List, some, [], ◌∷◌, ◌++◌, arith, leb, ◌==◌,
  if◌then◌else◌, length,
}
use binbows.Shell.Screen.{Screen}
use binbows.Shell.Line.{ShellState}
use binbows.Shell.Valid.{IsValid}
use binbows.Keyboard.Keys.{Modifiers, Keyboard, get_character, shifted, scancode_to_key}
use binbows.Shell.Parser.{Command}
use binbows.Shell.Text.{Buffer}
use binbows.Keyboard.Ring.{Ring, kbd_enqueue_char, kbd_available, kbd_read_chars}
use binbows.Keyboard.Queue.{
  contents, kbd_enqueue_char-appends, kbd_enqueue_char-full, kbd_read_chars-takes,
}

abbrev blank_screen : Screen
blank_screen = record {
  Fb = ℕ;
  fb_print = λ text color fb. fb;
  draw_rect = λ x y w h color fb. fb;
  draw_char = λ x y c color fb. fb;
  move_cursor_to = λ x y fb. fb;
  get_cursor_x = λ fb. 0;
  get_cursor_y = λ fb. 0;
}

abbrev shift_held : Modifiers
shift_held = record { caps_lock = false; shift = true; ctrl = false; alt = false; extended = false }

-- The key of scan code 3 is `2`, which is `@` with shift.
run_shift : get_character shift_held (scancode_to_key 3) ≡ 64
unfolding get_character shifted
run_shift = refl

abbrev idle : Keyboard
idle = record {
  modifiers = shift_held;
  shell = record {
    command_buffer = λ j. 0;
    input_buffer = λ j. 0;
    history = λ h j. 0;
    history_index = 0;
    history_current = 0;
    input_index = 0;
    cursor_pos = 0;
    prompt_x = 0;
    prompt_y = 0;
  };
}

idle-IsValid : IsValid idle.shell
idle-IsValid = record {
  cursor_in = omega arith;
  line_in = omega arith;
  ended = refl;
  entry_ended = λ h. refl;
}

-- A table with one command, "x", which forgets the history
abbrev forget : ℕ → (ℕ → Buffer) → ShellState → ℕ → Option (ShellState × ℕ)
forget argc args s fb = some (record s { history_index = 0; history_current = 0 }, fb + 1)

abbrev x_text : Buffer
x_text j = if j == 0 then 120 else 0

abbrev table : List (Command blank_screen)
table = (x_text, forget) ∷ []

-- "x", with the cursor behind it
abbrev typed : Keyboard
typed = record idle {
  shell = record idle.shell { input_buffer = x_text; input_index = 1; cursor_pos = 1 };
}

-- Two characters, the second at the start of the buffer
abbrev wrapped : Ring
wrapped = record { kbd_buf = λ j. if j == 255 then 97 else 98; kbd_head = 1; kbd_tail = 255 }

wrapped-IsValid : binbows.Keyboard.Queue.IsValid wrapped
wrapped-IsValid = record { head_in = omega arith; tail_in = omega arith }

run_contents : contents wrapped ≡ 97 ∷ 98 ∷ []
unfolding kbd_available
run_contents = refl

few : kbd_available wrapped < 255
unfolding kbd_available
few = omega arith

kbd_enqueue_char-appends_example :
    (contents (kbd_enqueue_char 99 wrapped) ≡ contents wrapped ++ (99 ∷ []))
    × binbows.Keyboard.Queue.IsValid (kbd_enqueue_char 99 wrapped)
kbd_enqueue_char-appends_example = kbd_enqueue_char-appends 99 wrapped wrapped-IsValid few

kbd_read_chars-takes_example :
    (contents wrapped ≡ (kbd_read_chars 1 wrapped).0 ++ contents (kbd_read_chars 1 wrapped).1)
    × (length (kbd_read_chars 1 wrapped).0
        ≡ (if leb 1 (kbd_available wrapped) then 1 else kbd_available wrapped))
    × binbows.Keyboard.Queue.IsValid (kbd_read_chars 1 wrapped).1
kbd_read_chars-takes_example = kbd_read_chars-takes 1 wrapped wrapped-IsValid
