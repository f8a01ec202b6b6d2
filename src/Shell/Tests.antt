-- ===== src/Shell/Tests.antt =====
-- Runs of the line editor, and witnesses.
use binbows.Base.{
  none, ltb, ◌&&◌, ℕ, ◌+◌, ◌≤◌, ◌<◌, ◌≡◌, ◌≢◌, refl, true, some, [], ◌∷◌, ◌++◌, arith, ◌==◌,
  if◌then◌else◌,
}
use binbows.Allocator.{Allocator}
use binbows.Sched.{Scheduler, ready}
use binbows.Sched.Table
use binbows.Shell.Commands.{quiet, cmd_kill}
use binbows.Shell.Kill.{cmd_kill-lookup}
use binbows.Shell.Parser.{is_blank, parse_args}
use binbows.Shell.Word.{AreWords}
use binbows.Shell.Words.{parse_args-AreWords}
use binbows.Shell.Text.{Buffer, IsLength}
use binbows.Shell.Screen.{Screen}
use binbows.Shell.Line.{ShellState, insert_char, shift_right}
use binbows.Shell.Input.{enter_line, shell_history_up}
use binbows.Shell.View.{line_of}
use binbows.Shell.Valid.{IsValid}
use binbows.Shell.Edit.{insert_char-types}
use binbows.Shell.History.{enter_line-records, shell_history_up-keeps_tail}

-- A screen that counts the calls
abbrev counting : Screen
counting = record {
  Fb = ℕ;
  fb_print = λ text color fb. fb + 1;
  draw_rect = λ x y w h color fb. fb + 1;
  draw_char = λ x y c color fb. fb + 1;
  move_cursor_to = λ x y fb. fb + 1;
  get_cursor_x = λ fb. 16;
  get_cursor_y = λ fb. 0;
}

-- "hello"
abbrev hello : Buffer
hello j =
    if j == 0
    then 104
    else (if j == 1
        then 101
        else (if j == 2 then 108 else (if j == 3 then 108 else (if j == 4 then 111 else 0))))

-- "ls"
abbrev ls : Buffer
ls j = if j == 0 then 108 else (if j == 1 then 115 else 0)

-- "hello" with the cursor behind "he", after the command "ls"
abbrev typing : ShellState
typing = record {
  command_buffer = ls;
  input_buffer = hello;
  history = λ h. if h == 0 then ls else (λ j. 0);
  history_index = 1;
  history_current = 1;
  input_index = 5;
  cursor_pos = 2;
  prompt_x = 16;
  prompt_y = 0;
}

typing-IsValid : IsValid typing
typing-IsValid = record {
  cursor_in = omega arith;
  line_in = omega arith;
  ended = refl;
  entry_ended = λ h. ground arith;
}

run_insert :
    line_of (insert_char counting 120 typing 0).0
    ≡ record { before = 104 ∷ 101 ∷ 120 ∷ []; after = 108 ∷ 108 ∷ 111 ∷ [] }
unfolding line_of insert_char shift_right
run_insert = refl

insert_char-types_example :
    line_of (insert_char counting 120 typing 0).0
    ≡ record { before = (line_of typing).before ++ (120 ∷ []); after = (line_of typing).after }
insert_char-types_example = insert_char-types counting 120 typing 0 typing-IsValid (omega arith)

hello_full : (j : ℕ) → j < 5 → hello j ≢ 0
hello_full j h = ground arith

enter_line-records_example :
    (s' : ShellState) × (fb' : ℕ) × (enter_line counting typing 0 ≡ some (true, s', fb'))
    × ((j : ℕ) → j < 5 → s'.command_buffer j ≡ hello j)
    × (s'.command_buffer 5 ≡ 0)
    × ((j : ℕ) → j < 5 → s'.history 1 j ≡ hello j)
    × (s'.history_index ≡ 1 + 1)
    × (s'.history_current ≡ 1 + 1)
    × (s'.input_index ≡ 0)
    × (s'.cursor_pos ≡ 0)
enter_line-records_example =
    enter_line-records counting typing 0 typing-IsValid (omega arith) hello_full

ls-IsLength : IsLength ls 2
ls-IsLength = ((λ i h. ground arith), refl)

hello-IsLength : IsLength hello 5
hello-IsLength = (hello_full, refl)

-- The recalled line is "lsllo".
shell_history_up-keeps_tail_example :
    (s' : ShellState) × (fb' : ℕ) × (shell_history_up counting typing 0 ≡ some (s', fb'))
    × (s'.input_index ≡ 5)
    × ((j : ℕ) → j < 2 → s'.input_buffer j ≡ ls j)
    × ((j : ℕ) → 2 ≤ j → s'.input_buffer j ≡ hello j)
shell_history_up-keeps_tail_example =
    shell_history_up-keeps_tail counting typing 0 2 5 (omega arith) ls-IsLength hello-IsLength
      (omega arith) (omega arith)

-- "kill 2"
abbrev kill_line : Buffer
kill_line j =
    if j == 0
    then 107
    else (if j == 1
        then 105
        else (if j == 2
            then 108
            else (if j == 3 then 108 else (if j == 4 then 32 else (if j == 5 then 50 else 0)))))

kill_line-IsLength : IsLength kill_line 6
kill_line-IsLength = ((λ i h. ground arith), refl)

parse_args-AreWords_example :
    (args' : ℕ → Buffer) × (argc : ℕ) × (parse_args 7 kill_line (λ i j. 7) ≡ some (args', argc))
    × (argc ≤ 8)
    × AreWords kill_line 6 args' argc
    × (argc ≡ 0 → (k : ℕ) → k < 6 → is_blank (kill_line k) ≡ true)
parse_args-AreWords_example =
    parse_args-AreWords 7 6 kill_line (λ i j. 7) kill_line-IsLength (omega arith)

-- "kill", "2"
abbrev kill_args : ℕ → Buffer
kill_args i j = if i == 1 && j == 0 then 50 else 0

-- An allocator that hands out one fixed block
abbrev one_block : Allocator
one_block = record {
  Heap = ℕ;
  kmalloc = λ size h. (0x100000, h);
  kfree = λ p h. h + 1;
  store64 = λ p w h. h;
}

-- PIDs 0, 1 and 2
abbrev table : Scheduler
table = record {
  processes = λ i. record {
    pid = if ltb i 3 then i else 0;
    state = ready;
    priority = 0;
    stack_ptr = 0;
    stack_base = 0x1000;
    pml4_phys = 0x5000;
    user_stack_vaddr = 0;
    time_slice = 1;
    cpu_time_used = 0;
    entry_point = 0x2000;
    exit_code = 0;
  };
  process_count = 3;
  current_process = 0;
  next_pid = 3;
  initialized = true;
}

table-IsValid : Table.IsValid table
table-IsValid = record {
  up = refl;
  nonempty = omega arith;
  fits = omega arith;
  current_in = omega arith;
  kernel_first = refl;
  pid_lt = λ i hi. ground arith;
  unique = λ i j hi hj e. ground arith;
  next_pos = omega arith;
  next_lt = omega arith;
}

cmd_kill-lookup_example :
    (s' : Scheduler) × (h' : ℕ) × (cmd_kill one_block 5 2 kill_args table 0 ≡ some (quiet, s', h'))
    × (Table.lookup s' 2 ≡ none)
cmd_kill-lookup_example =
    cmd_kill-lookup one_block 5 2 1 2 2 kill_args 0 table-IsValid (omega arith)
      ((λ k m e. ground (arith, e)), refl) refl (omega arith) (omega arith) (λ e. omega (arith, e))
