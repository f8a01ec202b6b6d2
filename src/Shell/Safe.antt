-- ===== src/Shell/Safe.antt =====
-- The keys that change the line of shell.c, and the well-formedness of the shell's state.
use binbows.Base.{
  true, ℕ, ◌-◌, ◌%◌, ◌≡◌, refl, ◌∙◌, inl, inr, Bool, ◌||◌, some, arith, ltb, ◌==◌, update,
  Bool-cases, ltb→lt,
}
use binbows.Shell.Text.{strncpy, strlen-some, strcpy-some}
use binbows.Shell.Screen.{Screen}
use binbows.Shell.Line.{ShellState, insert_char, shell_backspace, shell_delete}
use binbows.Shell.Input.{input, enter_line}
use binbows.Shell.View.{shift_left-get, shift_right-get}
use binbows.Shell.Valid.{IsValid}

module _ (sc : Screen) where
  open sc use {Fb}

  insert_char-IsValid :
      (c : ℕ) {s : ShellState} (fb : Fb) → IsValid s → IsValid (insert_char sc c s fb).0
  unfolding insert_char
  insert_char-IsValid c {s} fb v = elim (Bool-cases (ltb s.input_index 255)) [
    | inl e ↦
        let room = ltb→lt s.input_index 255 e in
        rw e (record {
          cursor_in = omega (arith, v.cursor_in);
          line_in = omega (arith, room);
          ended =
              rw (shift_right-get (s.input_index - s.cursor_pos) s.cursor_pos s.input_buffer 255)
                (ground (arith, v.ended, v.cursor_in));
          entry_ended = v.entry_ended;
        })
    | inr e ↦ rw e v
  ]

  shell_backspace-IsValid :
      {s : ShellState} (fb : Fb) → IsValid s → IsValid (shell_backspace sc s fb).0
  unfolding shell_backspace
  shell_backspace-IsValid {s} fb v = elim (Bool-cases (ltb 0 s.cursor_pos)) [
    | inl e ↦
        let pos = ltb→lt 0 s.cursor_pos e in
        rw e (record {
          cursor_in = omega (arith, v.cursor_in);
          line_in = omega (arith, v.line_in);
          ended =
              rw
                (shift_left-get (s.input_index - s.cursor_pos) (s.cursor_pos - 1) s.input_buffer
                  255)
                (ground (arith, v.ended, v.cursor_in, v.line_in));
          entry_ended = v.entry_ended;
        })
    | inr e ↦ rw e v
  ]

  -- In a well-formed state, delete leaves a well-formed state.
  pub shell_delete-IsValid :
      {s : ShellState} (fb : Fb) → IsValid s → IsValid (shell_delete sc s fb).0
  unfolding shell_delete
  shell_delete-IsValid {s} fb v = elim (Bool-cases (ltb s.cursor_pos s.input_index)) [
    | inl e ↦
        let pos = ltb→lt s.cursor_pos s.input_index e in
        rw e (record {
          cursor_in = omega (arith, pos);
          line_in = omega (arith, v.line_in);
          ended =
              rw (shift_left-get (s.input_index - 1 - s.cursor_pos) s.cursor_pos s.input_buffer 255)
                (ground (arith, v.ended, v.cursor_in, v.line_in));
          entry_ended = v.entry_ended;
        })
    | inr e ↦ rw e v
  ]

  enter_line-IsValid :
      {s : ShellState} (fb : Fb)
      → IsValid s
      → (entered : Bool) × (s' : ShellState) × (fb' : Fb) × (enter_line sc s fb
          ≡ some (entered, s', fb'))
        × IsValid s'
        × (entered ≡ true → s'.command_buffer 255 ≡ 0)
  unfolding enter_line
  enter_line-IsValid {s} fb v = elim (Bool-cases (s.input_index == 0)) [
    | inl e ↦ rw e (
      _,
      _,
      _,
      refl,
      record {
        cursor_in = v.cursor_in;
        line_in = v.line_in;
        ended = ground (arith, v.ended);
        entry_ended = v.entry_ended;
      },
      (λ y. absurd (ground (arith, y))),
    )
    | inr e ↦
        let command =
          update (strncpy s.command_buffer (update s.input_buffer s.input_index 0) 256) 255 0 in
        let (len, el, h, le) = strlen-some 256 255 command (omega arith) (ground arith) in
        let (entry, ee, low, high) =
          strcpy-some 256 (s.history (s.history_index % 10)) command len h (omega (arith, le)) in
        simp (e, ee)
          (
            _,
            _,
            _,
            refl,
            record {
              cursor_in = omega arith;
              line_in = omega arith;
              ended = ground (arith, v.ended);
              entry_ended = λ i. elim (Bool-cases (i == s.history_index % 10)) [
                | inl q ↦ rw q (high 255 le ∙ v.entry_ended (s.history_index % 10))
                | inr q ↦ rw q (v.entry_ended i)
              ];
            },
            (λ y. refl),
          )
  ]

  -- In a well-formed state `input` returns, for any character, and leaves a well-formed state: no
  -- string that it copies runs past its buffer. A command that it returns ends within its buffer.
  pub input-IsValid :
      (received : ℕ) {s : ShellState} (fb : Fb)
      → IsValid s
      → (entered : Bool) × (s' : ShellState) × (fb' : Fb) × (input sc received s fb
          ≡ some (entered, s', fb'))
        × IsValid s'
        × (entered ≡ true → s'.command_buffer 255 ≡ 0)
  unfolding input
  input-IsValid received {s} fb v = elim (Bool-cases (received == 10 || received == 13)) [
    | inl e ↦ rw e (enter_line-IsValid fb v)
    | inr e ↦ elim (Bool-cases (received == 8 || received == 127)) [
      | inl f ↦
          simp (e, f)
            (_, _, _, refl, shell_backspace-IsValid fb v, (λ y. absurd (ground (arith, y))))
      | inr f ↦
          simp (e, f)
            (_, _, _, refl, insert_char-IsValid received fb v, (λ y. absurd (ground (arith, y))))
    ]
  ]
