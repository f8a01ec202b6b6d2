-- ===== src/Shell/History.antt =====
-- The history of shell.c.
use binbows.Base.{
  ℕ, ◌+◌, ◌-◌, ◌%◌, ◌≤◌, ◌<◌, ◌≡◌, ◌≢◌, refl, sym, ◌∙◌, inl, inr, true, false, some, arith, ltb,
  ◌==◌, if◌then◌else◌, update, Bool-cases, ltb→lt, eq→==, ne→==,
}
use binbows.Shell.Text.{Buffer, IsLength, strncpy, strlen-some, strcpy-some, strncpy-get}
use binbows.Shell.Screen.{Screen}
use binbows.Shell.Line.{ShellState, shell_clear_input}
use binbows.Shell.Input.{enter_line, recall, shell_history_up, shell_history_down}
use binbows.Shell.Valid.{IsValid}

-- Where the first zero is, is determined.
IsLength-unique : (s : Buffer) (a b : ℕ) → IsLength s a → IsLength s b → a ≡ b
IsLength-unique s a b (fa, za) (fb, zb) = elim (Bool-cases (ltb a b)) [
  | inl e ↦ absurd (fb a (ltb→lt a b e) za)
  | inr e ↦ elim (Bool-cases (ltb b a)) [
    | inl f ↦ absurd (fa b (ltb→lt b a f) zb)
    | inr f ↦ ground arith
  ]
]

module _ (sc : Screen) where
  open sc use {Fb}

  -- In a well-formed state, a line that is not empty and holds no zero is, when it is entered, the
  -- command that is returned, with a zero behind it, and begins the newest entry of the history;
  -- the history is then one entry longer, the current entry is at its end, and the editor has an
  -- empty line.
  pub enter_line-records :
      (s : ShellState) (fb : Fb)
      → IsValid s
      → 0 < s.input_index
      → ((j : ℕ) → j < s.input_index → s.input_buffer j ≢ 0)
      → (s' : ShellState) × (fb' : Fb) × (enter_line sc s fb ≡ some (true, s', fb'))
        × ((j : ℕ) → j < s.input_index → s'.command_buffer j ≡ s.input_buffer j)
        × (s'.command_buffer s.input_index ≡ 0)
        × ((j : ℕ) → j < s.input_index → s'.history (s.history_index % 10) j ≡ s.input_buffer j)
        × (s'.history_index ≡ s.history_index + 1)
        × (s'.history_current ≡ s.history_index + 1)
        × (s'.input_index ≡ 0)
        × (s'.cursor_pos ≡ 0)
  unfolding enter_line
  enter_line-records s fb v pos full =
      let some_line : (s.input_index == 0) ≡ false = ground arith in
      let ended = update s.input_buffer s.input_index 0 in
      let command = update (strncpy s.command_buffer ended 256) 255 0 in
      let hl : IsLength ended s.input_index = (
        (λ j hj. rw (ne→== j s.input_index (λ f. omega (arith, f, hj))) (full j hj)),
        ground arith,
      ) in
      let at : (j : ℕ) → j < 256 → command j ≡ (if ltb j s.input_index then ended j else 0) =
        λ j hj.
          rw
            (strncpy-get 256 s.command_buffer ended s.input_index j hl (omega (arith, v.line_in))
              hj)
            (ground (arith, v.line_in)) in
      let low : (j : ℕ) → j < s.input_index → command j ≡ s.input_buffer j =
        λ j hj. at j (omega (arith, v.line_in, hj)) ∙ ground arith in
      let zero : command s.input_index ≡ 0 =
        at s.input_index (omega (arith, v.line_in)) ∙ ground arith in
      let hc : IsLength command s.input_index =
        ((λ j hj e. full j hj (sym (low j hj) ∙ e)), zero) in
      let (entry, ee, copied, _) =
        strcpy-some 256 (s.history (s.history_index % 10)) command s.input_index hc
          (omega (arith, v.line_in)) in
      let here = eq→== (s.history_index % 10) (s.history_index % 10) refl in
      simp (some_line, ee)
        (_, _, refl, low, zero, (λ j hj. rw here (copied j hj ∙ low j hj)), refl, refl, refl, refl)

  recall-IsValid :
      {s : ShellState} (fb : Fb)
      → IsValid s
      → (s' : ShellState) × (fb' : Fb) × (recall sc s fb ≡ some (s', fb')) × IsValid s'
  unfolding recall
  recall-IsValid {s} fb v =
      let entry = s.history (s.history_current % 10) in
      let (len, _, h, le) =
        strlen-some 256 255 entry (omega arith) (v.entry_ended (s.history_current % 10)) in
      let (line, el, low, high) = strcpy-some 256 s.input_buffer entry len h (omega (arith, le)) in
      let last : line 255 ≡ 0 = high 255 le ∙ v.ended in
      let (n, en, hn, ln) = strlen-some 256 255 line (omega arith) last in
      simp (recall, el, en)
        (
          _,
          _,
          refl,
          record {
            cursor_in = omega arith;
            line_in = ln;
            ended = last;
            entry_ended = v.entry_ended;
          },
        )

  -- In a well-formed state the key up returns and leaves a well-formed state.
  pub shell_history_up-IsValid :
      {s : ShellState} (fb : Fb)
      → IsValid s
      → (s' : ShellState) × (fb' : Fb) × (shell_history_up sc s fb ≡ some (s', fb')) × IsValid s'
  unfolding shell_history_up
  shell_history_up-IsValid {s} fb v = elim (Bool-cases (ltb 0 s.history_current)) [
    | inl e ↦ rw e (
        recall-IsValid {s = record s { history_current = s.history_current - 1 }} fb (record {
          cursor_in = v.cursor_in;
          line_in = v.line_in;
          ended = v.ended;
          entry_ended = v.entry_ended;
        }))
    | inr e ↦ rw e (s, fb, refl, v)
  ]

  -- In a well-formed state the key down returns and leaves a well-formed state.
  pub shell_history_down-IsValid :
      {s : ShellState} (fb : Fb)
      → IsValid s
      → (s' : ShellState) × (fb' : Fb) × (shell_history_down sc s fb ≡ some (s', fb')) × IsValid s'
  unfolding shell_history_down shell_clear_input
  shell_history_down-IsValid {s} fb v =
      elim (Bool-cases (ltb (s.history_current + 1) s.history_index)) [
        | inl e ↦ rw e (
            recall-IsValid {s = record s { history_current = s.history_current + 1 }} fb (record {
              cursor_in = v.cursor_in;
              line_in = v.line_in;
              ended = v.ended;
              entry_ended = v.entry_ended;
            }))
        | inr e ↦ elim (Bool-cases (s.history_current + 1 == s.history_index)) [
          | inl f ↦
              simp (e, f)
                (
                  _,
                  _,
                  refl,
                  record {
                    cursor_in = omega arith;
                    line_in = omega arith;
                    ended = refl;
                    entry_ended = v.entry_ended;
                  },
                )
          | inr f ↦ simp (e, f) (s, fb, refl, v)
        ]
      ]

  -- The key up copies the entry before the current one over the line, and what the line has behind
  -- the entry's length stays: with a history that is not at its start, an entry of `len` characters
  -- and a line of `old` characters, `len` at most `old`, the new line has `old` characters, of
  -- which the first `len` are the entry's and the others are the old line's.
  pub shell_history_up-keeps_tail :
      (s : ShellState) (fb : Fb) (len old : ℕ)
      → 0 < s.history_current
      → IsLength (s.history ((s.history_current - 1) % 10)) len
      → IsLength s.input_buffer old
      → len ≤ old
      → old < 256
      → (s' : ShellState) × (fb' : Fb) × (shell_history_up sc s fb ≡ some (s', fb'))
        × (s'.input_index ≡ old)
        × ((j : ℕ) → j < len → s'.input_buffer j ≡ s.history ((s.history_current - 1) % 10) j)
        × ((j : ℕ) → len ≤ j → s'.input_buffer j ≡ s.input_buffer j)
  unfolding shell_history_up recall
  shell_history_up-keeps_tail s fb len old pos h (full, z) le size =
      let up : ltb 0 s.history_current ≡ true = ground arith in
      let entry = s.history ((s.history_current - 1) % 10) in
      let (line, el, low, high) = strcpy-some 256 s.input_buffer entry len h (omega arith) in
      let hl : IsLength line old = (
        (λ j hj. elim (Bool-cases (ltb j len)) [
          | inl e ↦ let lt = ltb→lt j len e in λ f. h.0 j lt (sym (low j lt) ∙ f)
          | inr e ↦ let ge : len ≤ j = ground arith in λ f. full j hj (sym (high j ge) ∙ f)
        ]),
        high old le ∙ z,
      ) in
      let (n, en, hn, _) = strlen-some 256 old line size hl.1 in
      simp (up, recall, el, en) (_, _, refl, IsLength-unique line n old hn hl, low, high)
