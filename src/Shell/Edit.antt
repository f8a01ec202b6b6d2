-- ===== src/Shell/Edit.antt =====
-- The editing keys of shell.c as operations on the text before and after the cursor.
use binbows.Base.{
  ℕ, suc, ◌+◌, ◌-◌, ◌≤◌, ◌<◌, ◌≡◌, refl, sym, ap, ap₂, ◌∙◌, true, ◌&&◌, List, [], ◌∷◌, ◌++◌, arith,
  ltb, leb, ◌==◌, if◌then◌else◌, update,
}
use binbows.Shell.Text.{Buffer}
use binbows.Shell.Screen.{Screen}
use binbows.Shell.Line.{
  ShellState, shift_left, shift_right, insert_char, shell_backspace, shell_delete,
  shell_move_cursor_left, shell_move_cursor_right,
}
use binbows.Shell.View.{
  slice, Line, line_of, slice-cong, slice-snoc, shift_left-get, shift_right-get,
}
use binbows.Shell.Valid.{IsValid}

line-cong :
    {a a' b b' : List ℕ}
    → a ≡ a'
    → b ≡ b'
    → Path Line (record { before = a; after = b }) (record { before = a'; after = b' })
line-cong p q = rw (p, q)

abbrev inserted : Buffer → (index cursor c : ℕ) → Buffer
inserted b index cursor c = update (shift_right (index - cursor) cursor b) cursor c

inserted-get :
    (b : Buffer) (index cursor c j : ℕ)
    → cursor ≤ index
    → inserted b index cursor c j
      ≡ (if j == cursor then c else (if ltb cursor j && leb j index then b (j - 1) else b j))
inserted-get b index cursor c j h = rw (shift_right-get (index - cursor) cursor b j) (ground arith)

abbrev removed : Buffer → (index from : ℕ) → Buffer
removed b index from = update (shift_left (index - 1 - from) from b) (index - 1) 0

removed-get :
    (b : Buffer) (index from j : ℕ)
    → from < index
    → removed b index from j
      ≡ (if j + 1 == index then 0 else (if leb from j && ltb (j + 1) index then b (j + 1) else b j))
removed-get b index from j h = rw (shift_left-get (index - 1 - from) from b j) (ground arith)

slice-before : (b c : Buffer) (n : ℕ) → ((j : ℕ) → j < n → b j ≡ c j) → slice b 0 n ≡ slice c 0 n
slice-before b c n h =
    slice-cong b c 0 0 n (λ j hj. ap b (omega arith) ∙ h j hj ∙ ap c (omega arith))

module _ (sc : Screen) where
  open sc use {Fb}

  -- In a well-formed state, a character typed into a line of fewer than 255 characters stands
  -- before the cursor, behind what stood there, and the text behind the cursor is unchanged.
  pub insert_char-types :
      (c : ℕ) (s : ShellState) (fb : Fb)
      → IsValid s
      → s.input_index < 255
      → line_of (insert_char sc c s fb).0
        ≡ record { before = (line_of s).before ++ (c ∷ []); after = (line_of s).after }
  unfolding insert_char line_of
  insert_char-types c s fb v room =
      let room' : ltb s.input_index (256 - 1) ≡ true = ground arith in
      let e : s.cursor_pos + 1 ≡ suc s.cursor_pos = omega arith in
      let r : s.input_index + 1 - suc s.cursor_pos ≡ s.input_index - s.cursor_pos = omega arith in
      let get = λ (j : ℕ). inserted-get s.input_buffer s.input_index s.cursor_pos c j v.cursor_in in
      let b = inserted s.input_buffer s.input_index s.cursor_pos c in
      let front : slice b 0 s.cursor_pos ≡ slice s.input_buffer 0 s.cursor_pos =
        slice-before b s.input_buffer s.cursor_pos (λ j hj. get j ∙ ground arith) in
      let at : b (0 + s.cursor_pos) ≡ c = get (0 + s.cursor_pos) ∙ ground arith in
      rw (room', e, r)
        (line-cong (slice-snoc b 0 s.cursor_pos ∙ ap₂ (λ l x. l ++ (x ∷ [])) front at) (
          slice-cong b s.input_buffer (suc s.cursor_pos) s.cursor_pos _
            (λ j hj. get (suc s.cursor_pos + j) ∙ ground (arith, ap s.input_buffer))))

  -- On a full line, 255 characters, it is dropped.
  pub insert_char-full :
      (c : ℕ) (s : ShellState) (fb : Fb) → 255 ≤ s.input_index → insert_char sc c s fb ≡ (s, fb)
  unfolding insert_char
  insert_char-full c s fb full = ground arith

  -- In a well-formed state whose cursor is not at the start, backspace takes the last character
  -- before the cursor away and leaves the text behind it unchanged.
  pub shell_backspace-removes :
      (s : ShellState) (fb : Fb)
      → IsValid s
      → 0 < s.cursor_pos
      → let s' = (shell_backspace sc s fb).0 in
        (x : ℕ) × ((line_of s).before ≡ (line_of s').before ++ (x ∷ []))
        × ((line_of s').after ≡ (line_of s).after)
  unfolding shell_backspace line_of
  shell_backspace-removes s fb v pos =
      let k = s.cursor_pos - 1 in
      let up : ltb 0 s.cursor_pos ≡ true = ground arith in
      let n : s.input_index - s.cursor_pos ≡ s.input_index - 1 - k = omega arith in
      let get =
        λ (j : ℕ). removed-get s.input_buffer s.input_index k j (omega (arith, v.cursor_in)) in
      let b = removed s.input_buffer s.input_index k in
      let e : s.cursor_pos ≡ suc k = omega arith in
      rw (up, n)
        (
          s.input_buffer k,
          ap (slice s.input_buffer 0) e
              ∙ slice-snoc s.input_buffer 0 k
              ∙ ap₂ (λ l x. l ++ (x ∷ []))
                  (slice-before s.input_buffer b k (λ j hj. sym (get j ∙ ground arith)))
                  (ap s.input_buffer (omega arith)),
          slice-cong b s.input_buffer k s.cursor_pos _ (λ j (hj : j < s.input_index - 1 - k).
              let q : s.input_buffer (k + j + 1) ≡ s.input_buffer (s.cursor_pos + j) =
                ap s.input_buffer (omega (arith, e)) in
              get (k + j) ∙ ground arith),
        )

  -- In a well-formed state whose cursor is not at the end, delete takes the first character behind
  -- the cursor away and leaves the text before it unchanged.
  pub shell_delete-removes :
      (s : ShellState) (fb : Fb)
      → IsValid s
      → s.cursor_pos < s.input_index
      → let s' = (shell_delete sc s fb).0 in
        (x : ℕ) × ((line_of s').before ≡ (line_of s).before)
        × ((line_of s).after ≡ x ∷ (line_of s').after)
  unfolding shell_delete line_of
  shell_delete-removes s fb v inside =
      let up : ltb s.cursor_pos s.input_index ≡ true = ground arith in
      let n : s.input_index - s.cursor_pos ≡ suc (s.input_index - 1 - s.cursor_pos) = omega arith in
      let get = λ (j : ℕ). removed-get s.input_buffer s.input_index s.cursor_pos j inside in
      let b = removed s.input_buffer s.input_index s.cursor_pos in
      rw (up, n)
        (
          s.input_buffer s.cursor_pos,
          slice-before b s.input_buffer s.cursor_pos (λ j hj. get j ∙ ground arith),
          ap (λ l. s.input_buffer s.cursor_pos ∷ l)
              (slice-cong s.input_buffer b (suc s.cursor_pos) s.cursor_pos _
                (λ j (hj : j < s.input_index - 1 - s.cursor_pos).
                  let q : s.input_buffer (s.cursor_pos + j + 1)
                      ≡ s.input_buffer (suc s.cursor_pos + j) =
                    ap s.input_buffer (omega arith) in
                  sym (get (s.cursor_pos + j) ∙ ground arith))),
        )

  -- In a well-formed state whose cursor is not at the start, the left key moves the last character
  -- before the cursor to the front of the text behind it.
  pub shell_move_cursor_left-moves :
      (s : ShellState) (fb : Fb)
      → IsValid s
      → 0 < s.cursor_pos
      → let s' = (shell_move_cursor_left sc s fb).0 in
        (x : ℕ) × ((line_of s).before ≡ (line_of s').before ++ (x ∷ []))
        × ((line_of s').after ≡ x ∷ (line_of s).after)
  unfolding shell_move_cursor_left line_of
  shell_move_cursor_left-moves s fb v pos =
      let k = s.cursor_pos - 1 in
      let up : ltb 0 s.cursor_pos ≡ true = ground arith in
      let n : s.input_index - k ≡ suc (s.input_index - s.cursor_pos) = omega (arith, v.cursor_in) in
      let e : s.cursor_pos ≡ suc k = omega arith in
      rw (up, n)
        (
          s.input_buffer k,
          ap (slice s.input_buffer 0) e
              ∙ slice-snoc s.input_buffer 0 k
              ∙ ap (λ x. slice s.input_buffer 0 k ++ (x ∷ [])) (ap s.input_buffer (omega arith)),
          ap (λ z. s.input_buffer k ∷ slice s.input_buffer z (s.input_index - s.cursor_pos))
              (sym e),
        )

  -- The right key moves a character from behind the cursor to before it.
  pub shell_move_cursor_right-moves :
      (s : ShellState) (fb : Fb)
      → IsValid s
      → s.cursor_pos < s.input_index
      → let s' = (shell_move_cursor_right sc s fb).0 in
        (x : ℕ) × ((line_of s').before ≡ (line_of s).before ++ (x ∷ []))
        × ((line_of s).after ≡ x ∷ (line_of s').after)
  unfolding shell_move_cursor_right line_of
  shell_move_cursor_right-moves s fb v inside =
      let up : ltb s.cursor_pos s.input_index ≡ true = ground arith in
      let n : s.input_index - s.cursor_pos ≡ suc (s.input_index - suc s.cursor_pos) = omega arith in
      let e : s.cursor_pos + 1 ≡ suc s.cursor_pos = omega arith in
      rw (up, n, e)
        (
          s.input_buffer s.cursor_pos,
          slice-snoc s.input_buffer 0 s.cursor_pos
              ∙ ap (λ x. slice s.input_buffer 0 s.cursor_pos ++ (x ∷ []))
                  (ap s.input_buffer (omega arith)),
          refl,
        )
