-- ===== src/Keyboard/Keys.antt =====
-- From scan codes to keys and characters, and what each key does: ps2_keyboard.c. The table of
-- commands with their handlers is a parameter; `none` is a run past the fuel of the parser, or a
-- handler that does not return.
use binbows.Base.{
  ℕ, ◌+◌, ◌-◌, ◌/◌, ◌%◌, Bool, true, false, not, ◌&&◌, ◌||◌, Option, none, some, List, [], ◌∷◌, ltb,
  leb, ◌==◌, if◌then◌else◌,
}
use binbows.Shell.Screen.{Screen}
use binbows.Shell.Line.{
  ShellState, shell_delete, shell_move_cursor_left, shell_move_cursor_right, shell_move_cursor_home,
  shell_move_cursor_end, shell_cancel_input,
}
use binbows.Shell.Parser.{Command, parse_command}
use binbows.Shell.Text.{Buffer}
use binbows.Shell.Input.{input, shell_history_up, shell_history_down}

-- `modifier_state_t`
pub record Modifiers : Type 0 where
  pub caps_lock : Bool
  pub shift : Bool
  pub ctrl : Bool
  pub alt : Bool
  pub extended : Bool

-- The place of a list, 0 beyond its end
abbrev pub entry_at : List ℕ → ℕ → ℕ
entry_at [] i = 0
entry_at (x ∷ xs) i = if i == 0 then x else entry_at xs (i - 1)

abbrev pub scancode_to_key : ℕ → ℕ
scancode_to_key scancode =
    entry_at
      (0 ∷ 1 ∷ 49 ∷ 50 ∷ 51 ∷ 52 ∷ 53 ∷ 54 ∷ 55 ∷ 56 ∷ 57 ∷ 48 ∷ 45 ∷ 61 ∷ 8 ∷ 9 ∷ 113 ∷ 119 ∷ 101
        ∷ 114 ∷ 116 ∷ 121 ∷ 117 ∷ 105 ∷ 111 ∷ 112 ∷ 91 ∷ 93 ∷ 10 ∷ 2 ∷ 97 ∷ 115 ∷ 100 ∷ 102 ∷ 103
        ∷ 104 ∷ 106 ∷ 107 ∷ 108 ∷ 59 ∷ 39 ∷ 96 ∷ 3 ∷ 92 ∷ 122 ∷ 120 ∷ 99 ∷ 118 ∷ 98 ∷ 110 ∷ 109 ∷ 44
        ∷ 46 ∷ 47 ∷ 4 ∷ 42 ∷ 5 ∷ 32 ∷ 6 ∷ 128 ∷ 129 ∷ 130 ∷ 131 ∷ 132 ∷ 133 ∷ 134 ∷ 135 ∷ 136 ∷ 137
        ∷ 0 ∷ 0 ∷ 140 ∷ 144 ∷ 142 ∷ 0 ∷ 146 ∷ 0 ∷ 147 ∷ 0 ∷ 141 ∷ 145 ∷ 143 ∷ 148 ∷ 149 ∷ [])
      scancode

abbrev pub normal_map : List ℕ
normal_map =
    49 ∷ 50 ∷ 51 ∷ 52 ∷ 53 ∷ 54 ∷ 55 ∷ 56 ∷ 57 ∷ 48 ∷ 45 ∷ 61 ∷ 91 ∷ 93 ∷ 92 ∷ 59 ∷ 39 ∷ 96 ∷ 44
    ∷ 46 ∷ 47 ∷ []

abbrev pub shift_map : List ℕ
shift_map =
    33 ∷ 64 ∷ 35 ∷ 36 ∷ 37 ∷ 94 ∷ 38 ∷ 42 ∷ 40 ∷ 41 ∷ 95 ∷ 43 ∷ 123 ∷ 125 ∷ 124 ∷ 58 ∷ 34 ∷ 126 ∷ 60
    ∷ 62 ∷ 63 ∷ []

-- The loop over `normal_map`; without a match, the character itself
unfoldable pub shifted : (from to : List ℕ) → ℕ → ℕ
shifted [] to c = c
shifted (x ∷ xs) [] c = c
shifted (x ∷ xs) (y ∷ ys) c = if x == c then y else shifted xs ys c

abbrev pub xor : Bool → Bool → Bool
xor true b = not b
xor false b = b

unfoldable pub get_character : Modifiers → ℕ → ℕ
get_character m key =
    if key == 0 || leb 128 key
    then 0
    else (if leb 97 key && leb key 122
        then (if xor m.caps_lock m.shift then key - 97 + 65 else key)
        else (if m.shift then shifted normal_map shift_map key else key))

pub record Keyboard : Type 0 where
  pub modifiers : Modifiers
  pub shell : ShellState

unfoldable pub handle_key_release : ℕ → Modifiers → Modifiers
handle_key_release key m =
    if key == 3 || key == 4
    then record m { shift = false }
    else (if key == 2
        then record m { ctrl = false }
        else (if key == 5 then record m { alt = false } else m))

module _ (sc : Screen) (commands : List (Command sc)) (unknown_command : sc.Fb → sc.Fb) (fuel : ℕ)
    (args : ℕ → Buffer) where
  open sc use {Fb}

  -- `char *command = input(c); if (command) parse_command();`
  unfoldable pub type_char : ℕ → ShellState → Fb → Option (ShellState × Fb)
  type_char c s fb = elim (input sc c s fb) [
    | none ↦ none
    | some (entered, s', fb') ↦
        if entered
        then parse_command sc commands unknown_command fuel args s' fb'
        else some (s', fb')
  ]

  -- `input` whose result is dropped
  unfoldable pub type_control : ℕ → ShellState → Fb → Option (ShellState × Fb)
  type_control c s fb = elim (input sc c s fb) [
    | none ↦ none
    | some (entered, s', fb') ↦ some (s', fb')
  ]

  -- `c | 0x20` in the switch over the control characters: with bit 5 set
  abbrev pub lower_case : ℕ → ℕ
  lower_case c = if c / 32 % 2 == 1 then c else c + 32

  unfoldable pub control_key : ℕ → ShellState → Fb → Option (ShellState × Fb)
  control_key c s fb =
      let k = lower_case c in
      if k == 108
      then type_control 12 s fb
      else (if k == 117
          then type_control 21 s fb
          else (if k == 100
              then type_control 4 s fb
              else (if k == 97
                  then some (shell_move_cursor_home sc s fb)
                  else (if k == 101
                      then some (shell_move_cursor_end sc s fb)
                      else (if k == 99 then some (shell_cancel_input sc s fb) else some (s, fb))))))

  -- The keys of the shell
  unfoldable pub shell_key : ℕ → Modifiers → ShellState → Fb → Option (ShellState × Fb)
  shell_key key m s fb =
      if key == 8
      then type_char 8 s fb
      else (if key == 10
          then type_char 10 s fb
          else (if key == 140
              then some (shell_move_cursor_home sc s fb)
              else (if key == 141
                  then some (shell_move_cursor_end sc s fb)
                  else (if key == 144
                      then shell_history_up sc s fb
                      else (if key == 145
                          then shell_history_down sc s fb
                          else (if key == 146
                              then some (shell_move_cursor_left sc s fb)
                              else (if key == 147
                                  then some (shell_move_cursor_right sc s fb)
                                  else (if key == 149
                                      then some (shell_delete sc s fb)
                                      else (if leb 32 key && leb key 126
                                          then (let c = get_character m key in
                                              if c == 0
                                              then some (s, fb)
                                              else (if m.ctrl
                                                  then control_key c s fb
                                                  else type_char c s fb))
                                          else some (s, fb))))))))))

  -- The modifiers first, then the keys of the shell
  unfoldable pub handle_key_press : ℕ → Keyboard → Fb → Option (Keyboard × Fb)
  handle_key_press key k fb =
      let m = k.modifiers in
      if key == 3 || key == 4
      then some (record k { modifiers = record m { shift = true } }, fb)
      else (if key == 2
          then some (record k { modifiers = record m { ctrl = true } }, fb)
          else (if key == 5
              then some (record k { modifiers = record m { alt = true } }, fb)
              else (if key == 6
                  then some (record k { modifiers = record m { caps_lock = not m.caps_lock } }, fb)
                  else elim (shell_key key m k.shell fb) [
                    | none ↦ none
                    | some (s', fb') ↦ some (record k { shell = s' }, fb')
                  ])))

  abbrev pub clear_extended : Keyboard → Keyboard
  clear_extended k = record k { modifiers = record k.modifiers { extended = false } }

  -- The handler of the interrupt; the argument is what the controller's data port holds, `none` if
  -- its status says that it holds nothing. The table has 128 entries, so `scancode >= 128` is never
  -- true after the mask.
  unfoldable pub keyboard_handler : Option ℕ → Keyboard → Fb → Option (Keyboard × Fb)
  keyboard_handler none k fb = some (k, fb)
  keyboard_handler (some scancode_raw) k fb =
      if scancode_raw == 0xE0
      then some (record k { modifiers = record k.modifiers { extended = true } }, fb)
      else (let scancode = scancode_raw % 128 in
          if leb 128 scancode
          then some (clear_extended k, fb)
          else (let key = scancode_to_key scancode in
              if ltb scancode_raw 128
              then elim (handle_key_press key k fb) [
                | none ↦ none
                | some (k', fb') ↦ some (clear_extended k', fb')
              ]
              else some (
                clear_extended (record k { modifiers = handle_key_release key k.modifiers }),
                fb,
              )))
