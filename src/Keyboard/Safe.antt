-- ===== src/Keyboard/Safe.antt =====
-- The interrupt handler of ps2_keyboard.c and the well-formedness of the shell's state.
use binbows.Base.{ℕ, ◌≤◌, ◌≡◌, All, List, Option, some}
use binbows.Shell.Screen.{Screen}
use binbows.Shell.Dispatch.{IsCommand}
use binbows.Shell.Parser.{Command}
use binbows.Shell.Text.{Buffer}
use binbows.Shell.Valid.{IsValid}
use binbows.Keyboard.Keys.{Keyboard}

module _ (sc : Screen) (commands : List (Command sc)) (unknown_command : sc.Fb → sc.Fb) (fuel : ℕ)
    (args : ℕ → Buffer) where
  open sc use {Fb}

  -- What is taken of the commands: their names end below the fuel, and their handlers return and keep
  -- the shell well-formed.
  abbrev pub Commands : Type 0
  Commands = All (IsCommand sc fuel) commands × (256 ≤ fuel)

  abbrev FineKey : Option (Keyboard × Fb) → Type 0
  FineKey r = (k' : Keyboard) × (fb' : Fb) × (r ≡ some (k', fb')) × IsValid k'.shell
