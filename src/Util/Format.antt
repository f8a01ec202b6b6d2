-- ===== src/Util/Format.antt =====
-- `vsnprintf` of util.c. The format is a buffer of its own, the texts for `%s` stand in memory; `none`
-- is a run past the fuel, a text past it, or fewer arguments than the format asks for.
use binbows.Base.{
  ℕ, zero, suc, ◌+◌, ◌-◌, ◌%◌, ◌^◌, not, ◌||◌, Option, none, some, List, [], ◌∷◌, ltb, leb, ◌==◌,
  if◌then◌else◌, update,
}
use binbows.Shell.Text.{Buffer}
use binbows.Util.Number.{int_to_str, uint_to_str, ulong_to_str, ulonglong_to_str}

-- `size` and what the loop changes: the place in the format, the 64-bit words that are left of the
-- arguments, the length so far and the output
pub record Printer : Type 0 where
  pub format : ℕ
  pub args : List ℕ
  pub pos : ℕ
  pub buf : Buffer

-- `buf[pos++] = c`
abbrev pub put : (c : ℕ) → Printer → Printer
put c p = record p { pos = suc p.pos; buf = update p.buf p.pos c }

-- `for (int i = 0; i < len && pos < size - 1; i++)`
unfoldable pub put_digits : (rounds i size : ℕ) → (temp : Buffer) → Printer → Printer
put_digits zero i size temp p = p
put_digits (suc n) i size temp p =
    let rest = put_digits n (suc i) size temp (put (temp i) p) in
    if ltb p.pos (size - 1) then rest else p

-- `while (*s && pos < size - 1)`: there are `room` places before `size - 1`.
unfoldable pub put_string : (room i : ℕ) → (s : Buffer) → Printer → Printer
put_string zero i s p = p
put_string (suc n) i s p =
    let rest = put_string n (suc i) s (put (s i) p) in if s i == 0 then p else rest

-- `"(null)"`
abbrev null_text : Buffer
null_text =
    update (update (update (update (update (update (λ i. 0) 0 40) 1 110) 2 117) 3 108) 4 108) 5 41

abbrev pub text_at : (memory : ℕ → ℕ) → (s : ℕ) → Buffer
text_at memory s = if s == 0 then null_text else (λ i. memory (s + i))

-- A number that was written to `temp`
abbrev pub put_number : (size : ℕ) → Option (ℕ × Buffer) → Printer → Option Printer
put_number size none p = none
put_number size (some (len, temp)) p = some (put_digits len 0 size temp p)

-- `va_arg`, and what is done with the word
abbrev pub take_arg : List ℕ → (ℕ → Printer → Option Printer) → Printer → Option Printer
take_arg [] f p = none
take_arg (word ∷ words) f p = f word (record p { args = words })

abbrev pub with_arg : (ℕ → Printer → Option Printer) → Printer → Option Printer
with_arg f p = take_arg p.args f p

pub data Modifier : Type 0 where
  plain : Modifier
  is_long : Modifier
  is_longlong : Modifier

abbrev pub unsigned_text : Modifier → (base word : ℕ) → Option (ℕ × Buffer)
unsigned_text plain base word = uint_to_str word (λ i. 0) base
unsigned_text is_long base word = ulong_to_str word (λ i. 0) base
unsigned_text is_longlong base word = ulonglong_to_str word (λ i. 0) base

-- `%` at the place before `at`: the character of the conversion, the modifier in front of it and
-- where it stands; `none` is the end of the format.
unfoldable pub conversion : (format : Buffer) → (at : ℕ) → Option (ℕ × Modifier × ℕ)
conversion format at =
    let c2 = format (suc at) in
    let c3 = format (suc (suc at)) in
    if format at == 0
    then none
    else (if not (format at == 108)
        then some (format at, plain, at)
        else (if c2 == 0
            then none
            else (if not (c2 == 108)
                then some (c2, is_long, suc at)
                else (if c3 == 0 then none else some (c3, is_longlong, suc (suc at))))))

-- `format++` at the end of the branch
abbrev pub next_format : Printer → Printer
next_format p = record p { format = suc p.format }

module _ (memory : ℕ → ℕ) (size : ℕ) where
  -- What stands behind the percent sign and the modifier
  unfoldable pub directive : (c : ℕ) → Modifier → Printer → Option Printer
  directive c modifier p =
      if c == 37
      then some (put 37 p)
      else (if c == 115
          then with_arg (λ word q. some (put_string (size - 1 - q.pos) 0 (text_at memory word) q)) p
          else (if c == 99
              then with_arg (λ word q. some (put (word % 2 ^ 8) q)) p
              else (if c == 100 || c == 105
                  then with_arg (λ word q. put_number size (int_to_str (word % 2 ^ 32) (λ i. 0)) q)
                      p
                  else (if c == 117
                      then with_arg (λ word q. put_number size (unsigned_text modifier 10 word) q) p
                      else (if c == 120
                          then with_arg
                              (λ word q. put_number size (unsigned_text modifier 16 word) q) p
                          else (if c == 112
                              then with_arg
                                  (λ word q. put_number size (ulong_to_str word (λ i. 0) 16) q)
                                  (put 120 (put 48 p))
                              else some p))))))

  unfoldable pub vsnprintf_loop : (fuel : ℕ) → (format : Buffer) → Printer → Option Printer
  vsnprintf_loop zero format p = none
  vsnprintf_loop (suc n) format p =
      let c = format p.format in
      let literal = vsnprintf_loop n format (next_format (put c p)) in
      let converted : Option Printer = elim (conversion format (suc p.format)) [
        | none ↦ some p
        | some (d, modifier, at) ↦ elim (directive d modifier (record p { format = at })) [
          | none ↦ none
          | some q ↦ vsnprintf_loop n format (next_format q)
        ]
      ] in
      if c == 0 || leb (size - 1) p.pos then some p else (if c == 37 then converted else literal)

  -- `buf[pos] = '\0'`; `buf` and `format` are not null.
  unfoldable pub vsnprintf :
      (fuel : ℕ) → (buf format : Buffer) → (args : List ℕ) → Option (ℕ × Buffer)
  vsnprintf fuel buf format args =
      if size == 0
      then some (0, buf)
      else (elim (vsnprintf_loop fuel format
          (record { format = 0; args = args; pos = 0; buf = buf })) [
            | none ↦ none
            | some p ↦ some (p.pos, update p.buf p.pos 0)
          ])
