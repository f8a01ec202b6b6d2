-- ===== src/Util/Number.antt =====
-- Numbers as text in util.c: digits from the last to the first, then turned around. A buffer is a
-- function from the index.
use binbows.Base.{
  ℕ, zero, suc, ◌+◌, ◌-◌, ◌/◌, ◌%◌, ◌^◌, Option, none, some, ltb, leb, ◌==◌, if◌then◌else◌, update,
  length,
}
use binbows.Shell.Text.{Buffer}

-- `(rem > 9) ? (rem - 10) + 'a' : rem + '0'`
abbrev pub digit_char : ℕ → ℕ
digit_char rem = if ltb 9 rem then rem - 10 + 97 else rem + 48

-- `while (start < end)`, `rounds` of them
unfoldable pub reverse_loop : (rounds start end : ℕ) → Buffer → Buffer
reverse_loop zero start end str = str
reverse_loop (suc n) start end str =
    let rest =
      reverse_loop n (suc start) (end - 1) (update (update str start (str end)) end (str start)) in
    if ltb start end then rest else str

-- `end` is -1 in C for length 0, and 0 here: the loop does not run either way.
abbrev pub reverse_string : Buffer → (length : ℕ) → Buffer
reverse_string str length = reverse_loop length 0 (length - 1) str

-- `rem + '0'` for a remainder below 0, whose magnitude is given
abbrev pub minus_char : ℕ → ℕ
minus_char rem = 48 - rem

-- `while (num != 0)`; `none` is a number with more digits than the fuel.
unfoldable pub digit_loop : (fuel i num base : ℕ) → (char : ℕ → ℕ) → Buffer → Option (ℕ × Buffer)
digit_loop zero i num base char str = if num == 0 then some (i, str) else none
digit_loop (suc n) i num base char str =
    let rest = digit_loop n (suc i) (num / base) base char (update str i (char (num % base))) in
    if num == 0 then some (i, str) else rest

-- The terminator, and the digits turned around
abbrev pub finish : ℕ × Buffer → ℕ × Buffer
finish (i, str) = (i, reverse_string (update str i 0) i)

-- What the unsigned conversions do on their words. `char temp[32]` has room for 31 digits.
unfoldable pub to_str : (num : ℕ) → Buffer → (base : ℕ) → Option (ℕ × Buffer)
to_str num str base =
    if num == 0
    then some (1, update (update str 0 48) 1 0)
    else (elim (digit_loop 31 0 num base digit_char str) [ none ↦ none | some r ↦ some (finish r) ])

abbrev pub ulonglong_to_str : (num : ℕ) → Buffer → (base : ℕ) → Option (ℕ × Buffer)
ulonglong_to_str num str base = to_str (num % 2 ^ 64) str base

abbrev pub ulong_to_str : (num : ℕ) → Buffer → (base : ℕ) → Option (ℕ × Buffer)
ulong_to_str num str base = to_str (num % 2 ^ 64) str base

abbrev pub uint_to_str : (num : ℕ) → Buffer → (base : ℕ) → Option (ℕ × Buffer)
uint_to_str num str base = to_str (num % 2 ^ 32) str base

-- `str[i++] = '-'`
abbrev pub sign : ℕ × Buffer → ℕ × Buffer
sign (i, str) = (suc i, update str i 45)

-- `-num` wraps: the least number is its own negation and keeps its sign.
abbrev pub magnitude_char : (num : ℕ) → ℕ → ℕ
magnitude_char num rem = if num == 2 ^ 31 then minus_char rem else digit_char rem

-- On the 32-bit word of `num`. The code calls it with base 10 only.
unfoldable pub int_to_str : (num : ℕ) → Buffer → Option (ℕ × Buffer)
int_to_str num str =
    if num == 0
    then some (1, update (update str 0 48) 1 0)
    else (if leb (2 ^ 31) num
        then (elim (digit_loop 31 0 (2 ^ 32 - num) 10 (magnitude_char num) str) [
          | none ↦ none
          | some r ↦ some (finish (sign r))
        ])
        else (elim (digit_loop 31 0 num 10 digit_char str) [
          | none ↦ none
          | some r ↦ some (finish r)
        ]))
