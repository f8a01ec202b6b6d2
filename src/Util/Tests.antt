-- ===== src/Util/Tests.antt =====
-- Runs of the numbers and strings, and witnesses.
use binbows.Base.{ℕ, ◌-◌, ◌^◌, ◌≤◌, ◌<◌, ◌≡◌, ◌↔◌, refl, some, [], ◌∷◌, arith, ◌==◌, if◌then◌else◌}
use binbows.Shell.Text.{Buffer, IsLength}
use binbows.Util.Compare.{strcmp, SameText, strcmp-same, hash_loop, hash_string}
use binbows.Util.Decimal.{Decimal, atoi-int_to_str}
use binbows.Util.Format.{vsnprintf, vsnprintf_loop, directive, conversion, put_digits}
use binbows.Util.Memory.{Order, same, memmove, memmove-get}
use binbows.Util.Number.{int_to_str, digit_loop, reverse_loop, to_str}
use binbows.Util.Print.{vsnprintf-some}

abbrev zeros : Buffer
zeros i = 0

-- The text "-42"
negative_text :
    (len : ℕ) × (out : Buffer) × (int_to_str (2 ^ 32 - 42) zeros ≡ some (len, out))
    × (len ≡ 3)
    × (out 0 ≡ 45)
    × (out 1 ≡ 52)
    × (out 2 ≡ 50)
    × (out 3 ≡ 0)
unfolding int_to_str digit_loop reverse_loop
negative_text = (3, _, refl, refl, refl, refl, refl, refl)

-- The least number prints as "-./,),(-*,(".
least_text :
    (len : ℕ) × (out : Buffer) × (int_to_str (2 ^ 31) zeros ≡ some (len, out))
    × (len ≡ 11)
    × (out 0 ≡ 45)
    × (out 1 ≡ 46)
    × (out 2 ≡ 47)
unfolding int_to_str digit_loop reverse_loop
least_text = (11, _, refl, refl, refl, refl, refl)

atoi-int_to_str_example : Decimal (2 ^ 32 - 42) (int_to_str (2 ^ 32 - 42) zeros)
atoi-int_to_str_example = atoi-int_to_str (2 ^ 32 - 42) zeros (omega arith) (λ e. omega (arith, e))

-- Six bytes moved up by two, within themselves
memmove-get_example : memmove 12 10 6 (λ j. j) 15 ≡ 13
memmove-get_example = memmove-get 12 10 6 (λ j. j) 15

-- "%p"
abbrev pointer_format : Buffer
pointer_format j = if j == 0 then 37 else (if j == 1 then 112 else 0)

-- With two bytes of room, `%p` puts the terminator behind them.
overrun :
    (out : Buffer) × (vsnprintf (λ i. 0) 2 3 (λ j. 7) pointer_format (1 ∷ 2 ∷ []) ≡ some (2, out))
    × (out 2 ≡ 0)
unfolding vsnprintf vsnprintf_loop directive conversion to_str digit_loop put_digits
overrun = (_, refl, refl)

-- "n%d"
abbrev number_format : Buffer
number_format j = if j == 0 then 110 else (if j == 1 then 37 else (if j == 2 then 100 else 0))

number_format-IsLength : IsLength number_format 3
number_format-IsLength = ((λ i h. ground arith), refl)

vsnprintf-some_example :
    (pos : ℕ) × (out : Buffer) × (vsnprintf (λ i. 0) 8 4 (λ j. 7) number_format (5 ∷ 6 ∷ 7 ∷ [])
      ≡ some (pos, out))
    × (pos ≤ 7)
    × (out pos ≡ 0)
    × ((j : ℕ) → 7 < j → out j ≡ 7)
vsnprintf-some_example =
    vsnprintf-some (λ i. 0) 8 7 4 3 (λ j. 7) number_format (5 ∷ 6 ∷ 7 ∷ []) number_format-IsLength
      (omega arith) (omega arith) (λ i h e. ground (arith, e)) (omega arith) (omega arith)

strcmp-same_example :
    (r : Order) × (strcmp 4 number_format pointer_format ≡ some r)
    × ((r ≡ same) ↔ SameText 3 2 number_format pointer_format)
strcmp-same_example =
    strcmp-same 4 3 2 number_format pointer_format number_format-IsLength
      ((λ i h. ground arith), refl) (omega arith)

-- The hash of the empty text
empty_hash : hash_string 1 zeros ≡ some 0x811c9dc5
unfolding hash_loop
empty_hash = refl
