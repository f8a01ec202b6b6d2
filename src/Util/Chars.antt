-- ===== src/Util/Chars.antt =====
-- Characters of util.c, and its integers from decimal text. A `char` above 127 is negative in C and
-- falls in none of the ranges; here it is above them.
use binbows.Base.{
  ℕ, zero, suc, ◌+◌, ◌-◌, ◌*◌, ◌%◌, ◌^◌, ◌≡◌, Bool, ◌&&◌, ◌||◌, Option, none, some, arith, leb,
  ◌==◌, if◌then◌else◌,
}
use binbows.Shell.Text.{Buffer}

-- `none` is -1.
unfoldable pub char_to_int : ℕ → Option ℕ
char_to_int c = if leb 48 c && leb c 57 then some (c - 48) else none

abbrev pub isdigit : ℕ → Bool
isdigit c = leb 48 c && leb c 57

abbrev pub isalpha : ℕ → Bool
isalpha c = (leb 97 c && leb c 122) || (leb 65 c && leb c 90)

abbrev pub isalnum : ℕ → Bool
isalnum c = isalpha c || isdigit c

abbrev pub isspace : ℕ → Bool
isspace c = c == 32 || c == 9 || c == 10 || c == 13 || c == 12 || c == 11

abbrev pub toupper : ℕ → ℕ
toupper c = if leb 97 c && leb c 122 then c - 97 + 65 else c

abbrev pub tolower : ℕ → ℕ
tolower c = if leb 65 c && leb c 90 then c - 65 + 97 else c

-- The 32-bit word of an `int`, negated
abbrev pub negate : ℕ → ℕ
negate n = (2 ^ 32 - n) % 2 ^ 32

-- `while (str[i] == ' ' || str[i] == '\t') i++`
unfoldable pub skip_blanks : (fuel i : ℕ) → Buffer → Option ℕ
skip_blanks zero i str = none
skip_blanks (suc n) i str =
    let rest = skip_blanks n (suc i) str in if str i == 32 || str i == 9 then rest else some i

-- `while (str[i] >= '0' && str[i] <= '9')`, on the 32-bit word of `result`
unfoldable pub atoi_digits : (fuel i result : ℕ) → Buffer → Option ℕ
atoi_digits zero i result str = none
atoi_digits (suc n) i result str =
    let rest = atoi_digits n (suc i) ((result * 10 + (str i - 48)) % 2 ^ 32) str in
    if isdigit (str i) then rest else some result

-- The sign and what follows it
unfoldable pub atoi_signed : (fuel i : ℕ) → Buffer → Option ℕ
atoi_signed fuel i str =
    if str i == 45
    then (elim (atoi_digits fuel (suc i) 0 str) [ none ↦ none | some r ↦ some (negate r) ])
    else (if str i == 43 then atoi_digits fuel (suc i) 0 str else atoi_digits fuel i 0 str)

-- The 32-bit word of the `int`; `none` is a string longer than the fuel.
unfoldable pub atoi : (fuel : ℕ) → Buffer → Option ℕ
atoi fuel str = elim (skip_blanks fuel 0 str) [ none ↦ none | some i ↦ atoi_signed fuel i str ]

-- The case of a letter changes back and forth.
pub tolower-toupper : (c : ℕ) → tolower (toupper (tolower c)) ≡ tolower c
tolower-toupper c = ground arith

pub isalpha-toupper : (c : ℕ) → isalpha (toupper c) ≡ isalpha c
isalpha-toupper c = ground arith
