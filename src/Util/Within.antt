-- ===== src/Util/Within.antt =====
-- What the steps of `vsnprintf` of util.c write.
use binbows.Base.{
  ℕ, zero, suc, ◌+◌, ◌-◌, ◌%◌, ◌^◌, ◌≤◌, ◌<◌, ◌≡◌, refl, ◌∙◌, inl, inr, Option, none, some, List,
  [], ◌∷◌, arith, ltb, leb, ◌==◌, update, length, Bool-cases, ltb→lt,
}
use binbows.Shell.Text.{Buffer}
use binbows.Util.Digits.{digit_loop-Written, quotient}
use binbows.Util.Format.{
  Printer, put, put_digits, put_string, put_number, take_arg, Modifier, plain, is_long, is_longlong,
  unsigned_text,
}
use binbows.Util.Number.{digit_char, magnitude_char, finish, to_str, int_to_str}

-- `q` comes from `p` without a step of the format: the length stays within `limit`, nothing behind it
-- is written, and `n` arguments are left.
abbrev Within : (limit n : ℕ) → Printer → Printer → Type 0
Within limit n p q =
    (q.pos ≤ limit)
    × ((j : ℕ) → limit ≤ j → q.buf j ≡ p.buf j)
    × (q.format ≡ p.format)
    × (n ≤ length q.args)

abbrev pub Prints : (limit n : ℕ) → Printer → Option Printer → Type 0
Prints limit n p r = (q : Printer) × (r ≡ some q) × Within limit n p q

pub put-Within :
    (limit n c : ℕ) (p : Printer) → p.pos < limit → n ≤ length p.args → Within limit n p (put c p)
put-Within limit n c p h a = (omega arith, (λ j hj. ground arith), refl, a)

pub Within-trans :
    (limit n : ℕ) (p q r : Printer) → Within limit n p q → Within limit n q r → Within limit n p r
Within-trans limit n p q r (_, k1, f1, _) (b2, k2, f2, a2) =
    (b2, (λ j h. k2 j h ∙ k1 j h), f2 ∙ f1, a2)

put_digits-Within :
    (k i size limit n : ℕ) (temp : Buffer) (p : Printer)
    → size - 1 ≤ limit
    → p.pos ≤ limit
    → n ≤ length p.args
    → Within limit n p (put_digits k i size temp p)
unfolding put_digits
put_digits-Within zero i size limit n temp p le h a = (h, (λ j hj. refl), refl, a)
put_digits-Within (suc k) i size limit n temp p le h a = elim (Bool-cases (ltb p.pos (size - 1))) [
  | inl f ↦
      let room = ltb→lt p.pos (size - 1) f in
      rw f (
        Within-trans limit n p (put (temp i) p) (put_digits k (suc i) size temp (put (temp i) p))
          (put-Within limit n (temp i) p (omega arith) a)
          (put_digits-Within k (suc i) size limit n temp (put (temp i) p) le (omega arith) a))
  | inr f ↦ rw f (h, (λ j hj. refl), refl, a)
]

pub put_string-Within :
    (k i limit n : ℕ) (s : Buffer) (p : Printer)
    → p.pos + k ≤ limit
    → n ≤ length p.args
    → Within limit n p (put_string k i s p)
unfolding put_string
put_string-Within zero i limit n s p h a = (omega arith, (λ j hj. refl), refl, a)
put_string-Within (suc k) i limit n s p h a = elim (Bool-cases (s i == 0)) [
  | inl f ↦ rw f (omega arith, (λ j hj. refl), refl, a)
  | inr f ↦ rw f (
      Within-trans limit n p (put (s i) p) (put_string k (suc i) s (put (s i) p))
        (put-Within limit n (s i) p (omega arith) a)
        (put_string-Within k (suc i) limit n s (put (s i) p) (omega arith) a))
]

-- A number below 2 ^ 64 has at most 31 digits.
abbrev pub IsText : Option (ℕ × Buffer) → Type 0
IsText r = (t : ℕ × Buffer) × (r ≡ some t)

to_str-some :
    (num base : ℕ) (str : Buffer) → quotient num base 31 ≡ 0 → IsText (to_str num str base)
unfolding to_str
to_str-some num base str e = elim (Bool-cases (num == 0)) [
  | inl f ↦ rw f ((1, update (update str 0 48) 1 0), refl)
  | inr f ↦
      let w = digit_loop-Written 31 0 num base digit_char str e in
      rw (f, w.result) (finish (0 + w.len, w.out), refl)
]

quotient_10 : (n : ℕ) → n < 2 ^ 64 → quotient n 10 31 ≡ 0
quotient_10 n h = omega (arith, h)

quotient_16 : (n : ℕ) → n < 2 ^ 64 → quotient n 16 31 ≡ 0
quotient_16 n h = omega (arith, h)

pub int_to_str-some : (num : ℕ) (str : Buffer) → num < 2 ^ 32 → IsText (int_to_str num str)
unfolding int_to_str
int_to_str-some num str h = elim (Bool-cases (num == 0)) [
  | inl f ↦ rw f ((1, update (update str 0 48) 1 0), refl)
  | inr f ↦ elim (Bool-cases (leb (2 ^ 31) num)) [
    | inl neg ↦
        let w =
          digit_loop-Written 31 0 (2 ^ 32 - num) 10 (magnitude_char num) str
            (quotient_10 (2 ^ 32 - num) (omega arith)) in
        rw (f, neg, w.result) (finish (suc (0 + w.len), update w.out (0 + w.len) 45), refl)
    | inr pos ↦
        let w = digit_loop-Written 31 0 num 10 digit_char str (quotient_10 num (omega arith)) in
        rw (f, pos, w.result) (finish (0 + w.len, w.out), refl)
  ]
]

pub unsigned_text-some :
    (m : Modifier) (word : ℕ) → IsText (unsigned_text m 10 word) × IsText (unsigned_text m 16 word)
unsigned_text-some plain word = (
  to_str-some (word % 2 ^ 32) 10 (λ i. 0) (quotient_10 (word % 2 ^ 32) (omega arith)),
  to_str-some (word % 2 ^ 32) 16 (λ i. 0) (quotient_16 (word % 2 ^ 32) (omega arith)),
)
unsigned_text-some is_long word = (
  to_str-some (word % 2 ^ 64) 10 (λ i. 0) (quotient_10 (word % 2 ^ 64) (omega arith)),
  to_str-some (word % 2 ^ 64) 16 (λ i. 0) (quotient_16 (word % 2 ^ 64) (omega arith)),
)
unsigned_text-some is_longlong word = (
  to_str-some (word % 2 ^ 64) 10 (λ i. 0) (quotient_10 (word % 2 ^ 64) (omega arith)),
  to_str-some (word % 2 ^ 64) 16 (λ i. 0) (quotient_16 (word % 2 ^ 64) (omega arith)),
)

pub put_number-Prints :
    (size limit n : ℕ) (p : Printer) (r : Option (ℕ × Buffer))
    → IsText r
    → size - 1 ≤ limit
    → p.pos ≤ limit
    → n ≤ length p.args
    → Prints limit n p (put_number size r p)
put_number-Prints size limit n p none (t, e) le h a = absurd (ground (arith, e))
put_number-Prints size limit n p (some (len, temp)) t le h a =
    (put_digits len 0 size temp p, refl, put_digits-Within len 0 size limit n temp p le h a)

pub take_arg-Prints :
    (limit n : ℕ) (args : List ℕ) (f : ℕ → Printer → Option Printer) (p : Printer)
    → suc n ≤ length args
    → ((word : ℕ) (words : List ℕ)
        → n ≤ length words
        → Prints limit n p (f word (record p { args = words })))
    → Prints limit n p (take_arg args f p)
take_arg-Prints limit n [] f p h go = absurd (omega arith)
take_arg-Prints limit n (word ∷ words) f p h go = go word words (omega arith)
