-- ===== src/Util/Decimal.antt =====
-- The text that `int_to_str` of util.c writes, and how `atoi` reads it.
use binbows.Base.{
  ℕ, zero, suc, ◌+◌, ◌-◌, ◌*◌, ◌%◌, ◌^◌, ◌≤◌, ◌<◌, ◌≡◌, ◌≢◌, refl, sym, ap, ◌∙◌, inl, inr, true,
  false, ◌||◌, Option, none, some, arith, leb, ◌==◌, update, Bool-cases, ==_iff, lt→ltb, leb→le,
  not-ltb, eq→==, ne→==,
}
use binbows.Shell.Text.{Buffer}
use binbows.Util.Chars.{isdigit, negate, skip_blanks, atoi_digits, atoi_signed, atoi}
use binbows.Util.Digits.{quotient, quotient-suc, quotient-le, Written, digit_loop-Written}
use binbows.Util.Reverse.{reverse_string-get}
use binbows.Util.Number.{digit_char, magnitude_char, finish, sign, int_to_str}

-- The digits of `n` from the first to the last, `r` of them, then something else
abbrev pub Digits : (r n i : ℕ) → Buffer → Type 0
Digits r n i str =
    ((k m : ℕ) → suc (k + m) ≡ r → str (i + k) ≡ digit_char (quotient n 10 m % 10))
    × (str (i + r) ≡ 0)

atoi_digits-Digits :
    (r fuel i acc n : ℕ) (str : Buffer)
    → acc ≡ quotient n 10 r
    → Digits r n i str
    → r < fuel
    → n < 2 ^ 32
    → atoi_digits fuel i acc str ≡ some n
unfolding atoi_digits
atoi_digits-Digits r zero i acc n str e d h bound = absurd (omega arith)
atoi_digits-Digits zero (suc f) i acc n str e (_, end) h bound =
    let at : str i ≡ 0 = ap str (omega arith) ∙ end in
    let stop : isdigit (str i) ≡ false = ground (arith, at) in rw stop (ap some e)
atoi_digits-Digits (suc r) (suc f) i acc n str e (digits, end) h bound =
    let q = quotient n 10 r in
    let first : str i ≡ digit_char (q % 10) = ap str (omega arith) ∙ digits 0 r (omega arith) in
    let digit : str i ≡ q % 10 + 48 = ground (arith, first) in
    let more : isdigit (str i) ≡ true = ground (arith, digit) in
    let step : (acc * 10 + (str i - 48)) % 2 ^ 32 ≡ q =
      omega (arith, e, quotient-suc n 10 r, digit, quotient-le n r) in
    rw more (
      atoi_digits-Digits r f (suc i) ((acc * 10 + (str i - 48)) % 2 ^ 32) n str step
        (
          (λ k m hk. ap str (omega arith) ∙ digits (suc k) m (omega (arith, hk))),
          ap str (omega arith) ∙ end,
        )
        (omega arith) bound)

-- A buffer with the digits of `n` and `i` characters more, turned around with its terminator
finish-Digits :
    (i len n : ℕ) (str : Buffer)
    → ((k : ℕ) → k < len → str k ≡ digit_char (quotient n 10 k % 10))
    → 1 ≤ len
    → Digits len n i (finish (i + len, str)).1
finish-Digits i len n str digits pos =
    let s = update str (i + len) 0 in
    (
      (λ k m e.
          reverse_string-get (i + len) s (i + k) (omega arith)
          ∙ (rw (lt→ltb (i + k) (i + len) (omega (arith, e))) (
              ap s {y = m} (omega (arith, e))
              ∙ (rw (ne→== m (i + len) (λ z. omega (arith, z, e)))
                  (digits m (omega (arith, e))))))),
      reverse_string-get (i + len) s (i + len) (omega arith)
          ∙ rw (not-ltb (i + len) (i + len) (omega arith), eq→== (i + len) (i + len) refl) refl,
    )

-- A number below 2 ^ 32 has at most ten digits.
ten_digits : (n len : ℕ) → n < 2 ^ 32 → ((k : ℕ) → k < len → quotient n 10 k ≢ 0) → len ≤ 10
ten_digits n len bound leading = elim (Bool-cases (leb len 10)) [
  | inl f ↦ leb→le len 10 f
  | inr f ↦ absurd (leading 10 (ground (arith, f)) ten)
]
  where
    ten : quotient n 10 10 ≡ 0
    ten = omega (arith, bound)

quotient_31 : (n : ℕ) → n < 2 ^ 32 → quotient n 10 31 ≡ 0
quotient_31 n bound = omega (arith, bound)

-- Text that does not begin with a blank
atoi_start :
    (f : ℕ) (str : Buffer)
    → (str 0 == 32 || str 0 == 9) ≡ false
    → atoi (suc f) str ≡ atoi_signed (suc f) 0 str
unfolding atoi skip_blanks
atoi_start f str e = rw (e, atoi) refl

-- Text that begins with a digit is read as its digits.
atoi_unsigned :
    (f n : ℕ) (str : Buffer)
    → isdigit (str 0) ≡ true
    → atoi_digits (suc f) 0 0 str ≡ some n
    → atoi (suc f) str ≡ some n
unfolding atoi_signed
atoi_unsigned f n str digit e =
    let no_minus : (str 0 == 45) ≡ false = ground (arith, digit) in
    let no_plus : (str 0 == 43) ≡ false = ground (arith, digit) in
    atoi_start f str (ground (arith, digit)) ∙ rw (no_minus, no_plus) e

-- Text that begins with a minus is read as its digits, negated.
atoi_minus :
    (f n : ℕ) (str : Buffer)
    → str 0 ≡ 45
    → atoi_digits (suc f) 1 0 str ≡ some n
    → atoi (suc f) str ≡ some (negate n)
unfolding atoi_signed
atoi_minus f n str minus e =
    let yes : (str 0 == 45) ≡ true = ground (arith, minus) in
    atoi_start f str (ground (arith, minus)) ∙ rw (yes, e) refl

-- What a conversion to decimal text leaves
abbrev pub Decimal : (w : ℕ) → Option (ℕ × Buffer) → Type 0
Decimal w r =
    (len : ℕ) × (out : Buffer) × (r ≡ some (len, out))
    × (len ≤ 11)
    × (out len ≡ 0)
    × (atoi 32 out ≡ some w)

-- A number above 0 has a digit.
some_digit : (n len : ℕ) → 1 ≤ n → quotient n 10 len ≡ 0 → 1 ≤ len
some_digit n zero pos e = omega (arith, e)
some_digit n (suc k) pos e = omega arith

-- Digits written from the start of a buffer, turned around
Decimal-plain :
    (n : ℕ) (str : Buffer) {r : Option (ℕ × Buffer)}
    → 1 ≤ n
    → n < 2 ^ 32
    → Written 0 n 10 digit_char str r
    → Decimal n (elim r [ none ↦ none | some t ↦ some (finish t) ])
Decimal-plain n str pos bound w =
    let len = w.len in
    let le = ten_digits n len bound w.leading in
    let one = some_digit n len pos w.last in
    let out = (finish (0 + len, w.out)).1 in
    let d : Digits len n 0 out =
      finish-Digits 0 len n w.out (λ k h. ap w.out (omega arith) ∙ w.digits k h) one in
    let top : out 0 ≡ digit_char (quotient n 10 (len - 1) % 10) = d.0 0 (len - 1) (omega arith) in
    let first : isdigit (out 0) ≡ true = ground (arith, top) in
    rw w.result (
      0 + len,
      out,
      refl,
      omega arith,
      d.1,
      atoi_unsigned 31 n out first
          (atoi_digits-Digits len 32 0 0 n out (sym w.last) d (omega arith) bound),
    )

-- Digits and a minus
Decimal-minus :
    (n : ℕ) (char : ℕ → ℕ) (str : Buffer) {r : Option (ℕ × Buffer)}
    → 1 ≤ n
    → n < 2 ^ 31
    → ((k : ℕ) → char k ≡ digit_char k)
    → Written 0 n 10 char str r
    → Decimal (2 ^ 32 - n) (elim r [ none ↦ none | some t ↦ some (finish (sign t)) ])
Decimal-minus n char str pos bound same w =
    let len = w.len in
    let le = ten_digits n len (omega arith) w.leading in
    let one = some_digit n len pos w.last in
    let s = update w.out (0 + len) 45 in
    let out = (finish (suc (0 + len), s)).1 in
    let shift : suc (0 + len) ≡ 1 + len = omega arith in
    let turned : (finish (1 + len, s)).1 ≡ out = ap (λ k. (finish (k, s)).1) (sym shift) in
    let d : Digits len n 1 out = rw turned at (
      finish-Digits 1 len n s
        (λ k h.
          ne_update w.out k len h
          ∙ (ap w.out {y = 0 + k} (omega arith) ∙ (w.digits k h ∙ same (quotient n 10 k % 10))))
        one) in
    let first : out 0 ≡ 45 =
      reverse_string-get (suc (0 + len)) (update s (suc (0 + len)) 0) 0 (omega arith)
      ∙ ground arith in
    rw w.result (
      suc (0 + len),
      out,
      refl,
      omega arith,
      ap out shift ∙ d.1,
      atoi_minus 31 n out first
            (atoi_digits-Digits len 32 1 0 n out (sym w.last) d (omega arith) (omega arith))
          ∙ ap some (omega arith),
    )
  where
    ne_update : (f : Buffer) (k len : ℕ) → k < len → update f (0 + len) 45 k ≡ f k
    ne_update f k len h = ground arith

zero_text : (str : Buffer) → atoi 32 (update (update str 0 48) 1 0) ≡ some 0
unfolding atoi skip_blanks atoi_signed atoi_digits
zero_text str = refl

-- For the 32-bit word of an `int` other than the least: `int_to_str` writes a text of at most 11
-- characters and its terminator, and `atoi` reads the same word back.
pub atoi-int_to_str :
    (w : ℕ) (str : Buffer) → w < 2 ^ 32 → w ≢ 2 ^ 31 → Decimal w (int_to_str w str)
unfolding int_to_str
atoi-int_to_str w str bound ne = elim (Bool-cases (w == 0)) [
  | inl z ↦
      rw (z, (==_iff w 0).0 z)
        (1, update (update str 0 48) 1 0, refl, omega arith, refl, zero_text str)
  | inr pos ↦
      let one : 1 ≤ w = ground (arith, pos) in
      elim (Bool-cases (leb (2 ^ 31) w)) [
        | inl neg ↦
            let high = leb→le (2 ^ 31) w neg in
            let back : 2 ^ 32 - (2 ^ 32 - w) ≡ w = omega arith in
            rw (pos, neg)
              (rw back at (
                Decimal-minus (2 ^ 32 - w) (magnitude_char w) str (omega arith) (omega (arith, ne))
                  (λ k. rw (ne→== w (2 ^ 31) ne) refl)
                  (digit_loop-Written 31 0 (2 ^ 32 - w) 10 (magnitude_char w) str
                    (quotient_31 (2 ^ 32 - w) (omega arith)))))
        | inr plain ↦
            rw (pos, plain)
              (Decimal-plain w str one bound
                (digit_loop-Written 31 0 w 10 digit_char str (quotient_31 w bound)))
      ]
]
