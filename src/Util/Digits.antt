-- ===== src/Util/Digits.antt =====
-- What the digit loop of util.c's number conversions writes
use binbows.Base.{
  by_place, ℕ, zero, suc, ◌+◌, ◌/◌, ◌%◌, ◌≤◌, ◌<◌, ◌≡◌, ◌≢◌, refl, ap, ◌∙◌, inl, inr, true, Option,
  some, arith, ◌==◌, update, Bool-cases, ==_iff, ==→ne, eq→==,
}
use binbows.Shell.Text.{Buffer}
use binbows.Util.Number.{digit_loop}

-- The number divided by the base `k` times
abbrev pub quotient : (n base k : ℕ) → ℕ
quotient n base zero = n
quotient n base (suc k) = quotient (n / base) base k

pub quotient-suc : (n base k : ℕ) → quotient n base (suc k) ≡ quotient n base k / base
quotient-suc n base zero = refl
quotient-suc n base (suc k) = quotient-suc (n / base) base k

pub quotient-le : (n k : ℕ) → quotient n 10 k ≤ n
quotient-le n zero = omega arith
quotient-le n (suc k) = let rest = quotient-le (n / 10) k in omega arith

-- The digits of `n`, the last one first, from the index `i` on
pub record Written (i n base : ℕ) (char : ℕ → ℕ) (str : Buffer) (r : Option (ℕ × Buffer))
    : Type 0 where
  pub len : ℕ
  pub out : Buffer
  pub result : r ≡ some (i + len, out)
  pub digits : (k : ℕ) → k < len → out (i + k) ≡ char (quotient n base k % base)
  pub leading : (k : ℕ) → k < len → quotient n base k ≢ 0
  pub last : quotient n base len ≡ 0
  pub kept : (j : ℕ) → j < i → out j ≡ str j
  pub above : (j : ℕ) → i + len ≤ j → out j ≡ str j

pub digit_loop-Written :
    (fuel i n base : ℕ) (char : ℕ → ℕ) (str : Buffer)
    → quotient n base fuel ≡ 0
    → Written i n base char str (digit_loop fuel i n base char str)
unfolding digit_loop
digit_loop-Written zero i n base char str e =
    let stop : (n == 0) ≡ true = eq→== n 0 e in
    rw stop (record {
      len = 0;
      out = str;
      result = ap (λ x. some (x, str)) (omega arith);
      digits = λ k h. absurd (omega (arith, h));
      leading = λ k h. absurd (omega (arith, h));
      last = e;
      kept = λ j h. refl;
      above = λ j h. refl;
    })
digit_loop-Written (suc f) i n base char str e = elim (Bool-cases (n == 0)) [
  | inl stop ↦ rw stop (record {
    len = 0;
    out = str;
    result = ap (λ x. some (x, str)) (omega arith);
    digits = λ k h. absurd (omega (arith, h));
    leading = λ k h. absurd (omega (arith, h));
    last = (==_iff n 0).0 stop;
    kept = λ j h. refl;
    above = λ j h. refl;
  })
  | inr more ↦
      let str' = update str i (char (n % base)) in
      let w = digit_loop-Written f (suc i) (n / base) base char str' e in
      rw more (record {
        len = suc w.len;
        out = w.out;
        result = w.result ∙ ap (λ x. some (x, w.out)) (omega arith);
        digits =
            by_place (λ k. w.out (i + k) ≡ char (quotient n base k % base))
              (ap w.out (omega arith) ∙ (w.kept i (omega arith) ∙ ground arith))
              (λ k h. ap w.out (omega arith) ∙ w.digits k h);
        leading = by_place (λ k. quotient n base k ≢ 0) (==→ne n 0 more) w.leading;
        last = w.last;
        kept = λ j h. w.kept j (omega (arith, h)) ∙ ground (arith, h);
        above = λ j h. w.above j (omega (arith, h)) ∙ ground (arith, h);
      })
]
