-- ===== src/Shell/Word.antt =====
-- What the inner loops of `parse_args` of cmd_parser.c take from a line.
use binbows.Base.{
  by_place, ℕ, zero, suc, ◌+◌, ◌≤◌, ◌<◌, ◌≡◌, ◌≢◌, refl, sym, ap, ◌∙◌, inl, inr, true, false, ◌||◌,
  Option, some, arith, ◌==◌, update, Bool-cases, ==_iff, ==→ne, eq→==,
}
use binbows.Shell.Parser.{is_blank, copy_arg, Parsed}
use binbows.Shell.Text.{Buffer, IsLength}
use binbows.Util.Chars.{skip_blanks}
use binbows.Util.Compare.{lt_length}

-- `arg` is a word of at most 31 characters of the command, with its terminator.
pub record IsWord (command : Buffer) (len : ℕ) (arg : Buffer) : Type 0 where
  pub from : ℕ
  pub size : ℕ
  pub nonempty : 1 ≤ size
  pub fits : size ≤ 31
  pub inside : from + size ≤ len
  pub chars : (k : ℕ) → k < size → arg k ≡ command (from + k)
  pub plain : (k : ℕ) → k < size → is_blank (arg k) ≡ false
  pub full : (k : ℕ) → k < size → arg k ≢ 0
  pub ended : arg size ≡ 0

-- The characters that `copy_arg` takes from the place `p` to the index `j` on
pub record Copied (n p j len : ℕ) (command arg : Buffer) (r : ℕ × ℕ × Buffer) : Type 0 where
  pub size : ℕ
  pub bound : size ≤ n
  pub at : r.0 ≡ p + size
  pub index : r.1 ≡ j + size
  pub inside : p + size ≤ len
  pub chars : (k : ℕ) → k < size → r.2 (j + k) ≡ command (p + k)
  pub plain : (k : ℕ) → k < size → is_blank (command (p + k)) ≡ false
  pub full : (k : ℕ) → k < size → command (p + k) ≢ 0
  pub below : (k : ℕ) → k < j → r.2 k ≡ arg k
  pub start : 1 ≤ n → command p ≢ 0 → is_blank (command p) ≡ false → 1 ≤ size

Copied-none :
    (n p j len : ℕ) (command arg : Buffer)
    → p ≤ len
    → (1 ≤ n → command p ≢ 0 → is_blank (command p) ≡ false → ⊥)
    → Copied n p j len command arg (p, j, arg)
Copied-none n p j len command arg le stop = record {
  size = 0;
  bound = omega arith;
  at = omega arith;
  index = omega arith;
  inside = omega arith;
  chars = λ k h. absurd (omega (arith, h));
  plain = λ k h. absurd (omega (arith, h));
  full = λ k h. absurd (omega (arith, h));
  below = λ k h. refl;
  start = λ a b c. absurd (stop a b c);
}

pub copy_arg-Copied :
    (n p j len : ℕ) (command arg : Buffer)
    → IsLength command len
    → p ≤ len
    → Copied n p j len command arg (copy_arg n p j command arg)
unfolding copy_arg
copy_arg-Copied zero p j len command arg h le =
    Copied-none 0 p j len command arg le (λ a b c. omega (arith, a))
copy_arg-Copied (suc n) p j len command arg h le =
    elim (Bool-cases (command p == 0 || is_blank (command p))) [
      | inl e ↦ rw e (Copied-none (suc n) p j len command arg le (λ a b c. ground (arith, e, b, c)))
      | inr e ↦
          let ne : command p ≢ 0 = ground (arith, e) in
          let plain_here : is_blank (command p) ≡ false = ground (arith, e) in
          let lt = lt_length len p command h le ne in
          let c = copy_arg-Copied n (suc p) (suc j) len command (update arg j (command p)) h lt in
          rw e (record {
            size = suc c.size;
            bound = omega (arith, c.bound);
            at = omega (arith, c.at);
            index = omega (arith, c.index);
            inside = omega (arith, c.inside);
            chars =
                by_place
                  (λ k.
                    (copy_arg n (suc p) (suc j) command (update arg j (command p))).2 (j + k)
                    ≡ command (p + k))
                  (ap (copy_arg n (suc p) (suc j) command (update arg j (command p))).2
                      (omega arith)
                    ∙ (c.below j (omega arith) ∙ (written ∙ ap command (omega arith))))
                  (λ k hk.
                    ap (copy_arg n (suc p) (suc j) command (update arg j (command p))).2
                      (omega arith)
                    ∙ (c.chars k hk ∙ ap command (omega arith)));
            plain =
                by_place (λ k. is_blank (command (p + k)) ≡ false)
                  (ap (λ x. is_blank (command x)) (omega arith) ∙ plain_here)
                  (λ k hk. ap (λ x. is_blank (command x)) (omega arith) ∙ c.plain k hk);
            full =
                by_place (λ k. command (p + k) ≢ 0) (λ z. ne (ap command (omega arith) ∙ z))
                  (λ k hk z. c.full k hk (ap command (omega arith) ∙ z));
            below = λ k hk. c.below k (omega (arith, hk)) ∙ kept k hk;
            start = λ a b c. omega arith;
          })
    ]
  where
    written : update arg j (command p) j ≡ command p
    written = rw (eq→== j j refl) refl

    kept : (k : ℕ) → k < j → update arg j (command p) k ≡ arg k
    kept k hk = ground (arith, hk)

-- Where `skip_blanks` stops
pub record Skipped (p len : ℕ) (command : Buffer) (r : Option ℕ) : Type 0 where
  pub place : ℕ
  pub result : r ≡ some place
  pub lo : p ≤ place
  pub hi : place ≤ len
  pub stop : is_blank (command place) ≡ false
  pub blanks : (k : ℕ) → p ≤ k → k < place → is_blank (command k) ≡ true

pub skip_blanks-Skipped :
    (fuel p len : ℕ) (command : Buffer)
    → IsLength command len
    → p ≤ len
    → len < p + fuel
    → Skipped p len command (skip_blanks fuel p command)
unfolding skip_blanks
skip_blanks-Skipped zero p len command h le enough = absurd (omega arith)
skip_blanks-Skipped (suc n) p len command h le enough = elim (Bool-cases (is_blank (command p))) [
  | inr e ↦ rw e (record {
    place = p;
    result = refl;
    lo = omega arith;
    hi = le;
    stop = e;
    blanks = λ k a b. absurd (omega (arith, a, b));
  })
  | inl e ↦
      let lt = lt_length len p command h le (ground (arith, e)) in
      let s = skip_blanks-Skipped n (suc p) len command h lt (omega arith) in
      rw e (record {
        place = s.place;
        result = s.result;
        lo = omega (arith, s.lo);
        hi = s.hi;
        stop = s.stop;
        blanks = λ k a b. elim (Bool-cases (k == p)) [
          | inl q ↦ ap (λ x. is_blank (command x)) ((==_iff k p).0 q) ∙ e
          | inr q ↦ s.blanks k (omega (arith, a, ==→ne k p q)) b
        ];
      })
]

-- `argc` arguments, each of them a word
abbrev pub AreWords : Buffer → (len : ℕ) → (ℕ → Buffer) → (argc : ℕ) → Type 0
AreWords command len args argc = (i : ℕ) → i < argc → IsWord command len (args i)

-- What the loop of `parse_args` finds from the place `p` on
abbrev pub FromHere : Buffer → (len p argc : ℕ) → Option Parsed → Type 0
FromHere command len p argc r =
    (args' : ℕ → Buffer) × (argc' : ℕ) × (r ≡ some (args', argc'))
    × (argc' ≤ 8)
    × (argc ≤ argc')
    × AreWords command len args' argc'
    × (argc' ≡ argc → argc < 8 → (k : ℕ) → p ≤ k → k < len → is_blank (command k) ≡ true)

kept_below : (f : Buffer) (k i : ℕ) → k < i → update f i 0 k ≡ f k
kept_below f k i hk = ground (arith, hk)

ended_at : (f : Buffer) (i k : ℕ) → i ≡ k → update f i 0 k ≡ 0
ended_at f i k e = ground (arith, e)

-- A word that is copied and terminated
pub Copied-IsWord :
    (command : Buffer) (len q : ℕ) (arg : Buffer)
    → (c : Copied 31 q 0 len command arg (copy_arg 31 q 0 command arg)) → command q ≢ 0
    → is_blank (command q) ≡ false
    → let r = copy_arg 31 q 0 command arg in IsWord command len (update r.2 r.1 0)
Copied-IsWord command len q arg c ne plain =
    let r = copy_arg 31 q 0 command arg in
    let here : (k : ℕ) → k < c.size → update r.2 r.1 0 k ≡ command (q + k) = λ k hk.
      kept_below r.2 k r.1 (omega (arith, hk, c.index)) ∙ (ap r.2 (omega arith) ∙ c.chars k hk) in
    record {
      from = q;
      size = c.size;
      nonempty = c.start (omega arith) ne plain;
      fits = c.bound;
      inside = c.inside;
      chars = here;
      plain = λ k hk. ap is_blank (here k hk) ∙ c.plain k hk;
      full = λ k hk z. c.full k hk (sym (here k hk) ∙ z);
      ended = ended_at r.2 r.1 c.size (omega (arith, c.index));
    }
