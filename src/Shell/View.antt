-- ===== src/Shell/View.antt =====
-- The line that is being typed as two lists, before and after the cursor, and the loops of shell.c
-- that shift the buffer.
use binbows.Base.{
  ℕ, zero, suc, ◌+◌, ◌-◌, ◌<◌, ◌≡◌, refl, ap, ◌∙◌, ◌&&◌, List, [], ◌∷◌, ◌++◌, arith, ltb, leb,
  if◌then◌else◌, update,
}
use binbows.Shell.Text.{Buffer}
use binbows.Shell.Line.{ShellState, shift_left, shift_right}

abbrev pub slice : Buffer → (i n : ℕ) → List ℕ
slice b i zero = []
slice b i (suc n) = b i ∷ slice b (suc i) n

pub record Line : Type 0 where
  pub before : List ℕ
  pub after : List ℕ

unfoldable pub line_of : ShellState → Line
line_of s = record {
  before = slice s.input_buffer 0 s.cursor_pos;
  after = slice s.input_buffer s.cursor_pos (s.input_index - s.cursor_pos);
}

pub slice-cong :
    (b c : Buffer) (i k n : ℕ)
    → ((j : ℕ) → j < n → b (i + j) ≡ c (k + j))
    → slice b i n ≡ slice c k n
slice-cong b c i k zero h = refl
slice-cong b c i k (suc n) h =
    let e : b i ≡ c k = ap b (omega arith) ∙ h 0 (omega arith) ∙ ap c (omega arith) in
    rw (
      e,
      slice-cong b c (suc i) (suc k) n
          (λ j hj. ap b (omega arith) ∙ h (suc j) (omega (arith, hj)) ∙ ap c (omega arith)),
    )

pub slice-snoc : (b : Buffer) (i n : ℕ) → slice b i (suc n) ≡ slice b i n ++ (b (i + n) ∷ [])
slice-snoc b i zero = let e : i + 0 ≡ i = omega arith in rw e
slice-snoc b i (suc n) =
    let e : suc i + n ≡ i + suc n = omega arith in ap (λ r. b i ∷ r) (slice-snoc b (suc i) n) ∙ rw e

pub shift_left-get :
    (n i : ℕ) (b : Buffer) (j : ℕ)
    → shift_left n i b j ≡ (if leb i j && ltb j (i + n) then b (j + 1) else b j)
unfolding shift_left
shift_left-get zero i b j = ground arith
shift_left-get (suc n) i b j = shift_left-get n (suc i) (update b i (b (i + 1))) j ∙ last
  where
    last :
        (if leb (suc i) j && ltb j (suc i + n)
          then update b i (b (i + 1)) (j + 1)
          else update b i (b (i + 1)) j)
        ≡ (if leb i j && ltb j (i + suc n) then b (j + 1) else b j)
    last = ground arith

pub shift_right-get :
    (n from : ℕ) (b : Buffer) (j : ℕ)
    → shift_right n from b j ≡ (if ltb from j && leb j (from + n) then b (j - 1) else b j)
unfolding shift_right
shift_right-get zero from b j = ground arith
shift_right-get (suc n) from b j =
    shift_right-get n from (update b (from + suc n) (b (from + n))) j ∙ last
  where
    last :
        (if ltb from j && leb j (from + n)
          then update b (from + suc n) (b (from + n)) (j - 1)
          else update b (from + suc n) (b (from + n)) j)
        ≡ (if ltb from j && leb j (from + suc n) then b (j - 1) else b j)
    last = ground arith
