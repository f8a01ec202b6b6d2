-- ===== src/Util/Reverse.antt =====
-- `reverse_string` of util.c turns a text around.
use binbows.Base.{
  ℕ, zero, suc, ◌+◌, ◌-◌, ◌≤◌, ◌<◌, ◌≡◌, refl, ap, ◌∙◌, inl, inr, true, false, ◌&&◌, arith, ltb,
  leb, ◌==◌, if◌then◌else◌, update, Bool-cases, ==_iff, ltb→lt,
}
use binbows.Shell.Text.{Buffer}
use binbows.Util.Number.{reverse_loop, reverse_string}

-- Two places that trade their values
abbrev swapped : (s e : ℕ) → Buffer → Buffer
swapped s e str = update (update str s (str e)) e (str s)

swapped-turned :
    (s e : ℕ) (str : Buffer) (j : ℕ)
    → s < e
    → (if leb (suc s) j && leb j (e - 1)
        then swapped s e str (suc s + (e - 1) - j)
        else swapped s e str j)
      ≡ (if leb s j && leb j e then str (s + e - j) else str j)
swapped-turned s e str j lt = elim (Bool-cases (j == s)) [
  | inl q ↦
      let at = (==_iff j s).0 q in
      let inner : (leb (suc s) j && leb j (e - 1)) ≡ false = ground (arith, at) in
      let outer : (leb s j && leb j e) ≡ true = ground (arith, at) in
      let here : swapped s e str j ≡ str e = ground (arith, at) in
      rw (inner, outer) (here ∙ ap str (omega (arith, at)))
  | inr q ↦ elim (Bool-cases (j == e)) [
    | inl r ↦
        let at = (==_iff j e).0 r in
        let inner : (leb (suc s) j && leb j (e - 1)) ≡ false = ground (arith, at) in
        let outer : (leb s j && leb j e) ≡ true = ground (arith, at) in
        let here : swapped s e str j ≡ str s = ground (arith, at) in
        rw (inner, outer) (here ∙ ap str (omega (arith, at)))
    | inr r ↦ elim (Bool-cases (leb s j && leb j e)) [
      | inl f ↦
          let inner : (leb (suc s) j && leb j (e - 1)) ≡ true = ground (arith, f, q, r) in
          let mirror : suc s + (e - 1) - j ≡ s + e - j = omega arith in
          let off_start : (s + e - j == s) ≡ false = ground (arith, f, q, r) in
          let off_end : (s + e - j == e) ≡ false = ground (arith, f, q, r) in
          rw (inner, f, mirror, off_start, off_end) refl
      | inr f ↦
          let inner : (leb (suc s) j && leb j (e - 1)) ≡ false = ground (arith, f, q, r) in
          rw (inner, f, q, r) refl
    ]
  ]
]

reverse_loop-get :
    (n s e : ℕ) (str : Buffer) (j : ℕ)
    → e ≤ s + n
    → reverse_loop n s e str j ≡ (if leb s j && leb j e then str (s + e - j) else str j)
unfolding reverse_loop
reverse_loop-get zero s e str j h = elim (Bool-cases (leb s j && leb j e)) [
  | inl f ↦ rw f (ap str (ground (arith, f)))
  | inr f ↦ rw f refl
]
reverse_loop-get (suc n) s e str j h = elim (Bool-cases (ltb s e)) [
  | inl lt ↦
      let below = ltb→lt s e lt in
      rw lt (
        reverse_loop-get n (suc s) (e - 1) (swapped s e str) j (omega arith)
        ∙ swapped-turned s e str j below)
  | inr ge ↦ rw ge (elim (Bool-cases (leb s j && leb j e)) [
    | inl f ↦ rw f (ap str (ground (arith, f, ge)))
    | inr f ↦ rw f refl
  ])
]

pub reverse_string-get :
    (len : ℕ) (str : Buffer) (j : ℕ)
    → 1 ≤ len
    → reverse_string str len j ≡ (if ltb j len then str (len - 1 - j) else str j)
reverse_string-get len str j pos =
    reverse_loop-get len 0 (len - 1) str j (omega arith) ∙ (elim (Bool-cases (ltb j len)) [
      | inl f ↦
          let le : (leb 0 j && leb j (len - 1)) ≡ true = ground (arith, f) in
          rw (le, f) (ap str (omega arith))
      | inr f ↦ let gt : (leb 0 j && leb j (len - 1)) ≡ false = ground (arith, f) in rw (gt, f) refl
    ])
