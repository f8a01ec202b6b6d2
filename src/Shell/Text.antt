-- ===== src/Shell/Text.antt =====
-- `strlen`, `strcpy` and `strncpy` of kernel/src/x86_64/utils/util.c on buffers of `size` bytes. A
-- buffer is a function from the index; `none` is a run past the buffer.
use binbows.Base.{
  ℕ, zero, suc, ◌+◌, ◌≤◌, ◌<◌, ◌≡◌, ◌≢◌, refl, sym, ap, ◌∙◌, inl, inr, ◌&&◌, Option, none, some,
  arith, ltb, leb, ◌==◌, if◌then◌else◌, update, Bool-cases, ==_iff, ==→ne, ltb→lt, lt→ltb, ne→==,
}

abbrev pub Buffer : Type 0
Buffer = ℕ → ℕ

unfoldable pub strlen_loop : (size i : ℕ) → Buffer → Option ℕ
strlen_loop zero i s = none
strlen_loop (suc n) i s = let rest = strlen_loop n (suc i) s in if s i == 0 then some i else rest

abbrev pub strlen : (size : ℕ) → Buffer → Option ℕ
strlen size s = strlen_loop size 0 s

-- The terminating zero is not copied.
unfoldable pub strcpy_loop : (size i : ℕ) → Buffer → Buffer → Option Buffer
strcpy_loop zero i dest src = none
strcpy_loop (suc n) i dest src =
    let rest = strcpy_loop n (suc i) (update dest i (src i)) src in
    if src i == 0 then some dest else rest

abbrev pub strcpy : (size : ℕ) → Buffer → Buffer → Option Buffer
strcpy size dest src = strcpy_loop size 0 dest src

-- The second loop of `strncpy`
unfoldable pub pad_loop : (rounds i : ℕ) → Buffer → Buffer
pad_loop zero i dest = dest
pad_loop (suc n) i dest = pad_loop n (suc i) (update dest i 0)

unfoldable pub strncpy_loop : (rounds i : ℕ) → Buffer → Buffer → Buffer
strncpy_loop zero i dest src = dest
strncpy_loop (suc n) i dest src =
    let rest = strncpy_loop n (suc i) (update dest i (src i)) src in
    let padded = pad_loop (suc n) i dest in if src i == 0 then padded else rest

abbrev pub strncpy : Buffer → Buffer → ℕ → Buffer
strncpy dest src n = strncpy_loop n 0 dest src

-- `len` is where the first zero is.
abbrev pub IsLength : Buffer → ℕ → Type 0
IsLength s len = ((i : ℕ) → i < len → s i ≢ 0) × (s len ≡ 0)

strlen_loop-some :
    (n i : ℕ) (s : Buffer)
    → ((j : ℕ) → j < i → s j ≢ 0)
    → (z : ℕ) → z < i + n
    → i ≤ z
    → s z ≡ 0
    → (len : ℕ) × (strlen_loop n i s ≡ some len) × IsLength s len × (len ≤ z)
unfolding strlen_loop
strlen_loop-some zero i s below z hz hi e = absurd (omega arith)
strlen_loop-some (suc n) i s below z hz hi e = elim (Bool-cases (s i == 0)) [
  | inl stop ↦ rw stop (i, refl, (below, (==_iff (s i) 0).0 stop), hi)
  | inr more ↦
      let ne = ==→ne (s i) 0 more in
      let lt : i < z = omega (
        arith,
        elim (Bool-cases (i == z)) as (λ _. i ≢ z) [
          | inl q ↦ λ f. ne (ap s f ∙ e)
          | inr q ↦ ==→ne i z q
        ],
      ) in
      rw more (
        strlen_loop-some n (suc i) s
          (λ j hj. elim (Bool-cases (j == i)) [
            | inl q ↦ rw ((==_iff j i).0 q) ne
            | inr q ↦ below j (omega (arith, ==→ne j i q))
          ])
          z (omega arith) (omega arith) e)
]

-- In a buffer with a zero, `strlen` finds the first.
pub strlen-some :
    (size z : ℕ) (s : Buffer)
    → z < size
    → s z ≡ 0
    → (len : ℕ) × (strlen size s ≡ some len) × IsLength s len × (len ≤ z)
strlen-some size z s hz e =
    strlen_loop-some size 0 s (λ j hj. absurd (omega (arith, hj))) z (omega arith) (omega arith) e

strcpy_loop-some :
    (n i : ℕ) (dest src : Buffer) (len : ℕ)
    → IsLength src len
    → len < i + n
    → i ≤ len
    → (out : Buffer) × (strcpy_loop n i dest src ≡ some out)
      × ((j : ℕ) → i ≤ j → j < len → out j ≡ src j)
      × ((j : ℕ) → j < i → out j ≡ dest j)
      × ((j : ℕ) → len ≤ j → out j ≡ dest j)
unfolding strcpy_loop
strcpy_loop-some zero i dest src len h hn hi = absurd (omega arith)
strcpy_loop-some (suc n) i dest src len (full, z) hn hi = elim (Bool-cases (src i == 0)) [
  | inl stop ↦
      let le : len ≤ i = elim (Bool-cases (ltb i len)) [
        | inl lt ↦ absurd (full i (ltb→lt i len lt) ((==_iff (src i) 0).0 stop))
        | inr ge ↦ ground arith
      ] in
      rw stop
        (dest, refl, (λ j hj lt. absurd (omega (arith, hj, lt))), (λ j hj. refl), (λ j hj. refl))
  | inr more ↦
      let lt : i < len = elim (Bool-cases (i == len)) [
        | inl q ↦ absurd (==→ne (src i) 0 more (ap src ((==_iff i len).0 q) ∙ z))
        | inr q ↦ omega (arith, ==→ne i len q)
      ] in
      let (out, e, mid, low, high) =
        strcpy_loop-some n (suc i) (update dest i (src i)) src len (full, z) (omega arith)
          (omega arith) in
      rw more (
        out,
        e,
        (λ j hj hl. elim (Bool-cases (j == i)) [
          | inl q ↦
              let at : j ≡ i = (==_iff j i).0 q in
              low j (omega (arith, at)) ∙ (rw q (ap src (sym at)))
          | inr q ↦ mid j (omega (arith, hj, ==→ne j i q)) hl
        ]),
        (λ j hj. low j (omega (arith, hj)) ∙ rw (ne→== j i (λ f. omega (arith, f, hj)))),
        (λ j hj. high j hj ∙ rw (ne→== j i (λ f. omega (arith, f, hj)))),
      )
]

-- `strcpy` copies a terminated string and leaves the rest of the target, the place of the
-- terminating zero included, as it was.
pub strcpy-some :
    (size : ℕ) (dest src : Buffer) (len : ℕ)
    → IsLength src len
    → len < size
    → (out : Buffer) × (strcpy size dest src ≡ some out)
      × ((j : ℕ) → j < len → out j ≡ src j)
      × ((j : ℕ) → len ≤ j → out j ≡ dest j)
strcpy-some size dest src len h hs =
    let (out, e, mid, low, high) =
      strcpy_loop-some size 0 dest src len h (omega arith) (omega arith) in
    (out, e, (λ j hj. mid j (omega arith) hj), high)

pad_loop-get :
    (n i : ℕ) (dest : Buffer) (j : ℕ)
    → pad_loop n i dest j ≡ (if leb i j && ltb j (i + n) then 0 else dest j)
unfolding pad_loop
pad_loop-get zero i dest j = ground arith
pad_loop-get (suc n) i dest j = pad_loop-get n (suc i) (update dest i 0) j ∙ last
  where
    last :
        (if leb (suc i) j && ltb j (suc i + n) then 0 else update dest i 0 j)
        ≡ (if leb i j && ltb j (i + suc n) then 0 else dest j)
    last = ground arith

strncpy_low : (n i : ℕ) (dest src : Buffer) (j : ℕ) → j < i → strncpy_loop n i dest src j ≡ dest j
unfolding strncpy_loop
strncpy_low zero i dest src j h = refl
strncpy_low (suc n) i dest src j h = elim (Bool-cases (src i == 0)) [
  | inl e ↦ rw e (pad_loop-get (suc n) i dest j ∙ ground arith)
  | inr e ↦ rw e (strncpy_low n (suc i) (update dest i (src i)) src j (omega arith) ∙ ground arith)
]

strncpy_loop-get :
    (n i : ℕ) (dest src : Buffer) (len j : ℕ)
    → IsLength src len
    → i ≤ len
    → len < i + n
    → i ≤ j
    → j < i + n
    → strncpy_loop n i dest src j ≡ (if ltb j len then src j else 0)
unfolding strncpy_loop
strncpy_loop-get zero i dest src len j h hi hn lo hi' = absurd (omega arith)
strncpy_loop-get (suc n) i dest src len j (full, z) hi hn lo hj = elim (Bool-cases (src i == 0)) [
  | inl stop ↦
      let le : len ≤ i = elim (Bool-cases (ltb i len)) [
        | inl lt ↦ absurd (full i (ltb→lt i len lt) ((==_iff (src i) 0).0 stop))
        | inr ge ↦ ground arith
      ] in
      rw stop (pad_loop-get (suc n) i dest j ∙ ground arith)
  | inr more ↦
      let lt : i < len = elim (Bool-cases (i == len)) [
        | inl q ↦ absurd (==→ne (src i) 0 more (ap src ((==_iff i len).0 q) ∙ z))
        | inr q ↦ omega (arith, ==→ne i len q)
      ] in
      rw more (elim (Bool-cases (j == i)) [
        | inl q ↦
            let at : j ≡ i = (==_iff j i).0 q in
            strncpy_low n (suc i) (update dest i (src i)) src j (omega (arith, at))
            ∙ rw q (ap src (sym at) ∙ rw (lt→ltb j len (omega (arith, at, lt))))
        | inr q ↦
            strncpy_loop-get n (suc i) (update dest i (src i)) src len j (full, z) (omega arith)
              (omega arith) (omega (arith, ==→ne j i q)) (omega arith)
      ])
]

-- `strncpy` copies a terminated string and fills the rest with zeros.
pub strncpy-get :
    (n : ℕ) (dest src : Buffer) (len j : ℕ)
    → IsLength src len
    → len < n
    → j < n
    → strncpy dest src n j ≡ (if ltb j len then src j else 0)
strncpy-get n dest src len j h hn hj =
    strncpy_loop-get n 0 dest src len j h (omega arith) (omega arith) (omega arith) (omega arith)
