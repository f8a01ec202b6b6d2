-- ===== src/Util/Memory.antt =====
-- `memcpy`, `memset`, `memmove` and `memcmp` of util.c on bytes at addresses. Addresses are taken
-- not to wrap.
use binbows.Base.{
  ℕ, zero, suc, ◌+◌, ◌-◌, ◌%◌, ◌^◌, ◌≤◌, ◌<◌, ◌≡◌, ◌≢◌, ◌↔◌, refl, ap, ◌∙◌, ◌⊎◌, inl, inr, Bool,
  true, false, not, ◌&&◌, arith, ltb, leb, ◌==◌, if◌then◌else◌, update, Bool-cases, ==_iff, ==→ne,
}

abbrev pub Bytes : Type 0
Bytes = ℕ → ℕ

-- From the index `i` on, `rounds` bytes upwards
unfoldable pub copy_up : (rounds i dest src : ℕ) → Bytes → Bytes
copy_up zero i dest src m = m
copy_up (suc n) i dest src m = copy_up n (suc i) dest src (update m (dest + i) (m (src + i)))

-- `for (size_t i = n; i > 0; i--)`
unfoldable pub copy_down : (i dest src : ℕ) → Bytes → Bytes
copy_down zero dest src m = m
copy_down (suc i) dest src m = copy_down i dest src (update m (dest + i) (m (src + i)))

abbrev pub memcpy : (dest src n : ℕ) → Bytes → Bytes
memcpy dest src n m = copy_up n 0 dest src m

unfoldable pub set_loop : (rounds i s c : ℕ) → Bytes → Bytes
set_loop zero i s c m = m
set_loop (suc n) i s c m = set_loop n (suc i) s c (update m (s + i) (c % 2 ^ 8))

abbrev pub memset : (s c n : ℕ) → Bytes → Bytes
memset s c n m = set_loop n 0 s c m

unfoldable pub memmove : (dest src n : ℕ) → Bytes → Bytes
memmove dest src n m =
    if ltb dest src
    then copy_up n 0 dest src m
    else (if ltb src dest then copy_down n dest src m else m)

-- The sign of what `memcmp` returns
pub data Order : Type 0 where
  less : Order
  same : Order
  greater : Order

unfoldable pub compare_loop : (rounds i s1 s2 : ℕ) → Bytes → Order
compare_loop zero i s1 s2 m = same
compare_loop (suc n) i s1 s2 m =
    let rest = compare_loop n (suc i) s1 s2 m in
    if not (m (s1 + i) == m (s2 + i))
    then (if ltb (m (s1 + i)) (m (s2 + i)) then less else greater)
    else rest

abbrev pub memcmp : (s1 s2 n : ℕ) → Bytes → Order
memcmp s1 s2 n m = compare_loop n 0 s1 s2 m

-- One byte copied, and a range above it
copy_up_step :
    (n i dest src : ℕ) (m : Bytes) (j : ℕ)
    → (dest ≤ src) ⊎ (src + (i + suc n) ≤ dest + i)
    → (if leb (dest + suc i) j && ltb j (dest + suc i + n)
        then update m (dest + i) (m (src + i)) (src + (j - dest))
        else update m (dest + i) (m (src + i)) j)
      ≡ (if leb (dest + i) j && ltb j (dest + i + suc n) then m (src + (j - dest)) else m j)
copy_up_step n i dest src m j h = elim (Bool-cases (j == dest + i)) [
  | inl q ↦
      let at = (==_iff j (dest + i)).0 q in
      let outside : (leb (dest + suc i) j && ltb j (dest + suc i + n)) ≡ false =
        ground (arith, at) in
      let inside : (leb (dest + i) j && ltb j (dest + i + suc n)) ≡ true = ground (arith, at) in
      rw (outside, inside, q) (ap m (omega (arith, at)))
  | inr q ↦
      let ne = ==→ne j (dest + i) q in
      elim (Bool-cases (leb (dest + suc i) j && ltb j (dest + suc i + n))) [
        | inl f ↦
            let inside : (leb (dest + i) j && ltb j (dest + i + suc n)) ≡ true =
              ground (arith, f) in
            let other : (src + (j - dest) == dest + i) ≡ false = ground (arith, f, h) in
            rw (f, inside, other) refl
        | inr f ↦
            let outside : (leb (dest + i) j && ltb j (dest + i + suc n)) ≡ false =
              ground (arith, f, ne) in
            rw (f, outside, q) refl
      ]
]

copy_up-get :
    (n i dest src : ℕ) (m : Bytes) (j : ℕ)
    → (dest ≤ src) ⊎ (src + (i + n) ≤ dest + i)
    → copy_up n i dest src m j
      ≡ (if leb (dest + i) j && ltb j (dest + i + n) then m (src + (j - dest)) else m j)
unfolding copy_up
copy_up-get zero i dest src m j h = ground arith
copy_up-get (suc n) i dest src m j h =
    copy_up-get n (suc i) dest src (update m (dest + i) (m (src + i))) j
      (elim h [ inl le ↦ inl le | inr le ↦ inr (omega (arith, le)) ])
    ∙ copy_up_step n i dest src m j h

copy_down-get :
    (i dest src : ℕ) (m : Bytes) (j : ℕ)
    → src ≤ dest
    → copy_down i dest src m j
      ≡ (if leb dest j && ltb j (dest + i) then m (src + (j - dest)) else m j)
unfolding copy_down
copy_down-get zero dest src m j h = ground arith
copy_down-get (suc i) dest src m j h =
    copy_down-get i dest src (update m (dest + i) (m (src + i))) j h
    ∙ (elim (Bool-cases (j == dest + i)) [
      | inl q ↦
          let at = (==_iff j (dest + i)).0 q in
          let outside : (leb dest j && ltb j (dest + i)) ≡ false = ground (arith, at) in
          let inside : (leb dest j && ltb j (dest + suc i)) ≡ true = ground (arith, at) in
          rw (outside, inside, q) (ap m (omega (arith, at)))
      | inr q ↦
          let ne = ==→ne j (dest + i) q in
          elim (Bool-cases (leb dest j && ltb j (dest + i))) [
            | inl f ↦
                let inside : (leb dest j && ltb j (dest + suc i)) ≡ true = ground (arith, f) in
                let other : (src + (j - dest) == dest + i) ≡ false = ground (arith, f, h) in
                rw (f, inside, other) refl
            | inr f ↦
                let outside : (leb dest j && ltb j (dest + suc i)) ≡ false =
                  ground (arith, f, ne) in
                rw (f, outside, q) refl
          ]
    ])

-- `memcpy` between ranges that do not overlap, or downwards
pub memcpy-get :
    (dest src n : ℕ) (m : Bytes) (j : ℕ)
    → (dest ≤ src) ⊎ (src + n ≤ dest)
    → memcpy dest src n m j ≡ (if leb dest j && ltb j (dest + n) then m (src + (j - dest)) else m j)
memcpy-get dest src n m j h = copy_up-get n 0 dest src m j (ground (arith, h)) ∙ start_lem
  where
    zero_end : (d : ℕ) → d + 0 ≡ d
    zero_end d = omega arith

    start_lem :
        (if leb (dest + 0) j && ltb j (dest + 0 + n) then m (src + (j - dest)) else m j)
        ≡ (if leb dest j && ltb j (dest + n) then m (src + (j - dest)) else m j)
    start_lem = rw (zero_end dest) refl

-- `memmove` puts the bytes that were at the source at the target, also where the two ranges
-- overlap, and leaves every other byte as it was.
pub memmove-get :
    (dest src n : ℕ) (m : Bytes) (j : ℕ)
    → memmove dest src n m j
      ≡ (if leb dest j && ltb j (dest + n) then m (src + (j - dest)) else m j)
unfolding memmove
memmove-get dest src n m j = elim (Bool-cases (ltb dest src)) [
  | inl up ↦ rw up (memcpy-get dest src n m j (inl (ground (arith, up))))
  | inr no_up ↦ elim (Bool-cases (ltb src dest)) [
    | inl down ↦ rw (no_up, down) (copy_down-get n dest src m j (ground (arith, down)))
    | inr no_down ↦
        let at : src ≡ dest = ground (arith, no_up, no_down) in
        rw (no_up, no_down)
          (elim (Bool-cases (leb dest j && ltb j (dest + n))) [
            | inl f ↦ rw f (ap m (ground (arith, f, at)))
            | inr f ↦ rw f refl
          ])
  ]
]

set_loop-get :
    (n i s c : ℕ) (m : Bytes) (j : ℕ)
    → set_loop n i s c m j ≡ (if leb (s + i) j && ltb j (s + i + n) then c % 2 ^ 8 else m j)
unfolding set_loop
set_loop-get zero i s c m j = ground arith
set_loop-get (suc n) i s c m j =
    set_loop-get n (suc i) s c (update m (s + i) (c % 2 ^ 8)) j ∙ ground arith

-- `memcmp` finds two ranges equal exactly if they have the same bytes.
compare_loop-same :
    (n i s1 s2 : ℕ) (m : Bytes)
    → (compare_loop n i s1 s2 m ≡ same) ↔ ((j : ℕ) → i ≤ j → j < i + n → m (s1 + j) ≡ m (s2 + j))
unfolding compare_loop
compare_loop-same zero i s1 s2 m = ((λ e j lo hi. absurd (omega (arith, lo, hi))), (λ f. refl))
compare_loop-same (suc n) i s1 s2 m = elim (Bool-cases (m (s1 + i) == m (s2 + i))) [
  | inl e ↦
      let (to, from) = compare_loop-same n (suc i) s1 s2 m in
      rw e (
        (λ r j lo hi. elim (Bool-cases (j == i)) [
          | inl q ↦
              let at : j ≡ i = (==_iff j i).0 q in rw at ((==_iff (m (s1 + i)) (m (s2 + i))).0 e)
          | inr q ↦ to r j (omega (arith, lo, ==→ne j i q)) (omega (arith, hi))
        ]),
        (λ f. from (λ j lo hi. f j (omega (arith, lo)) (omega (arith, hi)))),
      )
  | inr e ↦
      let ne = ==→ne (m (s1 + i)) (m (s2 + i)) e in
      rw e (
        (λ r. absurd (differ (ltb (m (s1 + i)) (m (s2 + i))) r)),
        (λ f. absurd (ne (f i (omega arith) (omega arith)))),
      )
]
  where
    differ : (b : Bool) → (if b then less else greater) ≢ same
    differ true e = ground (arith, e)
    differ false e = ground (arith, e)
