-- ===== src/Util/Compare.antt =====
-- Strings of util.c compared, searched and joined. A string is a buffer with a terminating zero;
-- `none` is a run past the fuel. The pointers are not null.
use Prim.Native.Nat.{bit_xor}
use binbows.Base.{
  ℕ, zero, suc, ◌+◌, ◌*◌, ◌%◌, ◌^◌, ◌≤◌, ◌<◌, ◌≡◌, ◌≢◌, ◌↔◌, refl, sym, ap, ◌∙◌, inl, inr, false,
  not, ◌&&◌, Option, none, some, arith, ltb, ◌==◌, if◌then◌else◌, update, Bool-cases, ==_iff, ==→ne,
}
use binbows.Shell.Text.{Buffer, IsLength, strlen}
use binbows.Util.Memory.{Order, less, same, greater}

-- The sign of `a - b`
abbrev pub sign_of : (a b : ℕ) → Order
sign_of a b = if a == b then same else (if ltb a b then less else greater)

-- `while (*str1 && *str2 && *str1 == *str2)`, and the sign of what is returned
unfoldable pub strcmp_loop : (fuel i : ℕ) → Buffer → Buffer → Option Order
strcmp_loop zero i str1 str2 = none
strcmp_loop (suc n) i str1 str2 =
    let rest = strcmp_loop n (suc i) str1 str2 in
    if not (str1 i == 0) && not (str2 i == 0) && str1 i == str2 i
    then rest
    else some (sign_of (str1 i) (str2 i))

abbrev pub strcmp : (fuel : ℕ) → Buffer → Buffer → Option Order
strcmp fuel str1 str2 = strcmp_loop fuel 0 str1 str2

-- The index at which `c` stands; the inner `none` is NULL.
unfoldable pub strchr_loop : (fuel i : ℕ) → Buffer → (c : ℕ) → Option (Option ℕ)
strchr_loop zero i s c = none
strchr_loop (suc n) i s c =
    let rest = strchr_loop n (suc i) s c in
    if s i == 0
    then some (if c == 0 then some i else none)
    else (if s i == c then some (some i) else rest)

abbrev pub strchr : (fuel : ℕ) → Buffer → (c : ℕ) → Option (Option ℕ)
strchr fuel s c = strchr_loop fuel 0 s c

unfoldable pub strrchr_loop : (fuel i : ℕ) → Buffer → (c : ℕ) → Option ℕ → Option (Option ℕ)
strrchr_loop zero i s c last = none
strrchr_loop (suc n) i s c last =
    let rest = strrchr_loop n (suc i) s c (if s i == c then some i else last) in
    if s i == 0 then some (if c == 0 then some i else last) else rest

abbrev pub strrchr : (fuel : ℕ) → Buffer → (c : ℕ) → Option (Option ℕ)
strrchr fuel s c = strrchr_loop fuel 0 s c none

-- The second loop of `strcat`, and its terminator
unfoldable pub strcat_loop : (fuel at i : ℕ) → Buffer → Buffer → Option Buffer
strcat_loop zero at i dest src = none
strcat_loop (suc n) at i dest src =
    let rest = strcat_loop n (suc at) (suc i) (update dest at (src i)) src in
    if src i == 0 then some (update dest at 0) else rest

-- The first loop finds the end of the target as `strlen` does.
unfoldable pub strcat : (fuel : ℕ) → Buffer → Buffer → Option Buffer
strcat fuel dest src = elim (strlen fuel dest) [
  | none ↦ none
  | some at ↦ strcat_loop fuel at 0 dest src
]

abbrev pub fnv_prime : ℕ
fnv_prime = 0x01000193

unfoldable pub hash_loop : (fuel i hash : ℕ) → Buffer → Option ℕ
hash_loop zero i hash str = none
hash_loop (suc n) i hash str =
    let rest = hash_loop n (suc i) (bit_xor hash (str i % 2 ^ 8) * fnv_prime % 2 ^ 32) str in
    if str i == 0 then some hash else rest

abbrev pub hash_string : (fuel : ℕ) → Buffer → Option ℕ
hash_string fuel str = hash_loop fuel 0 0x811c9dc5 str

-- Two strings are equal if they have the same length and characters.
abbrev pub SameText : (len1 len2 : ℕ) → Buffer → Buffer → Type 0
SameText len1 len2 s1 s2 = (len1 ≡ len2) × ((j : ℕ) → j < len1 → s1 j ≡ s2 j)

-- Up to its length a string has no zero.
pub lt_length : (len i : ℕ) (s : Buffer) → IsLength s len → i ≤ len → s i ≢ 0 → i < len
lt_length len i s (full, z) le ne = elim (Bool-cases (i == len)) [
  | inl q ↦ absurd (ne (ap s ((==_iff i len).0 q) ∙ z))
  | inr q ↦ omega (arith, ==→ne i len q)
]

sign_of-same : (a b : ℕ) → (sign_of a b ≡ same) ↔ (a ≡ b)
sign_of-same a b = elim (Bool-cases (a == b)) [
  | inl e ↦ rw e ((λ r. (==_iff a b).0 e), (λ r. refl))
  | inr e ↦ elim (Bool-cases (ltb a b)) [
    | inl f ↦ rw (e, f) ((λ r. ground (arith, r)), (λ r. absurd (==→ne a b e r)))
    | inr f ↦ rw (e, f) ((λ r. ground (arith, r)), (λ r. absurd (==→ne a b e r)))
  ]
]

-- Where the loop of `strcmp` stops
stopped :
    (i len1 len2 : ℕ) (s1 s2 : Buffer)
    → IsLength s1 len1
    → IsLength s2 len2
    → i ≤ len1
    → i ≤ len2
    → ((j : ℕ) → j < i → s1 j ≡ s2 j)
    → (not (s1 i == 0) && not (s2 i == 0) && s1 i == s2 i) ≡ false
    → (s1 i ≡ s2 i) ↔ SameText len1 len2 s1 s2
stopped i len1 len2 s1 s2 (full1, z1) (full2, z2) le1 le2 e stop = elim (Bool-cases (i == len1)) [
  | inl q1 ↦
      let at1 : i ≡ len1 = (==_iff i len1).0 q1 in
      let end1 : s1 i ≡ 0 = ap s1 at1 ∙ z1 in
      (
        (λ r. (at_end at1 (sym r ∙ end1), (λ j h. e j (omega (arith, h, at1))))),
        (λ (same_len, _). end1 ∙ sym (ap s2 (at1 ∙ same_len) ∙ z2)),
      )
  | inr q1 ↦
      let lt1 : i < len1 = omega (arith, ==→ne i len1 q1) in
      let ne1 = full1 i lt1 in
      ((λ r. absurd (ground (arith, stop, ne1, r))), (λ (_, same_chars). same_chars i lt1))
]
  where
    at_end : i ≡ len1 → s2 i ≡ 0 → len1 ≡ len2
    at_end at z = elim (Bool-cases (i == len2)) [
      | inl q ↦ omega (arith, at, (==_iff i len2).0 q)
      | inr q ↦ absurd (full2 i (omega (arith, ==→ne i len2 q)) z)
    ]

strcmp_loop-some :
    (n i len1 len2 : ℕ) (s1 s2 : Buffer)
    → IsLength s1 len1
    → IsLength s2 len2
    → len1 < i + n
    → i ≤ len1
    → i ≤ len2
    → ((j : ℕ) → j < i → s1 j ≡ s2 j)
    → (r : Order) × (strcmp_loop n i s1 s2 ≡ some r) × ((r ≡ same) ↔ SameText len1 len2 s1 s2)
unfolding strcmp_loop
strcmp_loop-some zero i len1 len2 s1 s2 h1 h2 fuel le1 le2 e = absurd (omega arith)
strcmp_loop-some (suc n) i len1 len2 s1 s2 (full1, z1) (full2, z2) fuel le1 le2 e =
    elim (Bool-cases (not (s1 i == 0) && not (s2 i == 0) && s1 i == s2 i)) [
      | inl more ↦
          let lt1 : i < len1 = lt_length len1 i s1 (full1, z1) le1 (ground (arith, more)) in
          let lt2 : i < len2 = lt_length len2 i s2 (full2, z2) le2 (ground (arith, more)) in
          let here : s1 i ≡ s2 i = ground (arith, more) in
          rw more (
            strcmp_loop-some n (suc i) len1 len2 s1 s2 (full1, z1) (full2, z2) (omega arith)
              (omega arith) (omega arith)
              (λ j h. elim (Bool-cases (j == i)) [
                | inl q ↦ ap s1 ((==_iff j i).0 q) ∙ (here ∙ ap s2 (sym ((==_iff j i).0 q)))
                | inr q ↦ e j (omega (arith, h, ==→ne j i q))
              ]))
      | inr stop ↦
          let (to, from) = stopped i len1 len2 s1 s2 (full1, z1) (full2, z2) le1 le2 e stop in
          let (sound, complete) = sign_of-same (s1 i) (s2 i) in
          rw stop (sign_of (s1 i) (s2 i), refl, ((λ r. to (sound r)), (λ f. complete (from f))))
    ]

-- For two terminated strings, the first shorter than the fuel, `strcmp` returns, and it returns 0
-- exactly if the strings have the same length and characters.
pub strcmp-same :
    (fuel len1 len2 : ℕ) (s1 s2 : Buffer)
    → IsLength s1 len1
    → IsLength s2 len2
    → len1 < fuel
    → (r : Order) × (strcmp fuel s1 s2 ≡ some r) × ((r ≡ same) ↔ SameText len1 len2 s1 s2)
strcmp-same fuel len1 len2 s1 s2 h1 h2 enough =
    strcmp_loop-some fuel 0 len1 len2 s1 s2 h1 h2 (omega arith) (omega arith) (omega arith)
      (λ j h. absurd (omega (arith, h)))
