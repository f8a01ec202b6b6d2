-- ===== src/Fat/Found.antt =====
-- A directory entry of FAT12 that `fat12_write_dir_entry` writes is the one that `fat12_read_file`
-- finds.
use binbows.Base.{
  ℕ, zero, suc, ◌+◌, ◌*◌, ◌^◌, ◌≤◌, ◌<◌, ◌≡◌, ◌≢◌, refl, ap, ◌∙◌, ◌⊎◌, inl, inr, true, false, ◌||◌,
  some, arith, ◌==◌, Bool-cases, ==_iff, ==→ne, eq→==, ne→==,
}
use binbows.Fat.Directory.{find_in_sector, put_entry}
use binbows.Fat.Entries.{Bytes, get16, get32}
use binbows.Fat.Files.{found, is_no_file, name_matches, scan_sector}
use binbows.Shell.Text.{Buffer}

-- What the bytes of the entry are, and that no others change
put_entry-outside :
    (sector : Bytes) (a : ℕ) (name : Buffer) (attr first_cluster size j : ℕ)
    → (j < a) ⊎ (a + 32 ≤ j)
    → put_entry sector a name attr first_cluster size j ≡ sector j
put_entry-outside sector a name attr first_cluster size j h = ground (arith, h)

put_entry-name :
    (sector : Bytes) (a : ℕ) (name : Buffer) (attr first_cluster size k : ℕ)
    → k < 11
    → put_entry sector a name attr first_cluster size (a + k) ≡ name k
put_entry-name sector a name attr first_cluster size k h = ground (arith, h)

put_entry-fields :
    (sector : Bytes) (a : ℕ) (name : Buffer) (attr first_cluster size : ℕ)
    → first_cluster < 2 ^ 16
    → size < 2 ^ 32
    → let s = put_entry sector a name attr first_cluster size in
      (s (a + 11) ≡ attr) × (get16 s (a + 26) ≡ first_cluster) × (get32 s (a + 28) ≡ size)
put_entry-fields sector a name attr first_cluster size lt16 lt32 =
    (ground arith, ground (arith, lt16), ground (arith, lt32))

-- The first free entry of a sector
find_in_sector-first :
    (n i k : ℕ) (sector : Bytes)
    → find_in_sector n i sector ≡ some k
    → (i ≤ k)
      × (k < i + n)
      × ((j : ℕ) → i ≤ j → j < k → (sector (j * 32) == 0 || sector (j * 32) == 0xE5) ≡ false)
unfolding find_in_sector
find_in_sector-first zero i k sector e = absurd (ground (arith, e))
find_in_sector-first (suc n) i k sector e =
    elim (Bool-cases (sector (i * 32) == 0 || sector (i * 32) == 0xE5)) [
      | inl f ↦
          let here : some i ≡ some k = rw f at e in
          let at : i ≡ k = ground (arith, here) in
          (omega (arith, at), omega (arith, at), (λ j a b. absurd (omega (arith, a, b, at))))
      | inr f ↦
          let later : find_in_sector n (suc i) sector ≡ some k = rw f at e in
          let (lo, hi, used) = find_in_sector-first n (suc i) k sector later in
          (
            omega arith,
            omega arith,
            (λ j a b. elim (Bool-cases (j == i)) [
              | inl q ↦ let at_j = (==_iff j i).0 q in rw at_j f
              | inr q ↦ used j (omega (arith, a, ==→ne j i q)) b
            ]),
          )
    ]

name_matches-same :
    (n i : ℕ) (s s' : Bytes) (a : ℕ) (name : Buffer)
    → ((k : ℕ) → k < i + n → s' (a + k) ≡ s (a + k))
    → name_matches n i s' a name ≡ name_matches n i s a name
unfolding name_matches
name_matches-same zero i s s' a name same = refl
name_matches-same (suc n) i s s' a name same =
    rw
      (
        same i (omega arith),
        name_matches-same n (suc i) s s' a name (λ k h. same k (omega (arith, h))),
      )
      refl

name_matches-name :
    (n i : ℕ) (s : Bytes) (a : ℕ) (name : Buffer)
    → ((k : ℕ) → k < i + n → s (a + k) ≡ name k)
    → name_matches n i s a name ≡ true
unfolding name_matches
name_matches-name zero i s a name same = refl
name_matches-name (suc n) i s a name same =
    let here : (s (a + i) == name i) ≡ true = eq→== (s (a + i)) (name i) (same i (omega arith)) in
    rw (here, name_matches-name n (suc i) s a name (λ k h. same k (omega (arith, h)))) refl

-- The entry `j` is not the end of the directory and is not a file of this name.
abbrev Skipped : Bytes → Buffer → (j : ℕ) → Type 0
Skipped s name j =
    ((s (j * 32) == 0) ≡ false)
    × (((s (j * 32) == 0xE5 || is_no_file (s (j * 32 + 11))) ≡ true)
        ⊎ (name_matches 11 0 s (j * 32) name ≡ false))

scan_sector-found :
    (n i k : ℕ) (s : Bytes) (name : Buffer)
    → i ≤ k
    → k < i + n
    → ((j : ℕ) → i ≤ j → j < k → Skipped s name j)
    → (s (k * 32) == 0) ≡ false
    → (s (k * 32) == 0xE5 || is_no_file (s (k * 32 + 11))) ≡ false
    → name_matches 11 0 s (k * 32) name ≡ true
    → scan_sector n i s name ≡ found (k * 32)
unfolding scan_sector
scan_sector-found zero i k s name lo hi before here file matches = absurd (omega arith)
scan_sector-found (suc n) i k s name lo hi before here file matches = elim (Bool-cases (i == k)) [
  | inl q ↦ let at = (==_iff i k).0 q in rw (at, here, file, matches) refl
  | inr q ↦
      let ne = ==→ne i k q in
      let rest =
        scan_sector-found n (suc i) k s name (omega arith) (omega arith)
          (λ j a b. before j (omega (arith, a)) b) here file matches in
      let (some_entry, other) = before i (omega arith) (omega arith) in
      elim (Bool-cases (s (i * 32) == 0xE5 || is_no_file (s (i * 32 + 11)))) [
        | inl f ↦ rw (some_entry, f) rest
        | inr f ↦
            let differs : name_matches 11 0 s (i * 32) name ≡ false = elim other [
              | inl g ↦ absurd (ground (arith, f, g))
              | inr g ↦ g
            ] in
            rw (some_entry, f, differs) rest
      ]
]

-- In a sector whose first free entry is `k`, with no file of this name in front of it, for a name
-- that begins with neither 0 nor 0xE5, a first cluster below 2 ^ 16 and a size below 2 ^ 32: when
-- the entry of a file is put there, the search of `fat12_read_file` stops at it and finds the first
-- cluster and the size that were put.
pub put_entry-found :
    (sector : Bytes) (k : ℕ) (name : Buffer) (first_cluster size : ℕ)
    → find_in_sector 16 0 sector ≡ some k
    → name 0 ≢ 0
    → name 0 ≢ 0xE5
    → ((j : ℕ)
        → j < k
        → (is_no_file (sector (j * 32 + 11)) ≡ true)
          ⊎ (name_matches 11 0 sector (j * 32) name ≡ false))
    → first_cluster < 2 ^ 16
    → size < 2 ^ 32
    → let s = put_entry sector (k * 32) name 0x20 first_cluster size in
      (scan_sector 16 0 s name ≡ found (k * 32))
      × (get16 s (k * 32 + 26) ≡ first_cluster)
      × (get32 s (k * 32 + 28) ≡ size)
put_entry-found sector k name first_cluster size free some_name not_deleted others lt16 lt32 =
    let s = put_entry sector (k * 32) name 0x20 first_cluster size in
    let (lo, hi, used) = find_in_sector-first 16 0 k sector free in
    let (attr, low, bytes) =
      put_entry-fields sector (k * 32) name 0x20 first_cluster size lt16 lt32 in
    let same : (j : ℕ) → j < k * 32 → s j ≡ sector j =
      λ j h. put_entry-outside sector (k * 32) name 0x20 first_cluster size j (inl h) in
    let head : s (k * 32) ≡ name 0 =
      ap s (omega arith)
      ∙ put_entry-name sector (k * 32) name 0x20 first_cluster size 0 (omega arith) in
    (
      scan_sector-found 16 0 k s name lo hi
          (λ j a b.
            let (end, deleted) = in_use (sector (j * 32)) (used j a b) in
            let e0 = same (j * 32) (omega (arith, b)) in
            let e11 = same (j * 32 + 11) (omega (arith, b)) in
            (
              rw e0 end,
              elim (others j b) [
                | inl d ↦ inl (rw (e0, e11, deleted, d) refl)
                | inr m ↦ inr (
                    name_matches-same 11 0 sector s (j * 32) name
                      (λ i h. same (j * 32 + i) (omega (arith, b, h)))
                    ∙ m)
              ],
            ))
          (rw head (ne→== (name 0) 0 some_name))
          (rw (head, attr, ne→== (name 0) 0xE5 not_deleted) refl)
          (name_matches-name 11 0 s (k * 32) name (λ i h.
            put_entry-name sector (k * 32) name 0x20 first_cluster size i (omega (arith, h)))),
      low,
      bytes,
    )
  where
    in_use : (x : ℕ) → (x == 0 || x == 0xE5) ≡ false → ((x == 0) ≡ false) × ((x == 0xE5) ≡ false)
    in_use x e = (ground (arith, e), ground (arith, e))
