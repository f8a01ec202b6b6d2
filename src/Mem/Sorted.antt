-- ===== src/Mem/Sorted.antt =====
-- A block that `kfree` of mem.c gives back is in the free list again, at the place of its address.
use binbows.Base.{
  ℕ, zero, suc, ◌+◌, ◌-◌, ◌%◌, ◌^◌, ◌≤◌, ◌<◌, ◌≡◌, refl, ap, ◌∙◌, ◌⊎◌, inl, inr, true, false, not,
  ◌&&◌, ◌||◌, Option, none, some, List, [], ◌∷◌, arith, ltb, ◌==◌, if◌then◌else◌, length,
  Bool-cases, ltb→lt, lt→ltb, not-ltb, eq→==, ne→==, All,
}
use binbows.Mem.FreeList.{LinkBelow, Frame, Block, InList, Ascends, IsFreeList, InList-frame}
use binbows.Mem.Heap.{KernelHeap, load_link}
use binbows.Mem.Free.{insert_walk, insert_free_block_sorted, kfree, link_block}

-- A list in the order of the addresses, with one more block
abbrev pub insert_sorted : Block → List Block → List Block
insert_sorted b [] = b ∷ []
insert_sorted (a, n) ((b, k) ∷ bs) =
    let rest = insert_sorted (a, n) bs in if ltb b a then (b, k) ∷ rest else (a, n) ∷ (b, k) ∷ bs

-- The block overlaps none of the list.
abbrev pub Apart : Block → List Block → Type 0
Apart (a, n) bs = All (λ b. (b.0 + 16 + b.1 ≤ a) ⊎ (a + 16 + n ≤ b.0)) bs

-- A block put in front of a list that lies above it
link_block-InList :
    (current : Option ℕ) (a lo : ℕ) (h : KernelHeap) (bs : List Block)
    → LinkBelow current lo
    → lo ≤ a
    → InList h.memory (load_link h current) bs
    → Ascends (a + 16 + h.memory a) bs
    → let h' = link_block current a h in
      InList h'.memory (load_link h' current) ((a, h.memory a) ∷ bs) × Frame current lo h h'
link_block-InList none a lo h bs below le l s =
    let m' = (link_block none a h).memory in
    let next : m' (a + 8) ≡ h.free_list_head = ground arith in
    (
      (
        refl,
        ground arith,
        rw next (
            InList-frame h.memory m' h.free_list_head (a + 16 + h.memory a) bs
              (λ j hj. ground arith) s l),
      ),
      (λ j hj. ground arith),
    )
link_block-InList (some p) a lo h bs below le l s =
    let m' = (link_block (some p) a h).memory in
    let next : m' (a + 8) ≡ h.memory (p + 8) = ground arith in
    (
      (
        ground arith,
        ground arith,
        rw next (
            InList-frame h.memory m' (h.memory (p + 8)) (a + 16 + h.memory a) bs
              (λ j hj. ground arith) s l),
      ),
      (refl, (λ j hj nj. ground arith)),
    )

insert_walk-InList :
    (k p a lo : ℕ) (h : KernelHeap) (bs : List Block)
    → 1 ≤ lo
    → p + 16 ≤ lo
    → lo ≤ a
    → length bs < k
    → InList h.memory (h.memory (p + 8)) bs
    → Ascends lo bs
    → Apart (a, h.memory a) bs
    → let h' = insert_walk k p a h in
      InList h'.memory (h'.memory (p + 8)) (insert_sorted (a, h.memory a) bs)
      × Ascends lo (insert_sorted (a, h.memory a) bs)
      × Frame (some p) lo h h'
unfolding insert_walk
insert_walk-InList zero p a lo h bs pos below le fuel l s apart = absurd (omega arith)
insert_walk-InList (suc k) p a lo h [] pos below le fuel l s apart =
    let last : (not (h.memory (p + 8) == 0) && ltb (h.memory (p + 8)) a) ≡ false =
      ground (arith, l) in
    let (l', same) = link_block-InList (some p) a lo h [] below le l tt in
    rw last (l', (le, tt), same)
insert_walk-InList (suc k) p a lo h ((b, n) ∷ bs) pos below le fuel (e, en, l) (lb, s) (ab, apart) =
    let some_block : (b == 0) ≡ false = ne→== b 0 (λ z. omega (arith, z, lb)) in
    elim (Bool-cases (ltb b a)) [
      | inl f ↦
          let lt = ltb→lt b a f in
          let above : b + 16 + n ≤ a = elim ab [ inl u ↦ u | inr u ↦ absurd (omega (arith, u)) ] in
          let (l', s', (head, same)) =
            insert_walk-InList k b a (b + 16 + n) h bs (omega arith) (omega arith) above
              (omega arith) l s apart in
          rw (e, some_block, f)
            (
              (
                same (p + 8) (omega arith) (λ z. omega (arith, z)) ∙ e,
                same b (omega arith) (λ z. omega (arith, z)) ∙ en,
                l',
              ),
              (lb, s'),
              (head, (λ j hj nj. same j (omega arith) (λ z. omega (arith, z, hj)))),
            )
      | inr f ↦
          let above : a + 16 + h.memory a ≤ b = elim ab [
            | inl u ↦ absurd (ground (arith, u))
            | inr u ↦ u
          ] in
          let (l', same) =
            link_block-InList (some p) a lo h ((b, n) ∷ bs) below le (e, en, l) (above, s) in
          let stop : (not (h.memory (p + 8) == 0) && ltb (h.memory (p + 8)) a) ≡ false =
            ground (arith, e, f) in
          rw (stop, f) (l', (le, (above, s)), same)
    ]

-- With a free list that is in the order of the addresses without overlap and has at most 1000 blocks,
-- and a block that overlaps none of it: after `insert_free_block_sorted` the free list is
-- well-formed and has the block at the place of its address.
pub insert_free_block_sorted-IsFreeList :
    (a : ℕ) (h : KernelHeap) (bs : List Block)
    → IsFreeList h bs
    → 1 ≤ a
    → length bs ≤ 1000
    → Apart (a, h.memory a) bs
    → IsFreeList (insert_free_block_sorted a h) (insert_sorted (a, h.memory a) bs)
unfolding insert_free_block_sorted
insert_free_block_sorted-IsFreeList a h [] v pos room apart =
    let new : (a == 0) ≡ false = ne→== a 0 (λ z. omega (arith, z)) in
    let empty : (h.free_list_head == 0) ≡ true = eq→== h.free_list_head 0 v.in_list in
    rw (new, empty)
      (record { in_list = (refl, ground arith, ground (arith, v.in_list)); ascends = (pos, tt) })
insert_free_block_sorted-IsFreeList a h ((b, n) ∷ bs) v pos room (ab, apart) =
    let (e, en, l) = v.in_list in
    let (lb, s) = v.ascends in
    let new : (a == 0) ≡ false = ne→== a 0 (λ z. omega (arith, z)) in
    let full : (h.free_list_head == 0) ≡ false =
      ne→== h.free_list_head 0 (λ z. omega (arith, z, e)) in
    elim (Bool-cases (ltb a b)) [
      | inl f ↦
          let lt = ltb→lt a b f in
          let above : a + 16 + h.memory a ≤ b = ground (arith, ab) in
          let behind : ltb b a ≡ false = not-ltb b a (omega arith) in
          let (l', _) = link_block-InList none a 1 h ((b, n) ∷ bs) tt pos (e, en, l) (above, s) in
          let front : (h.free_list_head == 0 || ltb a h.free_list_head) ≡ true =
            ground (arith, e, f) in
          rw (new, front, behind) (record { in_list = l'; ascends = (pos, (above, s)) })
      | inr f ↦
          let above : b + 16 + n ≤ a = ground (arith, ab) in
          let behind : ltb b a ≡ true = lt→ltb b a (omega arith) in
          let (l', s', (head, same)) =
            insert_walk-InList 1001 b a (b + 16 + n) h bs (omega arith) (omega arith) above
              (omega arith) l s apart in
          let later : (h.free_list_head == 0 || ltb a h.free_list_head) ≡ false =
            ground (arith, e, f, full) in
          let from : insert_free_block_sorted a h ≡ insert_walk 1001 b a h =
            rw (new, later) (ap (λ p. insert_walk 1001 p a h) e) in
          rw (from, behind)
            (record {
              in_list = (head ∙ e, same b (omega arith) (λ z. omega (arith, z)) ∙ en, l');
              ascends = (lb, s');
            })
    ]

-- With a free list in the order of the addresses without overlap and of at most 1000 blocks, and a
-- block behind whose header `kfree` is called, which lies from the HHDM offset and 1 on below 2 ^
-- 64 and overlaps no block of the list: the free list is well-formed afterwards and has the block
-- at the place of its address.
pub kfree-IsFreeList :
    (hhdm_offset a : ℕ) (h : KernelHeap) (bs : List Block)
    → IsFreeList h bs
    → 1 ≤ a
    → hhdm_offset ≤ a
    → a + 16 < 2 ^ 64
    → length bs ≤ 1000
    → Apart (a, h.memory a) bs
    → IsFreeList (kfree hhdm_offset (a + 16) h) (insert_sorted (a, h.memory a) bs)
unfolding kfree
kfree-IsFreeList off a h bs v pos hi lt room apart =
    let block : (a + 16 + (2 ^ 64 - 16)) % 2 ^ 64 ≡ a = omega arith in
    let accepted : (a + 16 == 0 || ltb a off) ≡ false = ground arith in
    rw (block, accepted) (insert_free_block_sorted-IsFreeList a h bs v pos room apart)
