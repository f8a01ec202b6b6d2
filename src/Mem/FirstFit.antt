-- ===== src/Mem/FirstFit.antt =====
-- What `kmalloc` of mem.c does to the free list.
use binbows.Base.{
  ℕ, zero, suc, ◌+◌, ◌-◌, ◌≤◌, ◌<◌, ◌≡◌, refl, ap, ◌∙◌, ◌⊎◌, inl, inr, true, false, ◌||◌, Option,
  none, some, List, [], ◌∷◌, ◌++◌, arith, ltb, leb, ◌==◌, if◌then◌else◌, length, Bool-cases, leb→le,
  not-ltb, eq→==, ne→==, All,
}
use binbows.Mem.FreeList.{
  Block, InList, Ascends, IsFreeList, LinkBelow, Frame, InList-frame, Ascends-le,
}
use binbows.Mem.Heap.{KernelHeap, load_link, take_block, kmalloc_loop, kmalloc, align_up}

-- What is left of a block of `n` bytes once `size` are taken
abbrev pub left_of : (block n size : ℕ) → List Block
left_of block n size =
    if leb (size + 16 + 16) n then (block + 16 + size, n - size - 16) ∷ [] else []

-- What taking a block does outside of it, and to the words it hands out
abbrev Taken : Option ℕ → (b size lo : ℕ) → KernelHeap → KernelHeap → Type 0
Taken current b size lo h h' =
    Frame current lo h h'
    × ((j : ℕ) → b + 16 ≤ j → j < b + 16 + size → h'.memory j ≡ 0)
    × ((j : ℕ) → b + 16 + h.memory b ≤ j → h'.memory j ≡ h.memory j)

take_block-Taken :
    (current : Option ℕ) (b size lo : ℕ) (h : KernelHeap)
    → LinkBelow current lo
    → lo ≤ b
    → size ≤ h.memory b
    → Taken current b size lo h (take_block current b size h)
unfolding take_block
take_block-Taken none b size lo h below le fits =
    ((λ j hj. ground arith), (λ j p q. ground arith), (λ j p. ground arith))
take_block-Taken (some p) b size lo h below le fits =
    ((ground arith, (λ j hj nj. ground arith)), (λ j p q. ground arith), (λ j p. ground arith))

-- A block that is split
take_block-split :
    (current : Option ℕ) (b size lo : ℕ) (h : KernelHeap)
    → LinkBelow current lo
    → lo ≤ b
    → size + 16 + 16 ≤ h.memory b
    → let h' = take_block current b size h in
      (load_link h' current ≡ b + 16 + size)
      × (h'.memory (b + 16 + size) ≡ h.memory b - size - 16)
      × (h'.memory (b + 16 + size + 8) ≡ h.memory (b + 8))
unfolding take_block
take_block-split none b size lo h below le room = (ground arith, ground arith, ground arith)
take_block-split (some p) b size lo h below le room = (ground arith, ground arith, ground arith)

-- A block that is handed out whole
take_block-whole :
    (current : Option ℕ) (b size lo : ℕ) (h : KernelHeap)
    → LinkBelow current lo
    → lo ≤ b
    → h.memory b < size + 16 + 16
    → load_link (take_block current b size h) current ≡ h.memory (b + 8)
unfolding take_block
take_block-whole none b size lo h below le room = ground arith
take_block-whole (some p) b size lo h below le room = ground arith

-- The size in the header of a block that is handed out
take_block-used :
    (current : Option ℕ) (b n size lo : ℕ) (h : KernelHeap)
    → LinkBelow current lo
    → lo ≤ b
    → h.memory b ≡ n
    → (take_block current b size h).memory b ≡ (if leb (size + 16 + 16) n then size else n)
unfolding take_block
take_block-used none b n size lo h below le e = ground arith
take_block-used (some p) b n size lo h below le e = ground arith

-- Taking the first block of a list
take_block-first :
    (current : Option ℕ) (b size lo : ℕ) (h : KernelHeap) (bs : List Block)
    → LinkBelow current lo
    → lo ≤ b
    → size ≤ h.memory b
    → InList h.memory (h.memory (b + 8)) bs
    → Ascends (b + 16 + h.memory b) bs
    → let h' = take_block current b size h in
      InList h'.memory (load_link h' current) (left_of b (h.memory b) size ++ bs)
      × Ascends lo (left_of b (h.memory b) size ++ bs)
take_block-first current b size lo h bs below le fits l s =
    let h' = take_block current b size h in
    let (_, _, high) = take_block-Taken current b size lo h below le fits in
    let tail =
      InList-frame h.memory h'.memory (h.memory (b + 8)) (b + 16 + h.memory b) bs high s l in
    elim (Bool-cases (leb (size + 16 + 16) (h.memory b))) [
      | inl e ↦
          let room = leb→le (size + 16 + 16) (h.memory b) e in
          let (link, left, next) = take_block-split current b size lo h below le room in
          rw e (
            (link, left, rw next tail),
            (
              omega arith,
              Ascends-le (b + 16 + size + 16 + (h.memory b - size - 16)) (b + 16 + h.memory b) bs
                  (omega (arith, room)) s,
            ),
          )
      | inr e ↦
          let link = take_block-whole current b size lo h below le (ground arith) in
          rw (e, link) (tail, Ascends-le lo (b + 16 + h.memory b) bs (omega arith) s)
    ]

-- The first block that is large enough, and the list without it: what is left of the block takes its
-- place.
pub record Fit (current : Option ℕ) (lo size : ℕ) (h : KernelHeap) (bs : List Block)
    (r : Option (ℕ × KernelHeap)) : Type 0 where
  pub before : List Block
  pub after : List Block
  pub block : ℕ
  pub bytes : ℕ
  pub heap : KernelHeap
  pub split : bs ≡ before ++ ((block, bytes) ∷ after)
  pub skipped : All (λ b. b.1 < size) before
  pub fits : size ≤ bytes
  pub result : r ≡ some (block + 16, heap)
  pub list :
      InList heap.memory (load_link heap current) (before ++ (left_of block bytes size ++ after))
  pub ascends : Ascends lo (before ++ (left_of block bytes size ++ after))
  pub frame : Frame current lo h heap
  pub used : heap.memory block ≡ (if leb (size + 16 + 16) bytes then size else bytes)
  pub zeroed : (j : ℕ) → block + 16 ≤ j → j < block + 16 + size → heap.memory j ≡ 0

abbrev pub NoFit : (size : ℕ) → KernelHeap → List Block → Option (ℕ × KernelHeap) → Type 0
NoFit size h bs r = All (λ b. b.1 < size) bs × (r ≡ some (0, h))

-- The link in front of a list does not change when the list behind its first block does.
link_kept :
    (current : Option ℕ) (lo b n : ℕ) (h h' : KernelHeap)
    → LinkBelow current lo
    → lo ≤ b
    → Frame (some b) (b + 16 + n) h h'
    → load_link h' current ≡ load_link h current
link_kept none lo b n h h' below le (head, same) = head
link_kept (some p) lo b n h h' below le (head, same) =
    same (p + 8) (omega arith) (λ e. omega (arith, e))

Frame-kept :
    (current : Option ℕ) (lo b n : ℕ) (h h' : KernelHeap)
    → lo ≤ b
    → Frame (some b) (b + 16 + n) h h'
    → Frame current lo h h'
Frame-kept none lo b n h h' le (head, same) =
    λ j hj. same j (omega (arith, hj)) (λ e. omega (arith, e, hj))
Frame-kept (some p) lo b n h h' le (head, same) =
    (head, (λ j hj nj. same j (omega (arith, hj)) (λ e. omega (arith, e, hj))))

kmalloc_loop-fits :
    (n : ℕ) (current : Option ℕ) (lo size : ℕ) (h : KernelHeap) (bs : List Block)
    → LinkBelow current lo
    → 1 ≤ lo
    → length bs < n
    → InList h.memory (load_link h current) bs
    → Ascends lo bs
    → NoFit size h bs (kmalloc_loop n current size h)
      ⊎ Fit current lo size h bs (kmalloc_loop n current size h)
unfolding kmalloc_loop
kmalloc_loop-fits zero current lo size h bs below pos fuel l s = absurd (omega arith)
kmalloc_loop-fits (suc k) current lo size h [] below pos fuel l s =
    let nil : (load_link h current == 0) ≡ true = eq→== (load_link h current) 0 l in
    rw nil (inl (tt, refl))
kmalloc_loop-fits (suc k) current lo size h ((b, n) ∷ bs) below pos fuel (e, en, l) (le, s) =
    let some_block : (load_link h current == 0) ≡ false =
      ne→== (load_link h current) 0 (λ z. omega (arith, z, e)) in
    elim (Bool-cases (leb size n)) [
      | inl f ↦
          let fits : size ≤ h.memory b = ground arith in
          let (list, ascends) = take_block-first current b size lo h bs below le fits l (rw en s) in
          let (frame, zeroed, _) = take_block-Taken current b size lo h below le fits in
          rw (some_block, e, en, f)
            (inr (record {
              before = [];
              after = bs;
              block = b;
              bytes = n;
              heap = take_block current b size h;
              split = refl;
              skipped = tt;
              fits = leb→le size n f;
              result = refl;
              list = rw en at list;
              ascends = rw en at ascends;
              frame = frame;
              used = take_block-used current b n size lo h below le en;
              zeroed = zeroed;
            }))
      | inr f ↦
          let small : n < size = ground arith in
          rw (some_block, e, en, f)
            (elim (kmalloc_loop-fits k (some b) (b + 16 + n) size h bs (omega arith) (omega arith)
              (omega arith) l s) [
                | inl (none_fits, r) ↦ inl ((small, none_fits), r)
                | inr t ↦ inr (record {
                  before = (b, n) ∷ t.before;
                  after = t.after;
                  block = t.block;
                  bytes = t.bytes;
                  heap = t.heap;
                  split = ap (λ x. (b, n) ∷ x) t.split;
                  skipped = (small, t.skipped);
                  fits = t.fits;
                  result = t.result;
                  list = (
                    link_kept current lo b n h t.heap below le t.frame ∙ e,
                    t.frame.1 b (omega arith) (λ z. omega (arith, z)) ∙ en,
                    t.list,
                  );
                  ascends = (le, t.ascends);
                  frame = Frame-kept current lo b n h t.heap le t.frame;
                  used = t.used;
                  zeroed = t.zeroed;
                })
              ])
    ]

-- With a free list that is in the order of the addresses without overlap and shorter than the fuel,
-- for a size from 1 to 0x10000000, rounded up to a multiple of 16: if no block has that many bytes,
-- `kmalloc` returns null and changes nothing; otherwise it returns the bytes behind the header of
-- the first block that has, all zero, and the free list is well-formed without that block, or with
-- what is left of it in its place.
pub kmalloc-fits :
    (fuel size : ℕ) (h : KernelHeap) (bs : List Block)
    → IsFreeList h bs
    → 1 ≤ size
    → size ≤ 0x10000000
    → length bs < fuel
    → NoFit (align_up size 16) h bs (kmalloc fuel size h)
      ⊎ Fit none 1 (align_up size 16) h bs (kmalloc fuel size h)
unfolding kmalloc
kmalloc-fits fuel size h [] v lo hi room =
    let refused : (size == 0 || ltb 0x10000000 size || h.free_list_head == 0) ≡ true =
      ground (arith, v.in_list) in
    inl (tt, rw refused)
kmalloc-fits fuel size h ((b, n) ∷ bs) v lo hi room =
    let head = v.in_list.0 in
    let (first, _) = v.ascends in
    let accepted : (size == 0 || ltb 0x10000000 size || h.free_list_head == 0) ≡ false =
      ground (arith, head, first) in
    let enough : ltb (align_up size 16) 16 ≡ false = not-ltb (align_up size 16) 16 (omega arith) in
    rw (accepted, enough)
      (kmalloc_loop-fits fuel none 1 (align_up size 16) h ((b, n) ∷ bs) tt (omega arith) room
        v.in_list v.ascends)
