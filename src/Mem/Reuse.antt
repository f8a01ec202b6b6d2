-- ===== src/Mem/Reuse.antt =====
-- A block of mem.c's heap from `kmalloc` to `kfree`: no byte of the heap is lost.
use binbows.Base.{
  ℕ, ◌+◌, ◌^◌, ◌≤◌, ◌<◌, ◌≡◌, refl, ap, ◌∙◌, ◌⊎◌, inl, inr, Option, none, some, List, [], ◌∷◌, ◌++◌,
  arith, ltb, leb, if◌then◌else◌, length, Bool-cases, leb→le, length-append, All,
}
use binbows.Mem.FirstFit.{NoFit, Fit, left_of, kmalloc-fits}
use binbows.Mem.Free.{kfree}
use binbows.Mem.FreeList.{Block, Ascends, IsFreeList}
use binbows.Mem.Heap.{KernelHeap, kmalloc, align_up}
use binbows.Mem.Sorted.{insert_sorted, Apart, kfree-IsFreeList}

-- The bytes of the blocks of a list, with their headers
abbrev pub total : List Block → ℕ
total [] = 0
total ((b, n) ∷ bs) = 16 + n + total bs

total-append : (xs ys : List Block) → total (xs ++ ys) ≡ total xs + total ys
total-append [] ys = omega arith
total-append ((b, n) ∷ xs) ys = omega (arith, total-append xs ys)

total-insert_sorted :
    (a n : ℕ) (bs : List Block) → total (insert_sorted (a, n) bs) ≡ 16 + n + total bs
total-insert_sorted a n [] = refl
total-insert_sorted a n ((b, k) ∷ bs) = elim (Bool-cases (ltb b a)) [
  | inl e ↦ rw e (omega (arith, total-insert_sorted a n bs))
  | inr e ↦ rw e refl
]

-- Blocks in order lie above the start.
Ascends-above : (lo a n : ℕ) (bs : List Block) → Ascends lo bs → a + 16 + n ≤ lo → Apart (a, n) bs
Ascends-above lo a n [] s h = tt
Ascends-above lo a n ((b, k) ∷ bs) (le, s) h =
    (inr (omega arith), Ascends-above (b + 16 + k) a n bs s (omega arith))

Ascends-pos :
    (lo a n : ℕ) (before after : List Block) → Ascends lo (before ++ ((a, n) ∷ after)) → lo ≤ a
Ascends-pos lo a n [] after (le, s) = le
Ascends-pos lo a n ((b, k) ∷ before) after (le, s) =
    let rest = Ascends-pos (b + 16 + k) a n before after s in omega arith

-- A block of a list is apart from what is before it, and what it splits into from what is after it.
Ascends-around :
    (lo a n used : ℕ) (left before after : List Block)
    → Ascends lo (before ++ ((a, n) ∷ after))
    → used ≤ n
    → Apart (a, used) left
    → Apart (a, used) (before ++ (left ++ after))
Ascends-around lo a n used [] [] after (le, s) h l =
    Ascends-above (a + 16 + n) a used after s (omega arith)
Ascends-around lo a n used (b ∷ left) [] after s h (l, ls) =
    (l, Ascends-around lo a n used left [] after s h ls)
Ascends-around lo a n used left ((b, k) ∷ before) after (le, s) h l = (
  inl (Ascends-pos (b + 16 + k) a n before after s),
  Ascends-around (b + 16 + k) a n used left before after s h l,
)

All-append_mid :
    (P : Block → Type 0) (x : Block) (before after : List Block)
    → All P (before ++ (x ∷ after))
    → P x
All-append_mid P x [] after (p, ps) = p
All-append_mid P x (b ∷ before) after (p, ps) = All-append_mid P x before after ps

-- What `kmalloc` and `kfree` of the same block leave: a free list of as many bytes as before
abbrev pub Restored : (total_bytes : ℕ) → KernelHeap → Type 0
Restored total_bytes h = (bs : List Block) × IsFreeList h bs × (total bs ≡ total_bytes)

-- The block handed out and what is left of it make up the free block.
left_of-parts :
    (a n size used : ℕ)
    → size ≤ n
    → used ≡ (if leb (size + 16 + 16) n then size else n)
    → (used + total (left_of a n size) ≡ n)
      × (used ≤ n)
      × Apart (a, used) (left_of a n size)
      × (length (left_of a n size) ≤ 1)
left_of-parts a n size used le e = elim (Bool-cases (leb (size + 16 + 16) n)) [
  | inl f ↦
      let room = leb→le (size + 16 + 16) n f in
      let whole : used ≡ size = rw f at e in
      rw f (omega arith, omega arith, (inr (omega arith), tt), omega arith)
  | inr f ↦ let whole : used ≡ n = rw f at e in rw f (omega arith, omega arith, tt, omega arith)
]

kfree-Fit :
    (aligned off : ℕ) (h : KernelHeap) (bs : List Block) {r : Option (ℕ × KernelHeap)}
    → IsFreeList h bs
    → (f : Fit none 1 aligned h bs r) → length bs ≤ 999
    → All (λ b. (off ≤ b.0) × (b.0 + 16 < 2 ^ 64)) bs
    → Restored (total bs) (kfree off (f.block + 16) f.heap)
kfree-Fit aligned off h bs v f room inside =
    let a = f.block in
    let n = f.bytes in
    let used = f.heap.memory a in
    let left = left_of a n aligned in
    let free = f.before ++ (left ++ f.after) in
    let s : Ascends 1 (f.before ++ ((a, n) ∷ f.after)) = rw f.split at v.ascends in
    let (sum, le, apart, short) = left_of-parts a n aligned used f.fits f.used in
    let (above, below) =
      All-append_mid (λ b. (off ≤ b.0) × (b.0 + 16 < 2 ^ 64)) (a, n) f.before f.after
        (rw f.split at inside) in
    let count : length (f.before ++ ((a, n) ∷ f.after)) ≤ 999 = rw f.split at room in
    let shorter : length free ≤ 1000 =
      rw (length-append f.before (left ++ f.after), length-append left f.after)
        (omega (arith, rw (length-append f.before ((a, n) ∷ f.after)) at count)) in
    (
      insert_sorted (a, used) free,
      kfree-IsFreeList off a f.heap free (record { in_list = f.list; ascends = f.ascends })
          (Ascends-pos 1 a n f.before f.after s) above below shorter
          (Ascends-around 1 a n used left f.before f.after s le apart),
      total-insert_sorted a used free
          ∙ rw (total-append f.before (left ++ f.after), total-append left f.after)
              (omega (arith, sum, ap total f.split ∙ total-append f.before ((a, n) ∷ f.after))),
    )

-- With a free list in the order of the addresses without overlap, shorter than the fuel and of at
-- most 999 blocks, whose headers lie between the HHDM offset and 2 ^ 64, for a size from 1 to
-- 0x10000000: either `kmalloc` returns null, no block being large enough, and changes nothing, or
-- it returns an address such that `kfree` of it leaves a well-formed free list of as many bytes,
-- headers included, as before.
pub kfree-kmalloc :
    (fuel off size : ℕ) (h : KernelHeap) (bs : List Block)
    → IsFreeList h bs
    → 1 ≤ size
    → size ≤ 0x10000000
    → length bs < fuel
    → length bs ≤ 999
    → All (λ b. (off ≤ b.0) × (b.0 + 16 < 2 ^ 64)) bs
    → NoFit (align_up size 16) h bs (kmalloc fuel size h)
      ⊎ ((ptr : ℕ) × (h' : KernelHeap) × (kmalloc fuel size h ≡ some (ptr, h'))
          × Restored (total bs) (kfree off ptr h'))
kfree-kmalloc fuel off size h bs v lo hi enough room inside =
    elim (kmalloc-fits fuel size h bs v lo hi enough) [
      | inl none_fits ↦ inl none_fits
      | inr f ↦
          inr
            (f.block + 16, f.heap, f.result, kfree-Fit (align_up size 16) off h bs v f room inside)
    ]
