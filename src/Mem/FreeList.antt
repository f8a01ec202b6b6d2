-- ===== src/Mem/FreeList.antt =====
-- The free list of mem.c as a list of blocks in the order of their addresses
use binbows.Base.{Option, none, some, ◌<◌, ◌≢◌, ℕ, ◌+◌, ◌≤◌, ◌≡◌, ◌∙◌, List, [], ◌∷◌, arith}
use binbows.Mem.Heap.{KernelHeap}

abbrev pub Block : Type 0
Block = ℕ × ℕ

-- The free list from the address `a` on: each block with its size
abbrev pub InList : (ℕ → ℕ) → ℕ → List Block → Type 0
InList m a [] = a ≡ 0
InList m a ((b, n) ∷ bs) = (a ≡ b) × (m b ≡ n) × InList m (m (b + 8)) bs

-- The blocks follow each other without overlap, from `lo` on.
abbrev pub Ascends : ℕ → List Block → Type 0
Ascends lo [] = Unit
Ascends lo ((b, n) ∷ bs) = (lo ≤ b) × Ascends (b + 16 + n) bs

-- A free list in the order of the addresses, none of them null
pub record IsFreeList (h : KernelHeap) (bs : List Block) : Type 0 where
  pub in_list : InList h.memory h.free_list_head bs
  pub ascends : Ascends 1 bs

pub InList-frame :
    (m m' : ℕ → ℕ) (a lo : ℕ) (bs : List Block)
    → ((j : ℕ) → lo ≤ j → m' j ≡ m j)
    → Ascends lo bs
    → InList m a bs
    → InList m' a bs
InList-frame m m' a lo [] same s l = l
InList-frame m m' a lo ((b, n) ∷ bs) same (le, s) (e, en, l) = (
  e,
  same b le ∙ en,
  rw (same (b + 8) (omega arith))
      (InList-frame m m' (m (b + 8)) (b + 16 + n) bs (λ j h. same j (omega (arith, h))) s l),
)

pub Ascends-le : (lo lo' : ℕ) (bs : List Block) → lo ≤ lo' → Ascends lo' bs → Ascends lo bs
Ascends-le lo lo' [] h s = tt
Ascends-le lo lo' ((b, n) ∷ bs) h (le, s) = (omega arith, s)

abbrev pub LinkBelow : Option ℕ → ℕ → Type 0
LinkBelow none lo = Unit
LinkBelow (some p) lo = p + 16 ≤ lo

-- Below `lo` only the link may change.
abbrev pub Frame : Option ℕ → ℕ → KernelHeap → KernelHeap → Type 0
Frame none lo h h' = (j : ℕ) → j < lo → h'.memory j ≡ h.memory j
Frame (some p) lo h h' =
    (h'.free_list_head ≡ h.free_list_head)
    × ((j : ℕ) → j < lo → j ≢ p + 8 → h'.memory j ≡ h.memory j)
