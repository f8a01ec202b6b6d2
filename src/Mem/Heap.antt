-- ===== src/Mem/Heap.antt =====
-- The heap of mem.c: `kmalloc` takes the first block of the free list that is large enough. Memory is
-- the 64-bit words at virtual addresses; a block has its size in its first word and the address of
-- the next one in its second. Addresses are taken not to wrap.
use binbows.Base.{
  ℕ, zero, suc, ◌+◌, ◌-◌, ◌*◌, ◌/◌, ◌&&◌, ◌||◌, Option, none, some, ltb, leb, ◌==◌, if◌then◌else◌,
  update,
}

abbrev pub align_size : ℕ
align_size = 16

abbrev pub min_alloc_size : ℕ
min_alloc_size = 16

-- `sizeof(free_list_block)`
abbrev pub header_size : ℕ
header_size = 16

-- The alignment is a power of two.
abbrev pub align_up : (size alignment : ℕ) → ℕ
align_up size alignment = (size + alignment - 1) / alignment * alignment

pub record KernelHeap : Type 0 where
  pub memory : ℕ → ℕ
  pub free_list_head : ℕ

-- `current` of `kmalloc`: `none` is `&free_list_head`, `some block` is `&(block->next)`.
abbrev pub load_link : KernelHeap → Option ℕ → ℕ
load_link h none = h.free_list_head
load_link h (some block) = h.memory (block + 8)

abbrev pub store_link : Option ℕ → ℕ → KernelHeap → KernelHeap
store_link none target h = record h { free_list_head = target }
store_link (some block) target h = record h { memory = update h.memory (block + 8) target }

-- `memset_page(result, 0, size)`
abbrev pub clear : (result size : ℕ) → KernelHeap → KernelHeap
clear result size h = record h {
  memory = λ j. if leb result j && ltb j (result + size) then 0 else h.memory j;
}

-- The header of what is left of a block behind `size` bytes, and the block's own size
abbrev pub split_block : (block size : ℕ) → KernelHeap → KernelHeap
split_block block size h =
    let new_block = block + header_size + size in
    record h {
      memory =
          update
            (update (update h.memory new_block (h.memory block - size - header_size))
              (new_block + 8) (h.memory (block + 8)))
            block size;
    }

unfoldable pub take_block : Option ℕ → (block size : ℕ) → KernelHeap → KernelHeap
take_block current block size h = clear (block + header_size) size (
    if leb (size + header_size + min_alloc_size) (h.memory block)
    then store_link current (block + header_size + size) (split_block block size h)
    else store_link current (h.memory (block + 8)) h)

-- `while (*current != NULL)`; `none` is a list that is longer than the fuel. 0 is NULL.
unfoldable pub kmalloc_loop :
    (fuel : ℕ) → Option ℕ → (size : ℕ) → KernelHeap → Option (ℕ × KernelHeap)
kmalloc_loop zero current size h = none
kmalloc_loop (suc n) current size h =
    let block = load_link h current in
    let rest = kmalloc_loop n (some block) size h in
    if block == 0
    then some (0, h)
    else (if leb size (h.memory block)
        then some (block + header_size, take_block current block size h)
        else rest)

unfoldable pub kmalloc : (fuel size : ℕ) → KernelHeap → Option (ℕ × KernelHeap)
kmalloc fuel size h =
    if size == 0 || ltb 0x10000000 size || h.free_list_head == 0
    then some (0, h)
    else (let aligned = align_up size align_size in
        kmalloc_loop fuel none (if ltb aligned min_alloc_size then min_alloc_size else aligned) h)
