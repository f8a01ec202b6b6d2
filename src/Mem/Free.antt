-- ===== src/Mem/Free.antt =====
-- `kfree` and `insert_free_block_sorted` of mem.c: a block goes back into the free list by its
-- address. 0 is NULL; the HHDM offset, the boot loader's, is a parameter.
use binbows.Base.{
  ℕ, zero, suc, ◌+◌, ◌-◌, ◌%◌, ◌^◌, not, ◌&&◌, ◌||◌, Option, none, some, ltb, ◌==◌, if◌then◌else◌,
}
use binbows.Mem.Heap.{KernelHeap, load_link, store_link, header_size}

-- `block->next = *current; *current = block`
abbrev pub link_block : Option ℕ → (block : ℕ) → KernelHeap → KernelHeap
link_block current block h =
    store_link current block (store_link (some block) (load_link h current) h)

-- `while (cur->next && cur->next < block)`, with what follows it: `rounds` is what `safety` leaves.
unfoldable pub insert_walk : (rounds cur block : ℕ) → KernelHeap → KernelHeap
insert_walk zero cur block h = h
insert_walk (suc n) cur block h =
    let next = load_link h (some cur) in
    let rest = insert_walk n next block h in
    if not (next == 0) && ltb next block then rest else link_block (some cur) block h

-- The 1001st block in front of the new one stops the walk.
abbrev pub safety_rounds : ℕ
safety_rounds = 1001

unfoldable pub insert_free_block_sorted : (block : ℕ) → KernelHeap → KernelHeap
insert_free_block_sorted block h =
    if block == 0
    then h
    else (if h.free_list_head == 0 || ltb block h.free_list_head
        then link_block none block h
        else insert_walk safety_rounds h.free_list_head block h)

-- `(uint8_t *)ptr - sizeof(free_list_block)` wraps.
unfoldable pub kfree : (hhdm_offset ptr : ℕ) → KernelHeap → KernelHeap
kfree hhdm_offset ptr h =
    let block = (ptr + (2 ^ 64 - header_size)) % 2 ^ 64 in
    if ptr == 0 || ltb block hhdm_offset then h else insert_free_block_sorted block h
