-- ===== src/Mem/Pages.antt =====
-- The pool of pages for page tables, `alloc_physical_page` and `free_physical_page` of mem.c. Memory
-- is the 64-bit words at physical addresses. These are below 2 ^ 52, so that sums of them do not
-- wrap.
use binbows.Base.{ℕ, ◌+◌, not, ◌&&◌, ◌||◌, ltb, leb, ◌==◌, if◌then◌else◌, update}

abbrev pub page_size : ℕ
page_size = 4096

pub record PagePool : Type 0 where
  pub memory : ℕ → ℕ
  pub free_phys_list : ℕ
  pub next_free_page : ℕ
  pub paging_pool_start : ℕ
  pub paging_pool_end : ℕ

-- `memset_page(virt, 0, PAGE_SIZE)`
abbrev pub memset_page : (ℕ → ℕ) → ℕ → ℕ → ℕ
memset_page m phys j = if leb phys j && ltb j (phys + page_size) then 0 else m j

-- The page, 0 if there is none. A free page holds the address of the next one in its first word.
unfoldable pub alloc_physical_page : PagePool → ℕ × PagePool
alloc_physical_page s =
    if not (s.free_phys_list == 0)
    then (
      s.free_phys_list,
      record s {
        free_phys_list = s.memory s.free_phys_list;
        memory = memset_page s.memory s.free_phys_list;
      },
    )
    else (if s.next_free_page == 0 || leb s.paging_pool_end s.next_free_page then (0, s) else (
      s.next_free_page,
      record s {
        next_free_page = s.next_free_page + page_size;
        memory = memset_page s.memory s.next_free_page;
      },
    ))

unfoldable pub free_physical_page : ℕ → PagePool → PagePool
free_physical_page phys s =
    if phys == 0
    then s
    else (if ltb phys s.paging_pool_start || leb s.paging_pool_end phys
        then s
        else record s { memory = update s.memory phys s.free_phys_list; free_phys_list = phys })
