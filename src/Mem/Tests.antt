-- ===== src/Mem/Tests.antt =====
-- Runs of the page pool and the heap, and witnesses.
use binbows.Base.{
  true, false, inl, some, ℕ, ◌+◌, ◌≤◌, ◌<◌, ◌≡◌, refl, ◌⊎◌, List, [], ◌∷◌, arith, none, ◌==◌,
  if◌then◌else◌,
}
use binbows.Mem.Mapping.{map_page-translate}
use binbows.Mem.Tables.{
  destroy_user_mappings, free_tables, free_pages, map_page, unmap_page, translate, present,
  create_path, get_or_create_table,
}
use binbows.Mem.Heap.{KernelHeap, kmalloc}
use binbows.Mem.FreeList.{IsFreeList}
use binbows.Mem.FirstFit.{NoFit, Fit, kmalloc-fits}
use binbows.Mem.Free.{kfree}
use binbows.Mem.Reuse.{Restored, kfree-kmalloc}
use binbows.Mem.Pages.{PagePool, alloc_physical_page, free_physical_page}
use binbows.Mem.Pool.{IsValid, alloc_physical_page-IsValid, free_physical_page-IsValid}

-- Two pages, 0x1000 handed out and 0x2000 not yet
abbrev two : PagePool
two = record {
  memory = λ j. 7;
  free_phys_list = 0;
  next_free_page = 0x2000;
  paging_pool_start = 0x1000;
  paging_pool_end = 0x3000;
}

two-IsValid : IsValid two [] (0x1000 ∷ [])
two-IsValid = record {
  chain = refl;
  free_pages = tt;
  live_pages = ((refl, omega arith, omega arith, omega arith, omega arith), tt);
  distinct = tt;
  apart = (tt, tt);
  live_distinct = (tt, tt);
  aligned = refl;
  start_le = omega arith;
}

-- A page that is given back is handed out again.
run_again : (alloc_physical_page (free_physical_page 0x1000 two)).0 ≡ 0x1000
unfolding alloc_physical_page free_physical_page
run_again = refl

alloc_physical_page-IsValid_example :
    let (page, s') = alloc_physical_page two in
    ((page ≡ 0) × Path (List ℕ) [] [] × (0x3000 ≤ 0x2000) × (s' ≡ two))
    ⊎ ((free' : List ℕ) × IsValid s' free' (page ∷ 0x1000 ∷ [])
        × ((j : ℕ) → page ≤ j → j < page + 4096 → s'.memory j ≡ 0))
alloc_physical_page-IsValid_example = alloc_physical_page-IsValid two-IsValid (omega arith)

free_physical_page-IsValid_example : IsValid (free_physical_page 0x1000 two) (0x1000 ∷ []) []
free_physical_page-IsValid_example = free_physical_page-IsValid two-IsValid

-- A heap with two free blocks: 16 bytes at 0x1000 and 64 bytes at 0x2000
abbrev heap : KernelHeap
heap = record {
  memory = λ j.
      if j == 0x1000
      then 16
      else (if j == 0x1008
          then 0x2000
          else (if j == 0x2000 then 64 else (if j == 0x2008 then 0 else 7)));
  free_list_head = 0x1000;
}

heap-IsFreeList : IsFreeList heap ((0x1000, 16) ∷ (0x2000, 64) ∷ [])
heap-IsFreeList = record {
  in_list = (refl, refl, (refl, refl, refl));
  ascends = (omega arith, (omega arith, tt));
}

kmalloc-fits_example :
    NoFit 32 heap ((0x1000, 16) ∷ (0x2000, 64) ∷ []) (kmalloc 3 20 heap)
    ⊎ Fit none 1 32 heap ((0x1000, 16) ∷ (0x2000, 64) ∷ []) (kmalloc 3 20 heap)
kmalloc-fits_example =
    kmalloc-fits 3 20 heap ((0x1000, 16) ∷ (0x2000, 64) ∷ []) heap-IsFreeList (omega arith)
      (omega arith) (omega arith)

kfree-kmalloc_example :
    NoFit 32 heap ((0x1000, 16) ∷ (0x2000, 64) ∷ []) (kmalloc 3 20 heap)
    ⊎ ((ptr : ℕ) × (h' : KernelHeap) × (kmalloc 3 20 heap ≡ some (ptr, h'))
        × Restored 112 (kfree 0x1000 ptr h'))
kfree-kmalloc_example =
    kfree-kmalloc 3 0x1000 20 heap ((0x1000, 16) ∷ (0x2000, 64) ∷ []) heap-IsFreeList (omega arith)
      (omega arith) (omega arith) (omega arith)
      ((omega arith, omega arith), ((omega arith, omega arith), tt))

-- Three pages, the first of them handed out as the top table, with no entry
abbrev three : PagePool
three = record {
  memory = λ j. 0;
  free_phys_list = 0;
  next_free_page = 0x2000;
  paging_pool_start = 0x1000;
  paging_pool_end = 0x8000;
}

three-IsValid : IsValid three [] (0x1000 ∷ [])
three-IsValid = record {
  chain = refl;
  free_pages = tt;
  live_pages = ((refl, omega arith, omega arith, omega arith, omega arith), tt);
  distinct = tt;
  apart = (tt, tt);
  live_distinct = (tt, tt);
  aligned = refl;
  start_le = omega arith;
}

map_page-translate_example :
    let (ok, s1) = map_page 0x1000 0x400000 0x9000 3 three in
    let (gone, s2) = unmap_page 0x1000 0x400000 s1 in
    (ok ≡ false)
    ⊎ ((ok ≡ true)
        × (translate s1.memory 0x1000 0x400000 ≡ some 0x9003)
        × ((free' : List ℕ) × (live' : List ℕ) × IsValid s1 free' live')
        × (present 0x9003 ≡ true → (gone ≡ true) × (translate s2.memory 0x1000 0x400000 ≡ some 0)))
map_page-translate_example =
    map_page-translate 0x1000 0x400000 0x9000 3 three-IsValid (omega arith)
      (inl refl, (λ e. ground (arith, e)))

-- The page is mapped.
mapped : (map_page 0x1000 0x400000 0x9000 3 three).0 ≡ true
unfolding map_page create_path get_or_create_table alloc_physical_page
mapped = refl

-- A process without mappings: only its first table is freed.
destroy_user_mappings_empty :
    (destroy_user_mappings 0x1000 (record two { memory = λ j. 0 })).free_phys_list ≡ 0x1000
unfolding destroy_user_mappings free_tables free_pages free_physical_page
destroy_user_mappings_empty = refl
