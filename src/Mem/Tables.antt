-- ===== src/Mem/Tables.antt =====
-- The page tables of mem.c: `map_page`, `unmap_page`, and the tables and the stack of a user process,
-- on the words at physical addresses. A table has 512 entries of 8 bytes; `pml4` is not null. The
-- flush of the processor's own copies of entries is left out.
use Prim.Native.Nat.{bit_or}
use binbows.Base.{
  ℕ, zero, suc, ◌+◌, ◌-◌, ◌*◌, ◌/◌, ◌%◌, ◌^◌, Bool, true, false, not, ◌&&◌, Option, none, some,
  List, [], ◌∷◌, ltb, leb, ◌==◌, if◌then◌else◌, update,
}
use binbows.Mem.Pages.{PagePool, alloc_physical_page, free_physical_page}

-- `entry & PAGE_PRESENT`
abbrev pub present : (entry : ℕ) → Bool
present entry = entry % 2 == 1

-- `entry & ~0xFFF`
abbrev pub frame : (entry : ℕ) → ℕ
frame entry = entry / 4096 * 4096

abbrev pub slot : (table i : ℕ) → ℕ
slot table i = table + 8 * i

-- A page is aligned, so the flags `PAGE_PRESENT | PAGE_WRITE | PAGE_USER` are added to it. `none` is
-- NULL.
unfoldable pub get_or_create_table : (entry : ℕ) → PagePool → Option ℕ × PagePool
get_or_create_table entry s =
    let (phys, s') = alloc_physical_page s in
    if present (s.memory entry)
    then (some (frame (s.memory entry)), s)
    else (if phys == 0
        then (none, s')
        else (some phys, record s' { memory = update s'.memory entry (phys + 7) }))

-- One call for each index: the table behind the last of them
unfoldable pub create_path : (table : ℕ) → List ℕ → PagePool → Option ℕ × PagePool
create_path table [] s = (some table, s)
create_path table (i ∷ is) s =
    let (r, s1) = get_or_create_table (slot table i) s in
    elim r [ none ↦ (none, s1) | some next ↦ create_path next is s1 ]

-- The indices of an address in the three upper tables, and in the last
abbrev pub upper_indices : (vaddr : ℕ) → List ℕ
upper_indices vaddr = (vaddr / 2 ^ 39 % 512) ∷ (vaddr / 2 ^ 30 % 512) ∷ (vaddr / 2 ^ 21 % 512) ∷ []

abbrev pub last_index : (vaddr : ℕ) → ℕ
last_index vaddr = vaddr / 2 ^ 12 % 512

-- Whether the page is mapped: false is -1.
unfoldable pub map_page : (pml4 vaddr paddr flags : ℕ) → PagePool → Bool × PagePool
map_page pml4 vaddr paddr flags s =
    let (r, s') = create_path pml4 (upper_indices vaddr) s in
    elim r [
      | none ↦ (false, s')
      | some pt ↦ (
        true,
        record s' {
          memory = update s'.memory (slot pt (last_index vaddr)) (bit_or (frame paddr) flags);
        },
      )
    ]

-- The table behind entries that are present
unfoldable pub find_path : (ℕ → ℕ) → (table : ℕ) → List ℕ → Option ℕ
find_path m table [] = some table
find_path m table (i ∷ is) =
    let rest = find_path m (frame (m (slot table i))) is in
    if present (m (slot table i)) then rest else none

unfoldable pub unmap_page : (pml4 vaddr : ℕ) → PagePool → Bool × PagePool
unmap_page pml4 vaddr s = elim (find_path s.memory pml4 (upper_indices vaddr)) [
  | none ↦ (false, s)
  | some pt ↦
      if not (present (s.memory (slot pt (last_index vaddr))))
      then (false, s)
      else (true, record s { memory = update s.memory (slot pt (last_index vaddr)) 0 })
]

-- The entry that the processor finds for an address
unfoldable pub translate : (ℕ → ℕ) → (pml4 vaddr : ℕ) → Option ℕ
translate m pml4 vaddr = elim (find_path m pml4 (upper_indices vaddr)) [
  | none ↦ none
  | some pt ↦ some (m (slot pt (last_index vaddr)))
]

abbrev pub page_user : ℕ
page_user = 4

-- The two loops of `create_user_pml4`: the 512 entries are copied, and those of the lower half that
-- are present get `PAGE_USER`.
abbrev pub user_entry : (i entry : ℕ) → ℕ
user_entry i entry = if ltb i 256 && present entry then bit_or entry page_user else entry

-- The entry of a copy at the address `j`, of the table at `old`
abbrev pub copied_table : (new old : ℕ) → (ℕ → ℕ) → ℕ → ℕ
copied_table new old m j =
    if leb new j && ltb j (new + 4096) && (j - new) % 8 == 0
    then user_entry ((j - new) / 8) (m (old + (j - new)))
    else m j

-- 0 if there is no page.
unfoldable pub create_user_pml4 : (cr3 : ℕ) → PagePool → ℕ × PagePool
create_user_pml4 cr3 s =
    let (new, s') = alloc_physical_page s in
    if new == 0
    then (0, s')
    else (new, record s' { memory = copied_table new (frame cr3) s'.memory })

-- `for (v = stack_base_v; v < user_vaddr; v += PAGE_SIZE)`, `rounds` of them left: the first page that
-- was taken, and the pool. A page that cannot be taken or mapped ends the loop.
unfoldable pub stack_loop : (rounds v pml4 first_phys : ℕ) → PagePool → ℕ × PagePool
stack_loop zero v pml4 first_phys s = (first_phys, s)
stack_loop (suc n) v pml4 first_phys s =
    let (phys, s1) = alloc_physical_page s in
    let first = if first_phys == 0 then phys else first_phys in
    let (ok, s2) = map_page pml4 v phys 7 s1 in
    let rest = stack_loop n (v + 4096) pml4 first s2 in
    if phys == 0 then (first_phys, s1) else (if ok then rest else (first, s2))

-- `size` is a multiple of a page once it is rounded up; the stack lies below `user_vaddr` without
-- wrapping.
unfoldable pub allocate_user_stack : (pml4_phys user_vaddr size : ℕ) → PagePool → ℕ × PagePool
allocate_user_stack pml4_phys user_vaddr size s =
    let pages = (size + 4095) / 4096 in
    if size == 0 then (0, s) else stack_loop pages (user_vaddr - pages * 4096) pml4_phys 0 s

-- The innermost loop of `destroy_user_mappings`: the pages of the last table, `rounds` entries left
unfoldable pub free_pages : (rounds i table : ℕ) → PagePool → PagePool
free_pages zero i table s = s
free_pages (suc n) i table s =
    let entry = s.memory (slot table i) in
    let cleared : PagePool = record s { memory = update s.memory (slot table i) 0 } in
    free_pages n (suc i) table
      (if present entry then free_physical_page (frame entry) cleared else s)

-- The loops around it: what is behind each entry, then the table itself, then the entry, with
-- `depth` tables on the way to a page
unfoldable pub free_tables : (depth rounds i table : ℕ) → PagePool → PagePool
free_tables zero rounds i table s = free_pages rounds i table s
free_tables (suc d) zero i table s = s
free_tables (suc d) (suc n) i table s =
    let entry = s.memory (slot table i) in
    let freed = free_physical_page (frame entry) (free_tables d 512 0 (frame entry) s) in
    let cleared : PagePool = record freed { memory = update freed.memory (slot table i) 0 } in
    free_tables (suc d) n (suc i) table (if present entry then cleared else s)

-- The lower half of the address space is the first 256 entries.
unfoldable pub destroy_user_mappings : (pml4_phys : ℕ) → PagePool → PagePool
destroy_user_mappings pml4_phys s =
    if pml4_phys == 0 then s else free_physical_page pml4_phys (free_tables 3 256 0 pml4_phys s)
