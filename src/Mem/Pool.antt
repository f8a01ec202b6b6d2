-- ===== src/Mem/Pool.antt =====
-- The invariant of the page pool of mem.c: which pages are on the free list and which are handed out.
use binbows.Base.{
  ℕ, ◌+◌, ◌%◌, ◌≤◌, ◌<◌, ◌≡◌, ◌≢◌, refl, sym, ◌⊎◌, inl, inr, true, false, ◌||◌, List, [], ◌∷◌,
  arith, ltb, leb, ◌==◌, update, Bool-cases, leb→le, eq→==, ne→==, All,
}
use binbows.Mem.Pages.{PagePool, memset_page, alloc_physical_page, free_physical_page}

-- The free list from the address `h` on
abbrev pub Chain : (ℕ → ℕ) → ℕ → List ℕ → Type 0
Chain m h [] = h ≡ 0
Chain m h (a ∷ rest) = (h ≡ a) × Chain m (m a) rest

abbrev pub NotIn : ℕ → List ℕ → Type 0
NotIn a rest = All (λ b. a ≢ b) rest

abbrev pub Distinct : List ℕ → Type 0
Distinct [] = Unit
Distinct (a ∷ rest) = NotIn a rest × Distinct rest

-- A page of the pool that has been handed out before, or is free again
abbrev pub IsPage : PagePool → ℕ → Type 0
IsPage s a =
    (a % 4096 ≡ 0)
    × (a ≢ 0)
    × (s.paging_pool_start ≤ a)
    × (a < s.next_free_page)
    × (a < s.paging_pool_end)

-- `free` are the pages of the free list and `live` those that are handed out.
pub record IsValid (s : PagePool) (free live : List ℕ) : Type 0 where
  pub chain : Chain s.memory s.free_phys_list free
  pub free_pages : All (IsPage s) free
  pub live_pages : All (IsPage s) live
  pub distinct : Distinct free
  pub apart : All (λ a. NotIn a free) live
  pub live_distinct : Distinct live
  pub aligned : s.next_free_page % 4096 ≡ 0
  pub start_le : s.paging_pool_start ≤ s.next_free_page

All-map : {P Q : ℕ → Type 0} (rest : List ℕ) → ((a : ℕ) → P a → Q a) → All P rest → All Q rest
All-map [] f h = tt
All-map (a ∷ rest) f (h, hs) = (f a h, All-map rest f hs)

-- Memory that agrees on the pages of the list has the same list.
pub Chain-cong :
    (m m' : ℕ → ℕ) (h : ℕ) (rest : List ℕ)
    → All (λ a. m' a ≡ m a) rest
    → Chain m h rest
    → Chain m' h rest
Chain-cong m m' h [] same c = c
Chain-cong m m' h (a ∷ rest) (e, same) (eh, c) = (eh, Chain-cong m m' (m' a) rest same (rw e c))

-- A page that is zeroed leaves the first words of the others.
memset_apart : (m : ℕ → ℕ) (p a : ℕ) → p % 4096 ≡ 0 → a % 4096 ≡ 0 → p ≢ a → memset_page m p a ≡ m a
memset_apart m p a hp ha ne = ground arith

All-both :
    {P Q R : ℕ → Type 0} (l : List ℕ) → ((a : ℕ) → P a → Q a → R a) → All P l → All Q l → All R l
All-both [] f h k = tt
All-both (a ∷ l) f (h, hs) (k, ks) = (f a h k, All-both l f hs ks)

next_fresh : (s : PagePool) (l : List ℕ) → All (IsPage s) l → NotIn s.next_free_page l
next_fresh s l h = All-map l (λ a (_, _, _, lt, _) e. omega (arith, e, lt)) h

later :
    (s : PagePool) (m : ℕ → ℕ) (l : List ℕ)
    → All (IsPage s) l
    → All (IsPage (record s { next_free_page = s.next_free_page + 4096; memory = m })) l
later s m l h = All-map l (λ a (al, nz, lo, lt, hi). (al, nz, lo, omega (arith, lt), hi)) h

-- In a well-formed pool that has been set up, the first component of `alloc_physical_page` is 0
-- only when the free list is empty and the pool used up, and then nothing changes; otherwise it is
-- a page of the pool that was not handed out and is not free any more, its words are zeroed, and
-- the pool stays well-formed.
pub alloc_physical_page-IsValid :
    {s : PagePool} {free live : List ℕ}
    → IsValid s free live
    → s.next_free_page ≢ 0
    → let (page, s') = alloc_physical_page s in
      ((page ≡ 0) × (free ≡ []) × (s.paging_pool_end ≤ s.next_free_page) × (s' ≡ s))
      ⊎ ((free' : List ℕ) × IsValid s' free' (page ∷ live)
          × ((j : ℕ) → page ≤ j → j < page + 4096 → s'.memory j ≡ 0))
unfolding alloc_physical_page
alloc_physical_page-IsValid {s = s} {free = []} {live = live} v up =
    elim (Bool-cases (leb s.paging_pool_end s.next_free_page)) [
      | inl e ↦
          let empty : (s.free_phys_list == 0) ≡ true = eq→== s.free_phys_list 0 v.chain in
          rw (empty, ne→== s.next_free_page 0 up, e) (inl (refl, refl, leb→le _ _ e, refl))
      | inr e ↦
          let empty : (s.free_phys_list == 0) ≡ true = eq→== s.free_phys_list 0 v.chain in
          let below : s.next_free_page < s.paging_pool_end = ground arith in
          rw (empty, ne→== s.next_free_page 0 up, e)
            (inr (
              [],
              record {
                chain = v.chain;
                free_pages = tt;
                live_pages = (
                  (v.aligned, up, v.start_le, omega arith, below),
                  later s (memset_page s.memory s.next_free_page) live v.live_pages,
                );
                distinct = tt;
                apart = (tt, v.apart);
                live_distinct = (next_fresh s live v.live_pages, v.live_distinct);
                aligned = omega (arith, v.aligned);
                start_le = omega (arith, v.start_le);
              },
              (λ j lo hi. ground arith),
            ))
    ]
alloc_physical_page-IsValid {s = s} {free = p ∷ free} {live = live} v up =
    let (e, c) = v.chain in
    let ((al, nz, lo, lt, hi), pages) = v.free_pages in
    let (fresh, d) = v.distinct in
    let some_page : (p == 0) ≡ false = ne→== p 0 nz in
    let same : All (λ a. memset_page s.memory p a ≡ s.memory a) free =
      All-both free (λ a ne (ala, _, _, _, _). memset_apart s.memory p a al ala ne) fresh pages in
    rw (e, some_page)
      (inr (
        free,
        record {
          chain = Chain-cong s.memory (memset_page s.memory p) (s.memory p) free same c;
          free_pages = pages;
          live_pages = ((al, nz, lo, lt, hi), v.live_pages);
          distinct = d;
          apart = (fresh, All-map live (λ a (_, n). n) v.apart);
          live_distinct = (All-map live (λ a (ne, _) f. ne (sym f)) v.apart, v.live_distinct);
          aligned = v.aligned;
          start_le = v.start_le;
        },
        (λ j lo hi. ground arith),
      ))

-- In a well-formed pool, a page that is handed out and given back becomes the first of the free
-- list, and the pool stays well-formed.
pub free_physical_page-IsValid :
    {s : PagePool} {free live : List ℕ} {page : ℕ}
    → IsValid s free (page ∷ live)
    → IsValid (free_physical_page page s) (page ∷ free) live
unfolding free_physical_page
free_physical_page-IsValid {s} {free} {live} {page} v =
    let ((al, nz, lo, lt, hi), pages) = v.live_pages in
    let (fresh, apart) = v.apart in
    let (lone, d) = v.live_distinct in
    let inside : (ltb page s.paging_pool_start || leb s.paging_pool_end page) ≡ false =
      ground arith in
    let same : All (λ a. update s.memory page s.free_phys_list a ≡ s.memory a) free =
      All-map free (λ a ne. rw (ne→== a page (λ f. ne (sym f)))) fresh in
    let here = eq→== page page refl in
    rw (ne→== page 0 nz, inside)
      (record {
        chain = (refl, rw here (Chain-cong s.memory _ s.free_phys_list free same v.chain));
        free_pages = ((al, nz, lo, lt, hi), v.free_pages);
        live_pages = pages;
        distinct = (fresh, v.distinct);
        apart = All-both live (λ a ne n. ((λ f. ne (sym f)), n)) lone apart;
        live_distinct = d;
        aligned = v.aligned;
        start_le = v.start_le;
      })
