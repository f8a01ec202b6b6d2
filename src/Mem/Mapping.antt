-- ===== src/Mem/Mapping.antt =====
-- What `map_page` of mem.c does to the tables: the processor finds the page that was mapped.
use Prim.Native.Nat.{bit_or}
use binbows.Base.{
  update_self, ℕ, ◌+◌, ◌%◌, ◌≤◌, ◌<◌, ◌≡◌, ◌≢◌, refl, sym, ap, ◌∙◌, ◌⊎◌, inl, inr, true, false,
  some, List, [], ◌∷◌, arith, update, Option-cases, ne→==,
}
use binbows.Mem.Pages.{PagePool}
use binbows.Mem.Pool.{IsValid, IsPage}
use binbows.Mem.Tables.{
  unmap_page, present, frame, slot, create_path, find_path, map_page, translate, upper_indices,
  last_index,
}
use binbows.Mem.Way.{All-In, write-IsValid, Ready, Leads}
use binbows.Mem.Created.{apart_pages, create_path-Created}

-- A write to the last table leaves the way to it.
Leads-same :
    (m m' : ℕ → ℕ) (t : ℕ) (is : List ℕ) (pt : ℕ)
    → pt % 4096 ≡ 0
    → ((j : ℕ) → (j < pt) ⊎ (pt + 4096 ≤ j) → m' j ≡ m j)
    → Leads m t is pt
    → Leads m' t is pt
Leads-same m m' t [] pt pal same at = at
Leads-same m m' t (i ∷ is) pt pal same (al, ne, lt, there, rest) =
    let kept : m' (slot t i) ≡ m (slot t i) =
      same (slot t i)
        (apart_pages pt t (slot t i) pal al (λ z. ne (sym z)) (omega arith) (omega (arith, lt))) in
    (
      al,
      ne,
      lt,
      rw kept there,
      rw kept (Leads-same m m' (frame (m (slot t i))) is pt pal same rest),
    )

Leads-find_path :
    (m : ℕ → ℕ) (t : ℕ) (is : List ℕ) (pt : ℕ) → Leads m t is pt → find_path m t is ≡ some pt
unfolding find_path
Leads-find_path m t [] pt at = ap some at
Leads-find_path m t (i ∷ is) pt (al, ne, lt, there, rest) =
    rw there (Leads-find_path m (frame (m (slot t i))) is pt rest)

-- The last table after one of its entries is written
Leads-written :
    (m : ℕ → ℕ) (t : ℕ) (is : List ℕ) (pt i v : ℕ)
    → pt % 4096 ≡ 0
    → i < 512
    → Leads m t is pt
    → Leads (update m (slot pt i) v) t is pt
Leads-written m t is pt i v pal lt l =
    Leads-same m (update m (slot pt i) v) t is pt pal
      (λ j h. rw (ne→== j (slot pt i) (λ z. omega (arith, z, h, lt))) refl) l

-- The processor finds the entry, and `unmap_page` clears it.
translate-Leads :
    (m : ℕ → ℕ) (pml4 vaddr pt : ℕ)
    → Leads m pml4 (upper_indices vaddr) pt
    → translate m pml4 vaddr ≡ some (m (slot pt (last_index vaddr)))
unfolding translate
translate-Leads m pml4 vaddr pt l =
    rw (translate, Leads-find_path m pml4 (upper_indices vaddr) pt l) refl

unmap_page-Leads :
    (s : PagePool) (pml4 vaddr pt : ℕ)
    → pt % 4096 ≡ 0
    → Leads s.memory pml4 (upper_indices vaddr) pt
    → present (s.memory (slot pt (last_index vaddr))) ≡ true
    → let (ok, s') = unmap_page pml4 vaddr s in
      (ok ≡ true) × (translate s'.memory pml4 vaddr ≡ some 0)
unfolding unmap_page
unmap_page-Leads s pml4 vaddr pt pal l there =
    let at = slot pt (last_index vaddr) in
    let m' = update s.memory at 0 in
    rw (unmap_page, Leads-find_path s.memory pml4 (upper_indices vaddr) pt l, there)
      (
        refl,
        translate-Leads m' pml4 vaddr pt (
              Leads-written s.memory pml4 (upper_indices vaddr) pt (last_index vaddr) 0 pal
                (omega arith) l)
            ∙ ap some (update_self s.memory at 0),
      )

-- In a well-formed pool that has been set up, with tables on the way of the address that are handed
-- out and different: `map_page` fails, or the processor finds the frame and the flags for the
-- address, the pool is well-formed, and, if the entry is present, `unmap_page` succeeds after it
-- and the processor then finds an entry of 0.
pub map_page-translate :
    (pml4 vaddr paddr flags : ℕ) {s : PagePool} {free live : List ℕ}
    → IsValid s free live
    → s.next_free_page ≢ 0
    → Ready s.memory live pml4 (upper_indices vaddr)
    → let (ok, s1) = map_page pml4 vaddr paddr flags s in
      let entry = bit_or (frame paddr) flags in
      let (gone, s2) = unmap_page pml4 vaddr s1 in
      (ok ≡ false)
      ⊎ ((ok ≡ true)
          × (translate s1.memory pml4 vaddr ≡ some entry)
          × ((free' : List ℕ) × (live' : List ℕ) × IsValid s1 free' live')
          × (present entry ≡ true → (gone ≡ true) × (translate s2.memory pml4 vaddr ≡ some 0)))
unfolding map_page
map_page-translate pml4 vaddr paddr flags {s} {free} {live} v up ready =
    let is = upper_indices vaddr in
    elim (Option-cases (create_path pml4 is s).0) [
      | inl e ↦ rw (map_page, e) (inl refl)
      | inr (pt, e) ↦
          let s' = (create_path pml4 is s).1 in
          let c =
            create_path-Created is pml4 s free live pt v up
              (omega arith, (omega arith, (omega arith, tt))) ready e in
          let k = last_index vaddr in
          let at = slot pt k in
          let value = bit_or (frame paddr) flags in
          let s1 : PagePool = record s' { memory = update s'.memory at value } in
          let (pal, _, _, _, _) = All-In (IsPage s') pt c.live' c.valid.live_pages c.table_in in
          let leads = Leads-written s'.memory pml4 is pt k value pal (omega arith) c.leads in
          let there = update_self s'.memory at value in
          rw (map_page, e)
            (inr (
              refl,
              translate-Leads (update s'.memory at value) pml4 vaddr pt leads ∙ ap some there,
              (c.free', c.live', write-IsValid pt k value c.valid c.table_in (omega arith)),
              (λ odd. unmap_page-Leads s1 pml4 vaddr pt pal leads (rw there odd)),
            ))
    ]
