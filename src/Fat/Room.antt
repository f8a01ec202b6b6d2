-- ===== src/Fat/Room.antt =====
-- When the allocators of fat12_alloc.c, fat16_alloc.c and fat32_alloc.c succeed, and with what.
use binbows.Base.{
  ℕ, zero, suc, ◌+◌, ◌-◌, ◌≤◌, ◌<◌, ◌≡◌, refl, sym, ap, ◌∙◌, ◌⊎◌, inl, inr, true, false, none, some,
  List, [], ◌∷◌, arith, ltb, leb, ◌==◌, if◌then◌else◌, length, Bool-cases, ==_iff, ltb→lt, not-ltb,
  eq→==,
}
use binbows.Fat.Table.{FatTable}
use binbows.Fat.Alloc.{AllocState, visit_cluster, no_cluster, alloc_loop, alloc_clusters}
use binbows.Fat.Chain.{
  Descends, NotIn, last_of, LinksTo, WereFree, Built, Built-start, Built-take, Built-later,
  Built-fresh, LinksTo-write,
}

module _ (k : FatTable) where
  open k use {
    Table, InRange, limit, read_entry, write_entry, end_of_chain, write-InRange, end-lt,
    read-write_self, read-write_ne,
  }

  -- How many of the `rounds` clusters from `cluster` on are free.
  abbrev pub free_count : (rounds cluster : ℕ) → Table → ℕ
  free_count zero cluster t = 0
  free_count (suc n) cluster t =
      (if read_entry t cluster == 0 then 1 else 0) + free_count n (suc cluster) t

  -- The chain of a file: `rs` are `count` clusters that were free in `t`, linked in `t'` from
  -- `first` upwards to the mark of the end, and all else is as in `t`.
  pub record Allocated (max_clusters count : ℕ) (t : Table) (first : ℕ) (t' : Table) (rs : List ℕ)
      : Type 0 where
    pub in_range : InRange t'
    pub counted : length rs ≡ count
    pub descends : Descends max_clusters rs
    pub were_free : WereFree k t rs
    pub starts : first ≡ last_of 0 rs
    pub linked : LinksTo k t' end_of_chain rs
    pub kept : (d : ℕ) → 2 ≤ d → NotIn d rs → read_entry t' d ≡ read_entry t d

  visit_cluster-Built :
      {t0 : Table} (c : ℕ) (s : AllocState k) (rs : List ℕ)
      → 2 ≤ c
      → c < limit
      → Built k t0 c s rs
      → (rs' : List ℕ) × Built k t0 (suc c) (visit_cluster k s c) rs'
        × ((visit_cluster k s c).allocated ≡ s.allocated + (if read_entry t0 c == 0 then 1 else 0))
  visit_cluster-Built {t0} c s rs h2 hc b =
      let fresh = Built-fresh k c s rs h2 b in
      rw fresh (elim (Bool-cases (read_entry t0 c == 0)) [
        | inl e ↦
            simp e (c ∷ rs, Built-take k c s rs h2 hc ((==_iff (read_entry t0 c) 0).0 e) b, refl)
        | inr e ↦ simp e (rs, Built-later k c (suc c) s rs (omega arith) b, omega arith)
      ])

  alloc_loop-Built :
      {t0 : Table} (n c count : ℕ) (s : AllocState k) (rs : List ℕ)
      → 2 ≤ c
      → c + n ≤ limit
      → s.allocated ≤ count
      → Built k t0 c s rs
      → (rs' : List ℕ) × Built k t0 (c + n) (alloc_loop k n c count s) rs'
        × ((alloc_loop k n c count s).allocated ≡ (
            if leb count (s.allocated + free_count n c t0)
            then count
            else s.allocated + free_count n c t0))
  unfolding alloc_loop
  alloc_loop-Built {t0} zero c count s rs h2 hl hc b =
      let e : c + zero ≡ c = omega arith in rw e (rs, b, ground arith)
  alloc_loop-Built {t0} (suc n) c count s rs h2 hl hc b =
      elim (Bool-cases (ltb s.allocated count)) [
        | inl more ↦
            let e : c + suc n ≡ suc c + n = omega arith in
            let lt = ltb→lt s.allocated count more in
            let (rs1, b1, a1) = visit_cluster-Built c s rs h2 (omega arith) b in
            let bit : (if read_entry t0 c == 0 then 1 else 0) ≤ 1 = ground arith in
            let (rs2, b2, a2) =
              alloc_loop-Built n (suc c) count (visit_cluster k s c) rs1 (omega arith) (omega arith)
                (omega (arith, a1, bit, lt)) b1 in
            let all : (visit_cluster k s c).allocated + free_count n (suc c) t0
                ≡ s.allocated + free_count (suc n) c t0 =
              omega (arith, a1) in
            rw (more, e) (rs2, b2, a2 ∙ ap (λ z. if leb count z then count else z) all)
        | inr done ↦ rw done (rs, Built-later k c (c + suc n) s rs (omega arith) b, ground arith)
      ]

  -- The end of the chain is marked.
  finish-Allocated :
      {t0 : Table} (c count : ℕ) (s : AllocState k) (rs : List ℕ)
      → Built k t0 c s rs
      → s.allocated ≡ count
      → 1 ≤ count
      → ((s.prev_cluster == 0) ≡ false)
        × Allocated c count t0 s.first_cluster (write_entry s.table s.prev_cluster end_of_chain) rs
  finish-Allocated c count s [] b a pos = absurd (omega (arith, b.counted))
  finish-Allocated {t0} c count s (p ∷ rs) b a pos =
      let (e1, e2, l) = b.ends in
      let (p2, pc, d) = b.descends in
      rw e2 (
        ground arith,
        record {
          in_range = write-InRange s.table p end_of_chain end-lt b.in_range;
          counted = sym b.counted ∙ a;
          descends = b.descends;
          were_free = b.were_free;
          starts = e1;
          linked = (
            read-write_self s.table p end_of_chain b.in_range p2 end-lt,
            LinksTo-write k s.table p end_of_chain p rs b.in_range p2 end-lt d l,
          );
          kept = λ q hq (np, n).
              read-write_ne s.table p q end_of_chain b.in_range p2 hq (λ f. np (sym f)) end-lt
              ∙ b.kept q hq (np, n);
        },
      )

  abbrev pub searched : (max_clusters count : ℕ) → Table → AllocState k
  searched max_clusters count t = alloc_loop k (max_clusters - 2) 2 count (no_cluster k t)

  search_all :
      (max_clusters count : ℕ) (t : Table)
      → InRange t
      → max_clusters ≤ limit
      → 3 ≤ max_clusters
      → (rs : List ℕ) × Built k t max_clusters (searched max_clusters count t) rs
        × ((searched max_clusters count t).allocated ≡ (
            if leb count (free_count (max_clusters - 2) 2 t)
            then count
            else free_count (max_clusters - 2) 2 t))
  search_all max_clusters count t r hl big =
      let (rs, b, a) =
        alloc_loop-Built (max_clusters - 2) 2 count (no_cluster k t) [] (omega arith) (omega arith)
          (omega arith) (Built-start k t r) in
      let all : 0 + free_count (max_clusters - 2) 2 t ≡ free_count (max_clusters - 2) 2 t =
        omega arith in
      (
        rs,
        Built-later k (2 + (max_clusters - 2)) max_clusters _ rs (omega arith) b,
        a ∙ ap (λ z. if leb count z then count else z) all,
      )

  room-big :
      (max_clusters : ℕ) (t : Table) → 1 ≤ free_count (max_clusters - 2) 2 t → 3 ≤ max_clusters
  room-big zero t h = absurd (omega (arith, h))
  room-big (suc zero) t h = absurd (omega (arith, h))
  room-big (suc (suc zero)) t h = absurd (omega (arith, h))
  room-big (suc (suc (suc m))) t h = omega arith

  prev-none :
      {t0 : Table} {c : ℕ} {s : AllocState k} (rs : List ℕ)
      → Built k t0 c s rs
      → s.allocated ≡ 0
      → (s.prev_cluster == 0) ≡ true
  prev-none [] b a = let (_, e) = b.ends in rw e
  prev-none (p ∷ rs) b a = absurd (omega (arith, b.counted))

  -- With `count` free clusters or more among those from 2 below `max_clusters`, and `count` not 0,
  -- the allocation succeeds: it takes `count` clusters that were free, links them upwards from the
  -- one that it returns to the mark of the end, and changes no other entry.
  pub alloc_clusters-Allocated :
      (max_clusters count : ℕ) (t : Table)
      → InRange t
      → max_clusters ≤ limit
      → 1 ≤ count
      → count ≤ free_count (max_clusters - 2) 2 t
      → (first : ℕ) × (t' : Table) × (rs : List ℕ) × (alloc_clusters k max_clusters count t
          ≡ some (first, t'))
        × Allocated max_clusters count t first t' rs
  unfolding alloc_clusters
  alloc_clusters-Allocated max_clusters count t r hl pos room =
      let big = room-big max_clusters t (omega arith) in
      let (rs, b, a) = search_all max_clusters count t r hl big in
      let a' : (searched max_clusters count t).allocated ≡ count = ground arith in
      let all : ((searched max_clusters count t).allocated == count) ≡ true = eq→== _ _ a' in
      let (np, done) =
        finish-Allocated max_clusters count (searched max_clusters count t) rs b a' pos in
      (_, _, rs, simp (not-ltb max_clusters 3 big, all, np), done)

  -- With fewer than `count` free clusters below `max_clusters`, or for `count` 0, the allocation
  -- fails, for a `max_clusters` within the range of the entries.
  pub alloc_clusters-none :
      (max_clusters count : ℕ) (t : Table)
      → InRange t
      → max_clusters ≤ limit
      → (free_count (max_clusters - 2) 2 t < count) ⊎ (count ≡ 0)
      → alloc_clusters k max_clusters count t ≡ none
  unfolding alloc_clusters
  alloc_clusters-none max_clusters count t r hl why = elim (Bool-cases (ltb max_clusters 3)) [
    | inl few ↦ rw few
    | inr enough ↦
        let (rs, b, a) = search_all max_clusters count t r hl (ground arith) in
        rw enough (elim why [
          | inl less ↦
              let ne : ((searched max_clusters count t).allocated == count) ≡ false =
                ground arith in
              rw ne
          | inr z ↦
              let np : ((searched max_clusters count t).prev_cluster == 0) ≡ true =
                prev-none rs b (ground arith) in
              let e : ((searched max_clusters count t).allocated == count) ≡ true = ground arith in
              rw (e, np)
        ])
  ]
