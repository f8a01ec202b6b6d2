-- ===== src/Fat/Search.antt =====
-- The search for one free cluster: `fat12_find_free_cluster` and `fat16_find_free_cluster`.
use binbows.Base.{
  ℕ, zero, suc, ◌+◌, ◌-◌, ◌≤◌, ◌<◌, ◌≡◌, ◌≢◌, inl, inr, Option, none, some, arith, ◌==◌, Bool-cases,
  ==_iff, ==→ne,
}
use binbows.Fat.Table.{FatTable}
use binbows.Fat.Alloc.{find_free_loop, find_free_cluster}

module _ (k : FatTable) where
  open k use {Table, read_entry}

  -- What the search from `cluster` on over `rounds` clusters returns
  abbrev pub IsFirstFree : Table → (cluster end : ℕ) → Option ℕ → Type 0
  IsFirstFree t cluster end none = (d : ℕ) → cluster ≤ d → d < end → read_entry t d ≢ 0
  IsFirstFree t cluster end (some c) =
      (cluster ≤ c)
      × (c < end)
      × (read_entry t c ≡ 0)
      × ((d : ℕ) → cluster ≤ d → d < c → read_entry t d ≢ 0)

  sooner :
      (t : Table) (cluster end : ℕ) (r : Option ℕ)
      → read_entry t cluster ≢ 0
      → IsFirstFree t (suc cluster) end r
      → IsFirstFree t cluster end r
  sooner t cluster end none taken h = λ d le lt. elim (Bool-cases (d == cluster)) [
    | inl e ↦ rw ((==_iff d cluster).0 e) taken
    | inr e ↦ h d (omega (arith, ==→ne d cluster e, le)) lt
  ]
  sooner t cluster end (some c) taken (le, lt, free, first) = (
    omega (arith, le),
    lt,
    free,
    (λ d led ltd. elim (Bool-cases (d == cluster)) [
      | inl e ↦ rw ((==_iff d cluster).0 e) taken
      | inr e ↦ first d (omega (arith, ==→ne d cluster e, led)) ltd
    ]),
  )

  find_free_loop-IsFirstFree :
      (n cluster : ℕ) (t : Table)
      → IsFirstFree t cluster (cluster + n) (find_free_loop k n cluster t)
  unfolding find_free_loop
  find_free_loop-IsFirstFree zero cluster t = λ d le lt. absurd (omega (arith, le, lt))
  find_free_loop-IsFirstFree (suc n) cluster t = elim (Bool-cases (read_entry t cluster == 0)) [
    | inl e ↦ rw e (
      omega arith,
      omega arith,
      (==_iff (read_entry t cluster) 0).0 e,
      (λ d le lt. absurd (omega (arith, le, lt))),
    )
    | inr e ↦
        let shift : cluster + suc n ≡ suc cluster + n = omega arith in
        rw (e, shift)
          (sooner t cluster (suc cluster + n) _ (==→ne (read_entry t cluster) 0 e)
            (find_free_loop-IsFirstFree n (suc cluster) t))
  ]

  -- For a `max_clusters` of 2 or more, the search returns the lowest free cluster from 2 below
  -- `max_clusters`, and -1 only if there is none.
  pub find_free_cluster-IsFirstFree :
      (max_clusters : ℕ) (t : Table)
      → 2 ≤ max_clusters
      → IsFirstFree t 2 max_clusters (find_free_cluster k max_clusters t)
  unfolding find_free_cluster
  find_free_cluster-IsFirstFree max_clusters t h =
      let e : 2 + (max_clusters - 2) ≡ max_clusters = omega arith in
      rw e at (find_free_loop-IsFirstFree (max_clusters - 2) 2 t)
