-- ===== src/Fat/Alloc.antt =====
-- The cluster allocator: the same loop in fat12_alloc.c, fat16_alloc.c and fat32_alloc.c, and the
-- search for one free cluster.
use binbows.Base.{ℕ, zero, suc, ◌+◌, ◌-◌, not, ◌&&◌, Option, none, some, ltb, ◌==◌, if◌then◌else◌}
use binbows.Fat.Table.{FatTable}

module _ (k : FatTable) where
  open k use {Table, read_entry, write_entry, end_of_chain}

  -- The local variables of the loop; 0 stands for no cluster.
  pub record AllocState : Type 0 where
    pub table : Table
    pub first_cluster : ℕ
    pub prev_cluster : ℕ
    pub allocated : ℕ

  -- The body of the `if` in the loop: a free cluster is linked behind the previous one.
  abbrev pub take_cluster : AllocState → ℕ → AllocState
  take_cluster s cluster = record {
    table = if s.first_cluster == 0 then s.table else write_entry s.table s.prev_cluster cluster;
    first_cluster = if s.first_cluster == 0 then cluster else s.first_cluster;
    prev_cluster = cluster;
    allocated = s.allocated + 1;
  }

  abbrev pub visit_cluster : AllocState → ℕ → AllocState
  visit_cluster s cluster = if read_entry s.table cluster == 0 then take_cluster s cluster else s

  -- `for (cluster = 2; cluster < max_clusters && allocated < count; cluster++)`, with the clusters
  -- that are left as fuel
  unfoldable pub alloc_loop : (rounds cluster count : ℕ) → AllocState → AllocState
  alloc_loop zero cluster count s = s
  alloc_loop (suc n) cluster count s =
      let rest = alloc_loop n (suc cluster) count (visit_cluster s cluster) in
      if ltb s.allocated count then rest else s

  abbrev pub no_cluster : Table → AllocState
  no_cluster t = record { table = t; first_cluster = 0; prev_cluster = 0; allocated = 0 }

  -- The table is written back to the disk only if all the clusters were found; `none` is the
  -- result 0.
  unfoldable pub alloc_clusters : (max_clusters count : ℕ) → Table → Option (ℕ × Table)
  alloc_clusters max_clusters count t =
      let s = alloc_loop (max_clusters - 2) 2 count (no_cluster t) in
      if ltb max_clusters 3
      then none
      else (if s.allocated == count && not (s.prev_cluster == 0)
          then some (s.first_cluster, write_entry s.table s.prev_cluster end_of_chain)
          else none)

  -- `find_free_cluster`; `none` is -1.
  unfoldable pub find_free_loop : (rounds cluster : ℕ) → Table → Option ℕ
  find_free_loop zero cluster t = none
  find_free_loop (suc n) cluster t =
      let rest = find_free_loop n (suc cluster) t in
      if read_entry t cluster == 0 then some cluster else rest

  unfoldable pub find_free_cluster : (max_clusters : ℕ) → Table → Option ℕ
  unfolding find_free_loop
  find_free_cluster max_clusters t = find_free_loop (max_clusters - 2) 2 t
