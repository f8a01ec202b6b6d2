-- ===== src/Fat/Geometry.antt =====
-- The allocators of fat12_alloc.c, fat16_alloc.c and fat32_alloc.c on a drive, and the bounds of the
-- tables they go through.
use binbows.Base.{
  ℕ, ◌+◌, ◌-◌, ◌*◌, ◌%◌, ◌≤◌, ◌<◌, ◌≡◌, ap, true, some, not-ltb, List, [], ◌∷◌, arith,
}
use binbows.Fat.Table.{FatTable}
use binbows.Fat.Entries.{Bytes, AreBytes, offset12}
use binbows.Fat.Laws.{fat12, fat16, fat32}
use binbows.Fat.Chain.{last_of-pos}
use binbows.Fat.Room.{free_count, Allocated, alloc_clusters-Allocated}
use binbows.Fat.Volume.{
  Bpb, validate_bpb, validate_bpb16, validate_bpb32, fat12_max_clusters, fat16_max_clusters,
  fat32_max_clusters,
}
use binbows.Fat.Drive.{
  Ide, Volume, read_bpb, read_bpb16, read_bpb32, fat12_write_fat, fat12_written, fat16_write_fat,
  fat16_written, fat32_write_fat, fat32_written, fat12_alloc_clusters, fat16_alloc_clusters,
  fat32_alloc_clusters, fat12_buffer_sectors, fat16_buffer_sectors, fat32_buffer_sectors,
}

-- For sectors of 512 bytes, the entries that the allocators read and write, those of the clusters
-- below `max_clusters`, lie within the `fat_size` sectors of the table, for FAT12, FAT16 and FAT32.
pub max_clusters-inside :
    (b : Bpb) (cluster : ℕ)
    → b.bytes_per_sector ≡ 512
    → (cluster < fat12_max_clusters b → offset12 cluster + 1 < b.fat_size * 512)
      × (cluster < fat16_max_clusters b → 2 * cluster + 1 < b.fat_size * 512)
      × (cluster < fat32_max_clusters b → 4 * cluster + 3 < b.fat_size * 512)
unfolding fat12_max_clusters fat16_max_clusters fat32_max_clusters
max_clusters-inside b cluster e = ((λ h. ground arith), (λ h. ground arith), (λ h. ground arith))

fat12_max-limit : (b : Bpb) → fat12_max_clusters b ≤ 0x1000
unfolding fat12_max_clusters
fat12_max-limit b = ground arith

fat16_max-limit : (b : Bpb) → fat16_max_clusters b ≤ 0x10000
unfolding fat16_max_clusters
fat16_max-limit b = ground arith

fat32_max-limit : (b : Bpb) → fat32_max_clusters b ≤ 0x10000000
unfolding fat32_max_clusters
fat32_max-limit b = ground arith

first-pos :
    (k : FatTable) (m count : ℕ) (t : k.Table) (first : ℕ) (t' : k.Table) (rs : List ℕ)
    → Allocated k m count t first t' rs
    → 1 ≤ count
    → 2 ≤ first
first-pos k m count t first t' [] a pos = absurd (omega (arith, a.counted))
first-pos k m count t first t' (p ∷ rs) a pos =
    omega (arith, a.starts, last_of-pos k m p rs a.descends)

module _ (ide : Ide) where
  open ide use {Disk, ide_read_sectors}

  -- FAT12: on a drive whose parameter block is read and valid, with a table that fits into the 12
  -- sectors of the array on the stack and is read as bytes, a request for `count` clusters, 1 or
  -- more and not more than are free, returns the first of a chain of `count` clusters that were
  -- free, linked upwards to the mark of the end, with all other entries unchanged, and what is
  -- written to the drive is the table with that chain.
  pub fat12_alloc_clusters-Allocated :
      (drive count : ℕ) (s s1 : Volume ide) (b : Bpb) (t : Bytes) (d : Disk)
      → read_bpb ide drive s ≡ (some b, s1)
      → validate_bpb b ≡ true
      → b.fat_size ≤ fat12_buffer_sectors
      → ide_read_sectors drive (b.fat_size % 256) b.reserved_sector_count s1.disk ≡ (some t, d)
      → AreBytes t
      → 1 ≤ count
      → count ≤ free_count fat12 (fat12_max_clusters b - 2) 2 t
      → (first : ℕ) × (t' : Bytes) × (rs : List ℕ) × (fat12_alloc_clusters ide drive count s
          ≡ some (
            first,
            record s1 {
              disk = fat12_write_fat ide drive b.num_fats b.fat_size t' b.reserved_sector_count d;
            },
          ))
        × (2 ≤ first)
        × Allocated fat12 (fat12_max_clusters b) count t first t' rs
  unfolding fat12_alloc_clusters
  fat12_alloc_clusters-Allocated drive count s s1 b t d eb ok fits et bytes pos room =
      let holds_table = not-ltb fat12_buffer_sectors b.fat_size fits in
      let (first, t', rs, e, a) =
        alloc_clusters-Allocated fat12 (fat12_max_clusters b) count t bytes (fat12_max-limit b) pos
          room in
      rw (eb, ok, holds_table, et)
        (
          first,
          t',
          rs,
          ap (λ r. some (fat12_written ide drive b s1 d r)) e,
          first-pos fat12 _ count t first t' rs a pos,
          a,
        )

  -- FAT16: on a drive whose parameter block is read and valid and whose table is read as bytes, a
  -- request for `count` clusters, 1 or more and not more than are free, returns the first of a
  -- chain of `count` clusters that were free, linked upwards to the mark of the end, with all other
  -- entries unchanged, and what is written to the drive is the table with that chain.
  pub fat16_alloc_clusters-Allocated :
      (drive count : ℕ) (s s1 : Volume ide) (b : Bpb) (t : Bytes) (d : Disk)
      → read_bpb16 ide drive s ≡ (some b, s1)
      → validate_bpb16 b ≡ true
      → b.fat_size ≤ fat16_buffer_sectors
      → ide_read_sectors drive (b.fat_size % 256) b.reserved_sector_count s1.disk ≡ (some t, d)
      → AreBytes t
      → 1 ≤ count
      → count ≤ free_count fat16 (fat16_max_clusters b - 2) 2 t
      → (first : ℕ) × (t' : Bytes) × (rs : List ℕ) × (fat16_alloc_clusters ide drive count s
          ≡ some (
            first,
            record s1 {
              disk = fat16_write_fat ide drive b.num_fats b.fat_size t' b.reserved_sector_count d;
            },
          ))
        × (2 ≤ first)
        × Allocated fat16 (fat16_max_clusters b) count t first t' rs
  unfolding fat16_alloc_clusters
  fat16_alloc_clusters-Allocated drive count s s1 b t d eb ok fits et bytes pos room =
      let holds_table = not-ltb fat16_buffer_sectors b.fat_size fits in
      let (first, t', rs, e, a) =
        alloc_clusters-Allocated fat16 (fat16_max_clusters b) count t bytes (fat16_max-limit b) pos
          room in
      rw (eb, ok, holds_table, et)
        (
          first,
          t',
          rs,
          ap (λ r. some (fat16_written ide drive b s1 d r)) e,
          first-pos fat16 _ count t first t' rs a pos,
          a,
        )

  -- FAT32: on a drive whose parameter block is read and valid and whose table is read as bytes, a
  -- request for `count` clusters, 1 or more and not more than are free, returns the first of a
  -- chain of `count` clusters that were free, linked upwards to the mark of the end, with all other
  -- entries unchanged, and what is written to the drive is the table with that chain.
  pub fat32_alloc_clusters-Allocated :
      (drive count : ℕ) (s s1 : Volume ide) (b : Bpb) (t : Bytes) (d : Disk)
      → read_bpb32 ide drive s ≡ (some b, s1)
      → validate_bpb32 b ≡ true
      → b.fat_size ≤ fat32_buffer_sectors
      → ide_read_sectors drive (b.fat_size % 256) b.reserved_sector_count s1.disk ≡ (some t, d)
      → AreBytes t
      → 1 ≤ count
      → count ≤ free_count fat32 (fat32_max_clusters b - 2) 2 t
      → (first : ℕ) × (t' : Bytes) × (rs : List ℕ) × (fat32_alloc_clusters ide drive count s
          ≡ some (
            first,
            record s1 {
              disk = fat32_write_fat ide drive b.num_fats b.fat_size t' b.reserved_sector_count d;
            },
          ))
        × (2 ≤ first)
        × Allocated fat32 (fat32_max_clusters b) count t first t' rs
  unfolding fat32_alloc_clusters
  fat32_alloc_clusters-Allocated drive count s s1 b t d eb ok fits et bytes pos room =
      let holds_table = not-ltb fat32_buffer_sectors b.fat_size fits in
      let (first, t', rs, e, a) =
        alloc_clusters-Allocated fat32 (fat32_max_clusters b) count t bytes (fat32_max-limit b) pos
          room in
      rw (eb, ok, holds_table, et)
        (
          first,
          t',
          rs,
          ap (λ r. some (fat32_written ide drive b s1 d r)) e,
          first-pos fat32 _ count t first t' rs a pos,
          a,
        )
