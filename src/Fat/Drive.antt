-- ===== src/Fat/Drive.antt =====
-- `read_bpb`, `fatNN_alloc_clusters` and `fatNN_write_fat` of the three file systems on a drive. The
-- functions of the IDE driver, kernel/src/drivers/block/ide/ide_rw.c, are a parameter.
use binbows.Base.{
  ℕ, zero, suc, ◌+◌, ◌*◌, ◌%◌, Bool, false, not, ◌&&◌, Option, none, some, ltb, ◌==◌, if◌then◌else◌,
}
use binbows.Fat.Entries.{Bytes}
use binbows.Fat.Laws.{fat12, fat16, fat32}
use binbows.Fat.Alloc.{alloc_clusters}
use binbows.Fat.Volume.{
  Bpb, decode16, decode32, validate_bpb, validate_bpb16, validate_bpb32, fat12_max_clusters,
  fat16_max_clusters, fat32_max_clusters,
}

-- What the file systems use of the driver: the drive, the number of sectors, the first of them. A
-- read that fails gives `none`; of a write there is the disk after it and whether it succeeds.
pub record Ide : Type 1 where
  pub Disk : Type 0
  pub ide_read_sectors : ℕ → ℕ → ℕ → Disk → Option Bytes × Disk
  pub ide_write_sectors : ℕ → ℕ → ℕ → Bytes → Disk → Disk
  pub ide_write_ok : ℕ → ℕ → ℕ → Bytes → Disk → Bool

-- The sectors of the array `fat` of the three allocators
abbrev pub fat12_buffer_sectors : ℕ
fat12_buffer_sectors = 12

abbrev pub fat16_buffer_sectors : ℕ
fat16_buffer_sectors = 12

abbrev pub fat32_buffer_sectors : ℕ
fat32_buffer_sectors = 128

module _ (ide : Ide) where
  open ide use {Disk, ide_read_sectors, ide_write_sectors}

  -- The disks and the cached parameter block of one file system, with its drive
  pub record Volume : Type 0 where
    pub disk : Disk
    pub cached : Option (ℕ × Bpb)

  abbrev is_cached : ℕ → Option (ℕ × Bpb) → Bool
  is_cached drive none = false
  is_cached drive (some (d, b)) = d == drive

  abbrev cached_block : Option (ℕ × Bpb) → Option Bpb
  cached_block none = none
  cached_block (some (d, b)) = some b

  -- The boot sector is looked at, and its block kept.
  abbrev keep_block : ℕ → (Bytes → Bpb) → Volume → Option Bytes × Disk → Option Bpb × Volume
  keep_block drive decode s (none, d) = (none, record s { disk = d })
  keep_block drive decode s (some boot, d) =
      if boot 510 == 0x55 && boot 511 == 0xAA
      then (some (decode boot), record s { disk = d; cached = some (drive, decode boot) })
      else (none, record s { disk = d })

  -- The block of the drive that was read last is kept.
  unfoldable pub read_bpb : ℕ → Volume → Option Bpb × Volume
  read_bpb drive s =
      if is_cached drive s.cached
      then (cached_block s.cached, s)
      else keep_block drive decode16 s (ide_read_sectors drive 1 0 s.disk)

  -- The block of the drive that was read last is kept.
  unfoldable pub read_bpb16 : ℕ → Volume → Option Bpb × Volume
  read_bpb16 drive s =
      if is_cached drive s.cached
      then (cached_block s.cached, s)
      else keep_block drive decode16 s (ide_read_sectors drive 1 0 s.disk)

  -- The block of the drive that was read last is kept.
  unfoldable pub read_bpb32 : ℕ → Volume → Option Bpb × Volume
  read_bpb32 drive s =
      if is_cached drive s.cached
      then (cached_block s.cached, s)
      else keep_block drive decode32 s (ide_read_sectors drive 1 0 s.disk)

  -- `for (s = 0; s < fat_size; s++)`
  unfoldable pub write_sectors : (drive rounds s lba : ℕ) → Bytes → Disk → Disk
  write_sectors drive zero s lba bytes d = d
  write_sectors drive (suc n) s lba bytes d =
      write_sectors drive n (suc s) lba bytes
        (ide_write_sectors drive 1 ((lba + s) % 0x100000000) (λ j. bytes (s * 512 + j)) d)

  -- `for (i = 0; i < num_fats; i++)`
  unfoldable pub write_copies : (drive rounds i fat_size : ℕ) → Bytes → (reserved : ℕ) → Disk → Disk
  write_copies drive zero i fat_size bytes reserved d = d
  write_copies drive (suc n) i fat_size bytes reserved d =
      write_copies drive n (suc i) fat_size bytes reserved
        (write_sectors drive fat_size 0 ((reserved + i * fat_size) % 0x100000000) bytes d)

  unfoldable pub fat12_write_fat :
      (drive num_fats fat_size : ℕ) → Bytes → (reserved_sector_count : ℕ) → Disk → Disk
  fat12_write_fat drive num_fats fat_size fat_data reserved_sector_count d =
      write_copies drive num_fats 0 fat_size fat_data (reserved_sector_count % 256) d

  abbrev pub fat12_written : (drive : ℕ) → Bpb → Volume → Disk → Option (ℕ × Bytes) → ℕ × Volume
  fat12_written drive b s d none = (0, record s { disk = d })
  fat12_written drive b s d (some (first, fat)) = (
    first,
    record s { disk = fat12_write_fat drive b.num_fats b.fat_size fat b.reserved_sector_count d },
  )

  abbrev fat12_allocate : (drive count : ℕ) → Bpb → Volume → Option Bytes × Disk → ℕ × Volume
  fat12_allocate drive count b s (none, d) = (0, record s { disk = d })
  fat12_allocate drive count b s (some fat, d) =
      fat12_written drive b s d (alloc_clusters fat12 (fat12_max_clusters b) count fat)

  abbrev fat12_checked : (drive count : ℕ) → Option Bpb × Volume → Option (ℕ × Volume)
  fat12_checked drive count (none, s) = some (0, s)
  fat12_checked drive count (some b, s) =
      if not (validate_bpb b)
      then some (0, s)
      else (if ltb fat12_buffer_sectors b.fat_size
          then none
          else some (
              fat12_allocate drive count b s
                (ide_read_sectors drive (b.fat_size % 256) b.reserved_sector_count s.disk)))

  -- `none` is a table that does not fit into `fat`, an array on the stack, and is read over its end.
  unfoldable pub fat12_alloc_clusters : (drive count : ℕ) → Volume → Option (ℕ × Volume)
  fat12_alloc_clusters drive count s = fat12_checked drive count (read_bpb drive s)

  unfoldable pub fat16_write_fat :
      (drive num_fats fat_size : ℕ) → Bytes → (reserved_sector_count : ℕ) → Disk → Disk
  fat16_write_fat drive num_fats fat_size fat_data reserved_sector_count d =
      write_copies drive num_fats 0 fat_size fat_data (reserved_sector_count % 256) d

  abbrev pub fat16_written : (drive : ℕ) → Bpb → Volume → Disk → Option (ℕ × Bytes) → ℕ × Volume
  fat16_written drive b s d none = (0, record s { disk = d })
  fat16_written drive b s d (some (first, fat)) = (
    first,
    record s { disk = fat16_write_fat drive b.num_fats b.fat_size fat b.reserved_sector_count d },
  )

  abbrev fat16_allocate : (drive count : ℕ) → Bpb → Volume → Option Bytes × Disk → ℕ × Volume
  fat16_allocate drive count b s (none, d) = (0, record s { disk = d })
  fat16_allocate drive count b s (some fat, d) =
      fat16_written drive b s d (alloc_clusters fat16 (fat16_max_clusters b) count fat)

  abbrev fat16_checked : (drive count : ℕ) → Option Bpb × Volume → Option (ℕ × Volume)
  fat16_checked drive count (none, s) = some (0, s)
  fat16_checked drive count (some b, s) =
      if not (validate_bpb16 b)
      then some (0, s)
      else (if ltb fat16_buffer_sectors b.fat_size
          then none
          else some (
              fat16_allocate drive count b s
                (ide_read_sectors drive (b.fat_size % 256) b.reserved_sector_count s.disk)))

  -- `none` is a table that does not fit into `fat`, an array on the stack, and is read over its end.
  unfoldable pub fat16_alloc_clusters : (drive count : ℕ) → Volume → Option (ℕ × Volume)
  fat16_alloc_clusters drive count s = fat16_checked drive count (read_bpb16 drive s)

  unfoldable pub fat32_write_fat :
      (drive num_fats fat_size : ℕ) → Bytes → (reserved_sector_count : ℕ) → Disk → Disk
  fat32_write_fat drive num_fats fat_size fat_data reserved_sector_count d =
      write_copies drive num_fats 0 fat_size fat_data (reserved_sector_count) d

  abbrev pub fat32_written : (drive : ℕ) → Bpb → Volume → Disk → Option (ℕ × Bytes) → ℕ × Volume
  fat32_written drive b s d none = (0, record s { disk = d })
  fat32_written drive b s d (some (first, fat)) = (
    first,
    record s { disk = fat32_write_fat drive b.num_fats b.fat_size fat b.reserved_sector_count d },
  )

  abbrev fat32_allocate : (drive count : ℕ) → Bpb → Volume → Option Bytes × Disk → ℕ × Volume
  fat32_allocate drive count b s (none, d) = (0, record s { disk = d })
  fat32_allocate drive count b s (some fat, d) =
      fat32_written drive b s d (alloc_clusters fat32 (fat32_max_clusters b) count fat)

  abbrev fat32_checked : (drive count : ℕ) → Option Bpb × Volume → Option (ℕ × Volume)
  fat32_checked drive count (none, s) = some (0, s)
  fat32_checked drive count (some b, s) =
      if not (validate_bpb32 b)
      then some (0, s)
      else (if ltb fat32_buffer_sectors b.fat_size
          then none
          else some (
              fat32_allocate drive count b s
                (ide_read_sectors drive (b.fat_size % 256) b.reserved_sector_count s.disk)))

  -- `none` is a table that does not fit into `fat`, an array on the stack, and is read over its end.
  unfoldable pub fat32_alloc_clusters : (drive count : ℕ) → Volume → Option (ℕ × Volume)
  fat32_alloc_clusters drive count s = fat32_checked drive count (read_bpb32 drive s)
