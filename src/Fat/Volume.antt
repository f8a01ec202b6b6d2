-- ===== src/Fat/Volume.antt =====
-- The parameter block of a volume: fat12_utils.c, fat16_utils.c and fat32_utils.c, and the number of
-- clusters that the three allocators go through.
use binbows.Base.{ℕ, ◌+◌, ◌-◌, ◌*◌, ◌/◌, ◌%◌, Bool, not, ◌&&◌, ◌||◌, ltb, leb, ◌==◌, if◌then◌else◌}
use binbows.Fat.Entries.{Bytes, get16, get32}

-- The fields that the code uses; `fat_size` is `fat_size_16` of FAT12 and FAT16 and `fat_size_32` of
-- FAT32, which alone has a `root_cluster`.
pub record Bpb : Type 0 where
  pub bytes_per_sector : ℕ
  pub sectors_per_cluster : ℕ
  pub reserved_sector_count : ℕ
  pub num_fats : ℕ
  pub root_entry_count : ℕ
  pub fat_size : ℕ
  pub root_cluster : ℕ

-- The block at its place in the boot sector
abbrev pub decode16 : Bytes → Bpb
decode16 boot = record {
  bytes_per_sector = get16 boot 11;
  sectors_per_cluster = boot 13;
  reserved_sector_count = get16 boot 14;
  num_fats = boot 16;
  root_entry_count = get16 boot 17;
  fat_size = get16 boot 22;
  root_cluster = 0;
}

abbrev pub decode32 : Bytes → Bpb
decode32 boot = record (decode16 boot) { fat_size = get32 boot 36; root_cluster = get32 boot 44 }

unfoldable pub validate_bpb : Bpb → Bool
validate_bpb b =
    not (b.bytes_per_sector == 0 || not (b.bytes_per_sector == 512))
    && not (b.sectors_per_cluster == 0 || ltb 128 b.sectors_per_cluster)
    && not (b.reserved_sector_count == 0)
    && not (b.num_fats == 0 || ltb 2 b.num_fats)
    && not (b.fat_size == 0)
    && not (b.root_entry_count == 0)

unfoldable pub validate_bpb16 : Bpb → Bool
validate_bpb16 b =
    not (b.bytes_per_sector == 0 || not (b.bytes_per_sector == 512))
    && not (b.sectors_per_cluster == 0)
    && not (b.num_fats == 0)
    && not (b.fat_size == 0)
    && not (b.root_entry_count == 0)

unfoldable pub validate_bpb32 : Bpb → Bool
validate_bpb32 b =
    b.bytes_per_sector == 512
    && not (b.sectors_per_cluster == 0)
    && not (b.num_fats == 0)
    && not (b.fat_size == 0)
    && not (ltb b.root_cluster 2 || leb 0x0FFFFFF8 b.root_cluster)

-- `max_clusters` is a `uint16_t`.
unfoldable pub fat12_max_clusters : Bpb → ℕ
fat12_max_clusters b =
    let max_clusters = b.fat_size * b.bytes_per_sector * 2 / 3 % 0x10000 in
    if ltb 4085 max_clusters then 4085 else max_clusters

unfoldable pub fat16_max_clusters : Bpb → ℕ
fat16_max_clusters b =
    let max_clusters = b.fat_size * b.bytes_per_sector / 2 % 0x10000 in
    if ltb 65525 max_clusters then 65525 else max_clusters

-- A count that is too large is refused as one that is too small is, so it is 0 here.
unfoldable pub fat32_max_clusters : Bpb → ℕ
fat32_max_clusters b =
    let max_clusters = b.fat_size * b.bytes_per_sector % 0x100000000 / 4 in
    if ltb 0x0FFFFFF6 max_clusters then 0 else max_clusters

-- A `uint32_t` throughout
unfoldable pub cluster_to_lba : Bpb → ℕ → ℕ
cluster_to_lba b cluster =
    let first_data_sector = b.reserved_sector_count + b.num_fats * b.fat_size in
    (first_data_sector + (cluster + 0x100000000 - 2) % 0x100000000 * b.sectors_per_cluster)
    % 0x100000000
