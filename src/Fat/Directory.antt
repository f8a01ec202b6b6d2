-- ===== src/Fat/Directory.antt =====
-- The root directory of FAT12, fat12_dir.c. A directory entry has 32 bytes: the name from 0, the
-- attributes at 11, the two halves of the first cluster at 20 and 26, the size at 28. The root
-- directory's numbers are below 2 ^ 31, and its block has passed `validate_bpb`.
use binbows.Base.{
  ℕ, zero, suc, ◌+◌, ◌-◌, ◌*◌, ◌/◌, ◌%◌, ◌^◌, not, ◌&&◌, ◌||◌, Option, none, some, ltb, leb, ◌==◌,
  if◌then◌else◌, update,
}
use binbows.Fat.Drive.{Ide}
use binbows.Fat.Entries.{Bytes, set16, set32}
use binbows.Fat.Name.{fat12_format_filename}
use binbows.Fat.Volume.{Bpb}
use binbows.Shell.Text.{Buffer}

abbrev pub attr_archive : ℕ
attr_archive = 0x20

abbrev pub attr_directory : ℕ
attr_directory = 0x10

abbrev pub root_dir_sectors : Bpb → ℕ
root_dir_sectors b = (b.root_entry_count * 32 + (b.bytes_per_sector - 1)) / b.bytes_per_sector

abbrev pub root_dir_lba : Bpb → ℕ
root_dir_lba b = b.reserved_sector_count + b.num_fats * b.fat_size

abbrev pub data_start_lba : Bpb → ℕ
data_start_lba b = root_dir_lba b + root_dir_sectors b

-- The index of the first free one of the entries of a sector, of which `rounds` are left
unfoldable pub find_in_sector : (rounds i : ℕ) → Bytes → Option ℕ
find_in_sector zero i sector = none
find_in_sector (suc n) i sector =
    let rest = find_in_sector n (suc i) sector in
    if sector (i * 32) == 0 || sector (i * 32) == 0xE5 then some i else rest

-- The 32 bytes of an entry, at `a` in a sector
abbrev pub put_entry :
    (sector : Bytes) → (a : ℕ) → (name : Buffer) → (attr first_cluster size : ℕ) → Bytes
put_entry sector a name attr first_cluster size =
    let cleared : Bytes = λ j. if leb a j && ltb j (a + 32) then 0 else sector j in
    let named : Bytes = λ j. if leb a j && ltb j (a + 12) then name (j - a) else cleared j in
    set32 (set16 (set16 (update named (a + 11) attr) (a + 26) first_cluster) (a + 20) 0) (a + 28)
      size

module _ (ide : Ide) (fuel drive : ℕ) where
  open ide use {Disk, ide_read_sectors, ide_write_sectors, ide_write_ok}

  -- `for (i = 0; i < root_dir_sectors; i++)`; `none` is -1. A sector that cannot be read is skipped.
  unfoldable pub find_free_loop : (rounds i lba : ℕ) → Disk → Option ℕ × Disk
  find_free_loop zero i lba d = (none, d)
  find_free_loop (suc n) i lba d =
      let (r, d') = ide_read_sectors drive 1 (lba + i) d in
      let rest = find_free_loop n (suc i) lba d' in
      elim r [
        | none ↦ rest
        | some sector ↦ elim (find_in_sector 16 0 sector) [
          | none ↦ rest
          | some offset ↦ (some (i * 16 + offset), d')
        ]
      ]

  abbrev pub fat12_find_free_root_dir_entry : Bpb → Disk → Option ℕ × Disk
  fat12_find_free_root_dir_entry b d = find_free_loop (root_dir_sectors b) 0 (root_dir_lba b) d

  -- The sector of the entry `index` and its place in it
  abbrev pub entry_sector : Bpb → (index : ℕ) → ℕ
  entry_sector b index = root_dir_lba b + index / (b.bytes_per_sector / 32)

  abbrev pub entry_offset : Bpb → (index : ℕ) → ℕ
  entry_offset b index = index % (b.bytes_per_sector / 32) * 32

  -- The entry put into the sector that was read
  abbrev pub store_entry :
      Bpb → (index : ℕ) → (filename : Buffer) → (attr first_cluster size : ℕ) → Bytes → Option Bytes
  store_entry b index filename attr first_cluster size sector =
      let a = entry_offset b index in
      elim (fat12_format_filename fuel filename (λ j. 0)) [
        | none ↦ none
        | some name ↦ some (put_entry sector a name attr first_cluster size)
      ]

  -- `none` is a name longer than the fuel.
  unfoldable pub fat12_write_dir_entry :
      Bpb → (index : ℕ) → (filename : Buffer) → (first_cluster size : ℕ) → Disk → Option Disk
  fat12_write_dir_entry b index filename first_cluster size d =
      let lba = entry_sector b index in
      let (r, d') = ide_read_sectors drive 1 lba d in
      elim r [
        | none ↦ some d'
        | some sector ↦ elim (store_entry b index filename attr_archive first_cluster size sector) [
          | none ↦ none
          | some bytes ↦ some (ide_write_sectors drive 1 lba bytes d')
        ]
      ]

  -- The names "." and ".." in the first sector of a directory; behind its 512 bytes the driver reads
  -- what lies there, when a cluster has more sectors than one.
  abbrev pub dot_entries : (first_cluster : ℕ) → (behind : Bytes) → Bytes
  dot_entries first_cluster behind =
      let empty : Bytes = λ j. if ltb j 512 then 0 else behind j in
      let dot : Buffer = λ j. if j == 0 then 46 else (if ltb j 11 then 32 else 0) in
      let dotdot : Buffer = λ j. if ltb j 2 then 46 else (if ltb j 11 then 32 else 0) in
      put_entry (put_entry empty 0 dot attr_directory first_cluster 0) 32 dotdot attr_directory 0 0

  unfoldable pub fat12_write_subdir :
      Bpb
      → (parent_dir_index : ℕ) → (dirname : Buffer) → (first_cluster : ℕ) → (behind : Bytes) → Disk
      → Option Disk
  fat12_write_subdir b parent_dir_index dirname first_cluster behind d =
      let lba = entry_sector b parent_dir_index in
      let cluster_lba =
        (data_start_lba b + (first_cluster + 2 ^ 32 - 2) * b.sectors_per_cluster) % 2 ^ 32 in
      let (r, d1) = ide_read_sectors drive 1 lba d in
      elim r [
        | none ↦ some d1
        | some sector ↦
            elim (store_entry b parent_dir_index dirname attr_directory first_cluster 0 sector) [
              | none ↦ none
              | some bytes ↦
                  let d2 = ide_write_sectors drive 1 lba bytes d1 in
                  some (
                    if not (ide_write_ok drive 1 lba bytes d1)
                    then d2
                    else ide_write_sectors drive b.sectors_per_cluster cluster_lba
                        (dot_entries first_cluster behind) d2)
            ]
      ]
