-- ===== src/Fat/Files.antt =====
-- The files of FAT12, fat12_file.c, on a drive and the kernel's heap. `none` is a run past the fuel,
-- or past the end of an array on the stack that is too small for the table.
-- A sector number is below 2 ^ 32.
use binbows.Base.{
  ℕ, zero, suc, ◌+◌, ◌-◌, ◌*◌, ◌/◌, ◌%◌, ◌^◌, Bool, true, not, ◌&&◌, ◌||◌, Option, none, some, ltb,
  leb, ◌==◌, if◌then◌else◌,
}
use binbows.Allocator.{Allocator}
use binbows.Fat.Directory.{
  root_dir_sectors, root_dir_lba, data_start_lba, fat12_find_free_root_dir_entry,
  fat12_write_dir_entry,
}
use binbows.Fat.Drive.{Ide, Volume, read_bpb, fat12_alloc_clusters, fat12_buffer_sectors}
use binbows.Fat.Entries.{Bytes, get16, get32, fat12_read_entry, fat12_write_entry}
use binbows.Fat.Name.{format_filename_for_compare}
use binbows.Fat.Volume.{Bpb, validate_bpb}
use binbows.Shell.Text.{Buffer}

abbrev pub fat12_eoc : ℕ
fat12_eoc = 0xFF8

abbrev pub cluster_size : Bpb → ℕ
cluster_size b = b.bytes_per_sector * b.sectors_per_cluster

abbrev pub cluster_lba : Bpb → (cluster : ℕ) → ℕ
cluster_lba b cluster = data_start_lba b + (cluster - 2) * b.sectors_per_cluster

-- `memcmp(entry->name, fat_filename, 11) == 0`
unfoldable pub name_matches : (rounds i : ℕ) → (sector : Bytes) → (a : ℕ) → Buffer → Bool
name_matches zero i sector a name = true
name_matches (suc n) i sector a name =
    let rest = name_matches n (suc i) sector a name in sector (a + i) == name i && rest

pub data Scan : Type 0 where
  end_of_directory : Scan
  not_here : Scan
  found : (offset : ℕ) → Scan

-- `(entry->attr & ATTR_DIRECTORY) || (entry->attr & ATTR_VOLUME_ID)`
abbrev pub is_no_file : (attr : ℕ) → Bool
is_no_file attr = attr / 16 % 2 == 1 || attr / 8 % 2 == 1

-- The entries of a sector, `rounds` of them left
unfoldable pub scan_sector : (rounds i : ℕ) → (sector : Bytes) → Buffer → Scan
scan_sector zero i sector name = not_here
scan_sector (suc n) i sector name =
    let rest = scan_sector n (suc i) sector name in
    if sector (i * 32) == 0
    then end_of_directory
    else (if sector (i * 32) == 0xE5 || is_no_file (sector (i * 32 + 11))
        then rest
        else (if name_matches 11 0 sector (i * 32) name then found (i * 32) else rest))

abbrev pub is_link : (cluster : ℕ) → Bool
is_link cluster = leb 2 cluster && ltb cluster fat12_eoc

abbrev pub smaller : (a b : ℕ) → ℕ
smaller a b = if ltb b a then b else a

module _ (ide : Ide) (fuel drive : ℕ) where
  open ide use {Disk, ide_read_sectors, ide_write_sectors, ide_write_ok}

  -- The loop of `fat12_read_file`: what was read and the disk; the inner `none` is a sector that cannot
  -- be read.
  unfoldable pub read_loop :
      (rounds cluster bytes_read file_size : ℕ)
      → (fat : Bytes) → Bpb
      → Buffer
      → Disk
      → Option (Option (ℕ × Buffer) × Disk)
  read_loop zero cluster bytes_read file_size fat b buffer d = none
  read_loop (suc n) cluster bytes_read file_size fat b buffer d =
      let count = smaller (file_size - bytes_read) (cluster_size b) in
      let (r, d') = ide_read_sectors drive b.sectors_per_cluster (cluster_lba b cluster) d in
      let next : Option (Option (ℕ × Buffer) × Disk) = elim r [
        | none ↦ some (none, d')
        | some cluster_data ↦
            read_loop n (fat12_read_entry fat cluster) (bytes_read + count) file_size fat b
              (λ j.
                if leb bytes_read j && ltb j (bytes_read + count)
                then cluster_data (j - bytes_read)
                else buffer j)
              d'
      ] in
      if is_link cluster && ltb bytes_read file_size
      then next
      else some (some (bytes_read, buffer), d)

  -- The loop of `fat12_write_clusters`: the table and the disk
  unfoldable pub write_loop :
      (rounds current remaining at : ℕ)
      → (data_ptr fat : Bytes) → Bpb
      → Disk
      → Option (Bytes × Disk)
  write_loop zero current remaining at data_ptr fat b d = none
  write_loop (suc n) current remaining at data_ptr fat b d =
      let count = smaller remaining (cluster_size b) in
      let lba = cluster_lba b current in
      let cluster_data : Bytes = λ j. if ltb j count then data_ptr (at + j) else 0 in
      let d' = ide_write_sectors drive b.sectors_per_cluster lba cluster_data d in
      let next = fat12_read_entry fat current in
      let rest = write_loop n next (remaining - count) (at + count) data_ptr fat b d' in
      if not (ltb 0 remaining && is_link current)
      then some (fat, d)
      else (if not (ide_write_ok drive b.sectors_per_cluster lba cluster_data d)
          then some (fat, d')
          else (if ltb 0 (remaining - count)
              then (if not (is_link next) then some (fat, d') else rest)
              else some (fat12_write_entry fat current 0xFFF, d')))

  -- `for (fat_index = 0; fat_index < num_fats; fat_index++)`; the driver takes 8 bits of the size.
  unfoldable pub write_tables : (rounds fat_index : ℕ) → Bpb → (fat : Bytes) → Disk → Disk
  write_tables zero fat_index b fat d = d
  write_tables (suc n) fat_index b fat d = write_tables n (suc fat_index) b fat (
      ide_write_sectors drive (b.fat_size % 256) (b.reserved_sector_count + fat_index * b.fat_size)
        fat d)

  -- The table that was read, and the rest of `fat12_write_clusters`
  abbrev pub write_chain :
      (first_cluster size : ℕ)
      → (data_ptr : Bytes) → Bpb
      → Volume ide
      → Option Bytes × Disk
      → Option (Volume ide)
  write_chain first_cluster size data_ptr b s (none, d) = some (record s { disk = d })
  write_chain first_cluster size data_ptr b s (some fat, d) =
      elim (write_loop fuel first_cluster size 0 data_ptr fat b d) [
        | none ↦ none
        | some (fat', d') ↦ some (record s { disk = write_tables b.num_fats 0 b fat' d' })
      ]

  unfoldable pub fat12_write_clusters :
      (first_cluster : ℕ) → (data_ptr : Bytes) → (size : ℕ) → Volume ide → Option (Volume ide)
  fat12_write_clusters first_cluster data_ptr size s =
      let (bpb, s1) = read_bpb ide drive s in
      elim bpb [
        | none ↦ some s1
        | some b ↦
            if not (validate_bpb b)
            then some s1
            else (if ltb fat12_buffer_sectors b.fat_size
                then none
                else write_chain first_cluster size data_ptr b s1
                    (ide_read_sectors drive (b.fat_size % 256) b.reserved_sector_count s1.disk))
      ]

  pub data WriteResult : Type 0 where
    written : WriteResult
    no_volume : WriteResult
    no_cluster : WriteResult
    no_entry : WriteResult

  -- A 32-bit sum, and a 16-bit number of clusters
  abbrev pub clusters_needed : Bpb → (size : ℕ) → ℕ
  clusters_needed b size =
      let n = (size + cluster_size b - 1) % 2 ^ 32 / cluster_size b % 2 ^ 16 in
      if n == 0 then 1 else n

  -- What `fat12_write_file` does once it has clusters
  abbrev pub write_entry_and_data :
      Bpb
      → (filename : Buffer) → (data_ptr : Bytes) → (size first_cluster : ℕ) → Volume ide
      → Option (WriteResult × Volume ide)
  write_entry_and_data b filename data_ptr size first_cluster s =
      let (entry, d) = fat12_find_free_root_dir_entry ide fuel drive b s.disk in
      elim entry [
        | none ↦ some (no_entry, record s { disk = d })
        | some index ↦
            elim (fat12_write_dir_entry ide fuel drive b index filename first_cluster size d) [
              | none ↦ none
              | some d' ↦
                  elim (fat12_write_clusters first_cluster data_ptr size (record s { disk = d' })) [
                    | none ↦ none
                    | some s' ↦ some (written, s')
                  ]
            ]
      ]

  unfoldable pub fat12_write_file :
      (filename : Buffer)
      → (data_ptr : Bytes) → (size : ℕ) → Volume ide
      → Option (WriteResult × Volume ide)
  fat12_write_file filename data_ptr size s =
      let (bpb, s1) = read_bpb ide drive s in
      elim bpb [
        | none ↦ some (no_volume, s1)
        | some b ↦
            if not (validate_bpb b)
            then some (no_volume, s1)
            else elim (fat12_alloc_clusters ide drive (clusters_needed b size) s1) [
              | none ↦ none
              | some (first_cluster, s2) ↦
                  if first_cluster == 0
                  then some (no_cluster, s2)
                  else write_entry_and_data b filename data_ptr size first_cluster s2
            ]
      ]

-- A file that was read: the pointer, what it points to and the number of bytes
abbrev pub FileData : Type 0
FileData = ℕ × Buffer × ℕ

module _ (ide : Ide) (alloc : Allocator) (fuel drive : ℕ) where
  open ide use {Disk, ide_read_sectors}
  open alloc use {Heap, kmalloc, kfree}

  abbrev pub ReadResult : Type 0
  ReadResult = Option (Option FileData × Disk × Heap)

  -- The file whose entry stands at `a` in the sector
  unfoldable pub read_entry_data : Bpb → (sector : Bytes) → (a : ℕ) → Disk → Heap → ReadResult
  read_entry_data b sector a d h =
      let file_size = get32 sector (a + 28) in
      let (ptr, h1) = kmalloc file_size h in
      let (r, d1) = ide_read_sectors drive (b.fat_size % 256) b.reserved_sector_count d in
      if ptr == 0
      then some (none, d, h1)
      else (if ltb fat12_buffer_sectors b.fat_size then none else elim r [
        | none ↦ some (none, d1, kfree ptr h1)
        | some fat ↦
            elim (read_loop ide fuel drive fuel (get16 sector (a + 26)) 0 file_size fat b (λ j. 0)
              d1) [
                | none ↦ none
                | some (contents, d2) ↦ elim contents [
                  | none ↦ some (none, d2, kfree ptr h1)
                  | some (bytes_read, buffer) ↦ some (some (ptr, buffer, bytes_read), d2, h1)
                ]
              ]
      ])

  -- The sectors of the root directory, `rounds` of them left
  unfoldable pub search_root : (rounds i : ℕ) → Bpb → (name : Buffer) → Disk → Heap → ReadResult
  search_root zero i b name d h = some (none, d, h)
  search_root (suc n) i b name d h =
      let (r, d') = ide_read_sectors drive 1 (root_dir_lba b + i) d in
      let rest = search_root n (suc i) b name d' h in
      elim r [
        | none ↦ rest
        | some sector ↦ elim (scan_sector 16 0 sector name) [
          | end_of_directory ↦ some (none, d', h)
          | not_here ↦ rest
          | found a ↦ read_entry_data b sector a d' h
        ]
      ]

  abbrev pub with_disk : Volume ide → ReadResult → Option (Option FileData × Volume ide × Heap)
  with_disk s none = none
  with_disk s (some (r, d, h)) = some (r, record s { disk = d }, h)

  -- `some none` is NULL.
  unfoldable pub fat12_read_file :
      (filename : Buffer) → Volume ide → Heap → Option (Option FileData × Volume ide × Heap)
  fat12_read_file filename s h =
      let (bpb, s1) = read_bpb ide drive s in
      elim bpb [
        | none ↦ some (none, s1, h)
        | some b ↦
            if not (validate_bpb b)
            then some (none, s1, h)
            else (elim (format_filename_for_compare fuel filename (λ j. 0)) [
              | none ↦ none
              | some name ↦ with_disk s1 (search_root (root_dir_sectors b) 0 b name s1.disk h)
            ])
      ]

  -- The buffer that the caller gave is overwritten; its size is not known here.
  unfoldable pub fat12_read_file_to_buffer :
      (filename buffer : Buffer)
      → Volume ide
      → Heap
      → Option (Option (Buffer × ℕ) × Volume ide × Heap)
  fat12_read_file_to_buffer filename buffer s h = elim (fat12_read_file filename s h) [
    | none ↦ none
    | some (file, s', h') ↦ elim file [
      | none ↦ some (none, s', h')
      | some (ptr, contents, size) ↦
          some (some ((λ j. if ltb j size then contents j else buffer j), size), s', kfree ptr h')
    ]
  ]
