-- ===== src/Fat/Tests.antt =====
-- Runs of the allocators on small tables, and witnesses.
use binbows.Base.{
  ℕ, ◌+◌, ◌-◌, ◌*◌, ◌%◌, ◌≤◌, ◌<◌, ◌≡◌, refl, inl, true, ◌&&◌, none, some, List, [], ◌∷◌, arith,
  ltb, leb, ◌==◌, if◌then◌else◌,
}
use binbows.Fat.Directory.{find_in_sector, put_entry}
use binbows.Fat.Entries.{get16, get32}
use binbows.Fat.Files.{scan_sector, found}
use binbows.Fat.Found.{put_entry-found}
use binbows.Fat.FileChain.{read-write_clusters}
use binbows.Fat.Clusters.{Works}
use binbows.Fat.Files.{read_loop, write_loop}
use binbows.Shell.Text.{Buffer}
use binbows.Fat.Entries.{Bytes, AreBytes, offset12, fat12_read_entry, fat12_write_entry}
use binbows.Fat.Laws.{fat12, fat16, fat32}
use binbows.Fat.Entries.{fat12-read-write_self}
use binbows.Fat.Alloc.{alloc_clusters, find_free_cluster, find_free_loop}
use binbows.Fat.Room.{free_count, Allocated, alloc_clusters-none}
use binbows.Fat.Volume.{
  Bpb, validate_bpb, validate_bpb16, validate_bpb32, fat12_max_clusters, fat16_max_clusters,
  fat32_max_clusters,
}
use binbows.Fat.Drive.{
  Ide, Volume, read_bpb, read_bpb16, read_bpb32, fat12_write_fat, fat12_alloc_clusters,
}
use binbows.Fat.Geometry.{max_clusters-inside, fat12_alloc_clusters-Allocated}

abbrev blank : Bytes
blank j = 0

blank-AreBytes : AreBytes blank
blank-AreBytes j = omega arith

-- A table of FAT12 whose cluster 2 is taken
abbrev begun : Bytes
begun = fat12_write_entry blank 2 0xFFF

run_find : find_free_cluster fat12 10 begun ≡ some 3
unfolding find_free_cluster find_free_loop fat12_read_entry fat12_write_entry
run_find = refl

few : free_count fat12 (4 - 2) 2 blank < 3
unfolding fat12_read_entry
few = omega arith

alloc_clusters-none_example : alloc_clusters fat12 4 3 blank ≡ none
alloc_clusters-none_example =
    alloc_clusters-none fat12 4 3 blank blank-AreBytes (omega arith) (inl few)

-- A table of one sector
abbrev small : Bpb
small = record {
  bytes_per_sector = 512;
  sectors_per_cluster = 1;
  reserved_sector_count = 1;
  num_fats = 2;
  root_entry_count = 16;
  fat_size = 1;
  root_cluster = 2;
}

max_clusters-inside_example :
    (100 < fat12_max_clusters small → offset12 100 + 1 < 1 * 512)
    × (100 < fat16_max_clusters small → 2 * 100 + 1 < 1 * 512)
    × (100 < fat32_max_clusters small → 4 * 100 + 3 < 1 * 512)
max_clusters-inside_example = max_clusters-inside small 100 refl

-- A drive that is all zeros; the disk counts the sectors written.
abbrev zeros : Ide
zeros = record {
  Disk = ℕ;
  ide_read_sectors = λ drive n lba d. (some blank, d);
  ide_write_sectors = λ drive n lba bytes d. d + 1;
  ide_write_ok = λ drive n lba bytes d. true;
}

abbrev volume : Volume zeros
volume = record { disk = 0; cached = some (0, small) }

cached12 : read_bpb zeros 0 volume ≡ (some small, volume)
unfolding read_bpb
cached12 = refl

valid12 : validate_bpb small ≡ true
unfolding validate_bpb
valid12 = refl

cached16 : read_bpb16 zeros 0 volume ≡ (some small, volume)
unfolding read_bpb16
cached16 = refl

valid16 : validate_bpb16 small ≡ true
unfolding validate_bpb16
valid16 = refl

cached32 : read_bpb32 zeros 0 volume ≡ (some small, volume)
unfolding read_bpb32
cached32 = refl

valid32 : validate_bpb32 small ≡ true
unfolding validate_bpb32
valid32 = refl

room12 : 2 ≤ free_count fat12 (fat12_max_clusters small - 2) 2 blank
unfolding fat12_max_clusters fat12_read_entry
room12 = omega arith

room16 : 2 ≤ free_count fat16 (fat16_max_clusters small - 2) 2 blank
unfolding fat16_max_clusters binbows.Fat.Entries.fat16_read_entry
room16 = omega arith

room32 : 2 ≤ free_count fat32 (fat32_max_clusters small - 2) 2 blank
unfolding fat32_max_clusters binbows.Fat.Entries.fat32_read_entry
room32 = omega arith

fat12_alloc_clusters-Allocated_example :
    (first : ℕ) × (t' : Bytes) × (rs : List ℕ) × (fat12_alloc_clusters zeros 0 2 volume
      ≡ some (first, record volume { disk = fat12_write_fat zeros 0 2 1 t' 1 0 }))
    × (2 ≤ first)
    × Allocated fat12 (fat12_max_clusters small) 2 blank first t' rs
fat12_alloc_clusters-Allocated_example =
    fat12_alloc_clusters-Allocated zeros 0 2 volume volume small blank 0 cached12 valid12
      (omega arith) refl blank-AreBytes (omega arith) room12

-- A drive that keeps the bytes of its sectors
abbrev bytes_drive : Ide
bytes_drive = record {
  Disk = Bytes;
  ide_read_sectors = λ drive n lba d. (some (λ j. d (lba * 512 + j)), d);
  ide_write_sectors = λ drive n lba bytes d j.
      if leb (lba * 512) j && ltb j (lba * 512 + n * 512) then bytes (j - lba * 512) else d j;
  ide_write_ok = λ drive n lba bytes d. true;
}

bytes_drive-Works : Works bytes_drive 0
bytes_drive-Works = record {
  content = λ d. d;
  reads = λ n lba d. ((λ j. d (lba * 512 + j)), refl, (λ j h. refl));
  keeps = λ n lba d j. refl;
  succeeds = λ n lba bytes d. refl;
  writes = λ n lba bytes d j. refl;
}

-- The entry of cluster 2 is 3, and that of cluster 3 the end of the chain.
abbrev two_clusters : Bytes
two_clusters j = if j == 3 then 3 else (if j == 4 then 0xF0 else (if j == 5 then 0xFF else 0))

two_clusters_links :
    (fat12_read_entry two_clusters 2 ≡ 3) × (fat12_read_entry two_clusters 3 ≡ 0xFFF)
unfolding fat12_read_entry
two_clusters_links = (refl, refl)

read-write_clusters_example :
    (fat' : Bytes) × (d' : Bytes) × (write_loop bytes_drive 0 0 3 2 600 0
        (λ j. j % 256)
        two_clusters
        small
        (λ j. 0)
      ≡ some (fat', d'))
    × ((buffer : Buffer)
        → (out : Buffer) × (d2 : Bytes) × (read_loop bytes_drive 0 0 3 2 0 600 fat' small buffer d'
            ≡ some (some (600, out), d2))
          × ((j : ℕ) → j < 600 → out j ≡ j % 256))
read-write_clusters_example =
    read-write_clusters bytes_drive 0 0 bytes_drive-Works small refl 3 2 600 (λ j. j % 256)
      two_clusters (3 ∷ []) (λ j. 0) (λ i. ground arith) (omega arith)
      (refl, omega arith, two_clusters_links.0, (refl, omega arith, omega arith))
      (((λ e. omega (arith, e)), tt), (tt, tt))

empty_sector : find_in_sector 16 0 blank ≡ some 0
unfolding find_in_sector
empty_sector = refl

-- "AAAAAAAAAAA", cluster 5, 700 bytes
put_entry-found_example :
    let s = put_entry blank 0 (λ j. 65) 0x20 5 700 in
    (scan_sector 16 0 s (λ j. 65) ≡ found 0) × (get16 s 26 ≡ 5) × (get32 s 28 ≡ 700)
put_entry-found_example =
    put_entry-found blank 0 (λ j. 65) 5 700 empty_sector (λ e. omega (arith, e))
      (λ e. omega (arith, e)) (λ j h. absurd (omega (arith, h))) (omega arith) (omega arith)
