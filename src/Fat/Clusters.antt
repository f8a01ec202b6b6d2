-- ===== src/Fat/Clusters.antt =====
-- The clusters of a file of FAT12: the chain in the table, and where they lie on the drive.
use binbows.Base.{
  ℕ, ◌+◌, ◌-◌, ◌*◌, ◌≤◌, ◌<◌, ◌≡◌, ◌≢◌, ◌⊎◌, inl, inr, true, false, ◌&&◌, some, List, [], ◌∷◌,
  arith, ltb, leb, if◌then◌else◌, Bool-cases, ltb→lt, All,
}
use binbows.Fat.Directory.{data_start_lba}
use binbows.Fat.Drive.{Ide}
use binbows.Fat.Entries.{Bytes, fat12_read_entry}
use binbows.Fat.Files.{cluster_size, cluster_lba, is_link}
use binbows.Fat.Volume.{Bpb}

-- A drive that works: its bytes, which a read gives back and a write puts there
pub record Works (ide : Ide) (drive : ℕ) : Type 0 where
  pub content : ide.Disk → Bytes
  pub reads :
      (n lba : ℕ) (d : ide.Disk)
      → (out : Bytes) × ((ide.ide_read_sectors drive n lba d).0 ≡ some out)
        × ((j : ℕ) → j < n * 512 → out j ≡ content d (lba * 512 + j))
  pub keeps :
      (n lba : ℕ) (d : ide.Disk) (j : ℕ)
      → content (ide.ide_read_sectors drive n lba d).1 j ≡ content d j
  pub succeeds :
      (n lba : ℕ) (bytes : Bytes) (d : ide.Disk) → ide.ide_write_ok drive n lba bytes d ≡ true
  pub writes :
      (n lba : ℕ) (bytes : Bytes) (d : ide.Disk) (j : ℕ)
      → content (ide.ide_write_sectors drive n lba bytes d) j ≡ (
          if leb (lba * 512) j && ltb j (lba * 512 + n * 512)
          then bytes (j - lba * 512)
          else content d j)

-- The clusters of a file of `size` bytes, the first one in front: each links to the next, and all but
-- the last are full.
abbrev pub Covers : (fat : Bytes) → (bytes size : ℕ) → (cluster : ℕ) → List ℕ → Type 0
Covers fat bytes size c [] = (is_link c ≡ true) × (1 ≤ size) × (size ≤ bytes)
Covers fat bytes size c (e ∷ cs) =
    (is_link c ≡ true)
    × (bytes < size)
    × (fat12_read_entry fat c ≡ e)
    × Covers fat bytes (size - bytes) e cs

-- No cluster of the list is `c`.
abbrev pub NotAmong : ℕ → List ℕ → Type 0
NotAmong c cs = All (λ e. c ≢ e) cs

abbrev pub Distinct : List ℕ → Type 0
Distinct [] = Unit
Distinct (c ∷ cs) = NotAmong c cs × Distinct cs

-- The address of a cluster's first byte
abbrev pub start : Bpb → (cluster : ℕ) → ℕ
start b c = cluster_lba b c * 512

-- The address lies in none of the clusters.
abbrev pub Outside : Bpb → (a : ℕ) → List ℕ → Type 0
Outside b a cs = All (λ e. (a < start b e) ⊎ (start b e + b.sectors_per_cluster * 512 ≤ a)) cs

clusters_ordered :
    (b : Bpb) (c e : ℕ) → 2 ≤ c → c < e → start b c + b.sectors_per_cluster * 512 ≤ start b e
clusters_ordered b c e hc lt =
    let s = b.sectors_per_cluster in
    let d = data_start_lba b in
    let k = e - c - 1 in
    let at : e - 2 ≡ c - 2 + 1 + k = omega arith in
    let below : (d + (c - 2) * s) * 512 + s * 512 ≤ (d + (c - 2 + 1 + k) * s) * 512 = omega arith in
    rw at below

clusters_apart :
    (b : Bpb) (c e : ℕ)
    → 2 ≤ c
    → 2 ≤ e
    → c ≢ e
    → (start b c + b.sectors_per_cluster * 512 ≤ start b e)
      ⊎ (start b e + b.sectors_per_cluster * 512 ≤ start b c)
clusters_apart b c e hc he ne = elim (Bool-cases (ltb c e)) [
  | inl lt ↦ inl (clusters_ordered b c e hc (ltb→lt c e lt))
  | inr ge ↦ inr (clusters_ordered b e c he (ground (arith, ge, ne)))
]

pub link_ge : (c : ℕ) → is_link c ≡ true → 2 ≤ c
link_ge c h = ground (arith, h)

-- A byte of one cluster is not in another.
outside :
    (b : Bpb) (c e j : ℕ)
    → 2 ≤ c
    → 2 ≤ e
    → c ≢ e
    → j < b.sectors_per_cluster * 512
    → (start b c + j < start b e) ⊎ (start b e + b.sectors_per_cluster * 512 ≤ start b c + j)
outside b c e j hc he ne hj = elim (clusters_apart b c e hc he ne) [
  | inl h ↦ inl (omega (arith, h, hj))
  | inr h ↦ inr (omega (arith, h))
]

pub Covers-link :
    (fat : Bytes) (bytes size e : ℕ) (es : List ℕ) → Covers fat bytes size e es → is_link e ≡ true
Covers-link fat bytes size e [] (link, _, _) = link
Covers-link fat bytes size e (f ∷ fs) (link, _, _, _) = link

-- A byte of a cluster lies in no other cluster of the file.
pub Covers-Outside :
    (b : Bpb) (fat : Bytes) (bytes size c j e : ℕ) (es : List ℕ)
    → 2 ≤ c
    → j < b.sectors_per_cluster * 512
    → Covers fat bytes size e es
    → NotAmong c (e ∷ es)
    → Outside b (start b c + j) (e ∷ es)
Covers-Outside b fat bytes size c j e [] hc hj (link, _, _) (ne, _) =
    (outside b c e j hc (link_ge e link) ne hj, tt)
Covers-Outside b fat bytes size c j e (f ∷ fs) hc hj (link, more, next, rest) (ne, nes) = (
  outside b c e j hc (link_ge e link) ne hj,
  Covers-Outside b fat bytes (size - bytes) c j f fs hc hj rest nes,
)

-- The file of `size` bytes from `at` on stands in the clusters, and its chain ends behind the last.
abbrev pub Stored : (m fat data_ptr : Bytes) → Bpb → (at size cluster : ℕ) → List ℕ → Type 0
Stored m fat data_ptr b at size c [] =
    (is_link c ≡ true)
    × (1 ≤ size)
    × (size ≤ cluster_size b)
    × (is_link (fat12_read_entry fat c) ≡ false)
    × ((j : ℕ) → j < size → m (start b c + j) ≡ data_ptr (at + j))
Stored m fat data_ptr b at size c (e ∷ es) =
    (is_link c ≡ true)
    × (cluster_size b < size)
    × (fat12_read_entry fat c ≡ e)
    × ((j : ℕ) → j < cluster_size b → m (start b c + j) ≡ data_ptr (at + j))
    × Stored m fat data_ptr b (at + cluster_size b) (size - cluster_size b) e es
