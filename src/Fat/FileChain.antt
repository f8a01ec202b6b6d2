-- ===== src/Fat/FileChain.antt =====
-- The clusters of a file of FAT12: what `fat12_write_clusters` writes, `fat12_read_file` reads back.
use binbows.Base.{
  ℕ, zero, suc, ◌+◌, ◌-◌, ◌*◌, ◌≤◌, ◌<◌, ◌≡◌, refl, sym, ap, ◌∙◌, ◌⊎◌, inl, inr, true, false, not,
  ◌&&◌, Option, some, List, [], ◌∷◌, arith, ltb, leb, if◌then◌else◌, length, Bool-cases, ltb→lt,
  lt→ltb,
}
use binbows.Fat.Drive.{Ide}
use binbows.Fat.Entries.{
  Bytes, AreBytes, fat12_read_entry, fat12_write_entry, fat12-read-write_self,
}
use binbows.Fat.Files.{cluster_size, cluster_lba, is_link, smaller, read_loop, write_loop}
use binbows.Fat.Laws.{fat12-read-write_ne}
use binbows.Fat.Volume.{Bpb}
use binbows.Shell.Text.{Buffer}
use binbows.Fat.Clusters.{
  Works, Covers, NotAmong, Distinct, start, Outside, link_ge, Covers-link, Covers-Outside, Stored,
}

module _ (ide : Ide) (fuel drive : ℕ) (w : Works ide drive) (b : Bpb)
    (sector : b.bytes_per_sector ≡ 512) where
  open ide use {Disk, ide_read_sectors, ide_write_sectors}
  open w use {content, reads, keeps, succeeds, writes}

  size_lem : cluster_size b ≡ b.sectors_per_cluster * 512
  size_lem = rw sector (omega arith)

  -- One cluster written
  written :
      (c count at : ℕ) (data_ptr : Bytes) (d : Disk)
      → count ≤ cluster_size b
      → let d' =
          ide_write_sectors drive b.sectors_per_cluster
            (cluster_lba b c)
            (λ j. if ltb j count then data_ptr (at + j) else 0)
            d in
        ((j : ℕ) → j < count → content d' (start b c + j) ≡ data_ptr (at + j))
        × ((a : ℕ)
            → (a < start b c) ⊎ (start b c + b.sectors_per_cluster * 512 ≤ a)
            → content d' a ≡ content d a)
  written c count at data_ptr d le =
      let s = b.sectors_per_cluster in
      let bytes : Bytes = λ j. if ltb j count then data_ptr (at + j) else 0 in
      let w' = writes s (cluster_lba b c) bytes d in
      let below : count ≤ s * 512 = omega (arith, le, size_lem) in
      (
        (λ j h.
            let inside : (leb (start b c) (start b c + j)
                  && ltb (start b c + j) (start b c + s * 512))
                ≡ true =
              ground (arith, h, below) in
            let back : start b c + j - start b c ≡ j = omega arith in
            w' (start b c + j) ∙ rw (inside, back, lt→ltb j count h) refl),
        (λ a h.
            let out : (leb (start b c) a && ltb a (start b c + s * 512)) ≡ false =
              ground (arith, h) in
            w' a ∙ rw out refl),
      )

  abbrev Writes :
      (c size at : ℕ) → (data_ptr fat : Bytes) → List ℕ → Disk → Option (Bytes × Disk) → Type 0
  Writes c size at data_ptr fat es d r =
      (fat' : Bytes) × (d' : Disk) × (r ≡ some (fat', d'))
      × Stored (content d') fat' data_ptr b at size c es
      × ((a : ℕ) → Outside b a (c ∷ es) → content d' a ≡ content d a)
      × ((e : ℕ) → 2 ≤ e → NotAmong e (c ∷ es) → fat12_read_entry fat' e ≡ fat12_read_entry fat e)

  write_loop-Writes :
      (n c size at : ℕ) (data_ptr fat : Bytes) (es : List ℕ) (d : Disk)
      → AreBytes fat
      → length es < n
      → Covers fat (cluster_size b) size c es
      → Distinct (c ∷ es)
      → Writes c size at data_ptr fat es d (write_loop ide fuel drive n c size at data_ptr fat b d)
  unfolding write_loop
  write_loop-Writes zero c size at data_ptr fat es d bytes enough covers distinct =
      absurd (omega arith)
  write_loop-Writes (suc n) c size at data_ptr fat [] d bytes enough (link, pos, le) distinct =
      let s = b.sectors_per_cluster in
      let cells : Bytes = λ j. if ltb j size then data_ptr (at + j) else 0 in
      let d' = ide_write_sectors drive s (cluster_lba b c) cells d in
      let fat' = fat12_write_entry fat c 0xFFF in
      let hc = link_ge c link in
      let whole : smaller size (cluster_size b) ≡ size = ground (arith, le) in
      let go : not (ltb 0 size && is_link c) ≡ false = ground (arith, pos, link) in
      let none_left : ltb 0 (size - size) ≡ false = ground arith in
      let (here, kept) = written c size at data_ptr d le in
      let last : is_link (fat12_read_entry fat' c) ≡ false =
        rw (fat12-read-write_self fat c 0xFFF bytes hc (omega arith)) refl in
      rw (whole, go, succeeds s (cluster_lba b c) cells d, none_left)
        (
          fat',
          d',
          refl,
          (link, pos, le, last, here),
          (λ a (h, _). kept a h),
          (λ e he (ne, _).
              fat12-read-write_ne fat c e 0xFFF bytes hc he (λ z. ne (sym z)) (omega arith)),
        )
  write_loop-Writes (suc n) c size at data_ptr fat (e ∷ es) d bytes enough (link, more, next, rest)
        (apart, distinct) =
      let s = b.sectors_per_cluster in
      let k = cluster_size b in
      let cells : Bytes = λ j. if ltb j k then data_ptr (at + j) else 0 in
      let d1 = ide_write_sectors drive s (cluster_lba b c) cells d in
      let hc = link_ge c link in
      let full : smaller size k ≡ k = ground (arith, more) in
      let go : not (ltb 0 size && is_link c) ≡ false = ground (arith, more, link) in
      let left : ltb 0 (size - k) ≡ true = ground (arith, more) in
      let (here, kept) = written c k at data_ptr d (omega arith) in
      let (fat', d', r, stored, others, entries) =
        write_loop-Writes n e (size - k) (at + k) data_ptr fat es d1 bytes (omega arith) rest
          distinct in
      let goes_on : is_link e ≡ true = Covers-link fat k (size - k) e es rest in
      rw (full, go, succeeds s (cluster_lba b c) cells d, left, next, goes_on, r)
        (
          fat',
          d',
          refl,
          (
            link,
            more,
            entries c hc apart ∙ next,
            (λ j h.
                others (start b c + j) (
                  Covers-Outside b fat k (size - k) c j e es hc (omega (arith, h, size_lem)) rest
                    apart)
                ∙ here j h),
            stored,
          ),
          (λ a (h, hs). others a hs ∙ kept a h),
          (λ f hf (nc, nes). entries f hf nes),
        )

  -- What was read up to `done`, of a file of `size` bytes
  abbrev Reads :
      (done size : ℕ)
      → (data_ptr : Bytes) → (buffer : Buffer) → Option (Option (ℕ × Buffer) × Disk)
      → Type 0
  Reads done size data_ptr buffer r =
      (out : Buffer) × (d' : Disk) × (r ≡ some (some (size, out), d'))
      × ((j : ℕ) → done ≤ j → j < size → out j ≡ data_ptr j)
      × ((j : ℕ) → j < done → out j ≡ buffer j)

  -- One cluster read behind what was read before
  taken :
      (c done count : ℕ) (data_ptr : Bytes) (buffer : Buffer) (m : Bytes) (d : Disk)
      → count ≤ cluster_size b
      → ((j : ℕ) → content d j ≡ m j)
      → ((j : ℕ) → j < count → m (start b c + j) ≡ data_ptr (done + j))
      → (out : Bytes) × ((ide_read_sectors drive b.sectors_per_cluster (cluster_lba b c) d).0
          ≡ some out)
        × ((j : ℕ) → done ≤ j → j < done + count → out (j - done) ≡ data_ptr j)
  taken c done count data_ptr buffer m d le same stored =
      let (out, e, cells) = reads b.sectors_per_cluster (cluster_lba b c) d in
      (
        out,
        e,
        (λ j lo hi.
            cells (j - done) (omega (arith, lo, hi, le, size_lem))
            ∙ (same (start b c + (j - done))
                ∙ (stored (j - done) (omega (arith, lo, hi)) ∙ ap data_ptr (omega (arith, lo))))),
      )

  -- What `buffer` is when `count` bytes more are in it
  abbrev filled : (done count : ℕ) → (out buffer : Bytes) → Buffer
  filled done count out buffer j =
      if leb done j && ltb j (done + count) then out (j - done) else buffer j

  filled_in :
      (done count : ℕ) (out buffer : Bytes) (j : ℕ)
      → done ≤ j
      → j < done + count
      → filled done count out buffer j ≡ out (j - done)
  filled_in done count out buffer j lo hi =
      let inside : (leb done j && ltb j (done + count)) ≡ true = ground (arith, lo, hi) in
      rw inside refl

  filled_below :
      (done count : ℕ) (out buffer : Bytes) (j : ℕ)
      → j < done
      → filled done count out buffer j ≡ buffer j
  filled_below done count out buffer j h =
      let before : (leb done j && ltb j (done + count)) ≡ false = ground (arith, h) in
      rw before refl

  -- One round of the loop, and its end
  read_loop-step :
      (n c done size count next : ℕ) (fat out : Bytes) (buffer : Buffer) (d : Disk)
      → (is_link c && ltb done size) ≡ true
      → smaller (size - done) (cluster_size b) ≡ count
      → fat12_read_entry fat c ≡ next
      → (ide_read_sectors drive b.sectors_per_cluster (cluster_lba b c) d).0 ≡ some out
      → read_loop ide fuel drive (suc n) c done size fat b buffer d
        ≡ read_loop ide fuel drive n next
            (done + count)
            size
            fat
            b
            (filled done count out buffer)
            (ide_read_sectors drive b.sectors_per_cluster (cluster_lba b c) d).1
  unfolding read_loop
  read_loop-step n c done size count next fat out buffer d go e f r = rw (go, r, e, f) refl

  read_loop-stop :
      (n c done size : ℕ) (fat : Bytes) (buffer : Buffer) (d : Disk)
      → (is_link c && ltb done size) ≡ false
      → read_loop ide fuel drive (suc n) c done size fat b buffer d ≡ some (some (done, buffer), d)
  unfolding read_loop
  read_loop-stop n c done size fat buffer d stop = rw stop refl

  read_loop-Reads :
      (n c done size : ℕ) (data_ptr fat : Bytes) (es : List ℕ) (buffer : Buffer) (m : Bytes)
      (d : Disk)
      → length es + 1 < n
      → done ≤ size
      → ((j : ℕ) → content d j ≡ m j)
      → Stored m fat data_ptr b done (size - done) c es
      → Reads done size data_ptr buffer (read_loop ide fuel drive n c done size fat b buffer d)
  read_loop-Reads zero c done size data_ptr fat es buffer m d enough le same stored =
      absurd (omega arith)
  read_loop-Reads (suc zero) c done size data_ptr fat es buffer m d enough le same stored =
      absurd (omega arith)
  read_loop-Reads (suc (suc n)) c done size data_ptr fat [] buffer m d enough le same
        (link, pos, fits, last, here) =
      let count = size - done in
      let go : (is_link c && ltb done size) ≡ true = ground (arith, pos, link) in
      let (out, e, cells) = taken c done count data_ptr buffer m d fits same here in
      let end : done + count ≡ size = omega arith in
      let d' = (ide_read_sectors drive b.sectors_per_cluster (cluster_lba b c) d).1 in
      let out' = filled done count out buffer in
      let stop : (is_link (fat12_read_entry fat c) && ltb (done + count) size) ≡ false =
        rw last refl in
      (
        out',
        d',
        read_loop-step (suc n) c done size count (fat12_read_entry fat c) fat out buffer d go
              (ground (arith, fits)) refl e
            ∙ (read_loop-stop n (fat12_read_entry fat c) (done + count) size fat out' d' stop
                ∙ ap (λ k. some (some (k, out'), d')) end),
        (λ j lo hi.
            filled_in done count out buffer j lo (omega (arith, hi))
            ∙ cells j lo (omega (arith, hi))),
        (λ j h. filled_below done count out buffer j h),
      )
  read_loop-Reads (suc (suc n)) c done size data_ptr fat (f ∷ fs) buffer m d enough le same
        (link, more, next, here, rest) =
      let k = cluster_size b in
      let go : (is_link c && ltb done size) ≡ true = ground (arith, more, link) in
      let (cells_out, e, cells) = taken c done k data_ptr buffer m d (omega arith) same here in
      let d' = (ide_read_sectors drive b.sectors_per_cluster (cluster_lba b c) d).1 in
      let buffer' = filled done k cells_out buffer in
      let left : size - done - k ≡ size - (done + k) = omega arith in
      let (out, d2, r, high, low) =
        read_loop-Reads (suc n) f (done + k) size data_ptr fat fs buffer' m d' (omega arith)
          (omega (arith, more)) (λ j. keeps b.sectors_per_cluster (cluster_lba b c) d j ∙ same j)
          (rw left at rest) in
      (
        out,
        d2,
        read_loop-step (suc n) c done size k f fat cells_out buffer d go (ground (arith, more)) next
              e
            ∙ r,
        (λ j lo hi. elim (Bool-cases (ltb j (done + k))) [
          | inl lt ↦
              let under = ltb→lt j (done + k) lt in
              low j under ∙ (filled_in done k cells_out buffer j lo under ∙ cells j lo under)
          | inr ge ↦ high j (ground (arith, ge)) hi
        ]),
        (λ j h. low j (omega (arith, h)) ∙ filled_below done k cells_out buffer j h),
      )

  -- On a drive that works, with sectors of 512 bytes and a table of bytes in which the clusters of
  -- a chain are distinct and just cover a file of `size` bytes, with more rounds than there are
  -- clusters by two: the loop of `fat12_write_clusters` ends, and after it the loop of
  -- `fat12_read_file`, on the table and the disk that it leaves, ends with `size` bytes, which are
  -- the bytes written.
  pub read-write_clusters :
      (n c size : ℕ) (data_ptr fat : Bytes) (es : List ℕ) (d : Disk)
      → AreBytes fat
      → length es + 1 < n
      → Covers fat (cluster_size b) size c es
      → Distinct (c ∷ es)
      → (fat' : Bytes) × (d' : Disk) × (write_loop ide fuel drive n c size 0 data_ptr fat b d
          ≡ some (fat', d'))
        × ((buffer : Buffer)
            → (out : Buffer) × (d2 : Disk) × (read_loop ide fuel drive n c 0 size fat' b buffer d'
                ≡ some (some (size, out), d2))
              × ((j : ℕ) → j < size → out j ≡ data_ptr j))
  read-write_clusters n c size data_ptr fat es d bytes enough covers distinct =
      let (fat', d', r, stored, _, _) =
        write_loop-Writes n c size 0 data_ptr fat es d bytes (omega arith) covers distinct in
      (
        fat',
        d',
        r,
        (λ buffer.
            let (out, d2, e, high, _) =
              read_loop-Reads n c 0 size data_ptr fat' es buffer (content d') d' enough
                (omega arith) (λ j. refl) (rw (whole size) stored) in
            (out, d2, e, (λ j h. high j (omega arith) h))),
      )
    where
      whole : (n : ℕ) → n - 0 ≡ n
      whole n = omega arith
