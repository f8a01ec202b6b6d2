-- ===== src/Fat/Chain.antt =====
-- The chain of clusters that the allocators of fat12_alloc.c, fat16_alloc.c and fat32_alloc.c build.
-- The clusters are listed from the last one allocated to the first.
use binbows.Base.{
  ℕ, suc, ◌≤◌, ◌<◌, ◌≡◌, ◌≢◌, refl, sym, ◌∙◌, false, List, [], ◌∷◌, arith, ◌==◌, length, ne→==, All,
}
use binbows.Fat.Table.{FatTable}
use binbows.Fat.Alloc.{AllocState, take_cluster, no_cluster}

-- The listed clusters are below `c`, each below the one before it in the list, and none is 0 or 1.
abbrev pub Descends : ℕ → List ℕ → Type 0
Descends c [] = Unit
Descends c (p ∷ rs) = (2 ≤ p) × (p < c) × Descends p rs

abbrev pub NotIn : ℕ → List ℕ → Type 0
NotIn d rs = All (λ p. d ≢ p) rs

-- The cluster at the end of the list, the first of the file.
abbrev pub last_of : ℕ → List ℕ → ℕ
last_of p [] = p
last_of p (q ∷ rs) = last_of q rs

pub Descends-NotIn : (c d : ℕ) (rs : List ℕ) → Descends c rs → c ≤ d → NotIn d rs
Descends-NotIn c d [] h le = tt
Descends-NotIn c d (p ∷ rs) (h2, hp, h) le =
    ((λ e. omega (arith, e)), Descends-NotIn p d rs h (omega arith))

pub Descends-le : (c d : ℕ) (rs : List ℕ) → Descends c rs → c ≤ d → Descends d rs
Descends-le c d [] h le = tt
Descends-le c d (p ∷ rs) (h2, hp, h) le = (h2, omega arith, h)

module _ (k : FatTable) where
  open k use {
    Table, InRange, limit, read_entry, write_entry, end_of_chain, write-InRange, read-write_self,
    read-write_ne,
  }

  -- The entry of the first of the list is `next`, and that of each other is its successor.
  abbrev pub LinksTo : Table → ℕ → List ℕ → Type 0
  LinksTo t next [] = Unit
  LinksTo t next (p ∷ rs) = (read_entry t p ≡ next) × LinksTo t p rs

  abbrev pub WereFree : Table → List ℕ → Type 0
  WereFree t rs = All (λ p. read_entry t p ≡ 0) rs

  pub LinksTo-write :
      (t : Table) (p v next : ℕ) (rs : List ℕ)
      → InRange t
      → 2 ≤ p
      → v < limit
      → Descends p rs
      → LinksTo t next rs
      → LinksTo (write_entry t p v) next rs
  LinksTo-write t p v next [] r h2 hv d l = tt
  LinksTo-write t p v next (q ∷ rs) r h2 hv (q2, qp, d) (e, l) = (
    read-write_ne t p q v r h2 q2 (λ f. omega (arith, f)) hv ∙ e,
    LinksTo-write t p v q rs r h2 hv (Descends-le q p rs d (omega arith)) l,
  )

  -- What the loop's variables say of the list so far.
  abbrev pub Ends : AllocState k → List ℕ → Type 0
  Ends s [] = (s.first_cluster ≡ 0) × (s.prev_cluster ≡ 0)
  Ends s (p ∷ rs) = (s.first_cluster ≡ last_of p rs) × (s.prev_cluster ≡ p) × LinksTo s.table p rs

  -- `rs` are the clusters taken from the table `t0` below cluster `c`.
  pub record Built (t0 : Table) (c : ℕ) (s : AllocState k) (rs : List ℕ) : Type 0 where
    pub in_range : InRange s.table
    pub counted : s.allocated ≡ length rs
    pub descends : Descends c rs
    pub were_free : WereFree t0 rs
    pub ends : Ends s rs
    pub kept : (d : ℕ) → 2 ≤ d → NotIn d rs → read_entry s.table d ≡ read_entry t0 d

  pub last_of-pos : (c p : ℕ) (rs : List ℕ) → Descends c (p ∷ rs) → 2 ≤ last_of p rs
  last_of-pos c p [] (h2, _, _) = h2
  last_of-pos c p (q ∷ rs) (h2, _, h) = last_of-pos p q rs h

  pub Built-start : (t : Table) → InRange t → Built t 2 (no_cluster k t) []
  Built-start t r = record {
    in_range = r;
    counted = refl;
    descends = tt;
    were_free = tt;
    ends = (refl, refl);
    kept = λ d h2 n. refl;
  }

  pub Built-take :
      {t0 : Table} (c : ℕ) (s : AllocState k) (rs : List ℕ)
      → 2 ≤ c
      → c < limit
      → read_entry t0 c ≡ 0
      → Built t0 c s rs
      → Built t0 (suc c) (take_cluster k s c) (c ∷ rs)
  Built-take {t0} c s [] h2 hc free b =
      let (e1, e2) = b.ends in
      rw e1 (record {
        in_range = b.in_range;
        counted = omega (arith, b.counted);
        descends = (h2, omega arith, tt);
        were_free = (free, tt);
        ends = (refl, refl, tt);
        kept = λ d hd n. b.kept d hd tt;
      })
  Built-take {t0} c s (p ∷ rs) h2 hc free b =
      let (e1, e2, l) = b.ends in
      let (p2, pc, d) = b.descends in
      let pos : (s.first_cluster == 0) ≡ false =
        ne→== s.first_cluster 0 (λ z. omega (arith, z, e1, last_of-pos c p rs b.descends)) in
      rw (pos, e2)
        (record {
          in_range = write-InRange s.table p c hc b.in_range;
          counted = omega (arith, b.counted);
          descends = (h2, omega arith, b.descends);
          were_free = (free, b.were_free);
          ends = (
            e1,
            refl,
            (
              read-write_self s.table p c b.in_range p2 hc,
              LinksTo-write s.table p c p rs b.in_range p2 hc d l,
            ),
          );
          kept = λ d hd (nc, (np, n)).
              read-write_ne s.table p d c b.in_range p2 hd (λ f. np (sym f)) hc
              ∙ b.kept d hd (np, n);
        })

  pub Built-later :
      {t0 : Table} (c d : ℕ) (s : AllocState k) (rs : List ℕ)
      → c ≤ d
      → Built t0 c s rs
      → Built t0 d s rs
  Built-later c d s rs le b = record {
    in_range = b.in_range;
    counted = b.counted;
    descends = Descends-le c d rs b.descends le;
    were_free = b.were_free;
    ends = b.ends;
    kept = b.kept;
  }

  -- At cluster `c` the table still has its first contents.
  pub Built-fresh :
      {t0 : Table} (c : ℕ) (s : AllocState k) (rs : List ℕ)
      → 2 ≤ c
      → Built t0 c s rs
      → read_entry s.table c ≡ read_entry t0 c
  Built-fresh c s rs h2 b = b.kept c h2 (Descends-NotIn c c rs b.descends (omega arith))
