-- ===== src/Mem/Way.antt =====
-- The way through the page tables of mem.c: which tables are there, and what one call of
-- `get_or_create_table` does.
use binbows.Base.{
  ℕ, ◌+◌, ◌%◌, ◌≤◌, ◌<◌, ◌≡◌, ◌≢◌, refl, ◌⊎◌, inl, inr, true, List, [], ◌∷◌, arith, update, ne→==,
  All,
}
use binbows.Mem.Pages.{PagePool, alloc_physical_page}
use binbows.Mem.Pool.{IsValid, IsPage, NotIn, Chain-cong}
use binbows.Mem.Tables.{present, frame, slot}

abbrev pub In : ℕ → List ℕ → Type 0
In t [] = ⊥
In t (a ∷ rest) = (t ≡ a) ⊎ In t rest

pub All-In : (P : ℕ → Type 0) (t : ℕ) (l : List ℕ) → All P l → In t l → P t
All-In P t [] h t_in = absurd t_in
All-In P t (a ∷ l) (h, hs) (inl e) = rw e h
All-In P t (a ∷ l) (h, hs) (inr i) = All-In P t l hs i

-- A word of a page that is handed out can be written.
pub write-IsValid :
    {s : PagePool} {free live : List ℕ} (t i v : ℕ)
    → IsValid s free live
    → In t live
    → i < 512
    → IsValid (record s { memory = update s.memory (slot t i) v }) free live
write-IsValid {s} {free} {live} t i v h t_in lt =
    let (al, _, _, _, _) = All-In (IsPage s) t live h.live_pages t_in in
    let apart = All-In (λ a. NotIn a free) t live h.apart t_in in
    record {
      chain =
          Chain-cong s.memory (update s.memory (slot t i) v) s.free_phys_list free
            (other free h.free_pages apart al) h.chain;
      free_pages = h.free_pages;
      live_pages = h.live_pages;
      distinct = h.distinct;
      apart = h.apart;
      live_distinct = h.live_distinct;
      aligned = h.aligned;
      start_le = h.start_le;
    }
  where
    other :
        (l : List ℕ)
        → All (IsPage s) l
        → NotIn t l
        → t % 4096 ≡ 0
        → All (λ a. update s.memory (slot t i) v a ≡ s.memory a) l
    other [] p ne al = tt
    other (a ∷ l) ((ala, _, _, _, _), ps) (ne, nes) al =
        (rw (ne→== a (slot t i) (λ e. omega (arith, e, ala, al, lt, ne))) refl, other l ps nes al)

-- The page that is handed out is the only one whose words change.
pub alloc-outside :
    (s : PagePool) (j : ℕ)
    → let (page, s') = alloc_physical_page s in
      (j < page) ⊎ (page + 4096 ≤ j) → s'.memory j ≡ s.memory j
unfolding alloc_physical_page
alloc-outside s j h = ground (arith, h)

abbrev pub Below512 : List ℕ → Type 0
Below512 is = All (λ i. i < 512) is

-- `x` is none of the tables that are there on the way from `t`.
abbrev pub Avoids : (m : ℕ → ℕ) → (x t : ℕ) → List ℕ → Type 0
Avoids m x t [] = x ≢ t
Avoids m x t (i ∷ is) =
    (x ≢ t) × (present (m (slot t i)) ≡ true → Avoids m x (frame (m (slot t i))) is)

-- The tables that are there on the way from `t` are handed out, and different.
abbrev pub Ready : (m : ℕ → ℕ) → (live : List ℕ) → (t : ℕ) → List ℕ → Type 0
Ready m live t [] = In t live
Ready m live t (i ∷ is) =
    In t live
    × (present (m (slot t i)) ≡ true
        → Avoids m t (frame (m (slot t i))) is × Ready m live (frame (m (slot t i))) is)

-- From `t` the indices lead to `pt`, through other tables.
abbrev pub Leads : (m : ℕ → ℕ) → (t : ℕ) → List ℕ → (pt : ℕ) → Type 0
Leads m t [] pt = t ≡ pt
Leads m t (i ∷ is) pt =
    (t % 4096 ≡ 0)
    × (t ≢ pt)
    × (i < 512)
    × (present (m (slot t i)) ≡ true)
    × Leads m (frame (m (slot t i))) is pt
