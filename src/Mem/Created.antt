-- ===== src/Mem/Created.antt =====
-- What `get_or_create_table` of mem.c, called for each of the upper indices, leaves.
use binbows.Base.{
  update_self, ℕ, ◌+◌, ◌%◌, ◌≤◌, ◌<◌, ◌≡◌, ◌≢◌, refl, sym, ap, ◌∙◌, ◌⊎◌, inl, inr, true, false,
  none, some, List, [], ◌∷◌, arith, ltb, ◌==◌, update, Bool-cases, ==→ne, ltb→lt, ne→==,
}
use binbows.Mem.Pages.{PagePool, alloc_physical_page}
use binbows.Mem.Pool.{IsValid, IsPage, alloc_physical_page-IsValid}
use binbows.Mem.Tables.{present, frame, slot, get_or_create_table, create_path}
use binbows.Mem.Way.{In, All-In, write-IsValid, alloc-outside, Below512, Avoids, Ready, Leads}

-- What the calls for the indices leave, if they find a table
pub record Created (s : PagePool) (live : List ℕ) (t : ℕ) (is : List ℕ) (pt : ℕ) (s' : PagePool)
    : Type 0 where
  pub free' : List ℕ
  pub live' : List ℕ
  pub valid : IsValid s' free' live'
  pub up : s'.next_free_page ≢ 0
  pub table_in : In pt live'
  pub leads : Leads s'.memory t is pt
  pub others :
      (x : ℕ)
      → In x live
      → Avoids s.memory x t is
      → (x ≢ pt) × ((j : ℕ) → x ≤ j → j < x + 4096 → s'.memory j ≡ s.memory j)

-- The three ways in which one call can end
get_or_create_table-present :
    (entry : ℕ) (s : PagePool)
    → present (s.memory entry) ≡ true
    → get_or_create_table entry s ≡ (some (frame (s.memory entry)), s)
unfolding get_or_create_table
get_or_create_table-present entry s e = rw (get_or_create_table, e) refl

get_or_create_table-full :
    (entry : ℕ) (s : PagePool)
    → present (s.memory entry) ≡ false
    → ((alloc_physical_page s).0 == 0) ≡ true
    → get_or_create_table entry s ≡ (none, (alloc_physical_page s).1)
unfolding get_or_create_table
get_or_create_table-full entry s e f = rw (get_or_create_table, e, f) refl

-- The pool with a new table in an entry
abbrev with_table : (entry : ℕ) → PagePool → PagePool
with_table entry s =
    let (page, s') = alloc_physical_page s in
    record s' { memory = update s'.memory entry (page + 7) }

get_or_create_table-new :
    (entry : ℕ) (s : PagePool)
    → present (s.memory entry) ≡ false
    → ((alloc_physical_page s).0 == 0) ≡ false
    → get_or_create_table entry s ≡ (some (alloc_physical_page s).0, with_table entry s)
unfolding get_or_create_table
get_or_create_table-new entry s e f = rw (get_or_create_table, e, f) refl

create_path-some :
    (i t next : ℕ) (is : List ℕ) (s s1 : PagePool)
    → get_or_create_table (slot t i) s ≡ (some next, s1)
    → create_path t (i ∷ is) s ≡ create_path next is s1
unfolding create_path
create_path-some i t next is s s1 e =
    rw (create_path, e) (ap (λ q. create_path next is q) (ap (λ r. r.1) e))

create_path-none :
    (i t : ℕ) (is : List ℕ) (s s1 : PagePool)
    → get_or_create_table (slot t i) s ≡ (none, s1)
    → (create_path t (i ∷ is) s).0 ≡ none
unfolding create_path
create_path-none i t is s s1 e = rw (create_path, e) refl

-- A table of zeros leads nowhere.
Avoids-zero :
    (m : ℕ → ℕ) (x t : ℕ) (is : List ℕ)
    → Below512 is
    → ((i : ℕ) → i < 512 → m (slot t i) ≡ 0)
    → x ≢ t
    → Avoids m x t is
Avoids-zero m x t [] small zero_at ne = ne
Avoids-zero m x t (i ∷ is) (lt, small) zero_at ne =
    (ne, (λ e. absurd (ground (arith, e, zero_at i lt))))

Ready-zero :
    (m : ℕ → ℕ) (live : List ℕ) (t : ℕ) (is : List ℕ)
    → Below512 is
    → ((i : ℕ) → i < 512 → m (slot t i) ≡ 0)
    → In t live
    → Ready m live t is
Ready-zero m live t [] small zero_at t_in = t_in
Ready-zero m live t (i ∷ is) (lt, small) zero_at t_in =
    (t_in, (λ e. absurd (ground (arith, e, zero_at i lt))))

pub apart_pages :
    (page x j : ℕ)
    → page % 4096 ≡ 0
    → x % 4096 ≡ 0
    → page ≢ x
    → x ≤ j
    → j < x + 4096
    → (j < page) ⊎ (page + 4096 ≤ j)
apart_pages page x j pal xal ne lo hi = elim (Bool-cases (ltb j page)) [
  | inl f ↦ inl (ltb→lt j page f)
  | inr f ↦ inr (omega (arith, not_lt f, ne))
]
  where
    not_lt : ltb j page ≡ false → page ≤ j
    not_lt f = ground (arith, f)

pub create_path-Created :
    (is : List ℕ) (t : ℕ) (s : PagePool) (free live : List ℕ) (pt : ℕ)
    → IsValid s free live
    → s.next_free_page ≢ 0
    → Below512 is
    → Ready s.memory live t is
    → (create_path t is s).0 ≡ some pt
    → Created s live t is pt (create_path t is s).1
unfolding create_path
create_path-Created [] t s free live pt v up small ready e =
    let at : t ≡ pt = ground (arith, e) in
    record {
      free' = free;
      live' = live;
      valid = v;
      up = up;
      table_in = rw at at ready;
      leads = at;
      others = λ x x_in ne. ((λ z. ne (z ∙ sym at)), (λ j a b. refl));
    }
create_path-Created (i ∷ is) t s free live pt v up (lt, small) (t_in, ready) e =
    let (al, _, _, _, _) = All-In (IsPage s) t live v.live_pages t_in in
    elim (Bool-cases (present (s.memory (slot t i)))) [
      | inl there ↦
          let path =
            create_path-some i t (frame (s.memory (slot t i))) is s s
              (get_or_create_table-present (slot t i) s there) in
          let next = frame (s.memory (slot t i)) in
          let (avoids, ready') = ready there in
          let c = create_path-Created is next s free live pt v up small ready' (rw path at e) in
          let (ne, same) = c.others t t_in avoids in
          let kept = same (slot t i) (omega arith) (omega (arith, lt)) in
          rw path (record {
            free' = c.free';
            live' = c.live';
            valid = c.valid;
            up = c.up;
            table_in = c.table_in;
            leads = (al, ne, lt, rw kept there, rw kept c.leads);
            others = λ x x_in (nx, f). c.others x x_in (f there);
          })
      | inr absent ↦ elim (Bool-cases ((alloc_physical_page s).0 == 0)) [
        | inl none_left ↦
            let failed =
              create_path-none i t is s (alloc_physical_page s).1
                (get_or_create_table-full (slot t i) s absent none_left) in
            absurd (ground (arith, e, failed))
        | inr some_page ↦
            let page = (alloc_physical_page s).0 in
            let s1 = with_table (slot t i) s in
            let path =
              create_path-some i t page is s s1
                (get_or_create_table-new (slot t i) s absent some_page) in
            elim (alloc_physical_page-IsValid v up) [
              | inl (z, _, _, _) ↦ absurd (==→ne page 0 some_page z)
              | inr (free1, v1, zeroed) ↦
                  let ((pal, pnz, _, plt, _), _) = v1.live_pages in
                  let (fresh, _) = v1.live_distinct in
                  let new_t = All-In (λ a. page ≢ a) t live fresh t_in in
                  let zeros : (k : ℕ) → k < 512 → s1.memory (slot page k) ≡ 0 = λ k hk.
                    rw
                      (ne→== (slot page k) (slot t i)
                        (λ z. omega (arith, z, pal, al, lt, hk, new_t)))
                      (zeroed (slot page k) (omega arith) (omega (arith, hk))) in
                  let c =
                    create_path-Created is page s1 free1 (page ∷ live) pt
                      (write-IsValid t i (page + 7) v1 (inr t_in) lt) (λ z. omega (arith, z, plt))
                      small (Ready-zero s1.memory (page ∷ live) page is small zeros (inl refl))
                      (rw path at e) in
                  let (ne, same) =
                    c.others t (inr t_in)
                      (Avoids-zero s1.memory t page is small zeros (λ z. new_t (sym z))) in
                  let entry : (create_path page is s1).1.memory (slot t i) ≡ page + 7 =
                    same (slot t i) (omega arith) (omega (arith, lt))
                    ∙ update_self (alloc_physical_page s).1.memory (slot t i) (page + 7) in
                  let odd : present (page + 7) ≡ true = ground (arith, pal) in
                  let back : frame (page + 7) ≡ page = omega (arith, pal) in
                  rw path (record {
                    free' = c.free';
                    live' = c.live';
                    valid = c.valid;
                    up = c.up;
                    table_in = c.table_in;
                    leads = (al, ne, lt, rw entry odd, rw (entry, back) c.leads);
                    others = λ x x_in (nx, _).
                        let new_x = All-In (λ a. page ≢ a) x live fresh x_in in
                        let (xal, _, _, _, _) = All-In (IsPage s) x live v.live_pages x_in in
                        let (nxt, samex) =
                          c.others x (inr x_in)
                            (Avoids-zero s1.memory x page is small zeros (λ z. new_x (sym z))) in
                        (
                          nxt,
                          (λ j a b.
                              samex j a b
                              ∙ (rw
                                  (ne→== j (slot t i)
                                    (λ z. omega (arith, z, xal, al, lt, nx, a, b)))
                                  (alloc-outside s j (apart_pages page x j pal xal new_x a b)))),
                        );
                  })
            ]
      ]
    ]
