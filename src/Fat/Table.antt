-- ===== src/Fat/Table.antt =====
-- What the three file systems have in common: a file allocation table is read and written by the
-- entry. The laws are those that the allocator's proofs use; `Fat.Laws` fills them for each
-- kind of table.
use binbows.Base.{ℕ, ◌≤◌, ◌<◌, ◌≡◌, ◌≢◌}

pub record FatTable : Type 1 where
  pub Table : Type 0
  -- the bytes of the table are bytes
  pub InRange : Table → Type 0
  -- one more than the largest value of an entry
  pub limit : ℕ
  -- the mark of the last cluster of a file
  pub end_of_chain : ℕ
  pub read_entry : Table → ℕ → ℕ
  pub write_entry : Table → ℕ → ℕ → Table
  pub end-lt : end_of_chain < limit
  pub write-InRange : (t : Table) (c v : ℕ) → v < limit → InRange t → InRange (write_entry t c v)
  pub read-write_self :
      (t : Table) (c v : ℕ) → InRange t → 2 ≤ c → v < limit → read_entry (write_entry t c v) c ≡ v
  pub read-write_ne :
      (t : Table) (c d v : ℕ)
      → InRange t
      → 2 ≤ c
      → 2 ≤ d
      → c ≢ d
      → v < limit
      → read_entry (write_entry t c v) d ≡ read_entry t d
