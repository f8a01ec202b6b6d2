-- ===== src/Fat/Laws.antt =====
-- The laws of the entries of the three kinds of table.
use binbows.Base.{
  ℕ, ◌+◌, ◌*◌, ◌/◌, ◌%◌, ◌≤◌, ◌<◌, ◌≡◌, ◌≢◌, ◌∙◌, inl, inr, arith, ltb, Bool-cases, not-ltb,
}
use binbows.Fat.Table.{FatTable}
use binbows.Fat.Entries.{
  Bytes, AreBytes, set16, get32, set32, offset12, fat12_read_entry, fat12_write_entry,
  fat16_read_entry, fat16_write_entry, fat32_eoc, fat32_read_entry, fat32_write_entry,
  fat12-write-AreBytes, fat12-read-write_self, set16-AreBytes, set32-AreBytes,
}

set16-bytes : (t : Bytes) (a b v : ℕ) → AreBytes t → b ≢ a → b ≢ a + 1 → set16 t a v b ≡ t b
set16-bytes t a b v h n m = ground arith

-- In a table of bytes, writing a value of 12 bits to the FAT12 entry of one cluster from 2 on
-- leaves the entry of every other one unchanged, those that share a byte with it included.
pub fat12-read-write_ne :
    (t : Bytes) (c d v : ℕ)
    → AreBytes t
    → 2 ≤ c
    → 2 ≤ d
    → c ≢ d
    → v < 0x1000
    → fat12_read_entry (fat12_write_entry t c v) d ≡ fat12_read_entry t d
unfolding fat12_read_entry fat12_write_entry
fat12-read-write_ne t c d v h hc hd ne hv =
    ground (arith, h (offset12 c), h (offset12 c + 1), h (offset12 d), h (offset12 d + 1))

pub fat16-read-write_self :
    (t : Bytes) (c v : ℕ)
    → AreBytes t
    → 2 ≤ c
    → v < 0x10000
    → fat16_read_entry (fat16_write_entry t c v) c ≡ v
unfolding fat16_read_entry fat16_write_entry
fat16-read-write_self t c v h hc hv = ground arith

pub fat16-read-write_ne :
    (t : Bytes) (c d v : ℕ)
    → AreBytes t
    → 2 ≤ c
    → 2 ≤ d
    → c ≢ d
    → v < 0x10000
    → fat16_read_entry (fat16_write_entry t c v) d ≡ fat16_read_entry t d
unfolding fat16_read_entry fat16_write_entry
fat16-read-write_ne t c d v h hc hd ne hv = ground arith

pub fat16-write-AreBytes : (t : Bytes) (c v : ℕ) → AreBytes t → AreBytes (fat16_write_entry t c v)
unfolding fat16_write_entry
fat16-write-AreBytes t c v h = elim (Bool-cases (ltb c 2)) [
  | inl e ↦ rw e h
  | inr e ↦ rw e (set16-AreBytes t (2 * c) _ h)
]

split32 :
    (w : ℕ)
    → w < 0x100000000
    → w % 256
        + 256 * (w / 256 % 256)
        + 0x10000 * (w / 0x10000 % 256)
        + 0x1000000 * (w / 0x1000000 % 256)
      ≡ w
split32 w h = omega arith

get32-set32_self : (t : Bytes) (a w : ℕ) → w < 0x100000000 → get32 (set32 t a w) a ≡ w
get32-set32_self t a w h = b ∙ split32 w h
  where
    b :
        get32 (set32 t a w) a
        ≡ w % 256
          + 256 * (w / 256 % 256)
          + 0x10000 * (w / 0x10000 % 256)
          + 0x1000000 * (w / 0x1000000 % 256)
    b = ground arith

get32-lt : (t : Bytes) (a : ℕ) → AreBytes t → get32 t a < 0x100000000
get32-lt t a h = omega (arith, h a, h (a + 1), h (a + 2), h (a + 3))

top_bits :
    (x v : ℕ)
    → x < 0x100000000
    → v < 0x10000000
    → x / 0x10000000 * 0x10000000 + v % 0x10000000 < 0x100000000
top_bits x v h k = omega arith

low_bits :
    (x v : ℕ) → v < 0x10000000 → (x / 0x10000000 * 0x10000000 + v % 0x10000000) % 0x10000000 ≡ v
low_bits x v k = omega arith

pub fat32-read-write_self :
    (t : Bytes) (c v : ℕ)
    → AreBytes t
    → 2 ≤ c
    → v < 0x10000000
    → fat32_read_entry (fat32_write_entry t c v) c ≡ v
unfolding fat32_read_entry fat32_write_entry
fat32-read-write_self t c v h hc hv =
    rw (not-ltb c 2 hc, get32-set32_self t (4 * c) _ (top_bits _ v (get32-lt t (4 * c) h) hv))
      (low_bits (get32 t (4 * c)) v hv)

pub fat32-read-write_ne :
    (t : Bytes) (c d v : ℕ)
    → AreBytes t
    → 2 ≤ c
    → 2 ≤ d
    → c ≢ d
    → v < 0x10000000
    → fat32_read_entry (fat32_write_entry t c v) d ≡ fat32_read_entry t d
unfolding fat32_read_entry fat32_write_entry
fat32-read-write_ne t c d v h hc hd ne hv = ground arith

pub fat32-write-AreBytes : (t : Bytes) (c v : ℕ) → AreBytes t → AreBytes (fat32_write_entry t c v)
unfolding fat32_write_entry
fat32-write-AreBytes t c v h = elim (Bool-cases (ltb c 2)) [
  | inl e ↦ rw e h
  | inr e ↦ rw e (set32-AreBytes t (4 * c) _ h)
]

abbrev pub fat12 : FatTable
fat12 = record {
  Table = Bytes;
  InRange = AreBytes;
  limit = 0x1000;
  end_of_chain = 0xFFF;
  read_entry = fat12_read_entry;
  write_entry = fat12_write_entry;
  end-lt = omega arith;
  write-InRange = λ t c v k. fat12-write-AreBytes t c v;
  read-write_self = fat12-read-write_self;
  read-write_ne = fat12-read-write_ne;
}

abbrev pub fat16 : FatTable
fat16 = record {
  Table = Bytes;
  InRange = AreBytes;
  limit = 0x10000;
  end_of_chain = 0xFFFF;
  read_entry = fat16_read_entry;
  write_entry = fat16_write_entry;
  end-lt = omega arith;
  write-InRange = λ t c v k. fat16-write-AreBytes t c v;
  read-write_self = fat16-read-write_self;
  read-write_ne = fat16-read-write_ne;
}

abbrev pub fat32 : FatTable
fat32 = record {
  Table = Bytes;
  InRange = AreBytes;
  limit = 0x10000000;
  end_of_chain = fat32_eoc;
  read_entry = fat32_read_entry;
  write_entry = fat32_write_entry;
  end-lt = omega arith;
  write-InRange = λ t c v k. fat32-write-AreBytes t c v;
  read-write_self = fat32-read-write_self;
  read-write_ne = fat32-read-write_ne;
}
