-- ===== src/Fat/Entries.antt =====
-- The entries of the three kinds of table. A table is a function from the byte's offset; 12, 16 and
-- 28 bits are packed and unpacked by the arithmetic that the shifts and masks of the code do.
use binbows.Base.{
  ℕ, ◌+◌, ◌*◌, ◌/◌, ◌%◌, ◌≤◌, ◌<◌, ◌≡◌, inl, inr, arith, ltb, ◌==◌, if◌then◌else◌, Bool-cases,
}

abbrev pub Bytes : Type 0
Bytes = ℕ → ℕ

abbrev pub AreBytes : Bytes → Type 0
AreBytes t = (i : ℕ) → t i < 256

-- `*(uint16_t*)(t + a)`
abbrev pub get16 : Bytes → ℕ → ℕ
get16 t a = t a + 256 * t (a + 1)

abbrev pub set16 : Bytes → ℕ → ℕ → Bytes
set16 t a v j = if j == a then v % 256 else (if j == a + 1 then v / 256 % 256 else t j)

-- `*(uint32_t*)(t + a)`
abbrev pub get32 : Bytes → ℕ → ℕ
get32 t a = t a + 256 * t (a + 1) + 0x10000 * t (a + 2) + 0x1000000 * t (a + 3)

abbrev pub set32 : Bytes → ℕ → ℕ → Bytes
set32 t a v j =
    if j == a
    then v % 256
    else (if j == a + 1
        then v / 256 % 256
        else (if j == a + 2
            then v / 0x10000 % 256
            else (if j == a + 3 then v / 0x1000000 % 256 else t j)))

abbrev pub offset12 : ℕ → ℕ
offset12 cluster = cluster + cluster / 2

-- An odd cluster has the upper twelve bits of its word, an even one the lower.
unfoldable pub fat12_read_entry : Bytes → ℕ → ℕ
fat12_read_entry t cluster =
    if ltb cluster 2
    then 0xFFF
    else (let value = get16 t (offset12 cluster) in
        if cluster % 2 == 1 then value / 16 else value % 0x1000)

unfoldable pub fat12_write_entry : Bytes → ℕ → ℕ → Bytes
fat12_write_entry t cluster value =
    if ltb cluster 2
    then t
    else (let current = get16 t (offset12 cluster) in
        set16 t (offset12 cluster) (
          if cluster % 2 == 1
          then (value * 16) % 0x10000 + current % 16
          else current / 0x1000 * 0x1000 + value % 0x1000))

unfoldable pub fat16_read_entry : Bytes → ℕ → ℕ
fat16_read_entry t cluster = if ltb cluster 2 then 0xFFFF else get16 t (2 * cluster)

unfoldable pub fat16_write_entry : Bytes → ℕ → ℕ → Bytes
fat16_write_entry t cluster value = if ltb cluster 2 then t else set16 t (2 * cluster) value

abbrev pub fat32_eoc : ℕ
fat32_eoc = 0x0FFFFFF8

unfoldable pub fat32_read_entry : Bytes → ℕ → ℕ
fat32_read_entry t cluster = if ltb cluster 2 then fat32_eoc else get32 t (4 * cluster) % 0x10000000

unfoldable pub fat32_write_entry : Bytes → ℕ → ℕ → Bytes
fat32_write_entry t cluster value =
    if ltb cluster 2
    then t
    else set32 t (4 * cluster)
        (get32 t (4 * cluster) / 0x10000000 * 0x10000000 + value % 0x10000000)

pub set16-AreBytes : (t : Bytes) (a v : ℕ) → AreBytes t → AreBytes (set16 t a v)
set16-AreBytes t a v h j = ground (arith, h j)

pub set32-AreBytes : (t : Bytes) (a v : ℕ) → AreBytes t → AreBytes (set32 t a v)
set32-AreBytes t a v h j = ground (arith, h j)

pub fat12-write-AreBytes : (t : Bytes) (c v : ℕ) → AreBytes t → AreBytes (fat12_write_entry t c v)
unfolding fat12_write_entry
fat12-write-AreBytes t c v h = elim (Bool-cases (ltb c 2)) [
  | inl e ↦ rw e h
  | inr e ↦ rw e (set16-AreBytes t (offset12 c) _ h)
]

-- In a table of bytes, a value of 12 bits written to the FAT12 entry of a cluster from 2 on is read
-- back.
pub fat12-read-write_self :
    (t : Bytes) (c v : ℕ)
    → AreBytes t
    → 2 ≤ c
    → v < 0x1000
    → fat12_read_entry (fat12_write_entry t c v) c ≡ v
unfolding fat12_read_entry fat12_write_entry
fat12-read-write_self t c v h hc hv = ground (arith, h (offset12 c), h (offset12 c + 1))
