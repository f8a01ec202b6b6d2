-- ===== src/Vm/Flags.antt =====
-- CMP of bexe.c and the flags that the conditional jumps read.
use binbows.Base.{ℕ, ◌+◌, ◌-◌, ◌%◌, ◌<◌, ◌≡◌, refl, Bool, not, arith, ltb, leb, ◌==◌, if◌then◌else◌}
use binbows.Vm.State.{Vm, w64, get_reg, update_flags, is_negative}
use binbows.Vm.Ops.{compare_to}
use binbows.Vm.Instr.{Cond, equal, not_equal, less, greater, less_equal, greater_equal, holds}

-- What a condition says of the two numbers that were compared.
abbrev pub compares : Cond → ℕ → ℕ → Bool
compares equal a b = a == b
compares not_equal a b = not (a == b)
compares less a b = ltb a b
compares greater a b = ltb b a
compares less_equal a b = leb a b
compares greater_equal a b = leb b a

flags_lem :
    (vm : Vm) (w : ℕ)
    → (update_flags vm w).flags ≡ (if w == 0 then 1 else (if is_negative w then 6 else 8))
unfolding update_flags
flags_lem vm w = refl

difference :
    (a b : ℕ)
    → a < w64
    → b < w64
    → is_negative a ≡ is_negative b
    → (((a + w64 - b) % w64 == 0) ≡ (a == b)) × (is_negative ((a + w64 - b) % w64) ≡ ltb a b)
difference a b ha hb same = (ground arith, ground arith)

module _ (vm : Vm) (dst x : ℕ) (wide : get_reg vm dst < w64) (narrow : x < w64) where
  -- After a comparison of two words of the same sign, where the difference cannot overflow, the
  -- flags pass the test of each conditional jump exactly if its condition holds of the compared
  -- numbers.
  pub branch-compare :
      is_negative (get_reg vm dst) ≡ is_negative x
      → (c : Cond) → holds c (compare_to vm dst x).1.flags ≡ compares c (get_reg vm dst) x
  branch-compare same c =
      let (zero_iff, negative_iff) = difference (get_reg vm dst) x wide narrow same in
      rw (flags_lem, zero_iff, negative_iff) (table c)
    where
      a : ℕ
      a = get_reg vm dst

      table :
          (c : Cond) → holds c (if a == x then 1 else (if ltb a x then 6 else 8)) ≡ compares c a x
      table equal = ground arith
      table not_equal = ground arith
      table less = ground arith
      table greater = ground arith
      table less_equal = ground arith
      table greater_equal = ground arith
