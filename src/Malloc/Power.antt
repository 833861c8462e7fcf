-- ===== src/Malloc/Power.antt =====
-- `is_power_of_two` of src/lib.rs.
use lralloc_rs.Common.{
  ℕ, ◌-◌, ◌<◌, ◌≡◌, refl, true, arith, bit_and-le, ◌==◌, Bool-cases, inl, inr, ==_iff,
}
use lralloc_rs.MemInfo.{word}
use lralloc_rs.Malloc.{is_power_of_two}

-- is_power_of_two holds of every usize above 0.
pub is_power_of_two-pos : (x : ℕ) → 0 < x → x < word → is_power_of_two x ≡ true
unfolding is_power_of_two
is_power_of_two-pos x pos small = elim (Bool-cases (x == word - 1)) [
  | inl ones ↦ let e : x ≡ word - 1 = (==_iff x (word - 1)).0 ones in rw e refl
  | inr less ↦ ground (arith, bit_and-le x (x - 1))
]
